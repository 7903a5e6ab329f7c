-- ===== src/Nfs.antt =====
-- nct_rpc_encode (nct_rpc.c), the requests of nct_nfs.c, the mount protocol (nct_nfs_mount), and
-- the vnode that it makes (nct_vnode.c).
--
-- The RPC library's encoder of call headers is outside the program, as are the port mapper and the
-- sockets: what they come to is an argument.
pub mod Messages
pub mod Mount
use nct.Base.{
  ℕ, ◌+◌, ◌≡◌, Bool, true, false, not, Option, none, some, List, [], ◌∷◌, ◌++◌, ltb, leb, ◌==◌,
  ◌||◌, if◌then◌else◌, length,
}
use nct.Rpc.{
  Sent, Received, Ssize, count, minus_one, Outcome, waits, returns, aborts, nct_rpc_send,
  nct_rpc_recv,
}
use nct.Rpc.Decode.{RpcLib, RpcMsg, rpc_success, nct_rpc_decode}
use nct.Req.Loop.{as_size, rpcmin}
use nct.Xdr.{
  XdrLib, Fattr3, Mountres3, undecodable, refused, mounted, nct_xdr_mountres3_decode,
  nct_xdr_dirpath, nct_xdr_getattr3_encode, nct_xdr_read3_encode,
}
use nct.Xdr.Proc.{encode_then}

-- AUTH: the encoded credentials and verifier.
pub record Auth : Type 0 where
  pub ah_cred : List ℕ
  pub ah_verf : List ℕ

-- A call header; `rm_xid` is 0 until the request is sent, and `rm_direction` is CALL.
pub record CallMsg : Type 0 where
  pub cb_rpcvers : ℕ
  pub cb_prog : ℕ
  pub cb_vers : ℕ
  pub cb_proc : ℕ
  pub cb_cred : List ℕ
  pub cb_verf : List ℕ

pub record CallLib : Type 0 where
  pub null_auth : List ℕ
  pub xdr_callmsg : CallMsg → Option (List ℕ)

-- What nct_rpc_encode comes to: abort(), -1, or a message with its length.
pub data Encoded : Type 0 where
  encode_aborts unencoded : Encoded
  encoded : List ℕ → Encoded

-- The bytes behind the four that the record mark takes, if the buffer has the room.
abbrev pub fit : List ℕ → ℕ → Option (List ℕ) → Encoded
fit hole bufsz none = unencoded
fit hole bufsz (some bytes) =
    if leb (length bytes + 4) bufsz then encoded (hole ++ bytes) else unencoded

abbrev pub authorize : CallLib → Option Auth → CallMsg → CallMsg
authorize lib none msg = record msg { cb_cred = lib.null_auth; cb_verf = lib.null_auth }
authorize lib (some auth) msg = record msg { cb_cred = auth.ah_cred; cb_verf = auth.ah_verf }

-- nct_rpc_encode. `hole` is what the first four bytes of the buffer hold, `none` for a null pointer,
-- and `args` what the arguments' XDR procedure makes.
unfoldable pub nct_rpc_encode :
    CallLib → CallMsg → Option Auth → Option (List ℕ) → Option (List ℕ) → ℕ → Encoded
nct_rpc_encode lib msg auth args none bufsz = encode_aborts
nct_rpc_encode lib msg auth args (some hole) bufsz =
    if ltb bufsz 28
    then encode_aborts
    else fit hole bufsz (encode_then (lib.xdr_callmsg (authorize lib auth msg)) args)

-- The header before nct_rpc_encode puts the credentials in; RPC_MSG_VERSION is 2.
abbrev pub call : ℕ → ℕ → ℕ → CallMsg
call prog vers proc = record {
  cb_rpcvers = 2;
  cb_prog = prog;
  cb_vers = vers;
  cb_proc = proc;
  cb_cred = [];
  cb_verf = [];
}

abbrev pub nfs_program : ℕ
nfs_program = 100003

abbrev pub mount_program : ℕ
mount_program = 100005

module _ (lib : CallLib) (xdr : XdrLib) (auth : Option Auth) (fh hole : List ℕ) (room : ℕ) where
  -- nct_nfs_null_encode
  unfoldable pub nct_nfs_null_encode : Encoded
  nct_nfs_null_encode = nct_rpc_encode lib (call nfs_program 3 0) none (some []) (some hole) room

  -- nct_nfs_getattr3_encode
  unfoldable pub nct_nfs_getattr3_encode : Encoded
  nct_nfs_getattr3_encode =
      nct_rpc_encode lib (call nfs_program 3 1) auth ((nct_xdr_getattr3_encode xdr).encode fh)
        (some hole) room

  -- nct_nfs_read3_encode
  unfoldable pub nct_nfs_read3_encode : ℕ → ℕ → Encoded
  nct_nfs_read3_encode offset len =
      nct_rpc_encode lib (call nfs_program 3 6) auth
        ((nct_xdr_read3_encode xdr).encode (record { file = fh; offset = offset; count = len }))
        (some hole) room

-- nct_vn_t; the attributes are not set when it is made.
pub record Vnode : Type 0 where
  pub xvn_fh : List ℕ
  pub xvn_fattr : Option Fattr3
  pub xvn_name : List ℕ

-- nct_vn_alloc; `room` says whether malloc() succeeds.
abbrev pub nct_vn_alloc : Bool → List ℕ → List ℕ → Option Vnode
nct_vn_alloc room fh name =
    if room then some (record { xvn_fh = fh; xvn_fattr = none; xvn_name = name }) else none

-- The exit code for a refused mount, of <sysexits.h>: EX_NOPERM, EX_IOERR, EX_DATAERR and
-- EX_PROTOCOL.
unfoldable pub exit_code : ℕ → ℕ
exit_code status =
    if status == 1 || status == 13
    then 77
    else if status == 5
    then 74
    else if status == 2 || status == 20 || status == 22 || status == 63
    then 65
    else 76

-- What nct_nfs_mount comes to: abort(); exit(); a blocked call; a send of the failed encoder's
-- length -1 from a buffer of 1024 bytes; or the mount's vnode.
pub data NfsMount : Type 0 where
  mount_aborts mount_blocks mount_overruns : NfsMount
  mount_exits : ℕ → NfsMount
  has_vnode : Vnode → NfsMount

abbrev pub made : Option Vnode → NfsMount
made none = mount_aborts
made (some vn) = has_vnode vn

-- What the system calls and the libraries come to during the mount.
pub record MountEnv : Type 0 where
  pub port : ℕ  -- pmap_getport(), 0 if it fails
  pub has_socket : Bool
  pub connects : Bool
  pub calls : CallLib
  pub xdr : XdrLib
  pub rpc : RpcLib
  pub hole : List ℕ  -- the first bytes of `txbuf`
  pub sends : List Sent
  pub recvs : List Received
  pub room : Bool  -- for the vnode

-- The size of `txbuf` and `rxbuf`.
abbrev pub bufsz : ℕ
bufsz = 1024

module _ (env : MountEnv) where
  abbrev pub on_mountres : Mountres3 env.xdr → NfsMount
  on_mountres undecodable = mount_aborts
  on_mountres (refused status) = mount_exits (exit_code status)
  on_mountres (mounted r) = made (nct_vn_alloc env.room r.fhandle (b'/' ∷ []))

  abbrev pub on_decoded : ℕ × Option RpcMsg → NfsMount
  on_decoded (stat, none) = mount_aborts
  on_decoded (stat, some reply) =
      if stat == rpc_success
      then on_mountres (nct_xdr_mountres3_decode env.xdr reply.results)
      else mount_aborts

  abbrev pub on_received : Outcome → NfsMount
  on_received (waits _ _) = mount_blocks
  on_received aborts = mount_aborts
  on_received (returns len s) =
      if ltb (as_size len) rpcmin
      then mount_aborts
      else on_decoded (nct_rpc_decode env.rpc s.mem len)

  abbrev pub on_sent : ℕ → Option Ssize → NfsMount
  on_sent txlen none = mount_blocks
  on_sent txlen (some minus_one) = mount_aborts
  on_sent txlen (some (count n)) =
      if n == txlen then on_received (nct_rpc_recv bufsz none env.recvs).0 else mount_aborts

  abbrev pub on_encoded : Encoded → NfsMount
  on_encoded encode_aborts = mount_aborts
  on_encoded unencoded = mount_overruns
  on_encoded (encoded bytes) = on_sent (length bytes) (nct_rpc_send bytes env.sends).0

  -- The MOUNT3_MNT call for a path.
  abbrev pub mount_call : Option Auth → List ℕ → Encoded
  mount_call auth path =
      nct_rpc_encode env.calls (call mount_program 3 1) auth ((nct_xdr_dirpath env.xdr).encode path)
        (some env.hole) bufsz

  -- nct_nfs_mount
  unfoldable pub nct_nfs_mount : Option Auth → List ℕ → NfsMount
  nct_nfs_mount auth path =
      if env.port == 0 || not env.has_socket || not env.connects
      then mount_aborts
      else on_encoded (mount_call auth path)
