-- ===== src/Mount.antt =====
-- nct_mount.c: the target of a mount, the connection, and nct_mount as the sequence of its steps.
--
-- The state of the mount object after the receive threads have run is an argument (`threads`): a
-- function of the state that nct_req_send leaves. The resolver, the sockets, and the threads'
-- creation, whose failure aborts the program, are arguments too.
pub mod Paths
pub mod Result
pub mod Umount
use nct.Base.{
  ℕ, ◌+◌, ◌-◌, ◌^◌, ◌≡◌, Bool, true, false, not, ◌||◌, ◌&&◌, Option, none, some, List, [], ◌∷◌,
  ◌==◌, if◌then◌else◌, min, length,
}
use nct.Clp.Chars.{is_alpha, is_digit}
use nct.Rpc.{Sent}
use nct.Rpc.Decode.{rpc_success}
use nct.Req.State.{Req, Mnt, Msg, Stats, set_msg}
use nct.Req.Pool.{Alloc, allocated, sleeps, nct_req_alloc, nct_req_free, nct_req_create}
use nct.Req.Send.{Sending, delivered, blocked, send_aborts, nct_req_send}
use nct.Req.Wait.{Waiting, ready, dozes, nct_req_wait}
use nct.Req.Loop.{zero_stats}
use nct.Xdr.{Fattr3, nct_xdr_getattr3_decode}
use nct.Nfs.{
  Auth, MountEnv, NfsMount, mount_aborts, mount_blocks, mount_overruns, mount_exits, has_vnode,
  Vnode, nct_nfs_mount,
}
use nct.Jobs.{put_message, started}

-- The target: `mnt_user`, `mnt_server` and `mnt_path`.
pub record Target : Type 0 where
  pub mnt_user : List ℕ
  pub mnt_server : List ℕ
  pub mnt_path : List ℕ

-- A string cut at the first `c`, which strchr() finds and a NUL replaces.
unfoldable pub cut_at : ℕ → List ℕ → Option (List ℕ × List ℕ)
cut_at c [] = none
cut_at c (x ∷ xs) =
    let rest = cut_at c xs in
    if x == c
    then some ([], xs)
    else elim rest [ none ↦ none | some (before, behind) ↦ some (x ∷ before, behind) ]

abbrev pub put_path : List ℕ → List ℕ → Option (List ℕ × List ℕ) → Target
put_path user server none = record { mnt_user = user; mnt_server = server; mnt_path = b'/' ∷ [] }
put_path user server (some (host, path)) = record {
  mnt_user = user;
  mnt_server = host;
  mnt_path = path;
}

abbrev pub root : List ℕ
root = b'r' ∷ b'o' ∷ b'o' ∷ b't' ∷ []

abbrev pub put_user : List ℕ → Option (List ℕ × List ℕ) → Target
put_user args none = put_path root args (cut_at b':' args)
put_user args (some (user, server)) = put_path user server (cut_at b':' server)

-- The parse of [user@]host[:/export...] in nct_mount.
unfoldable pub mount_target : List ℕ → Target
mount_target args = put_user args (cut_at b'@' args)

-- `isalpha(server[0]) || isdigit(server[0])`
abbrev pub is_host : List ℕ → Bool
is_host [] = false
is_host (c ∷ _) = is_alpha c || is_digit c

-- What nct_connect works with: the new socket, if socket() makes one, whether connect() succeeds,
-- and `errno` if something fails.
pub record Dial : Type 0 where
  pub socket : Option ℕ
  pub connected : Bool
  pub errno : ℕ

-- The result of nct_connect, the new `mnt_fd` (`none` for -1), and the descriptors it has closed.
pub record Dialled : Type 0 where
  pub rc : ℕ
  pub fd : Option ℕ
  pub closed : List ℕ

abbrev pub opened : Option ℕ → List ℕ
opened none = []
opened (some fd) = fd ∷ []

abbrev pub dial : Dial → List ℕ → Option ℕ → Dialled
dial d before none = record { rc = d.errno; fd = none; closed = before }
dial d before (some fd) =
    if d.connected
    then record { rc = 0; fd = some fd; closed = before }
    else record { rc = d.errno; fd = none; closed = fd ∷ before }

-- nct_connect, with the `mnt_fd` from before.
unfoldable pub nct_connect : Dial → Option ℕ → Dialled
nct_connect d fd = dial d (opened fd) d.socket

-- What nct_mount comes to: NULL; abort(); exit(); a blocked call; the undefined send of
-- nct_nfs_mount; or a mount.
pub data Mounting : Type 0 where
  unmounted unmount_aborts mounting_blocks mounting_overruns : Mounting
  mounting_exits : ℕ → Mounting
  is_mounted : Mnt → Target → Vnode → Mounting

-- What nct_mount has from outside.
pub record System : Type 0 where
  pub room : Bool  -- aligned_alloc()
  pub resolves : Bool  -- gethostbyname(), an AF_INET address, inet_ntop()
  pub auth : Option Auth  -- authunix_create()
  pub dials : Dial
  pub nfs : MountEnv
  pub getattr_message : List ℕ  -- nct_nfs_getattr3_encode()
  pub net : List Sent
  pub now : ℕ
  pub junk : ℕ  -- what `res.status` holds at first
  pub threads : Mnt → Mnt

abbrev pub nelem_tdv : ℕ
nelem_tdv = 128

-- The statistics of a new mount, `latency_min` at UINT64_MAX.
abbrev pub fresh_stats : Stats
fresh_stats = record zero_stats { latency_min = 2 ^ 64 - 1 }

module _ (sys : System) (target : Target) where
  -- The attributes of the reply to the GETATTR, and what is done with them.
  abbrev pub on_attributes : Vnode → ℕ → Mnt → Option Fattr3 × ℕ → Mounting
  on_attributes vn r m (none, _) = unmount_aborts
  on_attributes vn r m (some attrs, _) =
      is_mounted (record (nct_req_free r m).0 { mnt_stats = fresh_stats; vn_size = attrs.size })
        target (record vn { xvn_fattr = some attrs })

  abbrev pub on_wait : Vnode → ℕ → Waiting → Mounting
  on_wait vn r (dozes m) = mounting_blocks
  on_wait vn r (ready m) =
      let g = m.msg_at (m.req_at r).req_msg in
      if g.msg_stat == rpc_success
      then on_attributes vn r m (nct_xdr_getattr3_decode sys.nfs.xdr sys.junk g.msg_body)
      else unmounted

  abbrev pub on_getattr : Vnode → ℕ → Sending → Mounting
  on_getattr vn r (delivered m _) = on_wait vn r (nct_req_wait r (sys.threads m))
  on_getattr vn r (blocked _ _) = mounting_blocks
  on_getattr vn r send_aborts = unmount_aborts

  abbrev pub on_alloc : Vnode → Alloc → Mounting
  on_alloc vn (sleeps m) = mounting_blocks
  on_alloc vn (allocated r m) =
      on_getattr vn r
        (nct_req_send r (put_message r sys.getattr_message (started r sys.now m)) sys.net)

  abbrev pub on_nfs : Mnt → NfsMount → Mounting
  on_nfs m mount_aborts = unmount_aborts
  on_nfs m mount_blocks = mounting_blocks
  on_nfs m mount_overruns = mounting_overruns
  on_nfs m (mount_exits code) = mounting_exits code
  on_nfs m (has_vnode vn) = on_alloc vn (nct_req_alloc m)

  -- From the connection on.
  abbrev pub on_connect : (Mnt → Mnt) → ℕ → Mnt → ℕ → Mounting
  on_connect spawn jobs_max m rc =
      if rc == 0
      then on_nfs (spawn (nct_req_create (record m { mnt_jobs_max = jobs_max })))
          (nct_nfs_mount sys.nfs sys.auth target.mnt_path)
      else unmounted

  -- authunix_create(), and the rest.
  abbrev pub on_auth : (Mnt → Mnt) → ℕ → Mnt → Option Auth → Mounting
  on_auth spawn jobs_max m none = unmounted
  on_auth spawn jobs_max m (some _) = on_connect spawn jobs_max m (nct_connect sys.dials none).rc

-- nct_mount. `m` is the zeroed mount object, and `spawn` what the start of the receive threads, of
-- which each takes a request from the pool, makes of it.
unfoldable pub nct_mount : System → (ℕ → Mnt → Mnt) → List ℕ → ℕ → ℕ → Mnt → Mounting
nct_mount sys spawn path tds_max jobs_max m =
    let target = mount_target path in
    if not sys.room || not (is_host target.mnt_server) || not sys.resolves
    then unmounted
    else on_auth sys target (spawn (min tds_max nelem_tdv)) jobs_max m sys.auth
