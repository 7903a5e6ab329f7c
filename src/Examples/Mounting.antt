-- ===== src/Examples/Mounting.antt =====
-- nct_nfs.c and nct_mount.c: the theorems of Nfs at concrete inputs.
use nct.Base.{ℕ, ◌≡◌, refl, true, false, some, none, List, [], ◌∷◌, arith, drop, length, ◌+◌, ◌≤◌}
use nct.Rpc.{sent, got}
use nct.Rpc.Stream.{last_mark}
use nct.Rpc.Decode.{RpcMsg, nct_rpc_decode}
use nct.Nfs.{MountEnv, nct_nfs_mount, nct_rpc_encode}
use nct.Clp.Usage.{codes}
use nct.Nfs.Messages.{strerror_mountstat3, hex_dump, hex_read, hex_buf, hex_dump-Fits}
use nct.Xdr.{nct_xdr_mountres3_ok}
use nct.Xdr.Proc.{members, ◌&&&◌}
use nct.Clp.Chars.{contains}
use nct.Mount.{mount_target, nct_connect}
use nct.Mount.Paths.{mount_target-user, mount_target-at}
use nct.Rpc.Framing.{no_mark}
use nct.Req.State.{Mnt}
use nct.Req.Pool.{new_req}
use nct.Req.Loop.{zero_stats}
use nct.Mount.{System, Mounting, is_mounted, nct_mount}
use nct.Mount.Result.{Sound, nct_mount-Sound}
use nct.Mount.{cut_at}
use nct.Rpc.{
  nct_rpc_send, send_loop, put_mark, nct_rpc_recv, resume, again, on_recv, enter_record,
  begin_record, store, end_record, set_last,
}
use nct.Base.{htonl, ntohl, add64, sub64}
use nct.Req.Pool.{create_loop, nct_req_alloc, nct_req_create, nct_req_free, take_head}
use nct.Req.Send.{enroll, nct_req_send, next_xid}
use nct.Req.Wait.{nct_req_wait}
use nct.Xdr.{
  nct_xdr_fattr3, nct_xdr_getattr3_decode, nct_xdr_mountres3_decode, nct_xdr_nfstime3,
  nct_xdr_specdata3,
}
use nct.Examples.Codecs.{attrs_encoded, toy}

-- A reply header of 20 bytes, the status MNT3_OK, a handle of two bytes, and one flavor.
abbrev answer : List ℕ
answer =
    0 ∷ 0 ∷ 0 ∷ 0 ∷ 0 ∷ 0 ∷ 0 ∷ 0 ∷ 0 ∷ 0 ∷ 0 ∷ 0 ∷ 0 ∷ 0 ∷ 0 ∷ 0 ∷ 0 ∷ 0 ∷ 0 ∷ 0 ∷ 0 ∷ 2 ∷ 5 ∷ 6
    ∷ 1 ∷ 1 ∷ []

abbrev reply : RpcMsg
reply = record { rm_xid = 0; verdict = 0; results = 0 ∷ 2 ∷ 5 ∷ 6 ∷ 1 ∷ 1 ∷ [] }

abbrev server : MountEnv
server = record {
  port = 635;
  has_socket = true;
  connects = true;
  calls = record { null_auth = []; xdr_callmsg = λ c. some (c.cb_proc ∷ []) };
  xdr = toy;
  rpc = record {
    xdr_replymsg = λ buf len. some (record { rm_xid = 0; verdict = 0; results = drop 20 buf });
    seterr_reply = λ m. m.verdict;
  };
  hole = 9 ∷ 9 ∷ 9 ∷ 9 ∷ [];
  sends = sent 3 ∷ sent 3 ∷ sent 3 ∷ sent 3 ∷ sent 3 ∷ sent 3 ∷ sent 3 ∷ sent 3 ∷ [];
  recvs = got (last_mark 26) ∷ got answer ∷ [];
  room = true;
}

-- u@h:/x and u@h
whole_target :
    (mount_target (b'u' ∷ b'@' ∷ b'h' ∷ b':' ∷ b'/' ∷ b'x' ∷ [])
      ≡ record { mnt_user = b'u' ∷ []; mnt_server = b'h' ∷ []; mnt_path = b'/' ∷ b'x' ∷ [] })
    × (mount_target (b'u' ∷ b'@' ∷ b'h' ∷ [])
        ≡ record { mnt_user = b'u' ∷ []; mnt_server = b'h' ∷ []; mnt_path = b'/' ∷ [] })
unfolding contains
whole_target = mount_target-user (b'u' ∷ []) (b'h' ∷ []) (b'/' ∷ b'x' ∷ []) refl refl

-- h:/@x
at_in_path :
    mount_target (b'h' ∷ b':' ∷ b'/' ∷ b'@' ∷ b'x' ∷ [])
    ≡ record { mnt_user = b'h' ∷ b':' ∷ b'/' ∷ []; mnt_server = b'x' ∷ []; mnt_path = b'/' ∷ [] }
unfolding contains
at_in_path = mount_target-at (b'h' ∷ []) (b'/' ∷ []) (b'x' ∷ []) refl refl

-- A descriptor is closed before a new one is opened, and the new one if connect() fails.
nct_connect_runs :
    (nct_connect (record { socket = some 4; connected = true; errno = 0 }) (some 3)
      ≡ record { rc = 0; fd = some 4; closed = 3 ∷ [] })
    × (nct_connect (record { socket = some 4; connected = false; errno = 111 }) (some 3)
        ≡ record { rc = 111; fd = none; closed = 4 ∷ 3 ∷ [] })
unfolding nct_connect
nct_connect_runs = (refl, refl)

-- A mount object that is all zeros.
abbrev zeroed : Mnt
zeroed = record {
  mnt_send_xid = 0;
  mnt_recv_mark = no_mark;
  mnt_wait_waiters = 0;
  mnt_wait_cv = [];
  mnt_req_head = none;
  mnt_req_tbl = λ _. none;
  mnt_req_waiters = 0;
  mnt_stats = zero_stats;
  mnt_jobs_max = 0;
  mnt_jobs_cnt = 0;
  vn_size = 0;
  priv = record { pr_offset = 0; pr_length = 0; pr_duration = 0 };
  req_at = λ r. new_req r none;
  msg_at = λ _. record { msg_data = []; msg_len = 0; msg_stat = 0; msg_body = [] };
}

-- The receive threads complete the request with the attributes of the tests of Codecs.
abbrev system : System
system = record {
  room = true;
  resolves = true;
  auth = some (record { ah_cred = []; ah_verf = [] });
  dials = record { socket = some 4; connected = true; errno = 0 };
  nfs = server;
  getattr_message = 0 ∷ 0 ∷ 0 ∷ 0 ∷ 1 ∷ 1 ∷ 1 ∷ 1 ∷ [];
  net = sent 8 ∷ [];
  now = 5;
  junk = 3;
  threads = λ m. record m {
    req_at = λ r. record (m.req_at r) { req_done = true };
    msg_at = λ _. record { msg_data = []; msg_len = 0; msg_stat = 0; msg_body = 0 ∷ attrs_encoded };
  };
}

abbrev size_of : Mounting → ℕ
size_of (is_mounted m t vn) = m.vn_size
size_of _ = 0

nct_mount-Sound_example :
    Sound system
      (mount_target (b'h' ∷ b':' ∷ b'/' ∷ []))
      (nct_mount system (λ _ m. m) (b'h' ∷ b':' ∷ b'/' ∷ []) 1 4 zeroed)
nct_mount-Sound_example = nct_mount-Sound system (λ _ m. m) (b'h' ∷ b':' ∷ b'/' ∷ []) 1 4 zeroed

nct_mount_runs : size_of (nct_mount system (λ _ m. m) (b'h' ∷ b':' ∷ b'/' ∷ []) 1 4 zeroed) ≡ 5
unfolding nct_mount mount_target cut_at nct_connect nct_nfs_mount nct_rpc_encode nct_rpc_send
    send_loop put_mark htonl nct_rpc_recv resume again on_recv enter_record ntohl begin_record store
    add64 sub64 create_loop nct_req_alloc nct_req_create nct_req_free take_head enroll nct_req_send
    next_xid nct_req_wait nct_rpc_decode end_record set_last members nct_xdr_fattr3
    nct_xdr_getattr3_decode nct_xdr_mountres3_decode nct_xdr_mountres3_ok nct_xdr_nfstime3
    nct_xdr_specdata3 ◌&&&◌
nct_mount_runs = refl

-- The names of two refusals, and a dump of two bytes.
messages :
    (strerror_mountstat3 (λ n. codes "E") 10004 ≡ codes "mnt3err_notsupp")
    × (strerror_mountstat3 (λ n. codes "E") 13 ≡ codes "E")
    × (hex_dump (10 ∷ 255 ∷ []) ≡ codes "0aff")
unfolding strerror_mountstat3 hex_dump
messages = (refl, refl, refl)

dump_fits :
    (length (hex_dump (10 ∷ 255 ∷ [])) + 1 ≤ hex_buf)
    × (hex_read (hex_dump (10 ∷ 255 ∷ [])) ≡ 10 ∷ 255 ∷ [])
dump_fits = hex_dump-Fits (10 ∷ 255 ∷ []) (omega arith) (omega arith, (omega arith, tt))
