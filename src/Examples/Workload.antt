-- ===== src/Examples/Workload.antt =====
-- nct_null.c, nct_getattr.c and nct_read.c: the theorems of Jobs at concrete inputs.
use nct.Base.{◌*◌, ◌<◌, ◌≡◌, refl, none, some, [], ◌∷◌, arith, add64}
use nct.Rpc.Framing.{no_mark}
use nct.Req.State.{Mnt}
use nct.Req.Pool.{IsPool, new_req}
use nct.Req.Loop.{returned, zero_stats}
use nct.Examples.Codecs.{toy}
use nct.Xdr.{nct_xdr_getattr3_decode, nct_xdr_fattr3}
use nct.Xdr.Proc.{members, ◌&&&◌}
use nct.Jobs.{Env, getattr_cb, next_offset}
use nct.Jobs.Offsets.{offset_at, rounds, offset_at-inside, offset_at-past}
use nct.Jobs.Returns.{getattr_cb-lost}

-- A file of 1000 bytes, read in blocks of 400. The time of request 1 is over.
abbrev pub mount : Mnt
mount = record {
  mnt_send_xid = 5;
  mnt_recv_mark = no_mark;
  mnt_wait_waiters = 0;
  mnt_wait_cv = [];
  mnt_req_head = some 0;
  mnt_req_tbl = λ _. none;
  mnt_req_waiters = 0;
  mnt_stats = zero_stats;
  mnt_jobs_max = 2;
  mnt_jobs_cnt = 1;
  vn_size = 1000;
  priv = record { pr_offset = 0; pr_length = 400; pr_duration = 1 };
  req_at = λ r. record (new_req r none) { req_tsc_stop = 90; req_tsc_finish = 80 };
  msg_at = λ _. record { msg_data = []; msg_len = 0; msg_stat = 0; msg_body = 0 ∷ [] };
}

-- A reply with another status than NFS3_OK.
abbrev stale_mount : Mnt
stale_mount = record mount {
  msg_at = λ _. record { msg_data = []; msg_len = 0; msg_stat = 0; msg_body = 70 ∷ [] };
}

mount-IsPool : IsPool mount (0 ∷ [])
mount-IsPool = record { linked = (refl, refl); distinct = (tt, tt) }

abbrev pub env : Env
env = record {
  enc = record { null_message = []; getattr3_message = []; read3_message = λ o l. [] };
  dec = toy;
  junk = 3;
  now = 100;
  net = [];
}

-- Blocks at 0 and 400, then one at 1200, and again from 0.
read_offsets :
    (offset_at 0 mount ≡ 0)
    × (offset_at 1 mount ≡ 400)
    × (offset_at 2 mount ≡ 1200)
    × (offset_at 3 mount ≡ 0)
unfolding next_offset add64
read_offsets = (refl, refl, refl, refl)

second_block : offset_at 1 mount ≡ 1 * 400
second_block = offset_at-inside 1 mount refl (omega arith) (omega arith)

past_the_end :
    (offset_at 2 mount ≡ 3 * 400)
    × (1000 < offset_at 2 mount)
    × ((rounds 3 mount).priv.pr_offset ≡ 0)
past_the_end = offset_at-past 2 mount refl (omega arith) (omega arith) (omega arith)

reply_without_attributes :
    (m' : Mnt) × (getattr_cb env 1 mount ≡ returned 0 m')
    × IsPool m' (1 ∷ 0 ∷ [])
    × (m'.mnt_jobs_cnt ≡ 1)
unfolding nct_xdr_getattr3_decode nct_xdr_fattr3 members ◌&&&◌
reply_without_attributes = getattr_cb-lost 1 (0 ∷ []) (omega arith) env mount mount-IsPool refl refl
