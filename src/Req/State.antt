-- ===== src/Req/State.antt =====
-- The objects of nct_req.h and nct_mount.h. A pointer to a request is its index in the array that
-- nct_req_create maps, and a pointer to a message buffer is the buffer's index; the objects
-- themselves stand in two stores of the mount object.
use nct.Base.{ℕ, ◌^◌, ◌≡◌, ◌≢◌, Bool, Option, List, ◌==◌, if◌then◌else◌, arith}

abbrev pub nct_req_max : ℕ
nct_req_max = 2 ^ 10

-- nct_msg_t. `msg_data` holds the first `msg_len` bytes, and `msg_body` what is left to decode
-- behind the RPC reply header (msg_xdr).
pub record Msg : Type 0 where
  pub msg_data : List ℕ
  pub msg_len : ℕ
  pub msg_stat : ℕ
  pub msg_body : List ℕ

-- What `req_cb` points to.
pub data Callback : Type 0 where
  test_null_cb test_getattr_cb test_read_cb : Callback

-- nct_req_t. `req_mnt` is the one mount object, and `req_priv` the one record of the test.
pub record Req : Type 0 where
  pub req_msg : ℕ
  pub req_xid : ℕ
  pub req_cb : Option Callback
  pub req_done : Bool
  pub req_tsc_start : ℕ
  pub req_tsc_stop : ℕ
  pub req_tsc_finish : ℕ
  pub req_next : Option ℕ

-- struct nct_stats
pub record Stats : Type 0 where
  pub latency_min : ℕ
  pub latency_max : ℕ
  pub latency_cum : ℕ
  pub requests : ℕ
  pub thruput_send : ℕ
  pub thruput_recv : ℕ
  pub updates : ℕ
  pub marks : ℕ

-- What `req_priv` points to: test_read_priv_t, of which the other tests have `pr_duration` alone.
pub record Priv : Type 0 where
  pub pr_offset : ℕ
  pub pr_length : ℕ
  pub pr_duration : ℕ

-- nct_mnt_t, without the locks and what only nct_mount.c reads, with the test's record and the
-- objects that it points to.
pub record Mnt : Type 0 where
  pub mnt_send_xid : ℕ
  pub mnt_recv_mark : List ℕ
  pub mnt_wait_waiters : ℕ
  pub mnt_wait_cv : List ℕ  -- the requests whose threads sleep on it
  pub mnt_req_head : Option ℕ
  pub mnt_req_tbl : ℕ → Option ℕ
  pub mnt_req_waiters : ℕ
  pub mnt_stats : Stats
  pub mnt_jobs_max : ℕ
  pub mnt_jobs_cnt : ℕ
  pub vn_size : ℕ  -- mnt_vn->xvn_fattr.size
  pub priv : Priv
  pub req_at : ℕ → Req
  pub msg_at : ℕ → Msg

-- An array or a store with one cell written.
abbrev pub update {ℓ} : {A : Type ℓ} → (ℕ → A) → ℕ → A → ℕ → A
update f i a j = if i == j then a else f j

abbrev pub set_req : ℕ → Req → Mnt → Mnt
set_req r q m = record m { req_at = update m.req_at r q }

abbrev pub set_msg : ℕ → Msg → Mnt → Mnt
set_msg b g m = record m { msg_at = update m.msg_at b g }

module _ {ℓ} {A : Type ℓ} (f : ℕ → A) (i : ℕ) (a : A) where
  pub update_self : update f i a i ≡ a
  update_self = ground arith

  pub update-ne : (j : ℕ) → i ≢ j → update f i a j ≡ f j
  update-ne j h = ground arith
