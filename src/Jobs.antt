-- ===== src/Jobs.antt =====
-- nct_null.c, nct_getattr.c and nct_read.c: what a job does when it starts and at each reply. A job
-- is a request that is sent again at every reply until the test's time is over.
--
-- The encoders of nct_nfs.c enter as the messages that they make, which fit the buffer; the XDR
-- library's decoders, the clock and the results of send() are arguments too.
pub mod Offsets
pub mod Returns
pub mod Wire
use nct.Base.{
  ℕ, ◌+◌, ◌*◌, ◌%◌, ◌^◌, Bool, true, false, Option, none, some, List, ltb, leb, ◌==◌, if◌then◌else◌,
  length, add64,
}
use nct.Rpc.{Sent}
use nct.Xdr.{XdrLib, Fattr3, nct_xdr_getattr3_decode}
use nct.Rpc.Decode.{rpc_success}
use nct.Req.State.{
  Req, Mnt, Msg, Priv, Callback, test_null_cb, test_getattr_cb, test_read_cb, update, set_req,
  set_msg,
}
use nct.Req.Pool.{nct_req_free}
use nct.Req.Send.{Sending, delivered, blocked, send_aborts, nct_req_send}
use nct.Req.Loop.{CbResult, returned, cb_blocked, cb_aborts}

-- <errno.h>, the values of Linux.
abbrev pub etimedout : ℕ
etimedout = 110

abbrev pub einval : ℕ
einval = 22

-- The messages, with room for the record mark, of nct_nfs_null_encode, nct_nfs_getattr3_encode and
-- nct_nfs_read3_encode (offset, length).
pub record Encoders : Type 0 where
  pub null_message : List ℕ
  pub getattr3_message : List ℕ
  pub read3_message : ℕ → ℕ → List ℕ

-- What a round has from outside: two readings of the clock, and the results of send().
pub record Env : Type 0 where
  pub enc : Encoders
  pub dec : XdrLib
  pub junk : ℕ  -- what the local `res.status` holds at first
  pub now : ℕ
  pub net : List Sent

-- `ok` and `res.status` of test_getattr_cb.
abbrev pub ok_and_status : Option Fattr3 × ℕ → Bool × ℕ
ok_and_status (none, status) = (false, status)
ok_and_status (some _, status) = (true, status)

abbrev pub getattr_result : Env → List ℕ → Bool × ℕ
getattr_result env body = ok_and_status (nct_xdr_getattr3_decode env.dec env.junk body)

-- `req->req_msg->msg_len = len` behind the encoder's writes.
abbrev pub put_message : ℕ → List ℕ → Mnt → Mnt
put_message r bytes m =
    let b = (m.req_at r).req_msg in
    set_msg b (record (m.msg_at b) { msg_data = bytes; msg_len = length bytes }) m

abbrev pub started : ℕ → ℕ → Mnt → Mnt
started r now m = set_req r (record (m.req_at r) { req_tsc_start = now }) m

abbrev pub sending_result : Sending → CbResult
sending_result (delivered m wire) = returned 0 m
sending_result (blocked m wire) = cb_blocked
sending_result send_aborts = cb_aborts

-- The tail that the three callbacks and the three start functions share: the start time, the
-- message, the send, and `return 0`.
unfoldable pub issue : ℕ → List ℕ → Env → Mnt → CbResult
issue r bytes env m =
    sending_result (nct_req_send r (put_message r bytes (started r env.now m)) env.net)

-- `nct_req_free(req); return rc`
abbrev pub give_back : ℕ → ℕ → Mnt → CbResult
give_back rc r m = returned rc (nct_req_free r m).0

-- `if (req->req_tsc_stop >= req->req_tsc_finish)`
abbrev pub is_over : ℕ → Mnt → Bool
is_over r m = leb (m.req_at r).req_tsc_finish (m.req_at r).req_tsc_stop

abbrev pub msg_of : ℕ → Mnt → Msg
msg_of r m = m.msg_at (m.req_at r).req_msg

-- test_null_cb
unfoldable pub null_cb : Env → ℕ → Mnt → CbResult
null_cb env r m =
    let stat = (msg_of r m).msg_stat in
    if stat == rpc_success
    then (if is_over r m then give_back etimedout r m else issue r env.enc.null_message env m)
    else give_back stat r m

-- test_getattr_cb
unfoldable pub getattr_cb : Env → ℕ → Mnt → CbResult
getattr_cb env r m =
    let stat = (msg_of r m).msg_stat in
    let res = getattr_result env (msg_of r m).msg_body in
    if stat == rpc_success
    then (if res.0
        then (if is_over r m
            then give_back etimedout r m
            else issue r env.enc.getattr3_message env m)
        else give_back res.1 r m)
    else give_back stat r m

abbrev pub set_offset : ℕ → Mnt → Mnt
set_offset off m = record m { priv = record m.priv { pr_offset = off } }

-- The two atomic operations of test_read_cb on `pr_offset`: the offset that is read at, and the
-- state. The second, `__sync_fetch_and_sub(&pr_offset, pr_offset)`, returns what was there.
unfoldable pub next_offset : Mnt → ℕ × Mnt
next_offset m =
    let off = m.priv.pr_offset in
    let above = add64 off m.priv.pr_length in
    if ltb m.vn_size above then (above, set_offset 0 m) else (off, set_offset above m)

-- test_read_cb
unfoldable pub read_cb : Env → ℕ → Mnt → CbResult
read_cb env r m =
    let stat = (msg_of r m).msg_stat in
    let (off, m') = next_offset m in
    if stat == rpc_success
    then (if is_over r m
        then give_back etimedout r m
        else issue r (env.enc.read3_message off m.priv.pr_length) env m')
    else give_back stat r m

-- The callback of a request.
unfoldable pub test_cb : Env → Callback → ℕ → Mnt → CbResult
test_cb env test_null_cb r m = null_cb env r m
test_cb env test_getattr_cb r m = getattr_cb env r m
test_cb env test_read_cb r m = read_cb env r m

-- `req->req_tsc_finish = rdtsc() + (tsc_freq * priv->pr_duration); req->req_cb = cb`
abbrev pub armed : Callback → ℕ → ℕ → ℕ → Mnt → Mnt
armed cb tsc_freq t0 r m =
    set_req r
      (record (m.req_at r) {
        req_tsc_finish = (t0 + tsc_freq * m.priv.pr_duration) % 2 ^ 64;
        req_cb = some cb;
      })
      m

-- test_null_start, test_getattr_start and test_read_start; `t0` is the first reading of the clock.
unfoldable pub null_start : ℕ → ℕ → Env → ℕ → Mnt → CbResult
null_start tsc_freq t0 env r m =
    issue r env.enc.null_message env (armed test_null_cb tsc_freq t0 r m)

unfoldable pub getattr_start : ℕ → ℕ → Env → ℕ → Mnt → CbResult
getattr_start tsc_freq t0 env r m =
    issue r env.enc.getattr3_message env (armed test_getattr_cb tsc_freq t0 r m)

unfoldable pub read_start : ℕ → ℕ → Env → ℕ → Mnt → CbResult
read_start tsc_freq t0 env r m =
    let off = m.priv.pr_offset in
    let above = add64 off m.priv.pr_length in
    let m' = set_offset above (armed test_read_cb tsc_freq t0 r m) in
    if ltb m.vn_size above
    then returned einval m'
    else issue r (env.enc.read3_message off m.priv.pr_length) env m'
