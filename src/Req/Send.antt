-- ===== src/Req/Send.antt =====
-- nct_req_send: transaction ids, the table of requests in flight, and the send itself.
use nct.Base.{
  ℕ, zero, suc, ◌+◌, ◌*◌, ◌%◌, ◌^◌, ◌<◌, ◌≡◌, ◌≢◌, ◌↔◌, ◌∙◌, false, Option, none, some, List, ◌++◌,
  arith, ◌==◌, if◌then◌else◌, take, drop, u32, htonl,
}
use nct.Rpc.{Sent, Ssize, count, minus_one, put_mark, nct_rpc_send}
use nct.Req.State.{Mnt, update, nct_req_max}

abbrev pub slot : ℕ → ℕ
slot xid = xid % nct_req_max

-- `mnt_send_xid` after a send, a uint32_t.
unfoldable pub next_xid : ℕ → ℕ
next_xid xid = u32 (xid + 11)

-- `msg->rm_xid = htonl(xid)`, four bytes behind the record mark.
abbrev pub put_xid : ℕ → List ℕ → List ℕ
put_xid xid buf = take 4 buf ++ htonl xid ++ drop 8 buf

-- A send returns to its caller with the bytes it put on the wire, is blocked in send(), or aborts
-- the program.
pub data Sending : Type 0 where
  delivered : Mnt → List ℕ → Sending
  blocked : Mnt → List ℕ → Sending
  send_aborts : Sending

-- What happens under `mnt_send_mtx` before nct_rpc_send writes the mark and calls send().
unfoldable pub enroll : ℕ → Mnt → Mnt
unfolding next_xid
enroll r m =
    let q = m.req_at r in
    let g = m.msg_at q.req_msg in
    let xid = m.mnt_send_xid in
    record m {
      mnt_send_xid = next_xid xid;
      mnt_req_tbl = update m.mnt_req_tbl (slot xid) (some r);
      req_at = update m.req_at r (record q { req_done = false; req_xid = xid });
      msg_at =
          update m.msg_at q.req_msg (record g { msg_data = put_mark (put_xid xid g.msg_data) });
    }

-- `if (cc != req->req_msg->msg_len) abort()`
abbrev pub check_sent : ℕ → Mnt → Option Ssize × List ℕ → Sending
check_sent len m (none, wire) = blocked m wire
check_sent len m (some minus_one, wire) = send_aborts
check_sent len m (some (count cc), wire) = if cc == len then delivered m wire else send_aborts

-- `req->req_msg->msg_len`
abbrev pub msg_len_of : ℕ → Mnt → ℕ
msg_len_of r m = (m.msg_at (m.req_at r).req_msg).msg_len

-- nct_req_send, where `msg_data` holds the `msg_len` bytes of the message, and the check comes before
-- the reply does (Threads/InFlight has it behind the reply).
unfoldable pub nct_req_send : ℕ → Mnt → List Sent → Sending
nct_req_send r m es =
    let g = m.msg_at (m.req_at r).req_msg in
    check_sent (msg_len_of r m) (enroll r m) (nct_rpc_send (put_xid m.mnt_send_xid g.msg_data) es)

-- The id used `k` sends later.
abbrev pub xid_after : ℕ → ℕ → ℕ
xid_after zero xid = xid
xid_after (suc k) xid = xid_after k (next_xid xid)

xid_after_lem : (k xid : ℕ) → xid < 2 ^ 32 → xid_after k xid ≡ (xid + 11 * k) % 2 ^ 32
unfolding next_xid
xid_after_lem zero xid h = omega arith
xid_after_lem (suc k) xid h = xid_after_lem k (next_xid xid) (omega arith) ∙ omega arith

-- Two sends share a slot of the table exactly when the number of sends between them is a multiple
-- of the size of the table: the step, 11, is odd, and the wrap of the id at 2^32 does not matter.
pub slot_cycle :
    (k xid : ℕ) → xid < 2 ^ 32 → (slot (xid_after k xid) ≡ slot xid) ↔ (k % nct_req_max ≡ 0)
slot_cycle k xid h =
    (λ e. omega (arith, xid_after_lem k xid h), λ e. omega (arith, xid_after_lem k xid h))

-- The requests in flight are where their ids say, and each in one place.
pub record IsTable (m : Mnt) : Type 0 where
  pub placed : (i r : ℕ) → m.mnt_req_tbl i ≡ some r → slot (m.req_at r).req_xid ≡ i

-- Sending a request that is not in flight keeps the table consistent.
pub enroll-IsTable :
    (r : ℕ) (m : Mnt) → ((i : ℕ) → m.mnt_req_tbl i ≢ some r) → IsTable m → IsTable (enroll r m)
unfolding enroll
enroll-IsTable r m idle t = record { placed = λ i s e. ground (arith, idle i, t.placed i s) }
