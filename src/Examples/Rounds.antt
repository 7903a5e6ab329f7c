-- ===== src/Examples/Rounds.antt =====
-- The theorems of Req/Round and Req/Callbacks at a concrete input.
use nct.Base.{
  ℕ, ◌≡◌, refl, ap, true, some, List, [], ◌∷◌, ◌++◌, map, drop, ntohl, take, arith, inl, length,
}
use nct.Rpc.{Received, got, count}
use nct.Rpc.Stream.{last_mark}
use nct.Rpc.Decode.{RpcLib, nct_rpc_decode}
use nct.Req.State.{Mnt, set_req, test_null_cb}
use nct.Req.Send.{slot, enroll}
use nct.Req.Loop.{recv_loop_round}
use nct.Req.Dispatch.{Completed}
use nct.Req.Round.{recv_loop_round-enroll}
use nct.Req.Callbacks.{Completes, recv_loop_round-Completes}
use nct.Examples.Requests.{small, no_callback, thread}

-- A reply's id is its first four bytes, and its results stand behind the first 23.
abbrev replies : RpcLib
replies = record {
  xdr_replymsg =
      λ buf len. some (record { rm_xid = ntohl (take 4 buf); verdict = 0; results = drop 23 buf });
  seterr_reply = λ m. m.verdict;
}

abbrev four_jobs : Mnt
four_jobs = record small { mnt_jobs_max = 4 }

abbrev reply_bytes : List ℕ
reply_bytes =
    255 ∷ 255 ∷ 255 ∷ 250 ∷ 0 ∷ 0 ∷ 0 ∷ 1 ∷ 0 ∷ 0 ∷ 0 ∷ 0 ∷ 0 ∷ 0 ∷ 0 ∷ 0 ∷ 0 ∷ 0 ∷ 0 ∷ 0 ∷ 0 ∷ 0
    ∷ 0 ∷ 9 ∷ []

-- The record comes in two pieces, the second with a mark behind it.
abbrev pieces : List (List ℕ)
pieces = take 10 reply_bytes ∷ (drop 10 reply_bytes ++ 128 ∷ 0 ∷ 0 ∷ 24 ∷ []) ∷ []

abbrev stream : List Received
stream = got (last_mark 24) ∷ map got pieces ++ []

answers :
    nct_rpc_decode replies reply_bytes (count (length reply_bytes))
    ≡ (0, some (record { rm_xid = 4294967290; verdict = 0; results = 9 ∷ [] }))
unfolding nct_rpc_decode ntohl
answers = refl

recv_loop_round-enroll_example :
    Completed 1 0
      (9 ∷ [])
      (enroll 1 four_jobs).req_at
      four_jobs.mnt_wait_waiters
      thread
      (slot 4294967290)
      (recv_loop_round replies no_callback 1000000 8192 stream 50 true
        (λ i. 60)
        (λ i. [])
        (enroll 1 four_jobs)
        thread)
recv_loop_round-enroll_example =
    recv_loop_round-enroll replies no_callback 1000000 1 50 0 0 true (λ i. 60) (λ i. []) four_jobs
      thread reply_bytes (9 ∷ []) 8192 (128 ∷ 0 ∷ 0 ∷ 24 ∷ []) pieces [] stream (omega arith)
      (omega arith) (omega arith) (omega arith) refl
      ((λ e. omega (arith, ap length e)), ((λ e. omega (arith, ap length e)), tt)) refl
      (inl (refl, refl)) answers (λ e. omega (arith, e)) refl

-- The same round where request 1 has a callback.
abbrev with_callback : Mnt
with_callback = set_req 1 (record (four_jobs.req_at 1) { req_cb = some test_null_cb }) four_jobs

recv_loop_round-Completes_example :
    Completes replies no_callback 1000000 1 50 24 0 (9 ∷ []) with_callback thread (
      recv_loop_round replies no_callback 1000000 8192 stream 50 true
        (λ i. 60)
        (λ i. [])
        (enroll 1 with_callback)
        thread)
recv_loop_round-Completes_example =
    recv_loop_round-Completes replies no_callback 1000000 1 50 0 0 true (λ i. 60) (λ i. [])
      with_callback thread reply_bytes (9 ∷ []) 8192 (128 ∷ 0 ∷ 0 ∷ 24 ∷ []) pieces [] stream
      (omega arith) (omega arith) (omega arith) (omega arith) refl
      ((λ e. omega (arith, ap length e)), ((λ e. omega (arith, ap length e)), tt)) refl
      (inl (refl, refl)) answers (λ e. omega (arith, e))
