-- ===== src/Req/Reconnect.antt =====
-- nct_req_recv_loop when nct_rpc_recv returns less than a reply: end of stream, error, reconnection;
-- and the period of the statistics.
use nct.Base.{
  ℕ, zero, suc, ◌+◌, ◌*◌, ◌<◌, ◌≤◌, ◌≡◌, ◌↔◌, refl, ◌∙◌, Bool, true, none, some, List, arith, ne→==,
  lt→ltb, le→ltb, subst,
}
use nct.Rpc.{Sent, count, minus_one}
use nct.Rpc.Framing.{no_mark}
use nct.Rpc.Decode.{RpcLib, nct_rpc_decode}
use nct.Req.State.{Mnt, Callback, nct_req_max}
use nct.Req.Loop.{
  CbResult, Thread, exits, round_aborts, faults, recv_round, on_short, resend_loop, on_reply,
  stats_step,
}

-- Slot `j` holds a request that is not waiting for a reply.
abbrev pub Idle : Mnt → ℕ → Type 0
Idle m j =
    (r : ℕ) × (m.mnt_req_tbl j ≡ some r) × ((m.req_at r).req_tsc_start ≤ (m.req_at r).req_tsc_stop)

module _ (lib : RpcLib) (run_cb : Callback → ℕ → Mnt → CbResult) (tsc_freq : ℕ) where
  -- The end of the stream ends the thread, and forgets the mark of the next record.
  pub recv_round-eof :
      (mem : List ℕ) (tsc_stop : ℕ) (connected : Bool) (now : ℕ → ℕ) (net : ℕ → List Sent) (m : Mnt)
      (t : Thread)
      → recv_round lib run_cb tsc_freq (count 0) mem tsc_stop connected now net m t
        ≡ exits (record m { mnt_recv_mark = no_mark })
  unfolding recv_round on_short
  recv_round-eof mem tsc_stop connected now net m t = refl

  -- An error of recv(), -1, is not taken for a short reply, since it is compared as a size_t: where
  -- the library finds no reply in the buffer, the round aborts the program, whatever a new
  -- connection would have come to.
  pub recv_round-error :
      (mem : List ℕ) (tsc_stop : ℕ) (connected : Bool) (now : ℕ → ℕ) (net : ℕ → List Sent) (m : Mnt)
      (t : Thread)
      → lib.xdr_replymsg mem minus_one ≡ none
      → recv_round lib run_cb tsc_freq minus_one mem tsc_stop connected now net m t ≡ round_aborts
  unfolding recv_round nct_rpc_decode on_reply
  recv_round-error mem tsc_stop connected now net m t e = rw (e, nct_rpc_decode)

  resend_loop-null :
      (n i : ℕ) (now : ℕ → ℕ) (net : ℕ → List Sent) (m : Mnt) (t : Thread)
      → m.mnt_req_tbl i ≡ none
      → resend_loop lib run_cb tsc_freq (suc n) i now net m t ≡ faults
  unfolding resend_loop
  resend_loop-null n i now net m t e = rw (e, resend_loop)

  resend_loop-Idle :
      (n i : ℕ) (now : ℕ → ℕ) (net : ℕ → List Sent) (m : Mnt) (t : Thread)
      → Idle m i
      → resend_loop lib run_cb tsc_freq (suc n) i now net m t
        ≡ resend_loop lib run_cb tsc_freq n (i + 1) now net m t
  unfolding resend_loop
  resend_loop-Idle n i now net m t (r, there, old) =
      rw (there, resend_loop, le→ltb (m.req_at r).req_tsc_stop (m.req_at r).req_tsc_start old)

  resend_loop-empty :
      (n i k : ℕ) (now : ℕ → ℕ) (net : ℕ → List Sent) (m : Mnt) (t : Thread)
      → k < n
      → ((j : ℕ) → j < k → Idle m (i + j))
      → m.mnt_req_tbl (i + k) ≡ none
      → resend_loop lib run_cb tsc_freq n i now net m t ≡ faults
  resend_loop-empty zero i k now net m t h idle e = absurd (omega arith)
  resend_loop-empty (suc n) i zero now net m t h idle e =
      resend_loop-null n i now net m t
        (subst (λ x. m.mnt_req_tbl x ≡ none) (let x : i + 0 ≡ i = omega arith in x) e)
  resend_loop-empty (suc n) i (suc k) now net m t h idle e =
      let first : i + 0 ≡ i = omega arith in
      let up : (j : ℕ) → i + suc j ≡ i + 1 + j = λ j. omega arith in
      resend_loop-Idle n i now net m t (subst (Idle m) first (idle 0 (omega arith)))
      ∙ resend_loop-empty n (i + 1) k now net m t (omega arith)
          (λ j lt. subst (Idle m) (up j) (idle (suc j) (omega arith)))
          (subst (λ x. m.mnt_req_tbl x ≡ none) (up k) e)

  -- A reply that is too short makes the thread connect again; if that succeeds, and the table has
  -- an empty slot behind slots of requests that wait for nothing, the loop that sends again reads
  -- through the null pointer in that slot. Cleared slots are what every reply leaves behind.
  pub recv_round-short :
      (n k : ℕ) (mem : List ℕ) (tsc_stop : ℕ) (now : ℕ → ℕ) (net : ℕ → List Sent) (m : Mnt)
      (t : Thread)
      → 0 < n
      → n < 24
      → k < nct_req_max
      → ((j : ℕ) → j < k → Idle m j)
      → m.mnt_req_tbl k ≡ none
      → recv_round lib run_cb tsc_freq (count n) mem tsc_stop true now net m t ≡ faults
  unfolding recv_round on_short
  recv_round-short n k mem tsc_stop now net m t pos small lt idle e =
      rw (lt→ltb n 24 small, ne→== n 0 (omega arith))
        (resend_loop-empty nct_req_max 0 k now net (record m { mnt_recv_mark = no_mark }) t lt
          (λ j h. subst (Idle m) (let x : j ≡ 0 + j = omega arith in x) (idle j h))
          (subst (λ x. m.mnt_req_tbl x ≡ none) (let x : k ≡ 0 + k = omega arith in x) e))

-- The time added between two updates of the statistics is at most 10^9 divided by the frequency of
-- the clock, so that it falls as the clock gets faster, and is 0 exactly above 1 GHz.
pub stats_step_lem :
    (tsc_freq : ℕ)
    → 0 < tsc_freq
    → (stats_step tsc_freq * tsc_freq ≤ 1000000000)
      × ((stats_step tsc_freq ≡ 0) ↔ (1000000000 < tsc_freq))
unfolding stats_step
stats_step_lem tsc_freq h = (grind arith, (λ e. grind arith, λ e. grind arith))
