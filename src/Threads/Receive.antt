-- ===== src/Threads/Receive.antt =====
-- nct_req_recv_loop of nct_req.c from its start to its end: the rounds of Req/Loop one behind the
-- other.
use nct.Base.{ℕ, Bool, false, List, [], ◌∷◌, ◌++◌, ◌≡◌, refl, ap, sym, ◌∙◌}
use nct.Rpc.{Sent, Received}
use nct.Rpc.Decode.{RpcLib}
use nct.Req.State.{Mnt, Callback}
use nct.Req.Pool.{Alloc, allocated, sleeps, nct_req_alloc}
use nct.Req.Loop.{
  CbResult, Thread, Round, continues, exits, round_aborts, faults, round_blocks, recv_loop_round,
}
use nct.Threads.{thread_start}

-- What a round meets: what the other threads have made of the mount since the last one, the results
-- of recv(), the clock, whether nct_connect succeeds, and the clock and the results of send() in the
-- loop that sends again.
pub record RoundIn : Type 0 where
  pub others : Mnt → Mnt
  pub received : List Received
  pub tsc_stop : ℕ
  pub connected : Bool
  pub now : ℕ → ℕ
  pub net : ℕ → List Sent

abbrev pub on_round : Round → (Mnt → Thread → Round) → Round
on_round (continues down m t) k = k m t
on_round (exits m) k = exits m
on_round round_aborts k = round_aborts
on_round faults k = faults
on_round round_blocks k = round_blocks

module _ (lib : RpcLib) (run_cb : Callback → ℕ → Mnt → CbResult) (tsc_freq room : ℕ) where
  abbrev pub round_of : RoundIn → Mnt → Thread → Round
  round_of i m t =
      recv_loop_round lib run_cb tsc_freq room i.received i.tsc_stop i.connected i.now i.net
        (i.others m) t

  -- The loop, over what its rounds meet. It goes on behind the last of them.
  unfoldable pub recv_rounds : List RoundIn → Mnt → Thread → Round
  recv_rounds [] m t = continues false m t
  recv_rounds (i ∷ is) m t = on_round (round_of i m t) (recv_rounds is)

  -- nct_req_alloc sleeps, or gives the request with the thread's first buffer.
  abbrev pub on_seat : ℕ → ℕ → List RoundIn → Alloc → Round
  on_seat t0 t1 is (sleeps m) = round_blocks
  on_seat t0 t1 is (allocated r m) = recv_rounds is m (thread_start tsc_freq t0 t1 r m)

  -- nct_req_recv_loop
  unfoldable pub nct_req_recv_loop : ℕ → ℕ → List RoundIn → Mnt → Round
  nct_req_recv_loop t0 t1 is m = on_seat t0 t1 is (nct_req_alloc m)

  on_round_assoc :
      (x : Round) (k l : Mnt → Thread → Round)
      → on_round (on_round x k) l ≡ on_round x (λ m t. on_round (k m t) l)
  on_round_assoc (continues down m t) k l = refl
  on_round_assoc (exits m) k l = refl
  on_round_assoc round_aborts k l = refl
  on_round_assoc faults k l = refl
  on_round_assoc round_blocks k l = refl

  -- Rounds behind rounds.
  pub recv_rounds-append :
      (is js : List RoundIn) (m : Mnt) (t : Thread)
      → recv_rounds (is ++ js) m t ≡ on_round (recv_rounds is m t) (recv_rounds js)
  unfolding recv_rounds
  recv_rounds-append [] js m t = refl
  recv_rounds-append (i ∷ is) js m t =
      ap (on_round (round_of i m t)) (λ k m' t'. recv_rounds-append is js m' t' k)
      ∙ sym (on_round_assoc (round_of i m t) (recv_rounds is) (recv_rounds js))
