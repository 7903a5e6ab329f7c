-- ===== src/Req/Wait.antt =====
-- nct_req_wait: a thread that sleeps until the reply to its request is there.
use nct.Base.{
  ℕ, Bool, ◌||◌, ◌==◌, [], ◌∷◌, ◌+◌, ◌-◌, ◌≡◌, ◌≢◌, refl, false, none, some, List, if◌then◌else◌,
  arith,
}
use nct.Rpc.Decode.{RpcLib, rpc_cantdecoderes}
use nct.Req.State.{Mnt, Callback}
use nct.Req.Send.{enroll}
use nct.Req.Loop.{CbResult, Thread, continues, on_reply}
use nct.Req.Dispatch.{on_reply-enroll}

-- The thread that waits for request `r` sleeps on `mnt_wait_cv`.
unfoldable pub sleeps_on : ℕ → List ℕ → Bool
sleeps_on r [] = false
sleeps_on r (q ∷ qs) = let rest = sleeps_on r qs in (r == q) || rest

-- nct_req_wait returns, or waits on `mnt_wait_cv` as one more waiter.
pub data Waiting : Type 0 where
  ready dozes : Mnt → Waiting

-- nct_req_wait, to its return or its wait.
unfoldable pub nct_req_wait : ℕ → Mnt → Waiting
nct_req_wait r m =
    if (m.req_at r).req_done
    then ready m
    else dozes
        (record m { mnt_wait_waiters = m.mnt_wait_waiters + 1; mnt_wait_cv = r ∷ m.mnt_wait_cv })

-- The thread in pthread_cond_wait(): it sleeps on, unless it was woken; then the waiter is counted
-- out, and the loop looks at `req_done` again.
unfoldable pub wait_wakes : ℕ → Mnt → Waiting
wait_wakes r m =
    if sleeps_on r m.mnt_wait_cv
    then dozes m
    else nct_req_wait r (record m { mnt_wait_waiters = m.mnt_wait_waiters - 1 })

-- The state in which the thread that has sent a request sleeps.
abbrev pub asleep : ℕ → Mnt → Mnt
asleep r m = record (enroll r m) {
  mnt_wait_waiters = m.mnt_wait_waiters + 1;
  mnt_wait_cv = r ∷ m.mnt_wait_cv;
}

module _ (lib : RpcLib) (run_cb : Callback → ℕ → Mnt → CbResult) (tsc_freq : ℕ) where
  -- A thread that sends a request with no callback goes to sleep on `mnt_wait_cv`, whatever
  -- `req_done` was, and sleeps on until it is woken. The round that takes the reply, if it comes
  -- then and its header decodes, wakes it: nct_req_wait returns, with the reply in the request and
  -- as many waiters as before.
  pub nct_req_wait-on_reply :
      (r stat tsc_stop len verdict : ℕ) (body : List ℕ) (m : Mnt) (t : Thread)
      → stat ≢ rpc_cantdecoderes
      → (m.req_at r).req_cb ≡ none
      → (nct_req_wait r (enroll r m) ≡ dozes (asleep r m))
        × (wait_wakes r (asleep r m) ≡ dozes (asleep r m))
        × ((m' : Mnt) × (t' : Thread) × (on_reply lib run_cb tsc_freq
                (stat, some (record { rm_xid = m.mnt_send_xid; verdict = verdict; results = body }))
                tsc_stop
                len
                (asleep r m)
                t
              ≡ continues false m' t')
            × (wait_wakes r m' ≡ ready (record m' { mnt_wait_waiters = m.mnt_wait_waiters }))
            × ((m'.msg_at (m'.req_at r).req_msg).msg_body ≡ body))
  unfolding nct_req_wait wait_wakes sleeps_on enroll
  nct_req_wait-on_reply r stat tsc_stop len verdict body m t ok cb =
      let c =
        on_reply-enroll lib run_cb tsc_freq r stat tsc_stop len verdict body
          (record m { mnt_wait_waiters = m.mnt_wait_waiters + 1; mnt_wait_cv = r ∷ m.mnt_wait_cv })
          t ok cb in
      let awake : c.m'.mnt_wait_cv ≡ [] = c.woken (omega arith) in
      let back : m.mnt_wait_waiters + 1 - 1 ≡ m.mnt_wait_waiters = omega arith in
      (
        ground arith,
        ground arith,
        (
          c.m',
          c.t',
          c.result,
          rw (awake, c.done, c.waiters, back) refl,
          rw (c.holds, c.reply) refl,
        ),
      )
