-- ===== src/Req/Dispatch.antt =====
-- nct_req_send and nct_req_recv_loop together: a reply finds its request.
use nct.Base.{
  ℕ, ◌≡◌, ◌≢◌, refl, true, false, none, some, List, [], ◌<◌, arith, ltb, add64, ne→==, Bool-cases,
  inl, inr,
}
use nct.Rpc.Decode.{RpcLib, RpcMsg, rpc_cantdecoderes}
use nct.Req.State.{Req, Mnt, Callback, update, update_self}
use nct.Req.Send.{slot, enroll}
use nct.Req.Loop.{
  CbResult, Thread, Round, continues, on_reply, dispatch, complete, exchange, notify, update_stats,
  flush_into, zero_stats, stats_step,
}

-- The request is done, holds the reply in the thread's former buffer, and is out of the table; the
-- thread has the request's former buffer. The `w` waiters stay,
-- and none of them sleeps any more.
pub record Completed (r stat : ℕ) (body : List ℕ) (f : ℕ → Req) (w : ℕ) (t : Thread) (i : ℕ)
    (out : Round) : Type 0 where
  pub m' : Mnt
  pub t' : Thread
  pub result : out ≡ continues false m' t'
  pub done : (m'.req_at r).req_done ≡ true
  pub holds : (m'.req_at r).req_msg ≡ t.msg
  pub status : (m'.msg_at t.msg).msg_stat ≡ stat
  pub reply : (m'.msg_at t.msg).msg_body ≡ body
  pub cleared : m'.mnt_req_tbl i ≡ none
  pub spare : t'.msg ≡ (f r).req_msg
  pub others : (s : ℕ) → r ≢ s → m'.req_at s ≡ f s
  pub waiters : m'.mnt_wait_waiters ≡ w
  pub woken : 0 < w → m'.mnt_wait_cv ≡ []

module _ (lib : RpcLib) (run_cb : Callback → ℕ → Mnt → CbResult) (tsc_freq : ℕ) where
  update_stats-Completed :
      (r stat tsc_stop diff i : ℕ) (body : List ℕ) (f : ℕ → Req) (n : Mnt) (t u : Thread)
      → (n.req_at r).req_done ≡ true
      → (n.req_at r).req_msg ≡ t.msg
      → (n.msg_at t.msg).msg_stat ≡ stat
      → (n.msg_at t.msg).msg_body ≡ body
      → n.mnt_req_tbl i ≡ none
      → u.msg ≡ (f r).req_msg
      → ((s : ℕ) → r ≢ s → n.req_at s ≡ f s)
      → (0 < n.mnt_wait_waiters → n.mnt_wait_cv ≡ [])
      → Completed r stat body f n.mnt_wait_waiters t i
          (update_stats tsc_freq tsc_stop diff false n u)
  unfolding update_stats
  update_stats-Completed r stat tsc_stop diff i body f n t u d h s b c p o k =
      elim (Bool-cases (ltb tsc_stop u.tsc_stats)) [
        | inl early ↦ rw early (record {
          m' = n;
          t' = u;
          result = refl;
          done = d;
          holds = h;
          status = s;
          reply = b;
          cleared = c;
          spare = p;
          others = o;
          waiters = refl;
          woken = k;
        })
        | inr late ↦ rw late (record {
          m' = record n { mnt_stats = flush_into diff u.stats n.mnt_stats };
          t' = record u { stats = zero_stats; tsc_stats = add64 u.tsc_stats (stats_step tsc_freq) };
          result = refl;
          done = d;
          holds = h;
          status = s;
          reply = b;
          cleared = c;
          spare = p;
          others = o;
          waiters = refl;
          woken = k;
        })
      ]

  pub dispatch-hit :
      (r tsc_stop len stat xid : ℕ) (reply : RpcMsg) (m : Mnt) (t : Thread)
      → (m.req_at r).req_xid ≡ xid
      → reply.rm_xid ≡ xid
      → dispatch lib run_cb tsc_freq (some r) tsc_stop len stat reply m t
        ≡ complete lib run_cb tsc_freq r tsc_stop len stat reply.results
            (record m { mnt_req_tbl = update m.mnt_req_tbl (slot reply.rm_xid) none })
            t
  unfolding dispatch
  dispatch-hit r tsc_stop len stat xid reply m t e f = ground arith

  complete-Completed :
      (r tsc_stop len stat i : ℕ) (body : List ℕ) (m : Mnt) (t : Thread)
      → (m.req_at r).req_cb ≡ none
      → m.mnt_req_tbl i ≡ none
      → Completed r stat body m.req_at m.mnt_wait_waiters t i
          (complete lib run_cb tsc_freq r tsc_stop len stat body m t)
  unfolding complete exchange notify
  complete-Completed r tsc_stop len stat i body m t cb c = rw cb (
      update_stats-Completed r stat tsc_stop _ i body m.req_at _ t _ (ground arith) (ground arith)
        (ground arith) (ground arith) c refl (λ s h. ground arith) (λ k. ground arith))

  -- The reply to a request that was just sent, and that waits for it with no callback, completes
  -- that request and no other: whatever was in the table before the send.
  pub on_reply-enroll :
      (r stat tsc_stop len verdict : ℕ) (body : List ℕ) (m : Mnt) (t : Thread)
      → stat ≢ rpc_cantdecoderes
      → (m.req_at r).req_cb ≡ none
      → Completed r stat body (enroll r m).req_at m.mnt_wait_waiters t (slot m.mnt_send_xid) (
          on_reply lib run_cb tsc_freq
            (stat, some (record { rm_xid = m.mnt_send_xid; verdict = verdict; results = body }))
            tsc_stop
            len
            (enroll r m)
            t)
  unfolding on_reply enroll
  on_reply-enroll r stat tsc_stop len verdict body m t ok cb =
      rw
        (
          ne→== stat rpc_cantdecoderes ok,
          update_self m.mnt_req_tbl (slot m.mnt_send_xid) (some r),
          dispatch-hit r tsc_stop len stat m.mnt_send_xid
              (record { rm_xid = m.mnt_send_xid; verdict = verdict; results = body }) (enroll r m) t
              (ground arith) refl,
        )
        (complete-Completed r tsc_stop len stat (slot m.mnt_send_xid) body _ t (ground arith)
          (ground arith))
