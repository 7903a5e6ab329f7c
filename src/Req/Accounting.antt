-- ===== src/Req/Accounting.antt =====
-- nct_req_recv_loop: the statistics of a thread and those of the mount together.
use nct.Base.{
  ℕ, ◌≡◌, refl, Bool, Option, none, some, List, arith, ◌==◌, add64, sub64, Bool-cases, inl, inr,
  subst,
}
use nct.Rpc.Decode.{RpcLib, RpcMsg, rpc_cantdecoderes}
use nct.Req.State.{Mnt, Stats, Callback, update}
use nct.Req.Send.{slot}
use nct.Req.Loop.{
  CbResult, returned, cb_blocked, cb_aborts, Thread, continues, round_aborts, on_reply, dispatch,
  complete, exchange, notify, wake_waiters, after_cb, update_stats, count_reply, job_ends,
}

-- What the mount's statistics and a thread's come to together, modulo 2^64.
pub record Totals (latency sends recvs requests : ℕ) (g s : Stats) : Type 0 where
  pub latency_total : add64 g.latency_cum s.latency_cum ≡ latency
  pub sends_total : add64 g.thruput_send s.thruput_send ≡ sends
  pub recvs_total : add64 g.thruput_recv s.thruput_recv ≡ recvs
  pub requests_total : add64 g.requests s.requests ≡ requests

-- A callback that leaves the mount's statistics alone.
abbrev pub Keeps : (Callback → ℕ → Mnt → CbResult) → Type 0
Keeps run_cb =
    (cb : Callback) (r rc : ℕ) (m m' : Mnt)
    → run_cb cb r m ≡ returned rc m'
    → m'.mnt_stats ≡ m.mnt_stats

module _ (lib : RpcLib) (run_cb : Callback → ℕ → Mnt → CbResult) (tsc_freq : ℕ)
    (keeps : Keeps run_cb) where
  update_stats-Totals :
      (tsc_stop diff l s v q : ℕ) (down d : Bool) (m m' : Mnt) (t t' : Thread)
      → Totals l s v q m.mnt_stats t.stats
      → update_stats tsc_freq tsc_stop diff down m t ≡ continues d m' t'
      → Totals l s v q m'.mnt_stats t'.stats
  unfolding update_stats add64
  update_stats-Totals tsc_stop diff l s v q down d m m' t t' h e = ground arith

  after_cb-Totals :
      (tsc_stop diff l s v q : ℕ) (d : Bool) (m m' : Mnt) (t t' : Thread) (out : CbResult)
      → ((rc : ℕ) (n : Mnt) → out ≡ returned rc n → n.mnt_stats ≡ m.mnt_stats)
      → Totals l s v q m.mnt_stats t.stats
      → after_cb tsc_freq tsc_stop diff t out ≡ continues d m' t'
      → Totals l s v q m'.mnt_stats t'.stats
  unfolding after_cb
  after_cb-Totals tsc_stop diff l s v q d m m' t t' cb_blocked k h e = cc
  after_cb-Totals tsc_stop diff l s v q d m m' t t' cb_aborts k h e = cc
  after_cb-Totals tsc_stop diff l s v q d m m' t t' (returned rc n) k h e =
      let there : Totals l s v q n.mnt_stats t.stats = rw (k rc n refl) h in
      elim (Bool-cases (rc == 0)) [
        | inl stays ↦ update_stats-Totals tsc_stop diff l s v q _ d n m' t t' there (rw stays at e)
        | inr over ↦
            update_stats-Totals tsc_stop diff l s v q _ d (job_ends n) m' t t' there (rw over at e)
      ]

  notify-Totals :
      (tsc_stop diff l s v q r : ℕ) (d : Bool) (m m' : Mnt) (t t' : Thread) (cb : Option Callback)
      → Totals l s v q m.mnt_stats t.stats
      → notify run_cb tsc_freq tsc_stop diff t r cb m ≡ continues d m' t'
      → Totals l s v q m'.mnt_stats t'.stats
  unfolding notify
  notify-Totals tsc_stop diff l s v q r d m m' t t' none h e =
      update_stats-Totals tsc_stop diff l s v q _ d (wake_waiters m) m' t t' h e
  notify-Totals tsc_stop diff l s v q r d m m' t t' (some cb) h e =
      after_cb-Totals tsc_stop diff l s v q d m m' t t' (run_cb cb r m) (λ rc n. keeps cb r rc m n)
        h e

  abbrev Counted : ℕ → ℕ → ℕ → Mnt → Mnt → Thread → Thread → Type 0
  Counted r tsc_stop len m m' t t' =
      Totals
        (add64 (add64 m.mnt_stats.latency_cum t.stats.latency_cum)
          (sub64 tsc_stop (m.req_at r).req_tsc_start))
        (add64 (add64 m.mnt_stats.thruput_send t.stats.thruput_send)
          (m.msg_at (m.req_at r).req_msg).msg_len)
        (add64 (add64 m.mnt_stats.thruput_recv t.stats.thruput_recv) len)
        (add64 (add64 m.mnt_stats.requests t.stats.requests) 1) m'.mnt_stats t'.stats

  count_reply-Totals :
      (diff sent_len len : ℕ) (g s : Stats)
      → Totals
          (add64 (add64 g.latency_cum s.latency_cum) diff)
          (add64 (add64 g.thruput_send s.thruput_send) sent_len)
          (add64 (add64 g.thruput_recv s.thruput_recv) len)
          (add64 (add64 g.requests s.requests) 1)
          g
          (count_reply diff sent_len len s)
  unfolding count_reply add64
  count_reply-Totals diff sent_len len g s = omega arith

  complete-Counted :
      (r stat tsc_stop len : ℕ) (d : Bool) (body : List ℕ) (m m' : Mnt) (t t' : Thread)
      → complete lib run_cb tsc_freq r tsc_stop len stat body m t ≡ continues d m' t'
      → Counted r tsc_stop len m m' t t'
  unfolding complete exchange
  complete-Counted r stat tsc_stop len d body m m' t t' h =
      let diff : ℕ = sub64 tsc_stop (m.req_at r).req_tsc_start in
      let there = exchange r tsc_stop len stat body t m in
      notify-Totals tsc_stop diff _ _ _ _ r d there.0 m' there.1 t' (m.req_at r).req_cb
        (count_reply-Totals diff (m.msg_at (m.req_at r).req_msg).msg_len len m.mnt_stats t.stats) h

  dispatch-Counted :
      (o : Option ℕ) (r stat tsc_stop len : ℕ) (d : Bool) (reply : RpcMsg) (m m' : Mnt)
      (t t' : Thread)
      → o ≡ some r
      → dispatch lib run_cb tsc_freq o tsc_stop len stat reply m t ≡ continues d m' t'
      → Counted r tsc_stop len m m' t t'
  unfolding dispatch
  dispatch-Counted none r stat tsc_stop len d reply m m' t t' e h = cc
  dispatch-Counted (some x) r stat tsc_stop len d reply m m' t t' e h =
      let same : x ≡ r = cc in
      elim (Bool-cases ((m.req_at x).req_xid == reply.rm_xid)) [
        | inl hit ↦
            subst (λ y. Counted y tsc_stop len m m' t t') same
              (complete-Counted x stat tsc_stop len d reply.results
                (record m { mnt_req_tbl = update m.mnt_req_tbl (slot reply.rm_xid) none }) m' t t'
                (rw hit at h))
        | inr miss ↦ let no_way : round_aborts ≡ continues d m' t' = rw miss at h in cc
      ]

  -- Each reply that is taken counts once: with the time since its request was sent, the length of
  -- the request and its own length, whether the thread passes its figures on in this round or keeps
  -- them. The callbacks leave the statistics alone.
  pub on_reply-Totals :
      (r stat tsc_stop len : ℕ) (d : Bool) (reply : RpcMsg) (m m' : Mnt) (t t' : Thread)
      → m.mnt_req_tbl (slot reply.rm_xid) ≡ some r
      → on_reply lib run_cb tsc_freq (stat, some reply) tsc_stop len m t ≡ continues d m' t'
      → Totals
          (add64
            (add64 m.mnt_stats.latency_cum t.stats.latency_cum)
            (sub64 tsc_stop (m.req_at r).req_tsc_start))
          (add64
            (add64 m.mnt_stats.thruput_send t.stats.thruput_send)
            (m.msg_at (m.req_at r).req_msg).msg_len)
          (add64 (add64 m.mnt_stats.thruput_recv t.stats.thruput_recv) len)
          (add64 (add64 m.mnt_stats.requests t.stats.requests) 1)
          m'.mnt_stats
          t'.stats
  unfolding on_reply
  on_reply-Totals r stat tsc_stop len d reply m m' t t' e h =
      elim (Bool-cases (stat == rpc_cantdecoderes)) [
        | inl bad ↦ let no_way : round_aborts ≡ continues d m' t' = rw bad at h in cc
        | inr fine ↦
            dispatch-Counted (m.mnt_req_tbl (slot reply.rm_xid)) r stat tsc_stop len d reply m m' t
              t' e (rw fine at h)
      ]
