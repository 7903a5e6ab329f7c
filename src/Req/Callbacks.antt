-- ===== src/Req/Callbacks.antt =====
-- A whole round of nct_req_recv_loop for any request in flight, with a callback, as those of the load,
-- or without.
use nct.Base.{
  ℕ, ◌+◌, ◌^◌, ◌<◌, ◌≤◌, ◌≡◌, ◌≢◌, inl, inr, refl, arith, Bool, true, some, none, List, ◌++◌,
  length, concat, All, lt→ltb, le→ltb, ltb, Bool-cases, ◌==◌, ntohl, add64, ne→==,
}
use nct.Rpc.{Sent, Received, Outcome, count}
use nct.Rpc.Framing.{no_mark, NonEmpty, Framed}
use nct.Rpc.Decode.{RpcLib, rpc_cantdecoderes}
use nct.Req.State.{Mnt, Callback, update, update_self}
use nct.Req.Send.{slot, enroll}
use nct.Req.Loop.{
  CbResult, Thread, Round, on_reply, complete, recv_round, after_recv, recv_loop_round, rpcmin,
}
use nct.Req.Dispatch.{dispatch-hit}
use nct.Req.Round.{Arrives, Answers, arrived-Framed}

-- What the round does is what nct_req_recv_loop does with a reply to request `r` from the exchange of
-- the buffers on, its slot cleared: the callback, the count of the jobs and the statistics included.
pub record Completes (lib : RpcLib) (run_cb : Callback → ℕ → Mnt → CbResult)
    (tsc_freq r tsc_stop : ℕ) (len stat : ℕ) (body : List ℕ) (m : Mnt) (t : Thread) (out : Round)
    : Type 0 where
  pub mark : List ℕ
  pub thread : Thread
  pub buffer : thread.msg ≡ t.msg
  pub result :
      out
      ≡ complete lib run_cb tsc_freq r tsc_stop len stat body
          (record (enroll r m) {
            mnt_recv_mark = mark;
            mnt_req_tbl = update (enroll r m).mnt_req_tbl (slot m.mnt_send_xid) none;
          })
          thread

module _ (lib : RpcLib) (run_cb : Callback → ℕ → Mnt → CbResult) (tsc_freq : ℕ)
    (r tsc_stop stat verdict : ℕ) (connected : Bool) (now : ℕ → ℕ) (net : ℕ → List Sent) (m : Mnt)
    (t : Thread) (p body : List ℕ) where
  on_reply-complete :
      (k : List ℕ) (u : Thread)
      → stat ≢ rpc_cantdecoderes
      → on_reply lib run_cb tsc_freq
          (stat, some (record { rm_xid = m.mnt_send_xid; verdict = verdict; results = body }))
          tsc_stop
          (length p)
          (record (enroll r m) { mnt_recv_mark = k })
          u
        ≡ complete lib run_cb tsc_freq r tsc_stop
            (length p)
            stat
            body
            (record (enroll r m) {
              mnt_recv_mark = k;
              mnt_req_tbl = update (enroll r m).mnt_req_tbl (slot m.mnt_send_xid) none;
            })
            u
  unfolding on_reply enroll
  on_reply-complete k u ok =
      rw (ne→== stat rpc_cantdecoderes ok, update_self m.mnt_req_tbl (slot m.mnt_send_xid) (some r))
        (dispatch-hit lib run_cb tsc_freq r tsc_stop (length p) stat m.mnt_send_xid
          (record { rm_xid = m.mnt_send_xid; verdict = verdict; results = body })
          (record (enroll r m) { mnt_recv_mark = k }) u (ground arith) refl)

  recv_round-Completes :
      (k : List ℕ)
      → rpcmin ≤ length p
      → Answers lib run_cb tsc_freq r tsc_stop stat verdict connected now net m t p body
      → stat ≢ rpc_cantdecoderes
      → Completes lib run_cb tsc_freq r tsc_stop (length p) stat body m t (
          recv_round lib run_cb tsc_freq
            (count (length p))
            p
            tsc_stop
            connected
            now
            net
            (record (enroll r m) { mnt_recv_mark = k })
            t)
  unfolding recv_round
  recv_round-Completes k long e ok = elim (Bool-cases (ntohl k == 0)) [
    | inl unmarked ↦ record {
      mark = k;
      thread = t;
      buffer = refl;
      result = rw (le→ltb (length p) rpcmin long, unmarked, e) (on_reply-complete k t ok);
    }
    | inr marked ↦
        let u = record t { stats = record t.stats { marks = add64 t.stats.marks 1 } } in
        record {
          mark = k;
          thread = u;
          buffer = refl;
          result = rw (le→ltb (length p) rpcmin long, marked, e) (on_reply-complete k u ok);
        }
  ]

  after_recv-Completes :
      (q : List ℕ) (more : List Received) (out : Outcome × List Received)
      → Framed p q (length p) more out
      → rpcmin ≤ length p
      → Answers lib run_cb tsc_freq r tsc_stop stat verdict connected now net m t p body
      → stat ≢ rpc_cantdecoderes
      → Completes lib run_cb tsc_freq r tsc_stop
          (length p)
          stat
          body
          m
          t
          (after_recv lib run_cb tsc_freq out tsc_stop connected now net (enroll r m) t)
  unfolding after_recv recv_round
  after_recv-Completes q more out f long e ok = elim f.mark [
    | inl (at, _) ↦ rw (f.result, f.filled, at) (recv_round-Completes no_mark long e ok)
    | inr (at, _) ↦ rw (f.result, f.filled, at) (recv_round-Completes q long e ok)
  ]

  -- A whole round of the receive loop, with more than three jobs, that finds on the connection the
  -- record of a reply to the request that was sent last: in whatever pieces the record arrives, with
  -- its mark or behind a mark that the round before has read, and with the four bytes of the next
  -- mark behind it, the round clears the request's slot and goes on, from the exchange of the buffers
  -- with the callback and the statistics, with this request, its status and its results. The reply
  -- has the 24 bytes of the shortest one, fits the buffer, and its header decodes.
  pub recv_loop_round-Completes :
      (room : ℕ) (q : List ℕ) (cs : List (List ℕ)) (more es : List Received)
      → 3 < m.mnt_jobs_max
      → rpcmin ≤ length p
      → length p < 2 ^ 31
      → length p + 4 ≤ room
      → length q ≡ 4
      → All NonEmpty cs
      → concat cs ≡ p ++ q
      → Arrives p cs more m.mnt_recv_mark es
      → Answers lib run_cb tsc_freq r tsc_stop stat verdict connected now net m t p body
      → stat ≢ rpc_cantdecoderes
      → Completes lib run_cb tsc_freq r tsc_stop
          (length p)
          stat
          body
          m
          t
          (recv_loop_round lib run_cb tsc_freq room es tsc_stop connected now net (enroll r m) t)
  unfolding recv_loop_round enroll
  recv_loop_round-Completes room q cs more es jobs long small fits four ne cut at_hand e ok =
      let several : ltb 3 (enroll r m).mnt_jobs_max ≡ true = lt→ltb 3 m.mnt_jobs_max jobs in
      rw several (
        after_recv-Completes q more _
          (arrived-Framed room p q cs more (enroll r m).mnt_recv_mark es small fits four ne cut
            at_hand)
          long e ok)
