-- ===== src/Req/Round.antt =====
-- nct_req_send, nct_rpc_recv and nct_req_recv_loop together: a whole round of the loop that receives
-- the record of a reply.
use nct.Base.{
  ℕ, ◌+◌, ◌^◌, ◌<◌, ◌≤◌, ◌≡◌, ◌≢◌, ◌⊎◌, inl, inr, refl, ◌∙◌, Bool, true, some, none, List, ◌∷◌,
  ◌++◌, map, length, concat, All, lt→ltb, le→ltb, ltb, Bool-cases, ◌==◌, ntohl, add64,
}
use nct.Rpc.{Sent, Received, Outcome, got, count, nct_rpc_recv}
use nct.Rpc.Framing.{no_mark, NonEmpty, Framed}
use nct.Rpc.Stream.{last_mark, nct_rpc_recv-Framed, nct_rpc_recv_stored-Framed}
use nct.Rpc.Decode.{RpcLib, rpc_cantdecoderes, nct_rpc_decode}
use nct.Req.State.{Mnt, Callback, Req}
use nct.Req.Send.{slot, enroll}
use nct.Req.Loop.{CbResult, Thread, Round, recv_round, after_recv, recv_loop_round, rpcmin}
use nct.Req.Dispatch.{Completed, on_reply-enroll}

-- The mark of the record `p` is the next thing in the stream, and none is at hand; or the round
-- before has read it, and it is at hand. The record and what is behind it come in the reads `cs`.
abbrev pub Arrives : List ℕ → List (List ℕ) → List Received → List ℕ → List Received → Type 0
Arrives p cs more mark es =
    ((mark ≡ no_mark) × (es ≡ got (last_mark (length p)) ∷ map got cs ++ more))
    ⊎ ((mark ≡ last_mark (length p)) × (es ≡ map got cs ++ more))

-- The thread's figures do not matter to what is completed.
same_buffer :
    {r stat w i : ℕ} {body : List ℕ} {f : ℕ → Req} {u : Thread} {out : Round} (t : Thread)
    → u.msg ≡ t.msg
    → Completed r stat body f w u i out
    → Completed r stat body f w t i out
same_buffer t e c = record {
  m' = c.m';
  t' = c.t';
  result = c.result;
  done = c.done;
  holds = c.holds ∙ e;
  status = rw (← e) c.status;
  reply = rw (← e) c.reply;
  cleared = c.cleared;
  spare = c.spare;
  others = c.others;
  waiters = c.waiters;
  woken = c.woken;
}

pub arrived-Framed :
    (room : ℕ) (p q : List ℕ) (cs : List (List ℕ)) (more : List Received) (mark : List ℕ)
    (es : List Received)
    → length p < 2 ^ 31
    → length p + 4 ≤ room
    → length q ≡ 4
    → All NonEmpty cs
    → concat cs ≡ p ++ q
    → Arrives p cs more mark es
    → Framed p q (length p) more (nct_rpc_recv room (some mark) es)
arrived-Framed room p q cs more mark es small fits four ne cut (inl (e, f)) =
    rw (e, f) (nct_rpc_recv-Framed room p q fits small four cs ne cut more)
arrived-Framed room p q cs more mark es small fits four ne cut (inr (e, f)) =
    rw (e, f) (nct_rpc_recv_stored-Framed room p q fits small four cs ne cut more)

module _ (lib : RpcLib) (run_cb : Callback → ℕ → Mnt → CbResult) (tsc_freq : ℕ)
    (r tsc_stop stat verdict : ℕ) (connected : Bool) (now : ℕ → ℕ) (net : ℕ → List Sent) (m : Mnt)
    (t : Thread) (p body : List ℕ) where
  -- The bytes are a reply to the request that is sent next.
  abbrev pub Answers : Type 0
  Answers =
      nct_rpc_decode lib p (count (length p))
      ≡ (stat, some (record { rm_xid = m.mnt_send_xid; verdict = verdict; results = body }))

  recv_round-enroll :
      (k : List ℕ)
      → rpcmin ≤ length p
      → Answers
      → stat ≢ rpc_cantdecoderes
      → (m.req_at r).req_cb ≡ none
      → Completed r stat body (enroll r m).req_at m.mnt_wait_waiters t (slot m.mnt_send_xid) (
          recv_round lib run_cb tsc_freq
            (count (length p))
            p
            tsc_stop
            connected
            now
            net
            (record (enroll r m) { mnt_recv_mark = k })
            t)
  unfolding recv_round enroll
  recv_round-enroll k long e ok cb =
      let done = λ (u : Thread).
        on_reply-enroll lib run_cb tsc_freq r stat tsc_stop (length p) verdict body
          (record m { mnt_recv_mark = k }) u ok cb in
      elim (Bool-cases (ntohl k == 0)) [
        | inl unmarked ↦ rw (le→ltb (length p) rpcmin long, unmarked, e) (done t)
        | inr marked ↦
            rw (le→ltb (length p) rpcmin long, marked, e)
              (same_buffer t refl
                (done (record t { stats = record t.stats { marks = add64 t.stats.marks 1 } })))
      ]

  after_recv-enroll :
      (q : List ℕ) (more : List Received) (out : Outcome × List Received)
      → Framed p q (length p) more out
      → rpcmin ≤ length p
      → Answers
      → stat ≢ rpc_cantdecoderes
      → (m.req_at r).req_cb ≡ none
      → Completed r stat body
          (enroll r m).req_at
          m.mnt_wait_waiters
          t
          (slot m.mnt_send_xid)
          (after_recv lib run_cb tsc_freq out tsc_stop connected now net (enroll r m) t)
  unfolding after_recv recv_round
  after_recv-enroll q more out f long e ok cb = elim f.mark [
    | inl (at, _) ↦ rw (f.result, f.filled, at) (recv_round-enroll no_mark long e ok cb)
    | inr (at, _) ↦ rw (f.result, f.filled, at) (recv_round-enroll q long e ok cb)
  ]

  -- A whole round of the receive loop, with more than three jobs, that finds on the connection the
  -- record of a reply to the request that was sent last: in whatever pieces the record arrives, with
  -- its mark or behind a mark that the round before has read, and with the four bytes of the next
  -- mark behind it, the round completes this request, which waits with no callback, and no other.
  -- The reply has the 24 bytes of the shortest one, fits the buffer, and its header decodes.
  pub recv_loop_round-enroll :
      (room : ℕ) (q : List ℕ) (cs : List (List ℕ)) (more es : List Received)
      → 3 < m.mnt_jobs_max
      → rpcmin ≤ length p
      → length p < 2 ^ 31
      → length p + 4 ≤ room
      → length q ≡ 4
      → All NonEmpty cs
      → concat cs ≡ p ++ q
      → Arrives p cs more m.mnt_recv_mark es
      → Answers
      → stat ≢ rpc_cantdecoderes
      → (m.req_at r).req_cb ≡ none
      → Completed r stat body
          (enroll r m).req_at
          m.mnt_wait_waiters
          t
          (slot m.mnt_send_xid)
          (recv_loop_round lib run_cb tsc_freq room es tsc_stop connected now net (enroll r m) t)
  unfolding recv_loop_round enroll
  recv_loop_round-enroll room q cs more es jobs long small fits four ne cut at_hand e ok cb =
      let several : ltb 3 (enroll r m).mnt_jobs_max ≡ true = lt→ltb 3 m.mnt_jobs_max jobs in
      rw several (
        after_recv-enroll q more _
          (arrived-Framed room p q cs more (enroll r m).mnt_recv_mark es small fits four ne cut
            at_hand)
          long e ok cb)
