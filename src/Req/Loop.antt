-- ===== src/Req/Loop.antt =====
-- nct_req_recv_loop: one thread that takes replies off the connection.
--
-- The section's parameters stand for what lies outside: the RPC library, the callbacks of the test
-- under way (modelled in Tests), the frequency of the clock and the room in a message buffer.
-- Times read by rdtsc() are arguments.
use nct.Base.{
  [], ℕ, zero, suc, ◌+◌, ◌-◌, ◌*◌, ◌/◌, ◌%◌, ◌^◌, Bool, true, false, not, Option, none, some, List,
  ltb, ◌==◌, if◌then◌else◌, add64, sub64, ntohl,
}
use nct.Rpc.{Sent, Ssize, count, minus_one, Received, Outcome, waits, returns, aborts, nct_rpc_recv}
use nct.Rpc.Framing.{no_mark}
use nct.Rpc.Decode.{RpcLib, RpcMsg, rpc_cantdecoderes, nct_rpc_decode}
use nct.Req.State.{Mnt, Stats, Callback, update, set_req, set_msg, nct_req_max}
use nct.Req.Send.{slot, delivered, blocked, send_aborts, nct_req_send}

-- What a callback comes to.
pub data CbResult : Type 0 where
  returned : ℕ → Mnt → CbResult
  cb_blocked cb_aborts : CbResult

-- The locals of a receive thread: its spare message buffer and its statistics.
pub record Thread : Type 0 where
  pub msg : ℕ
  pub stats : Stats
  pub tsc_stats : ℕ

-- One round of the loop: on to the next round, with whether the connection was shut down for
-- sending; the end of the thread; abort(); a read through a null pointer; or a blocked call.
pub data Round : Type 0 where
  continues : Bool → Mnt → Thread → Round
  exits : Mnt → Round
  round_aborts faults round_blocks : Round

abbrev pub zero_stats : Stats
zero_stats = record {
  latency_min = 0;
  latency_max = 0;
  latency_cum = 0;
  requests = 0;
  thruput_send = 0;
  thruput_recv = 0;
  updates = 0;
  marks = 0;
}

-- The comparison `cc < rpcmin` is between size_t, to which -1 converts as the greatest value.
abbrev pub as_size : Ssize → ℕ
as_size (count n) = n
as_size minus_one = 2 ^ 64 - 1

abbrev pub rpcmin : ℕ
rpcmin = 24

-- The statistics of the thread after one more reply.
unfoldable pub count_reply : ℕ → ℕ → ℕ → Stats → Stats
count_reply diff sent_len cc s = record s {
  latency_cum = add64 s.latency_cum diff;
  thruput_send = add64 s.thruput_send sent_len;
  thruput_recv = add64 s.thruput_recv cc;
  requests = add64 s.requests 1;
}

-- The update of the mount's statistics under `mnt_stats_spin`.
unfoldable pub flush_into : ℕ → Stats → Stats → Stats
flush_into diff s g = record {
  latency_min = if ltb diff g.latency_min then diff else g.latency_min;
  latency_max = if ltb g.latency_max diff then diff else g.latency_max;
  latency_cum = add64 g.latency_cum s.latency_cum;
  thruput_send = add64 g.thruput_send s.thruput_send;
  thruput_recv = add64 g.thruput_recv s.thruput_recv;
  requests = add64 g.requests s.requests;
  marks = add64 g.marks s.marks;
  updates = add64 g.updates 1;
}

-- "Extend the next stats update by 1000us."
unfoldable pub stats_step : ℕ → ℕ
stats_step tsc_freq = 1000 * 1000000 / tsc_freq

-- The end of a round: the statistics are passed on, unless it is too early.
unfoldable pub update_stats : ℕ → ℕ → ℕ → Bool → Mnt → Thread → Round
unfolding flush_into stats_step
update_stats tsc_freq tsc_stop diff down m t =
    if ltb tsc_stop t.tsc_stats
    then continues down m t
    else continues down (record m { mnt_stats = flush_into diff t.stats m.mnt_stats })
        (record t { stats = zero_stats; tsc_stats = add64 t.tsc_stats (stats_step tsc_freq) })

-- `__atomic_sub_fetch(&mnt->mnt_jobs_cnt, 1)` on a u_int.
abbrev pub job_ends : Mnt → Mnt
job_ends m = record m { mnt_jobs_cnt = (m.mnt_jobs_cnt + 2 ^ 32 - 1) % 2 ^ 32 }

-- A callback that returns other than 0 ends its job, and the last job shuts the connection down.
unfoldable pub after_cb : ℕ → ℕ → ℕ → Thread → CbResult → Round
unfolding update_stats
after_cb tsc_freq tsc_stop diff t (returned rc m) =
    if rc == 0
    then update_stats tsc_freq tsc_stop diff false m t
    else update_stats tsc_freq tsc_stop diff ((job_ends m).mnt_jobs_cnt == 0) (job_ends m) t
after_cb tsc_freq tsc_stop diff t cb_blocked = round_blocks
after_cb tsc_freq tsc_stop diff t cb_aborts = round_aborts

-- pthread_cond_broadcast(&mnt->mnt_wait_cv), if there are waiters: no thread sleeps on it any more.
abbrev pub wake_waiters : Mnt → Mnt
wake_waiters m = record m { mnt_wait_cv = if ltb 0 m.mnt_wait_waiters then [] else m.mnt_wait_cv }

-- The callback, or, if there is none, the wake-up of the threads in nct_req_wait.
unfoldable pub notify :
    (Callback → ℕ → Mnt → CbResult) → ℕ → ℕ → ℕ → Thread → ℕ → Option Callback → Mnt → Round
unfolding after_cb
notify run_cb tsc_freq tsc_stop diff t r none m =
    update_stats tsc_freq tsc_stop diff false (wake_waiters m) t
notify run_cb tsc_freq tsc_stop diff t r (some cb) m =
    after_cb tsc_freq tsc_stop diff t (run_cb cb r m)

-- The reply's message in the thread's buffer, and the exchange of the two buffers: the request
-- keeps the reply, and the thread the buffer that was sent.
unfoldable pub exchange : ℕ → ℕ → ℕ → ℕ → List ℕ → Thread → Mnt → Mnt × Thread
exchange r tsc_stop cc stat body t m =
    let q = m.req_at r in
    let g = m.msg_at t.msg in
    (
      set_req r (record q { req_tsc_stop = tsc_stop; req_msg = t.msg; req_done = true })
          (set_msg t.msg (record g { msg_len = cc; msg_stat = stat; msg_body = body }) m),
      record t {
        msg = q.req_msg;
        stats =
            count_reply (sub64 tsc_stop q.req_tsc_start) (m.msg_at q.req_msg).msg_len cc t.stats;
      },
    )

module _ (lib : RpcLib) (run_cb : Callback → ℕ → Mnt → CbResult) (tsc_freq : ℕ) where
  -- A reply to request `r`, whose slot is empty by now.
  unfoldable pub complete : ℕ → ℕ → ℕ → ℕ → List ℕ → Mnt → Thread → Round
  unfolding exchange notify
  complete r tsc_stop cc stat body m t =
      let q = m.req_at r in
      let (m', t') = exchange r tsc_stop cc stat body t m in
      notify run_cb tsc_freq tsc_stop (sub64 tsc_stop q.req_tsc_start) t' r q.req_cb m'

  -- The request of a reply: its slot is read and cleared, and its id compared.
  unfoldable pub dispatch : Option ℕ → ℕ → ℕ → ℕ → RpcMsg → Mnt → Thread → Round
  dispatch none tsc_stop cc stat reply m t = faults
  dispatch (some r) tsc_stop cc stat reply m t =
      let m' = record m { mnt_req_tbl = update m.mnt_req_tbl (slot reply.rm_xid) none } in
      if (m.req_at r).req_xid == reply.rm_xid
      then complete r tsc_stop cc stat reply.results m' t
      else round_aborts

  -- From nct_rpc_decode to the end of the round.
  unfoldable pub on_reply : ℕ × Option RpcMsg → ℕ → ℕ → Mnt → Thread → Round
  unfolding dispatch
  on_reply (stat, none) tsc_stop cc m t = round_aborts
  on_reply (stat, some reply) tsc_stop cc m t =
      if stat == rpc_cantdecoderes
      then round_aborts
      else dispatch (m.mnt_req_tbl (slot reply.rm_xid)) tsc_stop cc stat reply m t

  -- The loop that sends the requests in flight again after a new connection, `n` slots from `i`
  -- on. `now i` and `net i` are the clock and the results of send() in its round.
  unfoldable pub resend_loop : ℕ → ℕ → (ℕ → ℕ) → (ℕ → List Sent) → Mnt → Thread → Round
  resend_loop zero i now net m t = continues false m t
  resend_loop (suc n) i now net m t = elim (m.mnt_req_tbl i) [
    | none ↦ faults
    | some r ↦
        let q = m.req_at r in
        if ltb q.req_tsc_stop q.req_tsc_start
        then elim (nct_req_send r
            (set_req r (record q { req_tsc_stop = now i })
              (record m {
                mnt_stats = record m.mnt_stats {
                  latency_cum = add64 m.mnt_stats.latency_cum (sub64 (now i) q.req_tsc_start);
                };
              }))
            (net i)) [
              | delivered m' _ ↦ resend_loop n (i + 1) now net m' t
              | blocked _ _ ↦ round_blocks
              | send_aborts ↦ round_aborts
            ]
        else resend_loop n (i + 1) now net m t
  ]

  -- Fewer bytes than a reply has: the end of the stream ends the thread, and anything else makes
  -- it connect again (`connected`, from nct_connect) and send again.
  unfoldable pub on_short : ℕ → Bool → (ℕ → ℕ) → (ℕ → List Sent) → Mnt → Thread → Round
  unfolding resend_loop
  on_short cc connected now net m t =
      let m' = record m { mnt_recv_mark = no_mark } in
      if cc == 0
      then exits m'
      else if connected
      then resend_loop nct_req_max 0 now net m' t
      else round_aborts

  -- A round of the loop from the return of nct_rpc_recv on. The buffer starts with `mem`.
  unfoldable pub recv_round :
      Ssize → List ℕ → ℕ → Bool → (ℕ → ℕ) → (ℕ → List Sent) → Mnt → Thread → Round
  unfolding on_reply on_short
  recv_round cc mem tsc_stop connected now net m t =
      if ltb (as_size cc) rpcmin
      then on_short (as_size cc) connected now net m t
      else let marked = not (ntohl m.mnt_recv_mark == 0) in
        let s = t.stats in
        let t' = if marked then record t { stats = record s { marks = add64 s.marks 1 } } else t in
        on_reply (nct_rpc_decode lib mem cc) tsc_stop (as_size cc) m t'

  abbrev stored_mark : Option (List ℕ) → Mnt → Mnt
  stored_mark none m = m
  stored_mark (some k) m = record m { mnt_recv_mark = k }

  -- The round with what nct_rpc_recv came to.
  unfoldable pub after_recv :
      Outcome × List Received → ℕ → Bool → (ℕ → ℕ) → (ℕ → List Sent) → Mnt → Thread → Round
  unfolding recv_round
  after_recv (waits _ _, _) tsc_stop connected now net m t = round_blocks
  after_recv (aborts, _) tsc_stop connected now net m t = round_aborts
  after_recv (returns cc s, _) tsc_stop connected now net m t =
      recv_round cc s.mem tsc_stop connected now net (stored_mark s.markp m) t

  -- A whole round of nct_req_recv_loop, with `room` bytes in a message buffer (NCT_MSGSZ_MAX).
  -- There is a place for the mark of the next record with more than three jobs only.
  unfoldable pub recv_loop_round :
      ℕ → List Received → ℕ → Bool → (ℕ → ℕ) → (ℕ → List Sent) → Mnt → Thread → Round
  unfolding after_recv
  recv_loop_round room es tsc_stop connected now net m t =
      let markp = if ltb 3 m.mnt_jobs_max then some m.mnt_recv_mark else none in
      after_recv (nct_rpc_recv room markp es) tsc_stop connected now net m t
