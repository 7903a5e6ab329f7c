-- ===== src/Examples/Requests.antt =====
-- nct_req.c: tests, and the theorems of Req at concrete inputs.
use nct.Base.{
  ℕ, ◌%◌, ◌<◌, ◌≡◌, ◌↔◌, ◌*◌, ◌≤◌, refl, true, false, none, some, [], ◌∷◌, arith, length, add64,
  sub64,
}
use nct.Rpc.{count, minus_one}
use nct.Rpc.Framing.{no_mark}
use nct.Rpc.Decode.{RpcLib, RpcMsg}
use nct.Req.State.{Mnt, Stats, Callback, update, nct_req_max}
use nct.Req.Pool.{IsPool, nct_req_create, new_req, initial_pool, nct_req_create-IsPool}
use nct.Req.Send.{slot, xid_after, enroll, IsTable, slot_cycle, enroll-IsTable}
use nct.Req.Loop.{
  CbResult, returned, Thread, round_aborts, faults, on_reply, dispatch, complete, exchange, notify,
  count_reply, update_stats, recv_round, zero_stats, stats_step,
}
use nct.Req.Dispatch.{Completed, on_reply-enroll}
use nct.Req.Accounting.{Totals, Keeps, on_reply-Totals}
use nct.Req.Loop.{continues}
use nct.Req.Wait.{nct_req_wait, wait_wakes, asleep, dozes, ready, nct_req_wait-on_reply}
use nct.Req.Calls.{alloc, wake, free, gives, blocks, frees, run, Represents, run_refines}
use nct.Req.Reconnect.{recv_round-error, recv_round-short, stats_step_lem}

-- Two requests in the pool, 1 in front of 0; nothing in flight.
abbrev pub small : Mnt
small = record {
  mnt_send_xid = 4294967290;
  mnt_recv_mark = no_mark;
  mnt_wait_waiters = 0;
  mnt_wait_cv = [];
  mnt_req_head = some 1;
  mnt_req_tbl = λ _. none;
  mnt_req_waiters = 0;
  mnt_stats = zero_stats;
  mnt_jobs_max = 1;
  mnt_jobs_cnt = 0;
  vn_size = 1000;
  priv = record { pr_offset = 0; pr_length = 400; pr_duration = 1 };
  req_at = λ r. new_req r (some 0);
  msg_at = λ _. record { msg_data = []; msg_len = 40; msg_stat = 0; msg_body = [] };
}

abbrev drained : Mnt
drained = record small { mnt_req_head = some 1; req_at = λ r. new_req r none }

drained-IsPool : IsPool drained (1 ∷ [])
drained-IsPool = record { linked = (refl, refl); distinct = (tt, tt) }

abbrev pub lib : RpcLib
lib = record { xdr_replymsg = λ buf len. none; seterr_reply = λ m. m.verdict }

abbrev pub no_callback : Callback → ℕ → Mnt → CbResult
no_callback cb r m = returned 0 m

abbrev pub thread : Thread
thread = record { msg = 7; stats = zero_stats; tsc_stats = 1000 }

created-IsPool :
    IsPool (nct_req_create (record small { mnt_req_head = none })) initial_pool
    × (length initial_pool ≡ nct_req_max)
created-IsPool = nct_req_create-IsPool (record small { mnt_req_head = none }) refl

-- The id wraps within these sends, and comes back to its slot after 1024 of them.
same_slot : (slot (xid_after 1024 4294967290) ≡ slot 4294967290) ↔ (1024 % nct_req_max ≡ 0)
same_slot = slot_cycle 1024 4294967290 (omega arith)

sent-IsTable : IsTable (enroll 1 small)
sent-IsTable = enroll-IsTable 1 small (λ i e. cc) (record { placed = λ i r e. cc })

abbrev pub reply : RpcMsg
reply = record { rm_xid = 4294967290; verdict = 0; results = 9 ∷ [] }

enrolled :
    Completed 1 0
      (9 ∷ [])
      (enroll 1 small).req_at
      small.mnt_wait_waiters
      thread
      (slot 4294967290)
      (on_reply lib no_callback 1000000 (0, some reply) 50 28 (enroll 1 small) thread)
enrolled =
    on_reply-enroll lib no_callback 1000000 1 0 50 28 0 (9 ∷ []) small thread (omega arith) refl

abbrev pub in_flight : Mnt
in_flight = record small {
  mnt_req_tbl = λ _. some 1;
  req_at = λ r. record (new_req r none) { req_tsc_start = 20; req_xid = 4294967290 };
}

no_callback-Keeps : Keeps no_callback
no_callback-Keeps cb r rc m m' e = ground arith

-- The thread keeps the figures of this reply to itself.
abbrev counted : Stats
counted = record zero_stats { latency_cum = 30; thruput_send = 40; thruput_recv = 28; requests = 1 }

on_reply-Totals_example : Totals 30 40 28 1 zero_stats counted
unfolding on_reply dispatch complete exchange notify count_reply update_stats add64 sub64
on_reply-Totals_example =
    on_reply-Totals lib no_callback 1000000 no_callback-Keeps 1 0 50 28 false reply in_flight
      (record in_flight {
        mnt_req_tbl = update (λ _. some 1) (slot 4294967290) none;
        req_at =
            update in_flight.req_at 1
              (record (in_flight.req_at 1) { req_tsc_stop = 50; req_msg = 7; req_done = true });
        msg_at =
            update in_flight.msg_at 7
              (record { msg_data = []; msg_len = 28; msg_stat = 0; msg_body = 9 ∷ [] });
      })
      thread (record thread { msg = 1; stats = counted }) refl refl

recv_error :
    recv_round lib no_callback 1000000 minus_one [] 50 true (λ _. 0) (λ _. []) small thread
    ≡ round_aborts
recv_error =
    recv_round-error lib no_callback 1000000 [] 50 true (λ _. 0) (λ _. []) small thread refl

recv_round-short_example :
    recv_round lib no_callback 1000000 (count 12) [] 50 true (λ _. 0) (λ _. []) small thread
    ≡ faults
recv_round-short_example =
    recv_round-short lib no_callback 1000000 12 0 [] 50 (λ _. 0) (λ _. []) small thread
      (omega arith) (omega arith) (omega arith) (λ j h. absurd (omega arith)) refl

step_at_3ghz :
    (stats_step 3000000000 * 3000000000 ≤ 1000000000)
    × ((stats_step 3000000000 ≡ 0) ↔ (1000000000 < 3000000000))
step_at_3ghz = stats_step_lem 3000000000 (omega arith)

nct_req_wait-on_reply_example :
    (nct_req_wait 1 (enroll 1 small) ≡ dozes (asleep 1 small))
    × (wait_wakes 1 (asleep 1 small) ≡ dozes (asleep 1 small))
    × ((m' : Mnt) × (t' : Thread) × (on_reply lib no_callback 1000000
            (0, some reply)
            50
            28
            (asleep 1 small)
            thread
          ≡ continues false m' t')
        × (wait_wakes 1 m' ≡ ready (record m' { mnt_wait_waiters = small.mnt_wait_waiters }))
        × ((m'.msg_at (m'.req_at 1).req_msg).msg_body ≡ 9 ∷ []))
nct_req_wait-on_reply_example =
    nct_req_wait-on_reply lib no_callback 1000000 1 0 50 28 0 (9 ∷ []) small thread (omega arith)
      refl

-- One request out, a wait, another one back, which the waiter gets, and the first one back.
run_refines_example :
    ((run (alloc ∷ alloc ∷ free 0 ∷ wake ∷ free 1 ∷ []) drained).0
      ≡ gives 1 ∷ blocks ∷ frees true ∷ gives 0 ∷ frees false ∷ [])
    × Represents
        (run (alloc ∷ alloc ∷ free 0 ∷ wake ∷ free 1 ∷ []) drained).1
        (record { free_list = 1 ∷ []; waiters = 0 })
run_refines_example =
    run_refines (alloc ∷ alloc ∷ free 0 ∷ wake ∷ free 1 ∷ [])
      (record { free_list = 1 ∷ []; waiters = 0 }) drained (tt, (tt, tt))
      (record { pool = drained-IsPool; waiting = refl })
