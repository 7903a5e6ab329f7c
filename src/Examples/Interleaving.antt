-- ===== src/Examples/Interleaving.antt =====
-- The threads of a mount: a run of their steps.
use nct.Base.{refl, none, some, [], arith}
use nct.Req.State.{Mnt, update}
use nct.Req.Pool.{nct_req_create, create_loop}
use nct.Req.Send.{slot, enroll}
use nct.Req.Loop.{Thread, exchange}
use nct.Threads.{
  working, seated, looked, cleared, grabbed, reading, Threads, start, alloc, send, look, clear,
  grab, put, Reach, here, next, initial, hand, thread_start, clear_slot,
}
use nct.Threads.Invariant.{popped, alloc_head, of_thread}
use nct.Threads.Exclusive.{Holds, by_thread}
use nct.Examples.Requests.{small}

abbrev created : Mnt
created = record small { mnt_req_head = none }

-- A receive thread starts, a job gets a request and sends it, and the thread takes the reply.
abbrev started_up : Threads
started_up = record (hand 1023 seated (initial created)) {
  mnt = popped 1023 (nct_req_create created);
  thread =
      update (initial created).thread 0
        (some (thread_start 1000000 0 0 1023 (popped 1023 (nct_req_create created))));
}

abbrev with_job : Threads
with_job = record (hand 1022 working started_up) { mnt = popped 1022 started_up.mnt }

abbrev sent : Threads
sent = record with_job { mnt = enroll 1022 with_job.mnt }

abbrev first_thread : Thread
first_thread = thread_start 1000000 0 0 1023 (popped 1023 (nct_req_create created))

abbrev looked_at : Threads
looked_at = record sent { place = update sent.place 0 (looked 4294967290 1022) }

abbrev slot_cleared : Threads
slot_cleared = record looked_at {
  mnt = clear_slot (slot 4294967290) looked_at.mnt;
  place = update looked_at.place 0 (cleared 4294967290 1022);
}

abbrev buffer_read : Threads
buffer_read = record slot_cleared { place = update slot_cleared.place 0 (grabbed 1022 1022) }

abbrev answered : Threads
answered = record buffer_read {
  mnt = (exchange 1022 50 28 0 [] first_thread buffer_read.mnt).0;
  thread =
      update buffer_read.thread 0
        (some (record (exchange 1022 50 28 0 [] first_thread buffer_read.mnt).1 { msg = 1022 }));
  place = update buffer_read.place 0 reading;
}

Reach-sent : Reach (initial created) sent
unfolding nct_req_create create_loop enroll
Reach-sent =
    next
      (next
        (next here
          (start 0 1023 1000000 0 0 _ refl (alloc_head (nct_req_create created) 1023 refl) refl))
        (alloc 1022 _ (alloc_head started_up.mnt 1022 refl) refl))
      (send 1022 refl (λ f. ground arith) (λ h. absurd h.1) refl)

Reach-answered : Reach (initial created) answered
unfolding nct_req_create create_loop enroll
Reach-answered =
    next
      (next
        (next (next Reach-sent (look 0 1022 4294967290 refl refl refl))
          (clear 0 1022 4294967290 refl refl))
        (grab 0 1022 4294967290 refl refl refl))
      (put 0 1022 1022 50 28 0 [] _ refl refl refl)

-- Without the condition: two threads, each with a reply to request 1022, read its slot before one of
-- them clears it, and both read its buffer before one of them gives it another one. Both then read
-- records into buffer 1022.
abbrev second_thread : Thread
second_thread = record first_thread { msg = 1021 }

abbrev two_threads : Threads
two_threads = record sent { thread = update sent.thread 1 (some second_thread) }

abbrev both_looked : Threads
both_looked = record two_threads {
  place = update (update two_threads.place 0 (looked 4294967290 1022)) 1 (looked 4294967290 1022);
}

abbrev zero_cleared : Threads
zero_cleared = record both_looked {
  mnt = clear_slot (slot 4294967290) both_looked.mnt;
  place = update both_looked.place 0 (cleared 4294967290 1022);
}

abbrev both_cleared : Threads
both_cleared = record zero_cleared {
  mnt = clear_slot (slot 4294967290) zero_cleared.mnt;
  place = update zero_cleared.place 1 (cleared 4294967290 1022);
}

abbrev both_grabbed : Threads
both_grabbed = record both_cleared {
  place = update (update both_cleared.place 0 (grabbed 1022 1022)) 1 (grabbed 1022 1022);
}

abbrev zero_put : Threads
zero_put = record both_grabbed {
  mnt = (exchange 1022 50 28 0 [] first_thread both_grabbed.mnt).0;
  thread =
      update both_grabbed.thread 0
        (some (record (exchange 1022 50 28 0 [] first_thread both_grabbed.mnt).1 { msg = 1022 }));
  place = update both_grabbed.place 0 reading;
}

abbrev both_put : Threads
both_put = record zero_put {
  mnt = (exchange 1022 50 28 0 [] second_thread zero_put.mnt).0;
  thread =
      update zero_put.thread 1
        (some (record (exchange 1022 50 28 0 [] second_thread zero_put.mnt).1 { msg = 1022 }));
  place = update zero_put.place 1 reading;
}

Reach-both_put : Reach two_threads both_put
unfolding nct_req_create create_loop enroll thread_start
Reach-both_put =
    next
      (next
        (next
          (next
            (next
              (next
                (next (next here (look 0 1022 4294967290 refl refl refl))
                  (look 1 1022 4294967290 refl refl refl))
                (clear 0 1022 4294967290 refl refl))
              (clear 1 1022 4294967290 refl refl))
            (grab 0 1022 4294967290 refl refl refl))
          (grab 1 1022 4294967290 refl refl refl))
        (put 0 1022 1022 50 28 0 [] _ refl refl refl))
      (put 1 1022 1022 50 28 0 [] _ refl refl refl)

shared_run : Holds both_put (of_thread 0) 1022 × Holds both_put (of_thread 1) 1022
unfolding nct_req_create create_loop enroll exchange thread_start
shared_run = (by_thread 0 _ refl, by_thread 1 _ refl)
