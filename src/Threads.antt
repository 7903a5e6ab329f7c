-- ===== src/Threads.antt =====
-- The threads of a mount together: the steps of the receive threads (nct_req.c) and of the jobs
-- that they run, in any order.
--
-- What a thread does under one of the mount's locks is one step. Where a receive thread takes a
-- reply, it has no lock: it reads the slot of the table, clears the slot, reads the request's
-- buffer and writes its own in its place, each of which is a step, with any steps of other threads
-- in between. A step says who has a request: the pool, a job, or a receive thread, which takes one
-- for the message buffer in it and keeps it.
pub mod Receive
pub mod Invariant
pub mod Exclusive
pub mod InFlight
pub mod Counting
use nct.Base.{
  ℕ, zero, suc, ◌+◌, ◌*◌, ◌/◌, ◌%◌, ◌^◌, ◌≡◌, ◌≢◌, Bool, true, false, Option, none, some, List, ltb,
  if◌then◌else◌, add64,
}
use nct.Req.State.{Req, Mnt, Stats, update, nct_req_max}
use nct.Req.Pool.{Alloc, allocated, nct_req_alloc, nct_req_free, nct_req_create}
use nct.Req.Send.{slot, enroll}
use nct.Req.Loop.{Thread, zero_stats, exchange}
use nct.Jobs.{put_message, started}

pub data Role : Type 0 where
  outside pooled working seated : Role

-- Where a receive thread is with a reply, and its locals `rm_xid`, `req` and `tmp` there: it has
-- none yet, it has read the slot, it has cleared it, or it has read the request's buffer.
pub data Place : Type 0 where
  reading : Place
  looked cleared : ℕ → ℕ → Place
  grabbed : ℕ → ℕ → Place

pub record Threads : Type 0 where
  pub mnt : Mnt
  pub role : ℕ → Role
  pub thread : ℕ → Option Thread
  pub place : ℕ → Place

-- The locals of nct_req_recv_loop before its first round; `t0` and `t1` are its readings of the
-- clock.
unfoldable pub thread_start : ℕ → ℕ → ℕ → ℕ → Mnt → Thread
thread_start tsc_freq t0 t1 r m = record {
  msg = (m.req_at r).req_msg;
  stats = zero_stats;
  tsc_stats = add64 (t0 % 777 * 1000 * 1000000 / tsc_freq) t1;
}

abbrev pub hand : ℕ → Role → Threads → Threads
hand r x s = record s { role = update s.role r x }

-- A request's slot is cleared when its reply is there.
abbrev pub clear_slot : ℕ → Mnt → Mnt
clear_slot i m = record m { mnt_req_tbl = update m.mnt_req_tbl i none }

abbrev pub InFlight : ℕ → Mnt → Type 0
InFlight r m = (i : ℕ) × (m.mnt_req_tbl i ≡ some r)

-- A receive thread has the request in `req`.
abbrev pub Has : ℕ → Place → Type 0
Has r reading = ⊥
Has r (looked _ q) = q ≡ r
Has r (cleared _ q) = q ≡ r
Has r (grabbed q _) = q ≡ r

abbrev pub Held : ℕ → Threads → Type 0
Held r s = (i : ℕ) × Has r (s.place i)

pub data Step (s : Threads) (u : Threads) : Type 0 where
  -- A receive thread starts.
  start :
      (i r tsc_freq t0 t1 : ℕ) (m : Mnt)
      → s.thread i ≡ none
      → nct_req_alloc s.mnt ≡ allocated r m
      → u ≡ record (hand r seated s) {
        mnt = m;
        thread = update s.thread i (some (thread_start tsc_freq t0 t1 r m));
      }
      → Step s u
  -- main() or nct_mount takes a request for a job.
  alloc :
      (r : ℕ) (m : Mnt)
      → nct_req_alloc s.mnt ≡ allocated r m
      → u ≡ record (hand r working s) { mnt = m }
      → Step s u
  -- A job writes its next message, and notes the time.
  encode :
      (r now : ℕ) (bytes : List ℕ)
      → s.role r ≡ working
      → u ≡ record s { mnt = put_message r bytes (started r now s.mnt) }
      → Step s u
  -- A job sends its request, which is not in flight, and no thread is at its reply.
  send :
      (r : ℕ)
      → s.role r ≡ working
      → ¬ InFlight r s.mnt
      → ¬ Held r s
      → u ≡ record s { mnt = enroll r s.mnt }
      → Step s u
  -- A receive thread with a reply reads the slot of its id.
  look :
      (i r xid : ℕ)
      → s.place i ≡ reading
      → s.mnt.mnt_req_tbl (slot xid) ≡ some r
      → u ≡ record s { place = update s.place i (looked xid r) }
      → Step s u
  -- It clears the slot.
  clear :
      (i r xid : ℕ)
      → s.place i ≡ looked xid r
      → u ≡ record s { mnt = clear_slot (slot xid) s.mnt; place = update s.place i (cleared xid r) }
      → Step s u
  -- The request's id is that of the reply, else the program aborts; the thread reads its buffer.
  grab :
      (i r xid : ℕ)
      → s.place i ≡ cleared xid r
      → (s.mnt.req_at r).req_xid ≡ xid
      → u ≡ record s { place = update s.place i (grabbed r (s.mnt.req_at r).req_msg) }
      → Step s u
  -- It gives its own buffer, with the reply, to the request, and keeps the one that it has read.
  put :
      (i r tmp tsc_stop len stat : ℕ) (body : List ℕ) (t : Thread)
      → s.thread i ≡ some t
      → s.place i ≡ grabbed r tmp
      → u ≡ record s {
        mnt = (exchange r tsc_stop len stat body t s.mnt).0;
        thread =
            update s.thread i
              (some (record (exchange r tsc_stop len stat body t s.mnt).1 { msg = tmp }));
        place = update s.place i reading;
      }
      → Step s u
  -- A job that is over returns its request.
  free :
      (r : ℕ)
      → s.role r ≡ working
      → ¬ InFlight r s.mnt
      → ¬ Held r s
      → u ≡ record (hand r pooled s) { mnt = (nct_req_free r s.mnt).0 }
      → Step s u

pub data Reach (s : Threads) : Threads → Type 0 where
  here : Reach s s
  next : {t u : Threads} → Reach s t → Step t u → Reach s u

-- A mount behind nct_req_create, before the first thread runs.
abbrev pub initial : Mnt → Threads
initial m = record {
  mnt = nct_req_create m;
  role = λ r. if ltb r nct_req_max then pooled else outside;
  thread = λ _. none;
  place = λ _. reading;
}
