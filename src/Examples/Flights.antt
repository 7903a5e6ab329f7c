-- ===== src/Examples/Flights.antt =====
-- The theorems of Threads/InFlight and Threads/Counting at concrete inputs.
use nct.Base.{ℕ, zero, suc, subst, ◌≤◌, ◌≡◌, refl, none, some, [], ◌∷◌, arith}
use nct.Req.Send.{slot, enroll}
use nct.Req.Loop.{round_aborts, on_reply}
use nct.Threads.{working, reading, Threads, send, Reach, here, next, InFlight, Has, Held}
use nct.Threads.InFlight.{Unanswered, Away, sends, reply_to}
use nct.Threads.InFlight.Lost.{on_reply-lost}
use nct.Threads.Counting.{
  Counting, JobReach, at_first, further, begins, retires, counted_in, counted_out, IsUp,
  JobReach-IsUp,
}
use nct.Examples.Requests.{small, lib, no_callback, thread}

-- A mount on which every request belongs to a job, and none is in flight.
abbrev busy : Threads
busy = record { mnt = small; role = λ _. working; thread = λ _. none; place = λ _. reading }

abbrev begun : Threads
begun = record busy { mnt = enroll 0 busy.mnt }

-- Requests 1, 2 and so on are sent behind request 0.
record Burst (k : ℕ) : Type 0 where
  end : Threads
  path : Reach begun end
  quiet : Unanswered (slot 4294967290) path
  many : sends path ≡ k
  few : (i r : ℕ) → end.mnt.mnt_req_tbl i ≡ some r → r ≤ k
  jobs : (r : ℕ) → end.role r ≡ working
  still : (i : ℕ) → end.place i ≡ reading

burst : (k : ℕ) → Burst k
unfolding enroll
burst zero = record {
  end = begun;
  path = here;
  quiet = tt;
  many = refl;
  few = λ i r e. ground arith;
  jobs = λ r. refl;
  still = λ i. refl;
}
burst (suc k) =
    let b = burst k in
    let idle : ¬ InFlight (suc k) b.end.mnt =
      λ f. let low = b.few f.0 (suc k) f.1 in absurd (omega arith) in
    let alone : ¬ Held (suc k) b.end = λ h. absurd (subst (Has (suc k)) (b.still h.0) h.1) in
    let sent : Threads = record b.end { mnt = enroll (suc k) b.end.mnt } in
    record {
      end = sent;
      path = next b.path (send (suc k) (b.jobs (suc k)) idle alone refl);
      quiet = (b.quiet, tt);
      many = let old = b.many in omega arith;
      few = λ i r e. let old = b.few i r in ground arith;
      jobs = b.jobs;
      still = b.still;
    }

none_yet : (r : ℕ) → ¬ InFlight r busy.mnt
none_yet r f = let clash : none ≡ some r = f.1 in let never : ⊥ = cc in absurd never

none_there : Away (slot 4294967290) busy
none_there j x r e = let never : ⊥ = cc in absurd never

-- It comes behind 1,024 further requests.
on_reply-lost_example :
    on_reply lib no_callback 1000000
      (0, some (reply_to 4294967290 0 (9 ∷ [])))
      50
      28
      (enroll 1024 (burst 1023).end.mnt)
      thread
    ≡ round_aborts
on_reply-lost_example =
    on_reply-lost lib no_callback 1000000 0 busy (burst 1023).end 0 0 50 28 (9 ∷ []) thread
      (burst 1023).path 1024 (none_yet 0) none_there (omega arith) (burst 1023).quiet
      (burst 1023).many (omega arith)

-- Two jobs are counted, and counted out.
abbrev jobs_at_first : Counting
jobs_at_first = record { threads = busy; begun = 0; retired = 0; downs = 0 }

abbrev one_in : Counting
one_in = counted_in jobs_at_first

abbrev two_in : Counting
two_in = counted_in one_in

abbrev one_out : Counting
one_out = counted_out two_in

two_jobs : JobReach jobs_at_first (counted_out one_out)
two_jobs =
    further
      (further (further (further at_first (begins refl)) (begins refl))
        (retires (omega arith) refl))
      (retires (omega arith) refl)

JobReach-IsUp_example : IsUp 2 (counted_out one_out)
unfolding two_jobs
JobReach-IsUp_example =
    JobReach-IsUp 2 two_jobs ((tt, refl), refl) (omega arith) (omega arith)
      (record { count = omega arith; shut = refl })
