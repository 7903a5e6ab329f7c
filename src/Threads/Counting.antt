-- ===== src/Threads/Counting.antt =====
-- `mnt_jobs_cnt`: main() counts each job before it starts it, and a receive thread counts a job out
-- behind its callback. The thread that counts the last one out shuts the connection down for sending.
use nct.Base.{
  ℕ, ◌+◌, ◌-◌, ◌%◌, ◌^◌, ◌<◌, ◌≤◌, ◌≡◌, ◌≢◌, refl, ap, ◌∙◌, subst, Option, none, some, arith, ◌==◌,
  if◌then◌else◌, Bool-cases, inl, inr, eq→==, ne→==, ==→eq, ==→ne,
}
use nct.Req.State.{Mnt}
use nct.Req.Pool.{allocated, take_head, nct_req_alloc, nct_req_free}
use nct.Req.Send.{enroll}
use nct.Req.Loop.{job_ends, exchange}
use nct.Threads.{Threads, Step, start, alloc, encode, send, look, clear, grab, put, free}

-- The threads, the jobs that were counted and that were counted out, and how often the connection
-- was shut down.
pub record Counting : Type 0 where
  pub threads : Threads
  pub begun : ℕ
  pub retired : ℕ
  pub downs : ℕ

abbrev pub with_mnt : Mnt → Counting → Counting
with_mnt m s = record s { threads = record s.threads { mnt = m } }

-- `__atomic_add_fetch(&mnt->mnt_jobs_cnt, 1)` on a u_int.
abbrev pub job_begins : Mnt → Mnt
job_begins m = record m { mnt_jobs_cnt = (m.mnt_jobs_cnt + 1) % 2 ^ 32 }

-- A receive thread counts a job out, and shuts the connection down if that was the last one.
abbrev pub counted_out : Counting → Counting
counted_out s = record (with_mnt (job_ends s.threads.mnt) s) {
  retired = s.retired + 1;
  downs = if (job_ends s.threads.mnt).mnt_jobs_cnt == 0 then s.downs + 1 else s.downs;
}

abbrev pub counted_in : Counting → Counting
counted_in s = record (with_mnt (job_begins s.threads.mnt) s) { begun = s.begun + 1 }

pub data JobStep (s : Counting) (u : Counting) : Type 0 where
  -- A step of the threads.
  works : (t : Threads) → Step s.threads t → u ≡ record s { threads = t } → JobStep s u
  -- main() counts a job.
  begins : u ≡ counted_in s → JobStep s u
  -- A receive thread counts a job out whose callback has returned other than 0.
  retires : s.retired < s.begun → u ≡ counted_out s → JobStep s u

pub data JobReach (s : Counting) : Counting → Type 0 where
  at_first : JobReach s s
  further : {t u : Counting} → JobReach s t → JobStep t u → JobReach s u

take_head-jobs_cnt :
    (h : Option ℕ) (m : Mnt) (r : ℕ) (m' : Mnt)
    → take_head h m ≡ allocated r m'
    → m'.mnt_jobs_cnt ≡ m.mnt_jobs_cnt
unfolding take_head
take_head-jobs_cnt none m r m' e = let clash : ⊥ = cc in absurd clash
take_head-jobs_cnt (some x) m r m' e = ground arith

-- No other step touches the count.
Step-jobs_cnt : {s u : Threads} → Step s u → u.mnt.mnt_jobs_cnt ≡ s.mnt.mnt_jobs_cnt
unfolding nct_req_alloc nct_req_free enroll exchange
Step-jobs_cnt {s} (start i r f t0 t1 m none_yet got e) =
    ap (λ w. w.mnt.mnt_jobs_cnt) e ∙ take_head-jobs_cnt s.mnt.mnt_req_head s.mnt r m got
Step-jobs_cnt {s} (alloc r m got e) =
    ap (λ w. w.mnt.mnt_jobs_cnt) e ∙ take_head-jobs_cnt s.mnt.mnt_req_head s.mnt r m got
Step-jobs_cnt (encode r now bytes w e) = ap (λ w. w.mnt.mnt_jobs_cnt) e
Step-jobs_cnt (send r w idle alone e) = ap (λ w. w.mnt.mnt_jobs_cnt) e
Step-jobs_cnt (look i r xid spot hit e) = ap (λ w. w.mnt.mnt_jobs_cnt) e
Step-jobs_cnt (clear i r xid spot e) = ap (λ w. w.mnt.mnt_jobs_cnt) e
Step-jobs_cnt (grab i r xid spot mine e) = ap (λ w. w.mnt.mnt_jobs_cnt) e
Step-jobs_cnt (put i r tmp stop len stat body t h spot e) = ap (λ w. w.mnt.mnt_jobs_cnt) e
Step-jobs_cnt (free r w idle alone e) = ap (λ w. w.mnt.mnt_jobs_cnt) e

-- The count is that of the jobs that were not counted out.
pub record IsCount (s : Counting) : Type 0 where
  pub fewer : s.retired ≤ s.begun
  pub count : s.threads.mnt.mnt_jobs_cnt ≡ s.begun - s.retired

JobStep-IsCount : {s u : Counting} → JobStep s u → u.begun < 2 ^ 32 → IsCount s → IsCount u
JobStep-IsCount {s} {u} (works t st e) h c =
    rw e (record { fewer = c.fewer; count = Step-jobs_cnt st ∙ c.count })
JobStep-IsCount {s} {u} (begins e) h c =
    let few = c.fewer in
    let n = c.count in
    let h' = subst (λ w. w.begun < 2 ^ 32) e h in
    rw e (record { fewer = omega arith; count = omega arith })
JobStep-IsCount {s} {u} (retires live e) h c =
    let few = c.fewer in
    let n = c.count in
    let h' = subst (λ w. w.begun < 2 ^ 32) e h in
    rw e (record { fewer = omega arith; count = omega arith })

-- Every job that is counted out is so when `n` jobs were counted.
abbrev pub CountedFirst : {s u : Counting} → ℕ → JobReach s u → Type 0
CountedFirst n at_first = Unit {0}
CountedFirst n (further {t} p (works _ _ _)) = CountedFirst n p
CountedFirst n (further {t} p (begins _)) = CountedFirst n p
CountedFirst n (further {t} p (retires _ _)) = CountedFirst n p × (t.begun ≡ n)

-- The connection is up until the last of `n` jobs was counted out, and shut down once.
pub record IsUp (n : ℕ) (s : Counting) : Type 0 where
  pub count : IsCount s
  pub shut : s.downs ≡ (if s.retired == n then 1 else 0)

begun_grows : {s u : Counting} → JobStep s u → s.begun ≤ u.begun
begun_grows {s} (works t st e) = let b = ap (λ w. w.begun) e in omega arith
begun_grows {s} (begins e) = let b = ap (λ w. w.begun) e in omega arith
begun_grows {s} (retires live e) = let b = ap (λ w. w.begun) e in omega arith

-- What the count comes to behind the last job but `k`.
retires-shut :
    (s : Counting) (n : ℕ)
    → IsUp n s
    → s.retired < s.begun
    → s.begun ≡ n
    → n < 2 ^ 32
    → (if (job_ends s.threads.mnt).mnt_jobs_cnt == 0 then s.downs + 1 else s.downs)
      ≡ (if s.retired + 1 == n then 1 else 0)
retires-shut s n v live all small =
    let c = v.count.count in
    let up : s.downs ≡ 0 = let sh = v.shut in ground arith in
    let left : (job_ends s.threads.mnt).mnt_jobs_cnt ≡ n - (s.retired + 1) = omega arith in
    elim (Bool-cases (s.retired + 1 == n)) [
      | inl last ↦
          let e = ==→eq (s.retired + 1) n last in
          let none_left : (job_ends s.threads.mnt).mnt_jobs_cnt ≡ 0 = omega arith in
          rw (last, eq→== (job_ends s.threads.mnt).mnt_jobs_cnt 0 none_left) (omega arith)
      | inr more ↦
          let ne = ==→ne (s.retired + 1) n more in
          let some_left : (job_ends s.threads.mnt).mnt_jobs_cnt ≢ 0 =
            λ z. absurd (ne (omega arith)) in
          rw (more, ne→== (job_ends s.threads.mnt).mnt_jobs_cnt 0 some_left) up
    ]

-- However the threads' steps follow each other: where all of `n` jobs are counted before one is
-- counted out, the connection is shut down for sending once, by the thread that counts out the last
-- of them, and not before.
pub JobReach-IsUp :
    (n : ℕ) {s u : Counting} (p : JobReach s u)
    → CountedFirst n p
    → u.begun ≤ n
    → n < 2 ^ 32
    → IsUp n s
    → IsUp n u
JobReach-IsUp n at_first a b small v = v
JobReach-IsUp n {s} {u} (further {t} p (works w st e)) a b small v =
    let g = begun_grows (works w st e) in
    let i = JobReach-IsUp n p a (omega arith) small v in
    record { count = JobStep-IsCount (works w st e) (omega arith) i.count; shut = rw e i.shut }
JobReach-IsUp n {s} {u} (further {t} p (begins e)) a b small v =
    let g = begun_grows (begins e) in
    let i = JobReach-IsUp n p a (omega arith) small v in
    record { count = JobStep-IsCount (begins e) (omega arith) i.count; shut = rw e i.shut }
JobReach-IsUp n {s} {u} (further {t} p (retires live e)) a b small v =
    let g = begun_grows (retires live e) in
    let i = JobReach-IsUp n p a.0 (omega arith) small v in
    record {
      count = JobStep-IsCount (retires live e) (omega arith) i.count;
      shut = rw e (retires-shut t n i live a.1 small);
    }

-- If the jobs that main() has counted so far are counted out before it counts the next one, the
-- connection is shut down for sending, and that job is still to send its first request.
pub counted_out-counted_in :
    (s : Counting)
    → IsCount s
    → s.begun ≡ s.retired + 1
    → ((counted_in (counted_out s)).downs ≡ s.downs + 1)
      × ((counted_in (counted_out s)).threads.mnt.mnt_jobs_cnt ≡ 1)
counted_out-counted_in s c last =
    let n = c.count in
    let none_left : (job_ends s.threads.mnt).mnt_jobs_cnt ≡ 0 = omega arith in
    (rw (eq→== (job_ends s.threads.mnt).mnt_jobs_cnt 0 none_left) refl, omega arith)
