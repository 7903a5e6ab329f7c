-- ===== src/Main/Jobs.antt =====
-- The jobs that main() starts, and the sampling loop that waits for them.
use nct.Base.{
  ℕ, suc, ◌+◌, ◌*◌, ◌^◌, ◌≤◌, ◌<◌, ◌≡◌, ◌≢◌, refl, ◌∙◌, false, Option, none, some, List, [], ◌∷◌,
  All, length, arith, add64, lt→ltb,
}
use nct.Req.State.{Mnt, set_req, test_read_cb}
use nct.Req.Pool.{IsPool, nct_req_alloc, take_head, allocated}
use nct.Req.Loop.{returned}
use nct.Jobs.{read_start, armed, set_offset, einval}
use nct.Jobs.Returns.{IsPool-update}
use nct.Stats.{Config, Interval, Sampler, sample_loop, breaks}
use nct.Stats.Busy.{sample_loop-busy}
use nct.Main.{Job, jobs_started, start_jobs, start_test, read_test}

-- The receive threads leave the mount alone, as long as the table is this one.
abbrev pub LeavesAlone : (ℕ → Option ℕ) → Job → Type 0
LeavesAlone tbl j = (m : Mnt) → m.mnt_req_tbl ≡ tbl → j.others m ≡ m

-- The request of a job whose start_test gives up.
abbrev taken : ℕ → Mnt → Mnt
taken r m =
    set_req r (record (m.req_at r) { req_cb = none; req_done = false })
      (record m { mnt_jobs_cnt = m.mnt_jobs_cnt + 1; mnt_req_head = (m.req_at r).req_next })

abbrev given_up : ℕ → Job → ℕ → Mnt → Mnt
given_up tsc_freq j r m =
    set_offset (add64 m.priv.pr_offset m.priv.pr_length)
      (armed test_read_cb tsc_freq j.t0 r (taken r m))

alloc_taken :
    (m : Mnt) (r : ℕ)
    → m.mnt_req_head ≡ some r
    → nct_req_alloc (record m { mnt_jobs_cnt = m.mnt_jobs_cnt + 1 }) ≡ allocated r (taken r m)
unfolding nct_req_alloc take_head
alloc_taken m r e = rw (e, take_head) refl

taken-IsPool : (m : Mnt) (r : ℕ) (free : List ℕ) → IsPool m (r ∷ free) → IsPool (taken r m) free
taken-IsPool m r free p =
    IsPool-update r _ (record m { mnt_req_head = (m.req_at r).req_next }) (taken r m) free refl refl
      p.distinct.0 (record { linked = p.linked.1; distinct = p.distinct.1 })

given_up-IsPool :
    (f : ℕ) (j : Job) (m : Mnt) (r : ℕ) (free : List ℕ)
    → IsPool m (r ∷ free)
    → IsPool (given_up f j r m) free
given_up-IsPool f j m r free p =
    IsPool-update r _ (taken r m) (given_up f j r m) free refl refl p.distinct.0
      (taken-IsPool m r free p)

start_lost :
    (f : ℕ) (j : Job) (r : ℕ) (m : Mnt)
    → m.vn_size < add64 m.priv.pr_offset m.priv.pr_length
    → start_test read_test f j r (taken r m) ≡ returned einval (given_up f j r m)
unfolding start_test read_start
start_lost f j r m h = rw (lt→ltb _ _ h)

-- Where the block of each job lies past the end of the file, no job sends anything.
record IsLost (n : ℕ) (m m' : Mnt) : Type 0 where
  jobs : m'.mnt_jobs_cnt ≡ m.mnt_jobs_cnt + n
  table : m'.mnt_req_tbl ≡ m.mnt_req_tbl
  sends : m'.mnt_send_xid ≡ m.mnt_send_xid

one-IsLost : (f : ℕ) (j : Job) (r : ℕ) (m : Mnt) → IsLost 1 m (given_up f j r m)
one-IsLost f j r m = record { jobs = refl; table = refl; sends = refl }

more-IsLost : (n : ℕ) {m m' m'' : Mnt} → IsLost 1 m m' → IsLost n m' m'' → IsLost (suc n) m m''
more-IsLost n a b = record {
  jobs = omega (arith, a.jobs, b.jobs);
  table = b.table ∙ a.table;
  sends = b.sends ∙ a.sends;
}

past_end : (off len n size : ℕ) → size < len → off + suc n * len < 2 ^ 64 → size < add64 off len
unfolding add64
past_end off len n size h k = let e : suc n * len ≡ n * len + len = grind arith in omega (arith, e)

next_off : (off len n : ℕ) → off + suc n * len < 2 ^ 64 → add64 off len + n * len < 2 ^ 64
unfolding add64
next_off off len n k = let e : suc n * len ≡ n * len + len = grind arith in omega (arith, e)

start_jobs-IsLost :
    (f : ℕ) (js : List Job) (free : List ℕ) (m : Mnt)
    → IsPool m free
    → length js ≤ length free
    → m.vn_size < m.priv.pr_length
    → m.priv.pr_offset + length js * m.priv.pr_length < 2 ^ 64
    → All (LeavesAlone m.mnt_req_tbl) js
    → (m' : Mnt) × (start_jobs read_test f js m ≡ jobs_started m') × IsLost (length js) m m'
unfolding start_jobs
start_jobs-IsLost f [] free m p few short fits alone =
    (m, refl, record { jobs = omega arith; table = refl; sends = refl })
start_jobs-IsLost f (j ∷ js) [] m p few short fits alone = absurd (omega arith)
start_jobs-IsLost f (j ∷ js) (r ∷ free) m p few short fits alone =
    let past = past_end m.priv.pr_offset m.priv.pr_length (length js) m.vn_size short fits in
    let next = next_off m.priv.pr_offset m.priv.pr_length (length js) fits in
    let m1 = given_up f j r m in
    let (m', e, l) =
      start_jobs-IsLost f js free m1 (given_up-IsPool f j m r free p) (omega arith) short next
        alone.1 in
    (
      m',
      rw (alloc_taken m r p.linked.0) (rw (start_lost f j r m past) (rw (alone.0 m1 refl) e)),
      more-IsLost (length js) (one-IsLost f j r m) l,
    )

busy_rounds :
    (n : ℕ) (vs : List Interval) → 0 < n → All (λ v. v.jobs ≡ n) vs → All (λ v. 0 < v.jobs) vs
busy_rounds n [] h a = tt
busy_rounds n (v ∷ vs) h a = (let e = a.0 in omega arith, busy_rounds n vs h a.1)

-- The read test on a file that is shorter than a block: every job takes a request and is counted, no
-- job sends anything, since the start_test functions return EINVAL, which main() does not look at, and the
-- sampling loop does not return while the mount's count of jobs stays what main() has has_dir it. The
-- receive threads leave the mount alone while no request is sent, the pool has a request for each
-- job, and the offsets do not wrap around.
pub start_jobs-endless :
    (f : ℕ) (js : List Job) (free : List ℕ) (m : Mnt) (c : Config) (vs : List Interval)
    (t u : Sampler)
    → IsPool m free
    → 0 < length js
    → length js ≤ length free
    → m.vn_size < m.priv.pr_length
    → m.priv.pr_offset + length js * m.priv.pr_length < 2 ^ 64
    → All (LeavesAlone m.mnt_req_tbl) js
    → All (λ v. v.jobs ≡ m.mnt_jobs_cnt + length js) vs
    → (m' : Mnt) × (start_jobs read_test f js m ≡ jobs_started m')
      × (m'.mnt_jobs_cnt ≡ m.mnt_jobs_cnt + length js)
      × (m'.mnt_req_tbl ≡ m.mnt_req_tbl)
      × (m'.mnt_send_xid ≡ m.mnt_send_xid)
      × (sample_loop c vs t ≢ breaks u)
start_jobs-endless f js free m c vs t u p some_job few short fits alone counts =
    let (m', e, l) = start_jobs-IsLost f js free m p few short fits alone in
    let busy = busy_rounds (m.mnt_jobs_cnt + length js) vs (omega arith) counts in
    (m', e, l.jobs, l.table, l.sends, sample_loop-busy c vs t u busy)
