-- ===== src/Stats/Sampling.antt =====
-- What the sampling loop writes and prints.
use nct.Base.{
  ℕ, ◌+◌, ◌≤◌, ◌<◌, ◌≢◌, Option, none, some, List, [], ◌∷◌, ltb, leb, ◌==◌, Bool-cases, lt→ltb,
  subst, inl, inr, arith, sub64,
}
use nct.Req.State.{Stats}
use nct.Stats.Rules.{Room, if_rule}
use nct.Stats.{
  Statsrec, Config, Sampler, Interval, Sampled, samples_on, breaks, overruns, stats_end, next_cur,
  store_sample, report, print_period, sample_round, sampled_then, sample_loop, start_sampling,
}

abbrev pub InRoom : Config → Sampled → Type 0
InRoom c (samples_on t) = Room c t.cur
InRoom c (breaks t) = Unit {0}
InRoom c overruns = ⊥

report-InRoom :
    (c : Config) (v : Interval) (s : Stats) (t : Sampler) → Room c t.cur → InRoom c (report c v s t)
unfolding report
report-InRoom c v s t r =
    if_rule (InRoom c) (c.mark == 0) (λ _. if_rule (InRoom c) (ltb v.jobs 1) (λ _. tt) (λ _. r))
      (λ _.
        if_rule (InRoom c) (ltb (sub64 v.tsc_cur t.tsc_last) (print_period c)) (λ _. r)
          (λ _.
            if_rule (InRoom c) (ltb t.reqs_last s.requests) (λ _. r)
              (λ _. if_rule (InRoom c) (ltb v.jobs 1) (λ _. tt) (λ _. r))))

next_cur-Room : (c : Config) (i : ℕ) → stats_end c ≤ c.statsc → Room c (next_cur c i)
next_cur-Room c i h = elim (Bool-cases (leb (stats_end c) (i + 1))) [
  | inl out ↦ rw out tt
  | inr more ↦ rw more (ground arith, h)
]

store_sample-InRoom :
    (c : Config) (cur : Option ℕ) (now : ℕ) (s : Stats) (t : Sampler) (k : Sampler → Sampled)
    → Room c cur
    → Room c t.cur
    → ((u : Sampler) → Room c u.cur → InRoom c (k u))
    → InRoom c (store_sample c cur now s t k)
store_sample-InRoom c none now s t k r x f = f t x
store_sample-InRoom c (some i) now s t k r x f =
    rw (lt→ltb i c.statsc r.0) (f _ (next_cur-Room c i r.1))

pub sample_round-InRoom :
    (c : Config) (v : Interval) (t : Sampler) → Room c t.cur → InRoom c (sample_round c v t)
unfolding sample_round
sample_round-InRoom c v t r =
    store_sample-InRoom c t.cur v.tsc_cur (v.flow t.stats) _ _ r r
      (λ u x. report-InRoom c v (v.flow t.stats) u x)

sampled_then-InRoom :
    (c : Config) (d : Sampled) (k : Sampler → Sampled)
    → InRoom c d
    → ((u : Sampler) → Room c u.cur → InRoom c (k u))
    → InRoom c (sampled_then d k)
sampled_then-InRoom c (samples_on t) k r f = f t r
sampled_then-InRoom c (breaks t) k r f = tt
sampled_then-InRoom c overruns k r f = r

pub sample_loop-InRoom :
    (c : Config) (vs : List Interval) (t : Sampler) → Room c t.cur → InRoom c (sample_loop c vs t)
unfolding sample_loop
sample_loop-InRoom c [] t r = r
sample_loop-InRoom c (v ∷ vs) t r =
    sampled_then-InRoom c (sample_round c v t) _ (sample_round-InRoom c v t r)
      (λ u x. sample_loop-InRoom c vs u x)

not_overruns : (c : Config) (d : Sampled) → InRoom c d → d ≢ overruns
not_overruns c d r e = subst (InRoom c) e r

-- An array has room for two records and the samples of the test.
abbrev pub Allocated : Config → Option (ℕ → Statsrec) → Type 0
Allocated c none = Unit {0}
Allocated c (some statsv) = (1 < c.statsc) × (stats_end c ≤ c.statsc)

pub start-Room :
    (c : Config) (now : ℕ) (statsv : Option (ℕ → Statsrec)) (s : Stats)
    → Allocated c statsv
    → Room c (start_sampling c now statsv s).cur
unfolding start_sampling
start-Room c now none s h = tt
start-Room c now (some statsv) s h = rw (lt→ltb 0 c.statsc (omega arith)) h

-- No record is written behind the end of such an array.
pub sample_loop-in_bounds :
    (c : Config) (vs : List Interval) (now : ℕ) (statsv : Option (ℕ → Statsrec)) (s : Stats)
    → Allocated c statsv
    → sample_loop c vs (start_sampling c now statsv s) ≢ overruns
sample_loop-in_bounds c vs now statsv s room =
    not_overruns c _ (sample_loop-InRoom c vs _ (start-Room c now statsv s room))
