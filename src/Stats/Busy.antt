-- ===== src/Stats/Busy.antt =====
-- The sampling loop while a job is left.
use nct.Base.{◌<◌, ◌≢◌, List, [], ◌∷◌, ltb, ◌==◌, All, arith, sub64, subst, inl}
use nct.Stats.Rules.{if_rule, store_sample_rule}
use nct.Req.State.{Stats}
use nct.Stats.{
  Config, Sampler, Interval, Sampled, samples_on, breaks, overruns, print_period, report,
  sample_round, sampled_then, sample_loop,
}

-- The loop has not returned.
abbrev GoesOn : Sampled → Type 0
GoesOn (samples_on t) = Unit {0}
GoesOn (breaks t) = ⊥
GoesOn overruns = Unit {0}

report-GoesOn :
    (c : Config) (v : Interval) (s : Stats) (t : Sampler) → 0 < v.jobs → GoesOn (report c v s t)
unfolding report
report-GoesOn c v s t busy =
    if_rule GoesOn (c.mark == 0)
      (λ _. if_rule GoesOn (ltb v.jobs 1) (λ e. absurd (ground arith)) (λ _. tt))
      (λ _.
        if_rule GoesOn (ltb (sub64 v.tsc_cur t.tsc_last) (print_period c)) (λ _. tt)
          (λ _.
            if_rule GoesOn (ltb t.reqs_last s.requests) (λ _. tt)
              (λ _. if_rule GoesOn (ltb v.jobs 1) (λ e. absurd (ground arith)) (λ _. tt))))

sample_round-GoesOn :
    (c : Config) (v : Interval) (t : Sampler) → 0 < v.jobs → GoesOn (sample_round c v t)
unfolding sample_round
sample_round-GoesOn c v t busy =
    store_sample_rule GoesOn c t.cur v.tsc_cur _ _ _ (inl tt)
      (λ u _ _ _. report-GoesOn c v (v.flow t.stats) u busy)

sampled_then-GoesOn :
    (d : Sampled) (k : Sampler → Sampled)
    → GoesOn d
    → ((u : Sampler) → GoesOn (k u))
    → GoesOn (sampled_then d k)
sampled_then-GoesOn (samples_on t) k x f = f t
sampled_then-GoesOn (breaks t) k x f = x
sampled_then-GoesOn overruns k x f = tt

sample_loop-GoesOn :
    (c : Config) (vs : List Interval) (t : Sampler)
    → All (λ v. 0 < v.jobs) vs
    → GoesOn (sample_loop c vs t)
unfolding sample_loop
sample_loop-GoesOn c [] t busy = tt
sample_loop-GoesOn c (v ∷ vs) t busy =
    sampled_then-GoesOn (sample_round c v t) _ (sample_round-GoesOn c v t busy.0)
      (λ u. sample_loop-GoesOn c vs u busy.1)

-- As long as a job is left, the loop does not return.
pub sample_loop-busy :
    (c : Config) (vs : List Interval) (t u : Sampler)
    → All (λ v. 0 < v.jobs) vs
    → sample_loop c vs t ≢ breaks u
sample_loop-busy c vs t u busy e = subst GoesOn e (sample_loop-GoesOn c vs t busy)
