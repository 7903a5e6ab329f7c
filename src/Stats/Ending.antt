-- ===== src/Stats/Ending.antt =====
-- The end of the sampling loop: it returns once no job is left, with all requests in its lines.
use nct.Base.{
  ℕ, ◌^◌, ◌≤◌, ◌<◌, ◌≡◌, ◌≢◌, refl, sym, ap, Bool, true, false, Option, none, some, List, [], ◌∷◌,
  ◌++◌, ltb, ◌==◌, All, arith, sub64, subst, if◌then◌else◌, inl, inr,
}
use nct.Stats.Rules.{Room, if_rule, store_sample_rule}
use nct.Req.State.{Stats}
use nct.Stats.{
  Statsrec, Config, Sampler, Interval, Sampled, samples_on, breaks, overruns, print_period, report,
  sample_round, sampled_then, sample_loop, start_sampling,
}
use nct.Stats.Sampling.{InRoom, Allocated, sample_round-InRoom, sample_loop-InRoom, start-Room}
use nct.Stats.Reports.{
  total_ops, Reported, at_end, Counts-of, CountsUp, sample_round-Reported, sample_loop-Reported,
  start-Counts,
}

-- A full period of printing lies between the last line and the time of a round.
abbrev pub Since : Config → ℕ → ℕ → Type 0
Since c now last = print_period c ≤ sub64 now last

abbrev SinceOn : Config → ℕ → Sampled → Type 0
SinceOn c now (samples_on t) = Since c now t.tsc_last
SinceOn c now (breaks t) = Unit {0}
SinceOn c now overruns = Unit {0}

-- The time of the last line stays, or is that of the round.
report-Since :
    (c : Config) (u : Interval) (s : Stats) (t : Sampler) (now : ℕ)
    → Since c now t.tsc_last
    → Since c now u.tsc_cur
    → SinceOn c now (report c u s t)
unfolding report
report-Since c u s t now old new =
    if_rule (SinceOn c now) (c.mark == 0)
      (λ _. if_rule (SinceOn c now) (ltb u.jobs 1) (λ _. tt) (λ _. old))
      (λ _.
        if_rule (SinceOn c now) (ltb (sub64 u.tsc_cur t.tsc_last) (print_period c)) (λ _. old)
          (λ _.
            if_rule (SinceOn c now) (ltb t.reqs_last s.requests) (λ _. new)
              (λ _. if_rule (SinceOn c now) (ltb u.jobs 1) (λ _. tt) (λ _. new))))

sample_round-Since :
    (c : Config) (u : Interval) (t : Sampler) (now : ℕ)
    → Since c now t.tsc_last
    → Since c now u.tsc_cur
    → SinceOn c now (sample_round c u t)
unfolding sample_round
sample_round-Since c u t now old new =
    store_sample_rule (SinceOn c now) c t.cur u.tsc_cur _ _ _ (inl tt)
      (λ w _ last _. report-Since c u _ w now (subst (Since c now) (sym last) old) new)

sampled_then-Since :
    (c : Config) (now : ℕ) (d : Sampled) (k : Sampler → Sampled)
    → SinceOn c now d
    → ((u : Sampler) → Since c now u.tsc_last → SinceOn c now (k u))
    → SinceOn c now (sampled_then d k)
sampled_then-Since c now (samples_on t) k x f = f t x
sampled_then-Since c now (breaks t) k x f = tt
sampled_then-Since c now overruns k x f = tt

sample_loop-Since :
    (c : Config) (vs : List Interval) (t : Sampler) (now : ℕ)
    → Since c now t.tsc_last
    → All (λ u. Since c now u.tsc_cur) vs
    → SinceOn c now (sample_loop c vs t)
unfolding sample_loop
sample_loop-Since c [] t now old all = old
sample_loop-Since c (v ∷ vs) t now old all =
    sampled_then-Since c now (sample_round c v t) _ (sample_round-Since c v t now old all.0)
      (λ u x. sample_loop-Since c vs u now x all.1)

if-Since :
    (c : Config) (later : ℕ) (b : Bool) (t u : Sampler)
    → Since c later t.tsc_last
    → Since c later u.tsc_last
    → Since c later (if b then t else u).tsc_last
if-Since c later true t u x y = x
if-Since c later false t u x y = y

start-Since :
    (c : Config) (now : ℕ) (statsv : Option (ℕ → Statsrec)) (s : Stats) (later : ℕ)
    → Since c later now
    → Since c later (start_sampling c now statsv s).tsc_last
unfolding start_sampling
start-Since c now none s later h = h
start-Since c now (some statsv) s later h = if-Since c later (ltb 0 c.statsc) _ _ h h

-- What a round leaves whose time is past the period: it prints, or the loop is over.
abbrev Printed : ℕ → Sampled → Type 0
Printed now (samples_on u) = (u.tsc_last ≡ now) × (u.reqs_last ≡ u.stats.requests)
Printed now (breaks u) = Unit {0}
Printed now overruns = Unit {0}

report-Printed :
    (c : Config) (v : Interval) (s : Stats) (t : Sampler)
    → c.mark ≢ 0
    → s.requests ≡ t.stats.requests
    → Since c v.tsc_cur t.tsc_last
    → Printed v.tsc_cur (report c v s t)
unfolding report
report-Printed c v s t m same past =
    if_rule (Printed v.tsc_cur) (c.mark == 0) (λ e. absurd (ground arith))
      (λ _.
        if_rule (Printed v.tsc_cur) (ltb (sub64 v.tsc_cur t.tsc_last) (print_period c))
          (λ e. absurd (ground arith))
          (λ _.
            if_rule (Printed v.tsc_cur) (ltb t.reqs_last s.requests) (λ _. (refl, same))
              (λ _. if_rule (Printed v.tsc_cur) (ltb v.jobs 1) (λ _. tt) (λ _. (refl, same)))))

sample_round-Printed :
    (c : Config) (v : Interval) (t : Sampler)
    → c.mark ≢ 0
    → Since c v.tsc_cur t.tsc_last
    → Printed v.tsc_cur (sample_round c v t)
unfolding sample_round
sample_round-Printed c v t m past =
    store_sample_rule (Printed v.tsc_cur) c t.cur v.tsc_cur _ _ _ (inl tt) (λ u same last _.
      report-Printed c v _ u m (sym (ap (λ s. s.requests) same))
        (subst (Since c v.tsc_cur) (sym last) past))

-- The loop is over.
abbrev Over : Sampled → Type 0
Over (samples_on u) = ⊥
Over (breaks u) = Unit {0}
Over overruns = ⊥

report-Over :
    (c : Config) (v : Interval) (s : Stats) (t : Sampler)
    → c.mark ≢ 0
    → v.jobs ≡ 0
    → s.requests ≤ t.reqs_last
    → Since c v.tsc_cur t.tsc_last
    → Over (report c v s t)
unfolding report
report-Over c v s t m idle old past =
    if_rule Over (c.mark == 0) (λ e. absurd (ground arith))
      (λ _.
        if_rule Over (ltb (sub64 v.tsc_cur t.tsc_last) (print_period c))
          (λ e. absurd (ground arith))
          (λ _.
            if_rule Over (ltb t.reqs_last s.requests) (λ e. absurd (ground arith))
              (λ _. if_rule Over (ltb v.jobs 1) (λ _. tt) (λ e. absurd (ground arith)))))

sample_round-Over :
    (c : Config) (v : Interval) (t : Sampler)
    → c.mark ≢ 0
    → v.jobs ≡ 0
    → Room c t.cur
    → (v.flow t.stats).requests ≤ t.reqs_last
    → Since c v.tsc_cur t.tsc_last
    → Over (sample_round c v t)
unfolding sample_round
sample_round-Over c v t m idle room old past =
    store_sample_rule Over c t.cur v.tsc_cur _ _ _ (inr room) (λ u _ last reqs.
      report-Over c v (v.flow t.stats) u m idle (omega (arith, reqs, old))
        (subst (Since c v.tsc_cur) (sym last) past))

-- The loop has returned, and its lines account for all requests.
abbrev Done : Sampled → Type 0
Done (samples_on u) = ⊥
Done (breaks u) = total_ops u.rows ≡ u.stats.requests
Done overruns = ⊥

Over-Done : (d : Sampled) (k : Sampler → Sampled) → Over d → Reported d → Done (sampled_then d k)
Over-Done (samples_on u) k o r = absurd o
Over-Done (breaks u) k o r = at_end u r
Over-Done overruns k o r = absurd o

Done-breaks :
    (d : Sampled) → Done d → (t : Sampler) × (d ≡ breaks t) × (total_ops t.rows ≡ t.stats.requests)
Done-breaks (samples_on u) h = absurd h
Done-breaks (breaks u) h = (u, refl, h)
Done-breaks overruns h = absurd h

-- No request is completed.
abbrev pub IsQuiet : Interval → Type 0
IsQuiet w = (s : Stats) → (w.flow s).requests ≡ s.requests

quiet_counts : (w : Interval) → IsQuiet w → CountsUp w
quiet_counts w q s h = let e = q s in (omega arith, omega arith)

sample_loop-append :
    (c : Config) (vs ws : List Interval) (t : Sampler)
    → sample_loop c (vs ++ ws) t ≡ sampled_then (sample_loop c vs t) (sample_loop c ws)
unfolding sample_loop
sample_loop-append c [] ws t = refl
sample_loop-append c (v ∷ vs) ws t = go (sample_round c v t) (λ u. sample_loop-append c vs ws u)
  where
    go :
        (d : Sampled)
        → ((u : Sampler)
            → sample_loop c (vs ++ ws) u ≡ sampled_then (sample_loop c vs u) (sample_loop c ws))
        → sampled_then d (sample_loop c (vs ++ ws))
          ≡ sampled_then (sampled_then d (sample_loop c vs)) (sample_loop c ws)
    go (samples_on u) ih = ih u
    go (breaks u) ih = refl
    go overruns ih = refl

-- Two rounds without jobs, the second of them quiet, each a period behind the last line.
module _ (c : Config) (v w : Interval) (m : c.mark ≢ 0) (idle : w.jobs ≡ 0) (quiet : IsQuiet w)
    (after : Since c w.tsc_cur v.tsc_cur) where
  second_round :
      (d : Sampled)
      → Reported d
      → InRoom c d
      → Printed v.tsc_cur d
      → Done (sampled_then d (sample_loop c (w ∷ [])))
  unfolding sample_loop
  second_round (samples_on u) r room p =
      let k = Counts-of u r in
      let same = quiet u.stats in
      Over-Done (sample_round c w u) _
        (sample_round-Over c w u m idle room (omega (arith, same, p.1))
          (subst (Since c w.tsc_cur) (sym p.0) after))
        (sample_round-Reported c w u m (quiet_counts w quiet) k)
  second_round (breaks u) r room p = at_end u r
  second_round overruns r room p = absurd room

  last_rounds :
      (d : Sampled)
      → CountsUp v
      → Reported d
      → InRoom c d
      → SinceOn c v.tsc_cur d
      → Done (sampled_then d (sample_loop c (v ∷ w ∷ [])))
  unfolding sample_loop
  last_rounds (samples_on u) up r room s =
      second_round (sample_round c v u) (sample_round-Reported c v u m up (Counts-of u r))
        (sample_round-InRoom c v u room) (sample_round-Printed c v u m s)
  last_rounds (breaks u) up r room s = at_end u r
  last_rounds overruns up r room s = absurd room

-- The sampling loop with a `mark` other than 0 returns: at the latest in the second of two rounds
-- that find no job and no further request, each at least a period of printing behind all rounds before it. The
-- operations in the lines that it has printed then add up to the requests that the mount has
-- counted. The receive threads only count up, no counter wraps around, and an array has room for the
-- samples of the test.
pub sample_loop-ends :
    (c : Config) (vs : List Interval) (v w : Interval) (now : ℕ) (statsv : Option (ℕ → Statsrec))
    (s : Stats)
    → c.mark ≢ 0
    → Allocated c statsv
    → s.requests < 2 ^ 64
    → All CountsUp vs
    → CountsUp v
    → w.jobs ≡ 0
    → IsQuiet w
    → Since c v.tsc_cur now
    → All (λ u. Since c v.tsc_cur u.tsc_cur) vs
    → Since c w.tsc_cur v.tsc_cur
    → (t : Sampler) × (sample_loop c (vs ++ v ∷ w ∷ []) (start_sampling c now statsv s) ≡ breaks t)
      × (total_ops t.rows ≡ t.stats.requests)
sample_loop-ends c vs v w now statsv s m array small ups up idle quiet first past after =
    let t0 = start_sampling c now statsv s in
    Done-breaks _ (
      subst Done (sym (sample_loop-append c vs (v ∷ w ∷ []) t0)) (
        last_rounds c v w m idle quiet after (sample_loop c vs t0) up
          (sample_loop-Reported c vs t0 m ups (start-Counts c now statsv s small))
          (sample_loop-InRoom c vs t0 (start-Room c now statsv s array))
          (sample_loop-Since c vs t0 v.tsc_cur (start-Since c now statsv s v.tsc_cur first) past)))
