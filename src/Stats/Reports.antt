-- ===== src/Stats/Reports.antt =====
-- The lines that the sampling loop prints account for all requests.
use nct.Base.{
  ℕ, ◌^◌, ◌≤◌, ◌<◌, ◌≡◌, ◌≢◌, refl, sym, ap, ◌∙◌, Bool, true, false, Option, none, some, List, [],
  ◌∷◌, ◌++◌, ltb, ◌==◌, All, arith, add64, sub64, if◌then◌else◌,
}
use nct.Req.State.{Stats}
use nct.Stats.Rules.{if_rule}
use nct.Stats.{
  Statsrec, Config, Row, Sampler, Interval, Sampled, samples_on, breaks, overruns, store_sample,
  print_row, busy_row, stalled_row, print_period, report, sample_round, sampled_then, sample_loop,
  start_sampling,
}

-- The requests that the lines report.
abbrev pub total_ops : List Row → ℕ
total_ops [] = 0
total_ops (r ∷ rs) = add64 r.ops (total_ops rs)

total_ops-small : (rs : List Row) → total_ops rs < 2 ^ 64
unfolding add64
total_ops-small [] = omega arith
total_ops-small (r ∷ rs) = omega arith

total_ops-snoc : (rs : List Row) (r : Row) → total_ops (rs ++ r ∷ []) ≡ add64 (total_ops rs) r.ops
unfolding add64
total_ops-snoc [] r = omega arith
total_ops-snoc (x ∷ rs) r = let ih = total_ops-snoc rs r in omega (arith, ih)

-- The lines so far account for what was counted at the last of them.
pub record Counts (t : Sampler) : Type 0 where
  pub reported : total_ops t.rows ≡ t.reqs_last
  pub behind : t.reqs_last ≤ t.stats.requests
  pub word : t.stats.requests < 2 ^ 64

-- The same for the way in which a round ends.
pub data Reported : Sampled → Type 0 where
  on : (t : Sampler) → Counts t → Reported (samples_on t)
  over : (t : Sampler) → total_ops t.rows ≡ t.stats.requests → Reported (breaks t)
  lost : Reported overruns

-- A line that reports the requests since the last line.
print_row-Reported :
    (row : Row) (now : ℕ) (s : Stats) (t : Sampler)
    → row.ops ≡ sub64 s.requests t.reqs_last
    → s.requests ≡ t.stats.requests
    → Counts t
    → Reported (print_row row now s t)
unfolding add64 sub64
print_row-Reported row now s t e same c = on _ (record {
  reported = total_ops-snoc t.rows row ∙ omega (arith, e, same, c.reported, c.behind, c.word);
  behind = omega (arith, same);
  word = c.word;
})

report-Reported :
    (c : Config) (v : Interval) (s : Stats) (t : Sampler)
    → c.mark ≢ 0
    → s.requests ≡ t.stats.requests
    → Counts t
    → Reported (report c v s t)
unfolding report
report-Reported c v s t m same k =
    if_rule Reported (c.mark == 0) (λ e. absurd (ground arith))
      (λ _.
        if_rule Reported (ltb (sub64 v.tsc_cur t.tsc_last) (print_period c)) (λ _. on t k)
          (λ _.
            if_rule Reported (ltb t.reqs_last s.requests)
              (λ _. print_row-Reported (busy_row c v.tsc_cur s t) v.tsc_cur s t refl same k)
              (λ none_new.
                if_rule Reported (ltb v.jobs 1)
                  (λ _. let b = k.behind in over t (k.reported ∙ ground arith))
                  (λ _.
                    print_row-Reported (stalled_row c v.tsc_cur s t) v.tsc_cur s t refl same k))))

store_sample-Reported :
    (c : Config) (cur : Option ℕ) (now : ℕ) (s : Stats) (t : Sampler) (k : Sampler → Sampled)
    → Counts t
    → ((u : Sampler) → Counts u → u.stats ≡ t.stats → Reported (k u))
    → Reported (store_sample c cur now s t k)
store_sample-Reported c none now s t k x f = f t x refl
store_sample-Reported c (some i) now s t k x f =
    if_rule Reported (ltb i c.statsc)
      (λ _. f _ (record { reported = x.reported; behind = x.behind; word = x.word }) refl)
      (λ _. lost)

-- The receive threads only count up, within a word.
abbrev pub CountsUp : Interval → Type 0
CountsUp v =
    (s : Stats)
    → s.requests < 2 ^ 64
    → (s.requests ≤ (v.flow s).requests) × ((v.flow s).requests < 2 ^ 64)

pub sample_round-Reported :
    (c : Config) (v : Interval) (t : Sampler)
    → c.mark ≢ 0
    → CountsUp v
    → Counts t
    → Reported (sample_round c v t)
unfolding sample_round
sample_round-Reported c v t m up k =
    let b = k.behind in
    let more = up t.stats k.word in
    store_sample-Reported c t.cur v.tsc_cur (v.flow t.stats) _ _
      (record { reported = k.reported; behind = omega arith; word = more.1 })
      (λ u x same. report-Reported c v (v.flow t.stats) u m (sym (ap (λ s. s.requests) same)) x)

sampled_then-Reported :
    (d : Sampled) (k : Sampler → Sampled)
    → Reported d
    → ((u : Sampler) → Counts u → Reported (k u))
    → Reported (sampled_then d k)
sampled_then-Reported _ k (on t x) f = f t x
sampled_then-Reported _ k (over t x) f = over t x
sampled_then-Reported _ k lost f = lost

pub sample_loop-Reported :
    (c : Config) (vs : List Interval) (t : Sampler)
    → c.mark ≢ 0
    → All CountsUp vs
    → Counts t
    → Reported (sample_loop c vs t)
unfolding sample_loop
sample_loop-Reported c [] t m up k = on t k
sample_loop-Reported c (v ∷ vs) t m up k =
    sampled_then-Reported (sample_round c v t) _ (sample_round-Reported c v t m up.0 k)
      (λ u x. sample_loop-Reported c vs u m up.1 x)

if-Counts : (b : Bool) (t u : Sampler) → Counts t → Counts u → Counts (if b then t else u)
if-Counts true t u x y = x
if-Counts false t u x y = y

pub start-Counts :
    (c : Config) (now : ℕ) (statsv : Option (ℕ → Statsrec)) (s : Stats)
    → s.requests < 2 ^ 64
    → Counts (start_sampling c now statsv s)
unfolding start_sampling
start-Counts c now none s w = record { reported = refl; behind = omega arith; word = w }
start-Counts c now (some statsv) s w =
    if-Counts (ltb 0 c.statsc) _ _ (record { reported = refl; behind = omega arith; word = w })
      (record { reported = refl; behind = omega arith; word = w })

pub at_end : (t : Sampler) → Reported (breaks t) → total_ops t.rows ≡ t.stats.requests
at_end t (over _ e) = e

pub Counts-of : (t : Sampler) → Reported (samples_on t) → Counts t
Counts-of t (on _ x) = x
