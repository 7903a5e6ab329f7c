-- ===== src/Stats/Rules.antt =====
-- Rules for a property of how a round of the sampling loop ends.
use nct.Base.{
  ℕ, ◌<◌, ◌≤◌, ◌≡◌, refl, Bool, true, false, Option, none, some, ltb, if◌then◌else◌, lt→ltb, ◌⊎◌,
  inl, inr,
}
use nct.Req.State.{Stats}
use nct.Stats.{Config, Sampler, Sampled, overruns, store_sample, stats_end}

-- The next record to write lies in the array, and all up to the last one do.
abbrev pub Room : Config → Option ℕ → Type 0
Room c none = Unit {0}
Room c (some i) = (i < c.statsc) × (stats_end c ≤ c.statsc)

module _ (P : Sampled → Type 0) where
  pub if_rule :
      (b : Bool) {d e : Sampled} → (b ≡ true → P d) → (b ≡ false → P e) → P (if b then d else e)
  if_rule true x y = x refl
  if_rule false x y = y refl

  pub store_sample_rule :
      (c : Config) (cur : Option ℕ) (now : ℕ) (s : Stats) (t : Sampler) (k : Sampler → Sampled)
      → P overruns ⊎ Room c cur
      → ((u : Sampler)
          → u.stats ≡ t.stats
          → u.tsc_last ≡ t.tsc_last
          → u.reqs_last ≡ t.reqs_last
          → P (k u))
      → P (store_sample c cur now s t k)
  store_sample_rule c none now s t k r f = f t refl refl refl
  store_sample_rule c (some i) now s t k (inl x) f =
      if_rule (ltb i c.statsc) (λ _. f _ refl refl refl) (λ _. x)
  store_sample_rule c (some i) now s t k (inr r) f = rw (lt→ltb i c.statsc r.0) (f _ refl refl refl)
