-- ===== src/Clp/OptString/Flags.antt =====
-- The `flag` members of the long options.
use nct.Base.{
  ℕ, ◌+◌, ◌≡◌, refl, not, Bool-cases, inl, inr, Option, none, some, List, [], ◌∷◌, ◌++◌, length,
  arith, subst,
}
use nct.Clp.Chars.{strchr}
use nct.Clp.Options.{ClpOption}
use nct.Clp.OptString.{
  LongOpt, clp_optopt_valid, flag_at, long_of, letters, optstring_loop, optstring,
}

-- The long options from index `i` on have the flags that the memory has there.
abbrev pub FlagsFrom : (ℕ → Option ℕ) → ℕ → List LongOpt → Type 0
FlagsFrom heap i [] = Unit {0}
FlagsFrom heap i (l ∷ ls) = (l.long_flag ≡ flag_at heap i) × FlagsFrom heap (i + 1) ls

FlagsFrom-append :
    (heap : ℕ → Option ℕ) (i : ℕ) (ls ms : List LongOpt)
    → FlagsFrom heap i ls
    → FlagsFrom heap (i + length ls) ms
    → FlagsFrom heap i (ls ++ ms)
FlagsFrom-append heap i [] ms a b = subst (λ j. FlagsFrom heap j ms) (omega arith) b
FlagsFrom-append heap i (l ∷ ls) ms a b = (
  a.0,
  FlagsFrom-append heap (i + 1) ls ms a.1 (subst (λ j. FlagsFrom heap j ms) (omega arith) b),
)

long_of-FlagsFrom :
    (heap : ℕ → Option ℕ) (i : ℕ) (o : ClpOption) (l : Option (List ℕ))
    → FlagsFrom heap i (long_of o l (flag_at heap i))
long_of-FlagsFrom heap i o none = tt
long_of-FlagsFrom heap i o (some name) = (refl, tt)

loop-FlagsFrom :
    (heap : ℕ → Option ℕ) (os : List ClpOption) (s : List ℕ) (ls : List LongOpt)
    → FlagsFrom heap 0 ls
    → FlagsFrom heap 0 (optstring_loop heap os s ls).1
unfolding optstring_loop
loop-FlagsFrom heap [] s ls a = a
loop-FlagsFrom heap (o ∷ os) s ls a =
    let skipped = loop-FlagsFrom heap os s ls a in
    let at_end : length ls ≡ 0 + length ls = omega arith in
    let added =
      loop-FlagsFrom heap os (s ++ letters o) (ls ++ long_of o o.longopt (flag_at heap (length ls)))
        (FlagsFrom-append heap 0 ls _ a (
          subst (λ j. FlagsFrom heap j (long_of o o.longopt (flag_at heap (length ls)))) at_end
            (long_of-FlagsFrom heap (length ls) o o.longopt))) in
    elim (Bool-cases (not (clp_optopt_valid o.optopt))) [
      | inl bad ↦ rw bad skipped
      | inr ok ↦ elim (Bool-cases (strchr s o.optopt)) [
        | inl dup ↦ rw (ok, dup) skipped
        | inr fresh ↦ rw (ok, fresh) added
      ]
    ]

-- Of the long options that clp_parsev_impl passes to getopt_long(), the first has a null `flag`, and
-- each other one has in `flag` what was in the memory that malloc() returned.
pub optstring-FlagsFrom :
    (heap : ℕ → Option ℕ) (os : List ClpOption) → FlagsFrom heap 0 (optstring heap os).1
unfolding optstring
optstring-FlagsFrom heap os = loop-FlagsFrom heap os [] [] tt
