-- ===== src/Clp/Help/Order.antt =====
-- The order in which clp_help lists the options.
use nct.Base.{
  ℕ, ◌+◌, ◌*◌, ◌<◌, ◌≡◌, ◌≢◌, refl, sym, ◌∙◌, Bool, false, List, [], ◌∷◌, ltb, if◌then◌else◌, arith,
  Bool-cases, inl, inr, true,
}
use mathlib.Core.List.{Perm, Perm-prop, Permᴰ, Pairwise, Sublistᴰ}
use mathlib.Core.List.Perm
use mathlib.Core.List.Pairwise
use mathlib.Core.Logic.{∥∥₁_elim}
use mathlib.Core.HLevel.{¬_prop}
use nct.Base.Integers.{ℤ, pos, ltℤ}
use nct.Base.Ascending.{Ascending, Ascending-unique}
use nct.Clp.Chars.{tolower, is_upper}
use nct.Clp.Options.{ClpOption}
use nct.Clp.OptString.{clp_optopt_valid}
use nct.Clp.Help.{clp_help_cmp, valid_options, listed}

-- The place of a letter in AaBbCc.
abbrev pub letter_key : ℕ → ℕ
letter_key c = 2 * tolower c + (if is_upper c then 0 else 1)

abbrev pub option_key : ClpOption → ℕ
option_key o = letter_key o.optopt

-- A comparison is greater than 0 where it should be by a key of the elements, either way round.
abbrev pub Agrees : (ClpOption → ClpOption → ℤ) → (ClpOption → ℕ) → ClpOption → ClpOption → Type 0
Agrees cmp key a b =
    (ltℤ (pos 0) (cmp a b) ≡ ltb (key b) (key a)) × (ltℤ (pos 0) (cmp b a) ≡ ltb (key a) (key b))

abbrev pub NotAbove : (ClpOption → ClpOption → ℤ) → ClpOption → ClpOption → Type 0
NotAbove cmp a b = ltℤ (pos 0) (cmp a b) ≡ false

-- qsort() orders the elements that it is given, if the comparison of any two of them is that of a key.
pub record IsQsort (qsort : (ClpOption → ClpOption → ℤ) → List ClpOption → List ClpOption)
    : Type 0 where
  pub sorts :
      (cmp : ClpOption → ClpOption → ℤ) (key : ClpOption → ℕ) (os : List ClpOption)
      → Pairwise (Agrees cmp key) os
      → Perm os (qsort cmp os) × Pairwise (NotAbove cmp) (qsort cmp os)

abbrev pub Differ : ClpOption → ClpOption → Type 0
Differ a b = a.optopt ≢ b.optopt

letter_key-differ : (c d : ℕ) → c ≢ d → letter_key c ≢ letter_key d
letter_key-differ c d h = ground arith

clp_help_cmp-above :
    (a b : ClpOption)
    → Differ a b
    → ltℤ (pos 0) (clp_help_cmp a b) ≡ ltb (option_key b) (option_key a)
clp_help_cmp-above a b h = ground arith

clp_help_cmp-Agrees : (a b : ClpOption) → Differ a b → Agrees clp_help_cmp option_key a b
clp_help_cmp-Agrees a b h = (clp_help_cmp-above a b h, clp_help_cmp-above b a (λ e. h (sym e)))

ClpOption-set : IsSet ClpOption
ClpOption-set = hlevel

-- The options with a valid letter, of a table and of one with the same options.
valid_options-sublist : (os : List ClpOption) → Sublistᴰ (valid_options os) os
unfolding valid_options
valid_options-sublist [] = Sublistᴰ.slnil
valid_options-sublist (o ∷ os) = elim (Bool-cases (clp_optopt_valid o.optopt)) [
  | inl ok ↦ rw ok (Sublistᴰ.cons-cons refl (valid_options-sublist os))
  | inr off ↦ rw off (Sublistᴰ.cons (valid_options-sublist os))
]

keep-perm :
    (b : Bool) (o : ClpOption) {os ps : List ClpOption}
    → Perm os ps
    → Perm (if b then o ∷ os else os) (if b then o ∷ ps else ps)
keep-perm true o p = Perm.cons o p
keep-perm false o p = p

keep-swap :
    (b c : Bool) (o p : ClpOption) (os : List ClpOption)
    → Perm
        (if b then o ∷ (if c then p ∷ os else os) else (if c then p ∷ os else os))
        (if c then p ∷ (if b then o ∷ os else os) else (if b then o ∷ os else os))
keep-swap true true o p os = Perm.swap p o os
keep-swap true false o p os = Perm.rfl
keep-swap false true o p os = Perm.rfl
keep-swap false false o p os = Perm.rfl

valid_options-permᴰ :
    {os ps : List ClpOption} → Permᴰ os ps → Perm (valid_options os) (valid_options ps)
unfolding valid_options
valid_options-permᴰ Permᴰ.nil = Perm.nil
valid_options-permᴰ (Permᴰ.cons {b} e d) =
    rw e (keep-perm (clp_optopt_valid b.optopt) b (valid_options-permᴰ d))
valid_options-permᴰ (Permᴰ.swap {a} {b} {a'} {b'} {l} e f) =
    rw (e, f)
      (keep-swap (clp_optopt_valid b'.optopt) (clp_optopt_valid a'.optopt) b' a' (valid_options l))
valid_options-permᴰ (Permᴰ.trans c d) = Perm.trans (valid_options-permᴰ c) (valid_options-permᴰ d)

valid_options-perm :
    {os ps : List ClpOption} → Perm os ps → Perm (valid_options os) (valid_options ps)
valid_options-perm p = ∥∥₁_elim p Perm-prop valid_options-permᴰ

-- What sorting makes of options with different letters.
Listing : List ClpOption → List ClpOption → Type 0
Listing os ls = Perm os ls × Ascending option_key ls

module _ (qsort : (ClpOption → ClpOption → ℤ) → List ClpOption → List ClpOption)
    (q : IsQsort qsort) where
  above-key :
      (a b : ClpOption) → Differ a b → NotAbove clp_help_cmp a b → option_key a < option_key b
  above-key a b h n =
      let le : ltb (option_key b) (option_key a) ≡ false = sym (clp_help_cmp-above a b h) ∙ n in
      let apart = letter_key-differ a.optopt b.optopt h in ground arith

  qsort-Listing : (os : List ClpOption) → Pairwise Differ os → Listing os (qsort clp_help_cmp os)
  unfolding Listing
  qsort-Listing os d =
      let (p, sorted) = q.sorts clp_help_cmp option_key os (Pairwise.imp clp_help_cmp-Agrees d) in
      let d' : Pairwise Differ (qsort clp_help_cmp os) =
        Perm.pairwise (λ a b x y. ¬_prop x y) (λ a b h e. h (sym e)) p d in
      (p, Pairwise.imp₂ above-key d' sorted)

  -- The options of a table with different letters are listed in the order AaBbCc of these, each
  -- option with a valid letter once, and a table with the same options in another order gets the
  -- same list.
  pub listed-Ascending :
      (os ps : List ClpOption)
      → Pairwise Differ os
      → Perm os ps
      → Perm (valid_options os) (listed qsort os)
        × Ascending option_key (listed qsort os)
        × (listed qsort ps ≡ listed qsort os)
  unfolding listed Listing
  listed-Ascending os ps d p =
      let d' : Pairwise Differ ps =
        Perm.pairwise (λ a b x y. ¬_prop x y) (λ a b h e. h (sym e)) p d in
      let (po, so) =
        qsort-Listing (valid_options os) (Pairwise.sublistᴰ (valid_options-sublist os) d) in
      let (pp, sp) =
        qsort-Listing (valid_options ps) (Pairwise.sublistᴰ (valid_options-sublist ps) d') in
      let same = Perm.trans (Perm.symm pp) (Perm.trans (Perm.symm (valid_options-perm p)) po) in
      (po, so, Ascending-unique ClpOption-set option_key _ _ sp so same)
