-- ===== src/Examples/Sorting.antt =====
-- An insertion sort as qsort(), and the theorem of Clp/Help/Order at a concrete input.
use nct.Base.{
  ℕ, ◌≡◌, refl, sym, ◌∙◌, true, false, none, List, [], ◌∷◌, ltb, if◌then◌else◌, Bool-cases, inl,
  inr, arith,
}
use mathlib.Core.List.{
  Perm, Pairwise, Mem, Pairwise-singleton, Pairwise-pair, rel_of_Pairwise-cons,
  eq-or-mem_of_mem-cons, forall_mem-cons, mem-cons_of_mem, mem-cons_self,
}
use mathlib.Core.List.Perm
use mathlib.Core.List.Pairwise
use mathlib.Core.Logic.Or
use mathlib.Core.HLevel.{¬_prop}
use nct.Base.Integers.{ℤ, pos, ltℤ}
use nct.Base.Ascending.{Ascending}
use nct.Clp.Chars.{contains}
use nct.Clp.Options.{ClpOption}
use nct.Clp.OptString.{clp_optopt_valid}
use nct.Clp.Help.{valid_options, listed}
use nct.Clp.Help.Order.{option_key, Agrees, NotAbove, IsQsort, Differ, listed-Ascending}

module _ (cmp : ClpOption → ClpOption → ℤ) where
  unfoldable insert : ClpOption → List ClpOption → List ClpOption
  insert x [] = x ∷ []
  insert x (y ∷ ys) =
      let rest = insert x ys in if ltℤ (pos 0) (cmp x y) then y ∷ rest else x ∷ y ∷ ys

  unfoldable insertion_sort : List ClpOption → List ClpOption
  insertion_sort [] = []
  insertion_sort (x ∷ xs) = insert x (insertion_sort xs)

  insert-perm : (x : ClpOption) (ys : List ClpOption) → Perm (x ∷ ys) (insert x ys)
  unfolding insert
  insert-perm x [] = Perm.rfl
  insert-perm x (y ∷ ys) = elim (Bool-cases (ltℤ (pos 0) (cmp x y))) [
    | inl above ↦ rw above (Perm.trans (Perm.swap y x ys) (Perm.cons y (insert-perm x ys)))
    | inr below ↦ rw below Perm.rfl
  ]

  insertion_sort-perm : (xs : List ClpOption) → Perm xs (insertion_sort xs)
  unfolding insertion_sort
  insertion_sort-perm [] = Perm.nil
  insertion_sort-perm (x ∷ xs) =
      Perm.trans (Perm.cons x (insertion_sort-perm xs)) (insert-perm x (insertion_sort xs))

  module _ (key : ClpOption → ℕ) where
    abbrev Le : ClpOption → ClpOption → Type 0
    Le a b = ltb (key b) (key a) ≡ false

    Le-prop : (a b : ClpOption) → IsProp (Le a b)
    Le-prop a b = hlevel

    below_inserted :
        (x y : ClpOption) (ys : List ClpOption)
        → Le y x
        → ((z : ClpOption) → Mem z ys → Le y z)
        → (z : ClpOption) → Mem z (insert x ys)
        → Le y z
    below_inserted x y ys l h z m =
        Or.elim (Le-prop y z) (eq-or-mem_of_mem-cons ((Perm.mem_iff (insert-perm x ys)).1 m))
          (λ e. rw e l) (h z)

    insert-Le :
        (x : ClpOption) (ys : List ClpOption)
        → ((y : ClpOption) → Mem y ys → Agrees cmp key x y)
        → Pairwise Le ys
        → Pairwise Le (insert x ys)
    unfolding insert
    insert-Le x [] a s = Pairwise-singleton Le x
    insert-Le x (y ∷ ys) a s =
        let x_y = a y mem-cons_self in
        let rest : (z : ClpOption) → Mem z ys → Agrees cmp key x z =
          λ z m. a z (mem-cons_of_mem y m) in
        let least : (z : ClpOption) → Mem z ys → Le y z = λ z m. rel_of_Pairwise-cons s m in
        elim (Bool-cases (ltℤ (pos 0) (cmp x y))) [
          | inl above ↦
              let le : Le y x = let lt = sym x_y.0 ∙ above in ground arith in
              rw above (
                Pairwise.cons (below_inserted x y ys le least)
                  (insert-Le x ys rest (Pairwise.of_cons s)))
          | inr below ↦
              let le : Le x y = sym x_y.0 ∙ below in
              let all : (z : ClpOption) → Mem z ys → Le x z =
                λ z m. let next = least z m in ground arith in
              rw below (Pairwise.cons ((forall_mem-cons (Le-prop x)).1 (le, all)) s)
        ]

    insertion_sort-Le :
        (xs : List ClpOption) → Pairwise (Agrees cmp key) xs → Pairwise Le (insertion_sort xs)
    unfolding insertion_sort
    insertion_sort-Le [] a = Pairwise.nil
    insertion_sort-Le (x ∷ xs) a =
        insert-Le x (insertion_sort xs)
          (λ y m. rel_of_Pairwise-cons a ((Perm.mem_iff (insertion_sort-perm xs)).1 m))
          (insertion_sort-Le xs (Pairwise.of_cons a))

    Agrees-prop : (a b : ClpOption) → IsProp (Agrees cmp key a b)
    Agrees-prop a b = hlevel

    insertion_sort-NotAbove :
        (xs : List ClpOption)
        → Pairwise (Agrees cmp key) xs
        → Pairwise (NotAbove cmp) (insertion_sort xs)
    insertion_sort-NotAbove xs a =
        Pairwise.imp₂ (λ x y g l. g.0 ∙ l)
          (Perm.pairwise Agrees-prop (λ x y g. (g.1, g.0)) (insertion_sort-perm xs) a)
          (insertion_sort-Le xs a)

insertion_sort-IsQsort : IsQsort insertion_sort
insertion_sort-IsQsort = record {
  sorts = λ cmp key os a. (insertion_sort-perm cmp os, insertion_sort-NotAbove cmp key os a);
}

abbrev letter : ℕ → ClpOption
letter c = record {
  place = c;
  optopt = c;
  argname = none;
  longopt = none;
  no_arg = true;
  excludes = none;
  paramv = none;
  given = 0;
  longidx = none;
  optarg = none;
}

-- `-v`, `-V`, `-j` and the option `?`, which is not listed.
abbrev four : List ClpOption
four = letter b'v' ∷ letter b'?' ∷ letter b'V' ∷ letter b'j' ∷ []

listed_run : listed insertion_sort four ≡ letter b'j' ∷ letter b'V' ∷ letter b'v' ∷ []
unfolding listed insertion_sort insert valid_options clp_optopt_valid contains
listed_run = refl

abbrev lower_upper : List ClpOption
lower_upper = letter b'v' ∷ letter b'V' ∷ []

abbrev upper_lower : List ClpOption
upper_lower = letter b'V' ∷ letter b'v' ∷ []

listed-Ascending_example :
    Perm (valid_options lower_upper) (listed insertion_sort lower_upper)
    × Ascending option_key (listed insertion_sort lower_upper)
    × (listed insertion_sort upper_lower ≡ listed insertion_sort lower_upper)
listed-Ascending_example =
    listed-Ascending insertion_sort insertion_sort-IsQsort lower_upper upper_lower
      ((Pairwise-pair {R = Differ} (λ a b x y. ¬_prop x y)).1 (λ e. omega (arith, e)))
      (Perm.swap (letter b'V') (letter b'v') [])
