-- ===== src/Clp/Options.antt =====
-- Option tables of clp.c: clp_find, clp_given, clp_excludes2, clp_excludes, and clp_cvt_subcmd.
--
-- A vector of options ends at the first `optopt` that is not positive, and one of subcommands at
-- the first null name: both are lists.
use nct.Base.{
  ℕ, ◌≡◌, refl, ap, Bool, true, false, not, ◌&&◌, ◌||◌, Option, none, some, List, [], ◌∷◌, ltb, leb,
  ◌==◌, if◌then◌else◌, All, Bool-cases, inl, inr, arith,
}
use nct.Clp.Chars.{strchr}

-- struct clp_option, as far as the parser reads and writes it. `place` is the option's address, and
-- `paramv` that of its parameters. `no_arg` says that `cvtfunc` is clp_cvt_bool or clp_cvt_incr. A
-- `longidx` of -1 is none.
pub record ClpOption : Type 0 where
  pub place : ℕ
  pub optopt : ℕ
  pub argname : Option (List ℕ)
  pub longopt : Option (List ℕ)
  pub no_arg : Bool
  pub excludes : Option (List ℕ)
  pub paramv : Option ℕ
  pub given : ℕ
  pub longidx : Option ℕ
  pub optarg : Option (List ℕ)

-- The loop of clp_find.
unfoldable pub find_in : ℕ → List ClpOption → Option ClpOption
find_in c [] = none
find_in c (o ∷ os) = let rest = find_in c os in if o.optopt == c then some o else rest

-- clp_find
unfoldable pub clp_find : ℕ → Option (List ClpOption) → Option ClpOption
clp_find c none = none
clp_find c (some optionv) = find_in c optionv

abbrev pub if_given : Option ClpOption → Option ClpOption
if_given none = none
if_given (some o) = if ltb 0 o.given then some o else none

-- clp_given, without the option's own `getfunc`.
unfoldable pub clp_given : ℕ → Option (List ClpOption) → Option ClpOption
clp_given c optionv = if_given (clp_find c optionv)

-- One option's list names another: all but the letters behind `^`, all for `*`, else the letters.
abbrev pub names : Option (List ℕ) → ℕ → Bool
names none c = false
names (some []) c = strchr [] c
names (some (x ∷ xs)) c =
    if x == b'^' then not (strchr (x ∷ xs) c) else x == b'*' || strchr (x ∷ xs) c

abbrev pub differ : Option ℕ → Option ℕ → Bool
differ (some p) (some q) = not (p == q)
differ none q = false
differ (some p) none = false

-- clp_excludes2
unfoldable pub clp_excludes2 : Option ClpOption → Option ClpOption → Bool
clp_excludes2 (some l) (some r) =
    not (l.place == r.place)
    && (names l.excludes r.optopt || (names r.excludes l.optopt || differ l.paramv r.paramv))
clp_excludes2 none r = false
clp_excludes2 (some l) none = false

-- clp_excludes
unfoldable pub clp_excludes : List ClpOption → Option ClpOption → ℕ → Option ClpOption
clp_excludes [] option given = none
clp_excludes (o ∷ os) option given =
    let rest = clp_excludes os option given in
    if leb given o.given && clp_excludes2 option (some o) then some o else rest

not_equal_comm : (a b : ℕ) → not (a == b) ≡ not (b == a)
not_equal_comm a b = ground arith

differ_comm : (p q : Option ℕ) → differ p q ≡ differ q p
differ_comm none none = refl
differ_comm none (some q) = refl
differ_comm (some p) none = refl
differ_comm (some p) (some q) = not_equal_comm p q

or_swap : (a b c : Bool) → (a || (b || c)) ≡ (b || (a || c))
or_swap true true c = refl
or_swap true false c = refl
or_swap false b c = refl

-- Exclusion does not depend on the order of the two options.
pub clp_excludes2_comm : (l r : Option ClpOption) → clp_excludes2 l r ≡ clp_excludes2 r l
unfolding clp_excludes2
clp_excludes2_comm none none = refl
clp_excludes2_comm none (some r) = refl
clp_excludes2_comm (some l) none = refl
clp_excludes2_comm (some l) (some r) =
    rw (not_equal_comm l.place r.place, differ_comm l.paramv r.paramv)
      (ap (◌&&◌ (not (r.place == l.place))) (
        or_swap (names l.excludes r.optopt) (names r.excludes l.optopt) (differ r.paramv l.paramv)))

-- If clp_excludes finds nothing for an option, then no option of the table that was given often
-- enough excludes it or is excluded by it.
pub clp_excludes-none :
    (os : List ClpOption) (option : ClpOption) (given : ℕ)
    → clp_excludes os (some option) given ≡ none
    → All
        (λ o.
          ((leb given o.given && clp_excludes2 (some option) (some o)) ≡ false)
          × ((leb given o.given && clp_excludes2 (some o) (some option)) ≡ false))
        os
unfolding clp_excludes
clp_excludes-none [] option given e = tt
clp_excludes-none (o ∷ os) option given e =
    elim (Bool-cases (leb given o.given && clp_excludes2 (some option) (some o))) [
      | inl hit ↦ let clash : some o ≡ none = rw hit at e in cc
      | inr miss ↦
          let tail : clp_excludes os (some option) given ≡ none = rw miss at e in
          (
            (miss, rw (clp_excludes2_comm (some o) (some option)) miss),
            clp_excludes-none os option given tail,
          )
    ]

-- `strstr(name, str) == name`: the name starts with the string.
unfoldable pub starts_with : List ℕ → List ℕ → Bool
starts_with [] name = true
starts_with (x ∷ xs) [] = false
starts_with (x ∷ xs) (y ∷ name) = x == y && starts_with xs name

-- What clp_cvt_subcmd comes to: the subcommand, or EX_USAGE for one of two reasons.
pub data Subcmd : Type 0 where
  subcmd : List ℕ → Subcmd
  ambiguous invalid : Subcmd

abbrev pub matched : Option (List ℕ) → Subcmd
matched none = invalid
matched (some name) = subcmd name

-- The loop, with `match`.
unfoldable pub match_loop : List (List ℕ) → List ℕ → Option (List ℕ) → Subcmd
match_loop [] str found = matched found
match_loop (name ∷ rest) str none =
    let next = match_loop rest str (some name) in
    let same = match_loop rest str none in if starts_with str name then next else same
match_loop (name ∷ rest) str (some found) =
    let same = match_loop rest str (some found) in if starts_with str name then ambiguous else same

-- clp_cvt_subcmd, by the names of the subcommands; no subcommands are a null pointer.
unfoldable pub clp_cvt_subcmd : Option (List (List ℕ)) → List ℕ → Subcmd
clp_cvt_subcmd none str = invalid
clp_cvt_subcmd (some subcmds) str = match_loop subcmds str none

-- The names that start with a string.
unfoldable pub candidates : List (List ℕ) → List ℕ → List (List ℕ)
candidates [] str = []
candidates (name ∷ rest) str =
    let more = candidates rest str in if starts_with str name then name ∷ more else more

-- The one of them, if it is one.
abbrev pub only : List (List ℕ) → Subcmd
only [] = invalid
only (name ∷ []) = subcmd name
only (name ∷ _ ∷ _) = ambiguous

match_loop-found :
    (names : List (List ℕ)) (str found : List ℕ)
    → match_loop names str (some found) ≡ only (found ∷ candidates names str)
unfolding match_loop candidates
match_loop-found [] str found = refl
match_loop-found (name ∷ rest) str found = elim (Bool-cases (starts_with str name)) [
  | inl hit ↦ rw hit refl
  | inr miss ↦ rw miss (match_loop-found rest str found)
]

match_loop-candidates :
    (names : List (List ℕ)) (str : List ℕ) → match_loop names str none ≡ only (candidates names str)
unfolding match_loop candidates
match_loop-candidates [] str = refl
match_loop-candidates (name ∷ rest) str = elim (Bool-cases (starts_with str name)) [
  | inl hit ↦ rw hit (match_loop-found rest str name)
  | inr miss ↦ rw miss (match_loop-candidates rest str)
]

-- clp_cvt_subcmd takes the one subcommand whose name starts with the string: it refuses the string
-- as invalid if there is none, and as ambiguous if there are two, a full match among them or not.
pub clp_cvt_subcmd-only :
    (subcmds : List (List ℕ)) (str : List ℕ)
    → clp_cvt_subcmd (some subcmds) str ≡ only (candidates subcmds str)
unfolding clp_cvt_subcmd
clp_cvt_subcmd-only subcmds str = match_loop-candidates subcmds str
