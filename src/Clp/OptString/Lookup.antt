-- ===== src/Clp/OptString/Lookup.antt =====
-- What getopt_long() reads in the option string, and what clp_find reads in the table.
use nct.Base.{
  ℕ, ◌≡◌, ◌≢◌, refl, sym, ◌∙◌, Bool, true, false, Option, none, some, List, [], ◌∷◌, ◌++◌, ◌==◌,
  if◌then◌else◌, drop, length, Bool-cases, inl, inr, arith, ==→eq,
}
use nct.Clp.Chars.{contains, strchr}
use nct.Clp.Options.{ClpOption, find_in, clp_find}
use nct.Clp.OptString.{
  clp_optopt_valid, LongOpt, flag_at, is_some, letters, long_of, optstring_loop, long_marker,
  optstring,
}

-- getopt() looks for a letter in the option string behind `+:`; it takes an argument if a colon
-- follows.
abbrev pub colon : List ℕ → Bool
colon [] = false
colon (x ∷ xs) = x == b':'

unfoldable pub reading : ℕ → List ℕ → Option Bool
reading c [] = none
reading c (x ∷ xs) = let rest = reading c xs in if x == c then some (colon xs) else rest

abbrev pub arg_of : Option ClpOption → Option Bool
arg_of none = none
arg_of (some o) = some (is_some o.argname)

abbrev or_else : Option Bool → Option Bool → Option Bool
or_else none q = q
or_else (some b) q = some b

valid-colon : (c : ℕ) → clp_optopt_valid c ≡ true → (c == b':') ≡ false
unfolding clp_optopt_valid contains
valid-colon c v = ground arith

valid-nul : (c : ℕ) → clp_optopt_valid c ≡ true → (c == 0) ≡ false
unfolding clp_optopt_valid contains
valid-nul c v = ground arith

colon-append : (xs t : List ℕ) → colon t ≡ false → colon (xs ++ t) ≡ colon xs
colon-append [] t e = e
colon-append (x ∷ xs) t e = refl

reading-append :
    (c : ℕ) (s t : List ℕ)
    → colon t ≡ false
    → reading c (s ++ t) ≡ or_else (reading c s) (reading c t)
unfolding reading
reading-append c [] t e = refl
reading-append c (x ∷ s) t e = elim (Bool-cases (x == c)) [
  | inl hit ↦ rw (hit, colon-append s t e) refl
  | inr miss ↦ rw miss (reading-append c s t e)
]

-- A letter of the string is read.
reading-contains :
    (c : ℕ) (s : List ℕ)
    → contains s c ≡ true
    → (q : Option Bool) → or_else (reading c s) q ≡ reading c s
unfolding reading contains
reading-contains c [] h q = cc
reading-contains c (x ∷ s) h q = elim (Bool-cases (x == c)) [
  | inl hit ↦ rw hit refl
  | inr miss ↦
      let more : contains s c ≡ true = rw miss at h in rw miss (reading-contains c s more q)
]

letters-colon : (o : ClpOption) → clp_optopt_valid o.optopt ≡ true → colon (letters o) ≡ false
letters-colon o v = let n = valid-colon o.optopt v in ground arith

reading-letters :
    (c : ℕ) (o : ClpOption)
    → clp_optopt_valid c ≡ true
    → (o.optopt == c) ≡ true
    → reading c (letters o) ≡ arg_of (some o)
unfolding reading
reading-letters c o v e = elim (Bool-cases (is_some o.argname)) [
  | inl a ↦ rw (a, e) refl
  | inr n ↦ rw (n, e) refl
]

reading-letters-ne :
    (c : ℕ) (o : ClpOption)
    → clp_optopt_valid c ≡ true
    → (o.optopt == c) ≡ false
    → reading c (letters o) ≡ none
unfolding reading
reading-letters-ne c o v e =
    let other : (b':' == c) ≡ false = let n = valid-colon c v in ground arith in
    elim (Bool-cases (is_some o.argname)) [ inl a ↦ rw (a, e, other) refl | inr n ↦ rw (n, e) refl ]

or_else_assoc : (p q r : Option Bool) → or_else (or_else p q) r ≡ or_else p (or_else q r)
or_else_assoc none q r = refl
or_else_assoc (some b) q r = refl

-- One round: the option is refused, its letter is there already, or it is appended.
module _ (heap : ℕ → Option ℕ) (o : ClpOption) (os : List ClpOption) (s : List ℕ)
    (ls : List LongOpt) where
  loop-refused :
      clp_optopt_valid o.optopt ≡ false
      → optstring_loop heap (o ∷ os) s ls ≡ optstring_loop heap os s ls
  unfolding optstring_loop
  loop-refused e = rw e refl

  loop-there :
      clp_optopt_valid o.optopt ≡ true
      → strchr s o.optopt ≡ true
      → optstring_loop heap (o ∷ os) s ls ≡ optstring_loop heap os s ls
  unfolding optstring_loop
  loop-there v e = rw (v, e) refl

  loop-appended :
      clp_optopt_valid o.optopt ≡ true
      → strchr s o.optopt ≡ false
      → optstring_loop heap (o ∷ os) s ls
        ≡ optstring_loop heap os
            (s ++ letters o)
            (ls ++ long_of o o.longopt (flag_at heap (length ls)))
  unfolding optstring_loop
  loop-appended v e = rw (v, e) refl

find_in-hit :
    (c : ℕ) (o : ClpOption) (os : List ClpOption)
    → (o.optopt == c) ≡ true
    → find_in c (o ∷ os) ≡ some o
unfolding find_in
find_in-hit c o os e = rw e refl

find_in-miss :
    (c : ℕ) (o : ClpOption) (os : List ClpOption)
    → (o.optopt == c) ≡ false
    → find_in c (o ∷ os) ≡ find_in c os
unfolding find_in
find_in-miss c o os e = rw e refl

find_in-nil : (c : ℕ) → find_in c [] ≡ none
unfolding find_in
find_in-nil c = refl

loop-nil :
    (heap : ℕ → Option ℕ) (s : List ℕ) (ls : List LongOpt) → optstring_loop heap [] s ls ≡ (s, ls)
unfolding optstring_loop
loop-nil heap s ls = refl

or_else-none : (p : Option Bool) → or_else p none ≡ p
or_else-none none = refl
or_else-none (some b) = refl

loop-reading :
    (heap : ℕ → Option ℕ) (c : ℕ) (os : List ClpOption) (s : List ℕ) (ls : List LongOpt)
    → clp_optopt_valid c ≡ true
    → reading c (optstring_loop heap os s ls).0 ≡ or_else (reading c s) (arg_of (find_in c os))
loop-reading heap c [] s ls v =
    rw (loop-nil heap s ls, find_in-nil c) (sym (or_else-none (reading c s)))
loop-reading heap c (o ∷ os) s ls v = elim (Bool-cases (o.optopt == c)) [
  | inl same ↦
      let eq : o.optopt ≡ c = ==→eq o.optopt c same in
      let w : clp_optopt_valid o.optopt ≡ true = rw eq v in
      elim (Bool-cases (strchr s o.optopt)) [
        | inl there ↦
            let here : strchr s c ≡ true = rw eq at there in
            let in_s : contains s c ≡ true = rw (valid-nul c v) at here in
            rw (loop-there heap o os s ls w there) (
              loop-reading heap c os s ls v
              ∙ reading-contains c s in_s _
              ∙ sym (reading-contains c s in_s _))
        | inr new ↦
            rw (loop-appended heap o os s ls w new, find_in-hit c o os same)
              (loop-reading heap c os (s ++ letters o)
                  (ls ++ long_of o o.longopt (flag_at heap (length ls))) v
                ∙ rw
                    (reading-append c s (letters o) (letters-colon o w), reading-letters c o v same)
                    (or_else_assoc (reading c s) _ _))
      ]
  | inr other ↦ rw (find_in-miss c o os other) (elim (Bool-cases (clp_optopt_valid o.optopt)) [
    | inr bad ↦ rw (loop-refused heap o os s ls bad) (loop-reading heap c os s ls v)
    | inl w ↦ elim (Bool-cases (strchr s o.optopt)) [
      | inl there ↦ rw (loop-there heap o os s ls w there) (loop-reading heap c os s ls v)
      | inr new ↦ rw (loop-appended heap o os s ls w new) (
          loop-reading heap c os (s ++ letters o)
            (ls ++ long_of o o.longopt (flag_at heap (length ls))) v
          ∙ rw
              (
                reading-append c s (letters o) (letters-colon o w),
                reading-letters-ne c o v other,
                or_else-none (reading c s),
              )
              refl)
    ]
  ])
]

long_marker-reading :
    (c : ℕ) (ls : List LongOpt) → c ≢ b'W' → c ≢ b';' → reading c (long_marker ls) ≡ none
unfolding reading
long_marker-reading c [] w t = refl
long_marker-reading c (l ∷ ls) w t = ground arith

long_marker-colon : (ls : List LongOpt) → colon (long_marker ls) ≡ false
long_marker-colon [] = refl
long_marker-colon (l ∷ ls) = refl

-- For a letter that clp_optopt_valid accepts, other than `W` and `;`, getopt_long() reads in the
-- option string what clp_find finds in the table: no option, or one that takes an argument exactly
-- if it has an `argname`. So the option of a letter that getopt_long() accepts is always found, and
-- of two options with one letter both take the first.
pub optstring-clp_find :
    (heap : ℕ → Option ℕ) (os : List ClpOption) (c : ℕ)
    → clp_optopt_valid c ≡ true
    → c ≢ b'W'
    → c ≢ b';'
    → reading c (drop 2 (optstring heap os).0) ≡ arg_of (clp_find c (some os))
unfolding optstring clp_find reading
optstring-clp_find heap os c v w t =
    let d = optstring_loop heap os [] [] in
    rw
      (
        reading-append c d.0 (long_marker d.1) (long_marker-colon d.1),
        long_marker-reading c d.1 w t,
        or_else-none (reading c d.0),
      )
      (loop-reading heap c os [] [] v)
