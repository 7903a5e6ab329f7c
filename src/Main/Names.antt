-- ===== src/Main/Names.antt =====
-- main.c: the name of the program, and what dprint_func and eprint print.
use nct.Base.{
  ℕ, ◌-◌, ◌≡◌, refl, ap, false, List, [], ◌∷◌, ◌++◌, map, take, ltb, leb, ◌==◌, if◌then◌else◌,
  Bool-cases, inl, inr,
}
use nct.Base.Decimal.{string_in, decimal_in}
use nct.Clp.Chars.{contains, is_lower}
use nct.Clp.Usage.{codes}

-- `progname`: what stands behind the last slash of argv[0].
unfoldable pub program_name : List ℕ → List ℕ
program_name [] = []
program_name (c ∷ s) =
    let rest = program_name s in if contains s b'/' then rest else if c == b'/' then s else c ∷ s

abbrev toupper : ℕ → ℕ
toupper c = if is_lower c then c - 32 else c

-- `progname_uc`, the name of the variable of the environment. An argv[0] with a name of more than
-- MAXNAMLEN bytes overruns it.
abbrev pub progname_uc : List ℕ → List ℕ
progname_uc argv0 = map toupper (program_name argv0)

-- What vsnprintf() leaves of a message in `msg`.
abbrev msg_text : List ℕ → List ℕ
msg_text text = take 255 text

-- dprint_func
unfoldable pub dprint_func : ℕ → List ℕ → List ℕ → ℕ → List ℕ → List ℕ
dprint_func verbosity progname func line text =
    if ltb 1 verbosity
    then progname
      ++ codes ": "
      ++ string_in 16 func
      ++ b' ' ∷ decimal_in 4 line (codes ":  " ++ msg_text text)
    else msg_text text

-- The macro dprint of main.h.
abbrev pub dprint : ℕ → ℕ → List ℕ → List ℕ → ℕ → List ℕ → List ℕ
dprint lvl verbosity progname func line text =
    if leb lvl verbosity then dprint_func verbosity progname func line text else []

-- eprint
unfoldable pub eprint : List ℕ → List ℕ → List ℕ
eprint progname text = progname ++ codes ": " ++ msg_text text

-- What stands in front of the name.
unfoldable pub directory : List ℕ → List ℕ
directory [] = []
directory (c ∷ s) =
    let rest = directory s in if contains s b'/' then c ∷ rest else if c == b'/' then c ∷ [] else []

-- The name of the program is the end of argv[0] without a slash, and all of it, or all behind a slash.
program_name-slash : (s : List ℕ) → contains (program_name s) b'/' ≡ false
unfolding program_name contains
program_name-slash [] = refl
program_name-slash (c ∷ s) = elim (Bool-cases (contains s b'/')) [
  | inl more ↦ rw more (program_name-slash s)
  | inr last ↦ elim (Bool-cases (c == b'/')) [
    | inl slash ↦ rw (last, slash) last
    | inr other ↦ rw (last, other) (rw (other, last) refl)
  ]
]

directory-program_name : (s : List ℕ) → directory s ++ program_name s ≡ s
unfolding program_name directory
directory-program_name [] = refl
directory-program_name (c ∷ s) = elim (Bool-cases (contains s b'/')) [
  | inl more ↦ rw more (ap (◌∷◌ c) (directory-program_name s))
  | inr last ↦ elim (Bool-cases (c == b'/')) [
    | inl slash ↦ rw (last, slash) refl
    | inr other ↦ rw (last, other) refl
  ]
]
