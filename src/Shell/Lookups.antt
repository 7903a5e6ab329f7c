-- ===== src/Shell/Lookups.antt =====
-- The command that nct_shell finds for a word.
use nct.Base.{
  ℕ, ◌≡◌, refl, none, some, List, [], ◌∷◌, ◌==◌, if◌then◌else◌, length, Bool-cases, inl, inr,
}
use nct.Shell.{Cmd, Lookup, unknown, ambiguous, found, begins, lookup_loop}

-- The commands whose names start with a word, in any case.
unfoldable pub candidates : List ℕ → List Cmd → List Cmd
candidates word [] = []
candidates word (c ∷ cs) =
    let more = candidates word cs in if begins word c.name then c ∷ more else more

-- A command that no other follows.
abbrev pub alone : Cmd → List Cmd → Lookup
alone c [] = found c
alone c (_ ∷ _) = ambiguous

-- The first of them is taken if the word is the whole of its name, or if it is the only one.
abbrev pub chosen : List ℕ → List Cmd → Lookup
chosen word [] = unknown
chosen word (c ∷ cs) = if length c.name == length word then found c else alone c cs

lookup_loop-seen :
    (word : List ℕ) (cs : List Cmd) (d : Cmd)
    → lookup_loop word cs (some d) ≡ alone d (candidates word cs)
unfolding lookup_loop candidates
lookup_loop-seen word [] d = refl
lookup_loop-seen word (c ∷ cs) d = elim (Bool-cases (begins word c.name)) [
  | inl hit ↦ rw hit refl
  | inr miss ↦ rw miss (lookup_loop-seen word cs d)
]

-- The lookup of a word finds the first command whose name starts with it if that is the whole name
-- or no second name starts with it; else the word is ambiguous, and invalid if no name does.
pub lookup_loop-chosen :
    (word : List ℕ) (cs : List Cmd) → lookup_loop word cs none ≡ chosen word (candidates word cs)
unfolding lookup_loop candidates
lookup_loop-chosen word [] = refl
lookup_loop-chosen word (c ∷ cs) = elim (Bool-cases (begins word c.name)) [
  | inl hit ↦ rw (hit, lookup_loop-seen word cs c) refl
  | inr miss ↦ rw miss (lookup_loop-chosen word cs)
]
