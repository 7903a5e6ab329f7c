-- ===== src/Clp/Macros/Alone.antt =====
-- Options that exclude all others, as -h and -V do.
use nct.Base.{
  ℕ, ◌≤◌, ◌≡◌, ◌≢◌, refl, Bool, true, false, ◌&&◌, Option, some, List, [], ◌∷◌, leb, All, arith,
  ne→==,
}
use nct.Clp.Options.{ClpOption, clp_excludes2}
use nct.Clp.Parse.{Hooks, Getopt, ParseState, clp_parsev}
use nct.Clp.Parse.Exclusion.{clash, clp_parsev-Compatible}

-- The option's list is `*`.
abbrev pub ExcludesAll : ClpOption → Type 0
ExcludesAll o = o.excludes ≡ some (b'*' ∷ [])

-- The only option of the table that was given, if it was.
abbrev pub Alone : List ClpOption → ClpOption → Type 0
Alone os o = ExcludesAll o → 1 ≤ o.given → All (λ q. o.place ≢ q.place → q.given ≡ 0) os

excludes_others :
    (o q : ClpOption) → ExcludesAll o → o.place ≢ q.place → clp_excludes2 (some o) (some q) ≡ true
unfolding clp_excludes2
excludes_others o q e ne = rw (e, ne→== o.place q.place ne) refl

not_given : (a b : ℕ) (x : Bool) → x ≡ true → 1 ≤ a → (leb 1 a && (leb 1 b && x)) ≡ false → b ≡ 0
not_given a b x e h c = ground arith

apart :
    (o q : ClpOption)
    → ExcludesAll o
    → 1 ≤ o.given
    → clash o q ≡ false
    → o.place ≢ q.place
    → q.given ≡ 0
apart o q e h c ne = not_given o.given q.given _ (excludes_others o q e ne) h c

others :
    (o : ClpOption) (os : List ClpOption)
    → ExcludesAll o
    → 1 ≤ o.given
    → All (λ q. clash o q ≡ false) os
    → All (λ q. o.place ≢ q.place → q.given ≡ 0) os
others o [] e h c = tt
others o (q ∷ os) e h c = (apart o q e h c.0, others o os e h c.1)

Compatible-Alone :
    (whole os : List ClpOption)
    → All (λ p. All (λ q. clash p q ≡ false) whole) os
    → All (Alone whole) os
Compatible-Alone whole [] c = tt
Compatible-Alone whole (o ∷ os) c = (λ e h. others o whole e h c.0, Compatible-Alone whole os c.1)

-- An option whose list is `*`, as those of CLP_OPTION_HELP and CLP_OPTION_VERSION, is the only one
-- that clp_parsev has counted as given, if it has counted it, however the parse ends.
pub clp_parsev-Alone {ℓ} :
    {A : Type ℓ} (h : Hooks A) (memory : Option (ℕ → Option ℕ)) (getopt : Getopt) (arg : List ℕ)
    (argv : List (List ℕ)) (paramv : Option ℕ) (s : ParseState A)
    → All
        (Alone (clp_parsev h memory getopt (arg ∷ argv) paramv s).1.options)
        (clp_parsev h memory getopt (arg ∷ argv) paramv s).1.options
clp_parsev-Alone h memory getopt arg argv paramv s =
    Compatible-Alone _ _ (clp_parsev-Compatible h memory getopt arg argv paramv s)
