-- ===== src/Clp/Convert/Tokens.antt =====
-- The tokens of an argument to clp_cvt_*.
use nct.Base.{
  ℕ, ◌≡◌, refl, ◌∙◌, ap, Bool, true, false, Option, none, some, List, [], ◌∷◌, if◌then◌else◌,
  Bool-cases, inl, inr,
}
use nct.Clp.Chars.{contains}
use nct.Clp.Convert.{strsep, next_token}

-- The tokens of a string: one more than it has delimiters.
abbrev pub in_front : ℕ → List (List ℕ) → List (List ℕ)
in_front c [] = (c ∷ []) ∷ []
in_front c (t ∷ ts) = (c ∷ t) ∷ ts

pub tokens : List ℕ → List ℕ → List (List ℕ)
tokens delim [] = [] ∷ []
tokens delim (c ∷ s) =
    let rest = tokens delim s in if contains delim c then [] ∷ rest else in_front c rest

abbrev tokens_behind : List ℕ → Option (List ℕ) → List (List ℕ)
tokens_behind delim none = []
tokens_behind delim (some s) = tokens delim s

in_front_lem :
    (c : ℕ) (t : List ℕ) (ts us : List (List ℕ)) → us ≡ t ∷ ts → in_front c us ≡ (c ∷ t) ∷ ts
in_front_lem c t ts us e = ap (in_front c) e

tokens-strsep :
    (delim s : List ℕ)
    → tokens delim s ≡ (strsep delim s).0 ∷ tokens_behind delim (strsep delim s).1
unfolding tokens strsep
tokens-strsep delim [] = refl
tokens-strsep delim (c ∷ s) = elim (Bool-cases (contains delim c)) [
  | inl hit ↦ rw hit refl
  | inr miss ↦ rw miss (ap (in_front c) (tokens-strsep delim s))
]

-- The tokens of an argument: itself, if no delimiter stands in it.
abbrev pub tokens_of : Bool → List ℕ → Option (List ℕ) → List (List ℕ)
tokens_of split delim none = []
tokens_of true delim (some s) = tokens delim s
tokens_of false delim (some s) = s ∷ []

pub tokens_of-next :
    (split : Bool) (delim s : List ℕ)
    → tokens_of split delim (some s)
      ≡ (next_token split delim s).0 ∷ tokens_of split delim (next_token split delim s).1
tokens_of-next true delim s =
    tokens-strsep delim s ∙ ap (◌∷◌ (strsep delim s).0) (behind (strsep delim s).1)
  where
    behind : (o : Option (List ℕ)) → tokens_behind delim o ≡ tokens_of true delim o
    behind none = refl
    behind (some s) = refl
tokens_of-next false delim s = refl
