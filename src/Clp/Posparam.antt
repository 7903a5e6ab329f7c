-- ===== src/Clp/Posparam.antt =====
-- Positional parameters of clp.c: clp_trim, clp_unbracket, clp_subcmd, clp_posparam_minmax, and the
-- distribution of the arguments at the end of clp_parsev_impl.
pub mod Distribution
use nct.Base.{
  ℕ, zero, suc, ◌+◌, ◌-◌, Bool, true, false, ◌&&◌, ◌||◌, Option, none, some, List, [], ◌∷◌, ltb,
  leb, ◌==◌, if◌then◌else◌, length, take, drop,
}
use nct.Clp.Chars.{is_space}

-- struct clp_posparam, as far as the parser reads it. `has_subcmds` says that `cvtparms` points to
-- a subcommand with a name.
pub record Posparam : Type 0 where
  pub name : List ℕ
  pub cvtsubcmd : Bool
  pub has_subcmds : Bool
  pub posmin : ℕ
  pub posmax : ℕ
  pub argc : ℕ
  pub argv : List (List ℕ)

abbrev pub not_nil : List ℕ → Option (List ℕ)
not_nil [] = none
not_nil (c ∷ s) = some (c ∷ s)

unfoldable pub skip_spaces : List ℕ → List ℕ
skip_spaces [] = []
skip_spaces (c ∷ s) = let rest = skip_spaces s in if is_space c then rest else c ∷ s

-- clp_trim
unfoldable pub clp_trim : Option (List ℕ) → Option (List ℕ)
clp_trim none = none
clp_trim (some s) = not_nil (skip_spaces s)

-- The first loop of clp_unbracket: the open brackets, and the rest of the name.
unfoldable pub open_brackets : List ℕ → ℕ × List ℕ
open_brackets [] = (0, [])
open_brackets (c ∷ s) =
    let (n, rest) = open_brackets s in
    if c == b'[' then (n + 1, rest) else if is_space c then (n, rest) else (0, c ∷ s)

-- Up to the first bracket.
unfoldable pub to_bracket : List ℕ → List ℕ
to_bracket [] = []
to_bracket (c ∷ s) = let rest = to_bracket s in if c == b']' || c == b'[' then [] else c ∷ rest

abbrev pub cons_unless : Bool → ℕ → List ℕ → List ℕ
cons_unless drops c [] = if drops then [] else c ∷ []
cons_unless drops c (x ∷ xs) = c ∷ x ∷ xs

-- The trailing white space is cut off.
unfoldable pub trim_end : List ℕ → List ℕ
trim_end [] = []
trim_end (c ∷ s) = cons_unless (is_space c) c (trim_end s)

-- clp_unbracket, with a name and a buffer of at least one byte: the count and the name.
unfoldable pub clp_unbracket : List ℕ → ℕ → ℕ × List ℕ
clp_unbracket name bufsz =
    let (n, rest) = open_brackets name in (n, trim_end (to_bracket (take (bufsz - 1) rest)))

-- clp_subcmd: whether the parameter stands for a subcommand.
abbrev pub clp_subcmd : Posparam → Bool
clp_subcmd p = p.cvtsubcmd && p.has_subcmds

abbrev pub is_dots : List ℕ → Bool
is_dots [] = false
is_dots (a ∷ []) = false
is_dots (a ∷ b ∷ []) = false
is_dots (a ∷ b ∷ c ∷ []) = a == b'.' && (b == b'.' && c == b'.')
is_dots (_ ∷ _ ∷ _ ∷ _ ∷ _) = false

-- `len >= 3 && 0 == strncmp(namebuf + len - 3, "...", 3)`
abbrev pub is_list : List ℕ → Bool
is_list name = leb 3 (length name) && is_dots (drop (length name - 3) name)

-- A round of clp_posparam_minmax.
unfoldable pub sized : Posparam → Posparam
sized p =
    let (isoptional, namebuf) = clp_unbracket p.name 128 in
    record p {
      posmin = if isoptional == 0 then 1 else 0;
      posmax = if is_list namebuf then 1024 else if clp_subcmd p then 1024 else 1;
    }

-- clp_posparam_minmax: the parameters with their bounds, and the sums of the bounds.
unfoldable pub clp_posparam_minmax : List Posparam → List Posparam × (ℕ × ℕ)
clp_posparam_minmax [] = ([], (0, 0))
clp_posparam_minmax (p ∷ ps) =
    let q = sized p in
    let (qs, (lo, hi)) = clp_posparam_minmax ps in
    if clp_subcmd p
    then (q ∷ ps, (q.posmin, q.posmax))
    else (q ∷ qs, (q.posmin + lo, q.posmax + hi))

-- `param->argc` in a round of the distribution, with `argc` arguments left, of which the parameters
-- from this one on need `posmin`.
unfoldable pub assigned : ℕ → ℕ → Posparam → ℕ
assigned posmin argc p =
    if p.posmin == 1
    then (if ltb 1 p.posmax then 1 + (argc - posmin) else 1)
    else if ltb posmin argc
    then (if ltb 1 p.posmax then argc - posmin else 1)
    else 0

abbrev pub give : ℕ → List (List ℕ) → Posparam → Posparam
give n args p = record p { argc = n; argv = take n args }

-- `--posmin` for a parameter that needs an argument.
abbrev pub still_needed : ℕ → Posparam → ℕ
still_needed posmin p = if p.posmin == 1 then posmin - 1 else posmin

-- The distribution: the parameters with their arguments, and the arguments left over.
unfoldable pub distribute : ℕ → List (List ℕ) → List Posparam → List Posparam × List (List ℕ)
unfolding assigned
distribute posmin args [] = ([], args)
distribute posmin [] (p ∷ ps) = (p ∷ ps, [])
distribute posmin (a ∷ more) (p ∷ ps) =
    let n = assigned posmin (length (a ∷ more)) p in
    let (qs, left) = distribute (still_needed posmin p) (drop n (a ∷ more)) ps in
    if clp_subcmd p
    then (give n (a ∷ more) p ∷ ps, drop n (a ∷ more))
    else (give n (a ∷ more) p ∷ qs, left)

-- What the positional part of clp_parsev_impl comes to: EX_USAGE for too few or too many arguments,
-- or the parameters with their arguments and what is left over.
pub data Placed : Type 0 where
  required extraneous : Placed
  placed : List Posparam → List (List ℕ) → Placed

unfoldable pub place_arguments : List (List ℕ) → List Posparam → Placed
place_arguments args ps =
    let (qs, (posmin, posmax)) = clp_posparam_minmax ps in
    let d = distribute posmin args qs in
    if ltb (length args) posmin
    then required
    else if ltb posmax (length args)
    then extraneous
    else placed d.0 d.1
