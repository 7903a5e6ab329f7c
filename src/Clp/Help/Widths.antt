-- ===== src/Clp/Help/Widths.antt =====
-- The widths of the columns of the help message, and the buffers that they are the sizes of.
use nct.Base.{
  ℕ, ◌+◌, ◌≤◌, ◌≡◌, refl, Bool, true, false, Option, none, some, List, [], ◌∷◌, length,
  length-append, All, arith,
}
use nct.Clp.Options.{ClpOption}
use nct.Clp.OptString.{is_some}
use nct.Clp.Help.{
  Help, option_width, option_text, longopt_text, argname_text, argname_len, longopt_len, greater,
}

option_width-grows : (h : Help) (l : Bool) (os : List ClpOption) (w : ℕ) → w ≤ option_width h l os w
unfolding option_width
option_width-grows h l [] w = omega arith
option_width-grows h l (o ∷ os) w = grind (arith, option_width-grows h l os)

length-longopt_text : (l : Bool) (o : Option (List ℕ)) → length (longopt_text l o) ≡ longopt_len l o
length-longopt_text l none = refl
length-longopt_text true (some s) = omega arith
length-longopt_text false (some s) = refl

length-argname_text : (o : Option (List ℕ)) → length (argname_text o) ≡ argname_len o
length-argname_text none = refl
length-argname_text (some s) = omega arith

length-option_text :
    (l : Bool) (o : ClpOption)
    → length (option_text l o) ≡ argname_len o.argname + longopt_len l o.longopt
unfolding option_text
length-option_text l o = omega (
  arith,
  length-append (longopt_text l o.longopt) (argname_text o.argname),
  length-longopt_text l o.longopt,
  length-argname_text o.argname,
)

-- The options that are printed have texts that fit.
abbrev pub Fits : Help → Bool → ℕ → ClpOption → Type 0
Fits h l w o = is_some (h.clp.help o) ≡ true → length (option_text l o) ≤ w

greater-left : (a b : ℕ) → a ≤ greater a b
greater-left a b = ground arith

option_width-first :
    (h : Help) (l : Bool) (o : ClpOption) (os : List ClpOption) (w : ℕ)
    → Fits h l (option_width h l (o ∷ os) w) o
unfolding option_width
option_width-first h l o os w e =
    let first = greater (argname_len o.argname + longopt_len l o.longopt) w in
    let text = length-option_text l o in
    let left = greater-left (argname_len o.argname + longopt_len l o.longopt) w in
    let grows = option_width-grows h l os first in rw e (omega arith)

-- The texts of the options that clp_help prints are of at most the width that it computes, which its
-- buffer has eight bytes more than.
pub option_width-Fits :
    (h : Help) (l : Bool) (os : List ClpOption) (w : ℕ) → All (Fits h l (option_width h l os w)) os
unfolding option_width
option_width-Fits h l [] w = tt
option_width-Fits h l (o ∷ os) w = (option_width-first h l o os w, option_width-Fits h l os _)
