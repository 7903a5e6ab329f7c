-- ===== src/Clp/Help.antt =====
-- clp_help of clp.c: the help message, as the bytes that it prints to stdout.
--
-- qsort() is an argument, as are the texts of the tables. `junk` is, for a
-- parameter, the length of what `namebuf` holds as the loop over its subcommands reads it, which
-- nothing has written.
pub mod Order
pub mod Widths
use nct.Base.{
  ℕ, zero, suc, ◌+◌, ◌-◌, Bool, true, false, ◌&&◌, Option, none, some, List, [], ◌∷◌, ◌++◌, ltb,
  if◌then◌else◌, length, ◌==◌,
}
use nct.Base.Integers.{ℤ, pos, negsuc, subℕ}
use nct.Base.Decimal.{spaces}
use nct.Clp.Chars.{tolower, is_upper}
use nct.Clp.Options.{ClpOption}
use nct.Clp.Posparam.{Posparam, clp_unbracket}
use nct.Clp.OptString.{clp_optopt_valid, is_some}
use nct.Clp.Usage.{Clp, codes, clp_usage}

-- struct clp_subcmd, as far as clp_help reads it.
pub record Subcommand : Type 0 where
  pub name : List ℕ
  pub help : Option (List ℕ)

-- The tables that clp_help reads besides those of clp_usage. `vectors` are the vectors of positional
-- parameters on the list clp->params.
pub record Help : Type 0 where
  pub clp : Clp
  pub qsort : (ClpOption → ClpOption → ℤ) → List ClpOption → List ClpOption
  pub vectors : List (List Posparam)
  pub param_help : Posparam → Option (List ℕ)
  pub subcmds : Posparam → List Subcommand
  pub junk : Posparam → ℕ

-- The options with a valid letter.
unfoldable pub valid_options : List ClpOption → List ClpOption
valid_options [] = []
valid_options (o ∷ os) =
    let rest = valid_options os in if clp_optopt_valid o.optopt then o ∷ rest else rest

-- clp_help_cmp
abbrev pub clp_help_cmp : ClpOption → ClpOption → ℤ
clp_help_cmp l r =
    let lc = tolower l.optopt in
    let rc = tolower r.optopt in
    if lc == rc then if is_upper l.optopt then negsuc 0 else pos 1 else subℕ lc rc

-- The options with a valid letter as `qsort(ov, optc, sizeof(*ov), clp_help_cmp)` orders them.
unfoldable pub listed :
    ((ClpOption → ClpOption → ℤ) → List ClpOption → List ClpOption)
    → List ClpOption
    → List ClpOption
listed qsort optionv = qsort clp_help_cmp (valid_options optionv)

-- `%-*s`
abbrev pub padded : ℕ → List ℕ → List ℕ
padded width s = s ++ spaces (width - length s)

abbrev pub argname_len : Option (List ℕ) → ℕ
argname_len none = 0
argname_len (some s) = length s + 1

abbrev pub longopt_len : Bool → Option (List ℕ) → ℕ
longopt_len longhelp none = 0
longopt_len longhelp (some s) = if longhelp then length s + 4 else 0

abbrev pub greater : ℕ → ℕ → ℕ
greater a b = if ltb b a then a else b

-- The width of the options' names, from `width` on.
unfoldable pub option_width : Help → Bool → List ClpOption → ℕ → ℕ
option_width h longhelp [] width = width
option_width h longhelp (o ∷ os) width = option_width h longhelp os (
    if is_some (h.clp.help o)
    then greater (argname_len o.argname + longopt_len longhelp o.longopt) width
    else width)

-- The usage lines of the options.
unfoldable pub option_usages : Help → List ClpOption → List ℕ
option_usages h [] = []
option_usages h (o ∷ os) =
    (if is_some (h.clp.help o) then clp_usage h.clp (some o) else []) ++ option_usages h os

abbrev pub longopt_text : Bool → Option (List ℕ) → List ℕ
longopt_text longhelp none = []
longopt_text longhelp (some s) = if longhelp then codes ", --" ++ s else []

abbrev pub argname_text : Option (List ℕ) → List ℕ
argname_text none = []
argname_text (some s) = codes " " ++ s

-- What strcat() makes in `buf`.
unfoldable pub option_text : Bool → ClpOption → List ℕ
option_text longhelp o = longopt_text longhelp o.longopt ++ argname_text o.argname

abbrev pub option_line : Bool → ℕ → ClpOption → Option (List ℕ) → List ℕ
option_line longhelp width o none = []
option_line longhelp width o (some help) =
    codes "-"
    ++ (o.optopt ∷ padded width (option_text longhelp o))
    ++ codes "  "
    ++ help
    ++ b'\n' ∷ []

unfoldable pub option_lines : Help → Bool → ℕ → List ClpOption → List ℕ
option_lines h longhelp width [] = []
option_lines h longhelp width (o ∷ os) =
    option_line longhelp width o (h.clp.help o) ++ option_lines h longhelp width os

-- The name of a parameter in a buffer of `bufsz` bytes.
abbrev pub param_name : Posparam → ℕ → List ℕ
param_name p bufsz = (clp_unbracket p.name bufsz).1

abbrev pub Widths : Type 0
Widths = ℕ × ℕ

-- A parameter in the first loop over the vectors: `width`.
unfoldable pub param_width : Help → Posparam → ℕ → ℕ
param_width h p width =
    if is_some (h.param_help p) then greater (length (param_name p (width + 128))) width else width

-- The same for `subcmd_width`, with `namelen` for each subcommand that has a help text.
unfoldable pub subcmd_width : ℕ → List Subcommand → ℕ → ℕ
subcmd_width namelen [] width = width
subcmd_width namelen (c ∷ cs) width =
    subcmd_width namelen cs (if is_some c.help then greater namelen width else width)

unfoldable pub vector_widths : Help → List Posparam → Widths → Widths
vector_widths h [] w = w
vector_widths h (p ∷ ps) (width, sub) =
    vector_widths h ps (param_width h p width, subcmd_width (h.junk p) (h.subcmds p) sub)

unfoldable pub all_widths : Help → List (List Posparam) → Widths → Widths
all_widths h [] w = w
all_widths h (v ∷ vs) w = all_widths h vs (vector_widths h v w)

abbrev pub args_line : Option ℕ → ℕ → List ℕ
args_line (some p) width = []
args_line none width =
    padded width (codes "args...")
    ++ codes "  "
    ++ codes "zero or more positional arguments"
    ++ b'\n' ∷ []

abbrev pub plain_param : ℕ → List ℕ → Option (List ℕ) → List ℕ
plain_param width name none = []
plain_param width name (some help) = padded width name ++ codes "  " ++ help ++ b'\n' ∷ []

-- The names of the subcommands with a help text, behind `comma`.
unfoldable pub subcmd_names : List ℕ → List Subcommand → List ℕ
subcmd_names comma [] = []
subcmd_names comma (c ∷ cs) =
    if is_some c.help
    then comma ++ c.name ++ subcmd_names (codes ", ") cs
    else subcmd_names comma cs

abbrev pub subcmd_line : ℕ → Subcommand → Option (List ℕ) → List ℕ
subcmd_line width c none = []
subcmd_line width c (some help) =
    codes "  " ++ padded width c.name ++ codes "  " ++ help ++ b'\n' ∷ []

unfoldable pub subcmd_lines : ℕ → List Subcommand → List ℕ
subcmd_lines width [] = []
subcmd_lines width (c ∷ cs) = subcmd_line width c c.help ++ subcmd_lines width cs

abbrev pub subcmd_head : List ℕ → Option (List ℕ) → List Subcommand → List ℕ
subcmd_head name (some help) cs = name ++ codes "  " ++ help ++ b'\n' ∷ []
subcmd_head name none cs =
    name ++ codes "  one of {" ++ subcmd_names [] cs ++ codes "}" ++ b'\n' ∷ []

-- The lines of a parameter. A parameter is one of subcommands if it has any.
abbrev pub param_with : ℕ → ℕ → List ℕ → Option (List ℕ) → List Subcommand → List ℕ
param_with width sub name help [] = plain_param width name help
param_with width sub name help (c ∷ cs) =
    subcmd_head name help (c ∷ cs) ++ subcmd_lines sub (c ∷ cs)

unfoldable pub param_lines : Help → Posparam → ℕ → ℕ → List ℕ
param_lines h p width sub =
    param_with width sub (param_name p (width + 1)) (h.param_help p) (h.subcmds p)

unfoldable pub vector_lines : Help → List Posparam → ℕ → ℕ → List ℕ
vector_lines h [] width sub = []
vector_lines h (p ∷ ps) width sub = param_lines h p width sub ++ vector_lines h ps width sub

unfoldable pub all_lines : Help → List (List Posparam) → ℕ → ℕ → List ℕ
all_lines h [] width sub = []
all_lines h (v ∷ vs) width sub = vector_lines h v width sub ++ all_lines h vs width sub

-- clp_help, for an option that the parser has given; `longhelp` says that it was given by its long
-- name.
unfoldable pub clp_help : Help → Bool → List ℕ
clp_help h longhelp =
    let os = listed h.qsort h.clp.optionv in
    let (width, sub) = all_widths h h.vectors (0, 0) in
    clp_usage h.clp none
    ++ option_usages h os
    ++ option_lines h longhelp (option_width h longhelp os 0) os
    ++ args_line h.clp.paramv width
    ++ all_lines h h.vectors width sub
