-- ===== src/Clp/Usage.antt =====
-- clp_usage of clp.c: the usage line, as the bytes that it prints.
--
-- qsort() is an argument, and so is the help text of an option. A null pointer behind %s is
-- printed as `(null)`. A string in the vector of exclusive options is none once it is freed.
pub mod Brackets
pub mod Lists
use Prim.Native.Char.{code}
use Prim.Native.String.{String}
use nct.Base.{
  ℕ, zero, suc, ◌+◌, Bool, true, false, not, ◌&&◌, ◌||◌, Option, none, some, List, [], ◌∷◌, ◌++◌,
  map, ltb, ◌==◌, if◌then◌else◌, length,
}
use nct.Clp.Chars.{strchr, tolower, is_upper}
use nct.Clp.Options.{ClpOption, clp_find, clp_excludes, clp_excludes2, differ}
use nct.Clp.Posparam.{Posparam, clp_unbracket}
use nct.Clp.OptString.{clp_optopt_valid, is_some}
use nct.Clp.Parse.{prefer}

-- The bytes of a text.
abbrev pub codes : String → List ℕ
codes String.[] = []
codes (String.◌∷◌ c s) = code c ∷ codes s

-- struct clp, as far as clp_usage reads it.
pub record Clp : Type 0 where
  pub basename : List ℕ
  pub optionv : List ClpOption
  pub paramv : Option ℕ
  pub params_at : ℕ → List Posparam
  pub help : ClpOption → Option (List ℕ)
  pub sort : List ℕ → List ℕ

-- `clp_string_cmp(l, r) < 0`
abbrev pub clp_string_cmp : ℕ → ℕ → Bool
clp_string_cmp l r = if tolower l == tolower r then is_upper l else ltb (tolower l) (tolower r)

-- excludes_buf, optarg_buf and opt_buf.
pub record Letters : Type 0 where
  pub excludes : List ℕ
  pub optarg : List ℕ
  pub opt : List ℕ

abbrev pub same_option : Option ClpOption → ClpOption → Bool
same_option none o = false
same_option (some l) o = l.place == o.place

-- `x && x->paramv == o->paramv`
abbrev pub same_paramv : Option ℕ → Option ℕ → Bool
same_paramv none none = true
same_paramv (some p) none = false
same_paramv none (some q) = false
same_paramv (some p) (some q) = p == q

abbrev pub shares_params : Option ClpOption → ClpOption → Bool
shares_params none o = false
shares_params (some x) o = same_paramv x.paramv o.paramv

-- The option is passed over: it is excluded by `limit`, or has parameters of its own.
abbrev pub passed_over : Option ClpOption → ClpOption → Bool
passed_over none o = is_some o.paramv
passed_over (some l) o = clp_excludes2 (some l) (some o)

-- The option has a place in one of the lists.
unfoldable pub is_listed : Clp → Option ClpOption → ClpOption → Bool
is_listed clp limit o =
    clp_optopt_valid o.optopt
    && (not (passed_over limit o) && (not (same_option limit o) && is_some (clp.help o)))

-- The list that it goes to.
unfoldable pub place_letter : Clp → ClpOption → Letters → Letters
place_letter clp o b =
    if is_some o.excludes || shares_params (clp_excludes clp.optionv (some o) 0) o
    then record b { excludes = b.excludes ++ o.optopt ∷ [] }
    else if is_some o.argname
    then record b { optarg = b.optarg ++ o.optopt ∷ [] }
    else record b { opt = b.opt ++ o.optopt ∷ [] }

-- The loop over the options.
unfoldable pub list_letters : Clp → Option ClpOption → List ClpOption → Letters → Letters
list_letters clp limit [] b = b
list_letters clp limit (o ∷ os) b =
    list_letters clp limit os (if is_listed clp limit o then place_letter clp o b else b)

-- The options with two letters exclude each other.
abbrev pub letters_exclude : List ClpOption → ℕ → ℕ → Bool
letters_exclude os c d = clp_excludes2 (clp_find c (some os)) (clp_find d (some os))

-- The string for the letter `c` at the place `i` of excludes_buf, from the place `j` on.
unfoldable pub exclusive_with : List ClpOption → ℕ → ℕ → ℕ → List ℕ → List ℕ
exclusive_with os i c j [] = []
exclusive_with os i c j (d ∷ ds) =
    let rest = exclusive_with os i c (j + 1) ds in
    if i == j || letters_exclude os c d then d ∷ rest else rest

-- listv
unfoldable pub exclusive_lists : List ClpOption → List ℕ → ℕ → List ℕ → List (Option (List ℕ))
exclusive_lists os buf i [] = []
exclusive_lists os buf i (c ∷ cs) =
    some (exclusive_with os i c 0 buf) ∷ exclusive_lists os buf (i + 1) cs

abbrev pub eq_letters : List ℕ → List ℕ → Bool
eq_letters [] [] = true
eq_letters [] (y ∷ ys) = false
eq_letters (x ∷ xs) [] = false
eq_letters (x ∷ xs) (y ∷ ys) = x == y && eq_letters xs ys

-- `if (listv[i] && listv[j] && 0 == strcmp(listv[i], listv[j])) listv[j] = NULL;`
abbrev pub free_equal : Option (List ℕ) → Option (List ℕ) → Option (List ℕ)
free_equal none y = y
free_equal (some x) none = none
free_equal (some x) (some y) = if eq_letters x y then none else some y

-- The elimination of duplicates, for a vector of `n` strings.
unfoldable pub free_duplicates : ℕ → List (Option (List ℕ)) → List (Option (List ℕ))
free_duplicates zero xs = xs
free_duplicates (suc n) [] = []
free_duplicates (suc n) (x ∷ xs) = x ∷ free_duplicates n (map (free_equal x) xs)

-- The letter `c` at the place `i` excludes all others of a string, from the place `j` on.
unfoldable pub excludes_others : List ClpOption → ℕ → ℕ → ℕ → List ℕ → Bool
excludes_others os i c j [] = true
excludes_others os i c j (d ∷ ds) =
    (i == j || letters_exclude os c d) && excludes_others os i c (j + 1) ds

unfoldable pub all_exclude : List ClpOption → List ℕ → ℕ → List ℕ → Bool
all_exclude os whole i [] = true
all_exclude os whole i (c ∷ cs) = excludes_others os i c 0 whole && all_exclude os whole (i + 1) cs

-- A string is freed if two of its options do not exclude each other.
abbrev pub free_compatible : List ClpOption → Option (List ℕ) → Option (List ℕ)
free_compatible os none = none
free_compatible os (some s) = if all_exclude os s 0 s then some s else none

-- The strings that are printed.
unfoldable pub exclusive_strings : List ClpOption → List ℕ → List (Option (List ℕ))
exclusive_strings os buf =
    let listv = exclusive_lists os buf 0 buf in
    map (free_compatible os) (free_duplicates (length listv) listv)

abbrev pub text_or_null : Option (List ℕ) → List ℕ
text_or_null none = codes "(null)"
text_or_null (some s) = s

-- `-%c %s`, for the letter that was looked up.
abbrev pub print_optarg : Option ClpOption → List ℕ
print_optarg none = []
print_optarg (some o) = codes " [-" ++ o.optopt ∷ codes " " ++ text_or_null o.argname ++ codes "]"

unfoldable pub print_optargs : List ClpOption → List ℕ → List ℕ
print_optargs os [] = []
print_optargs os (c ∷ cs) = print_optarg (clp_find c (some os)) ++ print_optargs os cs

-- `-%c %s` or `-%c`.
abbrev pub print_choice : ℕ → Option ClpOption → List ℕ
print_choice c none = []
print_choice c (some o) =
    codes "-" ++ c ∷ (if is_some o.argname then codes " " ++ text_or_null o.argname else [])

unfoldable pub print_choices : List ClpOption → List ℕ → List ℕ → List ℕ
print_choices os bar [] = codes "]"
print_choices os bar (c ∷ cs) =
    bar ++ print_choice c (clp_find c (some os)) ++ print_choices os (codes " | ") cs

abbrev pub print_string : List ClpOption → Option (List ℕ) → List ℕ
print_string os none = []
print_string os (some s) = print_choices os (codes " [") s

unfoldable pub print_strings : List ClpOption → List (Option (List ℕ)) → List ℕ
print_strings os [] = []
print_strings os (s ∷ ss) = print_string os s ++ print_strings os ss

-- `n` closing brackets.
unfoldable pub closing : ℕ → List ℕ
closing zero = []
closing (suc n) = b']' ∷ closing n

abbrev pub is_optional : Posparam → Bool
is_optional p = ltb 0 (clp_unbracket p.name 128).0

abbrev pub next_optional : List Posparam → Bool
next_optional [] = false
next_optional (p ∷ ps) = is_optional p

abbrev pub opening : Bool → List ℕ
opening b = if b then codes " [" else codes " "

abbrev pub count_optional : Bool → ℕ → ℕ
count_optional b n = if b then n + 1 else n

-- The positional parameters, with `noptional` brackets open.
unfoldable pub print_params : ℕ → List Posparam → List ℕ
print_params noptional [] = []
print_params noptional (p ∷ ps) =
    let n = count_optional (is_optional p) noptional in
    let open_more = print_params n ps in
    let close_all = closing n ++ print_params 0 ps in
    opening (is_optional p)
    ++ (clp_unbracket p.name 128).1
    ++ (if next_optional ps then open_more else close_all)

abbrev pub print_paramv : Clp → Option ℕ → List ℕ
print_paramv clp none = codes " [args...]"
print_paramv clp (some p) = print_params 0 (clp.params_at p)

abbrev pub print_limit : Option ClpOption → List ℕ
print_limit none = []
print_limit (some l) = codes " -" ++ l.optopt ∷ []

abbrev pub print_bools : List ℕ → List ℕ
print_bools [] = []
print_bools (c ∷ cs) = codes " [-" ++ (c ∷ cs) ++ codes "]"

abbrev pub first_byte : List ℕ → ℕ
first_byte [] = 0
first_byte (c ∷ s) = c

-- `limit->excludes && strchr("*^", limit->excludes[0])`
abbrev pub excludes_all : Option (List ℕ) → Bool
excludes_all none = false
excludes_all (some s) = strchr (b'*' ∷ b'^' ∷ []) (first_byte s)

unfoldable pub usage_line : Clp → Option ClpOption → Option ℕ → List ℕ
usage_line clp limit paramv =
    let b = list_letters clp limit clp.optionv (record { excludes = []; optarg = []; opt = [] }) in
    codes "usage: "
    ++ clp.basename
    ++ print_limit limit
    ++ print_bools (clp.sort b.opt)
    ++ print_optargs clp.optionv (clp.sort b.optarg)
    ++ print_strings clp.optionv (exclusive_strings clp.optionv (clp.sort b.excludes))
    ++ print_paramv clp paramv
    ++ b'\n' ∷ []

-- clp_usage
unfoldable pub clp_usage : Clp → Option ClpOption → List ℕ
clp_usage clp none = usage_line clp none clp.paramv
clp_usage clp (some l) =
    if not (excludes_all l.excludes) && not (is_some l.paramv)
    then []
    else usage_line clp (some l) (prefer l.paramv clp.paramv)
