-- ===== src/Clp/OptString.antt =====
-- The table of clp.c for getopt_long(): clp_optopt_valid, the options' reset in clp_parsev, and the
-- option string and the long options in clp_parsev_impl.
pub mod Lookup
pub mod Flags
use nct.Base.{
  ℕ, zero, suc, ◌+◌, ◌*◌, ◌≤◌, ◌≡◌, Bool, true, false, not, ◌&&◌, ◌||◌, Option, none, some, List,
  [], ◌∷◌, ◌++◌, ltb, leb, ◌==◌, if◌then◌else◌, length, length-append, Bool-cases, inl, inr, arith,
}
use nct.Clp.Chars.{contains, strchr}
use nct.Clp.Options.{ClpOption}
use nct.Clp.Posparam.{clp_trim}

-- isgraph(), in the C locale.
abbrev pub is_graph : ℕ → Bool
is_graph c = leb b'!' c && leb c b'~'

-- clp_optopt_valid
unfoldable pub clp_optopt_valid : ℕ → Bool
clp_optopt_valid c = is_graph c && not (strchr (b':' ∷ b'?' ∷ b'-' ∷ []) c)

-- struct option of getopt_long(); `has_arg` is `required_argument` or not, and a null `flag` is none.
pub record LongOpt : Type 0 where
  pub long_name : List ℕ
  pub has_arg : Bool
  pub long_val : ℕ
  pub long_flag : Option ℕ

abbrev pub is_some {ℓ} : {A : Type ℓ} → Option A → Bool
is_some none = false
is_some (some a) = true

-- `*pc++ = o->optopt; if (o->argname) *pc++ = ':';`
abbrev pub letters : ClpOption → List ℕ
letters o = if is_some o.argname then o.optopt ∷ b':' ∷ [] else o.optopt ∷ []

-- The memory that malloc() returns is not cleared. `heap` are the `flag` members in it, of which
-- the memset() in front of the loop clears the first.
abbrev pub flag_at : (ℕ → Option ℕ) → ℕ → Option ℕ
flag_at heap zero = none
flag_at heap (suc i) = heap (suc i)

abbrev pub long_of : ClpOption → Option (List ℕ) → Option ℕ → List LongOpt
long_of o none flag = []
long_of o (some name) flag =
    record { long_name = name; has_arg = is_some o.argname; long_val = o.optopt; long_flag = flag }
    ∷ []

-- The loop over the options, from the letters and the long options so far on.
unfoldable pub optstring_loop :
    (ℕ → Option ℕ) → List ClpOption → List ℕ → List LongOpt → List ℕ × List LongOpt
optstring_loop heap [] s ls = (s, ls)
optstring_loop heap (o ∷ os) s ls =
    let skipped = optstring_loop heap os s ls in
    let added =
      optstring_loop heap os (s ++ letters o)
        (ls ++ long_of o o.longopt (flag_at heap (length ls))) in
    if not (clp_optopt_valid o.optopt)
    then skipped
    else if strchr s o.optopt
    then skipped
    else added

-- `W;` for a table with long options.
abbrev pub long_marker : List LongOpt → List ℕ
long_marker [] = []
long_marker (l ∷ ls) = b'W' ∷ b';' ∷ []

-- clp->optstring, without its NUL, and clp->longopts, without its last, empty element.
unfoldable pub optstring : (ℕ → Option ℕ) → List ClpOption → List ℕ × List LongOpt
optstring heap os =
    let (s, ls) = optstring_loop heap os [] [] in (b'+' ∷ b':' ∷ s ++ long_marker ls, ls)

-- The room that clp_parsev allocates for `optionc` options: bytes of the string, and long options.
abbrev pub optstring_room : ℕ → ℕ
optstring_room optionc = optionc * 2 + 8

abbrev pub longopts_room : ℕ → ℕ
longopts_room optionc = optionc + 1

-- `!o->longopt && o->argname && strlen(o->argname) > 1`
abbrev pub long_name_of : Option (List ℕ) → Option (List ℕ) → Option (List ℕ)
long_name_of (some l) argname = some l
long_name_of none none = none
long_name_of none (some argname) = if ltb 1 (length argname) then some argname else none

-- A round of the reset in clp_parsev, without the help text and the place for converted values.
unfoldable pub reset_option : ClpOption → ClpOption
reset_option o =
    let argname = clp_trim o.argname in
    record o {
      given = 0;
      optarg = none;
      excludes = clp_trim o.excludes;
      argname = if o.no_arg then none else argname;
      longopt = if o.no_arg then o.longopt else long_name_of o.longopt argname;
    }

length-letters : (o : ClpOption) → length (letters o) ≤ 2
length-letters o = ground arith

length-long_of : (o : ClpOption) (l : Option (List ℕ)) (f : Option ℕ) → length (long_of o l f) ≤ 1
length-long_of o none f = omega arith
length-long_of o (some name) f = omega arith

abbrev Within : List ℕ × List LongOpt → ℕ → ℕ → Type 0
Within d n k = (length d.0 ≤ n) × (length d.1 ≤ k)

optstring_loop-Within :
    (heap : ℕ → Option ℕ) (os : List ClpOption) (s : List ℕ) (ls : List LongOpt) (n k : ℕ)
    → length s + length os * 2 ≤ n
    → length ls + length os ≤ k
    → Within (optstring_loop heap os s ls) n k
unfolding optstring_loop
optstring_loop-Within heap [] s ls n k a b = (omega arith, omega arith)
optstring_loop-Within heap (o ∷ os) s ls n k a b =
    let skipped = optstring_loop-Within heap os s ls n k (omega arith) (omega arith) in
    let added =
      optstring_loop-Within heap os (s ++ letters o)
        (ls ++ long_of o o.longopt (flag_at heap (length ls))) n k
        (omega (arith, length-append s (letters o), length-letters o))
        (omega (
          arith,
          length-append ls (long_of o o.longopt (flag_at heap (length ls))),
          length-long_of o o.longopt (flag_at heap (length ls)),
        )) in
    elim (Bool-cases (not (clp_optopt_valid o.optopt))) [
      | inl bad ↦ rw bad skipped
      | inr ok ↦ elim (Bool-cases (strchr s o.optopt)) [
        | inl dup ↦ rw (ok, dup) skipped
        | inr fresh ↦ rw (ok, fresh) added
      ]
    ]

length-long_marker : (ls : List LongOpt) → length (long_marker ls) ≤ 2
length-long_marker [] = omega arith
length-long_marker (l ∷ ls) = omega arith

-- The option string with its NUL, and the long options with their last, empty element, fit the
-- memory that clp_parsev allocates for a table of as many options.
pub optstring-fits :
    (heap : ℕ → Option ℕ) (os : List ClpOption)
    → (length (optstring heap os).0 + 1 ≤ optstring_room (length os))
      × (length (optstring heap os).1 + 1 ≤ longopts_room (length os))
unfolding optstring
optstring-fits heap os =
    let (a, b) =
      optstring_loop-Within heap os [] [] (length os * 2) (length os) (omega arith) (omega arith) in
    (
      omega (
        arith,
        a,
        length-append (optstring_loop heap os [] []).0
            (long_marker (optstring_loop heap os [] []).1),
        length-long_marker (optstring_loop heap os [] []).1,
      ),
      omega (arith, b),
    )
