-- ===== src/Examples/CommandLine.antt =====
-- clp.c: tests, and the theorems of Clp at concrete inputs.
use nct.Base.{false}
use nct.Clp.Chars.{contains}
use nct.Clp.Options.{
  ClpOption, clp_excludes, clp_excludes2, clp_given, clp_find, find_in, clp_cvt_subcmd,
  clp_cvt_subcmd-only, candidates, starts_with, ambiguous,
}
use nct.Clp.Posparam.{
  Posparam, clp_unbracket, open_brackets, to_bracket, trim_end, clp_trim, skip_spaces,
  clp_posparam_minmax, sized, place_arguments, placed,
}
use nct.Clp.Posparam.Distribution.{given_args, place_arguments-given_args}
use nct.Base.{ℕ, ◌+◌, ◌≤◌, ◌≡◌, refl, true, none, some, List, [], ◌∷◌, map, arith, length}
use nct.Clp.BreakArgs.{
  args, fails, ex_dataerr, clp_breakargs, lex, finish, on_byte, on_plain, on_escaped, on_octal,
  unescape, at_delim, add_digit,
}
use nct.Clp.Usage.{codes}
use nct.Clp.BreakArgs.Bounds.{stored, clp_breakargs-Fits}
use nct.Clp.BreakArgs.RoundTrip.{line, clp_breakargs-quoted, clp_breakargs-delimited}

-- The example in the comment of clp_breakargs.
documented :
    clp_breakargs true (some (codes ":one\\, two,, , \"four,five\" :")) (some (codes ",:"))
    ≡ args (map codes ("" ∷ "one, two" ∷ "" ∷ " " ∷ " four,five " ∷ "" ∷ []))
unfolding clp_breakargs lex finish on_byte on_plain on_escaped unescape at_delim contains
documented = refl

octal_escape :
    clp_breakargs true (some (codes "a\\101b \\8")) none ≡ args (codes "aAb" ∷ (0 ∷ b'8' ∷ []) ∷ [])
unfolding clp_breakargs lex finish on_byte on_plain on_escaped on_octal at_delim add_digit
octal_escape = refl

open_quote : clp_breakargs true (some (codes "a 'b")) none ≡ fails ex_dataerr
unfolding clp_breakargs lex finish on_byte on_plain at_delim
open_quote = refl

clp_breakargs-Fits_example :
    (stored (codes "ab" ∷ codes "c" ∷ []) ≤ 4 + 1)
    × (length (codes "ab" ∷ codes "c" ∷ []) + 1 ≤ 4 + 2)
unfolding clp_breakargs lex finish on_byte on_plain at_delim
clp_breakargs-Fits_example =
    clp_breakargs-Fits (codes "ab c") none (codes "ab" ∷ codes "c" ∷ []) refl

clp_breakargs-quoted_example :
    clp_breakargs true (some (line b' ' (codes "a \"b" ∷ codes "c" ∷ []))) none
    ≡ args (codes "a \"b" ∷ codes "c" ∷ [])
clp_breakargs-quoted_example =
    clp_breakargs-quoted (codes "a \"b") (codes "c" ∷ []) (λ e. cc, (λ e. cc, tt))

clp_breakargs-delimited_example :
    clp_breakargs true (some (line b',' (codes "a,b" ∷ [] ∷ []))) (some (codes ",:"))
    ≡ args (codes "a,b" ∷ [] ∷ [])
unfolding contains
clp_breakargs-delimited_example =
    clp_breakargs-delimited (codes ",:") b',' (codes "a,b") ([] ∷ []) refl (omega arith)
      (omega arith) (omega arith)

-- `^ab` of x excludes all but a and b; c lists nothing itself.
abbrev opt_x : ClpOption
opt_x = record {
  place = 0;
  optopt = b'x';
  argname = none;
  longopt = some (codes "exclusive");
  no_arg = true;
  excludes = some (b'^' ∷ b'a' ∷ b'b' ∷ []);
  paramv = none;
  given = 1;
  longidx = none;
  optarg = none;
}

abbrev opt_c : ClpOption
opt_c = record opt_x { place = 1; optopt = b'c'; excludes = none; given = 2 }

abbrev opt_a : ClpOption
opt_a = record opt_x { place = 2; optopt = b'a'; excludes = none; given = 1 }

options_run :
    (clp_excludes (opt_x ∷ opt_a ∷ opt_c ∷ []) (some opt_x) 1 ≡ some opt_c)
    × (clp_given b'a' (some (opt_x ∷ opt_a ∷ [])) ≡ some opt_a)
    × (clp_given b'z' (some (opt_x ∷ opt_a ∷ [])) ≡ none)
unfolding clp_excludes clp_excludes2 clp_given clp_find find_in contains
options_run = (refl, refl, refl)

-- `get` and `getattr` both start with `g`, and with `get`.
clp_cvt_subcmd-only_example :
    clp_cvt_subcmd (some ((b'g' ∷ b'e' ∷ []) ∷ (b'g' ∷ b'e' ∷ b't' ∷ []) ∷ [])) (b'g' ∷ b'e' ∷ [])
    ≡ ambiguous
unfolding candidates starts_with
clp_cvt_subcmd-only_example =
    clp_cvt_subcmd-only ((b'g' ∷ b'e' ∷ []) ∷ (b'g' ∷ b'e' ∷ b't' ∷ []) ∷ []) (b'g' ∷ b'e' ∷ [])

abbrev param : List ℕ → Posparam
param name = record {
  name = name;
  cvtsubcmd = false;
  has_subcmds = false;
  posmin = 0;
  posmax = 0;
  argc = 0;
  argv = [];
}

-- `src...` and `[dst]`
abbrev params : List Posparam
params = param (b's' ∷ b'.' ∷ b'.' ∷ b'.' ∷ []) ∷ param (b'[' ∷ b'd' ∷ b' ' ∷ b']' ∷ []) ∷ []

abbrev three : List (List ℕ)
three = (1 ∷ []) ∷ (2 ∷ []) ∷ (3 ∷ []) ∷ []

names_run :
    (clp_unbracket (b'[' ∷ b'd' ∷ b' ' ∷ b']' ∷ []) 128 ≡ (1, b'd' ∷ []))
    × (clp_trim (some (b' ' ∷ b'\t' ∷ [])) ≡ none)
    × ((clp_posparam_minmax params).1 ≡ (1, 1025))
unfolding clp_unbracket open_brackets to_bracket trim_end clp_trim skip_spaces clp_posparam_minmax
    sized
names_run = (refl, refl, refl)

place_arguments-given_args_example :
    (qs : List Posparam) × (place_arguments three params ≡ placed qs []) × (given_args qs ≡ three)
unfolding clp_unbracket open_brackets to_bracket trim_end clp_posparam_minmax sized
place_arguments-given_args_example =
    place_arguments-given_args params three (refl, (refl, tt)) (omega arith) (omega arith)
