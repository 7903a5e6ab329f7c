-- ===== src/Examples/Usage.antt =====
-- clp.c: the usage and help messages of small tables, and the theorems of Clp/Usage and Clp/Help.
use nct.Base.{ℕ, ◌≡◌, refl, true, false, none, some, List, [], ◌∷◌, ◌++◌, All}
use nct.Base.Decimal.{spaces}
use nct.Clp.Chars.{contains}
use nct.Clp.Options.{ClpOption, find_in, clp_find, clp_excludes, clp_excludes2}
use nct.Clp.Posparam.{Posparam, clp_unbracket, open_brackets, to_bracket, trim_end}
use nct.Clp.OptString.{clp_optopt_valid}
use nct.Clp.Usage.{
  Clp, codes, clp_usage, usage_line, list_letters, is_listed, place_letter, exclusive_with,
  exclusive_lists, free_duplicates, excludes_others, all_exclude, exclusive_strings, print_optargs,
  print_choices, print_strings, print_params, closing,
}
use nct.Clp.Usage.Lists.{AllPairs, exclusive_strings-AllPairs}
use nct.Clp.Help.{
  Help, option_width, param_width, subcmd_width, vector_widths, all_widths, subcmd_names,
  subcmd_lines, param_lines, vector_lines, all_lines,
}
use nct.Clp.Help.Widths.{Fits, option_width-Fits}

abbrev plain : ClpOption
plain = record {
  place = 0;
  optopt = b'v';
  argname = none;
  longopt = none;
  no_arg = true;
  excludes = none;
  paramv = none;
  given = 0;
  longidx = none;
  optarg = none;
}

abbrev option_j : ClpOption
option_j = record plain {
  place = 1;
  optopt = b'j';
  argname = some (codes "jobs");
  longopt = some (codes "jobs");
}

abbrev excluding : ℕ → ℕ → List ℕ → ClpOption
excluding at letter others = record plain { place = at; optopt = letter; excludes = some others }

abbrev option_c : ClpOption
option_c = excluding 2 b'c' (codes "d")

abbrev option_d : ClpOption
option_d = record plain { place = 3; optopt = b'd' }

abbrev table : List ClpOption
table = plain ∷ option_j ∷ option_c ∷ option_d ∷ []

abbrev param : List ℕ → Posparam
param s = record {
  name = s;
  cvtsubcmd = false;
  has_subcmds = false;
  posmin = 1;
  posmax = 1;
  argc = 0;
  argv = [];
}

abbrev prog : Clp
prog = record {
  basename = codes "p";
  optionv = table;
  paramv = some 0;
  params_at = λ k. param (codes "src") ∷ param (codes "[dst") ∷ param (codes "[n]]") ∷ [];
  help = λ o. some (codes "H");
  sort = λ s. s;
}

usage_run :
    clp_usage prog none ≡ codes "usage: p [-v] [-j jobs] [-c | -d] src [dst [n]]" ++ b'\n' ∷ []
unfolding clp_usage usage_line list_letters is_listed place_letter exclusive_with exclusive_lists
    free_duplicates excludes_others all_exclude exclusive_strings print_optargs print_choices
    print_strings print_params closing clp_unbracket open_brackets to_bracket trim_end find_in
    clp_find clp_excludes clp_excludes2 clp_optopt_valid contains
usage_run = refl

abbrev pairs : List ℕ
pairs = b'c' ∷ b'd' ∷ []

pairs-AllPairs : AllPairs table pairs
unfolding clp_find find_in clp_excludes2 contains
pairs-AllPairs = ((refl, tt), (tt, tt))

exclusive_strings-AllPairs_example :
    exclusive_strings table (b'c' ∷ b'd' ∷ []) ≡ some pairs ∷ none ∷ []
exclusive_strings-AllPairs_example =
    exclusive_strings-AllPairs table b'c' (b'd' ∷ []) pairs-AllPairs

-- Four options, each excluding the next one around: no two that exclude each other are printed.
abbrev around : List ClpOption
around =
    excluding 0 b'a' (codes "b")
    ∷ excluding 1 b'b' (codes "c")
    ∷ excluding 2 b'c' (codes "d")
    ∷ excluding 3 b'd' (codes "a")
    ∷ []

around_run : exclusive_strings around (codes "abcd") ≡ none ∷ none ∷ none ∷ none ∷ []
unfolding exclusive_strings exclusive_with exclusive_lists free_duplicates excludes_others
    all_exclude find_in clp_find clp_excludes2 contains
around_run = refl

-- A parameter with two subcommands and no help text of its own.
abbrev helped : Help
helped = record {
  clp = prog;
  qsort = λ cmp os. os;
  vectors = (param (codes "verb") ∷ []) ∷ [];
  param_help = λ p. none;
  subcmds = λ p.
      record { name = codes "add"; help = some (codes "A") }
      ∷ record { name = codes "remove"; help = none }
      ∷ [];
  junk = λ p. 2;
}

-- The name of that parameter is not printed, and its subcommands are set in a column of 2.
help_run :
    all_lines helped helped.vectors 0 2
    ≡ codes "  one of {add}" ++ b'\n' ∷ codes "  add  A" ++ b'\n' ∷ []
unfolding all_lines vector_lines param_lines subcmd_names subcmd_lines spaces clp_unbracket
    open_brackets to_bracket trim_end
help_run = refl

widths_run : all_widths helped helped.vectors (0, 0) ≡ (0, 2)
unfolding all_widths vector_widths param_width subcmd_width
widths_run = refl

widths_fit : All (Fits helped true (option_width helped true table 0)) table
widths_fit = option_width-Fits helped true table 0
