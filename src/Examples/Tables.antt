-- ===== src/Examples/Tables.antt =====
-- main.c: the usage lines of the program's tables, and the theorem of Clp/Macros at a concrete input.
use nct.Base.{if◌then◌else◌, ℕ, ◌≡◌, refl, none, List, [], ◌∷◌, ◌++◌}
use nct.Clp.Chars.{contains}
use nct.Clp.Options.{find_in, clp_find, clp_excludes, clp_excludes2}
use nct.Clp.OptString.{clp_optopt_valid, reset_option}
use nct.Clp.Posparam.{clp_unbracket, open_brackets, to_bracket, trim_end, clp_trim, skip_spaces}
use nct.Clp.Usage.{
  codes, clp_string_cmp, clp_usage, usage_line, list_letters, is_listed, place_letter,
  exclusive_with, exclusive_lists, free_duplicates, excludes_others, all_exclude, exclusive_strings,
  print_optargs, print_choices, print_strings, print_params, closing,
}
use nct.Clp.Macros.{table_of, help_at}
use nct.Main.Tables.{clp_of, main_optionv, main_posparamv, test_optionv, read_posparamv}

-- A sort by clp_string_cmp().
abbrev put_letter : ℕ → List ℕ → List ℕ
put_letter c [] = c ∷ []
put_letter c (d ∷ ds) =
    let rest = put_letter c ds in if clp_string_cmp c d then c ∷ d ∷ ds else d ∷ rest

abbrev by_letter : List ℕ → List ℕ
by_letter [] = []
by_letter (c ∷ cs) = put_letter c (by_letter cs)

usage_main :
    clp_usage (clp_of by_letter (codes "nct") main_optionv main_posparamv) none
    ≡ codes "usage: nct [-v] [-d duration] [-j jobs_max] [-m mark] [-o outdir] [-p port]"
      ++ codes " [-T term] [-t tds_max] command [args...]\n"
unfolding clp_usage usage_line list_letters is_listed place_letter exclusive_with exclusive_lists
    free_duplicates excludes_others all_exclude exclusive_strings print_optargs print_choices
    print_strings print_params closing clp_unbracket open_brackets to_bracket trim_end find_in
    clp_find clp_excludes clp_excludes2 clp_optopt_valid contains clp_of table_of help_at
    reset_option clp_trim skip_spaces
usage_main = refl

usage_read :
    clp_usage (clp_of by_letter (codes "read") test_optionv read_posparamv) none
    ≡ codes "usage: read [-v] rhostpath [length]\n"
unfolding clp_usage usage_line list_letters is_listed place_letter exclusive_with exclusive_lists
    free_duplicates excludes_others all_exclude exclusive_strings print_optargs print_choices
    print_strings print_params closing clp_unbracket open_brackets to_bracket trim_end find_in
    clp_find clp_excludes clp_excludes2 clp_optopt_valid contains clp_of table_of help_at
    reset_option clp_trim skip_spaces
usage_read = refl
