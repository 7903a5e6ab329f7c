-- ===== src/Examples/Parsing.antt =====
-- clp.c: whole parses of a command line.
use nct.Base.{
  All, ℕ, ◌+◌, ◌≤◌, ◌≡◌, refl, true, false, none, some, Option, List, [], ◌∷◌, arith, length, drop,
  ◌++◌,
}
use nct.Clp.Chars.{contains}
use nct.Clp.Options.{ClpOption, find_in, clp_find, clp_given, clp_excludes, clp_excludes2}
use nct.Clp.Posparam.{Posparam, clp_trim, skip_spaces}
use nct.Clp.OptString.{
  clp_optopt_valid, optstring, optstring_loop, optstring_room, longopts_room, reset_option,
  optstring-fits,
}
use nct.Clp.OptString.Flags.{FlagsFrom, optstring-FlagsFrom}
use nct.Clp.OptString.Lookup.{reading, arg_of, optstring-clp_find}
use nct.Clp.Parse.{
  Rc, fine, refuses, Event, missing, opt, Getopt, Hooks, ParseState, clp_parsev, clp_parsev_impl,
  reset, event_loop, on_event, accept_option, note_given, note_option, after_loop, and_then, goes,
  returns, convert_loop,
}
use nct.Clp.Macros.{table_of}
use nct.Clp.Usage.{codes}
use nct.Clp.Actions.{
  clp_get_tmpl, clp_given_dst, clp_version, clp_action_subcmd, parse_subcmd, convert_loop-subcmd,
}
use nct.Main.Alone.{main_table, NoOther, tables-NoOther}
use nct.Main.Tables.{main_optionv}
use nct.Clp.Parse.Exclusion.{Compatible, clp_parsev-Compatible}

-- x excludes y; y has an argument.
abbrev opt_x : ClpOption
opt_x = record {
  place = 0;
  optopt = b'x';
  argname = none;
  longopt = some (b'a' ∷ b'l' ∷ b'l' ∷ []);
  no_arg = true;
  excludes = some (b'y' ∷ []);
  paramv = none;
  given = 7;
  longidx = none;
  optarg = none;
}

abbrev opt_y : ClpOption
opt_y = record opt_x {
  place = 1;
  optopt = b'y';
  argname = some (b'n' ∷ []);
  longopt = none;
  no_arg = false;
  excludes = none;
}

-- The after function of x counts, and y takes only empty arguments.
abbrev refuse_nonempty : Option (List ℕ) → ℕ → Rc × ℕ
refuse_nonempty none a = (fine, a)
refuse_nonempty (some []) a = (fine, a)
refuse_nonempty (some (c ∷ s)) a = (refuses 65, a)

abbrev count : ℕ → Rc × ℕ
count a = (fine, a + 1)

abbrev hooks : Hooks ℕ
hooks = record {
  opt_cvt = λ o. some refuse_nonempty;
  opt_action = λ o. none;
  opt_after = λ o. some count;
  param_cvt = λ p. none;
  param_action = λ p. none;
  param_after = λ p. none;
}

abbrev before : ParseState ℕ
before = record {
  options = opt_x ∷ opt_y ∷ [];
  params = λ p. [];
  active = none;
  afters = [];
  app = 40;
}

-- Memory that malloc() returns.
abbrev heap : ℕ → Option ℕ
heap i = some 12345

-- getopt_long() that returns the given events.
abbrev scripted : List Event → Getopt
scripted events str longopts argv = (events, [])

parses :
    ((clp_parsev hooks
        (some heap)
        (scripted (opt b'x' none none ∷ opt b'x' none none ∷ []))
        ((b'p' ∷ []) ∷ [])
        none
        before).0
      ≡ 0)
    × ((clp_parsev hooks
          (some heap)
          (scripted (opt b'x' none none ∷ opt b'x' none none ∷ []))
          ((b'p' ∷ []) ∷ [])
          none
          before).1.app
        ≡ 41)
    × ((clp_parsev hooks
          (some heap)
          (scripted (opt b'x' none none ∷ opt b'y' (some []) none ∷ []))
          ((b'p' ∷ []) ∷ [])
          none
          before).0
        ≡ 64)
    × ((clp_parsev hooks
          (some heap)
          (scripted (opt b'y' (some (1 ∷ [])) none ∷ []))
          ((b'p' ∷ []) ∷ [])
          none
          before).0
        ≡ 65)
    × ((clp_parsev hooks (some heap) (scripted (missing ∷ [])) ((b'p' ∷ []) ∷ []) none before).0
        ≡ 64)
    × ((clp_parsev hooks
          (some heap)
          (scripted (opt b'z' none none ∷ []))
          ((b'p' ∷ []) ∷ [])
          none
          before).0
        ≡ 70)
unfolding clp_parsev clp_parsev_impl reset event_loop on_event accept_option note_given note_option
    after_loop reset_option clp_trim skip_spaces find_in clp_find clp_excludes clp_excludes2
    contains
parses = (refl, refl, refl, refl, refl, refl)

clp_parsev-Compatible_example :
    Compatible
      (clp_parsev hooks
        (some heap)
        (scripted (opt b'x' none none ∷ opt b'y' (some []) none ∷ []))
        ((b'p' ∷ []) ∷ [])
        none
        before).1.options
clp_parsev-Compatible_example =
    clp_parsev-Compatible hooks (some heap)
      (scripted (opt b'x' none none ∷ opt b'y' (some []) none ∷ [])) (b'p' ∷ []) [] none before

optstring_run :
    (optstring heap (opt_x ∷ opt_y ∷ opt_x ∷ [])).0
    ≡ b'+' ∷ b':' ∷ b'x' ∷ b'y' ∷ b':' ∷ b'W' ∷ b';' ∷ []
unfolding optstring optstring_loop clp_optopt_valid contains
optstring_run = refl

optstring-fits_example :
    (length (optstring heap (opt_x ∷ opt_y ∷ opt_x ∷ [])).0 + 1 ≤ optstring_room 3)
    × (length (optstring heap (opt_x ∷ opt_y ∷ opt_x ∷ [])).1 + 1 ≤ longopts_room 3)
optstring-fits_example = optstring-fits heap (opt_x ∷ opt_y ∷ opt_x ∷ [])

optstring-clp_find_example :
    reading b'y' (drop 2 (optstring heap (opt_x ∷ opt_y ∷ [])).0)
    ≡ arg_of (clp_find b'y' (some (opt_x ∷ opt_y ∷ [])))
unfolding clp_optopt_valid contains
optstring-clp_find_example =
    optstring-clp_find heap (opt_x ∷ opt_y ∷ []) b'y' refl (omega arith) (omega arith)

flags_of_two :
    FlagsFrom heap 0 (optstring heap (opt_x ∷ record opt_y { longopt = some (b'n' ∷ []) } ∷ [])).1
flags_of_two = optstring-FlagsFrom heap (opt_x ∷ record opt_y { longopt = some (b'n' ∷ []) } ∷ [])

-- The main table, before a parse.
abbrev main_before : ParseState ℕ
main_before = record before { options = table_of 0 main_optionv }

abbrev help_and_verbosity : Getopt
help_and_verbosity = scripted (opt b'h' none none ∷ opt b'v' none none ∷ [])

tables-NoOther_example :
    All
      (NoOther
        (clp_parsev hooks (some heap) help_and_verbosity ([] ∷ []) none main_before).1.options)
      (clp_parsev hooks (some heap) help_and_verbosity ([] ∷ []) none main_before).1.options
tables-NoOther_example =
    tables-NoOther main_table hooks (some heap) help_and_verbosity [] [] none main_before refl

-- A parameter with the arguments `add` and `7`, whose subcommand wants no argument for `-y` but gets one.
abbrev verb : Posparam
verb = record {
  name = codes "verb";
  cvtsubcmd = true;
  has_subcmds = true;
  posmin = 1;
  posmax = 1;
  argc = 2;
  argv = codes "add" ∷ codes "7" ∷ [];
}

abbrev enter : ℕ → Option ℕ × ParseState ℕ
enter a = (none, record before { app = a })

abbrev leave : ParseState ℕ → ℕ
leave s = s.app

abbrev one_y : Getopt
one_y = scripted (opt b'y' (some (codes "7")) none ∷ [])

abbrev with_subcmds : Hooks ℕ
with_subcmds = record hooks {
  param_cvt = λ p. some (λ name a. (fine, a + 2));
  param_action = λ p. some (clp_action_subcmd hooks (some heap) one_y enter leave p);
}

subcmd_run : (clp_action_subcmd hooks (some heap) one_y enter leave verb 42) ≡ (refuses 65, 42)
unfolding clp_action_subcmd clp_parsev clp_parsev_impl reset event_loop on_event accept_option
    note_given note_option reset_option clp_trim skip_spaces find_in clp_find clp_excludes
    clp_excludes2 contains
subcmd_run = refl

convert_loop-subcmd_example :
    and_then (convert_loop with_subcmds (verb ∷ []) before) goes
    ≡ returns
        (parse_subcmd hooks (some heap) one_y enter leave verb 42).0
        (record before { app = (parse_subcmd hooks (some heap) one_y enter leave verb 42).1 })
convert_loop-subcmd_example =
    convert_loop-subcmd hooks (some heap) one_y enter leave with_subcmds verb [] (codes "add")
      (codes "7" ∷ []) 42 before goes refl refl refl

-- `-y` was given, and its value is read from `cvtdstbuf`; `-x` was not.
getters :
    (clp_given_dst {B = ℕ}
        (some (λ o. clp_get_tmpl (record { cvtdst = none; cvtdstbuf = 7 })))
        b'y'
        (some (opt_x ∷ record opt_y { given = 1 } ∷ []))
        5
      ≡ (some (record opt_y { given = 1 }), 7))
    × (clp_given_dst {B = ℕ} (some (λ o. 7)) b'x' (some (record opt_x { given = 0 } ∷ [])) 5
        ≡ (none, 5))
    × (clp_version (codes "1.0") ≡ codes "1.0" ++ b'\n' ∷ [])
unfolding clp_given_dst clp_given clp_find find_in
getters = (refl, refl, refl)
