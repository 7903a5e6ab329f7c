-- ===== src/Clp/Macros.antt =====
-- The macros of clp.h that make up a table of options: CLP_OPTION, CLP_OPTION_VERBOSITY,
-- CLP_OPTION_VERSION, CLP_OPTION_HELP and CLP_POSPARAM. An option's help text stands beside it.
pub mod Alone
use Prim.Native.String.{String}
use nct.Base.{
  ℕ, zero, suc, ◌+◌, Bool, true, false, Option, none, some, List, [], ◌∷◌, map, ◌==◌, if◌then◌else◌,
}
use nct.Clp.Options.{ClpOption}
use nct.Clp.Posparam.{Posparam}
use nct.Clp.Usage.{codes}

-- An option of a table, with its help text.
pub record Entry : Type 0 where
  pub option : ClpOption
  pub help : List ℕ

-- The address of clp_posparam_none.
abbrev pub clp_posparam_none : ℕ
clp_posparam_none = 0

-- All members that an initializer leaves out are zero. The option's place is put in by `table_of`.
abbrev blank : ℕ → ClpOption
blank optopt = record {
  place = 0;
  optopt = optopt;
  argname = none;
  longopt = none;
  no_arg = false;
  excludes = none;
  paramv = none;
  given = 0;
  longidx = none;
  optarg = none;
}

-- CLP_OPTION without exclusions, for a conversion that has an argument.
abbrev pub clp_option : ℕ → String → String → Entry
clp_option optopt varname help = record {
  option = record (blank optopt) { argname = some (codes varname) };
  help = codes help;
}

-- CLP_OPTION_VERBOSITY: the conversion is clp_cvt_incr.
abbrev pub clp_option_verbosity : String → Entry
clp_option_verbosity varname = record {
  option = record (blank b'v') { argname = some (codes varname); no_arg = true };
  help = codes "increase verbosity";
}

-- CLP_OPTION_VERSION
abbrev pub clp_option_version : Entry
clp_option_version = record {
  option = record (blank b'V') {
    excludes = some (codes "*");
    longopt = some (codes "version");
    paramv = some clp_posparam_none;
  };
  help = codes "print version";
}

-- CLP_OPTION_HELP
abbrev pub clp_option_help : Entry
clp_option_help = record {
  option = record (blank b'h') {
    excludes = some (codes "*");
    longopt = some (codes "help");
    paramv = some clp_posparam_none;
  };
  help = codes "print this help list";
}

-- CLP_POSPARAM
abbrev pub clp_posparam : String → Posparam
clp_posparam name = record {
  name = codes name;
  cvtsubcmd = false;
  has_subcmds = false;
  posmin = 0;
  posmax = 0;
  argc = 0;
  argv = [];
}

-- The options of an array, each at its place.
unfoldable pub table_of : ℕ → List Entry → List ClpOption
table_of i [] = []
table_of i (e ∷ es) = record e.option { place = i } ∷ table_of (i + 1) es

-- `o->help`, by the place of an option.
unfoldable pub help_at : List Entry → ℕ → Option (List ℕ)
help_at [] i = none
help_at (e ∷ es) zero = some e.help
help_at (e ∷ es) (suc i) = help_at es i
