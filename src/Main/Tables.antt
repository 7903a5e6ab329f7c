-- ===== src/Main/Tables.antt =====
-- The tables of options and parameters of main.c, of the three tests and of nct_shell.c, and the
-- struct clp that clp_usage and clp_help read while one of them is parsed.
use nct.Base.{ℕ, ◌==◌, if◌then◌else◌, some, List, [], ◌∷◌}
use nct.Clp.OptString.{reset_option}
use nct.Clp.Posparam.{Posparam}
use nct.Clp.Usage.{Clp}
use nct.Clp.Macros.{
  Entry, clp_option, clp_option_verbosity, clp_option_version, clp_option_help, clp_posparam,
  clp_posparam_none, table_of, help_at,
}
use nct.Base.{map}

-- `optionv` of main.c.
abbrev pub main_optionv : List Entry
main_optionv =
    clp_option b'd' "duration" "duration of the test (in seconds)"
    ∷ clp_option b'j' "jobs_max" "max number of NFS request threads"
    ∷ clp_option b'm' "mark" "print status every mark seconds"
    ∷ clp_option b'o' "outdir" "directory in which to store results"
    ∷ clp_option b'p' "port" "remote NFSd port"
    ∷ clp_option b'T' "term" "terminal type for gnuplot"
    ∷ clp_option b't' "tds_max" "max number of NFS reply threads"
    ∷ clp_option_verbosity "verbosity"
    ∷ clp_option_version
    ∷ clp_option_help
    ∷ []

-- `posparamv` of main.c.
abbrev pub main_posparamv : List Posparam
main_posparamv = clp_posparam "command" ∷ clp_posparam "[args...]" ∷ []

-- `optionv` of the three tests.
abbrev pub test_optionv : List Entry
test_optionv = clp_option_verbosity "verbosity" ∷ clp_option_help ∷ []

-- `posparamv` of nct_null.c and nct_getattr.c.
abbrev pub null_posparamv : List Posparam
null_posparamv = clp_posparam "rhostpath" ∷ []

-- `posparamv` of nct_read.c.
abbrev pub read_posparamv : List Posparam
read_posparamv = clp_posparam "rhostpath" ∷ clp_posparam "[length]" ∷ []

-- `mount_optionv` of nct_shell.c.
abbrev pub mount_optionv : List Entry
mount_optionv =
    clp_option b'p' "port" "remote NFSd port"
    ∷ clp_option b'r' "readsize" "read size"
    ∷ clp_option b'w' "writesize" "write size"
    ∷ clp_option_verbosity "verbosity"
    ∷ clp_option_version
    ∷ clp_option_help
    ∷ []

-- `mount_posparamv` of nct_shell.c.
abbrev pub mount_posparamv : List Posparam
mount_posparamv = clp_posparam "rhostpath" ∷ clp_posparam "node" ∷ []

-- What the parser makes of a table before its first event, for qsort() as `sort`. The address of the
-- main vector of parameters is not that of clp_posparam_none, which is 0.
unfoldable pub clp_of : (List ℕ → List ℕ) → List ℕ → List Entry → List Posparam → Clp
clp_of sort basename entries posparams = record {
  basename = basename;
  optionv = map reset_option (table_of 0 entries);
  paramv = some 1;
  params_at = λ p. if p == clp_posparam_none then [] else posparams;
  help = λ o. help_at entries o.place;
  sort = sort;
}
