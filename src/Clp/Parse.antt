-- ===== src/Clp/Parse.antt =====
-- clp_parsev, clp_parsev_impl and clp_parsel of clp.c.
--
-- The conversion, action and after functions of the tables are fields of a record; what they read
-- and write besides the tables is a state of their own. getopt_long() is a function from the option
-- string, the long options and the arguments to what its calls return and the arguments left.
pub mod Exclusion
use nct.Base.{
  ℕ, zero, suc, ◌+◌, ◌==◌, Bool, true, false, ◌&&◌, Option, none, some, List, [], ◌∷◌, ◌++◌, map,
  ltb, if◌then◌else◌, take,
}
use nct.Req.State.{update}
use nct.Clp.Options.{ClpOption, clp_find, clp_excludes}
use nct.Clp.Posparam.{
  Posparam, clp_posparam_minmax, Placed, required, extraneous, placed, place_arguments,
}
use nct.Clp.OptString.{LongOpt, optstring, reset_option, is_some}
use nct.Clp.BreakArgs.{Broken, args, fails, clp_breakargs, ex_software, ex_oserr}

abbrev pub ex_usage : ℕ
ex_usage = 64

-- What a function of a table returns: zero, a negative number, or a positive one.
pub data Rc : Type 0 where
  fine stops : Rc
  refuses : ℕ → Rc

-- A call of getopt_long() that does not return -1. A `longidx` of -1 is none.
pub data Event : Type 0 where
  unknown missing : Event
  opt : (c : ℕ) (optarg : Option (List ℕ)) (longidx : Option ℕ) → Event

abbrev pub Getopt : Type 0
Getopt = List ℕ → List LongOpt → List (List ℕ) → List Event × List (List ℕ)

-- The functions that the tables point to; a null pointer is none.
pub record Hooks {ℓ} (A : Type ℓ) : Type ℓ where
  pub opt_cvt : ClpOption → Option (Option (List ℕ) → A → Rc × A)
  pub opt_action : ClpOption → Option (A → Rc × A)
  pub opt_after : ClpOption → Option (A → Rc × A)
  pub param_cvt : Posparam → Option (List ℕ → A → Rc × A)
  pub param_action : Posparam → Option (A → Rc × A)
  pub param_after : Posparam → Option (A → Rc × A)

-- The tables and the locals of clp_parsev_impl. `params` are the vectors of positional parameters by
-- their addresses, and `afters` the letters of the options on the list of after functions.
pub record ParseState {ℓ} (A : Type ℓ) : Type ℓ where
  pub options : List ClpOption
  pub params : ℕ → List Posparam
  pub active : Option ℕ  -- paramv
  pub afters : List ℕ
  pub app : A

pub data Parsing {ℓ} (A : Type ℓ) : Type ℓ where
  goes : ParseState A → Parsing A
  returns : ℕ → ParseState A → Parsing A

abbrev pub count_option : ClpOption → Option (List ℕ) → Option ℕ → ClpOption
count_option o optarg longidx = record o { longidx = longidx; optarg = optarg; given = o.given + 1 }

-- The writes to the option that clp_find returns.
unfoldable pub note_option : ℕ → Option (List ℕ) → Option ℕ → List ClpOption → List ClpOption
note_option c optarg longidx [] = []
note_option c optarg longidx (o ∷ os) =
    let rest = note_option c optarg longidx os in
    if o.optopt == c then count_option o optarg longidx ∷ os else o ∷ rest

abbrev pub prefer : Option ℕ → Option ℕ → Option ℕ
prefer none active = active
prefer (some p) active = some p

module _ {ℓ} {A : Type ℓ} where
  abbrev pub and_then : Parsing A → (ParseState A → Parsing A) → Parsing A
  and_then (goes s) k = k s
  and_then (returns rc s) k = returns rc s

  -- `if (rc) return (rc > 0) ? rc : 0;`
  abbrev pub proceed : Rc × A → ParseState A → Parsing A
  proceed (fine, a) s = goes (record s { app = a })
  proceed (stops, a) s = returns 0 (record s { app = a })
  proceed (refuses n, a) s = returns n (record s { app = a })

  abbrev pub call_hook : Option (A → Rc × A) → ParseState A → Parsing A
  call_hook none s = goes s
  call_hook (some f) s = proceed (f s.app) s

  abbrev pub call_cvt {κ} : {B : Type κ} → Option (B → A → Rc × A) → B → ParseState A → Parsing A
  call_cvt none b s = goes s
  call_cvt (some f) b s = proceed (f b s.app) s

module _ {ℓ} {A : Type ℓ} (h : Hooks A) where
  -- The option is put on the list of after functions, and its members are written.
  unfoldable pub note_given :
      ClpOption → ℕ → Option (List ℕ) → Option ℕ → ParseState A → ParseState A
  note_given o c optarg longidx s = record s {
    afters = if is_some (h.opt_after o) && o.given == 0 then s.afters ++ c ∷ [] else s.afters;
    options = note_option c optarg longidx s.options;
    active = prefer o.paramv s.active;
  }

  -- An option that no other excludes.
  unfoldable pub accept_option :
      ClpOption → ℕ → Option (List ℕ) → Option ℕ → ParseState A → Parsing A
  accept_option o c optarg longidx s =
      let o' = count_option o optarg longidx in
      and_then (call_cvt (h.opt_cvt o') optarg (note_given o c optarg longidx s))
        (call_hook (h.opt_action o'))

  abbrev pub unless_excluded :
      Option ClpOption → ClpOption → ℕ → Option (List ℕ) → Option ℕ → ParseState A → Parsing A
  unless_excluded (some x) o c optarg longidx s = returns ex_usage s
  unless_excluded none o c optarg longidx s = accept_option o c optarg longidx s

  abbrev pub on_lookup :
      Option ClpOption → ℕ → Option (List ℕ) → Option ℕ → ParseState A → Parsing A
  on_lookup none c optarg longidx s = returns ex_software s
  on_lookup (some o) c optarg longidx s =
      unless_excluded (clp_excludes s.options (some o) 1) o c optarg longidx s

  -- A round of the loop.
  unfoldable pub on_event : Event → ParseState A → Parsing A
  on_event unknown s = returns ex_usage s
  on_event missing s = returns ex_usage s
  on_event (opt c optarg longidx) s = on_lookup (clp_find c (some s.options)) c optarg longidx s

  unfoldable pub event_loop : List Event → ParseState A → Parsing A
  event_loop [] s = goes s
  event_loop (e ∷ es) s = and_then (on_event e s) (event_loop es)

  abbrev pub call_after : Option ClpOption → ParseState A → Parsing A
  call_after none s = goes s
  call_after (some o) s = call_hook (h.opt_after o) s

  -- The after functions of the options that were given.
  unfoldable pub after_loop : List ℕ → ParseState A → Parsing A
  after_loop [] s = goes s
  after_loop (c ∷ cs) s = and_then (call_after (clp_find c (some s.options)) s) (after_loop cs)

  -- The arguments of one parameter.
  unfoldable pub convert_args : Posparam → List (List ℕ) → ParseState A → Parsing A
  convert_args p [] s = goes s
  convert_args p (a ∷ more) s =
      and_then (and_then (call_cvt (h.param_cvt p) a s) (call_hook (h.param_action p)))
        (convert_args p more)

  unfoldable pub convert_loop : List Posparam → ParseState A → Parsing A
  convert_loop [] s = goes s
  convert_loop (p ∷ ps) s = and_then (convert_args p (take p.argc p.argv) s) (convert_loop ps)

  unfoldable pub param_after_loop : List Posparam → ParseState A → Parsing A
  param_after_loop [] s = goes s
  param_after_loop (p ∷ ps) s =
      and_then (if ltb 0 p.argc then call_hook (h.param_after p) s else goes s)
        (param_after_loop ps)

  -- The positional parameters `ps` at the address `p`, once their bounds are known.
  abbrev pub on_placed : ℕ → Placed → ParseState A → Parsing A
  on_placed p required s = returns ex_usage s
  on_placed p extraneous s = returns ex_usage s
  on_placed p (placed qs left) s = and_then (after_loop s.afters s) (λ t.
      and_then (convert_loop qs (record t { params = update t.params p qs })) (param_after_loop qs))

  -- Behind the loop over the options.
  abbrev pub positional : Option ℕ → List (List ℕ) → ParseState A → Parsing A
  positional none left s = after_loop s.afters s
  positional (some p) left s =
      on_placed p (place_arguments left (s.params p))
        (record s { params = update s.params p (clp_posparam_minmax (s.params p)).0 })

  abbrev pub outcome : Parsing A → ℕ × ParseState A
  outcome (goes s) = (0, s)
  outcome (returns rc s) = (rc, s)

  -- clp_parsev_impl
  unfoldable pub clp_parsev_impl :
      (ℕ → Option ℕ) → Getopt → List (List ℕ) → ParseState A → ℕ × ParseState A
  clp_parsev_impl heap getopt argv s =
      let (str, longopts) = optstring heap s.options in
      let (events, left) = getopt str longopts argv in
      outcome (and_then (event_loop events s) (λ t. positional t.active left t))

  abbrev pub reset_param : Posparam → Posparam
  reset_param p = record p { posmin = 0; posmax = 0; argc = 0; argv = [] }

  abbrev pub reset_params : Option ℕ → (ℕ → List Posparam) → ℕ → List Posparam
  reset_params none params = params
  reset_params (some p) params = update params p (map reset_param (params p))

  -- The tables as clp_parsev resets them, with the parameters at the address `paramv`.
  unfoldable pub reset : Option ℕ → ParseState A → ParseState A
  reset paramv s = record s {
    options = map reset_option s.options;
    params = reset_params paramv s.params;
    active = paramv;
    afters = [];
  }

  abbrev pub with_memory :
      Option (ℕ → Option ℕ) → Getopt → List (List ℕ) → ParseState A → ℕ × ParseState A
  with_memory none getopt argv s = (ex_oserr, s)
  with_memory (some heap) getopt argv s = clp_parsev_impl heap getopt argv s

  -- clp_parsev; `memory` is what malloc() returns for the long options.
  unfoldable pub clp_parsev :
      Option (ℕ → Option ℕ) → Getopt → List (List ℕ) → Option ℕ → ParseState A → ℕ × ParseState A
  clp_parsev memory getopt [] paramv s = (0, s)
  clp_parsev memory getopt (arg ∷ argv) paramv s =
      with_memory memory getopt (arg ∷ argv) (reset paramv s)

  abbrev pub parse_broken :
      Option (ℕ → Option ℕ) → Getopt → Broken → Option ℕ → ParseState A → ℕ × ParseState A
  parse_broken memory getopt (args argv) paramv s = clp_parsev memory getopt argv paramv s
  parse_broken memory getopt (fails rc) paramv s = (rc, s)

  -- clp_parsel; `room` says whether malloc() succeeds in clp_breakargs.
  unfoldable pub clp_parsel :
      Bool
      → Option (ℕ → Option ℕ)
      → Getopt
      → Option (List ℕ)
      → Option (List ℕ)
      → Option ℕ
      → ParseState A
      → ℕ × ParseState A
  clp_parsel room memory getopt line delim paramv s =
      parse_broken memory getopt (clp_breakargs room line delim) paramv s
