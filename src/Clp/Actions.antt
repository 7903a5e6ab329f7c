-- ===== src/Clp/Actions.antt =====
-- The getters that clp.h makes for the options, clp_given with a destination, and the actions of
-- clp.c: clp_version and clp_action_subcmd.
use nct.Base.{ℕ, zero, suc, ◌≡◌, refl, ap, ◌∙◌, Option, none, some, List, [], ◌∷◌, ◌++◌, take}
use nct.Clp.Options.{ClpOption, clp_given}
use nct.Clp.Posparam.{Posparam}
use nct.Clp.Parse.{
  Rc, stops, refuses, Getopt, Hooks, ParseState, Parsing, goes, returns, clp_parsev, call_cvt,
  call_hook, and_then, convert_args, convert_loop,
}

-- What an option's value is read from: `*cvtdst`, if the pointer is not null, and `cvtdstbuf`.
pub record Places {ℓ} (B : Type ℓ) : Type ℓ where
  pub cvtdst : Option B
  pub cvtdstbuf : B

-- A function of CLP_GET_TMPL: what it stores in `*dst`.
abbrev pub clp_get_tmpl {ℓ} : {B : Type ℓ} → Places B → B
clp_get_tmpl o = elim o.cvtdst [ none ↦ o.cvtdstbuf | some b ↦ b ]

module _ {ℓ} {B : Type ℓ} where
  abbrev pub fetch : Option (ClpOption → B) → ClpOption → B → B
  fetch none o old = old
  fetch (some getfunc) o old = getfunc o

  abbrev pub store_given : Option (ClpOption → B) → Option ClpOption → B → Option ClpOption × B
  store_given getfunc none old = (none, old)
  store_given getfunc (some o) old = (some o, fetch getfunc o old)

  -- clp_given with a `dst` that is not null and holds `old`.
  unfoldable pub clp_given_dst :
      Option (ClpOption → B) → ℕ → Option (List ClpOption) → B → Option ClpOption × B
  clp_given_dst getfunc c optionv old = store_given getfunc (clp_given c optionv) old

-- clp_version: what it prints for the string at `cvtdst`.
abbrev pub clp_version : List ℕ → List ℕ
clp_version text = text ++ b'\n' ∷ []

-- `rc ?: -1`
abbrev pub or_stop : ℕ → Rc
or_stop zero = stops
or_stop (suc n) = refuses (suc n)

module _ {ℓ} {A : Type ℓ} (inner : Hooks A) (memory : Option (ℕ → Option ℕ)) (getopt : Getopt)
    (enter : A → Option ℕ × ParseState A) (leave : ParseState A → A) where
  -- The parse of a parameter's arguments by the tables of the subcommand that was converted, whose
  -- functions are `inner`.
  abbrev pub parse_subcmd : Posparam → A → ℕ × A
  parse_subcmd p a =
      let (paramv, s) = enter a in
      let (rc, t) = clp_parsev inner memory getopt (take p.argc p.argv) paramv s in (rc, leave t)

  -- clp_action_subcmd; `enter` gives the tables of the subcommand at `*cvtdst`, and `leave` keeps them.
  unfoldable pub clp_action_subcmd : Posparam → A → Rc × A
  clp_action_subcmd p a = let (rc, a') = parse_subcmd p a in (or_stop rc, a')

  subcmd-returns :
      (p : Posparam) (s : ParseState A)
      → call_hook (some (clp_action_subcmd p)) s
        ≡ returns (parse_subcmd p s.app).0 (record s { app = (parse_subcmd p s.app).1 })
  unfolding clp_action_subcmd
  subcmd-returns p s = by_code (parse_subcmd p s.app)
    where
      by_code :
          (out : ℕ × A)
          → call_hook (some (λ a. (or_stop out.0, out.1))) s
            ≡ returns out.0 (record s { app = out.1 })
      by_code (zero, a) = refl
      by_code (suc n, a) = refl

  convert_args-subcmd :
      (h : Hooks A) (p : Posparam) (name : List ℕ) (more : List (List ℕ)) (a : A) (s : ParseState A)
      → call_cvt (h.param_cvt p) name s ≡ goes (record s { app = a })
      → h.param_action p ≡ some (clp_action_subcmd p)
      → convert_args h p (name ∷ more) s
        ≡ returns (parse_subcmd p a).0 (record s { app = (parse_subcmd p a).1 })
  unfolding convert_args
  convert_args-subcmd h p name more a s cvt act =
      rw (cvt, act, subcmd-returns p (record s { app = a })) refl

  -- Behind the conversion of its name, a subcommand's arguments are parsed by its own tables, and
  -- the parse ends with the exit code of that: no other argument is converted, no other action is
  -- run and no after function of a parameter is called, whether that parse fails or not.
  pub convert_loop-subcmd :
      (h : Hooks A) (p : Posparam) (ps : List Posparam) (name : List ℕ) (more : List (List ℕ))
      (a : A) (s : ParseState A) (k : ParseState A → Parsing A)
      → take p.argc p.argv ≡ name ∷ more
      → call_cvt (h.param_cvt p) name s ≡ goes (record s { app = a })
      → h.param_action p ≡ some (clp_action_subcmd p)
      → and_then (convert_loop h (p ∷ ps) s) k
        ≡ returns (parse_subcmd p a).0 (record s { app = (parse_subcmd p a).1 })
  unfolding convert_loop
  convert_loop-subcmd h p ps name more a s k words cvt act =
      ap (λ ws. and_then (and_then (convert_args h p ws s) (convert_loop h ps)) k) words
      ∙ ap (λ x. and_then (and_then x (convert_loop h ps)) k)
          (convert_args-subcmd h p name more a s cvt act)
