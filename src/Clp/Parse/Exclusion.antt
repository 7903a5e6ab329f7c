-- ===== src/Clp/Parse/Exclusion.antt =====
-- Options that exclude each other are never both given.
use nct.Base.{
  ℕ, ◌+◌, ◌==◌, ◌≡◌, refl, ap, ◌∙◌, sym, subst, Bool, true, false, ◌&&◌, Option, none, some, List,
  [], ◌∷◌, map, ltb, leb, if◌then◌else◌, All, Bool-cases, Option-cases, inl, inr, arith,
}
use nct.Clp.Options.{ClpOption, find_in, clp_find, clp_excludes, clp_excludes2, clp_excludes-none}
use nct.Clp.Posparam.{Posparam, Placed, required, extraneous, placed, place_arguments}
use nct.Clp.OptString.{reset_option}
use nct.Clp.Parse.{
  Rc, fine, stops, refuses, Event, unknown, missing, opt, Getopt, Hooks, ParseState, Parsing, goes,
  returns, count_option, note_option, and_then, proceed, call_hook, call_cvt, note_given,
  accept_option, unless_excluded, on_event, event_loop, call_after, after_loop, convert_args,
  convert_loop, param_after_loop, on_placed, positional, outcome, clp_parsev_impl, clp_parsev,
  reset,
}

-- Two options that were both given, of which one excludes the other.
abbrev pub clash : ClpOption → ClpOption → Bool
clash p q = leb 1 p.given && (leb 1 q.given && clp_excludes2 (some p) (some q))

abbrev pub Compatible : List ClpOption → Type 0
Compatible os = All (λ p. All (λ q. clash p q ≡ false) os) os

All-map {ℓ κ μ} :
    {A : Type ℓ} {P : A → Type κ} {Q : A → Type μ} (xs : List A)
    → ((x : A) → P x → Q x)
    → All P xs
    → All Q xs
All-map [] f a = tt
All-map (x ∷ xs) f a = (f x a.0, All-map xs f a.1)

All-zip {ℓ κ μ} :
    {A : Type ℓ} (P : A → Type κ) (Q : A → Type μ) (xs : List A)
    → All P xs
    → All Q xs
    → All (λ x. P x × Q x) xs
All-zip P Q [] a b = tt
All-zip P Q (x ∷ xs) a b = ((a.0, b.0), All-zip P Q xs a.1 b.1)

-- What holds of the options and of the option that is found, once it is counted, holds of them
-- behind the writes.
note_option-All :
    (P : ClpOption → Type 0) (c : ℕ) (optarg : Option (List ℕ)) (longidx : Option ℕ)
    (os : List ClpOption) (o : ClpOption)
    → find_in c os ≡ some o
    → P (count_option o optarg longidx)
    → All P os
    → All P (note_option c optarg longidx os)
unfolding note_option find_in
note_option-All P c optarg longidx [] o e new a = tt
note_option-All P c optarg longidx (x ∷ os) o e new a = elim (Bool-cases (x.optopt == c)) [
  | inl hit ↦
      let found : some x ≡ some o = rw hit at e in
      let same : x ≡ o = cc found in
      rw hit (subst (λ y. P (count_option y optarg longidx)) (sym same) new, a.1)
  | inr miss ↦
      let more : find_in c os ≡ some o = rw miss at e in
      rw miss (a.0, note_option-All P c optarg longidx os o more new a.1)
]

leb_suc : (n : ℕ) → leb 1 (n + 1) ≡ true
leb_suc n = ground arith

module _ (o : ClpOption) (optarg : Option (List ℕ)) (longidx : Option ℕ) where
  clash_self : clash (count_option o optarg longidx) (count_option o optarg longidx) ≡ false
  unfolding clp_excludes2
  clash_self = ground arith

  clash-first :
      (p : ClpOption)
      → (leb 1 p.given && clp_excludes2 (some o) (some p)) ≡ false
      → clash (count_option o optarg longidx) p ≡ false
  unfolding clp_excludes2
  clash-first p e = rw (leb_suc o.given) e

  clash-second :
      (p : ClpOption)
      → (leb 1 p.given && clp_excludes2 (some p) (some o)) ≡ false
      → clash p (count_option o optarg longidx) ≡ false
  unfolding clp_excludes2
  clash-second p e = rw (leb_suc o.given) e

note_option-Compatible :
    (c : ℕ) (optarg : Option (List ℕ)) (longidx : Option ℕ) (os : List ClpOption) (o : ClpOption)
    → find_in c os ≡ some o
    → clp_excludes os (some o) 1 ≡ none
    → Compatible os
    → Compatible (note_option c optarg longidx os)
note_option-Compatible c optarg longidx os o e alone v =
    let apart = clp_excludes-none os o 1 alone in
    let o' = count_option o optarg longidx in
    note_option-All (λ p. All (λ q. clash p q ≡ false) (note_option c optarg longidx os)) c optarg
      longidx os o e
      (note_option-All (λ q. clash o' q ≡ false) c optarg longidx os o e
        (clash_self o optarg longidx)
        (All-map os (λ p a. clash-first o optarg longidx p a.0) apart))
      (All-map os
        (λ p a.
          note_option-All (λ q. clash p q ≡ false) c optarg longidx os o e
            (clash-second o optarg longidx p a.1.1) a.0)
        (All-zip _ _ os v apart))

-- A table that was reset has no option that was given.
reset-given : (os : List ClpOption) → All (λ p. leb 1 p.given ≡ false) (map reset_option os)
unfolding reset_option
reset-given [] = tt
reset-given (o ∷ os) = (refl, reset-given os)

clash-not_given : (p q : ClpOption) → leb 1 p.given ≡ false → clash p q ≡ false
clash-not_given p q e = rw e refl

All-always {ℓ κ} : {A : Type ℓ} {P : A → Type κ} (xs : List A) → ((x : A) → P x) → All P xs
All-always [] f = tt
All-always (x ∷ xs) f = (f x, All-always xs f)

reset-Compatible : (os : List ClpOption) → Compatible (map reset_option os)
reset-Compatible os =
    All-map (map reset_option os)
      (λ p e. All-always (map reset_option os) (λ q. clash-not_given p q e)) (reset-given os)

-- What a parse leaves as it is in an option: its place, its letter and its list of exclusions.
pub record Face : Type 0 where
  pub place : ℕ
  pub optopt : ℕ
  pub excludes : Option (List ℕ)

abbrev pub face : ClpOption → Face
face o = record { place = o.place; optopt = o.optopt; excludes = o.excludes }

note_option-face :
    (c : ℕ) (optarg : Option (List ℕ)) (longidx : Option ℕ) (os : List ClpOption)
    → map face (note_option c optarg longidx os) ≡ map face os
unfolding note_option
note_option-face c optarg longidx [] = refl
note_option-face c optarg longidx (o ∷ os) = elim (Bool-cases (o.optopt == c)) [
  | inl hit ↦ rw hit refl
  | inr miss ↦ rw miss (ap (◌∷◌ (face o)) (note_option-face c optarg longidx os))
]

-- What a parse keeps of the options.
abbrev Kept : List Face → List ClpOption → Type 0
Kept fs os = Compatible os × (map face os ≡ fs)

note_option-Kept :
    (fs : List Face) (c : ℕ) (optarg : Option (List ℕ)) (longidx : Option ℕ) (os : List ClpOption)
    (o : ClpOption)
    → find_in c os ≡ some o
    → clp_excludes os (some o) 1 ≡ none
    → Kept fs os
    → Kept fs (note_option c optarg longidx os)
note_option-Kept fs c optarg longidx os o e alone v = (
  note_option-Compatible c optarg longidx os o e alone v.0,
  note_option-face c optarg longidx os ∙ v.1,
)

reset-Kept : (os : List ClpOption) → Kept (map face (map reset_option os)) (map reset_option os)
reset-Kept os = (reset-Compatible os, refl)

module _ {ℓ} {A : Type ℓ} (fs : List Face) where
  abbrev state_of : Parsing A → ParseState A
  state_of (goes s) = s
  state_of (returns rc s) = s

  -- What holds of the options in the state that a part of the parser leaves.
  record Leaves (m : Parsing A) : Type 0 where
    kept : Kept fs (state_of m).options

  Leaves-and_then :
      (m : Parsing A) (k : ParseState A → Parsing A)
      → Leaves m
      → ((s : ParseState A) → Kept fs s.options → Leaves (k s))
      → Leaves (and_then m k)
  Leaves-and_then (goes s) k v f = f s v.kept
  Leaves-and_then (returns rc s) k v f = record { kept = v.kept }

  Leaves-proceed : (r : Rc × A) (s : ParseState A) → Kept fs s.options → Leaves (proceed r s)
  Leaves-proceed (fine, a) s v = record { kept = v }
  Leaves-proceed (stops, a) s v = record { kept = v }
  Leaves-proceed (refuses n, a) s v = record { kept = v }

  Leaves-call_hook :
      (f : Option (A → Rc × A)) (s : ParseState A) → Kept fs s.options → Leaves (call_hook f s)
  Leaves-call_hook none s v = record { kept = v }
  Leaves-call_hook (some f) s v = Leaves-proceed (f s.app) s v

  Leaves-call_cvt {κ} :
      {B : Type κ} (f : Option (B → A → Rc × A)) (b : B) (s : ParseState A)
      → Kept fs s.options
      → Leaves (call_cvt f b s)
  Leaves-call_cvt none b s v = record { kept = v }
  Leaves-call_cvt (some f) b s v = Leaves-proceed (f b s.app) s v

module _ {ℓ} {A : Type ℓ} (h : Hooks A) (fs : List Face) where
  accept_option-Leaves :
      (o : ClpOption) (c : ℕ) (optarg : Option (List ℕ)) (longidx : Option ℕ) (s : ParseState A)
      → find_in c s.options ≡ some o
      → clp_excludes s.options (some o) 1 ≡ none
      → Kept fs s.options
      → Leaves fs (accept_option h o c optarg longidx s)
  unfolding accept_option note_given
  accept_option-Leaves o c optarg longidx s e alone v =
      Leaves-and_then fs _ _
        (Leaves-call_cvt fs (h.opt_cvt (count_option o optarg longidx)) optarg
          (note_given h o c optarg longidx s)
          (note_option-Kept fs c optarg longidx s.options o e alone v))
        (λ t w. Leaves-call_hook fs (h.opt_action (count_option o optarg longidx)) t w)

  on_lookup-Leaves :
      (c : ℕ) (optarg : Option (List ℕ)) (longidx : Option ℕ) (s : ParseState A) (o : ClpOption)
      → find_in c s.options ≡ some o
      → Kept fs s.options
      → Leaves fs (unless_excluded h (clp_excludes s.options (some o) 1) o c optarg longidx s)
  on_lookup-Leaves c optarg longidx s o e v =
      elim (Option-cases (clp_excludes s.options (some o) 1)) [
        | inl alone ↦ rw alone (accept_option-Leaves o c optarg longidx s e alone v)
        | inr (x, hit) ↦ rw hit (record { kept = v })
      ]

  on_event-Leaves : (e : Event) (s : ParseState A) → Kept fs s.options → Leaves fs (on_event h e s)
  unfolding on_event clp_find
  on_event-Leaves unknown s v = record { kept = v }
  on_event-Leaves missing s v = record { kept = v }
  on_event-Leaves (opt c optarg longidx) s v = elim (Option-cases (find_in c s.options)) [
    | inl lost ↦ rw lost (record { kept = v })
    | inr (o, found) ↦ rw found (on_lookup-Leaves c optarg longidx s o found v)
  ]

  event_loop-Leaves :
      (es : List Event) (s : ParseState A) → Kept fs s.options → Leaves fs (event_loop h es s)
  unfolding event_loop
  event_loop-Leaves [] s v = record { kept = v }
  event_loop-Leaves (e ∷ es) s v =
      Leaves-and_then fs (on_event h e s) _ (on_event-Leaves e s v)
        (λ t w. event_loop-Leaves es t w)

  call_after-Leaves :
      (o : Option ClpOption) (s : ParseState A) → Kept fs s.options → Leaves fs (call_after h o s)
  call_after-Leaves none s v = record { kept = v }
  call_after-Leaves (some o) s v = Leaves-call_hook fs (h.opt_after o) s v

  after_loop-Leaves :
      (cs : List ℕ) (s : ParseState A) → Kept fs s.options → Leaves fs (after_loop h cs s)
  unfolding after_loop
  after_loop-Leaves [] s v = record { kept = v }
  after_loop-Leaves (c ∷ cs) s v =
      Leaves-and_then fs _ _ (call_after-Leaves (clp_find c (some s.options)) s v)
        (λ t w. after_loop-Leaves cs t w)

  convert_args-Leaves :
      (p : Posparam) (as' : List (List ℕ)) (s : ParseState A)
      → Kept fs s.options
      → Leaves fs (convert_args h p as' s)
  unfolding convert_args
  convert_args-Leaves p [] s v = record { kept = v }
  convert_args-Leaves p (a ∷ more) s v =
      Leaves-and_then fs _ _
        (Leaves-and_then fs _ _ (Leaves-call_cvt fs (h.param_cvt p) a s v)
          (λ t w. Leaves-call_hook fs (h.param_action p) t w))
        (λ t w. convert_args-Leaves p more t w)

  convert_loop-Leaves :
      (ps : List Posparam) (s : ParseState A) → Kept fs s.options → Leaves fs (convert_loop h ps s)
  unfolding convert_loop
  convert_loop-Leaves [] s v = record { kept = v }
  convert_loop-Leaves (p ∷ ps) s v =
      Leaves-and_then fs _ _ (convert_args-Leaves p _ s v) (λ t w. convert_loop-Leaves ps t w)

  if-Leaves :
      (b : Bool) (m n : Parsing A) → Leaves fs m → Leaves fs n → Leaves fs (if b then m else n)
  if-Leaves true m n v w = v
  if-Leaves false m n v w = w

  param_after_loop-Leaves :
      (ps : List Posparam) (s : ParseState A)
      → Kept fs s.options
      → Leaves fs (param_after_loop h ps s)
  unfolding param_after_loop
  param_after_loop-Leaves [] s v = record { kept = v }
  param_after_loop-Leaves (p ∷ ps) s v =
      Leaves-and_then fs _ _
        (if-Leaves (ltb 0 p.argc) (call_hook (h.param_after p) s) (goes s)
          (Leaves-call_hook fs (h.param_after p) s v) (record { kept = v }))
        (λ t w. param_after_loop-Leaves ps t w)

  on_placed-Leaves :
      (p : ℕ) (d : Placed) (s : ParseState A) → Kept fs s.options → Leaves fs (on_placed h p d s)
  on_placed-Leaves p required s v = record { kept = v }
  on_placed-Leaves p extraneous s v = record { kept = v }
  on_placed-Leaves p (placed qs left) s v =
      Leaves-and_then fs _ _ (after_loop-Leaves s.afters s v) (λ t w.
        Leaves-and_then fs _ _ (convert_loop-Leaves qs _ w) (λ u x. param_after_loop-Leaves qs u x))

  positional-Leaves :
      (p : Option ℕ) (left : List (List ℕ)) (s : ParseState A)
      → Kept fs s.options
      → Leaves fs (positional h p left s)
  positional-Leaves none left s v = after_loop-Leaves s.afters s v
  positional-Leaves (some p) left s v = on_placed-Leaves p (place_arguments left (s.params p)) _ v

  outcome-Leaves : (m : Parsing A) → Leaves fs m → Kept fs (outcome h m).1.options
  outcome-Leaves (goes s) v = v.kept
  outcome-Leaves (returns rc s) v = v.kept

  impl-Kept :
      (heap : ℕ → Option ℕ) (getopt : Getopt) (argv : List (List ℕ)) (s : ParseState A)
      → Kept fs s.options
      → Kept fs (clp_parsev_impl h heap getopt argv s).1.options
  unfolding clp_parsev_impl
  impl-Kept heap getopt argv s v =
      outcome-Leaves _
        (Leaves-and_then fs _ _ (event_loop-Leaves _ s v) (λ t w. positional-Leaves t.active _ t w))

module _ {ℓ} {A : Type ℓ} (h : Hooks A) where
  clp_parsev-Kept :
      (memory : Option (ℕ → Option ℕ)) (getopt : Getopt) (arg : List ℕ) (argv : List (List ℕ))
      (paramv : Option ℕ) (s : ParseState A)
      → Kept
          (map face (map reset_option s.options))
          (clp_parsev h memory getopt (arg ∷ argv) paramv s).1.options
  unfolding clp_parsev reset
  clp_parsev-Kept (some heap) getopt arg argv paramv s =
      impl-Kept h (map face (map reset_option s.options)) heap getopt (arg ∷ argv) _
        (reset-Kept s.options)
  clp_parsev-Kept none getopt arg argv paramv s = reset-Kept s.options

  -- A parse resets each option, and then writes to no option's place, letter or exclusions.
  pub clp_parsev-face :
      (memory : Option (ℕ → Option ℕ)) (getopt : Getopt) (arg : List ℕ) (argv : List (List ℕ))
      (paramv : Option ℕ) (s : ParseState A)
      → map face (clp_parsev h memory getopt (arg ∷ argv) paramv s).1.options
        ≡ map face (map reset_option s.options)
  clp_parsev-face memory getopt arg argv paramv s =
      (clp_parsev-Kept memory getopt arg argv paramv s).1

  -- Whatever getopt_long() returns and however the parse ends, no option that clp_parsev has counted
  -- as given excludes another one that it has counted as given.
  pub clp_parsev-Compatible :
      (memory : Option (ℕ → Option ℕ)) (getopt : Getopt) (arg : List ℕ) (argv : List (List ℕ))
      (paramv : Option ℕ) (s : ParseState A)
      → Compatible (clp_parsev h memory getopt (arg ∷ argv) paramv s).1.options
  clp_parsev-Compatible memory getopt arg argv paramv s =
      (clp_parsev-Kept memory getopt arg argv paramv s).0
