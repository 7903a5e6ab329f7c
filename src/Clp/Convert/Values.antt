-- ===== src/Clp/Convert/Values.antt =====
-- What the conversion of an argument comes to, by its tokens.
use nct.Base.{
  ℕ, zero, suc, ◌+◌, ◌≡◌, refl, sym, ◌∙◌, ap, Bool, true, false, ◌&&◌, ◌||◌, not, Option, none,
  some, List, [], ◌∷◌, ◌++◌, append_assoc, append-nil, leb, ◌==◌, if◌then◌else◌, arith, length,
  eq→==,
}
use nct.Clp.Convert.{
  Template, Strtold, Token, stores, leaves, Locals, Converted, strpbrk, next_token, on_token,
  store_value, token_loop, convert_token, on_strtold, on_number, on_end, scale, in_domain, error_of,
  too_many, finished, clp_cvt, first_locals, erange, e2big, is_left, count_if, find_suffix,
}
use nct.Clp.Convert.Tokens.{tokens_of, tokens_of-next}

module _ {V A : Type 0} (t : Template V A) where
  -- The value of a token that converts without any error.
  abbrev pub plain : Token A → Option A
  plain (stores a domain range) = if domain || range then none else some a
  plain (leaves a xerrno) = none

  abbrev pub cons_value : Option A → Option (List A) → Option (List A)
  cons_value none vs = none
  cons_value (some a) none = none
  cons_value (some a) (some vs) = some (a ∷ vs)

  -- The values of all tokens.
  pub values_of : Bool → List (List ℕ) → Option (List A)
  values_of split [] = some []
  values_of split (tok ∷ ts) = cons_value (plain (on_token t split tok)) (values_of split ts)

  -- The values, if the exit code is 0.
  abbrev pub result_of : Converted A → Option (List A)
  result_of c = if c.rc == 0 then some c.values else none

  -- strtold() sets errno to nothing but ERANGE.
  abbrev pub OnlyRange : Type 0
  OnlyRange = (tok : List ℕ) (e : ℕ) → (t.strtold tok).errno ≡ some e → e ≡ erange

  abbrev verdict : ℕ → Locals A → Option (List A)
  verdict size s = result_of (finished t s (error_of t s.ndomain s.nrange (too_many t size s)))

  verdict-error : (size e : ℕ) (s : Locals A) → too_many t size s ≡ some e → verdict size s ≡ none
  verdict-error size e s h = rw h refl

  abbrev fine : Locals A → Bool
  fine s = s.ndomain == 0 && s.nrange == 0

  verdict-fine :
      (size : ℕ) (s : Locals A)
      → too_many t size s ≡ none
      → verdict size s ≡ (if fine s then some s.result else none)
  verdict-fine size s h = rw h (ground arith)

  -- The loop is not left without an error.
  abbrev Leaves : Token A → Type 0
  Leaves (stores a domain range) = Unit {0}
  Leaves (leaves a none) = ⊥
  Leaves (leaves a (some e)) = Unit {0}

  either : (b : Bool) (x y : Token A) → Leaves x → Leaves y → Leaves (if b then x else y)
  either true x y p q = p
  either false x y p q = q

  in_domain-Leaves : (range : Bool) (v : V) → Leaves (in_domain t range v)
  in_domain-Leaves range v = either (t.is_special v) _ _ tt (
      either (t.below t.xmin t.xmax && t.below v t.xmin) _ _ tt
        (either (t.below t.xmin t.xmax && t.below t.xmax v) _ _ tt tt))

  scale-Leaves : (range : Bool) (v : V) (f : Option ℕ) → Leaves (scale t range v f)
  scale-Leaves range v none = tt
  scale-Leaves range v (some f) = in_domain-Leaves range (t.times v (t.double f))

  on_end-Leaves : (range : Bool) (v : V) (end : List ℕ) → Leaves (on_end t range v end)
  on_end-Leaves range v [] = in_domain-Leaves range v
  on_end-Leaves range v (c ∷ s) = scale-Leaves range v (find_suffix c t.suftab)

  on_number-Leaves :
      (tok : List ℕ) (range : Bool) (r : Strtold V) → Leaves (on_number t tok range r)
  on_number-Leaves tok range r =
      either (length r.end == length tok) _ _ tt (on_end-Leaves range r.val r.end)

  on_strtold-Leaves :
      (tok : List ℕ) (o : Option ℕ) (r : Strtold V)
      → ((e : ℕ) → o ≡ some e → e ≡ erange)
      → Leaves (on_strtold t tok o r)
  on_strtold-Leaves tok none r h = on_number-Leaves tok false r
  on_strtold-Leaves tok (some e) r h = rw (eq→== e erange (h e refl)) (on_number-Leaves tok true r)

  convert_token-Leaves : OnlyRange → (tok : List ℕ) → Leaves (convert_token t tok)
  unfolding convert_token
  convert_token-Leaves h tok = on_strtold-Leaves tok (t.strtold tok).errno (t.strtold tok) (h tok)

  on_token-Leaves : OnlyRange → (split : Bool) (tok : List ℕ) → Leaves (on_token t split tok)
  on_token-Leaves h split [] = either split _ _ tt (convert_token-Leaves h [])
  on_token-Leaves h split (c ∷ s) = convert_token-Leaves h (c ∷ s)

  -- What is behind `s` for the tokens `ts` in `room` places.
  abbrev prepend : List A → Option (List A) → Option (List A)
  prepend xs none = none
  prepend xs (some ys) = some (xs ++ ys)

  abbrev expected : Locals A → Bool → ℕ → List (List ℕ) → Option (List A)
  expected s split room ts =
      if fine s && leb (length ts) room then prepend s.result (values_of split ts) else none

  stop-expected :
      (s : Locals A) (split : Bool) (room : ℕ)
      → s.str ≡ none
      → s.xerrno ≡ none
      → verdict (s.n + room) s ≡ expected s split room []
  unfolding values_of
  stop-expected s split room e x =
      verdict-fine (s.n + room) s (rw (e, too_many) x) ∙ ground (arith, append-nil s.result)

  full-expected :
      (s : Locals A) (split : Bool) (str : List ℕ) (tok : List ℕ) (ts : List (List ℕ))
      → s.str ≡ some str
      → verdict (s.n + 0) s ≡ expected s split 0 (tok ∷ ts)
  full-expected s split str tok ts e =
      verdict-error (s.n + 0) e2big s (rw e (ground arith)) ∙ ground arith

  prepend-cons :
      (xs : List A) (a : A) (o : Option (List A))
      → prepend (xs ++ a ∷ []) o ≡ prepend xs (cons_value (some a) o)
  prepend-cons xs a none = refl
  prepend-cons xs a (some ys) = ap some (append_assoc xs (a ∷ []) ys)

  left-error :
      (b : Bool) (e n d r : ℕ) (xs : List A)
      → result_of (
          finished t
            (record { result = xs; n = n; str = none; ndomain = d; nrange = r; xerrno = none })
            (error_of t d r (if b then some e2big else some e)))
        ≡ none
  left-error true e n d r xs = refl
  left-error false e n d r xs = refl

  no_value : (b : Bool) (xs : List A) → none ≡ (if b then prepend xs none else none)
  no_value true xs = refl
  no_value false xs = refl

  fewer : (n room : ℕ) → leb n room ≡ leb (suc n) (suc room)
  fewer n room = ground arith

  -- What is expected once the outcome of the next token is known.
  abbrev expected_next : Locals A → Bool → ℕ → Token A → List (List ℕ) → Option (List A)
  expected_next s split room o ts =
      if fine s && leb (length ts) room
      then prepend s.result (cons_value (plain o) (values_of split ts))
      else none

  abbrev stored : A → Bool → Bool → Option (List ℕ) → Locals A → Locals A
  stored a domain range rest s = record {
    result = s.result ++ a ∷ [];
    n = s.n + 1;
    str = rest;
    ndomain = count_if domain s.ndomain;
    nrange = count_if range s.nrange;
    xerrno = s.xerrno;
  }

  stored-expected :
      (a : A) (domain range : Bool) (rest : Option (List ℕ)) (s : Locals A) (split : Bool)
      (room : ℕ) (ts : List (List ℕ))
      → expected (stored a domain range rest s) split room ts
        ≡ expected_next s split room (stores a domain range) ts
  stored-expected a true range rest s split room ts = ground arith
  stored-expected a false true rest s split room ts = ground arith
  stored-expected a false false rest s split room ts =
      ap (λ o. if fine s && leb (length ts) room then o else none)
        (prepend-cons s.result a (values_of split ts))

  store_value-expected :
      (o : Token A) (rest : Option (List ℕ)) (s : Locals A) (k : Locals A → Locals A) (split : Bool)
      (room : ℕ) (ts : List (List ℕ))
      → Leaves o
      → s.xerrno ≡ none
      → ((u : Locals A)
          → u.str ≡ rest
          → u.xerrno ≡ none
          → verdict (u.n + room) (k u) ≡ expected u split room ts)
      → verdict (s.n + suc room) (store_value t o rest s k) ≡ expected_next s split room o ts
  store_value-expected (stores a domain range) rest s k split room ts l x h =
      let e : s.n + suc room ≡ s.n + 1 + room = omega arith in
      rw e (
        h (stored a domain range rest s) refl x
        ∙ stored-expected a domain range rest s split room ts)
  store_value-expected (leaves a none) rest s k split room ts l x h = absurd l
  store_value-expected (leaves a (some e)) rest s k split room ts l x h =
      left-error (is_left rest && leb (s.n + suc room) s.n) e s.n s.ndomain s.nrange
        (s.result ++ a ∷ [])
      ∙ no_value (fine s && leb (length ts) room) s.result

  next-expected :
      (s : Locals A) (split : Bool) (room : ℕ) (tok : List ℕ) (ts : List (List ℕ))
      → expected_next s split room (on_token t split tok) ts
        ≡ expected s split (suc room) (tok ∷ ts)
  unfolding values_of
  next-expected s split room tok ts =
      ap
        (λ b.
          if fine s && b
          then prepend s.result (cons_value (plain (on_token t split tok)) (values_of split ts))
          else none)
        (fewer (length ts) room)

  loop-expected :
      OnlyRange
      → (room : ℕ) (split : Bool) (delim : List ℕ) (str : Option (List ℕ)) (s : Locals A)
      → s.str ≡ str
      → s.xerrno ≡ none
      → verdict (s.n + room) (token_loop t room split delim str s)
        ≡ expected s split room (tokens_of split delim str)
  unfolding token_loop
  loop-expected only zero split delim none s e x = stop-expected s split 0 e x
  loop-expected only zero split delim (some str) s e x =
      rw (tokens_of-next split delim str) (full-expected s split str _ _ e)
  loop-expected only (suc room) split delim none s e x = stop-expected s split (suc room) e x
  loop-expected only (suc room) split delim (some str) s e x =
      let tok = (next_token split delim str).0 in
      let rest = (next_token split delim str).1 in
      let ts = tokens_of split delim rest in
      store_value-expected (on_token t split tok) rest s (token_loop t room split delim rest) split
        room ts (on_token-Leaves only split tok) x
        (λ u f y. loop-expected only room split delim rest u f y)
      ∙ next-expected s split room tok ts
      ∙ ap (expected s split (suc room)) (sym (tokens_of-next split delim str))

  allocated : (b : Bool) (c d : Converted A) → (if b && not true then c else d) ≡ d
  allocated true c d = refl
  allocated false c d = refl

  prepend-nil : (o : Option (List A)) → prepend [] o ≡ o
  prepend-nil none = refl
  prepend-nil (some ys) = refl

zero_add : (n : ℕ) → n ≡ 0 + n
zero_add n = omega arith

-- A conversion whose copy of the argument is allocated succeeds exactly if there are no more tokens
-- than places and each token converts without an error; it then stores their values, in order. An
-- empty token between delimiters is 0. strtold() sets errno to nothing but ERANGE.
pub clp_cvt-values :
    {V A : Type 0} (t : Template V A) (size : ℕ) (delim optarg : List ℕ)
    → OnlyRange t
    → let ts = tokens_of (strpbrk optarg delim) delim (some optarg) in
      result_of t (clp_cvt t true size delim optarg)
      ≡ (if leb (length ts) size then values_of t (strpbrk optarg delim) ts else none)
unfolding clp_cvt
clp_cvt-values t size delim optarg only =
    let split = strpbrk optarg delim in
    let s = first_locals t optarg in
    let u = token_loop t size split delim (some optarg) s in
    let ts = tokens_of split delim (some optarg) in
    ap (result_of t) (allocated t split _ _)
    ∙ ap (λ n. verdict t n u) (zero_add size)
    ∙ loop-expected t only size split delim (some optarg) s refl refl
    ∙ ap (λ o. if leb (length ts) size then o else none) (prepend-nil t (values_of t split ts))
