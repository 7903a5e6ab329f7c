-- ===== src/Clp/Convert/Limits.antt =====
-- The conversions that clp.c makes of CLP_CVT_TMPL for the integer types, with the sizes of 64-bit
-- Linux, and the limits of what they store. The two for float and double have no limits to keep.
use nct.Base.{
  ℕ, zero, suc, ◌^◌, ◌-◌, ◌≡◌, refl, ◌∙◌, Bool, true, false, ◌&&◌, Option, none, some, List, [],
  ◌∷◌, ◌++◌, ◌==◌, length, All, eq→==, ◌⊎◌, inl, inr, Bool-cases, not,
}
use nct.Base.Integers.{ℤ, pos, negsuc, ltℤ}
use nct.Clp.Convert.{
  Template, Strtold, Token, stores, leaves, Locals, strpbrk, next_token, on_token, store_value,
  token_loop, convert_token, on_strtold, on_number, on_end, scale, in_domain, error_of, too_many,
  finished, clp_cvt, first_locals, erange, find_suffix, suftab_combo, suftab_time,
}
use nct.Clp.Convert.Values.{OnlyRange}

-- The types of the conversions, less those that are names for one of the others.
pub data IntType : Type 0 where
  char u_char short u_short int u_int long u_long size_t time_t : IntType

abbrev pub type_min : IntType → ℤ
type_min char = negsuc (2 ^ 7 - 1)
type_min u_char = pos 0
type_min short = negsuc (2 ^ 15 - 1)
type_min u_short = pos 0
type_min int = negsuc (2 ^ 31 - 1)
type_min u_int = pos 0
type_min long = negsuc (2 ^ 63 - 1)
type_min u_long = pos 0
type_min size_t = pos 0
type_min time_t = pos 0

abbrev pub type_max : IntType → ℤ
type_max char = pos (2 ^ 7 - 1)
type_max u_char = pos (2 ^ 8 - 1)
type_max short = pos (2 ^ 15 - 1)
type_max u_short = pos (2 ^ 16 - 1)
type_max int = pos (2 ^ 31 - 1)
type_max u_int = pos (2 ^ 32 - 1)
type_max long = pos (2 ^ 63 - 1)
type_max u_long = pos (2 ^ 64 - 1)
type_max size_t = pos (2 ^ 64 - 1)
type_max time_t = pos (2 ^ 63 - 1)

abbrev pub suffixes : IntType → List (ℕ × ℕ)
suffixes char = suftab_combo
suffixes u_char = suftab_combo
suffixes short = suftab_combo
suffixes u_short = suftab_combo
suffixes int = suftab_combo
suffixes u_int = suftab_combo
suffixes long = suftab_combo
suffixes u_long = suftab_combo
suffixes size_t = suftab_combo
suffixes time_t = suftab_time

-- long double, with its conversions from and to an integer type.
pub record LongDouble (V : Type 0) : Type 0 where
  pub strtold : List ℕ → Strtold V
  pub times : V → V → V
  pub below : V → V → Bool
  pub is_special : V → Bool
  pub of_int : ℤ → V
  pub to_int : IntType → V → ℤ

-- CLP_CVT_TMPL(xsuffix, xtype, xmin, xmax, xsuftab), for an integer type.
abbrev pub clp_cvt_tmpl : {V : Type 0} → LongDouble V → IntType → Template V ℤ
clp_cvt_tmpl ld c = record {
  strtold = ld.strtold;
  times = ld.times;
  below = ld.below;
  is_special = ld.is_special;
  cast = ld.to_int c;
  null = pos 0;
  xmin = ld.of_int (type_min c);
  xmax = ld.of_int (type_max c);
  double = λ n. ld.of_int (pos n);
  suftab = suffixes c;
}

-- A value of an integer type.
abbrev pub InLimits : IntType → ℤ → Type 0
InLimits c z = (ltℤ z (type_min c) ≡ false) × (ltℤ (type_max c) z ≡ false)

-- What the C standard and the 64-bit mantissa of a long double give: limits are compared and
-- converted exactly, and a number between them is cut off to one between them.
pub record IsLongDouble {V : Type 0} (ld : LongDouble V) : Type 0 where
  pub order :
      (c : IntType)
      → ld.below (ld.of_int (type_min c)) (ld.of_int (type_max c)) ≡ ltℤ (type_min c) (type_max c)
  pub exact : (c : IntType) (z : ℤ) → InLimits c z → ld.to_int c (ld.of_int z) ≡ z
  pub cut :
      (c : IntType) (v : V)
      → ld.is_special v ≡ false
      → ld.below v (ld.of_int (type_min c)) ≡ false
      → ld.below (ld.of_int (type_max c)) v ≡ false
      → InLimits c (ld.to_int c v)

-- The limits are in order, and they and 0 are values of the type.
Limits : IntType → Type 0
Limits c =
    (ltℤ (type_min c) (type_max c) ≡ true)
    × InLimits c (type_min c)
    × InLimits c (type_max c)
    × InLimits c (pos 0)

type-Limits : (c : IntType) → Limits c
unfolding Limits
type-Limits char = (refl, (refl, refl), (refl, refl), (refl, refl))
type-Limits u_char = (refl, (refl, refl), (refl, refl), (refl, refl))
type-Limits short = (refl, (refl, refl), (refl, refl), (refl, refl))
type-Limits u_short = (refl, (refl, refl), (refl, refl), (refl, refl))
type-Limits int = (refl, (refl, refl), (refl, refl), (refl, refl))
type-Limits u_int = (refl, (refl, refl), (refl, refl), (refl, refl))
type-Limits long = (refl, (refl, refl), (refl, refl), (refl, refl))
type-Limits u_long = (refl, (refl, refl), (refl, refl), (refl, refl))
type-Limits size_t = (refl, (refl, refl), (refl, refl), (refl, refl))
type-Limits time_t = (refl, (refl, refl), (refl, refl), (refl, refl))

All-snoc :
    {A : Type 0} (P : A → Type 0) (xs : List A) (x : A) → All P xs → P x → All P (xs ++ x ∷ [])
All-snoc P [] x h p = (p, tt)
All-snoc P (y ∷ xs) x (q, h) p = (q, All-snoc P xs x h p)

module _ {V : Type 0} (ld : LongDouble V) (c : IntType) (ok : IsLongDouble ld) where
  abbrev pub t : Template V ℤ
  t = clp_cvt_tmpl ld c

  -- A stored value is one of the type, or what an infinity or a NaN is converted to.
  abbrev pub Storable : ℤ → Type 0
  Storable z = InLimits c z ⊎ ((v : V) × (ld.is_special v ≡ true) × (z ≡ ld.to_int c v))

  abbrev TokenStorable : Token ℤ → Type 0
  TokenStorable (stores a domain range) = Storable a
  TokenStorable (leaves a xerrno) = Storable a

  exact-InLimits : (z : ℤ) → InLimits c z → Storable (ld.to_int c (ld.of_int z))
  exact-InLimits z h = inl (rw (ok.exact c z h) h)

  null-Storable : Storable (pos 0)
  unfolding Limits
  null-Storable = let (_, _, _, least) = type-Limits c in inl least

  in_domain-Storable : (range : Bool) (v : V) → TokenStorable (in_domain t range v)
  unfolding Limits
  in_domain-Storable range v =
      let (order, least, most, _) = type-Limits c in
      let chk : ld.below (ld.of_int (type_min c)) (ld.of_int (type_max c)) ≡ true =
        ok.order c ∙ order in
      elim (Bool-cases (ld.is_special v)) [
        | inl s ↦ rw s (inr (v, s, refl))
        | inr s ↦ elim (Bool-cases (ld.below v (ld.of_int (type_min c)))) [
          | inl low ↦ rw (s, chk, low) (exact-InLimits (type_min c) least)
          | inr low ↦ elim (Bool-cases (ld.below (ld.of_int (type_max c)) v)) [
            | inl high ↦ rw (s, chk, low, high) (exact-InLimits (type_max c) most)
            | inr high ↦ rw (s, chk, low, high) (inl (ok.cut c v s low high))
          ]
        ]
      ]

  scale-Storable : (range : Bool) (v : V) (f : Option ℕ) → TokenStorable (scale t range v f)
  scale-Storable range v none = null-Storable
  scale-Storable range v (some f) = in_domain-Storable range (ld.times v (ld.of_int (pos f)))

  on_end-Storable : (range : Bool) (v : V) (end : List ℕ) → TokenStorable (on_end t range v end)
  on_end-Storable range v [] = in_domain-Storable range v
  on_end-Storable range v (d ∷ s) = scale-Storable range v (find_suffix d (suffixes c))

  on_number-Storable :
      (tok : List ℕ) (range : Bool) (r : Strtold V) → TokenStorable (on_number t tok range r)
  on_number-Storable tok range r = elim (Bool-cases (length r.end == length tok)) [
    | inl none_read ↦ rw none_read null-Storable
    | inr read ↦ rw read (on_end-Storable range r.val r.end)
  ]

  on_strtold-Storable :
      (tok : List ℕ) (o : Option ℕ) (r : Strtold V)
      → ((e : ℕ) → o ≡ some e → e ≡ erange)
      → TokenStorable (on_strtold t tok o r)
  on_strtold-Storable tok none r h = on_number-Storable tok false r
  on_strtold-Storable tok (some e) r h =
      rw (eq→== e erange (h e refl)) (on_number-Storable tok true r)

  convert_token-Storable : OnlyRange t → (tok : List ℕ) → TokenStorable (convert_token t tok)
  unfolding convert_token
  convert_token-Storable h tok =
      on_strtold-Storable tok (ld.strtold tok).errno (ld.strtold tok) (h tok)

  on_token-Storable :
      OnlyRange t → (split : Bool) (tok : List ℕ) → TokenStorable (on_token t split tok)
  on_token-Storable h true [] = null-Storable
  on_token-Storable h false [] = convert_token-Storable h []
  on_token-Storable h split (d ∷ s) = convert_token-Storable h (d ∷ s)

  store_value-Storable :
      (o : Token ℤ) (rest : Option (List ℕ)) (s : Locals ℤ) (k : Locals ℤ → Locals ℤ)
      → TokenStorable o
      → All Storable s.result
      → ((u : Locals ℤ) → All Storable u.result → All Storable (k u).result)
      → All Storable (store_value t o rest s k).result
  store_value-Storable (stores a domain range) rest s k v h f =
      f _ (All-snoc Storable s.result a h v)
  store_value-Storable (leaves a xerrno) rest s k v h f = All-snoc Storable s.result a h v

  token_loop-Storable :
      OnlyRange t
      → (room : ℕ) (split : Bool) (delim : List ℕ) (str : Option (List ℕ)) (s : Locals ℤ)
      → All Storable s.result
      → All Storable (token_loop t room split delim str s).result
  unfolding token_loop
  token_loop-Storable only zero split delim str s h = h
  token_loop-Storable only (suc room) split delim none s h = h
  token_loop-Storable only (suc room) split delim (some str) s h =
      let (tok, rest) = next_token split delim str in
      store_value-Storable (on_token t split tok) rest s (token_loop t room split delim rest)
        (on_token-Storable only split tok) h
        (λ u g. token_loop-Storable only room split delim rest u g)

  finished-Storable :
      (s : Locals ℤ) (e : Option ℕ) → All Storable s.result → All Storable (finished t s e).values
  finished-Storable s none h = h
  finished-Storable s (some e) h = h

  -- Whatever the argument, and whether the conversion succeeds or fails, each value that it stores
  -- in the vector is one of the integer type, if it is not what the C compiler makes of an infinity
  -- or a NaN. strtold() sets errno to nothing but ERANGE.
  pub clp_cvt-Storable :
      OnlyRange t
      → (room : Bool) (size : ℕ) (delim optarg : List ℕ)
      → All Storable (clp_cvt t room size delim optarg).values
  unfolding clp_cvt
  clp_cvt-Storable only room size delim optarg =
      let split = strpbrk optarg delim in
      let s = token_loop t size split delim (some optarg) (first_locals t optarg) in
      elim (Bool-cases (split && not room)) [
        | inl full ↦ rw full tt
        | inr roomy ↦ rw roomy (
            finished-Storable s (error_of t s.ndomain s.nrange (too_many t size s))
              (token_loop-Storable only size split delim (some optarg) (first_locals t optarg) tt))
      ]
