-- ===== src/Clp/Convert.antt =====
-- The conversion functions of clp.c, and those that CLP_CVT_TMPL of clp.h makes for the numbers.
--
-- long double, its conversions and strtold() are a record of functions, the type that a template is
-- for a record of constants. A vector is its size and its delimiters; the values written to `dst` are
-- a list. open(), fopen() and strdup() are arguments.
pub mod Limits
pub mod Tokens
pub mod Values
use nct.Base.{
  ℕ, zero, suc, ◌+◌, Bool, true, false, not, ◌&&◌, ◌||◌, Option, none, some, List, [], ◌∷◌, ◌++◌,
  ltb, ◌*◌, ◌^◌, u32, leb, ◌==◌, if◌then◌else◌, length,
}
use nct.Clp.Chars.{contains}
use nct.Clp.BreakArgs.{ex_dataerr, ex_oserr}

-- <errno.h>, the values of Linux, and <sysexits.h>.
abbrev pub einval : ℕ
einval = 22

abbrev pub erange : ℕ
erange = 34

abbrev pub edom : ℕ
edom = 33

abbrev pub e2big : ℕ
e2big = 7

abbrev pub enomem : ℕ
enomem = 12

abbrev pub ex_noinput : ℕ
ex_noinput = 66

-- What strtold() returns: the value, where it stopped, and errno.
pub record Strtold (V : Type 0) : Type 0 where
  pub val : V
  pub end : List ℕ
  pub errno : Option ℕ

-- long double, and the parameters of the template for a type A.
pub record Template (V A : Type 0) : Type 0 where
  pub strtold : List ℕ → Strtold V
  pub times : V → V → V
  pub below : V → V → Bool
  pub is_special : V → Bool  -- isinf() or isnan()
  pub cast : V → A
  pub null : A
  pub xmin : V
  pub xmax : V
  pub double : ℕ → V
  pub suftab : List (ℕ × ℕ)

-- clp_suftab_combo, the default, and clp_suftab_time.
abbrev pub suftab_combo : List (ℕ × ℕ)
suftab_combo =
    (b'k', 2 ^ 10)
    ∷ (b'm', 2 ^ 20)
    ∷ (b'g', 2 ^ 30)
    ∷ (b't', 2 ^ 40)
    ∷ (b'p', 2 ^ 50)
    ∷ (b'e', 2 ^ 60)
    ∷ (b'z', 2 ^ 70)
    ∷ (b'y', 2 ^ 80)
    ∷ (b'K', 10 ^ 3)
    ∷ (b'M', 10 ^ 6)
    ∷ (b'G', 10 ^ 9)
    ∷ (b'T', 10 ^ 12)
    ∷ (b'P', 10 ^ 15)
    ∷ (b'E', 10 ^ 18)
    ∷ (b'Z', 10 ^ 21)
    ∷ (b'Y', 10 ^ 24)
    ∷ (b'b', 512)
    ∷ (b'w', 4)
    ∷ []

abbrev pub suftab_time : List (ℕ × ℕ)
suftab_time =
    (b's', 1)
    ∷ (b'm', 60)
    ∷ (b'h', 3600)
    ∷ (b'd', 86400)
    ∷ (b'w', 86400 * 7)
    ∷ (b'y', 86400 * 365)
    ∷ (b'c', 86400 * 365 * 100)
    ∷ []

-- What one token comes to: a value to store_value, with whether it was out of the domain and out of range;
-- or a value that is copied before the loop is left, with `xerrno`.
pub data Token (A : Type 0) : Type 0 where
  stores : (a : A) (domain range : Bool) → Token A
  leaves : (a : A) (xerrno : Option ℕ) → Token A

-- strchr() in the list of suffixes, and the factor at its place.
unfoldable pub find_suffix : ℕ → List (ℕ × ℕ) → Option ℕ
find_suffix c [] = none
find_suffix c ((d, v) ∷ t) = let rest = find_suffix c t in if d == c then some v else rest

-- strsep(): the token up to the first delimiter, and what is behind that.
unfoldable pub strsep : List ℕ → List ℕ → List ℕ × Option (List ℕ)
strsep delim [] = ([], none)
strsep delim (c ∷ s) =
    let (tok, rest) = strsep delim s in if contains delim c then ([], some s) else (c ∷ tok, rest)

-- strpbrk() finds a delimiter.
unfoldable pub strpbrk : List ℕ → List ℕ → Bool
strpbrk [] delim = false
strpbrk (c ∷ s) delim = contains delim c || strpbrk s delim

-- The locals of the loop, and the values written to `dst`.
pub record Locals (A : Type 0) : Type 0 where
  pub result : List A
  pub n : ℕ
  pub str : Option (List ℕ)
  pub ndomain : ℕ
  pub nrange : ℕ
  pub xerrno : Option ℕ

-- What a conversion comes to: the exit code, errno, `vector->len` and the values.
pub record Converted (A : Type 0) : Type 0 where
  pub rc : ℕ
  pub errno : Option ℕ
  pub len : ℕ
  pub values : List A

abbrev pub count_if : Bool → ℕ → ℕ
count_if b n = if b then n + 1 else n

abbrev pub is_left : Option (List ℕ) → Bool
is_left none = false
is_left (some s) = true

abbrev pub next_token : Bool → List ℕ → List ℕ → List ℕ × Option (List ℕ)
next_token split delim s = if split then strsep delim s else (s, none)

module _ {V A : Type 0} (t : Template V A) where
  -- `domainchk` is not needed where `xmin` is not below `xmax`.
  abbrev pub in_domain : Bool → V → Token A
  in_domain range v =
      if t.is_special v
      then stores (t.cast v) false range
      else if t.below t.xmin t.xmax && t.below v t.xmin
      then stores (t.cast t.xmin) true range
      else if t.below t.xmin t.xmax && t.below t.xmax v
      then stores (t.cast t.xmax) true range
      else stores (t.cast v) false range

  -- The suffix, of which only the first byte is looked at.
  abbrev pub scale : Bool → V → Option ℕ → Token A
  scale range v none = leaves t.null (some einval)
  scale range v (some factor) = in_domain range (t.times v (t.double factor))

  abbrev pub on_end : Bool → V → List ℕ → Token A
  on_end range v [] = in_domain range v
  on_end range v (c ∷ _) = scale range v (find_suffix c t.suftab)

  abbrev pub on_number : List ℕ → Bool → Strtold V → Token A
  on_number tok range r =
      if length r.end == length tok then leaves t.null (some einval) else on_end range r.val r.end

  abbrev pub on_strtold : List ℕ → Option ℕ → Strtold V → Token A
  on_strtold tok none r = on_number tok false r
  on_strtold tok (some e) r =
      if e == erange then on_number tok true r else leaves (t.cast r.val) none

  -- A token that is not skipped as empty.
  unfoldable pub convert_token : List ℕ → Token A
  convert_token tok = let r = t.strtold tok in on_strtold tok r.errno r

  -- An empty token between delimiters is 0.
  abbrev pub on_token : Bool → List ℕ → Token A
  on_token split [] = if split then stores t.null false false else convert_token []
  on_token split (c ∷ s) = convert_token (c ∷ s)

  abbrev pub store_value : Token A → Option (List ℕ) → Locals A → (Locals A → Locals A) → Locals A
  store_value (stores a domain range) rest s k = k (record {
    result = s.result ++ a ∷ [];
    n = s.n + 1;
    str = rest;
    ndomain = count_if domain s.ndomain;
    nrange = count_if range s.nrange;
    xerrno = s.xerrno;
  })
  store_value (leaves a xerrno) rest s k = record s {
    result = s.result ++ a ∷ [];
    str = rest;
    xerrno = xerrno;
  }

  -- The loop, with `room` places left in the vector. `split` says that `strbase` is not null.
  unfoldable pub token_loop : ℕ → Bool → List ℕ → Option (List ℕ) → Locals A → Locals A
  token_loop zero split delim str s = s
  token_loop (suc room) split delim none s = s
  token_loop (suc room) split delim (some str) s =
      let (tok, rest) = next_token split delim str in
      store_value (on_token split tok) rest s (token_loop room split delim rest)

  -- Behind the loop: `xerrno`, in a vector of `size` places.
  abbrev pub error_of : ℕ → ℕ → Option ℕ → Option ℕ
  error_of ndomain nrange (some e) = some e
  error_of ndomain nrange none =
      if ltb 0 ndomain then some edom else if ltb 0 nrange then some erange else none

  abbrev pub too_many : ℕ → Locals A → Option ℕ
  too_many size s = if is_left s.str && leb size s.n then some e2big else s.xerrno

  abbrev pub finished : Locals A → Option ℕ → Converted A
  finished s none = record { rc = 0; errno = none; len = s.n; values = s.result }
  finished s (some e) = record { rc = ex_dataerr; errno = some e; len = s.n; values = s.result }

  abbrev pub fails_early : ℕ → Converted A
  fails_early e = record { rc = ex_dataerr; errno = some e; len = 0; values = [] }

  abbrev pub first_locals : List ℕ → Locals A
  first_locals str = record {
    result = [];
    n = 0;
    str = some str;
    ndomain = 0;
    nrange = 0;
    xerrno = none;
  }

  -- A function of the template, its pointers not null, on a vector of `size` places with the
  -- delimiters `delim`. `room` says whether strdup() succeeds.
  unfoldable pub clp_cvt : Bool → ℕ → List ℕ → List ℕ → Converted A
  clp_cvt room size delim optarg =
      let split = strpbrk optarg delim in
      let s = token_loop size split delim (some optarg) (first_locals optarg) in
      if split && not room
      then fails_early enomem
      else finished s (error_of s.ndomain s.nrange (too_many size s))

-- The other conversions, to `dst` if it is not null: the exit code, and what `dst` points to.
unfoldable pub clp_cvt_bool : Bool → ℕ × Bool
clp_cvt_bool b = (0, not b)

module _ {A : Type 0} where
  -- clp_cvt_string, clp_cvt_open and clp_cvt_fopen, by what strdup(), open() or fopen() returns.
  abbrev pub copied : ℕ → Option A → ℕ × Option A
  copied rc none = (rc, none)
  copied rc (some a) = (0, some a)

  abbrev pub to_pointer : Bool → ℕ × Option A → ℕ × Option A
  to_pointer dst out = if dst then out else (ex_dataerr, none)

  unfoldable pub clp_cvt_string : Bool → Option A → ℕ × Option A
  clp_cvt_string dst copy = to_pointer dst (copied ex_oserr copy)

  unfoldable pub clp_cvt_open : Bool → Option A → ℕ × Option A
  clp_cvt_open dst fd = to_pointer dst (copied ex_noinput fd)

  unfoldable pub clp_cvt_fopen : Bool → Option A → ℕ × Option A
  clp_cvt_fopen dst fp = to_pointer dst (copied ex_noinput fp)

-- clp_cvt_incr on an int, by its bits.
unfoldable pub clp_cvt_incr : Option ℕ → ℕ × Option ℕ
clp_cvt_incr none = (ex_dataerr, none)
clp_cvt_incr (some n) = (0, some (u32 (n + 1)))
