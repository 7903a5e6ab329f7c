-- ===== src/Examples/Converting.antt =====
-- clp.c: tests of the conversions, and the theorems of Clp/Convert at concrete inputs.
use nct.Base.{
  ℕ, ◌-◌, ◌*◌, ◌≡◌, refl, true, false, none, some, List, [], ◌∷◌, ltb, leb, if◌then◌else◌, length,
  arith, ◌+◌, ◌==◌, All,
}
use nct.Clp.Chars.{is_digit, contains}
use nct.Clp.BreakArgs.{ex_dataerr}
use nct.Clp.Convert.{
  Template, Strtold, Converted, clp_cvt, suftab_combo, strpbrk, strsep, find_suffix, token_loop,
  convert_token, edom, einval, erange, e2big,
}
use nct.Base.Integers.{ℤ, pos, negsuc, ltℤ}
use nct.Clp.Convert.Limits.{
  u_char, char, time_t, LongDouble, IsLongDouble, clp_cvt_tmpl, Storable, clp_cvt-Storable,
}
use nct.Clp.Convert.Tokens.{tokens_of}
use nct.Clp.Convert.Values.{values_of, result_of, clp_cvt-values}

-- A strtold() that reads one digit, for an unsigned char.
abbrev one_digit : List ℕ → Strtold ℕ
one_digit [] = record { val = 0; end = []; errno = none }
one_digit (c ∷ s) =
    if is_digit c
    then record { val = c - b'0'; end = s; errno = none }
    else record { val = 0; end = c ∷ s; errno = none }

abbrev for_u_char : Template ℕ ℕ
for_u_char = record {
  strtold = one_digit;
  times = ◌*◌;
  below = ltb;
  is_special = λ v. false;
  cast = λ v. v;
  null = 0;
  xmin = 0;
  xmax = 255;
  double = λ v. v;
  suftab = suftab_combo;
}

abbrev comma : List ℕ
comma = b',' ∷ []

-- `7,,3w`
abbrev three : List ℕ
three = b'7' ∷ b',' ∷ b',' ∷ b'3' ∷ b'w' ∷ []

abbrev failed : ℕ → ℕ → List ℕ → Converted ℕ
failed e n vs = record { rc = ex_dataerr; errno = some e; len = n; values = vs }

-- A vector of three, one that is too small, `1k`, which is out of the domain, `1x`, and `1bc`, of
-- which nothing behind the suffix is read.
conversions :
    (clp_cvt for_u_char true 3 comma three
      ≡ record { rc = 0; errno = none; len = 3; values = 7 ∷ 0 ∷ 12 ∷ [] })
    × (clp_cvt for_u_char true 2 comma three ≡ failed e2big 2 (7 ∷ 0 ∷ []))
    × (clp_cvt for_u_char true 1 [] (b'1' ∷ b'k' ∷ []) ≡ failed edom 1 (255 ∷ []))
    × (clp_cvt for_u_char true 1 [] (b'1' ∷ b'x' ∷ []) ≡ failed einval 0 (0 ∷ []))
    × (clp_cvt for_u_char true 1 [] (b'1' ∷ b'w' ∷ b'?' ∷ [])
        ≡ record { rc = 0; errno = none; len = 1; values = 4 ∷ [] })
unfolding clp_cvt strpbrk strsep find_suffix token_loop convert_token contains
conversions = (refl, refl, refl, refl, refl)

no_errno : (tok : List ℕ) → (one_digit tok).errno ≡ none
no_errno [] = refl
no_errno (c ∷ s) = ground arith

errno_range : (tok : List ℕ) (e : ℕ) → (one_digit tok).errno ≡ some e → e ≡ erange
errno_range tok e h = cc (no_errno tok)

clp_cvt-values_example : result_of for_u_char (clp_cvt for_u_char true 3 comma three) ≡ (
    if leb (length (tokens_of (strpbrk three comma) comma (some three))) 3
    then values_of for_u_char
        (strpbrk three comma)
        (tokens_of (strpbrk three comma) comma (some three))
    else none)
clp_cvt-values_example = clp_cvt-values for_u_char 3 comma three errno_range

-- A long double that holds integers only, with the strtold() of one digit behind a sign.
abbrev timesℤ : ℤ → ℤ → ℤ
timesℤ (pos m) (pos n) = pos (m * n)
timesℤ (pos m) (negsuc n) = negsuc (m * (n + 1) - 1)
timesℤ (negsuc m) (pos n) = negsuc ((m + 1) * n - 1)
timesℤ (negsuc m) (negsuc n) = pos ((m + 1) * (n + 1))

abbrev minus : Strtold ℕ → Strtold ℤ
minus r = record { val = negsuc (r.val - 1); end = r.end; errno = none }

abbrev signed_digit : List ℕ → Strtold ℤ
signed_digit [] = record { val = pos 0; end = []; errno = none }
signed_digit (c ∷ s) =
    if c == b'-'
    then minus (one_digit s)
    else record { val = pos (one_digit (c ∷ s)).val; end = (one_digit (c ∷ s)).end; errno = none }

abbrev integral : LongDouble ℤ
integral = record {
  strtold = signed_digit;
  times = timesℤ;
  below = ltℤ;
  is_special = λ v. false;
  of_int = λ z. z;
  to_int = λ c z. z;
}

integral-IsLongDouble : IsLongDouble integral
integral-IsLongDouble = record {
  order = λ c. refl;
  exact = λ c z h. refl;
  cut = λ c v s low high. (low, high);
}

signed_range : (tok : List ℕ) (e : ℕ) → (signed_digit tok).errno ≡ some e → e ≡ erange
signed_range [] e h = let clash : ⊥ = cc in absurd clash
signed_range (c ∷ s) e h =
    let none_set : (signed_digit (c ∷ s)).errno ≡ none = ground arith in
    let clash : ⊥ = cc in absurd clash

-- `-9k,1w` for a char and an unsigned char, and `2d` for a time_t.
abbrev two : List ℕ
two = b'-' ∷ b'9' ∷ b'k' ∷ b',' ∷ b'1' ∷ b'w' ∷ []

limited :
    ((clp_cvt (clp_cvt_tmpl integral char) true 2 comma two).values ≡ negsuc 127 ∷ pos 4 ∷ [])
    × ((clp_cvt (clp_cvt_tmpl integral u_char) true 2 comma two).values ≡ pos 0 ∷ pos 4 ∷ [])
    × ((clp_cvt (clp_cvt_tmpl integral time_t) true 1 [] (b'2' ∷ b'd' ∷ [])).values
        ≡ pos 172800 ∷ [])
unfolding clp_cvt strpbrk strsep find_suffix token_loop convert_token contains
limited = (refl, refl, refl)

clp_cvt-Storable_example :
    All
      (Storable integral char integral-IsLongDouble)
      (clp_cvt (clp_cvt_tmpl integral char) true 2 comma two).values
clp_cvt-Storable_example =
    clp_cvt-Storable integral char integral-IsLongDouble signed_range true 2 comma two
