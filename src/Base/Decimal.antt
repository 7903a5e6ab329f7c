-- ===== src/Base/Decimal.antt =====
-- Numbers as printf() prints them, and read back.
use Prim.Native.Nat.{ℕ, zero, suc, ◌+◌, ◌-◌, ◌*◌, ◌/◌, ◌%◌, ◌^◌, ◌<◌, ◌≤◌}
use mathlib.Core.Path.{◌≡◌, refl, ap, ◌∙◌}
use mathlib.Core.Logic.{inl, inr}
use mathlib.Core.Bool.{Bool, true, false, ◌&&◌}
use mathlib.Core.Option.{Option, none, some}
use mathlib.Core.List.{List, [], ◌∷◌, ◌++◌}
use native.Mathlib.Omega.{arith}
use nct.Base.Tests.{leb, if◌then◌else◌, Bool-cases}
use nct.Base.Lists.{length}

-- `%-*s` and `%*s` fill up with blanks.
unfoldable pub spaces : ℕ → List ℕ
spaces zero = []
spaces (suc n) = b' ' ∷ spaces n

-- `%*s`
abbrev pub string_in : ℕ → List ℕ → List ℕ
string_in width s = spaces (width - length s) ++ s

-- The last `k` digits of a number, without leading zeros, in front of a text.
unfoldable pub decimal_from : ℕ → ℕ → List ℕ → List ℕ
decimal_from zero n text = text
decimal_from (suc k) n text = elim (leb n 9) [
  | true ↦ (b'0' + n) ∷ text
  | false ↦ decimal_from k (n / 10) ((b'0' + n % 10) ∷ text)
]

-- `%lu`: a word of 64 bits has at most 20 digits.
abbrev pub decimal : ℕ → List ℕ → List ℕ
decimal n text = decimal_from 20 n text

-- `%*lu`
abbrev pub decimal_in : ℕ → ℕ → List ℕ → List ℕ
decimal_in width n text = spaces (width - length (decimal n [])) ++ decimal n text

abbrev pub is_decimal : ℕ → Bool
is_decimal c = leb b'0' c && leb c b'9'

-- The numbers in a text, of which `v` is the one being read.
unfoldable pub numbers_from : Option ℕ → List ℕ → List ℕ
numbers_from none [] = []
numbers_from (some v) [] = v ∷ []
numbers_from none (c ∷ s) =
    let on = numbers_from (some (c - b'0')) s in
    let off = numbers_from none s in if is_decimal c then on else off
numbers_from (some v) (c ∷ s) =
    let on = numbers_from (some (v * 10 + (c - b'0'))) s in
    let off = numbers_from none s in if is_decimal c then on else v ∷ off

abbrev pub numbers : List ℕ → List ℕ
numbers s = numbers_from none s

is_decimal_digit : (d : ℕ) → d ≤ 9 → is_decimal (b'0' + d) ≡ true
is_decimal_digit d h = ground arith

back : (d : ℕ) → b'0' + d - b'0' ≡ d
back d = omega arith

first_digit :
    (d : ℕ) (text : List ℕ) → d ≤ 9 → numbers ((b'0' + d) ∷ text) ≡ numbers_from (some d) text
unfolding numbers_from
first_digit d text h = rw (is_decimal_digit d h, back d) refl

next_digit :
    (v d : ℕ) (text : List ℕ)
    → d ≤ 9
    → numbers_from (some v) ((b'0' + d) ∷ text) ≡ numbers_from (some (v * 10 + d)) text
unfolding numbers_from
next_digit v d text h = rw (is_decimal_digit d h, back d) refl

numbers-decimal_from :
    (k n : ℕ) (text : List ℕ)
    → n < 10 ^ suc k
    → numbers (decimal_from (suc k) n text) ≡ numbers_from (some n) text
unfolding decimal_from
numbers-decimal_from zero n text h =
    let small : leb n 9 ≡ true = ground arith in
    rw (small, decimal_from) (first_digit n text (omega arith))
numbers-decimal_from (suc k) n text h = elim (Bool-cases (leb n 9)) [
  | inl small ↦ rw (small, decimal_from) (first_digit n text (ground arith))
  | inr large ↦
      let low : n / 10 < 10 ^ suc k = omega arith in
      let digit : n % 10 ≤ 9 = omega arith in
      let whole : n / 10 * 10 + n % 10 ≡ n = omega arith in
      rw (large, decimal_from)
        (numbers-decimal_from k (n / 10) ((b'0' + n % 10) ∷ text) low
          ∙ next_digit (n / 10) (n % 10) text digit
          ∙ ap (λ v. numbers_from (some v) text) whole)
]

numbers-spaces : (k : ℕ) (text : List ℕ) → numbers (spaces k ++ text) ≡ numbers text
unfolding spaces numbers_from
numbers-spaces zero text = refl
numbers-spaces (suc k) text = numbers-spaces k text

end_number :
    (v c : ℕ) (text : List ℕ)
    → is_decimal c ≡ false
    → numbers_from (some v) (c ∷ text) ≡ v ∷ numbers text
unfolding numbers_from
end_number v c text h = rw h refl

-- A printed word with something behind it that is no digit is read back, in front of what is read
-- there.
pub numbers-decimal_in :
    (width n c : ℕ) (text : List ℕ) {rest : List ℕ}
    → n < 2 ^ 64
    → is_decimal c ≡ false
    → numbers text ≡ rest
    → numbers (decimal_in width n (c ∷ text)) ≡ n ∷ rest
numbers-decimal_in width n c text h off e =
    numbers-spaces (width - length (decimal n [])) (decimal n (c ∷ text))
    ∙ numbers-decimal_from 19 n (c ∷ text) (omega arith)
    ∙ end_number n c text off
    ∙ ap (◌∷◌ n) e
