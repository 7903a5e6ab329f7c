-- ===== src/Clp/Errors.antt =====
-- clp_eprint of clp.c: the message that clp_parsev prints in the end. `text` is what vsnprintf()
-- makes of the format, and `strerror` the text for `errno`, which is none for 0.
use nct.Base.{
  ℕ, ◌+◌, ◌-◌, ◌≤◌, ◌≡◌, refl, Bool, false, not, ◌&&◌, ◌||◌, Option, none, some, List, [], ◌∷◌,
  ◌++◌, ltb, if◌then◌else◌, length, length-append, take, arith, zero, suc, Bool-cases, inl, inr,
  ltb→lt,
}
use nct.Clp.Chars.{is_alpha, is_digit}
use nct.Clp.OptString.{is_graph}
use nct.Clp.Usage.{codes}

abbrev pub errbuf_size : ℕ
errbuf_size = 128

-- ispunct(), in the C locale.
abbrev pub is_punct : ℕ → Bool
is_punct c = is_graph c && not (is_alpha c || is_digit c)

-- `errbuf[0] && !ispunct(errbuf[0])`
abbrev pub is_written : List ℕ → Bool
is_written [] = false
is_written (c ∷ s) = not (is_punct c)

-- What is appended: the text of `errno` if there was nothing in `errbuf`, else what was there.
abbrev pub appended : List ℕ → Option (List ℕ) → List ℕ
appended [] none = []
appended [] (some strerror) = codes ": " ++ strerror
appended (c ∷ suffix) errno = c ∷ suffix

-- vsnprintf(), and snprintf() behind it where there is room.
abbrev pub fill : List ℕ → List ℕ → List ℕ
fill text more =
    if ltb (length text) errbuf_size
    then text ++ take (errbuf_size - length text - 1) more
    else take (errbuf_size - 1) text

-- clp_eprint, as the new `errbuf`.
unfoldable pub clp_eprint : List ℕ → List ℕ → Option (List ℕ) → List ℕ
clp_eprint errbuf text errno =
    if is_written errbuf
    then errbuf
    else fill text (appended (take (errbuf_size - 8 - 1) errbuf) errno)

length-take_bound : (n : ℕ) (s : List ℕ) → length (take n s) ≤ n
length-take_bound zero s = omega arith
length-take_bound (suc n) [] = omega arith
length-take_bound (suc n) (c ∷ s) = let ih = length-take_bound n s in omega arith

fill-fits : (text more : List ℕ) → length (fill text more) + 1 ≤ errbuf_size
fill-fits text more = elim (Bool-cases (ltb (length text) errbuf_size)) [
  | inl short ↦
      let below = ltb→lt (length text) errbuf_size short in
      let cut = length-take_bound (errbuf_size - length text - 1) more in
      let both = length-append text (take (errbuf_size - length text - 1) more) in
      rw short (omega arith)
  | inr long ↦ let cut = length-take_bound (errbuf_size - 1) text in rw long (omega arith)
]

-- The message fits `errbuf` with its NUL, if it did before.
pub clp_eprint-fits :
    (errbuf text : List ℕ) (errno : Option (List ℕ))
    → length errbuf + 1 ≤ errbuf_size
    → length (clp_eprint errbuf text errno) + 1 ≤ errbuf_size
unfolding clp_eprint
clp_eprint-fits errbuf text errno h = elim (Bool-cases (is_written errbuf)) [
  | inl written ↦ rw written h
  | inr open_end ↦ rw open_end (fill-fits text _)
]

-- The first message stays, whatever else is reported.
pub clp_eprint-first :
    (c : ℕ) (s text : List ℕ) (errno : Option (List ℕ))
    → is_punct c ≡ false
    → clp_eprint (c ∷ s) text errno ≡ c ∷ s
unfolding clp_eprint
clp_eprint-first c s text errno e = rw e refl
