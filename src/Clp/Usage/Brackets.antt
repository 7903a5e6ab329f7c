-- ===== src/Clp/Usage/Brackets.antt =====
-- The brackets around the optional parameters of a usage line.
use nct.Base.{
  ℕ, zero, suc, ◌+◌, ◌≡◌, refl, Bool, true, false, List, [], ◌∷◌, ◌++◌, ◌==◌, if◌then◌else◌, arith,
}
use nct.Clp.Chars.{is_space}
use nct.Clp.Posparam.{Posparam, clp_unbracket, to_bracket, trim_end, cons_unless}
use nct.Clp.Usage.{print_params, closing, is_optional, next_optional, opening, count_optional}

-- How often a byte is printed.
pub count : ℕ → List ℕ → ℕ
count x [] = 0
count x (c ∷ s) = (if x == c then 1 else 0) + count x s

count-append : (x : ℕ) (s t : List ℕ) → count x (s ++ t) ≡ count x s + count x t
unfolding count
count-append x [] t = omega arith
count-append x (c ∷ s) t = omega (arith, count-append x s t)

-- No bracket in a string.
abbrev HasNone : List ℕ → Type 0
HasNone s = (count b'[' s ≡ 0) × (count b']' s ≡ 0)

to_bracket-HasNone : (s : List ℕ) → HasNone (to_bracket s)
unfolding count to_bracket
to_bracket-HasNone [] = (refl, refl)
to_bracket-HasNone (c ∷ s) = let ih = to_bracket-HasNone s in ground arith

cons_unless-HasNone :
    (b : Bool) (c : ℕ) (s : List ℕ) → HasNone (c ∷ s) → HasNone (cons_unless b c s)
unfolding count
cons_unless-HasNone true c [] h = (refl, refl)
cons_unless-HasNone false c [] h = h
cons_unless-HasNone b c (x ∷ s) h = h

trim_end-HasNone : (s : List ℕ) → HasNone s → HasNone (trim_end s)
unfolding count trim_end
trim_end-HasNone [] h = h
trim_end-HasNone (c ∷ s) h =
    let ih = trim_end-HasNone s (omega arith, omega arith) in
    cons_unless-HasNone (is_space c) c (trim_end s) (omega arith, omega arith)

clp_unbracket-HasNone : (name : List ℕ) (bufsz : ℕ) → HasNone (clp_unbracket name bufsz).1
unfolding clp_unbracket
clp_unbracket-HasNone name bufsz = trim_end-HasNone _ (to_bracket-HasNone _)

count-closing : (n : ℕ) → (count b'[' (closing n) ≡ 0) × (count b']' (closing n) ≡ n)
unfolding count closing
count-closing zero = (refl, refl)
count-closing (suc n) = let ih = count-closing n in (omega arith, omega arith)

abbrev one_if : Bool → ℕ
one_if b = if b then 1 else 0

count-opening : (b : Bool) → (count b'[' (opening b) ≡ one_if b) × (count b']' (opening b) ≡ 0)
unfolding count
count-opening true = (refl, refl)
count-opening false = (refl, refl)

-- The brackets that are still open are closed behind the last parameter.
abbrev open_before : ℕ → List Posparam → ℕ
open_before n [] = 0
open_before n (p ∷ ps) = n

abbrev Closes : ℕ → List Posparam → Type 0
Closes n ps = count b'[' (print_params n ps) + open_before n ps ≡ count b']' (print_params n ps)

-- A string closes the brackets of which `n` are open in front of it.
abbrev ClosesIn : ℕ → List ℕ → Type 0
ClosesIn n s = count b'[' s + n ≡ count b']' s

either :
    (n : ℕ) (b : Bool) (s t : List ℕ)
    → (b ≡ true → ClosesIn n s)
    → (b ≡ false → ClosesIn n t)
    → ClosesIn n (if b then s else t)
either n true s t h k = h refl
either n false s t h k = k refl

-- What is printed behind a parameter.
abbrev behind : ℕ → List Posparam → List ℕ
behind n ps =
    let open_more = print_params n ps in
    let close_all = closing n ++ print_params 0 ps in
    if next_optional ps then open_more else close_all

closing-ClosesIn : (n : ℕ) (s : List ℕ) → count b'[' s ≡ count b']' s → ClosesIn n (closing n ++ s)
closing-ClosesIn n s h =
    let c = count-closing n in
    let l = count-append b'[' (closing n) s in
    let r = count-append b']' (closing n) s in omega (arith, c.0, c.1, l, r)

open_before-zero : (ps : List Posparam) → open_before 0 ps ≡ 0
open_before-zero [] = refl
open_before-zero (p ∷ ps) = refl

balanced_of :
    (ps : List Posparam)
    → Closes 0 ps
    → count b'[' (print_params 0 ps) ≡ count b']' (print_params 0 ps)
balanced_of ps h = let z = open_before-zero ps in omega (arith, h, z)

open_optional :
    (n : ℕ) (ps : List Posparam)
    → next_optional ps ≡ true
    → Closes n ps
    → ClosesIn n (print_params n ps)
open_optional n [] e h = cc
open_optional n (p ∷ ps) e h = h

behind-ClosesIn :
    (n : ℕ) (ps : List Posparam) → Closes n ps → Closes 0 ps → ClosesIn n (behind n ps)
behind-ClosesIn n ps h z =
    either n (next_optional ps) (print_params n ps) (closing n ++ print_params 0 ps)
      (λ e. open_optional n ps e h) (λ _. closing-ClosesIn n (print_params 0 ps) (balanced_of ps z))

counted : (b : Bool) (n : ℕ) → count_optional b n ≡ n + one_if b
counted true n = refl
counted false n = omega arith

print_params_step :
    (n : ℕ) (p : Posparam) (ps : List Posparam)
    → print_params n (p ∷ ps)
      ≡ opening (is_optional p)
        ++ (clp_unbracket p.name 128).1
        ++ behind (count_optional (is_optional p) n) ps
unfolding print_params
print_params_step n p ps = refl

parameter-ClosesIn :
    (n : ℕ) (b : Bool) (name rest : List ℕ)
    → HasNone name
    → ClosesIn (count_optional b n) rest
    → ClosesIn n (opening b ++ name ++ rest)
parameter-ClosesIn n b name rest none h =
    let o = count-opening b in
    let l1 = count-append b'[' (opening b ++ name) rest in
    let l2 = count-append b'[' (opening b) name in
    let r1 = count-append b']' (opening b ++ name) rest in
    let r2 = count-append b']' (opening b) name in
    omega (arith, h, o.0, o.1, none.0, none.1, l1, l2, r1, r2, counted b n)

nothing_left : (n : ℕ) → Closes n []
unfolding print_params count
nothing_left n = refl

print_params-Closes : (n : ℕ) (ps : List Posparam) → Closes n ps
print_params-Closes n [] = nothing_left n
print_params-Closes n (p ∷ ps) =
    let b = is_optional p in
    let m = count_optional b n in
    rw (print_params_step n p ps) (
      parameter-ClosesIn n b (clp_unbracket p.name 128).1 (behind m ps)
        (clp_unbracket-HasNone p.name 128)
        (behind-ClosesIn m ps (print_params-Closes m ps) (print_params-Closes 0 ps)))

-- The brackets that the usage line prints around the optional positional parameters are balanced: as
-- many are closed as are opened, for parameters with any names.
pub print_params-balanced :
    (ps : List Posparam) → count b'[' (print_params 0 ps) ≡ count b']' (print_params 0 ps)
print_params-balanced ps = balanced_of ps (print_params-Closes 0 ps)
