-- ===== src/Clp/Usage/Lists.antt =====
-- The options of a usage line that exclude each other.
use nct.Base.{
  ℕ, zero, suc, ◌+◌, ◌≡◌, refl, sym, ◌∙◌, ap, ap₂, Bool, true, false, ◌||◌, none, some, List, [],
  ◌∷◌, ◌++◌, map, ◌==◌, if◌then◌else◌, length, length-append, All, append_assoc, arith, eq→==,
  subst,
}
use nct.Clp.Options.{ClpOption, clp_find, clp_excludes2_comm}
use nct.Clp.Usage.{
  exclusive_with, exclusive_lists, exclusive_strings, letters_exclude, eq_letters, free_equal,
  free_duplicates, excludes_others, all_exclude, free_compatible,
}

-- Each two options of a list exclude each other.
abbrev pub Exclude : List ClpOption → ℕ → List ℕ → Type 0
Exclude os c = All (λ d. letters_exclude os c d ≡ true)

abbrev pub AllPairs : List ClpOption → List ℕ → Type 0
AllPairs os [] = Unit {0}
AllPairs os (c ∷ cs) = Exclude os c cs × AllPairs os cs

-- Copies of one value.
abbrev pub replicate {ℓ} : {A : Type ℓ} → ℕ → A → List A
replicate zero a = []
replicate (suc n) a = a ∷ replicate n a

module _ (os : List ClpOption) where
  exclude_comm : (c d : ℕ) → letters_exclude os c d ≡ letters_exclude os d c
  exclude_comm c d = clp_excludes2_comm (clp_find c (some os)) (clp_find d (some os))

  -- What stands around a place of the list.
  Exclude-around :
      (pre : List ℕ) (c : ℕ) (post : List ℕ)
      → AllPairs os (pre ++ c ∷ post)
      → Exclude os c pre × Exclude os c post
  Exclude-around [] c post h = (tt, h.0)
  Exclude-around (p ∷ pre) c post h =
      let ih = Exclude-around pre c post h.1 in ((exclude_comm c p ∙ excluded pre h.0, ih.0), ih.1)
    where
      excluded : (xs : List ℕ) → Exclude os p (xs ++ c ∷ post) → letters_exclude os p c ≡ true
      excluded [] a = a.0
      excluded (x ∷ xs) a = excluded xs a.1

  or_true : (b c : Bool) → c ≡ true → (b || c) ≡ true
  or_true true c e = refl
  or_true false c e = e

  with_all : (i c j : ℕ) (ds : List ℕ) → Exclude os c ds → exclusive_with os i c j ds ≡ ds
  unfolding exclusive_with
  with_all i c j [] h = refl
  with_all i c j (d ∷ ds) h =
      rw (or_true (i == j) (letters_exclude os c d) h.0) (ap (◌∷◌ d) (with_all i c (j + 1) ds h.1))

  with_self :
      (i c j : ℕ) (ds : List ℕ)
      → i ≡ j
      → Exclude os c ds
      → exclusive_with os i c j (c ∷ ds) ≡ c ∷ ds
  unfolding exclusive_with
  with_self i c j ds e h = rw (eq→== i j e) (ap (◌∷◌ c) (with_all i c (j + 1) ds h))

  with_around :
      (i c j : ℕ) (pre post : List ℕ)
      → i ≡ j + length pre
      → Exclude os c pre
      → Exclude os c post
      → exclusive_with os i c j (pre ++ c ∷ post) ≡ pre ++ c ∷ post
  unfolding exclusive_with
  with_around i c j [] post e h k = with_self i c j post (omega arith) k
  with_around i c j (p ∷ pre) post e h k =
      rw (or_true (i == j) (letters_exclude os c p) h.0)
        (ap (◌∷◌ p) (with_around i c (j + 1) pre post (omega arith) h.1 k))

  others_all : (i c j : ℕ) (ds : List ℕ) → Exclude os c ds → excludes_others os i c j ds ≡ true
  unfolding excludes_others
  others_all i c j [] h = refl
  others_all i c j (d ∷ ds) h =
      rw (or_true (i == j) (letters_exclude os c d) h.0) (others_all i c (j + 1) ds h.1)

  others_around :
      (i c j : ℕ) (pre post : List ℕ)
      → i ≡ j + length pre
      → Exclude os c pre
      → Exclude os c post
      → excludes_others os i c j (pre ++ c ∷ post) ≡ true
  unfolding excludes_others
  others_around i c j [] post e h k = rw (eq→== i j (omega arith)) (others_all i c (j + 1) post k)
  others_around i c j (p ∷ pre) post e h k =
      rw (or_true (i == j) (letters_exclude os c p) h.0)
        (others_around i c (j + 1) pre post (omega arith) h.1 k)

  -- The list with a place moved from behind to the front.
  shifted : (pre : List ℕ) (c : ℕ) (cs : List ℕ) → pre ++ c ∷ cs ≡ (pre ++ c ∷ []) ++ cs
  shifted pre c cs = sym (append_assoc pre (c ∷ []) cs)

  length-snoc : (pre : List ℕ) (c : ℕ) → length (pre ++ c ∷ []) ≡ length pre + 1
  length-snoc pre c = omega (arith, length-append pre (c ∷ []))

  lists_whole :
      (buf pre cs : List ℕ) (i : ℕ)
      → buf ≡ pre ++ cs
      → i ≡ length pre
      → AllPairs os buf
      → exclusive_lists os buf i cs ≡ replicate (length cs) (some buf)
  unfolding exclusive_lists
  lists_whole buf pre [] i e n h = refl
  lists_whole buf pre (c ∷ cs) i e n h =
      let a = Exclude-around pre c cs (subst (AllPairs os) e h) in
      let head : exclusive_with os i c 0 buf ≡ buf =
        ap (exclusive_with os i c 0) e ∙ with_around i c 0 pre cs (omega arith) a.0 a.1 ∙ sym e in
      let l = length-snoc pre c in
      ap₂ ◌∷◌ (ap some head)
        (lists_whole buf (pre ++ c ∷ []) cs (i + 1) (e ∙ shifted pre c cs) (omega arith) h)

  all_whole :
      (buf pre cs : List ℕ) (i : ℕ)
      → buf ≡ pre ++ cs
      → i ≡ length pre
      → AllPairs os buf
      → all_exclude os buf i cs ≡ true
  unfolding all_exclude
  all_whole buf pre [] i e n h = refl
  all_whole buf pre (c ∷ cs) i e n h =
      let a = Exclude-around pre c cs (subst (AllPairs os) e h) in
      let head : excludes_others os i c 0 buf ≡ true =
        ap (excludes_others os i c 0) e ∙ others_around i c 0 pre cs (omega arith) a.0 a.1 in
      let l = length-snoc pre c in
      rw head (all_whole buf (pre ++ c ∷ []) cs (i + 1) (e ∙ shifted pre c cs) (omega arith) h)

eq_letters_self : (s : List ℕ) → eq_letters s s ≡ true
eq_letters_self [] = refl
eq_letters_self (x ∷ s) = rw (eq→== x x refl) (eq_letters_self s)

freed_rest :
    (s : List ℕ) (n : ℕ) → map (free_equal (some s)) (replicate n (some s)) ≡ replicate n none
freed_rest s zero = refl
freed_rest s (suc n) = rw (eq_letters_self s) (ap (◌∷◌ none) (freed_rest s n))

nothing_to_free : (n : ℕ) → map (free_equal none) (replicate n none) ≡ replicate n none
nothing_to_free zero = refl
nothing_to_free (suc n) = ap (◌∷◌ none) (nothing_to_free n)

nones_stay : (m n : ℕ) → free_duplicates m (replicate n none) ≡ replicate n none
unfolding free_duplicates
nones_stay zero n = refl
nones_stay (suc m) zero = refl
nones_stay (suc m) (suc n) =
    ap (◌∷◌ none) (ap (free_duplicates m) (nothing_to_free n) ∙ nones_stay m n)

compatible_nones :
    (os : List ClpOption) (n : ℕ) → map (free_compatible os) (replicate n none) ≡ replicate n none
compatible_nones os zero = refl
compatible_nones os (suc n) = ap (◌∷◌ none) (compatible_nones os n)

length-replicate {ℓ} : {A : Type ℓ} (n : ℕ) (a : A) → length (replicate n a) ≡ n
length-replicate zero a = refl
length-replicate (suc n) a = ap suc (length-replicate n a)

-- Options of which each two exclude each other are printed as one group, all of them and in their
-- order, and no second group is printed for them.
pub exclusive_strings-AllPairs :
    (os : List ClpOption) (c : ℕ) (cs : List ℕ)
    → AllPairs os (c ∷ cs)
    → exclusive_strings os (c ∷ cs) ≡ some (c ∷ cs) ∷ replicate (length cs) none
unfolding exclusive_strings free_duplicates
exclusive_strings-AllPairs os c cs h =
    let s = c ∷ cs in
    let n = length cs in
    let lists = lists_whole os s [] s 0 refl refl h in
    let whole = all_whole os s [] s 0 refl refl h in
    ap (λ l. map (free_compatible os) (free_duplicates (length l) l)) lists
    ∙ ap (λ k. map (free_compatible os) (free_duplicates k (replicate (suc n) (some s))))
        (length-replicate (suc n) (some s))
    ∙ ap (λ l. map (free_compatible os) (some s ∷ free_duplicates n l)) (freed_rest s n)
    ∙ ap (λ l. map (free_compatible os) (some s ∷ l)) (nones_stay n n)
    ∙ ap₂ ◌∷◌ (ap (λ b. if b then some s else none) whole) (compatible_nones os n)
