-- ===== src/Clp/Posparam/Distribution.antt =====
-- The distribution of the arguments to the positional parameters.
use nct.Base.{
  ℕ, zero, suc, ◌+◌, ◌-◌, ◌<◌, ◌≤◌, ◌≡◌, refl, ap, sym, ◌∙◌, true, false, List, [], ◌∷◌, ◌++◌,
  length, take, drop, All, arith, Bool-cases, inl, inr, length-drop, take-append-drop, le→ltb,
  append-nil, append_assoc,
}
use nct.Clp.Posparam.{
  Posparam, clp_subcmd, sized, clp_posparam_minmax, assigned, still_needed, give, distribute,
  placed, place_arguments,
}

-- The arguments that the parameters have, in the order of the parameters.
abbrev pub given_args : List Posparam → List (List ℕ)
given_args [] = []
given_args (p ∷ ps) = p.argv ++ given_args ps

sized-posmin : (p : Posparam) → (sized p).posmin ≤ 1
unfolding sized
sized-posmin p = ground arith

sized-posmax : (p : Posparam) → 1 ≤ (sized p).posmax
unfolding sized
sized-posmax p = ground arith

sized-subcmd : (p : Posparam) → clp_subcmd p ≡ true → 1 < (sized p).posmax
unfolding sized
sized-subcmd p h = ground arith

-- A parameter that others follow leaves them no less than they need and no more than they take.
assigned-fits :
    (lo hi argc : ℕ) (p : Posparam)
    → p.posmin ≤ 1
    → 1 ≤ p.posmax
    → p.posmin + lo ≤ argc
    → argc ≤ p.posmax + hi
    → lo ≤ hi
    → (lo ≤ argc - assigned (p.posmin + lo) argc p)
      × (argc - assigned (p.posmin + lo) argc p ≤ hi)
      × (still_needed (p.posmin + lo) p ≡ lo)
unfolding assigned
assigned-fits lo hi argc p a b c d e = (ground arith, ground arith, ground arith)

-- A parameter that no other follows takes all.
assigned-all :
    (argc : ℕ) (p : Posparam)
    → p.posmin ≤ 1
    → 1 < p.posmax
    → p.posmin ≤ argc
    → argc ≤ assigned p.posmin argc p
unfolding assigned
assigned-all argc p a b c = ground arith

sized-same : (p : Posparam) → clp_subcmd (sized p) ≡ clp_subcmd p
unfolding sized
sized-same p = refl

sized-argv : (p : Posparam) → (sized p).argv ≡ p.argv
unfolding sized
sized-argv p = refl

minmax-last :
    (p : Posparam) (ps : List Posparam)
    → clp_subcmd p ≡ true
    → clp_posparam_minmax (p ∷ ps) ≡ (sized p ∷ ps, ((sized p).posmin, (sized p).posmax))
unfolding clp_posparam_minmax
minmax-last p ps h = rw h refl

minmax-on :
    (p : Posparam) (ps : List Posparam)
    → clp_subcmd p ≡ false
    → clp_posparam_minmax (p ∷ ps) ≡ (
      sized p ∷ (clp_posparam_minmax ps).0,
      (
        (sized p).posmin + (clp_posparam_minmax ps).1.0,
        (sized p).posmax + (clp_posparam_minmax ps).1.1,
      ),
    )
unfolding clp_posparam_minmax
minmax-on p ps h = rw h refl

minmax-nil : (clp_posparam_minmax []) ≡ ([], (0, 0))
unfolding clp_posparam_minmax
minmax-nil = refl

minmax-le : (ps : List Posparam) → (clp_posparam_minmax ps).1.0 ≤ (clp_posparam_minmax ps).1.1
minmax-le [] = rw minmax-nil (omega arith)
minmax-le (p ∷ ps) = elim (Bool-cases (clp_subcmd p)) [
  | inl sub ↦ rw (minmax-last p ps sub) (omega (arith, sized-posmin p, sized-posmax p))
  | inr more ↦
      rw (minmax-on p ps more) (omega (arith, sized-posmin p, sized-posmax p, minmax-le ps))
]

distribute-last :
    (lo : ℕ) (a : List ℕ) (more : List (List ℕ)) (p : Posparam) (ps : List Posparam)
    → clp_subcmd p ≡ true
    → distribute lo (a ∷ more) (p ∷ ps) ≡ (
      give (assigned lo (length (a ∷ more)) p) (a ∷ more) p ∷ ps,
      drop (assigned lo (length (a ∷ more)) p) (a ∷ more),
    )
unfolding distribute
distribute-last lo a more p ps h = rw h refl

distribute-on :
    (lo : ℕ) (a : List ℕ) (more : List (List ℕ)) (p : Posparam) (ps : List Posparam)
    → clp_subcmd p ≡ false
    → distribute lo (a ∷ more) (p ∷ ps) ≡ (
      give (assigned lo (length (a ∷ more)) p) (a ∷ more) p
          ∷ (distribute
              (still_needed lo p)
              (drop (assigned lo (length (a ∷ more)) p) (a ∷ more))
              ps).0,
      (distribute (still_needed lo p) (drop (assigned lo (length (a ∷ more)) p) (a ∷ more)) ps).1,
    )
unfolding distribute
distribute-on lo a more p ps h = rw h refl

drop-all {ℓ} : {A : Type ℓ} (n : ℕ) (xs : List A) → length xs ≤ n → drop n xs ≡ []
drop-all zero [] h = refl
drop-all zero (x ∷ xs) h = absurd (omega arith)
drop-all (suc n) [] h = refl
drop-all (suc n) (x ∷ xs) h = drop-all n xs (omega arith)

distribute-none : (lo : ℕ) (ps : List Posparam) → distribute lo [] ps ≡ (ps, [])
unfolding distribute
distribute-none lo [] = refl
distribute-none lo (p ∷ ps) = refl

distribute-no_params :
    (lo : ℕ) (args : List (List ℕ))
    → given_args (distribute lo args []).0 ++ (distribute lo args []).1 ≡ args
unfolding distribute
distribute-no_params lo args = refl

-- Nothing is left over.
distribute-all :
    (ps : List Posparam) (args : List (List ℕ))
    → (clp_posparam_minmax ps).1.0 ≤ length args
    → length args ≤ (clp_posparam_minmax ps).1.1
    → (distribute (clp_posparam_minmax ps).1.0 args (clp_posparam_minmax ps).0).1 ≡ []
distribute-all ps [] l h =
    rw (distribute-none (clp_posparam_minmax ps).1.0 (clp_posparam_minmax ps).0) refl
distribute-all [] (a ∷ more) l h =
    let few : suc (length more) ≤ 0 = rw minmax-nil at h in absurd (omega arith)
distribute-all (p ∷ ps) (a ∷ more) l h = elim (Bool-cases (clp_subcmd p)) [
  | inl sub ↦
      let q = sized p in
      let low : q.posmin ≤ length (a ∷ more) = rw (minmax-last p ps sub) at l in
      rw (minmax-last p ps sub, distribute-last q.posmin a more q ps (sized-same p ∙ sub))
        (drop-all (assigned q.posmin (length (a ∷ more)) q) (a ∷ more)
          (assigned-all (length (a ∷ more)) q (sized-posmin p) (sized-subcmd p sub) low))
  | inr on ↦
      let q = sized p in
      let m = clp_posparam_minmax ps in
      let low : q.posmin + m.1.0 ≤ length (a ∷ more) = rw (minmax-on p ps on) at l in
      let high : length (a ∷ more) ≤ q.posmax + m.1.1 = rw (minmax-on p ps on) at h in
      let n = assigned (q.posmin + m.1.0) (length (a ∷ more)) q in
      let fits =
        assigned-fits m.1.0 m.1.1 (length (a ∷ more)) q (sized-posmin p) (sized-posmax p) low high
          (minmax-le ps) in
      let size : length (drop n (a ∷ more)) ≡ length (a ∷ more) - n = length-drop n (a ∷ more) in
      rw
        (
          minmax-on p ps on,
          distribute-on (q.posmin + m.1.0) a more q m.0 (sized-same p ∙ on),
          fits.2,
        )
        (distribute-all ps (drop n (a ∷ more)) (omega (arith, size, fits.0))
          (omega (arith, size, fits.1)))
]

-- No parameter has an argument before the distribution.
abbrev pub NoArgs : List Posparam → Type 0
NoArgs = All (λ p. p.argv ≡ [])

given_args-NoArgs : (ps : List Posparam) → NoArgs ps → given_args ps ≡ []
given_args-NoArgs [] a = refl
given_args-NoArgs (p ∷ ps) a = rw (a.0, given_args-NoArgs ps a.1) refl

distribute-given_args :
    (ps : List Posparam) (lo : ℕ) (args : List (List ℕ))
    → NoArgs ps
    → given_args (distribute lo args ps).0 ++ (distribute lo args ps).1 ≡ args
distribute-given_args ps lo [] u = rw (distribute-none lo ps, given_args-NoArgs ps u) refl
distribute-given_args [] lo (a ∷ more) u = distribute-no_params lo (a ∷ more)
distribute-given_args (p ∷ ps) lo (a ∷ more) u =
    let n = assigned lo (length (a ∷ more)) p in
    elim (Bool-cases (clp_subcmd p)) [
      | inl sub ↦
          rw
            (
              distribute-last lo a more p ps sub,
              given_args-NoArgs ps u.1,
              append-nil (take n (a ∷ more)),
            )
            (take-append-drop n (a ∷ more))
      | inr on ↦ rw (distribute-on lo a more p ps on) (
          append_assoc (take n (a ∷ more)) _ _
          ∙ ap (◌++◌ (take n (a ∷ more)))
              (distribute-given_args ps (still_needed lo p) (drop n (a ∷ more)) u.1)
          ∙ take-append-drop n (a ∷ more))
    ]

minmax-NoArgs : (ps : List Posparam) → NoArgs ps → NoArgs (clp_posparam_minmax ps).0
minmax-NoArgs [] u = rw minmax-nil tt
minmax-NoArgs (p ∷ ps) u = elim (Bool-cases (clp_subcmd p)) [
  | inl sub ↦ rw (minmax-last p ps sub) (sized-argv p ∙ u.0, u.1)
  | inr on ↦ rw (minmax-on p ps on) (sized-argv p ∙ u.0, minmax-NoArgs ps u.1)
]

-- As many arguments as the parameters take, and no fewer than they need, are all given to the
-- parameters, in their order, and none is left over.
pub place_arguments-given_args :
    (ps : List Posparam) (args : List (List ℕ))
    → NoArgs ps
    → (clp_posparam_minmax ps).1.0 ≤ length args
    → length args ≤ (clp_posparam_minmax ps).1.1
    → (qs : List Posparam) × (place_arguments args ps ≡ placed qs []) × (given_args qs ≡ args)
unfolding place_arguments
place_arguments-given_args ps args u l h =
    let m = clp_posparam_minmax ps in
    let d = distribute m.1.0 args m.0 in
    let empty : d.1 ≡ [] = distribute-all ps args l h in
    let whole : given_args d.0 ++ d.1 ≡ args =
      distribute-given_args m.0 m.1.0 args (minmax-NoArgs ps u) in
    (
      d.0,
      rw (le→ltb (length args) m.1.0 l, le→ltb m.1.1 (length args) h, empty) refl,
      sym (append-nil (given_args d.0)) ∙ ap (◌++◌ (given_args d.0)) (sym empty) ∙ whole,
    )
