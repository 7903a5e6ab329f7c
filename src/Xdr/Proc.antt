-- ===== src/Xdr/Proc.antt =====
-- XDR procedures, each of which encodes and decodes, and their composition by `&&`.
use nct.Base.{ℕ, ◌≡◌, refl, Option, none, some, List, ◌++◌, append_assoc, Option-cases, inl, inr}

-- An xdrproc_t for objects of type A: the bytes that it appends when it encodes, and the object
-- and the bytes left when it decodes; `none` where it returns FALSE.
pub record Codec {ℓ} (A : Type ℓ) : Type ℓ where
  pub encode : A → Option (List ℕ)
  pub decode : List ℕ → Option (A × List ℕ)

abbrev pub encode_then : Option (List ℕ) → Option (List ℕ) → Option (List ℕ)
encode_then none q = none
encode_then (some xs) none = none
encode_then (some xs) (some ys) = some (xs ++ ys)

module _ {ℓ} {A B : Type ℓ} where
  abbrev pub decode_then :
      Option (A × List ℕ) → (List ℕ → Option (B × List ℕ)) → Option ((A × B) × List ℕ)
  decode_then none next = none
  decode_then (some (a, rest)) next = elim (next rest) [
    | none ↦ none
    | some (b, rest') ↦ some ((a, b), rest')
  ]

infixr 40 ◌&&&◌
-- `f(xdrs, &a) && g(xdrs, &b)`
unfoldable pub ◌&&&◌ {ℓ} : {A B : Type ℓ} → Codec A → Codec B → Codec (A × B)
c &&& d = record {
  encode = λ p. encode_then (c.encode p.0) (d.encode p.1);
  decode = λ bytes. decode_then (c.decode bytes) d.decode;
}

abbrev map_first {ℓ} : {A B : Type ℓ} → (A → B) → Option (A × List ℕ) → Option (B × List ℕ)
map_first f none = none
map_first f (some (a, rest)) = some (f a, rest)

-- The members of a struct: where they are read from, and where they are stored.
unfoldable pub members {ℓ} : {A B : Type ℓ} → (B → A) → (A → B) → Codec A → Codec B
members from to c = record {
  encode = λ b. c.encode (from b);
  decode = λ bytes. map_first to (c.decode bytes);
}

-- What is encoded decodes to the same object, with the bytes behind it left.
pub record RoundTrips {ℓ} {A : Type ℓ} (c : Codec A) : Type ℓ where
  pub back :
      (a : A) (bytes rest : List ℕ)
      → c.encode a ≡ some bytes
      → c.decode (bytes ++ rest) ≡ some (a, rest)

pub &&&-RoundTrips {ℓ} :
    {A B : Type ℓ} {c : Codec A} {d : Codec B} → RoundTrips c → RoundTrips d → RoundTrips (c &&& d)
unfolding ◌&&&◌
&&&-RoundTrips {c} {d} f g = record {
  back = λ p bytes rest e. elim (Option-cases (c.encode p.0)) [
    | inl n ↦ let clash : none ≡ some bytes = rw n at e in cc
    | inr (xs, ex) ↦ elim (Option-cases (d.encode p.1)) [
      | inl n ↦ let clash : none ≡ some bytes = rw (ex, n) at e in cc
      | inr (ys, ey) ↦
          let whole : bytes ≡ xs ++ ys = cc (e, ex, ey) in
          rw
            (
              whole,
              append_assoc xs ys rest,
              f.back p.0 xs (ys ++ rest) ex,
              decode_then,
              g.back p.1 ys rest ey,
            )
            refl
    ]
  ];
}

pub members-RoundTrips {ℓ} :
    {A B : Type ℓ} {c : Codec A} (from : B → A) (to : A → B)
    → ((b : B) → to (from b) ≡ b)
    → RoundTrips c
    → RoundTrips (members from to c)
unfolding members
members-RoundTrips from to same f = record {
  back = λ b bytes rest e. rw (f.back (from b) bytes rest e, same b) refl;
}
