-- ===== src/Rpc/Framing.antt =====
-- nct_rpc_recv, the read loop: how a record and the mark behind it are cut from any sequence of
-- short reads. A caller with a place for the mark (nct_req_recv_loop with more than three jobs).
use nct.Base.{
  ℕ, ◌-◌, ◌^◌, ◌<◌, ◌≡◌, ◌≢◌, ◌⊎◌, inl, inr, refl, ap, sym, ◌∙◌, true, some, List, [], ◌∷◌, ◌++◌,
  map, arith, ◌==◌, ==→eq, ==→ne, Bool-cases, length, concat, All, length-append, append-cancel,
  append_assoc, append-nil, take, drop, take-append, drop-append, sub64, add64, sub64_exact,
}
use nct.Rpc.{
  Reader, Received, got, Outcome, waits, returns, for_data, count, marksz, store, end_record,
  resume, on_recv,
}

abbrev pub no_mark : List ℕ
no_mark = 0 ∷ 0 ∷ 0 ∷ 0 ∷ []

abbrev pub NonEmpty : List ℕ → Type 0
NonEmpty c = c ≢ []

-- The call returned `n`; the caller's buffer starts with the record `p`; and the bytes `q` behind
-- the record are either stored at `markp`, or still to be received, with no mark stored.
pub record Framed (p q : List ℕ) (n : ℕ) (more : List Received) (out : Outcome × List Received)
    : Type 0 where
  pub reader : Reader
  pub rest : List (List ℕ)
  pub result : out ≡ (returns (count n) reader, map got rest ++ more)
  pub filled : reader.mem ≡ p
  pub mark :
      ((reader.markp ≡ some no_mark) × (concat rest ≡ q)) ⊎ ((reader.markp ≡ some q) × (rest ≡ []))

concat-nil : (cs : List (List ℕ)) → All NonEmpty cs → length (concat cs) ≡ 0 → cs ≡ []
concat-nil [] a e = refl
concat-nil ([] ∷ cs) a e = absurd (a.0 refl)
concat-nil ((x ∷ c) ∷ cs) a e = absurd (omega arith)

module _ (recsz : ℕ) (s : Reader) {k : List ℕ} (marked : s.markp ≡ some k) where
  abbrev after : List ℕ → Reader
  after c = record s { mem = s.mem ++ c; bufsz = sub64 s.bufsz (length c) }

  store-at_mark :
      (w : ℕ) (c : List ℕ)
      → sub64 w (length c) ≡ marksz
      → store recsz w true c s ≡ returns (count recsz) (record (after c) { markp = some no_mark })
  unfolding store
  store-at_mark w c e = ground arith

  store-more :
      (w : ℕ) (c : List ℕ) {r : ℕ}
      → sub64 w (length c) ≡ r
      → r ≢ 0
      → r ≢ marksz
      → store recsz w true c s ≡ waits (for_data recsz r true) (after c)
  unfolding store
  store-more w c e z m = ground arith

  store-end :
      (w : ℕ) (c p q : List ℕ)
      → sub64 w (length c) ≡ 0
      → s.mem ++ c ≡ p ++ q
      → length q ≡ marksz
      → store recsz w true c s
        ≡ returns
            (count recsz)
            (record { mem = p; bufsz = add64 (sub64 s.bufsz (length c)) marksz; markp = some q })
  unfolding store end_record
  store-end w c p q e cut four =
      let n : length (s.mem ++ c) - marksz ≡ length p =
        omega (arith, ap length cut, length-append p q) in
      let front : take (length (s.mem ++ c) - marksz) (s.mem ++ c) ≡ p =
        rw (n, cut) (take-append p q) in
      let back : drop (length (s.mem ++ c) - marksz) (s.mem ++ c) ≡ q =
        rw (n, cut) (drop-append p q) in
      ground (arith, front, back)

-- The read loop, whatever the sizes in which the bytes arrive.
pub read_loop :
    (recsz w : ℕ) (s : Reader) (cs : List (List ℕ)) (more : List Received) (p q : List ℕ)
    {k : List ℕ}
    → s.markp ≡ some k
    → length q ≡ marksz
    → s.mem ++ concat cs ≡ p ++ q
    → All NonEmpty cs
    → w ≡ length (concat cs)
    → 0 < w
    → w < 2 ^ 64
    → Framed p q recsz more (resume (waits (for_data recsz w true) s) (map got cs ++ more))
unfolding resume on_recv
read_loop recsz w s [] more p q mk four cut ne len pos small = absurd (omega arith)
read_loop recsz w s ([] ∷ cs) more p q mk four cut ne len pos small = absurd (ne.0 refl)
read_loop recsz w s ((x ∷ c) ∷ cs) more p q mk four cut ne len pos small =
    elim (Bool-cases (length (concat cs) == marksz)) [
      | inl four_left ↦ at_mark (==→eq _ _ four_left)
      | inr other ↦ elim (Bool-cases (length (concat cs) == 0)) [
        | inl none_left ↦ all_read (concat-nil cs ne.1 (==→eq _ _ none_left))
        | inr some_left ↦ go (==→ne _ _ some_left) (==→ne _ _ other) (
            read_loop recsz (length (concat cs)) (after recsz s mk (x ∷ c)) cs more p q mk four
              regroup ne.1 refl (omega (arith, ==→ne _ _ some_left))
              (omega (arith, length-append c (concat cs))))
      ]
    ]
  where
    left : sub64 w (length (x ∷ c)) ≡ length (concat cs)
    left =
        sub64_exact w (length (x ∷ c)) (omega (arith, length-append c (concat cs))) small
        ∙ omega (arith, length-append c (concat cs))

    regroup : (s.mem ++ x ∷ c) ++ concat cs ≡ p ++ q
    regroup = append_assoc s.mem (x ∷ c) (concat cs) ∙ cut

    go :
        length (concat cs) ≢ 0
        → length (concat cs) ≢ marksz
        → Framed p q recsz more (
            resume
              (waits (for_data recsz (length (concat cs)) true) (after recsz s mk (x ∷ c)))
              (map got cs ++ more))
        → Framed p q recsz more (resume (store recsz w true (x ∷ c) s) (map got cs ++ more))
    go z m h = rw (store-more recsz s mk w (x ∷ c) left z m) h

    at_mark :
        length (concat cs) ≡ marksz
        → Framed p q recsz more (resume (store recsz w true (x ∷ c) s) (map got cs ++ more))
    at_mark e =
        let parts : (s.mem ++ x ∷ c ≡ p) × (concat cs ≡ q) =
          append-cancel (s.mem ++ x ∷ c) p regroup (e ∙ sym four) in
        rw (store-at_mark recsz s mk w (x ∷ c) (left ∙ e)) (record {
          reader = record (after recsz s mk (x ∷ c)) { markp = some no_mark };
          rest = cs;
          result = refl;
          filled = parts.0;
          mark = inl (refl, parts.1);
        })

    all_read :
        cs ≡ [] → Framed p q recsz more (resume (store recsz w true (x ∷ c) s) (map got cs ++ more))
    all_read e =
        let whole : s.mem ++ x ∷ c ≡ p ++ q =
          sym (append-nil (s.mem ++ x ∷ c)) ∙ (rw e at regroup) in
        rw
          (
            e,
            store-end recsz s mk w (x ∷ c) p q
                (left ∙ ap (λ (l : List (List ℕ)). length (concat l)) e) whole four,
          )
          (record {
            reader = record {
              mem = p;
              bufsz = add64 (sub64 s.bufsz (length (x ∷ c))) marksz;
              markp = some q;
            };
            rest = [];
            result = refl;
            filled = refl;
            mark = inr (refl, refl);
          })
