-- ===== src/Rpc/Fragments.antt =====
-- nct_rpc_recv with a null `markp` (nct_nfs_mount, and nct_req_recv_loop with few jobs), and
-- messages of more than one fragment.
use nct.Base.{
  ℕ, ◌+◌, ◌-◌, ◌/◌, ◌%◌, ◌^◌, ◌<◌, ◌≤◌, ◌≡◌, ◌≢◌, refl, ap, sym, ◌∙◌, Bool, true, false, none, List,
  [], ◌∷◌, ◌++◌, map, arith, length, concat, All, length-append, append_assoc, append-nil, sub64,
  sub64_exact, htonl, ntohl-htonl, le→ltb, ne→==,
}
use nct.Rpc.{
  Ssize, count, Reader, Received, got, Outcome, waits, returns, for_data, for_mark, nct_rpc_recv,
  resume, on_recv, again, enter_record, begin_record, end_record, store,
}
use nct.Rpc.Framing.{NonEmpty}
use nct.Rpc.Stream.{last_mark}

-- The mark of a fragment that others follow.
abbrev pub more_mark : ℕ → List ℕ
more_mark n = htonl n

-- No read stops exactly four bytes short of the end.
abbrev pub NoFourLeft : List (List ℕ) → Type 0
NoFourLeft [] = Unit {0}
NoFourLeft (c ∷ cs) = (length (concat cs) ≢ 4) × NoFourLeft cs

module _ (s : Reader) (unmarked : s.markp ≡ none) where
  abbrev after : List ℕ → Reader
  after c = record s { mem = s.mem ++ c; bufsz = sub64 s.bufsz (length c) }

  store-done :
      (recsz w : ℕ) (c : List ℕ)
      → sub64 w (length c) ≡ 0
      → store recsz w true c s ≡ returns (count recsz) (after c)
  unfolding store end_record
  store-done recsz w c e = ground arith

  store-four :
      (recsz w : ℕ) (c : List ℕ)
      → sub64 w (length c) ≡ 4
      → store recsz w true c s ≡ returns (count recsz) (after c)
  unfolding store
  store-four recsz w c e = ground arith

  store-more :
      (recsz w : ℕ) (c : List ℕ) {r : ℕ}
      → sub64 w (length c) ≡ r
      → r ≢ 0
      → r ≢ 4
      → store recsz w true c s ≡ waits (for_data recsz r true) (after c)
  unfolding store
  store-more recsz w c e z m = ground arith

  store-next :
      (recsz w : ℕ) (c : List ℕ)
      → sub64 w (length c) ≡ 0
      → store recsz w false c s ≡ waits for_mark (after c)
  unfolding store end_record again
  store-next recsz w c e = ground arith

  entered :
      (n : ℕ)
      → 0 < n
      → n < 2 ^ 31
      → n + 4 ≤ s.bufsz
      → enter_record (last_mark n) s ≡ waits (for_data n n true) s
  unfolding enter_record begin_record
  entered n pos small room =
      let size : (n + 2 ^ 31) % 2 ^ 31 ≡ n = omega arith in
      let flag : (n + 2 ^ 31) / 2 ^ 31 % 2 ≡ 1 = omega arith in
      rw (
        ntohl-htonl (n + 2 ^ 31) (omega arith),
        size,
        flag,
        unmarked,
        le→ltb s.bufsz (n + 4) room,
        ne→== n 0 (omega arith),
      )

  entered_more :
      (n : ℕ)
      → 0 < n
      → n < 2 ^ 31
      → n + 4 ≤ s.bufsz
      → enter_record (more_mark n) s ≡ waits (for_data n n false) s
  unfolding enter_record begin_record
  entered_more n pos small room =
      let size : n % 2 ^ 31 ≡ n = omega arith in
      let flag : n / 2 ^ 31 % 2 ≡ 0 = omega arith in
      rw (
        ntohl-htonl n (omega arith),
        size,
        flag,
        unmarked,
        le→ltb s.bufsz (n + 4) room,
        ne→== n 0 (omega arith),
      )

module _ (es : List Received) where
  resume-start :
      (bufsz v : ℕ)
      → nct_rpc_recv bufsz none (got (htonl v) ∷ es)
        ≡ resume (enter_record (htonl v) (record { mem = []; bufsz = bufsz; markp = none })) es
  unfolding nct_rpc_recv again resume on_recv htonl
  resume-start bufsz v = refl

  resume-mark :
      (v : ℕ) (s : Reader)
      → resume (waits for_mark s) (got (htonl v) ∷ es) ≡ resume (enter_record (htonl v) s) es
  unfolding resume on_recv htonl
  resume-mark v s = refl

  resume-data :
      (recsz w : ℕ) (last : Bool) (x : ℕ) (c : List ℕ) (s : Reader)
      → resume (waits (for_data recsz w last) s) (got (x ∷ c) ∷ es)
        ≡ resume (store recsz w last (x ∷ c) s) es
  unfolding resume on_recv
  resume-data recsz w last x c s = refl

  resume-returned : (r : Ssize) (s : Reader) → resume (returns r s) es ≡ (returns r s, es)
  unfolding resume
  resume-returned r s = refl

-- The result of a call with no place for a mark, as far as the caller can see it.
pub record Delivered (p : List ℕ) (n : ℕ) (more : List Received) (out : Outcome × List Received)
    : Type 0 where
  pub reader : Reader
  pub result : out ≡ (returns (count n) reader, more)
  pub filled : reader.mem ≡ p

read_loop :
    (recsz w : ℕ) (s : Reader) (cs : List (List ℕ)) (more : List Received) (p : List ℕ)
    → s.markp ≡ none
    → s.mem ++ concat cs ≡ p
    → All NonEmpty cs
    → NoFourLeft cs
    → w ≡ length (concat cs)
    → 0 < w
    → w < 2 ^ 64
    → Delivered p recsz more (resume (waits (for_data recsz w true) s) (map got cs ++ more))
read_loop recsz w s [] more p un cut ne nf len pos small = absurd (omega arith)
read_loop recsz w s ([] ∷ cs) more p un cut ne nf len pos small = absurd (ne.0 refl)
read_loop recsz w s ((x ∷ c) ∷ []) more p un cut ne nf len pos small =
    let left : sub64 w (length (x ∷ c)) ≡ 0 =
      sub64_exact w (length (x ∷ c)) (omega (arith, ap length (append-nil c))) small
      ∙ omega (arith, ap length (append-nil c)) in
    rw (resume-data more, store-done s un recsz w (x ∷ c) left, resume-returned more)
      (record {
        reader = after s un (x ∷ c);
        result = refl;
        filled = ap (λ l. s.mem ++ l) (sym (append-nil (x ∷ c))) ∙ cut;
      })
read_loop recsz w s ((x ∷ c) ∷ [] ∷ cs) more p un cut ne nf len pos small = absurd (ne.1.0 refl)
read_loop recsz w s ((x ∷ c) ∷ (y ∷ d) ∷ cs) more p un cut ne nf len pos small =
    let tail : List (List ℕ) = (y ∷ d) ∷ cs in
    let left : sub64 w (length (x ∷ c)) ≡ length (concat tail) =
      sub64_exact w (length (x ∷ c)) (omega (arith, length-append c (concat tail))) small
      ∙ omega (arith, length-append c (concat tail)) in
    rw (resume-data (map got tail ++ more), store-more s un recsz w (x ∷ c) left (omega arith) nf.0)
      (read_loop recsz (length (concat tail)) (after s un (x ∷ c)) ((y ∷ d) ∷ cs) more p un
        (append_assoc s.mem (x ∷ c) (concat tail) ∙ cut) ne.1 nf.1 refl (omega arith)
        (omega (arith, length-append c (concat tail))))

-- A record of one fragment is received whole with a null `markp`, in reads of any sizes of which
-- none stops exactly four bytes before the end.
pub nct_rpc_recv-Delivered :
    (bufsz : ℕ) (p : List ℕ) (cs : List (List ℕ)) (more : List Received)
    → 0 < length p
    → length p < 2 ^ 31
    → length p + 4 ≤ bufsz
    → All NonEmpty cs
    → NoFourLeft cs
    → concat cs ≡ p
    → Delivered p
        (length p)
        more
        (nct_rpc_recv bufsz none (got (last_mark (length p)) ∷ map got cs ++ more))
nct_rpc_recv-Delivered bufsz p cs more pos small room ne nf cut =
    let s : Reader = record { mem = []; bufsz = bufsz; markp = none } in
    rw (resume-start (map got cs ++ more), entered s refl (length p) pos small room)
      (read_loop (length p) (length p) s cs more p refl cut ne nf (ap length (sym cut)) pos
        (omega arith))

-- A read that stops four bytes before the end makes the call report the whole record: the
-- buffer lacks its last four bytes, and they are left in the stream.
pub nct_rpc_recv-short :
    (bufsz : ℕ) (x : ℕ) (p q : List ℕ) (more : List Received)
    → length q ≡ 4
    → length (x ∷ p) + 4 < 2 ^ 31
    → length (x ∷ p) + 8 ≤ bufsz
    → Delivered (x ∷ p) (length ((x ∷ p) ++ q)) (got q ∷ more) (
        nct_rpc_recv bufsz none
          (got (last_mark (length ((x ∷ p) ++ q))) ∷ got (x ∷ p) ∷ got q ∷ more))
nct_rpc_recv-short bufsz x p q more four small room =
    let s : Reader = record { mem = []; bufsz = bufsz; markp = none } in
    let n : ℕ = length ((x ∷ p) ++ q) in
    let size : n ≡ length (x ∷ p) + 4 = omega (arith, length-append p q) in
    let left : sub64 n (length (x ∷ p)) ≡ 4 =
      sub64_exact n (length (x ∷ p)) (omega arith) (omega arith) ∙ omega arith in
    rw
      (
        resume-start (got (x ∷ p) ∷ got q ∷ more),
        entered s refl n (omega arith) (omega arith) (omega arith),
        resume-data (got q ∷ more),
        store-four s refl n n (x ∷ p) left,
        resume-returned (got q ∷ more),
      )
      (record { reader = after s refl (x ∷ p); result = refl; filled = refl })

-- A message of two fragments: the payloads stand one behind the other in the buffer, and the call
-- returns the length of the second fragment alone.
pub nct_rpc_recv-two_fragments :
    (bufsz : ℕ) (x y : ℕ) (p q : List ℕ) (more : List Received)
    → length (x ∷ p) < 2 ^ 31
    → length (y ∷ q) < 2 ^ 31
    → length (x ∷ p) + length (y ∷ q) + 4 ≤ bufsz
    → bufsz < 2 ^ 64
    → Delivered ((x ∷ p) ++ y ∷ q) (length (y ∷ q)) more (
        nct_rpc_recv bufsz none (
          got (more_mark (length (x ∷ p)))
          ∷ got (x ∷ p)
          ∷ got (last_mark (length (y ∷ q)))
          ∷ got (y ∷ q)
          ∷ more))
nct_rpc_recv-two_fragments bufsz x y p q more hp hq room big =
    let s : Reader = record { mem = []; bufsz = bufsz; markp = none } in
    let m : ℕ = length (x ∷ p) in
    let n : ℕ = length (y ∷ q) in
    let s' : Reader = after s refl (x ∷ p) in
    let none_left : (k : ℕ) → k < 2 ^ 31 → sub64 k k ≡ 0 =
      λ k h. sub64_exact k k (omega arith) (omega arith) ∙ omega arith in
    let free : sub64 bufsz m ≡ bufsz - m = sub64_exact bufsz m (omega arith) big in
    rw
      (
        resume-start (got (x ∷ p) ∷ got (last_mark n) ∷ got (y ∷ q) ∷ more),
        entered_more s refl m (omega arith) hp (omega arith),
        resume-data (got (last_mark n) ∷ got (y ∷ q) ∷ more),
        store-next s refl m m (x ∷ p) (none_left m hp),
        resume-mark (got (y ∷ q) ∷ more),
        entered s' refl n (omega arith) hq (omega arith),
        resume-data more,
        store-done s' refl n n (y ∷ q) (none_left n hq),
        resume-returned more,
      )
      (record { reader = after s' refl (y ∷ q); result = refl; filled = refl })
