-- ===== src/Stats/Summary/Totals.antt =====
-- The totals and the extremes of the summary.
use nct.Base.{
  ℕ, zero, suc, ◌-◌, ◌≤◌, ◌<◌, ◌^◌, ◌≡◌, refl, sym, ◌∙◌, ap, subst, Bool, true, false, ltb, leb,
  arith, sub64, add64, Bool-cases, inl, inr, lt→ltb,
}
use nct.Stats.{Statsrec, Config, Sampler, samples_per_sec}
use nct.Stats.Summary.{
  Range, Reading, raw_round, raw_rounds, start_reading, read_samples, reading_end, requests_of,
  send_of, recv_of, latency_of, widen_if, widen_latency,
}
use nct.Stats.Summary.{add_total}
use nct.Stats.Summary.Rows.{
  Before, Before-next, Before-start, lines_to, adjusted, cur_record, prev_record, tail_record,
  full_now,
}

telescope :
    (a b c : ℕ) → a < 2 ^ 64 → b < 2 ^ 64 → c < 2 ^ 64 → add64 (sub64 b a) (sub64 c b) ≡ sub64 c a
unfolding add64 sub64
telescope a b c x y z = omega arith

widen_if-total : (b : Bool) (x : ℕ) (r : Range) → (widen_if b x r).total ≡ r.total
widen_if-total true x r = refl
widen_if-total false x r = refl

widen_latency-total : (l q : ℕ) (r : Range) → (widen_latency l q r).total ≡ r.total
widen_latency-total l q r = elim (Bool-cases (ltb 0 q)) [
  | inl some_request ↦ rw some_request refl
  | inr no_request ↦ rw no_request refl
]

-- A range holds a value.
abbrev pub Holds : ℕ → Range → Type 0
Holds x r = (r.least ≤ x) × (x ≤ r.greatest)

widen_if-Holds : (b : Bool) (x y : ℕ) (r : Range) → Holds y r → Holds y (widen_if b x r)
widen_if-Holds b x y r h = ground arith

widen-Holds : (b : Bool) (x : ℕ) (r : Range) → b ≡ true → Holds x (widen_if b x r)
widen-Holds b x r e = ground arith

module _ (sps start freq : ℕ) (v : ℕ → Statsrec) where
  after : ℕ → Reading
  after n = raw_rounds sps start freq n (start_reading v)

  after-Before : (n : ℕ) → Before sps start freq v n (after n)
  unfolding after raw_rounds
  after-Before zero = Before-start sps start freq v
  after-Before (suc n) = Before-next sps start freq v n (after n) (after-Before n)

  -- One measure: a member of the records that no round writes, and its range.
  module _ (f : Statsrec → ℕ) (range : Reading → Range) (small : (j : ℕ) → f (v j) < 2 ^ 64)
      (untimed : (n j : ℕ) → f (adjusted sps start freq v n j) ≡ f (v j)) where
    total_lem :
        ((s : Reading)
          → (range (raw_round sps start freq s)).total
            ≡ add64 (range s).total (sub64 (f (s.statsv s.cur)) (f (s.statsv s.prev))))
        → (range (start_reading v)).total ≡ 0
        → (n : ℕ) → (range (after n)).total ≡ sub64 (f (v n)) (f (v 0))
    unfolding after raw_rounds sub64
    total_lem step first zero = first ∙ omega (arith, small 0)
    total_lem step first (suc n) =
        let b = after-Before n in
        let ih = total_lem step first n in
        let c = ap f (cur_record sps start freq v n (after n) b) in
        let p = ap f (prev_record sps start freq v n (after n) b) ∙ untimed n n in
        step (after n)
        ∙ (λ i. add64 (ih i) (sub64 (c i) (p i)))
        ∙ telescope (f (v 0)) (f (v n)) (f (v (suc n))) (small 0) (small n) (small (suc n))

    -- How a round writes the range.
    abbrev Widens : Type 0
    Widens =
        (s : Reading)
        → range (raw_round sps start freq s)
          ≡ widen_if (leb sps (s.cur - s.tail)) (sub64 (f (s.statsv s.cur)) (f (s.statsv s.tail)))
              (add_total (sub64 (f (s.statsv s.cur)) (f (s.statsv s.prev))) (range s))

    Widens-total :
        Widens
        → (range (start_reading v)).total ≡ 0
        → (n : ℕ) → (range (after n)).total ≡ sub64 (f (v n)) (f (v 0))
    Widens-total h = total_lem (λ s.
        ap (λ r. r.total) (h s)
        ∙ widen_if-total (leb sps (s.cur - s.tail))
            (sub64 (f (s.statsv s.cur)) (f (s.statsv s.tail)))
            (add_total (sub64 (f (s.statsv s.cur)) (f (s.statsv s.prev))) (range s)))

    -- The extremes hold every second that has passed.
    extremes_lem :
        ((s : Reading) (y : ℕ) → Holds y (range s) → Holds y (range (raw_round sps start freq s)))
        → ((s : Reading)
            → leb sps (s.cur - s.tail) ≡ true
            → Holds
                (sub64 (f (s.statsv s.cur)) (f (s.statsv s.tail)))
                (range (raw_round sps start freq s)))
        → (n i : ℕ) → sps < i
        → i ≤ n
        → Holds (sub64 (f (v i)) (f (v (i - sps)))) (range (after n))
    unfolding after raw_rounds
    extremes_lem keep new zero i past upto = absurd (omega arith)
    extremes_lem keep new (suc n) i past upto = elim (Bool-cases (leb i n)) [
      | inl old ↦ keep (after n) _ (extremes_lem keep new n i past (ground arith))
      | inr last ↦
          let e : i ≡ suc n = ground arith in
          let b = after-Before n in
          let full = full_now sps start freq v n (after n) b ∙ lt→ltb sps (suc n) (omega arith) in
          let c : f ((after n).statsv (after n).cur) ≡ f (v i) =
            ap f (cur_record sps start freq v n (after n) b) ∙ ap (λ k. f (v k)) (sym e) in
          let t : f ((after n).statsv (after n).tail) ≡ f (v (i - sps)) =
            ap f (tail_record sps start freq v n (after n) b)
            ∙ untimed n _
            ∙ ap (λ k. f (v k)) (ground arith) in
          subst (λ x. Holds x (range (raw_round sps start freq (after n)))) (λ k. sub64 (c k) (t k))
            (new (after n) full)
    ]

-- The counters of all records are words.
abbrev pub AreWords : (ℕ → Statsrec) → Type 0
AreWords v =
    (j : ℕ)
    → ((v j).xsr_requests < 2 ^ 64)
      × ((v j).xsr_throughput_send < 2 ^ 64)
      × ((v j).xsr_throughput_recv < 2 ^ 64)
      × ((v j).xsr_latency < 2 ^ 64)

-- A line of `raw` for each record in turn, with its differences from the record before it and, from
-- the second second on, from the one a second before it; and the totals are the differences between
-- the last record and the first. The counters of the records are words.
pub read_samples-lines :
    (c : Config) (start : ℕ) (t : Sampler)
    → AreWords t.statsv
    → let s = read_samples c start t in
      let n = reading_end c t.cur - 1 in
      (s.raw ≡ lines_to (samples_per_sec c) start c.tsc_freq t.statsv n)
      × (s.requests.total ≡ requests_of (t.statsv n) (t.statsv 0))
      × (s.send.total ≡ send_of (t.statsv n) (t.statsv 0))
      × (s.recv.total ≡ recv_of (t.statsv n) (t.statsv 0))
      × (s.latency.total ≡ latency_of (t.statsv n) (t.statsv 0))
unfolding read_samples after raw_round start_reading
read_samples-lines c start t w =
    let sps = samples_per_sec c in
    let f = c.tsc_freq in
    let v = t.statsv in
    let n = reading_end c t.cur - 1 in
    (
      (after-Before sps start f v n).lines,
      Widens-total sps start f v (λ r. r.xsr_requests) (λ s. s.requests) (λ j. (w j).0)
          (λ k j. ground arith) (λ s. refl) refl n,
      Widens-total sps start f v (λ r. r.xsr_throughput_send) (λ s. s.send) (λ j. (w j).1)
          (λ k j. ground arith) (λ s. refl) refl n,
      Widens-total sps start f v (λ r. r.xsr_throughput_recv) (λ s. s.recv) (λ j. (w j).2)
          (λ k j. ground arith) (λ s. refl) refl n,
      total_lem sps start f v (λ r. r.xsr_latency) (λ s. s.latency) (λ j. (w j).3)
          (λ k j. ground arith) (λ s. widen_latency-total _ _ _) refl n,
    )

-- The least and the greatest number of requests, bytes sent and bytes received in a second hold every
-- second that ends with a record that was read, from the second second on.
pub read_samples-Holds :
    (c : Config) (start : ℕ) (t : Sampler) (i : ℕ)
    → AreWords t.statsv
    → samples_per_sec c < i
    → i ≤ reading_end c t.cur - 1
    → let s = read_samples c start t in
      let ago = i - samples_per_sec c in
      Holds (requests_of (t.statsv i) (t.statsv ago)) s.requests
      × Holds (send_of (t.statsv i) (t.statsv ago)) s.send
      × Holds (recv_of (t.statsv i) (t.statsv ago)) s.recv
unfolding read_samples after raw_round
read_samples-Holds c start t i w past upto =
    let sps = samples_per_sec c in
    let f = c.tsc_freq in
    let v = t.statsv in
    let n = reading_end c t.cur - 1 in
    (
      extremes_lem sps start f v (λ r. r.xsr_requests) (λ s. s.requests) (λ j. (w j).0)
          (λ k j. ground arith) (λ s y h. widen_if-Holds _ _ y _ h) (λ s e. widen-Holds _ _ _ e) n i
          past upto,
      extremes_lem sps start f v (λ r. r.xsr_throughput_send) (λ s. s.send) (λ j. (w j).1)
          (λ k j. ground arith) (λ s y h. widen_if-Holds _ _ y _ h) (λ s e. widen-Holds _ _ _ e) n i
          past upto,
      extremes_lem sps start f v (λ r. r.xsr_throughput_recv) (λ s. s.recv) (λ j. (w j).2)
          (λ k j. ground arith) (λ s y h. widen_if-Holds _ _ y _ h) (λ s e. widen-Holds _ _ _ e) n i
          past upto,
    )
