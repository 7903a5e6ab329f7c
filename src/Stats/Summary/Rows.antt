-- ===== src/Stats/Summary/Rows.antt =====
-- The lines of `raw` and the totals, from the records as the sampling loop left them.
use nct.Base.{
  ℕ, zero, suc, ◌+◌, ◌-◌, ◌≡◌, refl, ◌∙◌, ap, ◌&&◌, none, some, List, [], ◌∷◌, ◌++◌, ltb, leb, ◌==◌,
  if◌then◌else◌, arith, sub64,
}
use nct.Req.State.{update}
use nct.Stats.{Statsrec}
use nct.Stats.Summary.{
  RawRow, Reading, usec, raw_row, raw_round, start_reading, requests_of, send_of, recv_of,
  latency_of,
}

module _ (samples_per_sec tsc_start tsc_freq : ℕ) (v : ℕ → Statsrec) where
  -- The time of a record from the start on, and of the first one as it is.
  abbrev pub elapsed : ℕ → ℕ
  elapsed i = if i == 0 then (v i).xsr_time else sub64 (v i).xsr_time tsc_start

  -- What the record `i` is averaged over: the second before it, or all the time.
  abbrev pub averaged : (Statsrec → ℕ) → ℕ → ℕ
  averaged f i =
      if ltb samples_per_sec i then sub64 (f (v i)) (f (v (i - samples_per_sec))) else f (v i)

  -- The line for the record `i`.
  pub line_for : ℕ → RawRow
  line_for i = record {
    sample = (v i).xsr_sample;
    time = usec tsc_freq (elapsed i);
    duration = usec tsc_freq (sub64 (elapsed i) (elapsed (i - 1)));
    latency = usec tsc_freq (latency_of (v i) (v (i - 1)));
    requests = requests_of (v i) (v (i - 1));
    send = send_of (v i) (v (i - 1));
    recv = recv_of (v i) (v (i - 1));
    requests_ra = averaged (λ r. r.xsr_requests) i;
    send_ra = averaged (λ r. r.xsr_throughput_send) i;
    recv_ra = averaged (λ r. r.xsr_throughput_recv) i;
  }

  -- The lines for the records 1 to n.
  pub lines_to : ℕ → List RawRow
  lines_to zero = []
  lines_to (suc n) = lines_to n ++ line_for (suc n) ∷ []

  -- The array with the times of the records 1 to n changed.
  abbrev pub adjusted : ℕ → ℕ → Statsrec
  adjusted n j =
      if ltb 0 j && leb j n then record (v j) { xsr_time = sub64 (v j).xsr_time tsc_start } else v j

  abbrev pub tail_at : ℕ → ℕ
  tail_at i = if ltb samples_per_sec i then i - samples_per_sec else 1

  -- The state before the round for the record n + 1.
  pub record Before (n : ℕ) (s : Reading) : Type 0 where
    pub at : s.cur ≡ suc n
    pub behind : s.prev ≡ n
    pub window : s.tail ≡ tail_at (suc n)
    pub array : (j : ℕ) → s.statsv j ≡ adjusted n j
    pub lines : s.raw ≡ lines_to n

  adjusted_next :
      (n j : ℕ)
      → update
          (adjusted n)
          (suc n)
          (record (v (suc n)) { xsr_time = sub64 (v (suc n)).xsr_time tsc_start })
          j
        ≡ adjusted (suc n) j
  adjusted_next n j = ground arith

  adjusted_cur : (n : ℕ) → adjusted n (suc n) ≡ v (suc n)
  adjusted_cur n = ground arith

  full_at :
      (n cur tail : ℕ)
      → cur ≡ suc n
      → tail ≡ tail_at (suc n)
      → leb samples_per_sec (cur - tail) ≡ ltb samples_per_sec (suc n)
  full_at n cur tail e f = ground arith

  window_next :
      (n : ℕ)
      → (if ltb samples_per_sec (suc n) then tail_at (suc n) + 1 else tail_at (suc n))
        ≡ tail_at (suc (suc n))
  window_next n = ground arith

  row_lem :
      (n : ℕ)
      → raw_row tsc_freq
          (record (v (suc n)) { xsr_time = sub64 (v (suc n)).xsr_time tsc_start })
          (adjusted n n)
          (if ltb samples_per_sec (suc n) then some (adjusted n (tail_at (suc n))) else none)
        ≡ line_for (suc n)
  unfolding raw_row line_for
  row_lem n = ground arith

  timed : Statsrec → Statsrec
  timed c = record c { xsr_time = sub64 c.xsr_time tsc_start }

  round_row : Reading → RawRow
  round_row s =
      raw_row tsc_freq
        (record (s.statsv s.cur) { xsr_time = sub64 (s.statsv s.cur).xsr_time tsc_start })
        (s.statsv s.prev)
        (if leb samples_per_sec (s.cur - s.tail) then some (s.statsv s.tail) else none)

  module _ (n : ℕ) (s : Reading) (b : Before n s) where
    pub cur_record : s.statsv s.cur ≡ v (suc n)
    cur_record = ap s.statsv b.at ∙ b.array (suc n) ∙ adjusted_cur n

    pub prev_record : s.statsv s.prev ≡ adjusted n n
    prev_record = ap s.statsv b.behind ∙ b.array n

    pub tail_record : s.statsv s.tail ≡ adjusted n (tail_at (suc n))
    tail_record = ap s.statsv b.window ∙ b.array (tail_at (suc n))

    pub full_now : leb samples_per_sec (s.cur - s.tail) ≡ ltb samples_per_sec (suc n)
    full_now = full_at n s.cur s.tail b.at b.window

    row_now : round_row s ≡ line_for (suc n)
    unfolding round_row
    row_now =
        (λ i.
          raw_row tsc_freq
            (record (cur_record i) { xsr_time = sub64 (cur_record i).xsr_time tsc_start })
            (prev_record i) (if full_now i then some (tail_record i) else none))
        ∙ row_lem n

    array_next :
        (j : ℕ) → (raw_round samples_per_sec tsc_start tsc_freq s).statsv j ≡ adjusted (suc n) j
    unfolding raw_round
    array_next j =
        (λ i.
          if b.at i == j
          then record (cur_record i) { xsr_time = sub64 (cur_record i).xsr_time tsc_start }
          else b.array j i)
        ∙ adjusted_next n j

    pub Before-next : Before (suc n) (raw_round samples_per_sec tsc_start tsc_freq s)
    unfolding raw_round lines_to round_row
    Before-next = record {
      at = omega (arith, b.at);
      behind = b.at;
      window = (λ i. if full_now i then b.window i + 1 else b.window i) ∙ window_next n;
      array = array_next;
      lines = (λ i. b.lines i ++ row_now i ∷ []);
    }

  pub Before-start : Before 0 (start_reading v)
  unfolding start_reading lines_to
  Before-start = record {
    at = refl;
    behind = refl;
    window = ground arith;
    array = λ j. ground arith;
    lines = refl;
  }
