-- ===== src/Stats/Summary.antt =====
-- nct.c: the second half of nct_stats_loop, which reads the records of the array, writes a line of
-- the file `raw` for each, and prints the summary.
--
-- `cur`, `prev`, `tail` and `end` are indices in the array. The latencies of a round are compared as
-- doubles, which hold them exactly below 2^53; the prints of fractions are not modelled.
pub mod Rows
pub mod Totals
use nct.Base.{
  ℕ, zero, suc, ◌+◌, ◌-◌, ◌*◌, ◌/◌, ◌^◌, Bool, Option, none, some, List, [], ◌∷◌, ◌++◌, ltb, leb,
  if◌then◌else◌, u64, add64, sub64,
}
use nct.Req.State.{Stats, update}
use nct.Stats.{Statsrec, Config, Sampler, samples_per_sec, stats_end}

-- A line of `raw`.
pub record RawRow : Type 0 where
  pub sample : ℕ
  pub time : ℕ
  pub duration : ℕ
  pub latency : ℕ
  pub requests : ℕ
  pub send : ℕ
  pub recv : ℕ
  pub requests_ra : ℕ
  pub send_ra : ℕ
  pub recv_ra : ℕ

-- The least, the greatest and the sum of one measure.
pub record Range : Type 0 where
  pub least : ℕ
  pub greatest : ℕ
  pub total : ℕ

-- The locals of the loop.
pub record Reading : Type 0 where
  pub statsv : ℕ → Statsrec
  pub cur : ℕ
  pub prev : ℕ
  pub tail : ℕ
  pub requests : Range
  pub send : Range
  pub recv : Range
  pub latency : Range
  pub raw : List RawRow

abbrev pub add_total : ℕ → Range → Range
add_total n r = record r { total = add64 r.total n }

-- `if (x > max) max = x; if (x < min) min = x;`
abbrev pub widen : ℕ → Range → Range
widen x r = record r {
  greatest = if ltb r.greatest x then x else r.greatest;
  least = if ltb x r.least then x else r.least;
}

-- The differences between two records.
abbrev pub requests_of : Statsrec → Statsrec → ℕ
requests_of c p = sub64 c.xsr_requests p.xsr_requests

abbrev pub send_of : Statsrec → Statsrec → ℕ
send_of c p = sub64 c.xsr_throughput_send p.xsr_throughput_send

abbrev pub recv_of : Statsrec → Statsrec → ℕ
recv_of c p = sub64 c.xsr_throughput_recv p.xsr_throughput_recv

abbrev pub latency_of : Statsrec → Statsrec → ℕ
latency_of c p = sub64 c.xsr_latency p.xsr_latency

-- Cycles in microseconds.
abbrev pub usec : ℕ → ℕ → ℕ
usec tsc_freq n = u64 (n * 1000000) / tsc_freq

-- The line for the record `c`, its `xsr_time` from the start on, behind `p`. `ra` is the record that
-- the running averages reach back to, if there is one.
abbrev pub plain_row : ℕ → Statsrec → Statsrec → RawRow
plain_row tsc_freq c p = record {
  sample = c.xsr_sample;
  time = usec tsc_freq c.xsr_time;
  duration = usec tsc_freq (sub64 c.xsr_time p.xsr_time);
  latency = usec tsc_freq (latency_of c p);
  requests = requests_of c p;
  send = send_of c p;
  recv = recv_of c p;
  requests_ra = c.xsr_requests;
  send_ra = c.xsr_throughput_send;
  recv_ra = c.xsr_throughput_recv;
}

unfoldable pub raw_row : ℕ → Statsrec → Statsrec → Option Statsrec → RawRow
raw_row tsc_freq c p none = plain_row tsc_freq c p
raw_row tsc_freq c p (some t) = record (plain_row tsc_freq c p) {
  requests_ra = requests_of c t;
  send_ra = send_of c t;
  recv_ra = recv_of c t;
}

-- The extremes of the latency, in a round with requests.
abbrev pub widen_latency : ℕ → ℕ → Range → Range
widen_latency latency requests r = if ltb 0 requests then widen (latency / requests) r else r

abbrev pub widen_if : Bool → ℕ → Range → Range
widen_if b x r = if b then widen x r else r

-- A round.
unfoldable pub raw_round : ℕ → ℕ → ℕ → Reading → Reading
raw_round samples_per_sec tsc_start tsc_freq s =
    let c = s.statsv s.cur in
    let p = s.statsv s.prev in
    let t = s.statsv s.tail in
    let full = leb samples_per_sec (s.cur - s.tail) in
    let c' = record c { xsr_time = sub64 c.xsr_time tsc_start } in
    record {
      statsv = update s.statsv s.cur c';
      cur = s.cur + 1;
      prev = s.cur;
      tail = if full then s.tail + 1 else s.tail;
      requests = widen_if full (requests_of c t) (add_total (requests_of c p) s.requests);
      send = widen_if full (send_of c t) (add_total (send_of c p) s.send);
      recv = widen_if full (recv_of c t) (add_total (recv_of c p) s.recv);
      latency =
          widen_latency (latency_of c p) (requests_of c p) (add_total (latency_of c p) s.latency);
      raw = s.raw ++ raw_row tsc_freq c' p (if full then some t else none) ∷ [];
    }

abbrev pub ulong_max : ℕ
ulong_max = 2 ^ 64 - 1

abbrev pub no_range : ℕ → Range
no_range least = record { least = least; greatest = 0; total = 0 }

-- The state before the loop. As a double, ULONG_MAX is 2^64.
unfoldable pub start_reading : (ℕ → Statsrec) → Reading
start_reading statsv = record {
  statsv = statsv;
  cur = 1;
  prev = 0;
  tail = 1;
  requests = no_range ulong_max;
  send = no_range ulong_max;
  recv = no_range ulong_max;
  latency = no_range (2 ^ 64);
  raw = [];
}

-- The first rounds of the loop, the last of them outermost.
unfoldable pub raw_rounds : ℕ → ℕ → ℕ → ℕ → Reading → Reading
raw_rounds samples_per_sec tsc_start tsc_freq zero s = s
raw_rounds samples_per_sec tsc_start tsc_freq (suc n) s =
    raw_round samples_per_sec tsc_start tsc_freq (raw_rounds samples_per_sec tsc_start tsc_freq n s)

-- `end`: the sample that `cur` stands behind is ignored.
abbrev pub reading_end : Config → Option ℕ → ℕ
reading_end c none = stats_end c
reading_end c (some i) = i - 1

-- `while (cur < end)`, from `cur` at 1 on.
unfoldable pub read_samples : Config → ℕ → Sampler → Reading
read_samples c tsc_start t =
    raw_rounds (samples_per_sec c) tsc_start c.tsc_freq (reading_end c t.cur - 1)
      (start_reading t.statsv)

-- A line of the summary.
pub record SummaryLine : Type 0 where
  pub min : ℕ
  pub avg : ℕ
  pub max : ℕ
  pub total : ℕ

abbrev pub summary_line : ℕ → ℕ → Range → ℕ → SummaryLine
summary_line samples_per_sec samples_tot r total = record {
  min = r.least;
  avg = u64 (r.total * samples_per_sec) / samples_tot;
  max = r.greatest;
  total = total;
}

-- The summary of bytes sent, bytes received and requests.
unfoldable pub summary : Config → Stats → Reading → List SummaryLine
summary c m s =
    let line = summary_line (samples_per_sec c) s.cur in
    line s.send m.thruput_send ∷ line s.recv m.thruput_recv ∷ line s.requests m.requests ∷ []
