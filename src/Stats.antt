-- ===== src/Stats.antt =====
-- nct.c: the sampling loop of nct_stats_loop, and the tics of nct_gplot.
--
-- The loop sleeps, reads the clock and the mount's statistics, and ends when no job is left. What
-- happens between two rounds is given: the clock, what the receive threads do to the statistics, and
-- the number of jobs. The waiting time and the layout of the lines of this loop are not modelled.
pub mod Rules
pub mod Sampling
pub mod Reports
pub mod Ending
pub mod Busy
pub mod Summary
pub mod Gplot
pub mod Print
use nct.Base.{
  ℕ, ◌+◌, ◌-◌, ◌*◌, ◌/◌, ◌^◌, Bool, Option, none, some, List, [], ◌∷◌, ◌++◌, ltb, leb, ◌==◌,
  if◌then◌else◌, u32, u64, sub64,
}
use nct.Req.State.{Stats, update}

-- nct_statsrec_t
pub record Statsrec : Type 0 where
  pub xsr_sample : ℕ
  pub xsr_time : ℕ
  pub xsr_duration : ℕ
  pub xsr_requests : ℕ
  pub xsr_throughput_send : ℕ
  pub xsr_throughput_recv : ℕ
  pub xsr_latency : ℕ

-- The parameters of nct_stats_loop, and the frequency of the clock.
pub record Config : Type 0 where
  pub mark : ℕ
  pub sample_period_usec : ℕ
  pub duration : ℕ
  pub statsc : ℕ
  pub tsc_freq : ℕ

-- A printed line; the texts of the latencies are none where the code has not written them, and the
-- average is none for `stalled`.
pub record Row : Type 0 where
  pub samples : ℕ
  pub interval : ℕ
  pub ops : ℕ
  pub send_diff : ℕ
  pub recv_diff : ℕ
  pub lat_min : Option ℕ
  pub lat_avg : Option ℕ
  pub lat_max : Option ℕ

-- The locals of the loop, the array and the mount's statistics. `cur` is an index in the array.
pub record Sampler : Type 0 where
  pub statsv : ℕ → Statsrec
  pub cur : Option ℕ
  pub samples_tot : ℕ
  pub reqs_last : ℕ
  pub send_last : ℕ
  pub recv_last : ℕ
  pub latency_prev : ℕ
  pub tsc_last : ℕ
  pub rows : List Row
  pub stats : Stats

-- What a round finds.
pub record Interval : Type 0 where
  pub tsc_cur : ℕ
  pub flow : Stats → Stats
  pub jobs : ℕ

-- How a round ends; `overruns` writes behind the end of the array.
pub data Sampled : Type 0 where
  samples_on breaks : Sampler → Sampled
  overruns : Sampled

abbrev pub uint64_max : ℕ
uint64_max = 2 ^ 64 - 1

abbrev pub samples_per_sec : Config → ℕ
samples_per_sec c = 1000000 / c.sample_period_usec

-- `end`
abbrev pub stats_end : Config → ℕ
stats_end c = c.duration * samples_per_sec c

-- a >= b on long.
abbrev pub leb_signed : ℕ → ℕ → Bool
leb_signed a b = leb (u64 (a + 2 ^ 63)) (u64 (b + 2 ^ 63))

unfoldable pub sample_period : Config → ℕ
sample_period c = u64 (c.sample_period_usec * c.tsc_freq) / 1000000

unfoldable pub print_period : Config → ℕ
print_period c =
    let whole = u64 (c.mark * c.tsc_freq) in
    if leb_signed (sample_period c) whole then sub64 whole (sample_period c / 2) else whole

-- The latency's extremes start again with every round.
abbrev pub restart : Stats → Stats
restart s = record s { latency_min = uint64_max; latency_max = 0 }

-- `if (++cur >= end) cur = NULL;`
abbrev pub next_cur : Config → ℕ → Option ℕ
next_cur c i = if leb (stats_end c) (i + 1) then none else some (i + 1)

-- The other members of a record stay as they are.
abbrev pub write_sample : ℕ → ℕ → Stats → Statsrec → Statsrec
write_sample now n s r = record r {
  xsr_time = now;
  xsr_sample = u32 n;
  xsr_requests = s.requests;
  xsr_throughput_send = s.thruput_send;
  xsr_throughput_recv = s.thruput_recv;
  xsr_latency = s.latency_cum;
}

-- `if (cur) ...`, behind which the loop goes on with `k`.
abbrev pub store_sample : Config → Option ℕ → ℕ → Stats → Sampler → (Sampler → Sampled) → Sampled
store_sample c none now s t k = k t
store_sample c (some i) now s t k =
    let done = k (record t {
      statsv = update t.statsv i (write_sample now t.samples_tot s (t.statsv i));
      cur = next_cur c i;
    }) in
    if ltb i c.statsc then done else overruns

-- The line of a round in which requests were completed.
abbrev pub busy_row : Config → ℕ → Stats → Sampler → Row
busy_row c now s t = record {
  samples = t.samples_tot;
  interval = u64 (sub64 now t.tsc_last * 1000000) / c.tsc_freq;
  ops = sub64 s.requests t.reqs_last;
  send_diff = sub64 s.thruput_send t.send_last;
  recv_diff = sub64 s.thruput_recv t.recv_last;
  lat_min = some s.latency_min;
  lat_avg = some (sub64 s.latency_cum t.latency_prev / sub64 s.requests t.reqs_last);
  lat_max = some s.latency_max;
}

-- The line of a round in which none was.
abbrev pub stalled_row : Config → ℕ → Stats → Sampler → Row
stalled_row c now s t = record (busy_row c now s t) {
  send_diff = 0;
  recv_diff = 0;
  lat_min = none;
  lat_avg = none;
  lat_max = none;
}

abbrev pub print_row : Row → ℕ → Stats → Sampler → Sampled
print_row row now s t = samples_on (record t {
  rows = t.rows ++ row ∷ [];
  send_last = s.thruput_send;
  recv_last = s.thruput_recv;
  latency_prev = s.latency_cum;
  reqs_last = s.requests;
  tsc_last = now;
})

-- The rest of a round, with its reading `s` of the statistics.
unfoldable pub report : Config → Interval → Stats → Sampler → Sampled
report c v s t =
    if c.mark == 0
    then (if ltb v.jobs 1 then breaks t else samples_on t)
    else if ltb (sub64 v.tsc_cur t.tsc_last) (print_period c)
    then samples_on t
    else if ltb t.reqs_last s.requests
    then print_row (busy_row c v.tsc_cur s t) v.tsc_cur s t
    else if ltb v.jobs 1
    then breaks t
    else print_row (stalled_row c v.tsc_cur s t) v.tsc_cur s t

-- A round of the loop.
unfoldable pub sample_round : Config → Interval → Sampler → Sampled
sample_round c v t =
    let s = v.flow t.stats in
    store_sample c t.cur v.tsc_cur s
      (record t { samples_tot = t.samples_tot + 1; stats = restart s }) (report c v s)

abbrev pub sampled_then : Sampled → (Sampler → Sampled) → Sampled
sampled_then (samples_on t) k = k t
sampled_then (breaks t) k = breaks t
sampled_then overruns k = overruns

-- The loop, over what its rounds find.
unfoldable pub sample_loop : Config → List Interval → Sampler → Sampled
sample_loop c [] t = samples_on t
sample_loop c (v ∷ vs) t = sampled_then (sample_round c v t) (sample_loop c vs)

abbrev pub zero_rec : Statsrec
zero_rec = record {
  xsr_sample = 0;
  xsr_time = 0;
  xsr_duration = 0;
  xsr_requests = 0;
  xsr_throughput_send = 0;
  xsr_throughput_recv = 0;
  xsr_latency = 0;
}

abbrev pub no_array : ℕ → Stats → Sampler
no_array now s = record {
  statsv = λ _. zero_rec;
  cur = none;
  samples_tot = 0;
  reqs_last = 0;
  send_last = 0;
  recv_last = 0;
  latency_prev = 0;
  tsc_last = now;
  rows = [];
  stats = s;
}

-- The state before the loop: at the time `now`, with the array `statsv` if there is one.
unfoldable pub start_sampling : Config → ℕ → Option (ℕ → Statsrec) → Stats → Sampler
start_sampling c now none s = no_array now s
start_sampling c now (some statsv) s =
    if ltb 0 c.statsc
    then record (no_array now s) {
      statsv = update statsv 0 (record zero_rec { xsr_duration = now });
      cur = some 1;
    }
    else record (no_array now s) {
      statsv = update statsv 0 (record (statsv 0) { xsr_duration = now });
    }
