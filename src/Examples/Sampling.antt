-- ===== src/Examples/Sampling.antt =====
-- nct.c and main.c: the theorems of Stats and Main at concrete inputs.
use nct.Base.{
  ℕ, ◌+◌, ◌-◌, ◌*◌, ◌≡◌, ◌≢◌, ◌^◌, ◌<◌, ◌≤◌, refl, true, none, [], ◌∷◌, ltb, if◌then◌else◌, arith,
  add64, sub64,
}
use nct.Req.State.{Mnt, Stats}
use nct.Req.Pool.{new_req}
use nct.Req.Loop.{zero_stats}
use nct.Stats.{
  Config, Statsrec, Interval, Sampler, sample_loop, start_sampling, breaks, overruns, zero_rec,
  print_period, sample_period,
}
use nct.Stats.Reports.{total_ops}
use nct.Stats.Ending.{sample_loop-ends}
use nct.Stats.Summary.{
  raw_rounds, raw_round, start_reading, read_samples, reading_end, requests_of, send_of, recv_of,
  latency_of,
}
use nct.Stats.Summary.Rows.{lines_to}
use nct.Stats.Summary.Totals.{read_samples-lines}
use nct.Main.{Globals, Job, stats_config, stats_array, start_jobs, jobs_started, read_test}
use nct.Main.Array.{main-in_bounds}
use nct.Main.Jobs.{start_jobs-endless}
use nct.Examples.Workload.{env, mount}

-- A test of one second, with a clock of 1000 Hz and a line each second.
abbrev config : Config
config = record {
  mark = 1;
  sample_period_usec = 100000;
  duration = 1;
  statsc = 20;
  tsc_freq = 1000;
}

-- Requests up to the tenth come in.
abbrev ten : Stats → Stats
ten s = record s { requests = if ltb s.requests 10 then 10 else s.requests }

abbrev busy : Interval
busy = record { tsc_cur = 500; flow = ten; jobs = 1 }

abbrev late : Interval
late = record { tsc_cur = 1500; flow = ten; jobs = 0 }

abbrev last : Interval
last = record { tsc_cur = 2500; flow = λ s. s; jobs = 0 }

ten-CountsUp :
    (s : Stats)
    → s.requests < 2 ^ 64
    → (s.requests ≤ (ten s).requests) × ((ten s).requests < 2 ^ 64)
ten-CountsUp s h = ground arith

sample_loop-ends_example :
    (t : Sampler) × (sample_loop config
        (busy ∷ late ∷ last ∷ [])
        (start_sampling config 0 none zero_stats)
      ≡ breaks t)
    × (total_ops t.rows ≡ t.stats.requests)
unfolding print_period sample_period sub64
sample_loop-ends_example =
    sample_loop-ends config (busy ∷ []) late last 0 none zero_stats (omega arith) tt (omega arith)
      (ten-CountsUp, tt) ten-CountsUp refl (λ s. refl) (omega arith) (omega arith, tt) (omega arith)

abbrev globals : Globals
globals = record { mark = 1; duration = 60; outdir = true; tsc_freq = 1000 }

main-in_bounds_example :
    sample_loop
      (stats_config globals)
      (busy ∷ late ∷ last ∷ [])
      (start_sampling (stats_config globals) 0 (stats_array globals (λ _. zero_rec)) zero_stats)
    ≢ overruns
main-in_bounds_example =
    main-in_bounds globals (λ _. zero_rec) (busy ∷ late ∷ last ∷ []) 0 zero_stats (omega arith)

-- A file of 300 bytes, read in blocks of 400.
abbrev short_file : Mnt
short_file = record mount { vn_size = 300; req_at = λ r. new_req r none; mnt_jobs_cnt = 0 }

abbrev job : Job
job = record { t0 = 0; env = env; others = λ m. m }

start_jobs-endless_example :
    (m' : Mnt) × (start_jobs read_test 1000 (job ∷ []) short_file ≡ jobs_started m')
    × (m'.mnt_jobs_cnt ≡ 0 + 1)
    × (m'.mnt_req_tbl ≡ short_file.mnt_req_tbl)
    × (m'.mnt_send_xid ≡ short_file.mnt_send_xid)
    × (sample_loop config (busy ∷ []) (start_sampling config 0 none zero_stats)
        ≢ breaks (start_sampling config 0 none zero_stats))
start_jobs-endless_example =
    start_jobs-endless 1000 (job ∷ []) (0 ∷ []) short_file config (busy ∷ [])
      (start_sampling config 0 none zero_stats) (start_sampling config 0 none zero_stats)
      (record { linked = (refl, refl); distinct = (tt, tt) }) (omega arith) (omega arith)
      (omega arith) (omega arith) ((λ m e. refl), tt) (refl, tt)

-- Records 1 to 19 of the array are read, of 3 requests each.
abbrev steady : ℕ → Statsrec
steady j = record zero_rec { xsr_requests = if ltb j 100 then 3 * j else 0; xsr_time = 100 * j }

abbrev filled : Sampler
filled = record (start_sampling config 0 none zero_stats) { statsv = steady }

steady_words :
    (j : ℕ)
    → ((steady j).xsr_requests < 2 ^ 64)
      × ((steady j).xsr_throughput_send < 2 ^ 64)
      × ((steady j).xsr_throughput_recv < 2 ^ 64)
      × ((steady j).xsr_latency < 2 ^ 64)
steady_words j = (ground arith, omega arith, omega arith, omega arith)

read_samples-lines_example :
    let s = read_samples config 0 filled in
    (s.raw ≡ lines_to 10 0 1000 filled.statsv (reading_end config filled.cur - 1))
    × (s.requests.total
        ≡ requests_of (filled.statsv (reading_end config filled.cur - 1)) (filled.statsv 0))
    × (s.send.total ≡ send_of (filled.statsv (reading_end config filled.cur - 1)) (filled.statsv 0))
    × (s.recv.total ≡ recv_of (filled.statsv (reading_end config filled.cur - 1)) (filled.statsv 0))
    × (s.latency.total
        ≡ latency_of (filled.statsv (reading_end config filled.cur - 1)) (filled.statsv 0))
read_samples-lines_example = read_samples-lines config 0 filled steady_words

-- Nine seconds with a full array: the last record is the ninth.
read_totals : (read_samples config 0 filled).requests.total ≡ 27
unfolding read_samples start_sampling raw_rounds raw_round start_reading sub64 add64
read_totals = refl
