-- ===== src/Main/Array.antt =====
-- The array that main() allocates for the sampling loop.
use nct.Base.{ℕ, ◌+◌, ◌*◌, ◌^◌, ◌<◌, ◌≢◌, Bool, true, false, List, arith}
use nct.Req.State.{Stats}
use nct.Stats.{Statsrec, Interval, sample_loop, start_sampling, overruns}
use nct.Stats.Sampling.{sample_loop-in_bounds, Allocated}
use nct.Main.{Globals, stats_config, stats_array}

main-Allocated :
    (g : Globals) (b : Bool) (memory : ℕ → Statsrec)
    → (g.duration + 1) * 10 < 2 ^ 32
    → Allocated
        (stats_config (record g { outdir = b }))
        (stats_array (record g { outdir = b }) memory)
unfolding stats_config
main-Allocated g true memory small = (omega arith, omega arith)
main-Allocated g false memory small = tt

-- The sampling loop as main() calls it never writes behind the end of the array that main() has
-- allocated, for a test of less than 2^32 samples.
pub main-in_bounds :
    (g : Globals) (memory : ℕ → Statsrec) (vs : List Interval) (now : ℕ) (s : Stats)
    → (g.duration + 1) * 10 < 2 ^ 32
    → sample_loop (stats_config g) vs (start_sampling (stats_config g) now (stats_array g memory) s)
      ≢ overruns
main-in_bounds g memory vs now s small =
    sample_loop-in_bounds (stats_config g) vs now (stats_array g memory) s
      (main-Allocated g g.outdir memory small)
