-- ===== src/Main.antt =====
-- main.c, and the init functions of nct_null.c, nct_getattr.c and nct_read.c: from the parsed command
-- line to the jobs and the sampling loop.
--
-- What clp_parsev() returns, the working directory, malloc() and the mount are arguments. Each job
-- has what its start finds outside, and what the receive threads do to the mount before the next.
pub mod Jobs
pub mod Names
pub mod Tables
pub mod Array
pub mod Alone
use nct.Base.{
  ℕ, ◌+◌, ◌-◌, ◌*◌, ◌/◌, ◌^◌, Bool, true, false, not, ◌&&◌, ◌||◌, Option, none, some, List, [], ◌∷◌,
  ltb, leb, ◌==◌, if◌then◌else◌, u32,
}
use nct.Req.State.{Mnt, Req, Priv, Stats}
use nct.Req.Pool.{Alloc, sleeps, allocated, nct_req_alloc}
use nct.Req.Loop.{CbResult, returned, cb_blocked, cb_aborts}
use nct.Jobs.{Env, null_start, getattr_start, read_start}
use nct.Clp.Parse.{ex_usage}
use nct.Mount.{
  Mounting, unmounted, unmount_aborts, mounting_blocks, mounting_overruns, mounting_exits,
  is_mounted,
}
use nct.Stats.{Config, Statsrec, Interval, Sampled, sample_loop, start_sampling}

-- What `start` points to.
pub data Test : Type 0 where
  null_test getattr_test read_test : Test

-- The values that the options of the command line leave in the globals.
pub record Globals : Type 0 where
  pub mark : ℕ
  pub duration : ℕ
  pub outdir : Bool
  pub tsc_freq : ℕ

-- What an init function finds: what clp_parsev() returns, whether -h or -V was given, malloc(), and
-- what the parameters were converted to.
pub record Given : Type 0 where
  pub rc : ℕ
  pub asked : Bool
  pub room : Bool
  pub rhostpath : Option (List ℕ)
  pub length : ℕ

-- What an init function comes to: exit(), abort(), or its record and the path.
pub data Init : Type 0 where
  init_exits : ℕ → Init
  init_aborts : Init
  prepared : Test → Priv → Option (List ℕ) → Init

-- `pr_duration = duration` to an int, and back in a product with a uint64_t.
abbrev pub int_of_long : ℕ → ℕ
int_of_long d = let w = u32 d in if ltb w (2 ^ 31) then w else 2 ^ 64 - 2 ^ 32 + w

-- The head that the init functions share.
abbrev pub init_parsed : Given → Init → Init
init_parsed g k =
    if not (g.rc == 0)
    then init_exits g.rc
    else if g.asked
    then init_exits 0
    else if g.room
    then k
    else init_aborts

abbrev pub timed : ℕ → Priv
timed duration = record { pr_offset = 0; pr_length = 0; pr_duration = int_of_long duration }

-- test_null_init
unfoldable pub test_null_init : Given → ℕ → Init
test_null_init g duration = init_parsed g (prepared null_test (timed duration) g.rhostpath)

-- test_getattr_init
unfoldable pub test_getattr_init : Given → ℕ → Init
test_getattr_init g duration = init_parsed g (prepared getattr_test (timed duration) g.rhostpath)

-- test_read_init; `msgsz_max` is NCT_MSGSZ_MAX, which has the size of a struct in it.
unfoldable pub test_read_init : ℕ → Given → ℕ → Init
test_read_init msgsz_max g duration = init_parsed g (
    if ltb g.length 512 || ltb msgsz_max g.length
    then init_aborts
    else prepared read_test (record (timed duration) { pr_length = g.length }) g.rhostpath)

-- What main() makes of the command.
pub data Command : Type 0 where
  runs : Test → Command
  shell invalid : Command

abbrev pub eq_bytes : List ℕ → List ℕ → Bool
eq_bytes [] [] = true
eq_bytes [] (y ∷ ys) = false
eq_bytes (x ∷ xs) [] = false
eq_bytes (x ∷ xs) (y ∷ ys) = x == y && eq_bytes xs ys

abbrev pub getattr_name : List ℕ
getattr_name = b'g' ∷ b'e' ∷ b't' ∷ b'a' ∷ b't' ∷ b't' ∷ b'r' ∷ []

abbrev pub read_name : List ℕ
read_name = b'r' ∷ b'e' ∷ b'a' ∷ b'd' ∷ []

abbrev pub null_name : List ℕ
null_name = b'n' ∷ b'u' ∷ b'l' ∷ b'l' ∷ []

abbrev pub shell_name : List ℕ
shell_name = b's' ∷ b'h' ∷ b'e' ∷ b'l' ∷ b'l' ∷ []

unfoldable pub choose : List ℕ → Command
choose arg =
    if eq_bytes getattr_name arg
    then runs getattr_test
    else if eq_bytes read_name arg
    then runs read_test
    else if eq_bytes null_name arg
    then runs null_test
    else if eq_bytes shell_name arg
    then shell
    else invalid

-- What a job's start finds: two readings of the clock and the results of send() (Env), and what the
-- receive threads do to the mount before main() goes on.
pub record Job : Type 0 where
  pub t0 : ℕ
  pub env : Env
  pub others : Mnt → Mnt

-- How the loop that starts the jobs ends. `start_waits` sleeps for a request.
pub data Starting : Type 0 where
  jobs_started : Mnt → Starting
  start_waits start_blocks start_aborts : Starting

unfoldable pub start_test : Test → ℕ → Job → ℕ → Mnt → CbResult
start_test null_test tsc_freq j r m = null_start tsc_freq j.t0 j.env r m
start_test getattr_test tsc_freq j r m = getattr_start tsc_freq j.t0 j.env r m
start_test read_test tsc_freq j r m = read_start tsc_freq j.t0 j.env r m

-- What `start` returns is not looked at.
abbrev pub started_with : CbResult → (Mnt → Starting) → Starting
started_with (returned _ m) k = k m
started_with cb_blocked k = start_blocks
started_with cb_aborts k = start_aborts

abbrev pub with_request : Alloc → (ℕ → Mnt → Starting) → Starting
with_request (sleeps m) k = start_waits
with_request (allocated r m) k = k r m

-- The loop, over its rounds. `req_priv` is the one record of the mount.
unfoldable pub start_jobs : Test → ℕ → List Job → Mnt → Starting
start_jobs test tsc_freq [] m = jobs_started m
start_jobs test tsc_freq (j ∷ js) m =
    with_request (nct_req_alloc (record m { mnt_jobs_cnt = m.mnt_jobs_cnt + 1 })) (λ r m1.
      started_with (start_test test tsc_freq j r m1)
        (λ m2. start_jobs test tsc_freq js (j.others m2)))

abbrev pub sample_period : ℕ
sample_period = 100 * 1000

-- The arguments of nct_stats_loop.
unfoldable pub stats_config : Globals → Config
stats_config g = record {
  mark = g.mark;
  sample_period_usec = sample_period;
  duration = g.duration;
  statsc = if g.outdir then u32 ((g.duration + 1) * (1000000 / sample_period)) else 0;
  tsc_freq = g.tsc_freq;
}

-- The array is allocated if there is a directory for the results.
abbrev pub stats_array : Globals → (ℕ → Statsrec) → Option (ℕ → Statsrec)
stats_array g memory = if g.outdir then some memory else none

-- How main() ends: with a return or exit(), abort(), the undefined send of nct_nfs_mount, in a call
-- that blocks, in the shell, or behind the sampling loop.
pub data Ended : Type 0 where
  ends : ℕ → Ended
  aborts overrun blocks in_shell : Ended
  sampled : Sampled → Ended

-- What main() has from outside: what clp_parsev() returns and whether -h or -V was given, mkdir() and
-- chdir(), the init functions, the mount,
-- malloc() for the array and its bytes, the jobs, the clock and the rounds of the sampling loop.
pub record World : Type 0 where
  pub rc : ℕ
  pub asked : Bool
  pub has_dir : Bool  -- mkdir() succeeds, or the directory is there
  pub is_there : Bool  -- chdir() succeeds
  pub given : Given
  pub msgsz_max : ℕ
  pub mounting : List ℕ → Mounting
  pub room : Bool
  pub memory : ℕ → Statsrec
  pub jobs : List Job
  pub now : ℕ
  pub rounds : List Interval

abbrev pub ex_oserr : ℕ
ex_oserr = 71

module _ (g : Globals) (w : World) where
  abbrev pub on_jobs : Starting → Ended
  on_jobs (jobs_started m) =
      let c = stats_config g in
      sampled (sample_loop c w.rounds (start_sampling c w.now (stats_array g w.memory) m.mnt_stats))
  on_jobs start_waits = blocks
  on_jobs start_blocks = blocks
  on_jobs start_aborts = aborts

  abbrev pub on_mount : Test → Priv → Mounting → Ended
  on_mount test priv unmounted = aborts
  on_mount test priv unmount_aborts = aborts
  on_mount test priv mounting_blocks = blocks
  on_mount test priv mounting_overruns = overrun
  on_mount test priv (mounting_exits code) = ends code
  on_mount test priv (is_mounted m target vn) =
      if g.outdir && not w.room
      then aborts
      else on_jobs (start_jobs test g.tsc_freq w.jobs (record m { priv = priv }))

  abbrev pub on_path : Test → Priv → Option (List ℕ) → Ended
  on_path test priv none = aborts
  on_path test priv (some path) = on_mount test priv (w.mounting path)

  abbrev pub on_init : Init → Ended
  on_init (init_exits code) = ends code
  on_init init_aborts = aborts
  on_init (prepared test priv rhostpath) = on_path test priv rhostpath

  abbrev pub init_of : Test → Init
  init_of null_test = test_null_init w.given g.duration
  init_of getattr_test = test_getattr_init w.given g.duration
  init_of read_test = test_read_init w.msgsz_max w.given g.duration

  abbrev pub on_command : Command → Ended
  on_command (runs test) = on_init (init_of test)
  on_command shell = in_shell
  on_command invalid = ends ex_usage

  -- main(), with the command `arg`. The calibration of the clock is `tsc_freq`.
  unfoldable pub main_run : List ℕ → Ended
  main_run arg =
      if not (w.rc == 0)
      then ends w.rc
      else if w.asked
      then ends 0
      else if g.outdir && not w.has_dir
      then ends ex_oserr
      else if g.outdir && not w.is_there
      then ends ex_oserr
      else on_command (choose arg)
