-- ===== src/Mount/Umount.antt =====
-- nct_umount of nct_mount.c: the connection is shut down, each receive thread is joined, and the
-- mount is given back.
--
-- The threads are given by their locals and by the rounds that they still make on what has come in;
-- on an open connection they would then wait in recv(). A zero in `mnt_recv_tdv` is none. The
-- destruction of the locks, and the message where pthread_join() fails, are left out.
use nct.Base.{
  ℕ, ◌+◌, ◌%◌, ◌^◌, ◌≤◌, ◌≡◌, refl, ap, ◌∙◌, Bool, Option, none, some, List, [], ◌∷◌, ◌++◌, ltb,
  map, ◌==◌, Bool-cases, inl, inr, ntohl, le→ltb,
}
use nct.Rpc.{
  Sent, Reader, Received, got, returns, count, marksz, nct_rpc_recv, again, resume, on_recv,
  enter_record, begin_record,
}
use nct.Rpc.Framing.{no_mark}
use nct.Rpc.Decode.{RpcLib}
use nct.Req.State.{Mnt, Callback}
use nct.Req.Loop.{
  CbResult, Thread, Round, continues, exits, round_aborts, faults, round_blocks, recv_loop_round,
  after_recv, recv_round, on_short,
}
use nct.Threads.Receive.{RoundIn, recv_rounds, recv_rounds-append, on_round}

-- What nct_umount gives back: `mnt_auth`, `mnt_fd`, `mnt_vn` and the mount object.
pub data Release : Type 0 where
  auth_destroyed vn_freed mnt_freed : Release
  fd_closed : ℕ → Release

-- What nct_umount comes to: its return, with what it has given back, in order; a join that waits for
-- a thread that goes on; or the end of the program by a thread.
pub data Umounting : Type 0 where
  umounted : List Release → Umounting
  join_waits umount_aborts umount_faults : Umounting

-- A receive thread: its rounds on what has come in, and the round behind them, in which recv() has
-- nothing to return.
pub record Receiver : Type 0 where
  pub locals : Thread
  pub rounds : List RoundIn
  pub idle : RoundIn

-- shutdown(mnt->mnt_fd, SHUT_RDWR), for a thread: behind what has come in, recv() returns 0 in place
-- of waiting.
unfoldable pub shut_down : Receiver → List RoundIn
shut_down th = th.rounds ++ record th.idle { received = got [] ∷ [] } ∷ []

abbrev pub shut_thread : Option Receiver → Option (Thread × List RoundIn)
shut_thread none = none
shut_thread (some th) = some (th.locals, shut_down th)

-- The broadcast on `mnt_wait_cv`. Nothing waits on `mnt_send_cv`.
abbrev pub wake_all : Mnt → Mnt
wake_all m = record m { mnt_wait_cv = [] }

abbrev pub on_join : Round → (Mnt → Umounting) → Umounting
on_join (exits m) k = k m
on_join (continues down m t) k = join_waits
on_join round_blocks k = join_waits
on_join round_aborts k = umount_aborts
on_join faults k = umount_faults

abbrev pub closed_fd : Option ℕ → List Release
closed_fd none = []
closed_fd (some fd) = fd_closed fd ∷ []

-- What stands behind the joins.
abbrev pub releases : Option ℕ → List Release
releases fd = auth_destroyed ∷ (closed_fd fd ++ (vn_freed ∷ mnt_freed ∷ []))

module _ (lib : RpcLib) (run_cb : Callback → ℕ → Mnt → CbResult) (tsc_freq room : ℕ) where
  -- The loop over `mnt_recv_tdv`, and what is behind it.
  unfoldable pub join_loop : Option ℕ → List (Option (Thread × List RoundIn)) → Mnt → Umounting
  join_loop fd [] m = umounted (releases fd)
  join_loop fd (none ∷ tdv) m = join_loop fd tdv m
  join_loop fd (some (locals, rounds) ∷ tdv) m =
      on_join (recv_rounds lib run_cb tsc_freq room rounds m locals) (join_loop fd tdv)

  -- nct_umount
  unfoldable pub nct_umount : Option ℕ → List (Option Receiver) → Mnt → Umounting
  nct_umount fd tdv m = join_loop fd (map shut_thread tdv) (wake_all m)

-- A mark that is at hand is of a record that fits the buffer.
abbrev pub MarkFits : ℕ → List ℕ → Type 0
MarkFits room mark = ntohl mark % 2 ^ 31 + marksz ≤ room

abbrev PlaceFits : ℕ → Option (List ℕ) → Type 0
PlaceFits room none = Unit {0}
PlaceFits room (some mark) = MarkFits room mark

abbrev at_start : ℕ → Option (List ℕ) → Reader
at_start room markp = record { mem = []; bufsz = room; markp = markp }

-- At the end of the stream nct_rpc_recv returns 0, with a mark at hand or none.
nct_rpc_recv-eof :
    (room : ℕ) (markp : Option (List ℕ)) (more : List Received)
    → PlaceFits room markp
    → nct_rpc_recv room markp (got [] ∷ more) ≡ (returns (count 0) (at_start room markp), more)
unfolding nct_rpc_recv again resume on_recv enter_record begin_record
nct_rpc_recv-eof room none more fits = refl
nct_rpc_recv-eof room (some k) more fits =
    let enters = le→ltb room (ntohl k % 2 ^ 31 + marksz) fits in
    elim (Bool-cases (ntohl k == 0)) [
      | inl zero_mark ↦ rw zero_mark refl
      | inr marked ↦ rw (marked, enters) refl
    ]

module _ (lib : RpcLib) (run_cb : Callback → ℕ → Mnt → CbResult) (tsc_freq room : ℕ) where
  -- A round at the end of the stream is the thread's last.
  recv_loop_round-eof :
      (tsc_stop : ℕ) (connected : Bool) (now : ℕ → ℕ) (net : ℕ → List Sent) (more : List Received)
      (m : Mnt) (t : Thread)
      → MarkFits room m.mnt_recv_mark
      → recv_loop_round lib run_cb tsc_freq room (got [] ∷ more) tsc_stop connected now net m t
        ≡ exits (record m { mnt_recv_mark = no_mark })
  unfolding recv_loop_round after_recv recv_round on_short
  recv_loop_round-eof tsc_stop connected now net more m t fits =
      elim (Bool-cases (ltb 3 m.mnt_jobs_max)) [
        | inl many ↦ rw (many, nct_rpc_recv-eof room (some m.mnt_recv_mark) more fits) refl
        | inr few ↦ rw (few, nct_rpc_recv-eof room none more tt) refl
      ]

  -- A thread takes the replies that have come in, which neither ends nor blocks it, and the mark that
  -- it then has at hand is of a record that fits its buffer.
  pub record Ends (th : Receiver) (m : Mnt) : Type 0 where
    pub down : Bool
    pub at_last : Mnt
    pub locals : Thread
    pub goes_on :
        recv_rounds lib run_cb tsc_freq room th.rounds m th.locals ≡ continues down at_last locals
    pub fits : MarkFits room (th.idle.others at_last).mnt_recv_mark

  -- The mount as the thread leaves it.
  abbrev pub left : {th : Receiver} {m : Mnt} → Ends th m → Mnt
  left {th} e = record (th.idle.others e.at_last) { mnt_recv_mark = no_mark }

  -- All threads do, one behind the other.
  abbrev pub AllEnd : List (Option Receiver) → Mnt → Type 0
  AllEnd [] m = Unit {0}
  AllEnd (none ∷ tdv) m = AllEnd tdv m
  AllEnd (some th ∷ tdv) m = (e : Ends th m) × AllEnd tdv (left e)

  last_round :
      (i : RoundIn) (rest : List RoundIn) (more : List Received) (m : Mnt) (t : Thread)
      → i.received ≡ got [] ∷ more
      → MarkFits room (i.others m).mnt_recv_mark
      → recv_rounds lib run_cb tsc_freq room (i ∷ rest) m t
        ≡ exits (record (i.others m) { mnt_recv_mark = no_mark })
  unfolding recv_rounds
  last_round i rest more m t eof fits =
      rw (eof, recv_loop_round-eof i.tsc_stop i.connected i.now i.net more (i.others m) t fits) refl

  pub recv_rounds-Ends :
      (th : Receiver) (m : Mnt) (e : Ends th m)
      → recv_rounds lib run_cb tsc_freq room (shut_down th) m th.locals ≡ exits (left e)
  unfolding shut_down
  recv_rounds-Ends th m e =
      let last : RoundIn = record th.idle { received = got [] ∷ [] } in
      recv_rounds-append lib run_cb tsc_freq room th.rounds (last ∷ []) m th.locals
      ∙ ap (λ x. on_round x (recv_rounds lib run_cb tsc_freq room (last ∷ []))) e.goes_on
      ∙ last_round last [] [] e.at_last e.locals refl e.fits
