-- ===== src/Threads/InFlight/Lost.antt =====
-- nct_req_recv_loop where a request has waited for too long for its reply.
use nct.Base.{ℕ, ◌+◌, ◌*◌, ◌%◌, ◌^◌, ◌<◌, ◌≡◌, ◌≢◌, refl, some, List, arith, ne→==}
use nct.Rpc.Decode.{RpcLib, rpc_cantdecoderes}
use nct.Req.State.{Mnt, Callback}
use nct.Req.Send.{slot, enroll}
use nct.Req.Loop.{CbResult, Thread, round_aborts, on_reply, dispatch}
use nct.Threads.{Threads, Reach, InFlight}
use nct.Threads.InFlight.{Flying, enroll-Flying, Reach-Flying, Unanswered, Away, sends, reply_to}

-- A slot that another request has taken.
dispatch-taken :
    (lib : RpcLib) (run_cb : Callback → ℕ → Mnt → CbResult)
    (tsc_freq y x tsc_stop len stat verdict : ℕ) (body : List ℕ) (m : Mnt) (t : Thread)
    → (m.req_at y).req_xid ≢ x
    → dispatch lib run_cb tsc_freq (some y) tsc_stop len stat (reply_to x verdict body) m t
      ≡ round_aborts
unfolding dispatch
dispatch-taken lib run_cb tsc_freq y x tsc_stop len stat verdict body m t ne =
    rw (ne→== (m.req_at y).req_xid x ne) refl

-- The send that comes 1,024 sends later takes the slot, with another id.
enroll-takes :
    (r x y : ℕ) (m : Mnt)
    → x < 2 ^ 32
    → Flying r x 1023 m
    → ((enroll y m).mnt_req_tbl (slot x) ≡ some y) × (((enroll y m).req_at y).req_xid ≢ x)
unfolding enroll
enroll-takes r x y m h f =
    let at : m.mnt_send_xid ≡ (x + 11 * (1023 + 1)) % 2 ^ 32 = f.next_id in
    let same : slot m.mnt_send_xid ≡ slot x = omega arith in
    let other : m.mnt_send_xid ≢ x = λ e. absurd (omega arith) in
    (ground arith, λ e. other (ground arith))

module _ (lib : RpcLib) (run_cb : Callback → ℕ → Mnt → CbResult) (tsc_freq : ℕ) (r : ℕ)
    (s u : Threads) (stat verdict tsc_stop len : ℕ) (body : List ℕ) (t : Thread) where
  -- A request that waits while 1,024 further requests are sent has lost its slot in the table to the
  -- last of these: if no thread has read the slot for a reply since it was sent, nor was about to
  -- clear it then, its reply, when it comes right behind these sends, aborts the program.
  pub on_reply-lost :
      (p : Reach (record s { mnt = enroll r s.mnt }) u) (y : ℕ)
      → ¬ InFlight r s.mnt
      → Away (slot s.mnt.mnt_send_xid) s
      → s.mnt.mnt_send_xid < 2 ^ 32
      → Unanswered (slot s.mnt.mnt_send_xid) p
      → sends p ≡ 1023
      → stat ≢ rpc_cantdecoderes
      → on_reply lib run_cb tsc_freq
          (stat, some (reply_to s.mnt.mnt_send_xid verdict body))
          tsc_stop
          len
          (enroll y u.mnt)
          t
        ≡ round_aborts
  unfolding on_reply
  on_reply-lost p y idle c h a all ok =
      let x = s.mnt.mnt_send_xid in
      let f = Reach-Flying r x p (enroll-Flying r s.mnt idle h) c a (omega arith) in
      let took = enroll-takes r x y u.mnt h (rw (← all) f) in
      rw (ne→== stat rpc_cantdecoderes ok, took.0)
        (dispatch-taken lib run_cb tsc_freq y x tsc_stop len stat verdict body (enroll y u.mnt) t
          took.1)
