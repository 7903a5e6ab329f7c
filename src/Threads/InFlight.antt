-- ===== src/Threads/InFlight.antt =====
-- A request in flight while other threads work: how long the table keeps it.
pub mod Lost
use nct.Base.{
  ℕ, zero, suc, ◌+◌, ◌*◌, ◌%◌, ◌^◌, ◌<◌, ◌≡◌, ◌≢◌, refl, ap, sym, ◌∙◌, subst, Bool, false, Option,
  none, some, List, arith, ◌==◌, Bool-cases, inl, inr,
}
use nct.Rpc.Decode.{RpcMsg}
use nct.Req.State.{Req, Mnt, update, update_self, set_req, nct_req_max}
use nct.Req.Pool.{Alloc, allocated, sleeps, take_head, nct_req_alloc, nct_req_free}
use nct.Req.Send.{slot, next_xid, enroll}
use nct.Req.Loop.{Thread, Round, round_aborts, dispatch, exchange}
use nct.Jobs.{put_message, started}
use nct.Threads.{
  Threads, Step, start, alloc, encode, send, look, clear, grab, put, free, Place, reading, looked,
  cleared, grabbed, Reach, here, next, clear_slot, InFlight,
}
use nct.Threads.Invariant.{popped}

-- Request `r` waits for the reply to its id `x`, and `k` requests were sent behind it.
pub record Flying (r x k : ℕ) (m : Mnt) : Type 0 where
  pub placed : m.mnt_req_tbl (slot x) ≡ some r
  pub once : (i : ℕ) → m.mnt_req_tbl i ≡ some r → i ≡ slot x
  pub xid : (m.req_at r).req_xid ≡ x
  pub next_id : m.mnt_send_xid ≡ (x + 11 * (k + 1)) % 2 ^ 32

-- Whether a step is a send, and how many of the steps are.
abbrev pub is_send : {s u : Threads} → Step s u → ℕ
is_send (start _ _ _ _ _ _ _ _ _) = 0
is_send (alloc _ _ _ _) = 0
is_send (encode _ _ _ _ _) = 0
is_send (send _ _ _ _ _) = 1
is_send (look _ _ _ _ _ _) = 0
is_send (clear _ _ _ _ _) = 0
is_send (grab _ _ _ _ _ _) = 0
is_send (put _ _ _ _ _ _ _ _ _ _ _) = 0
is_send (free _ _ _ _ _) = 0

abbrev pub sends : {s u : Threads} → Reach s u → ℕ
sends here = 0
sends (next p st) = sends p + is_send st

-- A step does not read slot `i` for a reply, and no step does.
abbrev pub LeavesSlot : {s u : Threads} → ℕ → Step s u → Type 0
LeavesSlot i (start _ _ _ _ _ _ _ _ _) = Unit {0}
LeavesSlot i (alloc _ _ _ _) = Unit {0}
LeavesSlot i (encode _ _ _ _ _) = Unit {0}
LeavesSlot i (send _ _ _ _ _) = Unit {0}
LeavesSlot i (look _ _ xid _ _ _) = slot xid ≢ i
LeavesSlot i (clear _ _ _ _ _) = Unit {0}
LeavesSlot i (grab _ _ _ _ _ _) = Unit {0}
LeavesSlot i (put _ _ _ _ _ _ _ _ _ _ _) = Unit {0}
LeavesSlot i (free _ _ _ _ _) = Unit {0}

abbrev pub Unanswered : {s u : Threads} → ℕ → Reach s u → Type 0
Unanswered i here = Unit {0}
Unanswered i (next p st) = Unanswered i p × LeavesSlot i st

-- No thread has read slot `i` and is still to clear it.
abbrev pub Away : ℕ → Threads → Type 0
Away i s = (j x r : ℕ) → s.place j ≡ looked x r → slot x ≢ i

-- A thread goes on to place `q`.
moved-Away :
    (i j : ℕ) (pl : ℕ → Place) (q : Place)
    → ((k x r : ℕ) → pl k ≡ looked x r → slot x ≢ i)
    → ((x r : ℕ) → q ≡ looked x r → slot x ≢ i)
    → (k x r : ℕ) → update pl j q k ≡ looked x r
    → slot x ≢ i
moved-Away i j pl q old new k x r e = elim (Bool-cases (j == k)) [
  | inl same ↦ new x r (rw same at e)
  | inr other ↦ old k x r (rw other at e)
]

step-Away : (i : ℕ) {s u : Threads} (st : Step s u) → LeavesSlot i st → Away i s → Away i u
step-Away i (start _ _ _ _ _ _ _ _ e) l a = rw e a
step-Away i (alloc _ _ _ e) l a = rw e a
step-Away i (encode _ _ _ _ e) l a = rw e a
step-Away i (send _ _ _ _ e) l a = rw e a
step-Away i {s} (look j r xid spot hit e) l a =
    rw e
      (moved-Away i j s.place (looked xid r) a (λ x y g. let same : xid ≡ x = cc in rw (← same) l))
step-Away i {s} (clear j r xid spot e) l a =
    rw e (moved-Away i j s.place (cleared xid r) a (λ x y g. let never : ⊥ = cc in absurd never))
step-Away i {s} (grab j r xid spot mine e) l a =
    rw e (moved-Away i j s.place _ a (λ x y g. let never : ⊥ = cc in absurd never))
step-Away i {s} (put j r tmp stop len stat body t h spot e) l a =
    rw e (moved-Away i j s.place reading a (λ x y g. let never : ⊥ = cc in absurd never))
step-Away i (free _ _ _ _ e) l a = rw e a

Reach-Away : (i : ℕ) {s u : Threads} (p : Reach s u) → Unanswered i p → Away i s → Away i u
Reach-Away i here l a = a
Reach-Away i (next p st) l a = step-Away i st l.1 (Reach-Away i p l.0 a)

-- The send itself.
pub enroll-Flying :
    (r : ℕ) (m : Mnt)
    → ¬ InFlight r m
    → m.mnt_send_xid < 2 ^ 32
    → Flying r m.mnt_send_xid 0 (enroll r m)
unfolding enroll next_xid
enroll-Flying r m idle h = record {
  placed = ground arith;
  once = λ i e. elim (Bool-cases (slot m.mnt_send_xid == i)) [
    | inl at ↦ ground arith
    | inr off ↦ let old : m.mnt_req_tbl i ≡ some r = rw off at e in absurd (idle (i, old))
  ];
  xid = ground arith;
  next_id = omega arith;
}

module _ (r x k : ℕ) (m : Mnt) (f : Flying r x k m) where
  -- Requests change, but not in what is asked of `r`.
  set_req-Flying :
      (y : ℕ) (q : Req) → q.req_xid ≡ (m.req_at y).req_xid → Flying r x k (set_req y q m)
  set_req-Flying y q e = record {
    placed = f.placed;
    once = f.once;
    xid = let old = f.xid in ground arith;
    next_id = f.next_id;
  }

  send-Flying : (y : ℕ) → ¬ InFlight y m → k + 1 < nct_req_max → Flying r x (k + 1) (enroll y m)
  unfolding enroll next_xid
  send-Flying y idle h =
      let other : y ≢ r = λ e. idle (slot x, rw e f.placed) in
      let now = f.next_id in
      let apart : slot m.mnt_send_xid ≢ slot x = λ e. absurd (omega arith) in
      record {
        placed = let old = f.placed in ground arith;
        once = λ i e. let old = f.once i in ground arith;
        xid = let old = f.xid in ground arith;
        next_id = omega arith;
      }

  clear-Flying : (xid : ℕ) → slot xid ≢ slot x → Flying r x k (clear_slot (slot xid) m)
  clear-Flying xid apart = record {
    placed = let old = f.placed in ground arith;
    once = λ i e. let old = f.once i in ground arith;
    xid = f.xid;
    next_id = f.next_id;
  }

  put-Flying :
      (y tsc_stop len stat : ℕ) (body : List ℕ) (t : Thread)
      → Flying r x k (exchange y tsc_stop len stat body t m).0
  unfolding exchange
  put-Flying y tsc_stop len stat body t = record {
    placed = f.placed;
    once = f.once;
    xid = let old = f.xid in ground arith;
    next_id = f.next_id;
  }

  -- An allocation changes the pool's head and its first request.
  take_head-Flying :
      (h : Option ℕ) (y : ℕ) (m' : Mnt) → take_head h m ≡ allocated y m' → Flying r x k m'
  unfolding take_head
  take_head-Flying none y m' e = let clash : ⊥ = cc in absurd clash
  take_head-Flying (some z) y m' e =
      let q = record (m.req_at z) { req_cb = none; req_done = false } in
      let same : set_req z q (record m { mnt_req_head = (m.req_at z).req_next }) ≡ m' = cc in
      subst (Flying r x k) same (record {
        placed = f.placed;
        once = f.once;
        xid = let old = f.xid in ground arith;
        next_id = f.next_id;
      })

-- A step that sends nothing.
unsent : (r x k : ℕ) (m n : Mnt) → n ≡ m → Flying r x k m → Flying r x (k + 0) n
unsent r x k m n e f = let same : k + 0 ≡ k = omega arith in rw (e, same) f

step-Flying :
    (r x k : ℕ) {s u : Threads} (st : Step s u)
    → Flying r x k s.mnt
    → Away (slot x) s
    → k + is_send st < nct_req_max
    → Flying r x (k + is_send st) u.mnt
unfolding nct_req_alloc nct_req_free
step-Flying r x k {s} {u} (start i y f t0 t1 m none_yet got e) v l h =
    unsent r x k m u.mnt (ap (λ w. w.mnt) e)
      (take_head-Flying r x k s.mnt v s.mnt.mnt_req_head y m got)
step-Flying r x k {s} {u} (alloc y m got e) v l h =
    unsent r x k m u.mnt (ap (λ w. w.mnt) e)
      (take_head-Flying r x k s.mnt v s.mnt.mnt_req_head y m got)
step-Flying r x k {s} {u} (encode y now bytes w e) v l h =
    unsent r x k (put_message y bytes (started y now s.mnt)) u.mnt (ap (λ w. w.mnt) e) (
      let q = record (s.mnt.req_at y) { req_tsc_start = now } in
      let g = set_req-Flying r x k s.mnt v y q refl in
      record { placed = g.placed; once = g.once; xid = g.xid; next_id = g.next_id })
step-Flying r x k {s} {u} (send y w idle alone e) v l h =
    rw (ap (λ w. w.mnt) e) (send-Flying r x k s.mnt v y idle h)
step-Flying r x k {s} {u} (look i y xid spot hit e) v l h =
    unsent r x k s.mnt u.mnt (ap (λ w. w.mnt) e) v
step-Flying r x k {s} {u} (clear i y xid spot e) v l h =
    unsent r x k _ u.mnt (ap (λ w. w.mnt) e) (clear-Flying r x k s.mnt v xid (l i xid y spot))
step-Flying r x k {s} {u} (grab i y xid spot mine e) v l h =
    unsent r x k s.mnt u.mnt (ap (λ w. w.mnt) e) v
step-Flying r x k {s} {u} (put i y tmp tsc_stop len stat body t here_t spot e) v l h =
    unsent r x k _ u.mnt (ap (λ w. w.mnt) e) (put-Flying r x k s.mnt v y tsc_stop len stat body t)
step-Flying r x k {s} {u} (free y w idle alone e) v l h =
    unsent r x k (nct_req_free y s.mnt).0 u.mnt (ap (λ w. w.mnt) e) (
      let q = record (s.mnt.req_at y) { req_next = s.mnt.mnt_req_head } in
      let g = set_req-Flying r x k s.mnt v y q refl in
      record { placed = g.placed; once = g.once; xid = g.xid; next_id = g.next_id })

pub Reach-Flying :
    (r x : ℕ) {s u : Threads} (p : Reach s u)
    → Flying r x 0 s.mnt
    → Away (slot x) s
    → Unanswered (slot x) p
    → sends p < nct_req_max
    → Flying r x (sends p) u.mnt
Reach-Flying r x here v c a h = v
Reach-Flying r x (next p st) v c a h =
    step-Flying r x (sends p) st (Reach-Flying r x p v c a.0 (omega arith))
      (Reach-Away (slot x) p a.0 c) h

-- The reply with a request's id.
abbrev pub reply_to : ℕ → ℕ → List ℕ → RpcMsg
reply_to x verdict body = record { rm_xid = x; verdict = verdict; results = body }
