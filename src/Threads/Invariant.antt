-- ===== src/Threads/Invariant.antt =====
-- What the steps of the threads keep: every message buffer has one owner.
use nct.Base.{
  ℕ, ◌≡◌, ◌≢◌, refl, ap, sym, ◌∙◌, subst, false, none, some, List, [], ◌∷◌, arith, ◌==◌, All,
  Bool-cases, inl, inr, ==→eq, ==→ne,
}
use nct.Req.State.{Req, Mnt, update, update_self, update-ne, set_req}
use nct.Req.Pool.{
  allocated, nct_req_alloc, take_head, nct_req_free, Fresh, IsPool, Chain-update,
  nct_req_free-IsPool,
}
use nct.Req.Send.{slot, enroll}
use nct.Req.Loop.{Thread, exchange}
use nct.Jobs.{put_message, started}
use nct.Threads.{
  Role, outside, pooled, working, seated, Place, reading, looked, cleared, grabbed, Threads,
  thread_start, clear_slot, hand, InFlight, Has, Held,
}

-- Who has a message buffer.
pub data Owner : Type 0 where
  of_req of_thread : ℕ → Owner

abbrev pub Live : Role → Type 0
Live outside = ⊥
Live pooled = Unit {0}
Live working = Unit {0}
Live seated = ⊥

-- Every buffer has one owner, the pool is whole, only requests of jobs are in flight, and a request
-- whose reply a thread is at is a job's, with no other thread at it.
pub record Inv (s : Threads) : Type 0 where
  pub owner : ℕ → Owner
  pub free_list : List ℕ
  pub pool : IsPool s.mnt free_list
  pub in_pool : All (λ r. s.role r ≡ pooled) free_list
  pub flying : (i r : ℕ) → s.mnt.mnt_req_tbl i ≡ some r → s.role r ≡ working
  pub req_owner : (r : ℕ) → Live (s.role r) → owner (s.mnt.req_at r).req_msg ≡ of_req r
  pub thread_owner : (i : ℕ) (t : Thread) → s.thread i ≡ some t → owner t.msg ≡ of_thread i
  pub held : (i r : ℕ) → Has r (s.place i) → s.role r ≡ working
  pub one : (i j r : ℕ) → Has r (s.place i) → Has r (s.place j) → i ≡ j
  pub kept : (i r tmp : ℕ) → s.place i ≡ grabbed r tmp → (s.mnt.req_at r).req_msg ≡ tmp

Fresh-role :
    (role : ℕ → Role) (r : ℕ) (rs : List ℕ)
    → role r ≡ working
    → All (λ x. role x ≡ pooled) rs
    → Fresh r rs
Fresh-role role r [] w a = tt
Fresh-role role r (x ∷ rs) w a = (λ e. ground arith, Fresh-role role r rs w a.1)

All-update :
    (role : ℕ → Role) (r : ℕ) (x : Role) (rs : List ℕ)
    → Fresh r rs
    → All (λ y. role y ≡ pooled) rs
    → All (λ y. update role r x y ≡ pooled) rs
All-update role r x [] f a = tt
All-update role r x (y ∷ rs) f a = (update-ne role r x y f.0 ∙ a.0, All-update role r x rs f.1 a.1)

-- What an allocation leaves.
record Taken (m : Mnt) (free_list : List ℕ) (r : ℕ) (m' : Mnt) : Type 0 where
  rest : List ℕ
  was : free_list ≡ r ∷ rest
  pool : IsPool m' rest
  fresh : Fresh r rest
  table : m'.mnt_req_tbl ≡ m.mnt_req_tbl
  same : (x : ℕ) → (m'.req_at x).req_msg ≡ (m.req_at x).req_msg

same_msg :
    (f : ℕ → Req) (r : ℕ) (q : Req)
    → q.req_msg ≡ (f r).req_msg
    → (x : ℕ) → (update f r q x).req_msg ≡ (f x).req_msg
same_msg f r q e x = ground arith

abbrev pub popped : ℕ → Mnt → Mnt
popped x m =
    set_req x (record (m.req_at x) { req_cb = none; req_done = false })
      (record m { mnt_req_head = (m.req_at x).req_next })

popped-Taken : (m : Mnt) (x : ℕ) (rs : List ℕ) → IsPool m (x ∷ rs) → Taken m (x ∷ rs) x (popped x m)
popped-Taken m x rs p = record {
  rest = rs;
  was = refl;
  pool = record {
    linked = Chain-update m.req_at x _ _ rs p.distinct.0 p.linked.1;
    distinct = p.distinct.1;
  };
  fresh = p.distinct.0;
  table = refl;
  same = same_msg m.req_at x _ refl;
}

pub alloc_head :
    (m : Mnt) (x : ℕ) → m.mnt_req_head ≡ some x → nct_req_alloc m ≡ allocated x (popped x m)
unfolding nct_req_alloc take_head
alloc_head m x e = ground arith

alloc_nil :
    (m : Mnt) → m.mnt_req_head ≡ none → (r : ℕ) (m' : Mnt) → nct_req_alloc m ≢ allocated r m'
unfolding nct_req_alloc take_head
alloc_nil m e r m' h = ground arith

alloc-Taken :
    (m m' : Mnt) (free_list : List ℕ) (r : ℕ)
    → IsPool m free_list
    → nct_req_alloc m ≡ allocated r m'
    → Taken m free_list r m'
alloc-Taken m m' [] r p e = absurd (alloc_nil m p.linked r m' e)
alloc-Taken m m' (x ∷ rs) r p e =
    let both : allocated x (popped x m) ≡ allocated r m' = sym (alloc_head m x p.linked.0) ∙ e in
    let same_r : x ≡ r = cc both in
    let same_m : popped x m ≡ m' = cc both in
    subst (λ y. Taken m (x ∷ rs) y m') same_r
      (subst (λ n. Taken m (x ∷ rs) x n) same_m (popped-Taken m x rs p))

-- A thread goes on to place `p`.
module _ (pl : ℕ → Place) (i : ℕ) (p : Place) where
  held-update :
      (role : ℕ → Role)
      → ((j r : ℕ) → Has r (pl j) → role r ≡ working)
      → ((r : ℕ) → Has r p → role r ≡ working)
      → (j r : ℕ) → Has r (update pl i p j)
      → role r ≡ working
  held-update role old new j r h = elim (Bool-cases (i == j)) [
    | inl e ↦ new r (rw e at h)
    | inr ne ↦ old j r (rw ne at h)
  ]

  one-update :
      ((j k r : ℕ) → Has r (pl j) → Has r (pl k) → j ≡ k)
      → ((j r : ℕ) → Has r p → Has r (pl j) → i ≡ j)
      → (j k r : ℕ) → Has r (update pl i p j)
      → Has r (update pl i p k)
      → j ≡ k
  one-update old new j k r a b = elim (Bool-cases (i == j)) [
    | inl e ↦ elim (Bool-cases (i == k)) [
      | inl e' ↦ sym (==→eq i j e) ∙ ==→eq i k e'
      | inr ne ↦ sym (==→eq i j e) ∙ new k r (rw e at a) (rw ne at b)
    ]
    | inr ne ↦ elim (Bool-cases (i == k)) [
      | inl e' ↦ sym (new j r (rw e' at b) (rw ne at a)) ∙ ==→eq i k e'
      | inr ne' ↦ old j k r (rw ne at a) (rw ne' at b)
    ]
  ]

  kept-update :
      (buffer : ℕ → ℕ)
      → ((j r tmp : ℕ) → pl j ≡ grabbed r tmp → buffer r ≡ tmp)
      → ((r tmp : ℕ) → p ≡ grabbed r tmp → buffer r ≡ tmp)
      → (j r tmp : ℕ) → update pl i p j ≡ grabbed r tmp
      → buffer r ≡ tmp
  kept-update buffer old new j r tmp h = elim (Bool-cases (i == j)) [
    | inl e ↦ new r tmp (rw e at h)
    | inr ne ↦ old j r tmp (rw ne at h)
  ]

-- A step of the threads keeps the invariant, one lemma for each.
module _ (s : Threads) (v : Inv s) where
  pub start-Inv :
      (i r tsc_freq t0 t1 : ℕ) (m : Mnt)
      → s.thread i ≡ none
      → nct_req_alloc s.mnt ≡ allocated r m
      → Inv (record (hand r seated s) {
        mnt = m;
        thread = update s.thread i (some (thread_start tsc_freq t0 t1 r m));
      })
  unfolding thread_start
  start-Inv i r tsc_freq t0 t1 m none_yet e =
      let k = alloc-Taken s.mnt m v.free_list r v.pool e in
      let roles : All (λ x. s.role x ≡ pooled) (r ∷ k.rest) =
        subst (All (λ x. s.role x ≡ pooled)) k.was v.in_pool in
      record {
        owner = update v.owner (s.mnt.req_at r).req_msg (of_thread i);
        free_list = k.rest;
        pool = k.pool;
        in_pool = All-update s.role r seated k.rest k.fresh roles.1;
        flying = λ j x h.
            let w : s.role x ≡ working = v.flying j x (ap (λ f. f j) (sym k.table) ∙ h) in
            let p : s.role r ≡ pooled = roles.0 in ground arith;
        req_owner = λ x live. elim (Bool-cases (r == x)) [
          | inl e ↦ absurd (rw e at live)
          | inr ne ↦
              let old : Live (s.role x) = rw ne at live in
              let o : v.owner (s.mnt.req_at x).req_msg ≡ of_req x = v.req_owner x old in
              let o' : v.owner (s.mnt.req_at r).req_msg ≡ of_req r =
                v.req_owner r (subst Live (sym roles.0) tt) in
              rw (k.same x) (ground arith)
        ];
        thread_owner = λ j t h. elim (Bool-cases (i == j)) [
          | inl e ↦ ground (arith, k.same r)
          | inr ne ↦
              let old : s.thread j ≡ some t = rw ne at h in
              let o : v.owner t.msg ≡ of_thread j = v.thread_owner j t old in
              let o' : v.owner (s.mnt.req_at r).req_msg ≡ of_req r =
                v.req_owner r (subst Live (sym roles.0) tt) in
              ground arith
        ];
        held = λ j x h.
            let w : s.role x ≡ working = v.held j x h in
            let p : s.role r ≡ pooled = roles.0 in ground arith;
        one = v.one;
        kept = λ j x tmp h. k.same x ∙ v.kept j x tmp h;
      }

  pub alloc-Inv :
      (r : ℕ) (m : Mnt)
      → nct_req_alloc s.mnt ≡ allocated r m
      → Inv (record (hand r working s) { mnt = m })
  alloc-Inv r m e =
      let k = alloc-Taken s.mnt m v.free_list r v.pool e in
      let roles : All (λ x. s.role x ≡ pooled) (r ∷ k.rest) =
        subst (All (λ x. s.role x ≡ pooled)) k.was v.in_pool in
      record {
        owner = v.owner;
        free_list = k.rest;
        pool = k.pool;
        in_pool = All-update s.role r working k.rest k.fresh roles.1;
        flying = λ j x h.
            let w : s.role x ≡ working = v.flying j x (ap (λ f. f j) (sym k.table) ∙ h) in
            ground arith;
        req_owner = λ x live. elim (Bool-cases (r == x)) [
          | inl e ↦
              let same : r ≡ x = ==→eq r x e in
              rw (k.same x)
                (v.req_owner x (subst (λ y. Live (s.role y)) same (subst Live (sym roles.0) tt)))
          | inr ne ↦ rw (k.same x) (v.req_owner x (rw ne at live))
        ];
        thread_owner = v.thread_owner;
        held = λ j x h.
            let w : s.role x ≡ working = v.held j x h in
            let p : s.role r ≡ pooled = roles.0 in ground arith;
        one = v.one;
        kept = λ j x tmp h. k.same x ∙ v.kept j x tmp h;
      }

  pub encode-Inv :
      (r now : ℕ) (bytes : List ℕ)
      → s.role r ≡ working
      → Inv (record s { mnt = put_message r bytes (started r now s.mnt) })
  encode-Inv r now bytes w = record {
    owner = v.owner;
    free_list = v.free_list;
    pool = record {
      linked =
          Chain-update s.mnt.req_at r _ _ v.free_list (Fresh-role s.role r v.free_list w v.in_pool)
            v.pool.linked;
      distinct = v.pool.distinct;
    };
    in_pool = v.in_pool;
    flying = v.flying;
    req_owner = λ x live.
        rw (same_msg s.mnt.req_at r (record (s.mnt.req_at r) { req_tsc_start = now }) refl x)
          (v.req_owner x live);
    thread_owner = v.thread_owner;
    held = v.held;
    one = v.one;
    kept = λ j x tmp h.
        same_msg s.mnt.req_at r (record (s.mnt.req_at r) { req_tsc_start = now }) refl x
        ∙ v.kept j x tmp h;
  }

  pub send-Inv : (r : ℕ) → s.role r ≡ working → Inv (record s { mnt = enroll r s.mnt })
  unfolding enroll
  send-Inv r w = record {
    owner = v.owner;
    free_list = v.free_list;
    pool = record {
      linked =
          Chain-update s.mnt.req_at r _ _ v.free_list (Fresh-role s.role r v.free_list w v.in_pool)
            v.pool.linked;
      distinct = v.pool.distinct;
    };
    in_pool = v.in_pool;
    flying = λ j x h. let old = v.flying j x in ground arith;
    req_owner = λ x live.
        rw
          (same_msg s.mnt.req_at r
            (record (s.mnt.req_at r) { req_done = false; req_xid = s.mnt.mnt_send_xid }) refl x)
          (v.req_owner x live);
    thread_owner = v.thread_owner;
    held = v.held;
    one = v.one;
    kept = λ j x tmp h.
        same_msg s.mnt.req_at r
          (record (s.mnt.req_at r) { req_done = false; req_xid = s.mnt.mnt_send_xid }) refl x
        ∙ v.kept j x tmp h;
  }

  pub free-Inv :
      (r : ℕ)
      → s.role r ≡ working
      → ¬ InFlight r s.mnt
      → ¬ Held r s
      → Inv (record (hand r pooled s) { mnt = (nct_req_free r s.mnt).0 })
  unfolding nct_req_free
  free-Inv r w idle alone =
      let fresh : Fresh r v.free_list = Fresh-role s.role r v.free_list w v.in_pool in
      record {
        owner = v.owner;
        free_list = r ∷ v.free_list;
        pool = nct_req_free-IsPool s.mnt r v.free_list fresh v.pool;
        in_pool =
            (update_self s.role r pooled, All-update s.role r pooled v.free_list fresh v.in_pool);
        flying = λ j x h.
            let old : s.role x ≡ working = v.flying j x h in
            let other : r ≢ x = λ e. idle (j, rw e h) in rw (update-ne s.role r pooled x other) old;
        req_owner = λ x live.
            rw
              (same_msg s.mnt.req_at r (record (s.mnt.req_at r) { req_next = s.mnt.mnt_req_head })
                refl x)
              (elim (Bool-cases (r == x)) [
                | inl e ↦
                    let same : r ≡ x = ==→eq r x e in
                    v.req_owner x (subst (λ y. Live (s.role y)) same (subst Live (sym w) tt))
                | inr ne ↦ v.req_owner x (rw ne at live)
              ]);
        thread_owner = v.thread_owner;
        held = λ j x h.
            let other : r ≢ x = λ e. alone (j, subst (λ y. Has y (s.place j)) (sym e) h) in
            rw (update-ne s.role r pooled x other) (v.held j x h);
        one = v.one;
        kept = λ j x tmp h.
            same_msg s.mnt.req_at r (record (s.mnt.req_at r) { req_next = s.mnt.mnt_req_head }) refl
              x
            ∙ v.kept j x tmp h;
      }

  -- A thread takes a request that no other thread has.
  pub look-Inv :
      (i r xid : ℕ)
      → s.place i ≡ reading
      → s.mnt.mnt_req_tbl (slot xid) ≡ some r
      → ¬ Held r s
      → Inv (record s { place = update s.place i (looked xid r) })
  look-Inv i r xid spot hit alone = record {
    owner = v.owner;
    free_list = v.free_list;
    pool = record { linked = v.pool.linked; distinct = v.pool.distinct };
    in_pool = v.in_pool;
    flying = v.flying;
    req_owner = v.req_owner;
    thread_owner = v.thread_owner;
    held =
        held-update s.place i (looked xid r) s.role v.held
          (λ x e. subst (λ y. s.role y ≡ working) e (v.flying (slot xid) r hit));
    one =
        one-update s.place i (looked xid r) v.one
          (λ j x e h. absurd (alone (j, subst (λ y. Has y (s.place j)) (sym e) h)));
    kept =
        kept-update s.place i (looked xid r) (λ x. (s.mnt.req_at x).req_msg) v.kept
          (λ x tmp e. let never : ⊥ = cc in absurd never);
  }

  -- It has the request still.
  there-Has : (i r : ℕ) (p : Place) → s.place i ≡ p → Has r p → Has r (s.place i)
  there-Has i r p spot h = subst (Has r) (sym spot) h

  pub clear-Inv :
      (i r xid : ℕ)
      → s.place i ≡ looked xid r
      → Inv
          (record s { mnt = clear_slot (slot xid) s.mnt; place = update s.place i (cleared xid r) })
  clear-Inv i r xid spot = record {
    owner = v.owner;
    free_list = v.free_list;
    pool = record { linked = v.pool.linked; distinct = v.pool.distinct };
    in_pool = v.in_pool;
    flying = λ j x h. let old = v.flying j x in ground arith;
    req_owner = v.req_owner;
    thread_owner = v.thread_owner;
    held =
        held-update s.place i (cleared xid r) s.role v.held
          (λ x e. v.held i x (there-Has i x _ spot e));
    one =
        one-update s.place i (cleared xid r) v.one
          (λ j x e h. v.one i j x (there-Has i x _ spot e) h);
    kept =
        kept-update s.place i (cleared xid r) (λ x. (s.mnt.req_at x).req_msg) v.kept
          (λ x tmp e. let never : ⊥ = cc in absurd never);
  }

  pub grab-Inv :
      (i r xid : ℕ)
      → s.place i ≡ cleared xid r
      → Inv (record s { place = update s.place i (grabbed r (s.mnt.req_at r).req_msg) })
  grab-Inv i r xid spot =
      let to : Place = grabbed r (s.mnt.req_at r).req_msg in
      record {
        owner = v.owner;
        free_list = v.free_list;
        pool = record { linked = v.pool.linked; distinct = v.pool.distinct };
        in_pool = v.in_pool;
        flying = v.flying;
        req_owner = v.req_owner;
        thread_owner = v.thread_owner;
        held = held-update s.place i to s.role v.held (λ x e. v.held i x (there-Has i x _ spot e));
        one = one-update s.place i to v.one (λ j x e h. v.one i j x (there-Has i x _ spot e) h);
        kept =
            kept-update s.place i to (λ x. (s.mnt.req_at x).req_msg) v.kept
              (λ x tmp e.
                let same : r ≡ x = cc in
                let msg : (s.mnt.req_at r).req_msg ≡ tmp = cc in
                ap (λ y. (s.mnt.req_at y).req_msg) (sym same) ∙ msg);
      }

  pub put-Inv :
      (i r tmp tsc_stop len stat : ℕ) (body : List ℕ) (t : Thread)
      → s.thread i ≡ some t
      → s.place i ≡ grabbed r tmp
      → Inv (record s {
        mnt = (exchange r tsc_stop len stat body t s.mnt).0;
        thread =
            update s.thread i
              (some (record (exchange r tsc_stop len stat body t s.mnt).1 { msg = tmp }));
        place = update s.place i reading;
      })
  unfolding exchange
  put-Inv i r tmp tsc_stop len stat body t here_t spot =
      let w : s.role r ≡ working = v.held i r (there-Has i r _ spot refl) in
      let same : (s.mnt.req_at r).req_msg ≡ tmp = v.kept i r tmp spot in
      let mine : v.owner (s.mnt.req_at r).req_msg ≡ of_req r =
        v.req_owner r (subst Live (sym w) tt) in
      let spare : v.owner t.msg ≡ of_thread i = v.thread_owner i t here_t in
      record {
        owner = update (update v.owner t.msg (of_req r)) (s.mnt.req_at r).req_msg (of_thread i);
        free_list = v.free_list;
        pool = record {
          linked =
              Chain-update s.mnt.req_at r _ _ v.free_list
                (Fresh-role s.role r v.free_list w v.in_pool) v.pool.linked;
          distinct = v.pool.distinct;
        };
        in_pool = v.in_pool;
        flying = λ j x h. let old = v.flying j x in ground arith;
        req_owner = λ x live.
            let o : v.owner (s.mnt.req_at x).req_msg ≡ of_req x = v.req_owner x live in
            elim (Bool-cases (r == x)) [ inl e ↦ ground arith | inr ne ↦ ground arith ];
        thread_owner = λ j u h. elim (Bool-cases (i == j)) [
          | inl e ↦ ground arith
          | inr ne ↦
              let old : s.thread j ≡ some u = rw ne at h in
              let o : v.owner u.msg ≡ of_thread j = v.thread_owner j u old in ground arith
        ];
        held = held-update s.place i reading s.role v.held (λ x e. absurd e);
        one = one-update s.place i reading v.one (λ j x e h. absurd e);
        kept = λ j x buf h. elim (Bool-cases (i == j)) [
          | inl e ↦
              let moved : reading ≡ grabbed x buf = rw e at h in let never : ⊥ = cc in absurd never
          | inr ne ↦
              let there : s.place j ≡ grabbed x buf = rw ne at h in
              let other : r ≢ x = λ e.
                ==→ne i j ne
                  (v.one i j x (there-Has i x _ spot e) (subst (Has x) (sym there) refl)) in
              let old = v.kept j x buf there in ground arith
        ];
      }
