-- ===== src/Req/Calls.antt =====
-- The free pool as its callers see it: any sequence of calls, against a stack of requests.
use nct.Base.{ℕ, ◌+◌, ◌-◌, ◌≡◌, refl, ap, ap₂, ◌∙◌, Bool, none, some, List, [], ◌∷◌, ltb}
use nct.Req.State.{Mnt}
use nct.Req.Pool.{
  Alloc, allocated, sleeps, nct_req_alloc, alloc_wakes, nct_req_free, take_head, Fresh, IsPool,
  Chain-update, nct_req_free-IsPool,
}

-- A call of nct_req_alloc, the return of pthread_cond_wait() in one, and a call of nct_req_free.
pub data Call : Type 0 where
  alloc wake : Call
  free : ℕ → Call

-- A request; a wait; or the end of nct_req_free, with whether it signals a waiter.
pub data Answer : Type 0 where
  gives : ℕ → Answer
  blocks : Answer
  frees : Bool → Answer

abbrev answer : Alloc → Answer × Mnt
answer (allocated r m) = (gives r, m)
answer (sleeps m) = (blocks, m)

unfoldable pub serve : Call → Mnt → Answer × Mnt
serve alloc m = answer (nct_req_alloc m)
serve wake m = answer (alloc_wakes m)
serve (free r) m = let (m', signals) = nct_req_free r m in (frees signals, m')

unfoldable pub run : List Call → Mnt → List Answer × Mnt
unfolding serve
run [] m = ([], m)
run (c ∷ cs) m = let (a, m') = serve c m in let (as', m'') = run cs m' in (a ∷ as', m'')

-- The abstract pool: a stack of requests, and the number of threads that wait for one.
pub record Stack : Type 0 where
  pub free_list : List ℕ
  pub waiters : ℕ

abbrev take_top : List ℕ → ℕ → Answer × Stack
take_top [] w = (blocks, record { free_list = []; waiters = w + 1 })
take_top (r ∷ rs) w = (gives r, record { free_list = rs; waiters = w })

abbrev pub spec_call : Call → Stack → Answer × Stack
spec_call alloc s = take_top s.free_list s.waiters
spec_call wake s = take_top s.free_list (s.waiters - 1)
spec_call (free r) s = (frees (ltb 0 s.waiters), record s { free_list = r ∷ s.free_list })

abbrev pub spec_run : List Call → Stack → List Answer × Stack
spec_run [] s = ([], s)
spec_run (c ∷ cs) s =
    let (a, s') = spec_call c s in let (as', s'') = spec_run cs s' in (a ∷ as', s'')

-- No request is returned that is in the pool already.
abbrev pub Proper : List Call → Stack → Type 0
Proper [] s = Unit {0}
Proper (alloc ∷ cs) s = Proper cs (spec_call alloc s).1
Proper (wake ∷ cs) s = Proper cs (spec_call wake s).1
Proper (free r ∷ cs) s = Fresh r s.free_list × Proper cs (spec_call (free r) s).1

-- The mount object's pool is that stack.
pub record Represents (m : Mnt) (s : Stack) : Type 0 where
  pub pool : IsPool m s.free_list
  pub waiting : m.mnt_req_waiters ≡ s.waiters

-- A call answers as the stack does, and leaves a pool that represents the stack's new state.
Agrees : Answer × Mnt → Answer × Stack → Type 0
Agrees c a = (c.0 ≡ a.0) × Represents c.1 a.1

alloc-Agrees :
    (free_list : List ℕ) (w : ℕ) (m : Mnt)
    → IsPool m free_list
    → m.mnt_req_waiters ≡ w
    → Agrees (answer (nct_req_alloc m)) (take_top free_list w)
unfolding Agrees nct_req_alloc take_head
alloc-Agrees [] w m p e =
    let empty : m.mnt_req_head ≡ none = p.linked in
    rw (empty, take_head)
      (refl, record { pool = record { linked = refl; distinct = tt }; waiting = ap (λ k. k + 1) e })
alloc-Agrees (r ∷ rs) w m p e =
    let top : m.mnt_req_head ≡ some r = p.linked.0 in
    rw (top, take_head)
      (
        refl,
        record {
          pool = record {
            linked = Chain-update m.req_at r _ _ rs p.distinct.0 p.linked.1;
            distinct = p.distinct.1;
          };
          waiting = e;
        },
      )

signals :
    (m : Mnt) (r : ℕ) (s : Stack)
    → m.mnt_req_waiters ≡ s.waiters
    → frees (nct_req_free r m).1 ≡ frees (ltb 0 s.waiters)
unfolding nct_req_free
signals m r s e = rw e refl

nct_req_free-waiters : (m : Mnt) (r : ℕ) → (nct_req_free r m).0.mnt_req_waiters ≡ m.mnt_req_waiters
unfolding nct_req_free
nct_req_free-waiters m r = refl

serve-Agrees :
    (c : Call) (cs : List Call) (s : Stack) (m : Mnt)
    → Proper (c ∷ cs) s
    → Represents m s
    → Agrees (serve c m) (spec_call c s) × Proper cs (spec_call c s).1
unfolding Agrees serve alloc_wakes
serve-Agrees alloc cs s m ok p = (alloc-Agrees s.free_list s.waiters m p.pool p.waiting, ok)
serve-Agrees wake cs s m ok p = (
  alloc-Agrees s.free_list (s.waiters - 1) (record m { mnt_req_waiters = m.mnt_req_waiters - 1 })
      (record { linked = p.pool.linked; distinct = p.pool.distinct }) (ap (λ k. k - 1) p.waiting),
  ok,
)
serve-Agrees (free r) cs s m ok p = (
  (
    signals m r s p.waiting,
    record {
      pool = nct_req_free-IsPool m r s.free_list ok.0 p.pool;
      waiting = nct_req_free-waiters m r ∙ p.waiting;
    },
  ),
  ok.1,
)

-- Any sequence of calls is answered as the stack answers it, whatever the order of allocations,
-- waits, wake-ups and returns, and leaves the pool the stack's. A request is returned only while it
-- is not in the pool.
pub run_refines :
    (cs : List Call) (s : Stack) (m : Mnt)
    → Proper cs s
    → Represents m s
    → ((run cs m).0 ≡ (spec_run cs s).0) × Represents (run cs m).1 (spec_run cs s).1
unfolding run Agrees
run_refines [] s m ok p = (refl, p)
run_refines (c ∷ cs) s m ok p =
    let step = serve-Agrees c cs s m ok p in
    let rest = run_refines cs (spec_call c s).1 (serve c m).1 step.1 step.0.1 in
    (ap₂ ◌∷◌ step.0.0 rest.0, rest.1)
