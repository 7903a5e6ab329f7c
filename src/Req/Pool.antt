-- ===== src/Req/Pool.antt =====
-- The free pool: nct_req_create, nct_req_alloc and nct_req_free. Each runs under `mnt_req_mtx`
-- as far as it touches the pool, so a call is one step.
use nct.Base.{
  ℕ, zero, suc, ◌+◌, ◌-◌, ◌<◌, ◌≡◌, ◌≢◌, refl, sym, Bool, false, Option, none, some, List, [], ◌∷◌,
  arith, ltb, length, All, subst,
}
use nct.Req.State.{Req, Mnt, update, update_self, update-ne, set_req, nct_req_max}

-- What nct_req_alloc comes to: a request, or a wait on `mnt_req_cv` as one more waiter.
pub data Alloc : Type 0 where
  allocated : ℕ → Mnt → Alloc
  sleeps : Mnt → Alloc

-- The head of the list is taken, and its `req_next` left as it was.
unfoldable pub take_head : Option ℕ → Mnt → Alloc
take_head none m = sleeps (record m { mnt_req_waiters = m.mnt_req_waiters + 1 })
take_head (some r) m = allocated r (
    set_req r (record (m.req_at r) { req_cb = none; req_done = false })
      (record m { mnt_req_head = (m.req_at r).req_next }))

-- nct_req_alloc, to its return or its wait.
unfoldable pub nct_req_alloc : Mnt → Alloc
nct_req_alloc m = take_head m.mnt_req_head m

-- pthread_cond_wait() returns: the loop counts the waiter out and tests the head again.
unfoldable pub alloc_wakes : Mnt → Alloc
alloc_wakes m = nct_req_alloc (record m { mnt_req_waiters = m.mnt_req_waiters - 1 })

-- nct_req_free, with whether it signals a waiter.
unfoldable pub nct_req_free : ℕ → Mnt → Mnt × Bool
nct_req_free r m = (
  set_req r (record (m.req_at r) { req_next = m.mnt_req_head })
      (record m { mnt_req_head = some r }),
  ltb 0 m.mnt_req_waiters,
)

-- memset() of a request, its buffer, and the head of the list behind it.
abbrev pub new_req : ℕ → Option ℕ → Req
new_req i next = record {
  req_msg = i;
  req_xid = 0;
  req_cb = none;
  req_done = false;
  req_tsc_start = 0;
  req_tsc_stop = 0;
  req_tsc_finish = 0;
  req_next = next;
}

-- The loop of nct_req_create, `n` rounds from `i` on.
unfoldable pub create_loop : ℕ → ℕ → Mnt → Mnt
create_loop zero i m = m
create_loop (suc n) i m =
    create_loop n (i + 1)
      (set_req i (new_req i m.mnt_req_head) (record m { mnt_req_head = some i }))

-- nct_req_create, where both calls of mmap() succeed: a fresh mapping reads as zeros.
unfoldable pub nct_req_create : Mnt → Mnt
nct_req_create m = create_loop nct_req_max 0 (record m { mnt_req_tbl = λ _. none })

-- The requests on a list, from its head.
abbrev pub Chain : (ℕ → Req) → Option ℕ → List ℕ → Type 0
Chain f h [] = h ≡ none
Chain f h (r ∷ rs) = (h ≡ some r) × Chain f (f r).req_next rs

abbrev pub Fresh : ℕ → List ℕ → Type 0
Fresh r = All (λ s. r ≢ s)

abbrev pub Distinct : List ℕ → Type 0
Distinct [] = Unit {0}
Distinct (r ∷ rs) = Fresh r rs × Distinct rs

-- The pool is exactly `free`, the last one returned first, and no request stands in it twice.
pub record IsPool (m : Mnt) (free : List ℕ) : Type 0 where
  pub linked : Chain m.req_at m.mnt_req_head free
  pub distinct : Distinct free

-- A write to a request that is not on a list keeps the list.
pub Chain-update :
    (f : ℕ → Req) (r : ℕ) (q : Req) (h : Option ℕ) (rs : List ℕ)
    → Fresh r rs
    → Chain f h rs
    → Chain (update f r q) h rs
Chain-update f r q h [] n c = c
Chain-update f r q h (s ∷ rs) n c = (
  c.0,
  subst (λ x. Chain (update f r q) x.req_next rs) (sym (update-ne f r q s n.0))
      (Chain-update f r q (f s).req_next rs n.1 c.1),
)

linked_update :
    (m : Mnt) (r : ℕ) (q : Req) (free : List ℕ)
    → Fresh r free
    → IsPool m free
    → q.req_next ≡ m.mnt_req_head
    → Chain (update m.req_at r q) (update m.req_at r q r).req_next free
linked_update m r q free n p e =
    subst (λ x. Chain (update m.req_at r q) x.req_next free) (sym (update_self m.req_at r q))
      (subst (λ h. Chain (update m.req_at r q) h free) (sym e)
        (Chain-update m.req_at r q m.mnt_req_head free n p.linked))

-- An allocation from a pool that is not empty takes its head, with its callback and `req_done`
-- cleared, and leaves the rest.
pub nct_req_alloc-IsPool :
    (m : Mnt) (r : ℕ) (free : List ℕ)
    → IsPool m (r ∷ free)
    → (m' : Mnt) × (nct_req_alloc m ≡ allocated r m')
      × IsPool m' free
      × ((m'.req_at r).req_cb ≡ none)
      × ((m'.req_at r).req_done ≡ false)
unfolding nct_req_alloc take_head
nct_req_alloc-IsPool m r free p = (
  set_req r (record (m.req_at r) { req_cb = none; req_done = false })
      (record m { mnt_req_head = (m.req_at r).req_next }),
  ground arith,
  record {
    linked = Chain-update m.req_at r _ _ free p.distinct.0 p.linked.1;
    distinct = p.distinct.1;
  },
  ground arith,
  ground arith,
)

-- Of an empty pool an allocation waits.
pub nct_req_alloc-empty :
    (m : Mnt)
    → IsPool m []
    → nct_req_alloc m ≡ sleeps (record m { mnt_req_waiters = m.mnt_req_waiters + 1 })
unfolding nct_req_alloc take_head
nct_req_alloc-empty m p = ground arith

-- A request that is not in the pool goes in front of it.
pub nct_req_free-IsPool :
    (m : Mnt) (r : ℕ) (free : List ℕ)
    → Fresh r free
    → IsPool m free
    → IsPool (nct_req_free r m).0 (r ∷ free)
unfolding nct_req_free
nct_req_free-IsPool m r free n p = record {
  linked = (refl, linked_update m r _ free n p refl);
  distinct = (n, p.distinct);
}

-- Each new request goes in front, so the last of the array comes out first.
abbrev pub pushed : ℕ → ℕ → List ℕ → List ℕ
pushed zero i free = free
pushed (suc n) i free = pushed n (i + 1) (i ∷ free)

Fresh-above : (i : ℕ) (free : List ℕ) → All (λ r. r < i) free → Fresh i free
Fresh-above i [] a = tt
Fresh-above i (r ∷ rs) a = (omega arith, Fresh-above i rs a.1)

below_mono : (i : ℕ) (free : List ℕ) → All (λ r. r < i) free → All (λ r. r < i + 1) free
below_mono i [] a = tt
below_mono i (r ∷ rs) a = (omega arith, below_mono i rs a.1)

create_loop-IsPool :
    (n i : ℕ) (m : Mnt) (free : List ℕ)
    → All (λ r. r < i) free
    → IsPool m free
    → IsPool (create_loop n i m) (pushed n i free)
unfolding create_loop
create_loop-IsPool zero i m free a p = p
create_loop-IsPool (suc n) i m free a p =
    create_loop-IsPool n (i + 1) _ (i ∷ free) (omega arith, below_mono i free a)
      (record {
        linked =
            (refl, linked_update m i (new_req i m.mnt_req_head) free (Fresh-above i free a) p refl);
        distinct = (Fresh-above i free a, p.distinct);
      })

pub length-pushed : (n i : ℕ) (free : List ℕ) → length (pushed n i free) ≡ n + length free
length-pushed zero i free = omega arith
length-pushed (suc n) i free = omega (arith, length-pushed n (i + 1) (i ∷ free))

-- The pool that nct_req_create builds.
abbrev pub initial_pool : List ℕ
initial_pool = pushed nct_req_max 0 []

-- A new pool holds as many requests as the table has slots, no one twice.
pub nct_req_create-IsPool :
    (m : Mnt)
    → m.mnt_req_head ≡ none
    → IsPool (nct_req_create m) initial_pool × (length initial_pool ≡ nct_req_max)
unfolding nct_req_create
nct_req_create-IsPool m e = (
  create_loop-IsPool nct_req_max 0 _ [] tt (record { linked = e; distinct = tt }),
  length-pushed nct_req_max 0 [],
)
