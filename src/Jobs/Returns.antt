-- ===== src/Jobs/Returns.antt =====
-- The callbacks and the pool: a callback that returns 0 has sent its request again, and one that
-- returns anything else has put it back into the pool.
use nct.Base.{ℕ, ◌≡◌, ◌≢◌, refl, sym, subst, false, List, ◌∷◌}
use nct.Rpc.Decode.{rpc_success}
use nct.Req.State.{Req, Mnt, update}
use nct.Req.Pool.{IsPool, Fresh, Chain, Chain-update, nct_req_free, nct_req_free-IsPool}
use nct.Req.Loop.{CbResult, returned}
use nct.Xdr.{nfs3_ok}
use nct.Jobs.{Env, getattr_cb, msg_of, getattr_result}

-- A request that is written to, and not on the list, leaves the pool as it is.
pub IsPool-update :
    (r : ℕ) (q : Req) (m n : Mnt) (free : List ℕ)
    → n.mnt_req_head ≡ m.mnt_req_head
    → n.req_at ≡ update m.req_at r q
    → Fresh r free
    → IsPool m free
    → IsPool n free
IsPool-update r q m n free eh ef fresh p = record {
  linked =
      subst (λ f. Chain f n.mnt_req_head free) (sym ef)
        (subst (λ h. Chain (update m.req_at r q) h free) (sym eh)
          (Chain-update m.req_at r q m.mnt_req_head free fresh p.linked));
  distinct = p.distinct;
}

-- What a callback owes the pool.
abbrev pub Returns : ℕ → List ℕ → CbResult → Type 0
Returns r free out =
    (rc : ℕ) (m' : Mnt)
    → out ≡ returned rc m'
    → (rc ≡ 0 → IsPool m' free) × (rc ≢ 0 → IsPool m' (r ∷ free))

module _ (r : ℕ) (free : List ℕ) (fresh : Fresh r free) where
  -- The decoder fails, and yet leaves the status NFS3_OK: the attributes did not decode.
  abbrev pub Undecoded : Env → Mnt → Type 0
  Undecoded env m = getattr_result env (msg_of r m).msg_body ≡ (false, nfs3_ok)

  -- Where the NFS status of a successful reply decodes as NFS3_OK and the attributes do not decode,
  -- test_getattr_cb puts the request back and returns 0: the job has ended, and is not counted out.
  pub getattr_cb-lost :
      (env : Env) (m : Mnt)
      → IsPool m free
      → (msg_of r m).msg_stat ≡ rpc_success
      → Undecoded env m
      → (m' : Mnt) × (getattr_cb env r m ≡ returned 0 m')
        × IsPool m' (r ∷ free)
        × (m'.mnt_jobs_cnt ≡ m.mnt_jobs_cnt)
  unfolding getattr_cb nct_req_free
  getattr_cb-lost env m p good un =
      ((nct_req_free r m).0, rw (good, un), nct_req_free-IsPool m r free fresh p, refl)
