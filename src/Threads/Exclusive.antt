-- ===== src/Threads/Exclusive.antt =====
-- No message buffer is shared: not by two threads, nor by a thread and a job, nor by two jobs.
use nct.Base.{ℕ, ◌≡◌, some}
use nct.Req.Loop.{Thread}
use nct.Threads.{
  pooled, working, Threads, Step, start, alloc, encode, send, look, clear, grab, put, free, Reach,
  here, next, Held,
}
use nct.Threads.Invariant.{Owner, of_req, of_thread}

-- A step takes no request that a thread has already, and no step does.
abbrev pub TakesFree : {s u : Threads} → Step s u → Type 0
TakesFree (start _ _ _ _ _ _ _ _ _) = Unit {0}
TakesFree (alloc _ _ _ _) = Unit {0}
TakesFree (encode _ _ _ _ _) = Unit {0}
TakesFree (send _ _ _ _ _) = Unit {0}
TakesFree {s} (look _ r _ _ _ _) = ¬ Held r s
TakesFree (clear _ _ _ _ _) = Unit {0}
TakesFree (grab _ _ _ _ _ _) = Unit {0}
TakesFree (put _ _ _ _ _ _ _ _ _ _ _) = Unit {0}
TakesFree (free _ _ _ _ _) = Unit {0}

abbrev pub OneReply : {s u : Threads} → Reach s u → Type 0
OneReply here = Unit {0}
OneReply (next p st) = OneReply p × TakesFree st

-- Who can write a message buffer: a receive thread the one that it reads records into, a job the
-- one of its request, and the pool's requests have theirs.
pub data Holds (s : Threads) : Owner → ℕ → Type 0 where
  by_thread : (i : ℕ) (t : Thread) → s.thread i ≡ some t → Holds s (of_thread i) t.msg
  by_job : (r : ℕ) → s.role r ≡ working → Holds s (of_req r) (s.mnt.req_at r).req_msg
  by_pool : (r : ℕ) → s.role r ≡ pooled → Holds s (of_req r) (s.mnt.req_at r).req_msg
