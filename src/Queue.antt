-- ===== src/Queue.antt =====
-- language-server/internal/utils/queue/queue.go: a queue of jobs with one waiting job for each key.
-- Every operation holds the lock of the queue, so it is one step. Jobs are shared pointers of which
-- only the flag `canceled` changes, so the queue has the ids of the cancelled jobs.
pub mod Steps
pub mod Dedupe
mod Tests
use Prim.Native.Nat.{◌%◌, ◌^◌}
use function_hcl.Base.{
  ℕ, suc, String, Bool, true, false, not, Option, none, some, List, [], ◌∷◌, ◌++◌, Dict, lookup,
  insert, erase, contains, length, ltb, ◌==◌, string_eq, nat_eq, if◌then◌else◌,
}

-- job, without its function, its lock, and the flag
pub record Job : Type 0 where
  pub id : ℕ
  pub key : String

-- waiter; a channel stands by its number
pub record Waiter : Type 0 where
  pub ids : List ℕ
  pub channel : ℕ

-- Queue, with the cancelled jobs, the channels that are closed, and the number of channels made.
pub record Queue : Type 0 where
  pub concurrency : ℕ
  pub next_id : ℕ
  pub work : List Job
  pub pending_jobs_by_key : Dict String Job
  pub running_jobs_by_key : Dict String Job
  pub waiters : List Waiter
  pub canceled : List ℕ
  pub closed : List ℕ
  pub channels : ℕ

-- New
unfoldable pub new_queue : ℕ → Queue
new_queue concurrency = record {
  concurrency = concurrency;
  next_id = 0;
  work = [];
  pending_jobs_by_key = [];
  running_jobs_by_key = [];
  waiters = [];
  canceled = [];
  closed = [];
  channels = 0;
}

-- `delete(w.ids, id)`
unfoldable pub remove_id : ℕ → List ℕ → List ℕ
remove_id id [] = []
remove_id id (i ∷ ids) = let rest = remove_id id ids in if id == i then rest else i ∷ rest

-- job.setCanceled
unfoldable pub set_canceled : ℕ → Bool → List ℕ → List ℕ
unfolding remove_id
set_canceled id flag canceled = if flag then id ∷ canceled else remove_id id canceled

-- job.isCanceled
unfoldable pub is_canceled : Job → Queue → Bool
is_canceled j q = contains q.canceled j.id

-- setProcessing
unfoldable pub set_processing : Job → Queue → Queue
set_processing j q = record q {
  pending_jobs_by_key = erase j.key q.pending_jobs_by_key;
  running_jobs_by_key = insert j.key j q.running_jobs_by_key;
}

-- The loop of setDone: the waiters that stay, and the channels that are closed.
unfoldable pub settle : ℕ → List Waiter → List Waiter × List ℕ
unfolding remove_id
settle id [] = ([], [])
settle id (w ∷ waiters) =
    let (stay, close) = settle id waiters in
    elim (remove_id id w.ids) [
      | [] ↦ (stay, w.channel ∷ close)
      | i ∷ ids ↦ (record w { ids = i ∷ ids } ∷ stay, close)
    ]

-- setDone
unfoldable pub set_done : Job → Queue → Queue
unfolding settle
set_done j q =
    let (stay, close) = settle j.id q.waiters in
    record q {
      running_jobs_by_key = erase j.key q.running_jobs_by_key;
      waiters = stay;
      closed = close ++ q.closed;
    }

-- Enqueue; `none` if the channel is full, where the source waits with the lock held.
unfoldable pub enqueue : String → Queue → Option Queue
unfolding set_canceled
enqueue key q = elim (lookup key q.pending_jobs_by_key) [
  | some j ↦ some (record q { canceled = set_canceled j.id false q.canceled })
  | none ↦
      let id = suc q.next_id % 2 ^ 64 in
      let j : Job = record { id = id; key = key } in
      if ltb (length q.work) 1000
      then some (record q {
        next_id = id;
        pending_jobs_by_key = insert key j q.pending_jobs_by_key;
        work = q.work ++ j ∷ [];
      })
      else none
]

-- Dequeue
unfoldable pub dequeue : String → Queue → Queue
unfolding set_canceled
dequeue key q = elim (lookup key q.pending_jobs_by_key) [
  | none ↦ q
  | some j ↦ record q { canceled = set_canceled j.id true q.canceled }
]

-- The ids that addWaiter collects.
unfoldable pub waiter_ids : Option Job → Option Job → List ℕ
waiter_ids none none = []
waiter_ids (some j) none = j.id ∷ []
waiter_ids none (some j) = j.id ∷ []
waiter_ids (some i) (some j) = i.id ∷ j.id ∷ []

-- addWaiter
unfoldable pub add_waiter : Option Job → Option Job → Queue → Queue
unfolding waiter_ids
add_waiter j1 j2 q = record q {
  waiters = q.waiters ++ record { ids = waiter_ids j1 j2; channel = q.channels } ∷ [];
  channels = suc q.channels;
}

-- WaitForKey: the channel that it waits for, unless it returns at once, and the queue.
unfoldable pub wait_for_key : String → Queue → Option ℕ × Queue
unfolding add_waiter
wait_for_key key q =
    let running = lookup key q.running_jobs_by_key in
    let pending = lookup key q.pending_jobs_by_key in
    elim (waiter_ids running pending) [
      | [] ↦ (none, q)
      | _ ∷ _ ↦ (some q.channels, add_waiter running pending q)
    ]
