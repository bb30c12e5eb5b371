-- ===== src/Queue/Steps.antt =====
-- What the queue and its workers do: the calls of clients, and the loop of Start, step by step.
use function_hcl.Base.{ℕ, ◌+◌, ◌<◌, String, ◌≡◌, some, List, [], ◌∷◌, ◌++◌, length}
use function_hcl.Queue.{
  Job, Queue, new_queue, enqueue, dequeue, wait_for_key, set_processing, set_done,
}

-- The queue, the jobs that workers have received but not marked as running, and those that run.
pub record System : Type 0 where
  pub queue : Queue
  pub received : List Job
  pub executing : List Job

unfoldable pub start : ℕ → System
start concurrency = record { queue = new_queue concurrency; received = []; executing = [] }

pub data Step (s : System) : System → Type 0 where
  enqueued :
      (key : String) (q : Queue) → enqueue key s.queue ≡ some q → Step s (record s { queue = q })
  dequeued : (key : String) → Step s (record s { queue = dequeue key s.queue })
  waited : (key : String) → Step s (record s { queue = (wait_for_key key s.queue).1 })
  -- `case j := <-q.work` of a worker that is idle
  took :
      (j : Job) (rest : List Job)
      → s.queue.work ≡ j ∷ rest
      → length s.received + length s.executing < s.queue.concurrency
      → Step s (record s { queue = record s.queue { work = rest }; received = j ∷ s.received })
  started :
      (before : List Job) (j : Job) (after : List Job)
      → s.received ≡ before ++ j ∷ after
      → Step s (record {
        queue = set_processing j s.queue;
        received = before ++ after;
        executing = j ∷ s.executing;
      })
  finished :
      (before : List Job) (j : Job) (after : List Job)
      → s.executing ≡ before ++ j ∷ after
      → Step s (record s { queue = set_done j s.queue; executing = before ++ after })

pub data Reachable (concurrency : ℕ) : System → Type 0 where
  initial : Reachable concurrency (start concurrency)
  next : (s t : System) → Reachable concurrency s → Step s t → Reachable concurrency t
