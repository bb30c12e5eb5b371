-- ===== src/Queue/Tests.antt =====
-- A run of the queue, and an instance of its theorem.
use function_hcl.Base.{refl, [], ◌∷◌, lookup, insert, string_eq, arith}
use function_hcl.Queue.{Job, Queue, new_queue, enqueue}
use function_hcl.Queue.Steps.{System, start, enqueued, took, Reachable, initial, next}
use function_hcl.Queue.Dedupe.{Deduped, Reachable-Deduped}

abbrev parse : Job
parse = record { id = 1; key = "parse" }

abbrev with_one : Queue
with_one = record (new_queue 2) {
  next_id = 1;
  work = parse ∷ [];
  pending_jobs_by_key = ("parse", parse) ∷ [];
}

-- One job is enqueued and received by a worker.
abbrev busy : System
busy = record { queue = record with_one { work = [] }; received = parse ∷ []; executing = [] }

busy_reached : Reachable 2 busy
unfolding start new_queue enqueue lookup insert
busy_reached =
    next (record { queue = with_one; received = []; executing = [] }) busy
      (next (start 2) (record { queue = with_one; received = []; executing = [] }) initial
        (enqueued "parse" with_one refl))
      (took parse [] refl (omega arith))

Reachable-Deduped_example : Deduped busy
Reachable-Deduped_example = Reachable-Deduped 2 busy busy_reached
