-- ===== src/Queue/Dedupe.antt =====
-- The waiting jobs of each key: language-server/internal/utils/queue/queue.go.
use function_hcl.Base.{
  ℕ, suc, ◌+◌, ◌%◌, ◌^◌, String, ◌≡◌, refl, Bool, some, List, [], ◌∷◌, ◌++◌, lookup, insert,
  is_some, length, ltb, ◌==◌, string_eq, if◌then◌else◌, lookup-insert, lookup-erase, Option-cases,
  Bool-cases, inl, inr, arith,
}
use function_hcl.Queue.{
  Job, Queue, new_queue, enqueue, dequeue, wait_for_key, add_waiter, waiter_ids, set_processing,
  set_done,
}
use function_hcl.Queue.Steps.{
  System, start, Step, enqueued, dequeued, waited, took, started, finished, Reachable, initial,
  next,
}

abbrev pub one_if : Bool → ℕ
one_if b = if b then 1 else 0

-- How many jobs of a list have a key.
abbrev pub count : String → List Job → ℕ
count key [] = 0
count key (j ∷ jobs) = one_if (key == j.key) + count key jobs

count-append : (key : String) (a b : List Job) → count key (a ++ b) ≡ count key a + count key b
count-append key [] b = omega arith
count-append key (j ∷ a) b = omega (arith, count-append key a b)

-- The jobs that wait for a key, in the channel or received and not yet running, are one if the key
-- is pending and none if it is not.
abbrev pub Deduped : System → Type 0
Deduped s =
    (key : String)
    → count key s.queue.work + count key s.received
      ≡ one_if (is_some (lookup key s.queue.pending_jobs_by_key))

enqueue-Deduped :
    (s : System) (key : String) (q : Queue)
    → Deduped s
    → enqueue key s.queue ≡ some q
    → Deduped (record s { queue = q })
unfolding enqueue
enqueue-Deduped s key q d h k = elim (Option-cases (lookup key s.queue.pending_jobs_by_key)) [
  | inr (j, e) ↦
      let same_work : s.queue.work ≡ q.work = ground (arith, e, h) in
      let same_pending : s.queue.pending_jobs_by_key ≡ q.pending_jobs_by_key =
        ground (arith, e, h) in
      rw (← same_work, ← same_pending) (d k)
  | inl e ↦ elim (Bool-cases (ltb (length s.queue.work) 1000)) [
    | inr full ↦ absurd (ground (arith, e, full))
    | inl room ↦
        let j : Job = record { id = suc s.queue.next_id % 2 ^ 64; key = key } in
        let more : s.queue.work ++ j ∷ [] ≡ q.work = ground (arith, e, room, h) in
        let inserted : insert key j s.queue.pending_jobs_by_key ≡ q.pending_jobs_by_key =
          ground (arith, e, room, h) in
        rw (← more, ← inserted)
          (ground (
            arith,
            d k,
            d key,
            e,
            count-append k s.queue.work (j ∷ []),
            lookup-insert k key j s.queue.pending_jobs_by_key,
          ))
  ]
]

wait_for_key-Deduped :
    (s : System) (key : String)
    → Deduped s
    → Deduped (record s { queue = (wait_for_key key s.queue).1 })
unfolding wait_for_key add_waiter waiter_ids
wait_for_key-Deduped s key d k = ground (
  arith,
  Option-cases (lookup key s.queue.running_jobs_by_key),
  Option-cases (lookup key s.queue.pending_jobs_by_key),
  d k,
)

dequeue-Deduped :
    (s : System) (key : String) → Deduped s → Deduped (record s { queue = dequeue key s.queue })
unfolding dequeue
dequeue-Deduped s key d k =
    ground (arith, Option-cases (lookup key s.queue.pending_jobs_by_key), d k)

Step-Deduped : (s t : System) → Deduped s → Step s t → Deduped t
unfolding set_processing set_done
Step-Deduped s t d (enqueued key q e) = enqueue-Deduped s key q d e
Step-Deduped s t d (dequeued key) = dequeue-Deduped s key d
Step-Deduped s t d (waited key) = wait_for_key-Deduped s key d
Step-Deduped s t d (took j rest e idle) = λ k. ground (arith, d k, e)
Step-Deduped s t d (started before j after e) = λ k. ground (
  arith,
  d k,
  d j.key,
  e,
  count-append k before (j ∷ after),
  count-append k before after,
  lookup-erase k j.key s.queue.pending_jobs_by_key,
)
Step-Deduped s t d (finished before j after e) = d

-- In every state that the queue and its workers reach, at most one job of a key waits, and one does
-- exactly if the key is pending.
pub Reachable-Deduped : (n : ℕ) (s : System) → Reachable n s → Deduped s
unfolding start new_queue lookup
Reachable-Deduped n s initial = λ k. refl
Reachable-Deduped n s (next r _ before step) = Step-Deduped r s (Reachable-Deduped n r before) step
