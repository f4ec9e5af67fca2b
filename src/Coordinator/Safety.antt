-- ===== src/Coordinator/Safety.antt =====
-- What `run_pairs_from_sequence` guarantees in every state that its threads can reach, whatever
-- their interleaving and whatever the executor, the publisher and the acknowledger do.
use src_move.Common.{
  ℕ, ◌+◌, ◌<◌, ◌≤◌, ◌≡◌, ap, subst, true, Option, none, some, List, [], arith, length, take,
  get_elem?, get_elem?-lt,
}
use src_move.Common.Counting.{total-eq-zero}
use src_move.Common.Int.{ℤ, to_ℕ}
use src_move.Contracts.{PairWorkItem}
use src_move.Coordinator.State.{Error, State, Limits, done, exited}
use src_move.Coordinator.System.{Reach}
use src_move.Coordinator.Admission.{begin, enters, Entered, begin-Entered}
use src_move.Coordinator.Invariant.Moves.{live}
use src_move.Coordinator.Invariant.Slots.{holds_slot, in_hand}
use src_move.Coordinator.Invariant.Conservation.{places, window}
use src_move.Coordinator.Invariant.Publication.{items_of, Complete, succeeding}
use src_move.Coordinator.Invariant.Ending.{Emptied, Stopped}
use src_move.Coordinator.Invariant.All.{Invariant, reach-Invariant}

-- A call with these arguments has entered its loop and has come to the state `s`.
pub record RunsTo (items : List PairWorkItem) (first : ℤ) (limits : Limits) (s : State)
    : Type 0 where
  pub worker_count : ℤ
  pub work_queue_capacity : Option ℤ
  pub outcome_capacity : Option ℤ
  pub start : State
  pub begun :
      begin items worker_count first work_queue_capacity outcome_capacity ≡ enters limits start
  pub reached : Reach limits start s

module _ {items : List PairWorkItem} {first : ℤ} {limits : Limits} {s : State}
    (run : RunsTo items first limits s) where
  entered : Entered items first limits run.start
  entered =
      begin-Entered items run.worker_count first run.work_queue_capacity run.outcome_capacity limits
        run.start run.begun

  invariant : Invariant items (to_ℕ first) limits s
  invariant = reach-Invariant entered run.reached

-- In every reachable state, also after a failure, the outcomes for which the publisher has returned
-- belong to the first items of the input, in its order and once each; so do those for which the
-- acknowledger has returned; and at most one published outcome is not yet acknowledged.
pub published_in_order :
    {items : List PairWorkItem} {first : ℤ} {limits : Limits} {s : State}
    → RunsTo items first limits s
    → (items_of s.log ≡ take (length s.log) items)
      × (items_of s.acknowledged ≡ take (length s.acknowledged) items)
      × (length s.acknowledged ≤ length s.log)
      × (length s.log ≤ length s.acknowledged + 1)
published_in_order run =
    let p = (invariant run).publication in (p.logged, p.acked, p.behind.0, p.behind.1)

-- A call that returns without an error has published and acknowledged exactly the outcomes of the
-- whole input, in its order, and its submitted, completed and published counts are the number of
-- items.
pub success-Complete :
    {items : List PairWorkItem} {first : ℤ} {limits : Limits} {s : State}
    → RunsTo items first limits s
    → s.main ≡ done none
    → Complete items s.log s.acknowledged s.submitted s.completed s.published
success-Complete run at = (invariant run).publication.complete (ap succeeding at)

-- A call that returns without an error was given contiguous sequence numbers: the item at each
-- position of the input has the number of the first plus the position.
pub success_contiguous :
    {items : List PairWorkItem} {first : ℤ} {limits : Limits} {s : State}
    → RunsTo items first limits s
    → s.main ≡ done none
    → (k : ℕ) (item : PairWorkItem) → get_elem? items k ≡ some item
    → item.sequence ≡ to_ℕ first + k
success_contiguous {items} run at k item found =
    let size = (success-Complete run at).submitted_count in
    (invariant run).numbered k item (omega (arith, size, get_elem?-lt k items found)) found

-- In every reachable state while the caller is in its loop, a sequence number stands in exactly one
-- place (published, in the caller's hands, pending, among the results, with a worker, in the work
-- queue) if it has been submitted, and in none if it has not.
pub one_place_each :
    {items : List PairWorkItem} {first : ℤ} {limits : Limits} {s : State}
    → RunsTo items first limits s
    → live s.main ≡ true
    → (q : ℕ)
    → places limits.worker_count (to_ℕ first) q s ≡ window (to_ℕ first) (to_ℕ first + s.submitted) q
one_place_each {first} {limits} {s} run alive q =
    let inv = invariant run in
    subst (λ (k : ℕ). places limits.worker_count (to_ℕ first) q s ≡ window (to_ℕ first) k q)
      inv.items_inv.expected (inv.conserved q alive)

-- The sizes that a call of `limits` keeps.
pub record IsWithin (limits : Limits) (s : State) : Type 0 where
  pub queue_within : length s.work_queue ≤ limits.work_capacity
  pub outcomes_within :
      length s.result_queue + length s.pending + in_hand s.main ≤ limits.pending_capacity
  pub slots_within : s.slots ≤ limits.pending_capacity
  pub max_queued_within : s.max_queued ≤ limits.work_capacity
  pub max_unpublished_within : s.max_unpublished ≤ limits.pending_capacity

-- In every reachable state the work queue is within its capacity, the outcomes that wait in the
-- result queue, are pending or are in the caller's hands are together within the outcome capacity,
-- and both recorded maxima are within these capacities.
pub run-IsWithin :
    {items : List PairWorkItem} {first : ℤ} {limits : Limits} {s : State}
    → RunsTo items first limits s
    → IsWithin limits s
run-IsWithin run =
    let inv = invariant run in
    record {
      queue_within = inv.queue_inv.within;
      outcomes_within = omega (arith, inv.slots_inv.accounted);
      slots_within = omega (arith, inv.slots_inv.accounted);
      max_queued_within = inv.queue_inv.queue_peak;
      max_unpublished_within = inv.slots_inv.peak;
    }

-- When a call returns or raises, with whatever error, every worker has exited, the result queue and
-- the pending outcomes are empty, and every outcome slot has been returned to the semaphore.
pub slots_returned :
    {items : List PairWorkItem} {first : ℤ} {limits : Limits} {s : State} {failure : Option Error}
    → RunsTo items first limits s
    → s.main ≡ done failure
    → ((i : ℕ) → i < limits.worker_count → s.workers i ≡ exited)
      × (s.result_queue ≡ [])
      × (s.pending ≡ [])
      × (s.slots ≡ limits.pending_capacity)
slots_returned {limits} {s} {failure} run at =
    let inv = invariant run in
    let empty : Emptied (done failure) s.pending s.result_queue = rw at at inv.ending.emptied in
    let gone : Stopped (done failure) limits.worker_count s.workers = rw at at inv.ending.stopped in
    let held =
      total-eq-zero holds_slot limits.worker_count s.workers (λ i lt. ap holds_slot (gone i lt)) in
    (
      gone,
      empty.1,
      empty.0,
      omega (
        arith,
        inv.slots_inv.accounted,
        held,
        ap length empty.0,
        ap length empty.1,
        ap in_hand at,
      ),
    )
