-- ===== src/Coordinator/Invariant/Slots.antt =====
-- Every slot of the semaphore is free, held by a worker, or behind an outcome that is not yet
-- published.
use src_move.Common.Dict.{lookup, count_key, length-insert, length-remove}
use src_move.Common.{
  List, Option-cases, inl, inr, ℕ, ◌+◌, ◌<◌, ◌≤◌, ◌≡◌, true, refl, ap, length, arith, length-append,
  ◌∷◌, [],
}
use src_move.Common.Counting.{total}
use src_move.Contracts.{PairOutcome}
use src_move.Coordinator.State.{
  WorkerPc, fetching, awaiting_work, executing, delivering, WorkerResult, receiving, publishing,
  MainPc, calling, acknowledging, State, Limits, failed, finished,
}
use src_move.Coordinator.Publisher.{
  MainStep, get_result, next_outcome, drain_result, flush_result, submit, put_item, measure, check,
  receive, take_outcome, release, advance, release_pending, conclude,
}
use src_move.Coordinator.Worker.{WorkerStep, deliver, acquire_slot, open_session}
use src_move.Coordinator.Invariant.Moves.{live, tally}

-- What each thread holds.
abbrev pub holds_slot : WorkerPc → ℕ
holds_slot fetching = 1
holds_slot awaiting_work = 1
holds_slot (executing item) = 1
holds_slot (delivering result) = 1
holds_slot _ = 0

abbrev pub in_hand : MainPc → ℕ
in_hand (calling outcome) = 1
in_hand (acknowledging outcome) = 1
in_hand _ = 0

pub record Slots (limits : Limits) (s : State) : Type 0 where
  pub accounted :
      s.slots
        + total holds_slot limits.worker_count s.workers
        + length s.result_queue
        + length s.pending
        + in_hand s.main
      ≡ limits.pending_capacity
  pub counted : live s.main ≡ true → s.unpublished ≡ length s.pending + in_hand s.main
  pub peak : s.max_unpublished ≤ limits.pending_capacity

module _ {limits : Limits} {s : State} {i : ℕ} (lt : i < limits.worker_count)
    (inv : Slots limits s) where
  worker-accounted :
      {pc : WorkerPc} {t : State} (st : WorkerStep limits s i pc t)
      → s.workers i ≡ pc
      → t.slots
          + total holds_slot limits.worker_count t.workers
          + length t.result_queue
          + length t.pending
          + in_hand t.main
        ≡ limits.pending_capacity
  worker-accounted (deliver {result} h) stands = omega (
    arith,
    inv.accounted,
    tally {limits = limits} {s = s} holds_slot limits.worker_count (deliver {result = result} h)
        stands lt,
    length-append s.result_queue (result ∷ []),
  )
  worker-accounted (acquire_slot free) stands = omega (
    arith,
    inv.accounted,
    tally {limits = limits} {s = s} holds_slot limits.worker_count (acquire_slot free) stands lt,
  )
  worker-accounted st stands = omega (
    arith,
    inv.accounted,
    tally {limits = limits} {s = s} holds_slot limits.worker_count st stands lt,
  )

  worker-kept :
      {pc : WorkerPc} {t : State} (st : WorkerStep limits s i pc t)
      → (t.unpublished ≡ s.unpublished)
        × (t.pending ≡ s.pending)
        × (t.max_unpublished ≡ s.max_unpublished)
        × (t.main ≡ s.main)
  worker-kept open_session = (refl, refl, refl, refl)
  worker-kept _ = (refl, refl, refl, refl)

  pub worker-Slots :
      {pc : WorkerPc} {t : State} → WorkerStep limits s i pc t → s.workers i ≡ pc → Slots limits t
  worker-Slots st stands = record {
    accounted = worker-accounted st stands;
    counted = let k = worker-kept st in rw (k.0, k.1, k.3) inv.counted;
    peak = rw (worker-kept st).2 inv.peak;
  }

-- An outcome in this result is not pending yet.
abbrev pub Fresh : List (ℕ × PairOutcome) → WorkerResult → Type 0
Fresh pending (failed item e) = Unit
Fresh pending (finished item outcome) = count_key item.sequence pending ≡ 0

-- So for the result that the calling thread takes next.
abbrev pub FreshNext : State → Type 0
FreshNext s =
    s.main ≡ receiving
    → (result : WorkerResult) (rest : List WorkerResult) → s.result_queue ≡ result ∷ rest
    → Fresh s.pending result

module _ {limits : Limits} {s : State} (inv : Slots limits s) where
  receive-Slots :
      (result : WorkerResult) (rest : List WorkerResult)
      → s.main ≡ receiving
      → s.result_queue ≡ result ∷ rest
      → Fresh s.pending result
      → Slots limits (receive result rest s)
  unfolding receive
  receive-Slots (failed item e) rest at q fresh =
      ground (arith, inv.accounted, inv.counted, inv.peak, ap length q)
  receive-Slots (finished item o) rest at q fresh = ground (
    arith,
    inv.accounted,
    inv.counted,
    inv.peak,
    ap length q,
    length-insert item.sequence o s.pending,
  )

  take_outcome-Slots : s.main ≡ publishing → Slots limits (take_outcome s)
  unfolding take_outcome
  take_outcome-Slots at = elim (Option-cases (lookup s.next_publication s.pending)) [
    | inl absent ↦ ground (arith, inv.accounted, inv.counted, inv.peak)
    | inr (o, found) ↦
        ground (
          arith,
          inv.accounted,
          inv.counted,
          inv.peak,
          length-remove s.next_publication o s.pending,
        )
  ]

  pub main-Slots :
      {pc : MainPc} {t : State}
      → MainStep limits s pc t
      → s.main ≡ pc
      → FreshNext s
      → Slots limits t
  unfolding submit put_item measure check release advance release_pending conclude
  main-Slots (get_result result rest q) at fresh =
      receive-Slots result rest at q (fresh at result rest q)
  main-Slots next_outcome at fresh = take_outcome-Slots at
  main-Slots (drain_result result rest q) at fresh =
      ground (arith, inv.accounted, inv.peak, ap length q)
  main-Slots (flush_result result rest q) at fresh =
      ground (arith, inv.accounted, inv.peak, ap length q)
  main-Slots st at fresh = ground (arith, inv.accounted, inv.counted, inv.peak)
