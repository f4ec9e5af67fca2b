-- ===== src/Coordinator/Invariant/Conservation.antt =====
-- Each submitted sequence number is in exactly one place: published, in the caller's hands, pending,
-- among the results, with a worker, or in the work queue. Nothing is lost and nothing is doubled.
use src_move.Common.{
  ℕ, ◌+◌, ◌<◌, ◌≡◌, ap, true, List, [], ◌∷◌, ◌++◌, arith, ◌==◌, ltb, leb, ◌&&◌, if◌then◌else◌,
}
use src_move.Common.Counting.{total}
use src_move.Common.Dict.{count_key}
use src_move.Contracts.{PairWorkItem, PairOutcome}
use src_move.Coordinator.State.{
  WorkerResult, finished, failed, WorkerPc, executing, delivering, MainPc, calling, acknowledging,
  State, Limits,
}
use src_move.Coordinator.Worker.{WorkerStep, receive_outcome, deliver, fetch, execute_returns}
use src_move.Coordinator.Invariant.Moves.{live, tally}

abbrev pub item_of : WorkerResult → PairWorkItem
item_of (finished item outcome) = item
item_of (failed item e) = item

abbrev pub one_if : ℕ → ℕ → ℕ
one_if k q = if k == q then 1 else 0

-- How often the sequence number `q` is in each place.
abbrev pub in_queue : ℕ → List PairWorkItem → ℕ
in_queue q [] = 0
in_queue q (item ∷ items) = one_if item.sequence q + in_queue q items

abbrev pub in_results : ℕ → List WorkerResult → ℕ
in_results q [] = 0
in_results q (result ∷ results) = one_if (item_of result).sequence q + in_results q results

abbrev pub with_worker : ℕ → WorkerPc → ℕ
with_worker q (executing item) = one_if item.sequence q
with_worker q (delivering result) = one_if (item_of result).sequence q
with_worker q _ = 0

abbrev pub with_caller : ℕ → MainPc → ℕ
with_caller q (calling outcome) = one_if outcome.work_item.sequence q
with_caller q (acknowledging outcome) = one_if outcome.work_item.sequence q
with_caller q _ = 0

-- One, if `q` is from `a` on and below `b`.
abbrev pub window : ℕ → ℕ → ℕ → ℕ
window a b q = if leb a q && ltb q b then 1 else 0

abbrev pub places : ℕ → ℕ → ℕ → State → ℕ
places n first q s =
    window first s.next_publication q
    + with_caller q s.main
    + count_key q s.pending
    + in_results q s.result_queue
    + total (with_worker q) n s.workers
    + in_queue q s.work_queue

abbrev pub Conserved : ℕ → ℕ → ℕ → State → Type 0
Conserved n first q s =
    live s.main ≡ true → places n first q s ≡ window first s.expected_submission q

pub in_queue-snoc :
    (q : ℕ) (items : List PairWorkItem) (item : PairWorkItem)
    → in_queue q (items ++ item ∷ []) ≡ in_queue q items + one_if item.sequence q
in_queue-snoc q [] item = omega arith
in_queue-snoc q (i ∷ items) item = omega (arith, in_queue-snoc q items item)

in_results-snoc :
    (q : ℕ) (results : List WorkerResult) (result : WorkerResult)
    → in_results q (results ++ result ∷ [])
      ≡ in_results q results + one_if (item_of result).sequence q
in_results-snoc q [] result = omega arith
in_results-snoc q (r ∷ results) result = omega (arith, in_results-snoc q results result)

receive_outcome-item :
    (item : PairWorkItem) (outcome : PairOutcome) → item_of (receive_outcome item outcome) ≡ item
unfolding receive_outcome
receive_outcome-item item outcome = ground arith

module _ (first q : ℕ) {limits : Limits} {s : State} {i : ℕ} (lt : i < limits.worker_count)
    (inv : Conserved limits.worker_count first q s) where
  pub worker-Conserved :
      {pc : WorkerPc} {t : State} (st : WorkerStep limits s i pc t)
      → s.workers i ≡ pc
      → Conserved limits.worker_count first q t
  worker-Conserved (fetch item rest e) stands alive = omega (
    arith,
    inv alive,
    tally {limits = limits} {s = s} (with_worker q) limits.worker_count (fetch item rest e) stands
        lt,
    ap (in_queue q) e,
  )
  worker-Conserved (execute_returns {item} outcome) stands alive = omega (
    arith,
    inv alive,
    tally {limits = limits} {s = s} (with_worker q) limits.worker_count
        (execute_returns {item = item} outcome) stands lt,
    ap (λ (j : PairWorkItem). one_if j.sequence q) (receive_outcome-item item outcome),
  )
  worker-Conserved (deliver {result} h) stands alive = omega (
    arith,
    inv alive,
    tally {limits = limits} {s = s} (with_worker q) limits.worker_count
        (deliver {result = result} h) stands lt,
    in_results-snoc q s.result_queue result,
  )
  worker-Conserved st stands alive = omega (
    arith,
    inv alive,
    tally {limits = limits} {s = s} (with_worker q) limits.worker_count st stands lt,
  )
