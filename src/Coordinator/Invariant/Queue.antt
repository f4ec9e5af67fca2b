-- ===== src/Coordinator/Invariant/Queue.antt =====
-- The work queue never holds more than its capacity.
use src_move.Common.{ℕ, ◌≤◌, ap, arith, length, [], ◌∷◌, length-append}
use src_move.Coordinator.State.{State, Limits, WorkerPc, MainPc, finished, failed}
use src_move.Coordinator.Worker.{WorkerStep, fetch}
use src_move.Coordinator.Publisher.{
  MainStep, put, get_result, submit, put_item, measure, check, receive, take_outcome, release,
  advance, release_pending, conclude,
}

pub record Queue (limits : Limits) (s : State) : Type 0 where
  pub within : length s.work_queue ≤ limits.work_capacity
  pub queue_peak : s.max_queued ≤ limits.work_capacity

module _ {limits : Limits} {s : State} (inv : Queue limits s) where
  pub worker-Queue :
      {i : ℕ} {pc : WorkerPc} {t : State} → WorkerStep limits s i pc t → Queue limits t
  worker-Queue (fetch item rest q) = ground (arith, inv.within, inv.queue_peak, ap length q)
  worker-Queue st = ground (arith, inv.within, inv.queue_peak)

  pub main-Queue : {pc : MainPc} {t : State} → MainStep limits s pc t → Queue limits t
  unfolding submit put_item measure check take_outcome release advance release_pending conclude
  main-Queue (put {item} room) =
      ground (arith, inv.within, inv.queue_peak, length-append s.work_queue (item ∷ []))
  main-Queue (get_result (failed item e) rest q) =
      unfold receive in ground (arith, inv.within, inv.queue_peak)
  main-Queue (get_result (finished item e) rest q) =
      unfold receive in ground (arith, inv.within, inv.queue_peak)
  main-Queue st = ground (arith, inv.within, inv.queue_peak)
