-- ===== src/Coordinator/System.antt =====
-- The interleavings of the calling thread and the workers, from the state that the call sets up.
use src_move.Common.{ℕ, ◌<◌, false, some, List, []}
use src_move.Contracts.{PairWorkItem}
use src_move.Coordinator.State.{opening, polling, State, Limits}
use src_move.Coordinator.Worker.{WorkerStep}
use src_move.Coordinator.Publisher.{MainStep}

-- The state at the head of the loop: the first item has been taken and its sequence is `first`.
unfoldable pub initial : Limits → ℕ → PairWorkItem → List PairWorkItem → State
initial limits first item rest = record {
  work_queue = [];
  result_queue = [];
  errors = [];
  slots = limits.pending_capacity;
  stop = false;
  workers = λ i. opening;
  main = polling;
  next_item = some item;
  iterator = rest;
  exhausted = false;
  expected_submission = first;
  next_publication = first;
  submitted = 0;
  completed = 0;
  published = 0;
  unpublished = 0;
  max_queued = 0;
  max_unpublished = 0;
  pending = [];
  log = [];
  acknowledged = [];
}

-- One step of any thread.
pub data Step (limits : Limits) (s : State) (t : State) : Type 0 where
  worker :
      (i : ℕ) → i < limits.worker_count → WorkerStep limits s i (s.workers i) t → Step limits s t
  caller : MainStep limits s s.main t → Step limits s t

pub data Reach (limits : Limits) (start : State) : State → Type 0 where
  here : Reach limits start start
  next : {s t : State} → Reach limits start s → Step limits s t → Reach limits start t
