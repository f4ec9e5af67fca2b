-- ===== src/Coordinator/Publisher.antt =====
-- The steps of the calling thread: the loop of `run_pairs_from_sequence`, its `except` and `finally`
-- blocks, and `_drain_and_join`. The callbacks `publish_pair` and `acknowledge_pair` may return or
-- raise; without an acknowledger the acknowledgement is one that returns.
use src_move.Common.{
  ℕ, ◌+◌, ◌-◌, ◌<◌, ◌≤◌, ◌≡◌, Bool, true, false, Option, none, some, List, [], ◌∷◌, ◌++◌, length,
  max, ◌==◌, ◌&&◌, ◌||◌, if◌then◌else◌,
}
use src_move.Common.Dict.{lookup, insert, remove}
use src_move.Contracts.{PairWorkItem, PairOutcome}
use src_move.Coordinator.State.{
  Error, not_contiguous, worker_failed, WorkerResult, finished, failed, exited, MainPc, polling,
  submitting, offering, measuring, checking, receiving, publishing, calling, acknowledging,
  stopping, draining, flushing, done, State, Limits,
}

abbrev pub go_to : State → MainPc → State
go_to s pc = record s { main = pc }

-- `next_item = next(iterator)` and the test of its sequence.
take_next : List PairWorkItem → State → State
take_next [] s = record s { exhausted = true; main = checking }
take_next (item ∷ rest) s =
    if item.sequence == s.expected_submission
    then record s { next_item = some item; iterator = rest; main = offering item }
    else record s {
      next_item = some item;
      iterator = rest;
      main = stopping (some (not_contiguous s.expected_submission item.sequence));
    }

-- `if next_item is None:`
offer : Option PairWorkItem → State → State
unfolding take_next
offer none s = take_next s.iterator s
offer (some item) s = go_to s (offering item)

-- `while not input_exhausted and not stop_event.is_set()`
unfoldable pub submit : State → State
unfolding offer
submit s = if s.exhausted || s.stop then go_to s checking else offer s.next_item s

-- A put that found room.
unfoldable pub put_item : PairWorkItem → State → State
put_item item s = record s {
  work_queue = s.work_queue ++ item ∷ [];
  submitted = s.submitted + 1;
  expected_submission = s.expected_submission + 1;
  next_item = none;
  main = measuring;
}

-- `max_queued_work = max(max_queued_work, work_queue.qsize())`
unfoldable pub measure : State → State
measure s = record s { max_queued = max s.max_queued (length s.work_queue); main = submitting }

is_empty {ℓ} : {A : Type ℓ} → List A → Bool
is_empty [] = true
is_empty (x ∷ xs) = false

-- `if input_exhausted and completed_count == submitted_count and not pending: break`
unfoldable pub check : State → State
unfolding is_empty
check s =
    if s.exhausted && (s.completed == s.submitted && is_empty s.pending)
    then go_to s (stopping none)
    else go_to s receiving

-- A result has come: the counters, and the result's error or its place among the pending outcomes.
unfoldable pub receive : WorkerResult → List WorkerResult → State → State
receive (failed item e) rest s = record s {
  result_queue = rest;
  completed = s.completed + 1;
  max_unpublished = max s.max_unpublished (s.unpublished + 1);
  slots = s.slots + 1;
  main = stopping (some (worker_failed item e));
}
receive (finished item outcome) rest s = record s {
  result_queue = rest;
  completed = s.completed + 1;
  unpublished = s.unpublished + 1;
  max_unpublished = max s.max_unpublished (s.unpublished + 1);
  pending = insert item.sequence outcome s.pending;
  main = publishing;
}

pop_outcome : Option PairOutcome → State → State
pop_outcome none s = go_to s polling
pop_outcome (some outcome) s = record s {
  pending = remove s.next_publication s.pending;
  main = calling outcome;
}

-- `while next_publication in pending: outcome = pending.pop(next_publication)`
unfoldable pub take_outcome : State → State
unfolding pop_outcome
take_outcome s = pop_outcome (lookup s.next_publication s.pending) s

-- The `finally` of one publication.
unfoldable pub release : State → State
release s = record s { unpublished = s.unpublished - 1; slots = s.slots + 1 }

-- Publication and acknowledgement have returned.
unfoldable pub advance : State → State
unfolding release
advance s = record (release s) {
  published = s.published + 1;
  next_publication = s.next_publication + 1;
  main = publishing;
}

-- The `except` and `finally` blocks, before `_drain_and_join`.
unfoldable pub release_pending : Option Error → State → State
release_pending failure s = record s {
  stop = true;
  slots = s.slots + length s.pending;
  pending = [];
  main = draining failure;
}

unfoldable pub late_error : List Error → State → State
late_error [] s = go_to s (done none)
late_error (e ∷ es) s = record s { errors = es; main = done (some e) }

-- After `_drain_and_join`: with no failure yet, an orchestration error becomes the failure.
unfoldable pub conclude : Option Error → State → State
unfolding late_error
conclude (some e) s = go_to s (done (some e))
conclude none s = late_error s.errors s

-- One step of the calling thread.
pub data MainStep (limits : Limits) (s : State) : MainPc → State → Type 0 where
  poll_quiet : s.errors ≡ [] → MainStep limits s polling (go_to s submitting)
  poll_error :
      (e : Error) (es : List Error)
      → s.errors ≡ e ∷ es
      → MainStep limits s polling (record s { errors = es; main = stopping (some e) })
  submission : MainStep limits s submitting (submit s)
  put :
      {item : PairWorkItem}
      → length s.work_queue < limits.work_capacity
      → MainStep limits s (offering item) (put_item item s)
  queue_full :
      {item : PairWorkItem}
      → limits.work_capacity ≤ length s.work_queue
      → MainStep limits s (offering item) (go_to s checking)
  measured : MainStep limits s measuring (measure s)
  checked : MainStep limits s checking (check s)
  get_result :
      (result : WorkerResult) (rest : List WorkerResult)
      → s.result_queue ≡ result ∷ rest
      → MainStep limits s receiving (receive result rest s)
  get_times_out : MainStep limits s receiving (go_to s polling)
  next_outcome : MainStep limits s publishing (take_outcome s)
  publish_returns :
      {outcome : PairOutcome}
      → MainStep limits s
          (calling outcome)
          (record s { log = s.log ++ outcome ∷ []; main = acknowledging outcome })
  publish_raises :
      {outcome : PairOutcome} (e : Error)
      → MainStep limits s (calling outcome) (go_to (release s) (stopping (some e)))
  acknowledge_returns :
      {outcome : PairOutcome}
      → MainStep limits s
          (acknowledging outcome)
          (record (advance s) { acknowledged = s.acknowledged ++ outcome ∷ [] })
  acknowledge_raises :
      {outcome : PairOutcome} (e : Error)
      → MainStep limits s (acknowledging outcome) (go_to (release s) (stopping (some e)))
  stop_all :
      {failure : Option Error} → MainStep limits s (stopping failure) (release_pending failure s)
  drain_result :
      {failure : Option Error} (result : WorkerResult) (rest : List WorkerResult)
      → s.result_queue ≡ result ∷ rest
      → MainStep limits s (draining failure) (record s { result_queue = rest; slots = s.slots + 1 })
  workers_gone :
      {failure : Option Error}
      → ((i : ℕ) → i < limits.worker_count → s.workers i ≡ exited)
      → MainStep limits s (draining failure) (go_to s (flushing failure))
  flush_result :
      {failure : Option Error} (result : WorkerResult) (rest : List WorkerResult)
      → s.result_queue ≡ result ∷ rest
      → MainStep limits s (flushing failure) (record s { result_queue = rest; slots = s.slots + 1 })
  joined :
      {failure : Option Error}
      → s.result_queue ≡ []
      → MainStep limits s (flushing failure) (conclude failure s)
