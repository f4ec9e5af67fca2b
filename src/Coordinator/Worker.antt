-- ===== src/Coordinator/Worker.antt =====
-- The steps of a worker thread: `_worker_loop` and `_execute_worker_items`, an access of a shared
-- object at a time. A timeout of `acquire` or `get` goes back to the loop's test; a full result
-- queue leaves the worker where it stands.
use src_move.Common.{ℕ, ◌+◌, ◌-◌, ◌<◌, ◌≡◌, true, false, List, [], ◌∷◌, ◌++◌, length, if◌then◌else◌}
use src_move.Common.Counting.{update}
use src_move.Contracts.{PairWorkItem, PairOutcome, same_item}
use src_move.Coordinator.State.{
  Error, wrong_outcome, WorkerResult, finished, failed, WorkerPc, opening, at_top, acquiring,
  awaiting_slot, fetching, awaiting_work, executing, delivering, closing, exited, State, Limits,
}

abbrev pub move_to : State → ℕ → WorkerPc → State
move_to s i pc = record s { workers = update s.workers i pc }

-- What a call of the executor becomes: an outcome for another item is an error.
unfoldable pub receive_outcome : PairWorkItem → PairOutcome → WorkerResult
receive_outcome item outcome =
    if same_item outcome.work_item item then finished item outcome else failed item wrong_outcome

-- The exception handler of `_worker_loop`, after the `finally` of the loop has run.
abbrev pub crash : State → ℕ → Error → State
crash s i e = record s {
  stop = true;
  errors = s.errors ++ e ∷ [];
  workers = update s.workers i exited;
}

-- One step of worker `i`, which stands at the third argument.
pub data WorkerStep (limits : Limits) (s : State) (i : ℕ) : WorkerPc → State → Type 0 where
  open_session : WorkerStep limits s i opening (move_to s i at_top)
  open_fails : (e : Error) → WorkerStep limits s i opening (crash s i e)
  leave : s.stop ≡ true → WorkerStep limits s i at_top (move_to s i closing)
  enter : s.stop ≡ false → WorkerStep limits s i at_top (move_to s i acquiring)
  leave_acquiring : s.stop ≡ true → WorkerStep limits s i acquiring (move_to s i closing)
  try_acquire : s.stop ≡ false → WorkerStep limits s i acquiring (move_to s i awaiting_slot)
  acquire_slot :
      0 < s.slots
      → WorkerStep limits s i awaiting_slot (record (move_to s i fetching) { slots = s.slots - 1 })
  acquire_times_out : WorkerStep limits s i awaiting_slot (move_to s i acquiring)
  -- `return`, and the `finally` releases the slot
  leave_fetching :
      s.stop ≡ true
      → WorkerStep limits s i fetching (record (move_to s i closing) { slots = s.slots + 1 })
  try_fetch : s.stop ≡ false → WorkerStep limits s i fetching (move_to s i awaiting_work)
  fetch :
      (item : PairWorkItem) (rest : List PairWorkItem)
      → s.work_queue ≡ item ∷ rest
      → WorkerStep limits s i awaiting_work
          (record (move_to s i (executing item)) { work_queue = rest })
  fetch_times_out : WorkerStep limits s i awaiting_work (move_to s i fetching)
  execute_returns :
      {item : PairWorkItem} (outcome : PairOutcome)
      → WorkerStep limits s i
          (executing item)
          (move_to s i (delivering (receive_outcome item outcome)))
  execute_raises :
      {item : PairWorkItem} (e : Error)
      → WorkerStep limits s i (executing item) (move_to s i (delivering (failed item e)))
  deliver :
      {result : WorkerResult}
      → length s.result_queue < limits.pending_capacity
      → WorkerStep limits s i
          (delivering result)
          (record (move_to s i at_top) { result_queue = s.result_queue ++ result ∷ [] })
  close_session : WorkerStep limits s i closing (move_to s i exited)
  close_fails : (e : Error) → WorkerStep limits s i closing (crash s i e)
