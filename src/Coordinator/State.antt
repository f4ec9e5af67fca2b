-- ===== src/Coordinator/State.antt =====
-- The state that the threads of `run_pairs_from_sequence` share, and where each of them stands.
use src_move.Common.{ℕ, Bool, Option, List, String}
use src_move.Contracts.{PairWorkItem, PairOutcome}

-- An exception, in the cases that the coordinator tells apart: its own ValueErrors, a
-- WorkerExecutionError with its item, and what a callback or a worker session raised.
pub data Error : Type 0 where
  not_contiguous : (expected got : ℕ) → Error
  wrong_outcome : Error
  bad_capacity : String → Error
  worker_failed : PairWorkItem → Error → Error
  raised : String → Error

-- `_WorkerResult`: an item with its outcome or with the error of its execution.
pub data WorkerResult : Type 0 where
  finished : PairWorkItem → PairOutcome → WorkerResult
  failed : PairWorkItem → Error → WorkerResult

-- Where a worker stands in `_worker_loop` and `_execute_worker_items`.
pub data WorkerPc : Type 0 where
  opening : WorkerPc  -- before the worker's session is open
  at_top : WorkerPc  -- the test of the outer `while`
  acquiring : WorkerPc  -- the test of the loop that acquires a slot
  awaiting_slot : WorkerPc  -- in `outcome_slots.acquire`
  fetching : WorkerPc  -- a slot is held; the test of the loop that gets an item
  awaiting_work : WorkerPc  -- in `work_queue.get`
  executing : PairWorkItem → WorkerPc
  delivering : WorkerResult → WorkerPc  -- the loop that puts the result
  closing : WorkerPc  -- the loop has returned; the session is being closed
  exited : WorkerPc

-- Where the calling thread stands.
pub data MainPc : Type 0 where
  polling : MainPc  -- the top of `while True`
  submitting : MainPc  -- the test of the submission loop
  offering : PairWorkItem → MainPc  -- `work_queue.put_nowait(next_item)`
  measuring : MainPc  -- after a put, before `work_queue.qsize()` is read
  checking : MainPc  -- the test that ends the loop
  receiving : MainPc  -- `result_queue.get`
  publishing : MainPc  -- the test of the publication loop
  calling : PairOutcome → MainPc  -- in `publish_pair`
  acknowledging : PairOutcome → MainPc  -- in `acknowledge_pair`
  stopping : Option Error → MainPc  -- left the loop, with the error that ended it
  draining : Option Error → MainPc  -- the first loop of `_drain_and_join`
  flushing : Option Error → MainPc  -- its second loop
  done : Option Error → MainPc  -- returned, or raised the error

-- The objects of one call. `log` and `acknowledged` list the outcomes for which `publish_pair` and
-- `acknowledge_pair` returned, in order.
pub record State : Type 0 where
  pub work_queue : List PairWorkItem
  pub result_queue : List WorkerResult
  pub errors : List Error
  pub slots : ℕ
  pub stop : Bool
  pub workers : ℕ → WorkerPc
  pub main : MainPc
  pub next_item : Option PairWorkItem
  pub iterator : List PairWorkItem
  pub exhausted : Bool
  pub expected_submission : ℕ
  pub next_publication : ℕ
  pub submitted : ℕ
  pub completed : ℕ
  pub published : ℕ
  pub unpublished : ℕ
  pub max_queued : ℕ
  pub max_unpublished : ℕ
  pub pending : List (ℕ × PairOutcome)
  pub log : List PairOutcome
  pub acknowledged : List PairOutcome

-- `CoordinatorStats`
pub record CoordinatorStats : Type 0 where
  pub worker_count : ℕ
  pub submitted_count : ℕ
  pub completed_count : ℕ
  pub published_count : ℕ
  pub max_queued_work : ℕ
  pub max_unpublished_outcomes : ℕ

-- The limits of one call: `worker_count`, `work_capacity`, `pending_capacity`.
pub record Limits : Type 0 where
  pub worker_count : ℕ
  pub work_capacity : ℕ
  pub pending_capacity : ℕ
