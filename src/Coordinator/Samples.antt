-- ===== src/Coordinator/Samples.antt =====
-- One worker and one item, from the start of the call to its return, and the theorems of the
-- coordinator at that run.
use src_move.Common.{
  ℕ, zero, suc, ◌+◌, ◌<◌, ◌≤◌, ◌≡◌, refl, true, false, none, [], ◌∷◌, arith, length, take,
  ℕ_discrete,
}
use src_move.Common.Int.{pos}
use src_move.Common.Dict.{lookup, insert, remove}
use src_move.Contracts.{PairWorkItem, PairOutcome, completed, same_item}
use src_move.Coordinator.State.{State, Limits, WorkerPc, done, exited}
use src_move.Coordinator.Worker.{
  receive_outcome, open_session, enter, try_acquire, acquire_slot, try_fetch, fetch,
  execute_returns, deliver, leave, close_session,
}
use src_move.Coordinator.Publisher.{
  poll_quiet, submission, put, measured, checked, get_result, next_outcome, publish_returns,
  acknowledge_returns, stop_all, workers_gone, joined, submit, put_item, measure, check, receive,
  take_outcome, release, advance, release_pending, conclude, late_error,
}
use src_move.Coordinator.System.{initial, Step, worker, caller, Reach, here, next}
use src_move.Coordinator.Admission.{begin, validated_capacities}
use src_move.Coordinator.Invariant.Moves.{live}
use src_move.Coordinator.Invariant.Conservation.{places, window}
use src_move.Coordinator.Invariant.Publication.{items_of, Complete}
use src_move.Coordinator.Safety.{
  RunsTo, IsWithin, published_in_order, success-Complete, success_contiguous, one_place_each,
  run-IsWithin, slots_returned,
}

abbrev pub item : PairWorkItem
item = record {
  sequence = 4;
  old_commit = "a";
  new_commit = "b";
  fingerprint = "f";
  repository = none;
  selected_directory = none;
  excluded_suffixes = [];
  srcdiff = none;
  srcmove = none;
  srcdiff_timeout = 1;
  srcmove_timeout = 1;
  use_position = false;
  source_encoding = "UTF-8";
}

abbrev pub outcome : PairOutcome
outcome = record {
  work_item = item;
  status = completed;
  changed_paths = [];
  analyzable_paths = [];
  srcdiff_process = none;
  srcmove_process = none;
  artifacts =
      record {
        path = "results.json";
        size_bytes = 2;
        sha256 = "digest";
        kind = "json_results";
        validation_status = "valid";
        producing_stage = "srcmove";
        producing_command = [];
        shape = none;
        details = [];
        retention = "worker_owned";
      }
      ∷ [];
  metrics = [];
  timings = [];
  error = none;
}

abbrev pub limits : Limits
limits = record { worker_count = 1; work_capacity = 1; pending_capacity = 2 }

program : Unit {0}
unfolding begin validated_capacities initial submit put_item measure check receive take_outcome
    release advance release_pending conclude late_error receive_outcome same_item lookup insert
    remove ℕ_discrete
program = tt

-- The item is executed and published, and the loop is about to look for the next outcome.
pub record Run : Type 0 where
  pub last : State
  pub reach : Reach limits (initial limits 4 item []) last

infixl 20 ◌▸◌
abbrev ◌▸◌ :
    {s t : State}
    → Reach limits (initial limits 4 item []) s
    → Step limits s t
    → Reach limits (initial limits 4 item []) t
r ▸ st = next r st

acquired : Run
unfolding program
acquired = record {
  last = _;
  reach =
      here
      ▸ worker 0 (omega arith) open_session
      ▸ worker 0 (omega arith) (enter refl)
      ▸ worker 0 (omega arith) (try_acquire refl)
      ▸ worker 0 (omega arith) (acquire_slot (omega arith))
      ▸ worker 0 (omega arith) (try_fetch refl)
      ▸ caller (poll_quiet refl)
      ▸ caller submission
      ▸ caller (put (omega arith))
      ▸ caller measured
      ▸ worker 0 (omega arith) (fetch item [] refl)
      ▸ worker 0 (omega arith) (execute_returns outcome)
      ▸ worker 0 (omega arith) (deliver (omega arith));
}

pub published : Run
unfolding program acquired
published = record {
  last = _;
  reach =
      acquired.reach
      ▸ caller submission
      ▸ caller checked
      ▸ caller (get_result _ _ refl)
      ▸ caller next_outcome
      ▸ caller publish_returns
      ▸ caller acknowledge_returns;
}

all_gone : (ws : ℕ → WorkerPc) → ws 0 ≡ exited → (i : ℕ) → i < 1 → ws i ≡ exited
all_gone ws h zero lt = h
all_gone ws h (suc i) lt = absurd (omega arith)

pub finished_run : Run
unfolding program published
finished_run = record {
  last = _;
  reach =
      published.reach
      ▸ caller next_outcome
      ▸ caller (poll_quiet refl)
      ▸ caller submission
      ▸ caller checked
      ▸ caller stop_all
      ▸ worker 0 (omega arith) (leave refl)
      ▸ worker 0 (omega arith) close_session
      ▸ caller (workers_gone (all_gone _ refl))
      ▸ caller (joined refl);
}

pub run_published : RunsTo (item ∷ []) (pos 4) limits published.last
unfolding program
run_published = record {
  worker_count = pos 1;
  work_queue_capacity = none;
  outcome_capacity = none;
  start = initial limits 4 item [];
  begun = refl;
  reached = published.reach;
}

pub run_finished : RunsTo (item ∷ []) (pos 4) limits finished_run.last
unfolding program
run_finished = record {
  worker_count = pos 1;
  work_queue_capacity = none;
  outcome_capacity = none;
  start = initial limits 4 item [];
  begun = refl;
  reached = finished_run.reach;
}

pub published_log : published.last.log ≡ outcome ∷ []
unfolding program published
published_log = refl

pub finished_log : finished_run.last.log ≡ outcome ∷ []
unfolding program finished_run
finished_log = refl

pub ends_done : finished_run.last.main ≡ done none
unfolding program finished_run
ends_done = refl

published_live : live published.last.main ≡ true
unfolding program published
published_live = refl

published_in_order_example :
    (items_of published.last.log ≡ take (length published.last.log) (item ∷ []))
    × (items_of published.last.acknowledged ≡ take (length published.last.acknowledged) (item ∷ []))
    × (length published.last.acknowledged ≤ length published.last.log)
    × (length published.last.log ≤ length published.last.acknowledged + 1)
published_in_order_example = published_in_order run_published

success-Complete_example :
    Complete
      (item ∷ [])
      finished_run.last.log
      finished_run.last.acknowledged
      finished_run.last.submitted
      finished_run.last.completed
      finished_run.last.published
success-Complete_example = success-Complete run_finished ends_done

success_contiguous_example : item.sequence ≡ 4 + 0
success_contiguous_example = success_contiguous run_finished ends_done 0 item refl

one_place_each_example : places 1 4 4 published.last ≡ window 4 (4 + published.last.submitted) 4
one_place_each_example = one_place_each run_published published_live 4

run-IsWithin_example : IsWithin limits finished_run.last
run-IsWithin_example = run-IsWithin run_finished

slots_returned_example :
    ((i : ℕ) → i < 1 → finished_run.last.workers i ≡ exited)
    × (finished_run.last.result_queue ≡ [])
    × (finished_run.last.pending ≡ [])
    × (finished_run.last.slots ≡ 2)
slots_returned_example = slots_returned run_finished ends_done
