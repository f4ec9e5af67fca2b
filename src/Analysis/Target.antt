-- ===== src/Analysis/Target.antt =====
-- `AnalysisTarget` and the functions that validate and resolve it. Where Git measures a history, its
-- answer is a parameter.
use src_move.Common.{
  ℕ, ◌+◌, Bool, true, false, not, ◌&&◌, Option, none, some, String, max, ltb, str_eq, if◌then◌else◌,
}
use src_move.Common.Int.{ℤ, pos, is_positive, to_ℕ}
use src_move.Coordinator.State.{CoordinatorStats}
use src_move.Database.Rows.{Analysis}

pub data AnalysisTarget : Type 0 where
  total_pairs : ℤ → AnalysisTarget
  additional_pairs : ℤ → AnalysisTarget
  through : String → AnalysisTarget
  all_history : AnalysisTarget

-- `_validate_target`. A text with a NUL character is not a command-line argument.
unfoldable pub validate_target : AnalysisTarget → Bool
validate_target (total_pairs n) = is_positive n
validate_target (additional_pairs n) = is_positive n
validate_target (through commit) = not (str_eq commit "")
validate_target all_history = true

-- `_creation_target`
unfoldable pub creation_target : AnalysisTarget → AnalysisTarget
creation_target (additional_pairs n) = total_pairs n
creation_target (total_pairs n) = total_pairs n
creation_target (through commit) = through commit
creation_target all_history = all_history

-- `_effective_target`, for a target that has been validated.
unfoldable pub effective_target : Analysis → AnalysisTarget → AnalysisTarget
effective_target state (additional_pairs n) =
    total_pairs (pos (state.completed_pair_count + to_ℕ n))
effective_target state (total_pairs n) = total_pairs n
effective_target state (through commit) = through commit
effective_target state all_history = all_history

-- `_desired_total_pairs` of an effective target; `distance` is `first_parent_distance` in the
-- repository.
unfoldable pub desired_total :
    (distance : String → String → ℕ) → Analysis → AnalysisTarget → Option ℕ
desired_total distance state (total_pairs n) = some (to_ℕ n)
desired_total distance state (additional_pairs n) = some (to_ℕ n)
desired_total distance state (through commit) = some (distance state.newest_commit commit)
desired_total distance state all_history = none

pub data FinishResult : Type 0 where
  complete complete_with_failures history_exhausted history_exhausted_with_failures : FinishResult

-- `exhausted_short`
unfoldable pub exhausted_short : Analysis → AnalysisTarget → Bool
exhausted_short state (total_pairs n) =
    state.history_exhausted && ltb state.completed_pair_count (to_ℕ n)
exhausted_short state (additional_pairs n) = false
exhausted_short state (through commit) = false
exhausted_short state all_history = false

-- `_progress_finish_result`, with the number of failed pairs of the summary.
unfoldable pub progress_finish_result : Analysis → ℕ → AnalysisTarget → FinishResult
unfolding exhausted_short
progress_finish_result state failed target =
    if exhausted_short state target
    then if ltb 0 failed then history_exhausted_with_failures else history_exhausted
    else if ltb 0 failed
    then complete_with_failures
    else complete

-- `_zero_stats`
unfoldable pub zero_stats : ℕ → CoordinatorStats
zero_stats jobs = record {
  worker_count = jobs;
  submitted_count = 0;
  completed_count = 0;
  published_count = 0;
  max_queued_work = 0;
  max_unpublished_outcomes = 0;
}

-- `_combine_stats`
unfoldable pub combine_stats : CoordinatorStats → CoordinatorStats → CoordinatorStats
combine_stats left right = record {
  worker_count = right.worker_count;
  submitted_count = left.submitted_count + right.submitted_count;
  completed_count = left.completed_count + right.completed_count;
  published_count = left.published_count + right.published_count;
  max_queued_work = max left.max_queued_work right.max_queued_work;
  max_unpublished_outcomes = max left.max_unpublished_outcomes right.max_unpublished_outcomes;
}
