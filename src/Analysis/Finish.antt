-- ===== src/Analysis/Finish.antt =====
-- What the end of an analysis reports, when the loop of `_advance_analysis` leaves.
use src_move.Common.{ℕ, ◌<◌, ◌≡◌, ◌↔◌, Bool, true, false, none, String, arith}
use src_move.Common.Int.{ℤ, to_ℕ}
use src_move.Database.Rows.{Analysis}
use src_move.Analysis.Target.{
  total_pairs, desired_total, FinishResult, complete, complete_with_failures, history_exhausted,
  history_exhausted_with_failures, exhausted_short, progress_finish_result,
}
use src_move.Analysis.Advance.{next_turn, leaves}

abbrev pub reports_exhaustion : FinishResult → Bool
reports_exhaustion complete = false
reports_exhaustion complete_with_failures = false
reports_exhaustion history_exhausted = true
reports_exhaustion history_exhausted_with_failures = true

abbrev pub reports_failures : FinishResult → Bool
reports_failures complete = false
reports_failures complete_with_failures = true
reports_failures history_exhausted = false
reports_failures history_exhausted_with_failures = true

-- When the loop leaves for a target of a total number of pairs, the finish result reports an exhausted
-- history exactly when fewer pairs are completed than the target asks for, and failures exactly when
-- there are failed pairs.
pub leaves_reports :
    (distance : String → String → ℕ) (state : Analysis) (failed : ℕ) (n : ℤ)
    → next_turn state (desired_total distance state (total_pairs n)) none ≡ leaves
    → ((reports_exhaustion (progress_finish_result state failed (total_pairs n)) ≡ true)
        ↔ (state.completed_pair_count < to_ℕ n))
      × ((reports_failures (progress_finish_result state failed (total_pairs n)) ≡ true)
          ↔ (0 < failed))
unfolding next_turn desired_total progress_finish_result exhausted_short
leaves_reports distance state failed n h =
    ((λ r. ground arith, λ lt. ground arith), (λ r. ground arith, λ lt. ground arith))
