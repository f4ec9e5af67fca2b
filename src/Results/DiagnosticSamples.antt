-- ===== src/Results/DiagnosticSamples.antt =====
-- Diagnostics with a comparison that passes by its lines and one that does not.
use src_move.Common.{
  ℕ, ◌≡◌, refl, true, Option, none, some, List, [], ◌∷◌, String, ◌==◌, if◌then◌else◌,
}
use src_move.Common.Checked.{valid}
use src_move.Results.Comparisons.{
  Revision, original, modified, Candidate, Comparison, Type3Correspondence, CandidatePair,
  same_pair, Measurement, below_threshold, verified, not_applicable, selected, check_type3,
}
use src_move.Results.Thresholds.{IsType3Consistent, check_type3-IsType3Consistent}

abbrev candidate_of : Revision → ℕ → Candidate
candidate_of revision lines = record {
  revision = revision;
  type3_eligible = true;
  line_units = lines;
  token_units = 40;
  construct = some "function";
}

abbrev candidate : ℕ → Option Candidate
candidate id =
    if id == 1
    then some (candidate_of original 10)
    else if id == 2
    then some (candidate_of modified 9)
    else if id == 3
    then some (candidate_of modified 4)
    else none

abbrev selected_pair : CandidatePair → Option String
selected_pair p = if same_pair p (1, 2) then some "m1" else none

abbrev measured : ℕ → ℕ → Measurement
measured common maximum = record { common = some common; maximum = maximum }

abbrev comparisons : List Comparison
comparisons =
    record {
      id = "t1";
      original_candidate_id = 1;
      modified_candidate_id = 2;
      status = verified;
      reason = none;
      lines = measured 9 10;
      tokens = measured 12 40;
      selection_status = selected;
      selection_reason = none;
      selected_group_id = some "m1";
    }
    ∷ record {
      id = "t2";
      original_candidate_id = 1;
      modified_candidate_id = 3;
      status = below_threshold;
      reason = none;
      lines = measured 4 10;
      tokens = measured 35 40;
      selection_status = not_applicable;
      selection_reason = none;
      selected_group_id = none;
    }
    ∷ []

abbrev records : List Type3Correspondence
records =
    record {
      original_candidate_id = 1;
      modified_candidate_id = 2;
      original_partners = 1;
      modified_partners = 1;
    }
    ∷ []

passes_checks : check_type3 candidate selected_pair comparisons records ≡ valid tt
unfolding check_type3
passes_checks = refl

check_type3-IsType3Consistent_example : IsType3Consistent comparisons records
check_type3-IsType3Consistent_example =
    check_type3-IsType3Consistent candidate selected_pair comparisons records passes_checks
