-- ===== src/Oracle/Assessment.antt =====
-- `assess_positive_case`, and what `evaluate.py` and `validate_case` make of it. The failures of the results'
-- schema are an argument, and so is the expected relationship, which a review or `expected_category` gives.
use Prim.Native.String.{◌++◌ as str_append}
use src_move.Common.{
  ℕ, Bool, true, false, not, ◌&&◌, Option, none, some, List, [], ◌∷◌, ◌++◌, String, leb, ◌==◌,
  if◌then◌else◌,
}
use src_move.Common.Checked.{Checked, valid, invalid, is_nil}
use src_move.Oracle.Texts.{TextRules, ExpectedText, expected_generated_text}
use src_move.Oracle.Positions.{Range, RangesByMove}
use src_move.Oracle.Scan.{Move, not_checked, Assessment, assess_moves}

pub record Expected : Type 0 where
  pub from_text : ExpectedText
  pub to_text : ExpectedText
  pub from_lines : Option Range
  pub to_lines : Option Range

pub record CaseMetadata : Type 0 where
  pub syntactic_type : Option ℕ
  pub expected : Option Expected

-- The position evidence there is: of the srcDiff input, or of the annotated output, which may exist.
pub record PositionEvidence : Type 0 where
  pub reports_moves : Bool
  pub srcdiff : Option (Checked RangesByMove)
  pub srcmove : Option (Bool × Checked RangesByMove)

abbrev pub labelled : String → Checked RangesByMove → Checked RangesByMove
labelled label (valid ranges) = valid ranges
labelled label (invalid error) = invalid (str_append label error)

unfoldable pub position_ranges : PositionEvidence → Checked RangesByMove
position_ranges e = chosen e.reports_moves e.srcdiff e.srcmove
  where
    chosen :
        Bool
        → Option (Checked RangesByMove)
        → Option (Bool × Checked RangesByMove)
        → Checked RangesByMove
    chosen true (some ranges) annotated = labelled "srcdiff.xml position error: " ranges
    chosen true none (some (exists, ranges)) = labelled "srcmove.xml parse error: " ranges
    chosen true none none = invalid "position evidence is unavailable"
    chosen false ranges (some (true, annotated)) = labelled "srcmove.xml parse error: " annotated
    chosen false ranges (some (false, annotated)) = valid []
    chosen false ranges none = valid []

-- `Expected` of a missing or invalid field.
abbrev pub no_text : ExpectedText
no_text = record { generated = none; raw = none }

abbrev pub expected_or_empty : Option Expected → Expected
expected_or_empty none = record {
  from_text = no_text;
  to_text = no_text;
  from_lines = none;
  to_lines = none;
}
expected_or_empty (some e) = e

abbrev pub missing_message {ℓ} : {A : Type ℓ} → String → Option A → List String
missing_message message none = message ∷ []
missing_message message (some a) = []

abbrev pub is_syntactic_type : ℕ → Option ℕ → Bool
is_syntactic_type n none = false
is_syntactic_type n (some m) = m == n

abbrev pub both_lines : Option Range → Option Range → Option (Range × Range)
both_lines (some a) (some b) = some (a, b)
both_lines (some a) none = none
both_lines none b = none

abbrev pub error_message : Checked RangesByMove → List String
error_message (valid ranges) = []
error_message (invalid error) = error ∷ []

abbrev pub operational : List String → Assessment
operational failures = record {
  detected = false;
  correctly_classified = false;
  operational_failures = failures;
  detection_failures = [];
  classification_failures = [];
  from_validation = not_checked;
  to_validation = not_checked;
  detected_move_id = none;
  observed_content_relationship = none;
}

abbrev pub judge :
    TextRules
    → List Move
    → String
    → List String
    → Option String
    → Option String
    → Option (Range × Range)
    → Checked RangesByMove
    → Assessment
judge rules moves relationship failures (some from_text) (some to_text)
      (some (from_lines, to_lines)) (valid ranges) =
    if is_nil failures
    then assess_moves rules
        (record {
          from_text = from_text;
          to_text = to_text;
          from_lines = from_lines;
          to_lines = to_lines;
        })
        ranges relationship moves
    else operational failures
judge rules moves relationship failures from_text to_text lines ranges = operational failures

-- The failures of the metadata and of the positions, in their order.
unfoldable pub input_failures : ℕ → CaseMetadata → Checked RangesByMove → List String
unfolding expected_generated_text
input_failures syntactic_type metadata positions =
    let e = expected_or_empty metadata.expected in
    (if is_syntactic_type syntactic_type metadata.syntactic_type
      then []
      else "metadata syntactic_type" ∷ [])
    ++ (missing_message "metadata expected field is missing or invalid" metadata.expected
        ++ (missing_message "metadata expected.from_generated_text is missing or invalid"
              (expected_generated_text e.from_text)
            ++ (missing_message "metadata expected.to_generated_text is missing or invalid"
                  (expected_generated_text e.to_text)
                ++ (missing_message "metadata expected synthetic line ranges are missing or invalid"
                      (both_lines e.from_lines e.to_lines)
                    ++ error_message positions))))

abbrev pub with_relationship : (String → Assessment) → Checked String → Checked Assessment
with_relationship next (invalid error) = invalid error
with_relationship next (valid relationship) = valid (next relationship)

-- `assess_positive_case`
unfoldable pub assess_positive_case :
    TextRules
    → (schema_failures : List String) → CaseMetadata
    → ℕ
    → (relationship : Checked String) → PositionEvidence
    → List Move
    → Checked Assessment
unfolding assess_moves input_failures position_ranges expected_generated_text
assess_positive_case rules schema_failures metadata syntactic_type relationship evidence moves =
    let e = expected_or_empty metadata.expected in
    let positions = position_ranges evidence in
    if not (is_nil schema_failures)
    then valid (operational schema_failures)
    else if not (leb 1 syntactic_type && leb syntactic_type 3)
    then invalid "unsupported BigCloneBench syntactic type"
    else with_relationship
        (λ r.
          judge rules moves r (input_failures syntactic_type metadata positions)
            (expected_generated_text e.from_text) (expected_generated_text e.to_text)
            (both_lines e.from_lines e.to_lines) positions)
        relationship

-- The failures that `validate_case` reports.
unfoldable pub case_failures : Assessment → List String
case_failures a = a.operational_failures ++ (a.detection_failures ++ a.classification_failures)

-- The outcome that `evaluate.py` records.
pub data Verdict : Type 0 where
  oracle_failure srcmove_miss wrong_classification oracle_pass : Verdict

unfoldable pub verdict : Assessment → Verdict
verdict a =
    if not (is_nil a.operational_failures)
    then oracle_failure
    else if not a.detected
    then srcmove_miss
    else if not a.correctly_classified
    then wrong_classification
    else oracle_pass
