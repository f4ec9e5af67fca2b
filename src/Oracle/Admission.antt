-- ===== src/Oracle/Admission.antt =====
-- When the inputs of an assessment have no failure, the moves are assessed; when they have, nothing is
-- detected and the failures are reported.
use src_move.Common.{
  ℕ, ◌≤◌, ◌≡◌, refl, true, false, ◌&&◌, Option, none, some, List, [], ◌∷◌, ◌++◌, String, leb, arith,
}
use src_move.Common.Checked.{Checked, valid, invalid, is_nil}
use src_move.Oracle.Texts.{TextRules, expected_generated_text}
use src_move.Oracle.Positions.{Range, RangesByMove}
use src_move.Oracle.Scan.{Move, Assessment, ExpectedMove, assess_moves}
use src_move.Oracle.Assessment.{
  CaseMetadata, PositionEvidence, position_ranges, expected_or_empty, missing_message, both_lines,
  error_message, judge, input_failures, operational, assess_positive_case,
}

append_nil_left : (xs ys : List String) → xs ++ ys ≡ [] → (xs ≡ []) × (ys ≡ [])
append_nil_left [] ys h = (refl, h)
append_nil_left (x ∷ xs) ys h = cc

-- The assessment of the moves for the texts, the lines and the ranges that a case has.
pub record Assesses (rules : TextRules) (relationship : String) (moves : List Move)
    (from_text to_text : Option String) (from_lines to_lines : Option Range)
    (positions : Checked RangesByMove) (a : Assessment) : Type 0 where
  pub expected : ExpectedMove
  pub ranges : RangesByMove
  pub source_text : from_text ≡ some expected.from_text
  pub target_text : to_text ≡ some expected.to_text
  pub source_lines : from_lines ≡ some expected.from_lines
  pub target_lines : to_lines ≡ some expected.to_lines
  pub evidence : positions ≡ valid ranges
  pub result : a ≡ assess_moves rules expected ranges relationship moves

judge-Assesses :
    (rules : TextRules) (moves : List Move) (relationship : String) (f t : Option String)
    (x y : Option Range) (positions : Checked RangesByMove) (fm tm lm : String)
    → missing_message fm f ≡ []
    → missing_message tm t ≡ []
    → missing_message lm (both_lines x y) ≡ []
    → error_message positions ≡ []
    → Assesses rules relationship moves f t x y positions
        (judge rules moves relationship [] f t (both_lines x y) positions)
judge-Assesses rules moves relationship none t x y positions fm tm lm a b c d = cc
judge-Assesses rules moves relationship (some f) none x y positions fm tm lm a b c d = cc
judge-Assesses rules moves relationship (some f) (some t) none y positions fm tm lm a b c d = cc
judge-Assesses rules moves relationship (some f) (some t) (some x) none positions fm tm lm a b c d =
    cc
judge-Assesses rules moves relationship (some f) (some t) (some x) (some y) (invalid e) fm tm lm a b
      c d =
    cc
judge-Assesses rules moves relationship (some f) (some t) (some x) (some y) (valid ranges) fm tm lm
      a b c d =
    record {
      expected = record { from_text = f; to_text = t; from_lines = x; to_lines = y };
      ranges = ranges;
      source_text = refl;
      target_text = refl;
      source_lines = refl;
      target_lines = refl;
      evidence = refl;
      result = refl;
    }

judge-operational :
    (rules : TextRules) (moves : List Move) (relationship : String) (failures : List String)
    (f t : Option String) (lines : Option (Range × Range)) (positions : Checked RangesByMove)
    → is_nil failures ≡ false
    → judge rules moves relationship failures f t lines positions ≡ operational failures
judge-operational rules moves relationship failures none t lines positions h = refl
judge-operational rules moves relationship failures (some f) none lines positions h = refl
judge-operational rules moves relationship failures (some f) (some t) none positions h = refl
judge-operational rules moves relationship failures (some f) (some t) (some (x, y)) (invalid e) h =
    refl
judge-operational rules moves relationship failures (some f) (some t) (some (x, y)) (valid ranges)
      h =
    rw h refl

module _ (rules : TextRules) (metadata : CaseMetadata) (syntactic_type : ℕ) (relationship : String)
    (evidence : PositionEvidence) (moves : List Move) where
  -- What an assessment is when the results fit their schema.
  abbrev pub IsAssessed : List String → Assessment → Type 0
  IsAssessed [] a =
      Assesses rules relationship moves
        (expected_generated_text (expected_or_empty metadata.expected).from_text)
        (expected_generated_text (expected_or_empty metadata.expected).to_text)
        (expected_or_empty metadata.expected).from_lines
        (expected_or_empty metadata.expected).to_lines (position_ranges evidence) a
  IsAssessed (failure ∷ failures) a = a ≡ operational (failure ∷ failures)

  judged :
      (failures : List String)
      → input_failures syntactic_type metadata (position_ranges evidence) ≡ failures
      → IsAssessed failures (
          judge rules moves relationship failures
            (expected_generated_text (expected_or_empty metadata.expected).from_text)
            (expected_generated_text (expected_or_empty metadata.expected).to_text)
            (both_lines
              (expected_or_empty metadata.expected).from_lines
              (expected_or_empty metadata.expected).to_lines)
            (position_ranges evidence))
  unfolding input_failures
  judged [] h =
      let (a, h1) = append_nil_left _ _ h in
      let (b, h2) = append_nil_left _ _ h1 in
      let (c, h3) = append_nil_left _ _ h2 in
      let (d, h4) = append_nil_left _ _ h3 in
      let (e, f) = append_nil_left _ _ h4 in
      judge-Assesses rules moves relationship _ _ _ _ (position_ranges evidence) _ _ _ c d e f
  judged (failure ∷ failures) h =
      judge-operational rules moves relationship (failure ∷ failures) _ _ _
        (position_ranges evidence) refl

-- For results that fit their schema, a supported syntactic type and an expected relationship, the
-- assessment succeeds. Without failures of the metadata and the positions it is the assessment of the
-- moves for the generated source and target text and the source and target lines of the metadata, and
-- for the ranges of the position evidence; otherwise it detects nothing and reports just these failures.
pub assess_positive_case-IsAssessed :
    (rules : TextRules) (metadata : CaseMetadata) (syntactic_type : ℕ) (relationship : String)
    (evidence : PositionEvidence) (moves : List Move)
    → 1 ≤ syntactic_type
    → syntactic_type ≤ 3
    → (a : Assessment) × (assess_positive_case rules [] metadata syntactic_type
          (valid relationship)
          evidence
          moves
        ≡ valid a)
      × IsAssessed rules metadata syntactic_type relationship evidence moves
          (input_failures syntactic_type metadata (position_ranges evidence))
          a
unfolding assess_positive_case
assess_positive_case-IsAssessed rules metadata syntactic_type relationship evidence moves low high =
    let supported : (leb 1 syntactic_type && leb syntactic_type 3) ≡ true =
      ground (arith, low, high) in
    rw supported (
      _,
      refl,
      judged rules metadata syntactic_type relationship evidence moves
          (input_failures syntactic_type metadata (position_ranges evidence)) refl,
    )
