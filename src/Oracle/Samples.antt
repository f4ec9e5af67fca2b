-- ===== src/Oracle/Samples.antt =====
-- A case whose move is reported once as a whole, and once by two moves that each have one side.
use src_move.Common.{
  ℕ, ◌≡◌, ◌↔◌, refl, true, false, not, ◌&&◌, ◌||◌, Option, none, some, [], ◌∷◌, String, arith,
  str_eq, if◌then◌else◌,
}
use src_move.Common.Checked.{valid, is_nil, any_of}
use src_move.Oracle.Texts.{TextRules, ExpectedText}
use src_move.Oracle.Positions.{
  Range, InRange, ranges_overlap, ranges_overlap-InRange, RangesByMove, ranges_of, Kind, Annotation,
  moved_position_ranges,
}
use src_move.Oracle.Ranges.{SidesNonEmpty, moved_position_ranges-SidesNonEmpty}
use src_move.Oracle.Scan.{Move, Assessment, ExpectedMove, assess_moves}
use src_move.Oracle.Assessment.{
  CaseMetadata, PositionEvidence, position_ranges, input_failures, assess_positive_case,
  case_failures, srcmove_miss, verdict,
}
use src_move.Oracle.Scanned.{links_texts, links_from, links_to}
use src_move.Oracle.Verdict.{IsVerdict, assess_moves-IsVerdict, case_failures-nil}
use src_move.Oracle.Admission.{IsAssessed, assess_positive_case-IsAssessed}

abbrev rules : TextRules
rules = record { normalize = λ s. s; has_damage = λ s. false; repair = λ s. s }

abbrev lines : ℕ → ℕ → Range
lines first last = record { first = first; last = last }

abbrev expected : ExpectedMove
expected = record {
  from_text = "int f();";
  to_text = "int f();";
  from_lines = lines 3 5;
  to_lines = lines 9 12;
}

abbrev move : String → Move
move id = record {
  move_id = id;
  content_relationship = "type1";
  from_raw_texts = "int g();" ∷ "int f();" ∷ [];
  to_raw_texts = "int f();" ∷ [];
}

abbrev ranges : RangesByMove
ranges =
    ("whole", record { delete = lines 5 8 ∷ []; insert = lines 1 9 ∷ [] })
    ∷ ("left", record { delete = lines 4 4 ∷ []; insert = lines 20 22 ∷ [] })
    ∷ ("right", record { delete = lines 30 31 ∷ []; insert = lines 10 10 ∷ [] })
    ∷ []

ranges_overlap-InRange_example :
    (ranges_overlap (lines 5 8) (lines 3 5) ≡ true)
    ↔ ((line : ℕ) × InRange line (lines 5 8) × InRange line (lines 3 5))
ranges_overlap-InRange_example =
    ranges_overlap-InRange (lines 5 8) (lines 3 5) (omega arith) (omega arith)

assess_moves-IsVerdict_example :
    IsVerdict rules expected ranges "type1"
      (move "left" ∷ move "whole" ∷ [])
      (assess_moves rules expected ranges "type1" (move "left" ∷ move "whole" ∷ []))
assess_moves-IsVerdict_example =
    assess_moves-IsVerdict rules expected ranges "type1" (move "left" ∷ move "whole" ∷ [])

-- Two moves that each overlap one range: no move is detected and no failure is reported.
missed_without_failure :
    (verdict (assess_moves rules expected ranges "type1" (move "left" ∷ move "right" ∷ []))
      ≡ srcmove_miss)
    × (case_failures (assess_moves rules expected ranges "type1" (move "left" ∷ move "right" ∷ []))
        ≡ [])
unfolding assess_moves verdict case_failures
missed_without_failure = (refl, refl)

case_failures-nil_example :
    is_nil
      (case_failures (assess_moves rules expected ranges "type1" (move "left" ∷ move "right" ∷ [])))
    ≡ ((assess_moves rules expected ranges "type1"
          (move "left" ∷ move "right" ∷ [])).correctly_classified
        || (not
              (assess_moves rules expected ranges "type1"
                (move "left" ∷ move "right" ∷ [])).detected
            && (any_of (links_texts rules expected ranges) (move "left" ∷ move "right" ∷ [])
                && (any_of (links_from rules expected ranges) (move "left" ∷ move "right" ∷ [])
                    && any_of (links_to rules expected ranges) (move "left" ∷ move "right" ∷ [])))))
case_failures-nil_example =
    case_failures-nil rules expected ranges "type1" (move "left" ∷ move "right" ∷ [])

abbrev generated : String → ExpectedText
generated text = record { generated = some text; raw = none }

abbrev metadata : CaseMetadata
metadata = record {
  syntactic_type = some 1;
  expected = some (record {
    from_text = generated "int f();";
    to_text = generated "int f();";
    from_lines = some (lines 3 5);
    to_lines = some (lines 9 12);
  });
}

abbrev evidence : PositionEvidence
evidence = record { reports_moves = true; srcdiff = some (valid ranges); srcmove = none }

assess_positive_case-IsAssessed_example :
    (a : Assessment) × (assess_positive_case rules [] metadata 1
        (valid "type1")
        evidence
        (move "whole" ∷ [])
      ≡ valid a)
    × IsAssessed rules metadata 1 "type1" evidence
        (move "whole" ∷ [])
        (input_failures 1 metadata (position_ranges evidence))
        a
assess_positive_case-IsAssessed_example =
    assess_positive_case-IsAssessed rules metadata 1 "type1" evidence (move "whole" ∷ [])
      (omega arith) (omega arith)

-- A position's line by its text.
abbrev parse_line : String → Kind → Option ℕ
parse_line text kind =
    if str_eq text "7:1" then some 7 else if str_eq text "4:2" then some 4 else none

abbrev deleted : Annotation
deleted = record {
  move_id = some "m";
  to_link = some "m2";
  from_link = none;
  pos_start = some "7:1";
  pos_end = some "4:2";
}

read_range :
    moved_position_ranges parse_line (deleted ∷ []) []
    ≡ valid (("m", record { delete = lines 4 7 ∷ []; insert = [] }) ∷ [])
unfolding moved_position_ranges
read_range = refl

moved_position_ranges-SidesNonEmpty_example :
    SidesNonEmpty (ranges_of "m" (("m", record { delete = lines 4 7 ∷ []; insert = [] }) ∷ []))
moved_position_ranges-SidesNonEmpty_example =
    moved_position_ranges-SidesNonEmpty parse_line (deleted ∷ [])
      (("m", record { delete = lines 4 7 ∷ []; insert = [] }) ∷ []) "m" read_range
