-- ===== src/Oracle/Scan.antt =====
-- The part of `assess_positive_case` that looks at the moves, and the assessment that it gives.
use src_move.Common.{
  Bool, true, false, not, ◌&&◌, ◌||◌, Option, none, some, List, [], ◌∷◌, ◌++◌, String, str_eq,
  if◌then◌else◌,
}
use src_move.Common.Checked.{any_of}
use src_move.Oracle.Texts.{TextRules, Status, first_status}
use src_move.Oracle.Positions.{Range, ranges_overlap, RangesByMove, ranges_of}

-- What `atomic_moves` gives of a group, as far as it is read here.
pub record Move : Type 0 where
  pub move_id : String
  pub content_relationship : String
  pub from_raw_texts : List String
  pub to_raw_texts : List String

-- A value of `text_validation`.
pub data Validation : Type 0 where
  not_checked mismatch : Validation
  matched : Status → Validation

-- `PositiveOracleAssessment`
pub record Assessment : Type 0 where
  pub detected : Bool
  pub correctly_classified : Bool
  pub operational_failures : List String
  pub detection_failures : List String
  pub classification_failures : List String
  pub from_validation : Validation
  pub to_validation : Validation
  pub detected_move_id : Option String
  pub observed_content_relationship : Option String

-- A move that links both texts and lies on both ranges, with how the texts match.
pub record Candidate : Type 0 where
  pub move : Move
  pub from_status : Status
  pub to_status : Status

-- The variables of the loop over the moves.
pub record Scan : Type 0 where
  pub detected : List Candidate
  pub text_link_found : Bool
  pub from_position_found : Bool
  pub to_position_found : Bool

-- What is expected of the moves.
pub record ExpectedMove : Type 0 where
  pub from_text : String
  pub to_text : String
  pub from_lines : Range
  pub to_lines : Range

module _ (rules : TextRules) (expected : ExpectedMove) (ranges : RangesByMove) where
  abbrev pub from_overlaps : Move → Bool
  from_overlaps move =
      any_of (λ found. ranges_overlap found expected.from_lines)
        (ranges_of move.move_id ranges).delete

  abbrev pub to_overlaps : Move → Bool
  to_overlaps move =
      any_of (λ found. ranges_overlap found expected.to_lines)
        (ranges_of move.move_id ranges).insert

  -- A turn of the loop, with the statuses of the move's texts.
  unfoldable pub scan_move : Move → Option Status → Option Status → Scan → Scan
  unfolding ranges_overlap ranges_of
  scan_move move none to_status scan = scan
  scan_move move (some from_status) none scan = scan
  scan_move move (some from_status) (some to_status) scan = record {
    detected =
        if from_overlaps move && to_overlaps move
        then record { move = move; from_status = from_status; to_status = to_status }
          ∷ scan.detected
        else scan.detected;
    text_link_found = true;
    from_position_found = from_overlaps move || scan.from_position_found;
    to_position_found = to_overlaps move || scan.to_position_found;
  }

  -- The loop over the moves; the candidates stand in their order.
  unfoldable pub scan_moves : List Move → Scan
  unfolding scan_move first_status
  scan_moves [] = record {
    detected = [];
    text_link_found = false;
    from_position_found = false;
    to_position_found = false;
  }
  scan_moves (move ∷ moves) =
      scan_move move (first_status rules expected.from_text move.from_raw_texts)
        (first_status rules expected.to_text move.to_raw_texts) (scan_moves moves)

-- Nothing detected: the texts, or the positions, that no move has.
unfoldable pub missed : Scan → Assessment
missed scan = record {
  detected = false;
  correctly_classified = false;
  operational_failures = [];
  detection_failures =
      if not scan.text_link_found
      then "no single reported move links both complete expected generated fragment texts" ∷ []
      else (if not scan.from_position_found
          then "the text-linked move's delete annotation does not overlap the expected source range"
            ∷ []
          else [])
        ++ (if not scan.to_position_found
            then "the text-linked move's insert annotation does not overlap the expected target range"
              ∷ []
            else []);
  classification_failures = [];
  from_validation = if not scan.text_link_found then mismatch else not_checked;
  to_validation = if not scan.text_link_found then mismatch else not_checked;
  detected_move_id = none;
  observed_content_relationship = none;
}

unfoldable pub find_classified : String → List Candidate → Option Candidate
find_classified relationship [] = none
find_classified relationship (c ∷ cs) =
    let rest = find_classified relationship cs in
    if str_eq c.move.content_relationship relationship then some c else rest

abbrev pub assessed : Candidate → Bool → List String → Assessment
assessed c classified failures = record {
  detected = true;
  correctly_classified = classified;
  operational_failures = [];
  detection_failures = [];
  classification_failures = failures;
  from_validation = matched c.from_status;
  to_validation = matched c.to_status;
  detected_move_id = some c.move.move_id;
  observed_content_relationship = some c.move.content_relationship;
}

-- The candidate of the expected relationship, or else the first.
abbrev pub select_candidate : Candidate → Option Candidate → Assessment
select_candidate first (some c) = assessed c true []
select_candidate first none = assessed first false ("content_relationship" ∷ [])

abbrev pub of_detected : String → Scan → List Candidate → Assessment
of_detected relationship scan [] = missed scan
of_detected relationship scan (c ∷ cs) = select_candidate c (find_classified relationship (c ∷ cs))

-- The part of `assess_positive_case` after the operational failures.
unfoldable pub assess_moves :
    TextRules → ExpectedMove → RangesByMove → String → List Move → Assessment
unfolding scan_moves missed find_classified
assess_moves rules expected ranges relationship moves =
    let scan = scan_moves rules expected ranges moves in of_detected relationship scan scan.detected
