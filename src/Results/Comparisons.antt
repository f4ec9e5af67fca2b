-- ===== src/Results/Comparisons.antt =====
-- The Type-3 comparisons and correspondences of a document's diagnostics in `_validate_records`. The
-- candidates and the selected pairs, which have been checked before, are arguments; counts are natural.
use src_move.Common.{
  ℕ, ◌+◌, ◌*◌, Bool, true, false, not, ◌&&◌, ◌||◌, Option, none, some, List, [], ◌∷◌, String, leb,
  ltb, ◌==◌, str_eq, min, max, if◌then◌else◌, map,
}
use src_move.Common.Checked.{Checked, valid, invalid, and_then, all_of, is_some}
use src_move.Common.Occurrences.{member, distinct, subset}

pub data Revision : Type 0 where
  original modified : Revision

-- What is known of a candidate: its side, whether it is eligible, its units and its endpoint's construct.
pub record Candidate : Type 0 where
  pub revision : Revision
  pub type3_eligible : Bool
  pub line_units : ℕ
  pub token_units : ℕ
  pub construct : Option String

pub data VerificationStatus : Type 0 where
  not_evaluated below_threshold verified : VerificationStatus

pub data SelectionStatus : Type 0 where
  not_applicable selected not_selected : SelectionStatus

-- A unit's LCS.
pub record Measurement : Type 0 where
  pub common : Option ℕ
  pub maximum : ℕ

-- A record of `type3_comparisons`.
pub record Comparison : Type 0 where
  pub id : String
  pub original_candidate_id : ℕ
  pub modified_candidate_id : ℕ
  pub status : VerificationStatus
  pub reason : Option String
  pub lines : Measurement
  pub tokens : Measurement
  pub selection_status : SelectionStatus
  pub selection_reason : Option String
  pub selected_group_id : Option String

-- A Type-3 record of `correspondences`, with its verified partner counts.
pub record Type3Correspondence : Type 0 where
  pub original_candidate_id : ℕ
  pub modified_candidate_id : ℕ
  pub original_partners : ℕ
  pub modified_partners : ℕ

abbrev pub CandidatePair : Type 0
CandidatePair = ℕ × ℕ

abbrev pub same_pair : CandidatePair → CandidatePair → Bool
same_pair (a, b) (c, d) = (a == c) && (b == d)

abbrev pub same_revision : Revision → Revision → Bool
same_revision original original = true
same_revision original modified = false
same_revision modified modified = true
same_revision modified original = false

abbrev pub is_evaluated : VerificationStatus → Bool
is_evaluated not_evaluated = false
is_evaluated below_threshold = true
is_evaluated verified = true

abbrev pub is_verified : VerificationStatus → Bool
is_verified not_evaluated = false
is_verified below_threshold = false
is_verified verified = true

-- `expected_selection`
abbrev pub allows_selection : VerificationStatus → SelectionStatus → Bool
allows_selection not_evaluated not_applicable = true
allows_selection not_evaluated selected = false
allows_selection not_evaluated not_selected = false
allows_selection below_threshold not_applicable = true
allows_selection below_threshold selected = false
allows_selection below_threshold not_selected = false
allows_selection verified not_applicable = false
allows_selection verified selected = true
allows_selection verified not_selected = true

abbrev pub same_text : Option String → Option String → Bool
same_text none none = true
same_text none (some b) = false
same_text (some a) none = false
same_text (some a) (some b) = str_eq a b

abbrev pub expected_reason : VerificationStatus → Option String
expected_reason not_evaluated = some "ambiguous_type2c"
expected_reason below_threshold = none
expected_reason verified = none

-- The bounds of a measurement and whether it has one, for the two candidates' units.
abbrev pub within_units : Option ℕ → ℕ → ℕ → ℕ → Bool
within_units none maximum a b = true
within_units (some common) maximum a b = leb common maximum && leb common (min a b)

unfoldable pub check_measurement : Measurement → (evaluated : Bool) → ℕ → ℕ → Bool
check_measurement m evaluated a b =
    within_units m.common m.maximum a b
    && ((m.maximum == max a b) && (if evaluated then is_some m.common else not (is_some m.common)))

abbrev pub reaches : Option ℕ → ℕ → Bool
reaches none maximum = false
reaches (some common) maximum = ltb 0 maximum && leb (9 * maximum) (10 * common)

-- `threshold_passed`
unfoldable pub threshold_passed : Comparison → Bool
threshold_passed c =
    reaches c.lines.common c.lines.maximum || reaches c.tokens.common c.tokens.maximum

-- The agreement of the status with the threshold.
abbrev pub agrees : VerificationStatus → Bool → Bool
agrees not_evaluated passed = true
agrees below_threshold passed = not passed
agrees verified passed = passed

abbrev pub same_construct : Option String → Option String → Bool
same_construct none b = false
same_construct (some a) none = false
same_construct (some a) (some b) = str_eq a b

-- `selected_link(record, "type3", "selected")`, with the group of the exact pair.
abbrev pub check_link : SelectionStatus → Option String → Option String → Bool
check_link selected none expected = false
check_link selected (some id) expected = same_text (some id) expected
check_link not_applicable id expected = not (is_some id) && not (is_some expected)
check_link not_selected id expected = not (is_some id) && not (is_some expected)

-- The checks of one comparison, for its candidates, but for that of its status.
unfoldable pub check_record :
    Candidate → Candidate → (selected_group : Option String) → Comparison → Bool
unfolding check_measurement
check_record a b selected_group c =
    (same_revision a.revision original && same_revision b.revision modified)
    && ((a.type3_eligible && b.type3_eligible)
        && (same_construct a.construct b.construct
            && (allows_selection c.status c.selection_status
                && ((same_text c.reason (expected_reason c.status)
                      && not (is_some c.selection_reason))
                    && ((check_measurement c.lines (is_evaluated c.status) a.line_units b.line_units
                          && check_measurement c.tokens (is_evaluated c.status) a.token_units
                              b.token_units)
                        && check_link c.selection_status c.selected_group_id selected_group)))))

-- All of its checks; the loop tests the pair for repetition.
unfoldable pub check_candidates :
    Candidate → Candidate → (selected_group : Option String) → Comparison → Bool
unfolding check_record threshold_passed
check_candidates a b selected_group c =
    check_record a b selected_group c && agrees c.status (threshold_passed c)

abbrev pub check_both : Option Candidate → Option Candidate → Option String → Comparison → Bool
check_both (some a) (some b) selected_group c = check_candidates a b selected_group c
check_both (some a) none selected_group c = false
check_both none b selected_group c = false

abbrev pub pair_of : Comparison → CandidatePair
pair_of c = (c.original_candidate_id, c.modified_candidate_id)

module _ (candidate : ℕ → Option Candidate) (selected_pair : CandidatePair → Option String) where
  abbrev pub check_comparison : Comparison → Bool
  check_comparison c =
      check_both (candidate c.original_candidate_id) (candidate c.modified_candidate_id)
        (selected_pair (pair_of c)) c

  -- The loop over the comparisons, with the pairs that have been compared; it gives the verified pairs.
  unfoldable pub check_comparisons :
      List CandidatePair → List Comparison → Checked (List CandidatePair)
  unfolding check_candidates
  check_comparisons compared [] = valid []
  check_comparisons compared (c ∷ cs) =
      let rest = check_comparisons (pair_of c ∷ compared) cs in
      if not (check_comparison c)
      then invalid "Type-3 comparison disagrees"
      else if member same_pair (pair_of c) compared
      then invalid "Duplicate Type-3 comparison endpoints"
      else and_then rest
          (λ pairs. valid (if is_verified c.status then pair_of c ∷ pairs else pairs))

abbrev pub correspondence_pair : Type3Correspondence → CandidatePair
correspondence_pair r = (r.original_candidate_id, r.modified_candidate_id)

-- The entries of `original_degrees` and `modified_degrees`.
unfoldable pub original_degree : ℕ → List CandidatePair → ℕ
original_degree id [] = 0
original_degree id ((a, b) ∷ pairs) = (if a == id then 1 else 0) + original_degree id pairs

unfoldable pub modified_degree : ℕ → List CandidatePair → ℕ
modified_degree id [] = 0
modified_degree id ((a, b) ∷ pairs) = (if b == id then 1 else 0) + modified_degree id pairs

-- The comparison of the Type-3 correspondences with the verified pairs.
unfoldable pub check_correspondences :
    List CandidatePair → List Type3Correspondence → Checked (Unit {0})
unfolding original_degree modified_degree
check_correspondences verified_pairs records =
    let pairs = map correspondence_pair records in
    if not (
      distinct same_pair pairs
      && (subset same_pair pairs verified_pairs && subset same_pair verified_pairs pairs))
    then invalid "Verified Type-3 comparisons and classified correspondences differ"
    else if not (
        all_of
          (λ r.
            (r.original_partners == original_degree r.original_candidate_id verified_pairs)
            && (r.modified_partners == modified_degree r.modified_candidate_id verified_pairs))
          records)
    then invalid "Type-3 verified partner counts differ from verified-edge degrees"
    else valid tt

-- The Type-3 part of the diagnostics.
unfoldable pub check_type3 :
    (candidate : ℕ → Option Candidate) (selected_pair : CandidatePair → Option String)
    → List Comparison
    → List Type3Correspondence
    → Checked (Unit {0})
unfolding check_comparisons check_correspondences
check_type3 candidate selected_pair comparisons records =
    if not (distinct str_eq (map (λ (c : Comparison). c.id) comparisons))
    then invalid "Duplicate Type-3 comparison ID"
    else and_then (check_comparisons candidate selected_pair [] comparisons)
        (λ pairs. check_correspondences pairs records)
