-- ===== src/Oracle/Verdict.antt =====
-- The assessment of the moves against a description that looks at one move at a time.
use src_move.Common.{
  ◌≡◌, refl, ap, ◌∙◌, Bool, not, ◌&&◌, ◌||◌, Option, none, some, List, [], ◌∷◌, ◌++◌, map, String,
  str_eq, if◌then◌else◌, arith, Bool-cases, inl, inr,
}
use src_move.Common.Checked.{any_of, is_some, is_nil, filter}
use src_move.Oracle.Texts.{TextRules}
use src_move.Oracle.Positions.{RangesByMove}
use src_move.Oracle.Scan.{
  Move, Assessment, ExpectedMove, Candidate, Scan, scan_moves, missed, find_classified,
  select_candidate, of_detected, assess_moves,
}
use src_move.Oracle.Assessment.{
  case_failures, srcmove_miss, wrong_classification, oracle_pass, verdict,
}
use src_move.Oracle.Scanned.{links_texts, shows_move, links_from, links_to, scan_moves-ScanSees}

-- The first move that passes a test.
abbrev pub first_of : (Move → Bool) → List Move → Option Move
first_of p [] = none
first_of p (m ∷ ms) = let rest = first_of p ms in if p m then some m else rest

abbrev pub or_move : Option Move → Option Move → Option Move
or_move none other = other
or_move (some m) other = some m

abbrev pub id_of : Option Move → Option String
id_of none = none
id_of (some m) = some m.move_id

abbrev pub has_relationship : String → Move → Bool
has_relationship relationship m = str_eq m.content_relationship relationship

head_of : List Move → Option Move
head_of [] = none
head_of (m ∷ ms) = some m

head-filter : (q : Move → Bool) (ms : List Move) → head_of (filter q ms) ≡ first_of q ms
unfolding head_of
head-filter q [] = refl
head-filter q (m ∷ ms) = elim (Bool-cases (q m)) [
  | inl t ↦ rw t refl
  | inr f ↦ rw f (head-filter q ms)
]

first_of-filter :
    (p q : Move → Bool) (ms : List Move) → first_of p (filter q ms) ≡ first_of (λ m. q m && p m) ms
first_of-filter p q [] = refl
first_of-filter p q (m ∷ ms) = elim (Bool-cases (q m)) [
  | inl t ↦ rw (t, first_of-filter p q ms) refl
  | inr f ↦ rw (f, first_of-filter p q ms) refl
]

any_of-filter :
    (p q : Move → Bool) (ms : List Move) → any_of p (filter q ms) ≡ any_of (λ m. q m && p m) ms
any_of-filter p q [] = refl
any_of-filter p q (m ∷ ms) = elim (Bool-cases (q m)) [
  | inl t ↦ rw (t, any_of-filter p q ms) refl
  | inr f ↦ rw (f, any_of-filter p q ms) refl
]

is_nil-filter : (q : Move → Bool) (ms : List Move) → not (is_nil (filter q ms)) ≡ any_of q ms
is_nil-filter q [] = refl
is_nil-filter q (m ∷ ms) = elim (Bool-cases (q m)) [
  | inl t ↦ rw t refl
  | inr f ↦ rw f (is_nil-filter q ms)
]

-- The assessment of candidates, by their moves.
record Selects (relationship : String) (ms : List Move) (a : Assessment) : Type 0 where
  operates : a.operational_failures ≡ []
  found : a.detected ≡ not (is_nil ms)
  right_class : a.correctly_classified ≡ any_of (has_relationship relationship) ms
  identity :
      a.detected_move_id
      ≡ id_of (or_move (first_of (has_relationship relationship) ms) (head_of ms))

moves_of : List Candidate → List Move
moves_of = map (λ (c : Candidate). c.move)

abbrev candidate_move : Option Candidate → Option Move
candidate_move none = none
candidate_move (some c) = some c.move

find_classified-first_of :
    (relationship : String) (cs : List Candidate)
    → (candidate_move (find_classified relationship cs)
        ≡ first_of (has_relationship relationship) (moves_of cs))
      × (is_some (find_classified relationship cs)
          ≡ any_of (has_relationship relationship) (moves_of cs))
unfolding find_classified moves_of
find_classified-first_of relationship [] = (refl, refl)
find_classified-first_of relationship (c ∷ cs) =
    let (a, b) = find_classified-first_of relationship cs in
    elim (Bool-cases (has_relationship relationship c.move)) [
      | inl t ↦ rw t (refl, refl)
      | inr f ↦ rw f (a, b)
    ]

select-Selects :
    (relationship : String) (c : Candidate) (cs : List Candidate) (found : Option Candidate)
    → candidate_move found ≡ first_of (has_relationship relationship) (moves_of (c ∷ cs))
    → is_some found ≡ any_of (has_relationship relationship) (moves_of (c ∷ cs))
    → Selects relationship (moves_of (c ∷ cs)) (select_candidate c found)
unfolding moves_of head_of
select-Selects relationship c cs none m e = record {
  operates = refl;
  found = refl;
  right_class = e;
  identity = rw (← m) refl;
}
select-Selects relationship c cs (some d) m e = record {
  operates = refl;
  found = refl;
  right_class = e;
  identity = rw (← m) refl;
}

of_detected-Selects :
    (relationship : String) (scan : Scan) (cs : List Candidate)
    → Selects relationship (moves_of cs) (of_detected relationship scan cs)
unfolding missed moves_of head_of
of_detected-Selects relationship scan [] = record {
  operates = refl;
  found = refl;
  right_class = refl;
  identity = refl;
}
of_detected-Selects relationship scan (c ∷ cs) =
    let (a, b) = find_classified-first_of relationship (c ∷ cs) in
    select-Selects relationship c cs (find_classified relationship (c ∷ cs)) a b

outcome_of :
    (a : Assessment)
    → a.operational_failures ≡ []
    → verdict a ≡ (
        if not a.detected
        then srcmove_miss
        else if not a.correctly_classified
        then wrong_classification
        else oracle_pass)
unfolding verdict
outcome_of a h = rw h refl

-- `validate_case`'s failures, by the variables of the scan.
failures_of :
    (relationship : String) (scan : Scan) (cs : List Candidate)
    → is_nil (case_failures (of_detected relationship scan cs)) ≡ (
        (of_detected relationship scan cs).correctly_classified
        || (not (of_detected relationship scan cs).detected
            && (scan.text_link_found && (scan.from_position_found && scan.to_position_found))))
unfolding case_failures missed
failures_of relationship scan [] = ground arith
failures_of relationship scan (c ∷ cs) = of_selected (find_classified relationship (c ∷ cs))
  where
    of_selected :
        (found : Option Candidate)
        → is_nil (
            (select_candidate c found).operational_failures
            ++ ((select_candidate c found).detection_failures
                ++ (select_candidate c found).classification_failures))
          ≡ ((select_candidate c found).correctly_classified
              || (not (select_candidate c found).detected
                  && (scan.text_link_found
                      && (scan.from_position_found && scan.to_position_found))))
    of_selected none = refl
    of_selected (some d) = refl

-- What the assessment says, in terms of single moves.
pub record IsVerdict (rules : TextRules) (expected : ExpectedMove) (ranges : RangesByMove)
    (relationship : String) (moves : List Move) (a : Assessment) : Type 0 where
  pub outcome : verdict a ≡ (
      if not a.detected
      then srcmove_miss
      else if not a.correctly_classified
      then wrong_classification
      else oracle_pass)
  pub found : a.detected ≡ any_of (shows_move rules expected ranges) moves
  pub right_class :
      a.correctly_classified
      ≡ any_of (λ m. shows_move rules expected ranges m && has_relationship relationship m) moves
  pub identity :
      a.detected_move_id
      ≡ id_of (
          or_move
            (first_of
              (λ m. shows_move rules expected ranges m && has_relationship relationship m)
              moves)
            (first_of (shows_move rules expected ranges) moves))

-- The assessment of the moves, which follows when there are no operational failures, detects exactly
-- when one move links both expected texts and overlaps both expected ranges, and classifies correctly
-- exactly when one such move has the expected relationship. The move it names is the first of these, or
-- else the first that is detected; and its verdict is a miss, a wrong classification or a pass
-- accordingly.
pub assess_moves-IsVerdict :
    (rules : TextRules) (expected : ExpectedMove) (ranges : RangesByMove) (relationship : String)
    (moves : List Move)
    → IsVerdict rules expected ranges relationship moves
        (assess_moves rules expected ranges relationship moves)
unfolding assess_moves
assess_moves-IsVerdict rules expected ranges relationship moves =
    let q = shows_move rules expected ranges in
    let p = has_relationship relationship in
    let scan = scan_moves rules expected ranges moves in
    let sees = scan_moves-ScanSees rules expected ranges moves in
    let same : moves_of scan.detected ≡ filter q moves = unfold moves_of in sees.candidates in
    let s = of_detected-Selects relationship scan scan.detected in
    record {
      outcome = outcome_of (assess_moves rules expected ranges relationship moves) s.operates;
      found = s.found ∙ ap (λ ms. not (is_nil ms)) same ∙ is_nil-filter q moves;
      right_class = s.right_class ∙ ap (any_of p) same ∙ any_of-filter p q moves;
      identity =
          s.identity
          ∙ ap (λ ms. id_of (or_move (first_of p ms) (head_of ms))) same
          ∙ ap id_of (
              ap (λ f. or_move f (head_of (filter q moves))) (first_of-filter p q moves)
              ∙ ap (or_move (first_of (λ m. q m && p m) moves)) (head-filter q moves));
    }

-- The failures of the assessment of the moves, which follows when there are no operational failures,
-- are none exactly when it classifies correctly, or when no move is detected although there are moves that link both texts, one that
-- overlaps the expected source range and one that overlaps the expected target range.
pub case_failures-nil :
    (rules : TextRules) (expected : ExpectedMove) (ranges : RangesByMove) (relationship : String)
    (moves : List Move)
    → is_nil (case_failures (assess_moves rules expected ranges relationship moves)) ≡ (
        (assess_moves rules expected ranges relationship moves).correctly_classified
        || (not (assess_moves rules expected ranges relationship moves).detected
            && (any_of (links_texts rules expected ranges) moves
                && (any_of (links_from rules expected ranges) moves
                    && any_of (links_to rules expected ranges) moves))))
unfolding assess_moves
case_failures-nil rules expected ranges relationship moves =
    let scan = scan_moves rules expected ranges moves in
    let sees = scan_moves-ScanSees rules expected ranges moves in
    failures_of relationship scan scan.detected
    ∙ rw (sees.text_link, sees.from_position, sees.to_position) refl
