-- ===== src/Oracle/Scanned.antt =====
-- What the loop over the moves has found, in terms of single moves.
use src_move.Common.{
  ◌≡◌, refl, ap, Bool, true, false, ◌&&◌, Option, none, some, List, [], ◌∷◌, map, arith, Bool-cases,
  inl, inr,
}
use src_move.Common.Checked.{any_of, is_some, filter}
use src_move.Oracle.Texts.{TextRules, Status, first_status}
use src_move.Oracle.Positions.{RangesByMove}
use src_move.Oracle.Scan.{
  Move, ExpectedMove, Candidate, Scan, from_overlaps, to_overlaps, scan_move, scan_moves,
}

module _ (rules : TextRules) (expected : ExpectedMove) (ranges : RangesByMove) where
  -- The move has a text of each side.
  abbrev pub links_texts : Move → Bool
  links_texts move =
      is_some (first_status rules expected.from_text move.from_raw_texts)
      && is_some (first_status rules expected.to_text move.to_raw_texts)

  -- The move is the expected one.
  abbrev pub shows_move : Move → Bool
  shows_move move =
      links_texts move
      && (from_overlaps rules expected ranges move && to_overlaps rules expected ranges move)

  -- A move that links the texts lies on the range of the one, or of the other, side.
  abbrev pub links_from : Move → Bool
  links_from move = links_texts move && from_overlaps rules expected ranges move

  abbrev pub links_to : Move → Bool
  links_to move = links_texts move && to_overlaps rules expected ranges move

  -- The scan, move by move.
  pub record ScanSees (moves : List Move) (scan : Scan) : Type 0 where
    pub candidates : map (λ (c : Candidate). c.move) scan.detected ≡ filter shows_move moves
    pub text_link : scan.text_link_found ≡ any_of links_texts moves
    pub from_position : scan.from_position_found ≡ any_of links_from moves
    pub to_position : scan.to_position_found ≡ any_of links_to moves

  scan_move-ScanSees :
      (move : Move) (moves : List Move) (f t : Option Status) (scan : Scan)
      → first_status rules expected.from_text move.from_raw_texts ≡ f
      → first_status rules expected.to_text move.to_raw_texts ≡ t
      → ScanSees moves scan
      → ScanSees (move ∷ moves) (scan_move rules expected ranges move f t scan)
  unfolding scan_move
  scan_move-ScanSees move moves none t scan ef et h =
      let no : links_texts move ≡ false = ground (arith, ef) in
      record {
        candidates = ground (arith, no, h.candidates);
        text_link = ground (arith, no, h.text_link);
        from_position = ground (arith, no, h.from_position);
        to_position = ground (arith, no, h.to_position);
      }
  scan_move-ScanSees move moves (some f) none scan ef et h =
      let no : links_texts move ≡ false = ground (arith, ef, et) in
      record {
        candidates = ground (arith, no, h.candidates);
        text_link = ground (arith, no, h.text_link);
        from_position = ground (arith, no, h.from_position);
        to_position = ground (arith, no, h.to_position);
      }
  scan_move-ScanSees move moves (some f) (some t) scan ef et h =
      let yes_linked : links_texts move ≡ true = ground (arith, ef, et) in
      record {
        candidates =
            elim (Bool-cases (
              from_overlaps rules expected ranges move && to_overlaps rules expected ranges move)) [
                | inl o ↦ rw (yes_linked, o) (ap (λ l. move ∷ l) h.candidates)
                | inr o ↦ rw (yes_linked, o) h.candidates
              ];
        text_link = ground (arith, yes_linked, h.text_link);
        from_position = rw (yes_linked, h.from_position) refl;
        to_position = rw (yes_linked, h.to_position) refl;
      }

  pub scan_moves-ScanSees :
      (moves : List Move) → ScanSees moves (scan_moves rules expected ranges moves)
  unfolding scan_moves
  scan_moves-ScanSees [] = record {
    candidates = refl;
    text_link = refl;
    from_position = refl;
    to_position = refl;
  }
  scan_moves-ScanSees (move ∷ moves) =
      scan_move-ScanSees move moves _ _ (scan_moves rules expected ranges moves) refl refl
        (scan_moves-ScanSees moves)
