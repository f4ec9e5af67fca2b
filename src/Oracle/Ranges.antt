-- ===== src/Oracle/Ranges.antt =====
-- The ranges that are read from the annotations are not empty.
use src_move.Common.{
  ℕ, ◌≤◌, ◌≡◌, subst, Option, none, some, List, [], ◌∷◌, ◌++◌, String, str_eq, All, arith,
  Bool-cases, inl, inr,
}
use src_move.Common.Checked.{valid, and_then_lem, valid_inj}
use src_move.Oracle.Positions.{
  Range, MoveRanges, RangesByMove, ranges_of, Kind, delete, insert, Annotation, link_kind, ordered,
  position_range, append_range, add_range, add_kind, add_node, moved_position_ranges,
}

abbrev pub NonEmpty : Range → Type 0
NonEmpty r = r.first ≤ r.last

abbrev pub SidesNonEmpty : MoveRanges → Type 0
SidesNonEmpty r = All NonEmpty r.delete × All NonEmpty r.insert

abbrev pub AllNonEmpty : RangesByMove → Type 0
AllNonEmpty [] = Unit
AllNonEmpty ((id, r) ∷ ranges) = SidesNonEmpty r × AllNonEmpty ranges

All-append :
    (xs : List Range) (r : Range) → All NonEmpty xs → NonEmpty r → All NonEmpty (xs ++ r ∷ [])
All-append [] r h n = (n, tt)
All-append (x ∷ xs) r h n = (h.0, All-append xs r h.1 n)

ranges_of-NonEmpty :
    (id : String) (ranges : RangesByMove) → AllNonEmpty ranges → SidesNonEmpty (ranges_of id ranges)
unfolding ranges_of
ranges_of-NonEmpty id [] h = (tt, tt)
ranges_of-NonEmpty id ((key, r) ∷ ranges) h = elim (Bool-cases (str_eq key id)) [
  | inl t ↦ rw t h.0
  | inr f ↦ rw f (ranges_of-NonEmpty id ranges h.1)
]

append-NonEmpty :
    (kind : Kind) (range : Range) (r : MoveRanges)
    → NonEmpty range
    → SidesNonEmpty r
    → SidesNonEmpty (append_range kind range r)
append-NonEmpty delete range r n h = (All-append r.delete range h.0 n, h.1)
append-NonEmpty insert range r n h = (h.0, All-append r.insert range h.1 n)

ordered-NonEmpty : (a b : Option ℕ) (range : Range) → ordered a b ≡ valid range → NonEmpty range
ordered-NonEmpty none b range h = cc
ordered-NonEmpty (some a) none range h = cc
ordered-NonEmpty (some a) (some b) range h = rw (← valid_inj h) (omega arith)

module _ (parse_pos_line : String → Kind → Option ℕ) where
  position_range-NonEmpty :
      (kind : Kind) (s e : Option String) (range : Range)
      → position_range parse_pos_line kind s e ≡ valid range
      → NonEmpty range
  position_range-NonEmpty kind none e range h = cc
  position_range-NonEmpty kind (some s) none range h = cc
  position_range-NonEmpty kind (some s) (some e) range h =
      ordered-NonEmpty (parse_pos_line s kind) (parse_pos_line e kind) range h

  add_kind-AllNonEmpty :
      (id : String) (node : Annotation) (ranges result : RangesByMove) (kind : Option Kind)
      → AllNonEmpty ranges
      → add_kind parse_pos_line id node ranges kind ≡ valid result
      → AllNonEmpty result
  unfolding add_range
  add_kind-AllNonEmpty id node ranges result none all h = subst AllNonEmpty (valid_inj h) all
  add_kind-AllNonEmpty id node ranges result (some kind) all h =
      let (range, e, h1) =
        and_then_lem (position_range parse_pos_line kind node.pos_start node.pos_end) _ result h in
      let n = position_range-NonEmpty kind node.pos_start node.pos_end range e in
      subst AllNonEmpty (valid_inj h1)
        (append-NonEmpty kind range (ranges_of id ranges) n (ranges_of-NonEmpty id ranges all), all)

  add_node-AllNonEmpty :
      (node : Annotation) (ranges result : RangesByMove) (id : Option String)
      → AllNonEmpty ranges
      → add_node parse_pos_line node ranges id ≡ valid result
      → AllNonEmpty result
  add_node-AllNonEmpty node ranges result none all h = subst AllNonEmpty (valid_inj h) all
  add_node-AllNonEmpty node ranges result (some id) all h =
      let (kind, e, h1) = and_then_lem (link_kind node.to_link node.from_link) _ result h in
      add_kind-AllNonEmpty id node ranges result kind all h1

  moved-AllNonEmpty :
      (nodes : List Annotation) (ranges result : RangesByMove)
      → AllNonEmpty ranges
      → moved_position_ranges parse_pos_line nodes ranges ≡ valid result
      → AllNonEmpty result
  unfolding moved_position_ranges
  moved-AllNonEmpty [] ranges result all h = subst AllNonEmpty (valid_inj h) all
  moved-AllNonEmpty (node ∷ nodes) ranges result all h =
      let (next, e, h1) =
        and_then_lem (add_node parse_pos_line node ranges node.move_id) _ result h in
      moved-AllNonEmpty nodes next result (add_node-AllNonEmpty node ranges next node.move_id all e)
        h1

-- When the position ranges of an annotated output are read, every range of each side of a move is from a
-- line to the same or a later one, whatever the order in which its annotation gives them.
pub moved_position_ranges-SidesNonEmpty :
    (parse_pos_line : String → Kind → Option ℕ) (nodes : List Annotation) (result : RangesByMove)
    (id : String)
    → moved_position_ranges parse_pos_line nodes [] ≡ valid result
    → SidesNonEmpty (ranges_of id result)
moved_position_ranges-SidesNonEmpty parse_pos_line nodes result id h =
    ranges_of-NonEmpty id result (moved-AllNonEmpty parse_pos_line nodes [] result tt h)
