-- ===== src/Oracle/Positions.antt =====
-- The line ranges that the annotations of an output give, and when two of them overlap. Lines are
-- natural numbers.
use src_move.Common.{
  ℕ, ◌≤◌, ◌≡◌, ◌↔◌, Bool, true, ◌&&◌, Option, none, some, List, [], ◌∷◌, ◌++◌, String, str_eq, leb,
  min, max, if◌then◌else◌, arith,
}
use src_move.Common.Checked.{Checked, valid, invalid, and_then}

pub record Range : Type 0 where
  pub first : ℕ
  pub last : ℕ

-- `ranges_overlap`
unfoldable pub ranges_overlap : Range → Range → Bool
ranges_overlap left right = leb left.first right.last && leb right.first left.last

-- A line of a range.
abbrev pub InRange : ℕ → Range → Type 0
InRange line r = (r.first ≤ line) × (line ≤ r.last)

-- Two ranges that are not empty overlap exactly when they have a line in common.
pub ranges_overlap-InRange :
    (left right : Range)
    → left.first ≤ left.last
    → right.first ≤ right.last
    → (ranges_overlap left right ≡ true) ↔ ((line : ℕ) × InRange line left × InRange line right)
unfolding ranges_overlap
ranges_overlap-InRange left right l r = (
  λ h. (
    max left.first right.first,
    (omega arith, ground (arith, h, l, r)),
    (omega arith, ground (arith, h, l, r)),
  ),
  λ (line, a, b). ground (arith, a.0, a.1, b.0, b.1),
)

-- The ranges of a move's two sides.
pub record MoveRanges : Type 0 where
  pub delete : List Range
  pub insert : List Range

-- `dict`, with the newest value of a key.
abbrev pub RangesByMove : Type 0
RangesByMove = List (String × MoveRanges)

abbrev pub no_ranges : MoveRanges
no_ranges = record { delete = []; insert = [] }

-- `ranges.get(move_id, {})`
unfoldable pub ranges_of : String → RangesByMove → MoveRanges
ranges_of id [] = no_ranges
ranges_of id ((key, r) ∷ ranges) =
    let rest = ranges_of id ranges in if str_eq key id then r else rest

pub data Kind : Type 0 where
  delete insert : Kind

-- The attributes of an annotated node.
pub record Annotation : Type 0 where
  pub move_id : Option String
  pub to_link : Option String
  pub from_link : Option String
  pub pos_start : Option String
  pub pos_end : Option String

-- The side of an annotation, or that it has none; two links or an empty link are errors.
unfoldable pub link_kind : Option String → Option String → Checked (Option Kind)
link_kind none none = valid none
link_kind (some to_link) none =
    if str_eq to_link ""
    then invalid "move annotation has an empty link attribute"
    else valid (some delete)
link_kind none (some from_link) =
    if str_eq from_link ""
    then invalid "move annotation has an empty link attribute"
    else valid (some insert)
link_kind (some to_link) (some from_link) = invalid "move annotation has both mv:to and mv:from"

abbrev pub ordered : Option ℕ → Option ℕ → Checked Range
ordered (some a) (some b) = valid (record { first = min a b; last = max a b })
ordered (some a) none = invalid "move annotation has an invalid position range"
ordered none b = invalid "move annotation has an invalid position range"

abbrev pub position_range :
    (parse_pos_line : String → Kind → Option ℕ)
    → Kind
    → Option String
    → Option String
    → Checked Range
position_range parse_pos_line kind (some start) (some end) =
    ordered (parse_pos_line start kind) (parse_pos_line end kind)
position_range parse_pos_line kind (some start) none =
    invalid "move annotation is missing a position range"
position_range parse_pos_line kind none end = invalid "move annotation is missing a position range"

abbrev pub append_range : Kind → Range → MoveRanges → MoveRanges
append_range delete range r = record r { delete = r.delete ++ range ∷ [] }
append_range insert range r = record r { insert = r.insert ++ range ∷ [] }

unfoldable pub add_range : String → Kind → Range → RangesByMove → RangesByMove
unfolding ranges_of
add_range id kind range ranges = (id, append_range kind range (ranges_of id ranges)) ∷ ranges

abbrev pub add_kind :
    (parse_pos_line : String → Kind → Option ℕ)
    → String
    → Annotation
    → RangesByMove
    → Option Kind
    → Checked RangesByMove
add_kind parse_pos_line id node ranges none = valid ranges
add_kind parse_pos_line id node ranges (some kind) =
    and_then (position_range parse_pos_line kind node.pos_start node.pos_end)
      (λ range. valid (add_range id kind range ranges))

abbrev pub add_node :
    (parse_pos_line : String → Kind → Option ℕ)
    → Annotation
    → RangesByMove
    → Option String
    → Checked RangesByMove
add_node parse_pos_line node ranges none = valid ranges
add_node parse_pos_line node ranges (some id) =
    and_then (link_kind node.to_link node.from_link) (add_kind parse_pos_line id node ranges)

-- The loop of `moved_position_ranges` over the nodes of the annotated output; `parse_pos_line` reads the
-- line of a position.
unfoldable pub moved_position_ranges :
    (parse_pos_line : String → Kind → Option ℕ)
    → List Annotation
    → RangesByMove
    → Checked RangesByMove
unfolding add_range link_kind
moved_position_ranges parse_pos_line [] ranges = valid ranges
moved_position_ranges parse_pos_line (node ∷ nodes) ranges =
    and_then (add_node parse_pos_line node ranges node.move_id)
      (moved_position_ranges parse_pos_line nodes)
