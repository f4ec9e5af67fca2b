-- ===== src/Results/Items.antt =====
-- The loop of `_validate_records` over the output items, and its last tests: the partition of the
-- groups and the summary.
use Prim.Native.String.{◌++◌ as str_append}
use src_move.Common.{
  ℕ, ◌+◌, min, Bool, true, false, not, ◌&&◌, ◌||◌, Option, none, some, List, [], ◌∷◌, ◌++◌, map,
  String, length, ltb, leb, ◌==◌, str_eq, if◌then◌else◌,
}
use src_move.Common.Occurrences.{distinct, subset, disjoint}
use src_move.Results.Document.{
  Relationship, type1, type2c, type3, Endpoint, Group, Span, Sequence, ItemKind, atomic_move_group,
  sequence_move_group, Item, Histogram, Document,
}
use src_move.Common.Checked.{Checked, valid, invalid, and_then, all_of}
use src_move.Results.Groups.{Regex, is_type1, is_selected, check_groups}

-- `groups[id]`
unfoldable pub find_group : String → List Group → Option Group
find_group id [] = none
find_group id (g ∷ gs) = let rest = find_group id gs in if str_eq g.id id then some g else rest

abbrev pub group_ids : List Group → List String
group_ids gs = map (λ (g : Group). g.id) gs

-- A span that an earlier sequence has taken on a side.
pub record TakenSpan : Type 0 where
  pub file : Option String
  pub parent : String
  pub first : ℕ
  pub last : ℕ

abbrev pub same_file : Option String → Option String → Bool
same_file none none = true
same_file none (some t) = false
same_file (some s) none = false
same_file (some s) (some t) = str_eq s t

-- `key != old_key or last < old_first or first > old_last`
unfoldable pub apart : Span → TakenSpan → Bool
apart span old =
    not (same_file span.revision_file old.file && str_eq span.parent_id old.parent)
    || (ltb span.last_child_ordinal old.first || ltb old.last span.first_child_ordinal)

unfoldable pub taken : Span → TakenSpan
taken span = record {
  file = span.revision_file;
  parent = span.parent_id;
  first = span.first_child_ordinal;
  last = span.last_child_ordinal;
}

-- `last - first + 1 == len(members)`, for a list of at least two members.
unfoldable pub spans_members : Span → ℕ → Bool
spans_members span size = span.last_child_ordinal + 1 == span.first_child_ordinal + size

abbrev pub file_matches : List Endpoint → Span → Bool
file_matches [] span = false
file_matches (e ∷ es) span = same_file e.revision_file span.revision_file

abbrev pub check_found : Sequence → Option Group → Bool
check_found s none = false
check_found s (some g) =
    is_type1 g.relationship
    && (is_selected g.status
        && (file_matches g.original s.original_span && file_matches g.modified s.modified_span))

-- A member of a sequence is a resolved Type-1 pair within its files.
unfoldable pub check_member : List Group → Sequence → String → Bool
unfolding find_group
check_member groups s id = check_found s (find_group id groups)

-- What the loop keeps: the members seen, the spans taken on each side, the relationships put out.
pub record Seen : Type 0 where
  pub members_seen : List String
  pub original_taken : List TakenSpan
  pub modified_taken : List TakenSpan
  pub relationships : List Relationship

abbrev pub first_member : List String → String
first_member [] = ""
first_member (m ∷ ms) = m

abbrev pub relationship_of : Option Group → List Relationship
relationship_of none = []
relationship_of (some g) = g.relationship ∷ []

unfoldable pub check_sequence : Document → Seen → Item → Sequence → Checked Seen
unfolding check_member spans_members apart taken
check_sequence d seen item s =
    if not (
      leb 2 (length item.members)
      && str_eq item.id (str_append "sequence:" (first_member item.members)))
    then invalid "Sequence output identity/member mismatch"
    else if not (str_eq s.policy d.sequence_policy)
    then invalid "Sequence policy differs from configuration"
    else if not (all_of (check_member d.groups s) item.members)
    then invalid "Sequence member must be resolved Type-1 pair"
    else if not (
        spans_members s.original_span (length item.members)
        && spans_members s.modified_span (length item.members))
    then invalid "Sequence span/member count mismatch"
    else if not (
        all_of (apart s.original_span) seen.original_taken
        && all_of (apart s.modified_span) seen.modified_taken)
    then invalid "Sequence spans overlap"
    else valid (record {
      members_seen = item.members ++ seen.members_seen;
      original_taken = taken s.original_span ∷ seen.original_taken;
      modified_taken = taken s.modified_span ∷ seen.modified_taken;
      relationships = type1 ∷ seen.relationships;
    })

unfoldable pub check_atomic : Document → Seen → Item → Checked Seen
unfolding find_group
check_atomic d seen item =
    if not (
      (length item.members == 1) && str_eq item.id (str_append "item:" (first_member item.members)))
    then invalid "Atomic output identity/member mismatch"
    else valid (record seen {
      members_seen = item.members ++ seen.members_seen;
      relationships =
          relationship_of (find_group (first_member item.members) d.groups) ++ seen.relationships;
    })

unfoldable pub check_kind : Document → Seen → Item → ItemKind → Checked Seen
unfolding check_atomic check_sequence
check_kind d seen item atomic_move_group = check_atomic d seen item
check_kind d seen item (sequence_move_group s) = check_sequence d seen item s

-- One turn of the loop.
unfoldable pub check_item : Document → Seen → Item → Checked Seen
unfolding check_kind
check_item d seen item =
    if not (distinct str_eq item.members)
    then invalid "Duplicate output member"
    else if not (subset str_eq item.members (group_ids d.groups))
    then invalid "Missing output member"
    else if not (disjoint str_eq item.members seen.members_seen)
    then invalid "Output partition repeats group"
    else check_kind d seen item item.kind

unfoldable pub check_items : Document → Seen → List Item → Checked Seen
unfolding check_item
check_items d seen [] = valid seen
check_items d seen (item ∷ items) =
    and_then (check_item d seen item) (λ next. check_items d next items)

abbrev pub count_of : (Relationship → Bool) → List Relationship → ℕ
count_of p [] = 0
count_of p (r ∷ rs) = (if p r then 1 else 0) + count_of p rs

abbrev pub is_type2c : Relationship → Bool
is_type2c type2c = true
is_type2c type1 = false
is_type2c type3 = false

abbrev pub is_type3 : Relationship → Bool
is_type3 type3 = true
is_type3 type1 = false
is_type3 type2c = false

unfoldable pub histogram : List Relationship → Histogram
histogram rs = record {
  type1_count = count_of is_type1 rs;
  type2c_count = count_of is_type2c rs;
  type3_count = count_of is_type3 rs;
}

abbrev pub same_histogram : Histogram → Histogram → Bool
same_histogram a b =
    (a.type1_count == b.type1_count)
    && ((a.type2c_count == b.type2c_count) && (a.type3_count == b.type3_count))

abbrev pub is_sequence : ItemKind → Bool
is_sequence atomic_move_group = false
is_sequence (sequence_move_group s) = true

abbrev pub count_sequences : List Item → ℕ
count_sequences [] = 0
count_sequences (item ∷ items) = (if is_sequence item.kind then 1 else 0) + count_sequences items

abbrev pub capacity : List Group → ℕ
capacity [] = 0
capacity (g ∷ gs) = min (length g.original) (length g.modified) + capacity gs

-- `summary == expected`
unfoldable pub check_summary : Document → List ℕ → List Relationship → Bool
unfolding histogram
check_summary d owned outputs =
    let s = d.summary in
    (s.atomic_move_group_count == length d.groups)
    && ((s.output_item_count == length d.items)
        && ((s.sequence_move_group_count == count_sequences d.items)
            && ((s.pair_capacity == capacity d.groups)
                && ((s.endpoint_count == length owned)
                    && (same_histogram s.atomic_content_relationships
                          (histogram (map (λ (g : Group). g.relationship) d.groups))
                        && same_histogram s.output_content_relationships (histogram outputs))))))

abbrev pub nothing_seen : Seen
nothing_seen = record {
  members_seen = [];
  original_taken = [];
  modified_taken = [];
  relationships = [];
}

abbrev pub binds : String → String → List (String × String) → Bool
binds prefix uri [] = false
binds prefix uri (b ∷ bs) = (str_eq b.0 prefix && str_eq b.1 uri) || binds prefix uri bs

unfoldable pub check_output : Document → List ℕ → Checked (Unit {0})
unfolding check_items check_summary
check_output d owned = and_then (check_items d nothing_seen d.items) (λ seen.
    if not (subset str_eq (group_ids d.groups) seen.members_seen)
    then invalid "Output partition omits group"
    else if not (check_summary d owned seen.relationships)
    then invalid "Summary differs from canonical collections"
    else valid tt)

-- `_validate_records`, up to the summary.
unfoldable pub validate_records : Regex → Document → Checked (Unit {0})
unfolding check_output
validate_records regex d =
    if not (d.schema_version == 3)
    then invalid "Expected results schema 3"
    else if not (distinct str_eq (group_ids d.groups))
    then invalid "Duplicate atomic group ID"
    else if not (distinct str_eq (map (λ (i : Item). i.id) d.items))
    then invalid "Duplicate output item ID"
    else if not (str_eq d.convention "srcreader_file_units_v1")
    then invalid "Unsupported XPath convention"
    else if not (
        binds "src" "http://www.srcML.org/srcML/src" d.namespaces
        && binds "diff" "http://www.srcML.org/srcDiff" d.namespaces)
    then invalid "Canonical src/diff namespace bindings required"
    else and_then
        (check_groups regex (map (λ (b : String × String). b.0) d.namespaces) [] [] d.groups)
        (check_output d)
