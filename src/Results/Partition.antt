-- ===== src/Results/Partition.antt =====
-- An admitted results document: its output items partition its groups, and its summary counts them.
use Prim.Native.String.{◌++◌ as str_append}
use src_move.Common.{
  leb, ℕ, ◌+◌, ◌≤◌, ◌≡◌, refl, true, not, ◌&&◌, List, [], ◌∷◌, ◌++◌, map, String, length, arith,
  ==_iff, ◌==◌, str_eq, eq_iff,
}
use src_move.Common.Occurrences.{
  if_le_one, member, distinct, subset, disjoint, occurrences, occurrences_of_distinct,
  occurrences-append, distinct-append, occurrences_of_same,
}
use src_move.Results.Document.{
  Relationship, Sequence, ItemKind, atomic_move_group, sequence_move_group, Item, Document,
}
use src_move.Results.Groups.{Regex, check_groups}
use src_move.Results.Items.{
  group_ids, first_member, spans_members, apart, check_member, Seen, nothing_seen, check_atomic,
  check_sequence, check_kind, check_item, check_items, check_output, check_summary, count_sequences,
  capacity, binds, validate_records,
}
use src_move.Common.Checked.{valid, all_of, and_then_lem, past_guard, true_of_not, both}
use src_move.Results.Owners.{all_candidates, Owns, check_groups-Owns}

-- The members of all output items.
unfoldable pub all_members : List Item → List String
all_members [] = []
all_members (item ∷ items) = item.members ++ all_members items

-- What the output items add to the members seen.
record Covers (ids before added after : List String) : Type 0 where
  unrepeated : distinct str_eq before ≡ true → distinct str_eq after ≡ true
  within : subset str_eq before ids ≡ true → subset str_eq after ids ≡ true
  grows :
      (id : String)
      → occurrences str_eq id after ≡ occurrences str_eq id added + occurrences str_eq id before

subset-append :
    (xs ys zs : List String)
    → subset str_eq xs zs ≡ true
    → subset str_eq ys zs ≡ true
    → subset str_eq (xs ++ ys) zs ≡ true
subset-append [] ys zs h k = k
subset-append (x ∷ xs) ys zs h k = ground (arith, subset-append xs ys zs)

atomic-members :
    (d : Document) (seen after : Seen) (item : Item)
    → check_atomic d seen item ≡ valid after
    → after.members_seen ≡ item.members ++ seen.members_seen
unfolding check_atomic
atomic-members d seen after item h =
    let named =
      (length item.members == 1)
      && str_eq item.id (str_append "item:" (first_member item.members)) in
    cc ((past_guard (not named) "Atomic output identity/member mismatch" _ after h).1)

sequence-members :
    (d : Document) (seen after : Seen) (item : Item) (s : Sequence)
    → check_sequence d seen item s ≡ valid after
    → after.members_seen ≡ item.members ++ seen.members_seen
unfolding check_sequence
sequence-members d seen after item s h =
    let n = length item.members in
    let named = leb 2 n && str_eq item.id (str_append "sequence:" (first_member item.members)) in
    let spans = spans_members s.original_span n && spans_members s.modified_span n in
    let clear =
      all_of (apart s.original_span) seen.original_taken
      && all_of (apart s.modified_span) seen.modified_taken in
    let a = (past_guard (not named) "Sequence output identity/member mismatch" _ after h).1 in
    let b =
      (past_guard (not (str_eq s.policy d.sequence_policy))
        "Sequence policy differs from configuration" _ after a).1 in
    let c =
      (past_guard (not (all_of (check_member d.groups s) item.members))
        "Sequence member must be resolved Type-1 pair" _ after b).1 in
    let e = (past_guard (not spans) "Sequence span/member count mismatch" _ after c).1 in
    cc ((past_guard (not clear) "Sequence spans overlap" _ after e).1)

kind-members :
    (d : Document) (seen after : Seen) (item : Item) (kind : ItemKind)
    → check_kind d seen item kind ≡ valid after
    → after.members_seen ≡ item.members ++ seen.members_seen
unfolding check_kind
kind-members d seen after item atomic_move_group h = atomic-members d seen after item h
kind-members d seen after item (sequence_move_group s) h = sequence-members d seen after item s h

item-Covers :
    (d : Document) (seen after : Seen) (item : Item)
    → check_item d seen item ≡ valid after
    → Covers (group_ids d.groups) seen.members_seen item.members after.members_seen
unfolding check_item
item-Covers d seen after item h =
    let a = past_guard (not (distinct str_eq item.members)) "Duplicate output member" _ after h in
    let b =
      past_guard (not (subset str_eq item.members (group_ids d.groups))) "Missing output member" _
        after a.1 in
    let c =
      past_guard (not (disjoint str_eq item.members seen.members_seen))
        "Output partition repeats group" _ after b.1 in
    let e = kind-members d seen after item item.kind c.1 in
    record {
      unrepeated = λ u. rw e (
          distinct-append str_eq eq_iff item.members seen.members_seen (true_of_not _ a.0) u
            (true_of_not _ c.0));
      within = λ w.
          rw e (
            subset-append item.members seen.members_seen (group_ids d.groups) (true_of_not _ b.0)
              w);
      grows = λ id. rw e (occurrences-append str_eq eq_iff id item.members seen.members_seen);
    }

items-Covers :
    (d : Document) (seen : Seen) (items : List Item) (after : Seen)
    → check_items d seen items ≡ valid after
    → Covers (group_ids d.groups) seen.members_seen (all_members items) after.members_seen
unfolding check_items all_members
items-Covers d seen [] after h =
    let e : after.members_seen ≡ seen.members_seen = cc h in
    record { unrepeated = λ u. rw e u; within = λ w. rw e w; grows = λ id. rw e (omega arith) }
items-Covers d seen (item ∷ items) after h =
    let (next, e, h') =
      and_then_lem (check_item d seen item) (λ next. check_items d next items) after h in
    let a = item-Covers d seen next item e in
    let rest = items-Covers d next items after h' in
    record {
      unrepeated = λ u. rest.unrepeated (a.unrepeated u);
      within = λ w. rest.within (a.within w);
      grows = λ id. omega (
        arith,
        a.grows id,
        rest.grows id,
        occurrences-append str_eq eq_iff id item.members (all_members items),
      );
    }

-- A document whose records fit together.
pub record IsConsistent (d : Document) : Type 0 where
  pub one_owner : (q : ℕ) → occurrences ◌==◌ q (all_candidates d.groups) ≤ 1
  pub one_group : (id : String) → occurrences str_eq id (group_ids d.groups) ≤ 1
  pub partition :
      (id : String)
      → occurrences str_eq id (all_members d.items) ≡ occurrences str_eq id (group_ids d.groups)
  pub endpoints_counted : d.summary.endpoint_count ≡ length (all_candidates d.groups)
  pub groups_counted : d.summary.atomic_move_group_count ≡ length d.groups
  pub items_counted : d.summary.output_item_count ≡ length d.items

-- What the tests of `validate_records` have established.
record Passed (d : Document) : Type 0 where
  ids_distinct : distinct str_eq (group_ids d.groups) ≡ true
  owned : List ℕ
  owns : Owns [] (all_candidates d.groups) owned
  seen : Seen
  covers : Covers (group_ids d.groups) [] (all_members d.items) seen.members_seen
  all_seen : subset str_eq (group_ids d.groups) seen.members_seen ≡ true
  summed : check_summary d owned seen.relationships ≡ true

validate_records-Passed :
    (regex : Regex) (d : Document) → validate_records regex d ≡ valid tt → Passed d
unfolding validate_records check_output
validate_records-Passed regex d h =
    let bound = map (λ (b : String × String). b.0) d.namespaces in
    let ids = group_ids d.groups in
    let uris =
      binds "src" "http://www.srcML.org/srcML/src" d.namespaces
      && binds "diff" "http://www.srcML.org/srcDiff" d.namespaces in
    let a = past_guard (not (d.schema_version == 3)) "Expected results schema 3" _ tt h in
    let b = past_guard (not (distinct str_eq ids)) "Duplicate atomic group ID" _ tt a.1 in
    let c =
      past_guard (not (distinct str_eq (map (λ (i : Item). i.id) d.items)))
        "Duplicate output item ID" _ tt b.1 in
    let e =
      past_guard (not (str_eq d.convention "srcreader_file_units_v1"))
        "Unsupported XPath convention" _ tt c.1 in
    let f = past_guard (not uris) "Canonical src/diff namespace bindings required" _ tt e.1 in
    let (owned, g, h1) =
      and_then_lem (check_groups regex bound [] [] d.groups) (check_output d) tt f.1 in
    let (seen, i, h2) = and_then_lem (check_items d nothing_seen d.items) _ tt h1 in
    let j =
      past_guard (not (subset str_eq ids seen.members_seen)) "Output partition omits group" _ tt
        h2 in
    let k =
      past_guard (not (check_summary d owned seen.relationships))
        "Summary differs from canonical collections" _ tt j.1 in
    record {
      ids_distinct = true_of_not _ b.0;
      owned = owned;
      owns = check_groups-Owns regex bound [] [] d.groups owned g;
      seen = seen;
      covers = items-Covers d nothing_seen d.items seen i;
      all_seen = true_of_not _ j.0;
      summed = true_of_not _ k.0;
    }

-- The counts of a summary that passes.
summary_counts :
    (d : Document) (owned : List ℕ) (outputs : List Relationship)
    → check_summary d owned outputs ≡ true
    → (d.summary.atomic_move_group_count ≡ length d.groups)
      × (d.summary.output_item_count ≡ length d.items)
      × (d.summary.endpoint_count ≡ length owned)
unfolding check_summary
summary_counts d owned outputs h =
    let s = d.summary in
    let a = both (s.atomic_move_group_count == length d.groups) _ h in
    let b = both (s.output_item_count == length d.items) _ a.1 in
    let c = both (s.sequence_move_group_count == count_sequences d.items) _ b.1 in
    let e = both (s.pair_capacity == capacity d.groups) _ c.1 in
    let f = both (s.endpoint_count == length owned) _ e.1 in
    (
      (==_iff s.atomic_move_group_count (length d.groups)).0 a.0,
      (==_iff s.output_item_count (length d.items)).0 b.0,
      (==_iff s.endpoint_count (length owned)).0 f.0,
    )

-- A results document that passes the cross-record checks is consistent: a candidate is an endpoint of
-- at most one group and stands there once, a group identifier is used once, the members of the output
-- items are the groups, each exactly once, and the summary's counts of endpoints, groups and items
-- are those of the document.
pub validate_records-IsConsistent :
    (regex : Regex) (d : Document) → validate_records regex d ≡ valid tt → IsConsistent d
validate_records-IsConsistent regex d h =
    let p = validate_records-Passed regex d h in
    let ids = group_ids d.groups in
    let owned_once = p.owns.unrepeated refl in
    let seen_once = p.covers.unrepeated refl in
    let (groups, items, ends) = summary_counts d p.owned p.seen.relationships p.summed in
    record {
      one_owner = λ q. omega (
        arith,
        p.owns.grows q,
        occurrences_of_distinct ◌==◌ ==_iff q p.owned owned_once,
        if_le_one (member ◌==◌ q p.owned),
      );
      one_group = λ id. omega (
        arith,
        occurrences_of_distinct str_eq eq_iff id ids p.ids_distinct,
        if_le_one (member str_eq id ids),
      );
      partition = λ id. omega (
        arith,
        p.covers.grows id,
        occurrences_of_same str_eq eq_iff id p.seen.members_seen ids seen_once p.ids_distinct
            (p.covers.within refl) p.all_seen,
      );
      endpoints_counted = omega (arith, ends, p.owns.size);
      groups_counted = groups;
      items_counted = items;
    }
