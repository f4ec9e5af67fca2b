-- ===== src/Results/Samples.antt =====
-- A document with a sequence of two exact pairs and an atomic pair, and the theorem at it.
use src_move.Common.{ℕ, ◌≡◌, refl, true, none, some, [], ◌∷◌, String}
use src_move.Results.Document.{
  Relationship, type1, type2c, name_not_assessed, pair_scope, selected_pair, other_reason, Endpoint,
  Group, Span, atomic_move_group, sequence_move_group, Document,
}
use src_move.Common.Checked.{valid, invalid}
use src_move.Results.Groups.{
  Regex, is_unclassified, check_name, check_location, check_status, check_group, check_xpath, own,
  pair_keys, check_groups,
}
use src_move.Results.Items.{
  find_group, apart, taken, spans_members, check_member, check_sequence, check_atomic, check_kind,
  check_item, check_items, histogram, check_summary, check_output, validate_records,
}
use src_move.Results.Partition.{IsConsistent, validate_records-IsConsistent}

abbrev regex : Regex
regex = record { prefixes = λ xpath. "src" ∷ []; is_name = λ prefix. true }

abbrev endpoint : ℕ → Endpoint
endpoint q = record { candidate_id = q; xpath = "/src:unit"; revision_file = some "a.cpp" }

abbrev pair : String → Relationship → ℕ → ℕ → Group
pair id relationship q r = record {
  id = id;
  relationship = relationship;
  name_evidence = name_not_assessed;
  status = selected_pair;
  reason = other_reason none;
  location = record { scope = pair_scope; classification = some "relocated"; reason = "moved" };
  original = endpoint q ∷ [];
  modified = endpoint r ∷ [];
}

abbrev span : Span
span = record {
  revision_file = some "a.cpp";
  parent_id = "class";
  first_child_ordinal = 3;
  last_child_ordinal = 4;
}

abbrev document : ℕ → Document
document last = record {
  schema_version = 3;
  convention = "srcreader_file_units_v1";
  namespaces =
      ("src", "http://www.srcML.org/srcML/src") ∷ ("diff", "http://www.srcML.org/srcDiff") ∷ [];
  sequence_policy = "adjacent";
  groups = pair "a" type1 0 1 ∷ pair "b" type1 2 3 ∷ pair "c" type2c 4 last ∷ [];
  items =
      record {
        id = "sequence:a";
        kind =
            sequence_move_group
              (record { policy = "adjacent"; original_span = span; modified_span = span });
        members = "a" ∷ "b" ∷ [];
      }
      ∷ record { id = "item:c"; kind = atomic_move_group; members = "c" ∷ [] }
      ∷ [];
  summary = record {
    atomic_move_group_count = 3;
    output_item_count = 2;
    sequence_move_group_count = 1;
    pair_capacity = 3;
    endpoint_count = 6;
    atomic_content_relationships = record { type1_count = 2; type2c_count = 1; type3_count = 0 };
    output_content_relationships = record { type1_count = 1; type2c_count = 1; type3_count = 0 };
  };
}

document_passes : validate_records regex (document 5) ≡ valid tt
unfolding is_unclassified check_name check_location check_status check_group check_xpath own
    pair_keys check_groups find_group apart taken spans_members check_member check_sequence
    check_atomic check_kind check_item check_items histogram check_summary check_output
    validate_records
document_passes = refl

-- A candidate with two owners is refused.
repeated_candidate_fails :
    validate_records regex (document 2) ≡ invalid "Candidate has multiple selected owners"
unfolding is_unclassified check_name check_location check_status check_group check_xpath own
    pair_keys check_groups validate_records
repeated_candidate_fails = refl

validate_records-IsConsistent_example : IsConsistent (document 5)
validate_records-IsConsistent_example =
    validate_records-IsConsistent regex (document 5) document_passes
