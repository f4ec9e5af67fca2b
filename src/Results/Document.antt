-- ===== src/Results/Document.antt =====
-- The parts of a results document of schema 3 that its cross-record checks read. The document is one
-- that the shape check has admitted, so enumerated texts are constructors and required fields are there.
use src_move.Common.{ℕ, Option, List, String}

pub data Relationship : Type 0 where
  type1 type2c type3 : Relationship

pub data NameEvidence : Type 0 where
  name_not_assessed name_contradicted : NameEvidence
  name_other : String → NameEvidence

pub data Scope : Type 0 where
  pair_scope group_scope unassessed_scope : Scope

-- `location_evidence`
pub record LocationEvidence : Type 0 where
  pub scope : Scope
  pub classification : Option String
  pub reason : String

-- `correspondence.status`
pub data Correspondence : Type 0 where
  selected_pair unresolved_partners copy_source_set : Correspondence

-- `selection.reason`
pub data Reason : Type 0 where
  continuing_source_copy exact_neighbor_correspondence unresolved_exact_residual : Reason
  other_reason : Option String → Reason

pub record Endpoint : Type 0 where
  pub candidate_id : ℕ
  pub xpath : String
  pub revision_file : Option String

-- A record of `atomic_move_groups`.
pub record Group : Type 0 where
  pub id : String
  pub relationship : Relationship
  pub name_evidence : NameEvidence
  pub status : Correspondence
  pub reason : Reason
  pub location : LocationEvidence
  pub original : List Endpoint
  pub modified : List Endpoint

pub record Span : Type 0 where
  pub revision_file : Option String
  pub parent_id : String
  pub first_child_ordinal : ℕ
  pub last_child_ordinal : ℕ

pub record Sequence : Type 0 where
  pub policy : String
  pub original_span : Span
  pub modified_span : Span

pub data ItemKind : Type 0 where
  atomic_move_group : ItemKind
  sequence_move_group : Sequence → ItemKind

-- A record of `output_items`.
pub record Item : Type 0 where
  pub id : String
  pub kind : ItemKind
  pub members : List String

-- The counts of `histogram`.
pub record Histogram : Type 0 where
  pub type1_count : ℕ
  pub type2c_count : ℕ
  pub type3_count : ℕ

pub record Summary : Type 0 where
  pub atomic_move_group_count : ℕ
  pub output_item_count : ℕ
  pub sequence_move_group_count : ℕ
  pub pair_capacity : ℕ
  pub endpoint_count : ℕ
  pub atomic_content_relationships : Histogram
  pub output_content_relationships : Histogram

pub record Document : Type 0 where
  pub schema_version : ℕ
  pub convention : String
  pub namespaces : List (String × String)
  pub sequence_policy : String
  pub groups : List Group
  pub items : List Item
  pub summary : Summary
