-- ===== src/Results/Groups.antt =====
-- The loop of `_validate_records` over the atomic groups, with `index_by`, `check_name` and
-- `check_location`. The regular expressions of `check_xpath` are a parameter.
-- The messages of a group's own checks are one.
use src_move.Common.{
  ℕ, Bool, true, false, not, ◌&&◌, ◌||◌, Option, none, some, List, [], ◌∷◌, ◌++◌, String, length,
  ltb, ◌==◌, str_eq, if◌then◌else◌,
}
use src_move.Common.Checked.{Checked, valid, invalid, and_then, all_of, any_of}
use src_move.Common.Occurrences.{member}
use src_move.Results.Document.{
  Relationship, type1, type2c, type3, NameEvidence, name_not_assessed, name_contradicted,
  name_other, Scope, pair_scope, group_scope, unassessed_scope, LocationEvidence, Correspondence,
  selected_pair, unresolved_partners, copy_source_set, Reason, continuing_source_copy,
  exact_neighbor_correspondence, unresolved_exact_residual, other_reason, Endpoint, Group,
}

-- `re`: the prefixes that an XPath uses outside of its literals, and whether a prefix is a plain name.
pub record Regex : Type 0 where
  pub prefixes : String → List String
  pub is_name : String → Bool

abbrev pub is_type1 : Relationship → Bool
is_type1 type1 = true
is_type1 type2c = false
is_type1 type3 = false

abbrev pub is_selected : Correspondence → Bool
is_selected selected_pair = true
is_selected unresolved_partners = false
is_selected copy_source_set = false

abbrev pub is_copy : Correspondence → Bool
is_copy copy_source_set = true
is_copy selected_pair = false
is_copy unresolved_partners = false

abbrev pub is_copy_reason : Reason → Bool
is_copy_reason continuing_source_copy = true
is_copy_reason exact_neighbor_correspondence = false
is_copy_reason unresolved_exact_residual = false
is_copy_reason (other_reason r) = false

abbrev pub is_exact_neighbor : Reason → Bool
is_exact_neighbor exact_neighbor_correspondence = true
is_exact_neighbor continuing_source_copy = false
is_exact_neighbor unresolved_exact_residual = false
is_exact_neighbor (other_reason r) = false

abbrev pub is_residual : Reason → Bool
is_residual unresolved_exact_residual = true
is_residual continuing_source_copy = false
is_residual exact_neighbor_correspondence = false
is_residual (other_reason r) = false

abbrev pub is_not_assessed : NameEvidence → Bool
is_not_assessed name_not_assessed = true
is_not_assessed name_contradicted = false
is_not_assessed (name_other e) = false

abbrev pub is_contradicted : NameEvidence → Bool
is_contradicted name_contradicted = true
is_contradicted name_not_assessed = false
is_contradicted (name_other e) = false

abbrev pub is_pair_scope : Scope → Bool
is_pair_scope pair_scope = true
is_pair_scope group_scope = false
is_pair_scope unassessed_scope = false

abbrev pub is_group_scope : Scope → Bool
is_group_scope group_scope = true
is_group_scope pair_scope = false
is_group_scope unassessed_scope = false

abbrev pub is_unassessed_scope : Scope → Bool
is_unassessed_scope unassessed_scope = true
is_unassessed_scope pair_scope = false
is_unassessed_scope group_scope = false

abbrev pub is_text : Option String → String → Bool
is_text none t = false
is_text (some s) t = str_eq s t

abbrev pub is_absent : Option String → Bool
is_absent none = true
is_absent (some s) = false

-- `location == {"scope": "not_assessed", "reason": "no_classified_pair"}`
unfoldable pub is_unclassified : LocationEvidence → Bool
is_unclassified l =
    is_unassessed_scope l.scope
    && (is_absent l.classification && str_eq l.reason "no_classified_pair")

-- `check_name`, for a group: not a diagnostic.
unfoldable pub check_name : NameEvidence → Relationship → Bool
check_name evidence relationship =
    not (is_contradicted evidence) && (not (is_type1 relationship) || is_not_assessed evidence)

-- `check_location` of a group's evidence; only a selected pair's may have the scope of a pair.
unfoldable pub check_location : LocationEvidence → Bool → Bool
check_location l selected =
    not (is_pair_scope l.scope) || (selected && is_text l.classification "relocated")

-- The branch on a group's correspondence status.
unfoldable pub check_status : Group → Correspondence → Bool
unfolding is_unclassified
check_status g selected_pair =
    (length g.original == 1)
    && ((length g.modified == 1)
        && ((is_pair_scope g.location.scope
              || (is_type1 g.relationship && is_unclassified g.location))
            && not (is_copy_reason g.reason || is_residual g.reason)))
check_status g unresolved_partners =
    is_type1 g.relationship
    && (is_group_scope g.location.scope
        && (is_residual g.reason || (ltb 1 (length g.original) || ltb 1 (length g.modified))))
check_status g copy_source_set =
    is_type1 g.relationship && (is_copy_reason g.reason && is_unassessed_scope g.location.scope)

abbrev pub same_flag : Bool → Bool → Bool
same_flag true b = b
same_flag false b = not b

-- The checks of one group, before its endpoints.
unfoldable pub check_group : Group → Bool
unfolding check_name check_location check_status
check_group g =
    check_name g.name_evidence g.relationship
    && (same_flag (is_copy g.status) (is_copy_reason g.reason)
        && ((not (is_exact_neighbor g.reason) || (is_type1 g.relationship && is_selected g.status))
            && (check_status g g.status && check_location g.location (is_selected g.status))))

-- `check_xpath`, with the prefixes that the document binds.
unfoldable pub check_xpath : Regex → List String → Endpoint → Bool
check_xpath regex bound e =
    all_of regex.is_name (regex.prefixes e.xpath)
    && all_of (λ prefix. member str_eq prefix bound) (regex.prefixes e.xpath)

-- The endpoints of one side: each candidate gets its one owner.
unfoldable pub own : Regex → List String → List ℕ → List Endpoint → Checked (List ℕ)
unfolding check_xpath
own regex bound owned [] = valid owned
own regex bound owned (e ∷ es) =
    let rest = own regex bound (e.candidate_id ∷ owned) es in
    if not (check_xpath regex bound e)
    then invalid "XPath uses an unbound namespace prefix"
    else if member ◌==◌ e.candidate_id owned
    then invalid "Candidate has multiple selected owners"
    else rest

-- The key of a selected pair: its candidates and the relationship.
pub record PairKey : Type 0 where
  pub original_candidate : ℕ
  pub modified_candidate : ℕ
  pub pair_relationship : Relationship

abbrev pub same_relationship : Relationship → Relationship → Bool
same_relationship type1 r = is_type1 r
same_relationship type2c type2c = true
same_relationship type2c type1 = false
same_relationship type2c type3 = false
same_relationship type3 type3 = true
same_relationship type3 type1 = false
same_relationship type3 type2c = false

abbrev pub same_key : PairKey → PairKey → Bool
same_key a b =
    (a.original_candidate == b.original_candidate)
    && ((a.modified_candidate == b.modified_candidate)
        && same_relationship a.pair_relationship b.pair_relationship)

abbrev pub first_pair : Relationship → List Endpoint → List Endpoint → List PairKey
first_pair r [] ys = []
first_pair r (x ∷ xs) [] = []
first_pair r (x ∷ xs) (y ∷ ys) =
    record {
      original_candidate = x.candidate_id;
      modified_candidate = y.candidate_id;
      pair_relationship = r;
    }
    ∷ []

-- The key that a group adds to `selected_pairs`.
unfoldable pub pair_keys : Group → List PairKey
pair_keys g = if is_selected g.status then first_pair g.relationship g.original g.modified else []

-- The loop over the groups, with the candidates that have an owner and the keys of selected pairs; it
-- gives the candidates.
unfoldable pub check_groups :
    Regex → List String → List ℕ → List PairKey → List Group → Checked (List ℕ)
unfolding check_group own pair_keys
check_groups regex bound owned pairs [] = valid owned
check_groups regex bound owned pairs (g ∷ gs) =
    if not (check_group g)
    then invalid "group evidence disagrees"
    else and_then (own regex bound owned g.original) (λ owned1.
      and_then (own regex bound owned1 g.modified) (λ owned2.
        let rest = check_groups regex bound owned2 (pair_keys g ++ pairs) gs in
        if any_of (λ key. member same_key key pairs) (pair_keys g)
        then invalid "Duplicate selected pair"
        else rest))
