-- ===== src/Results/Thresholds.antt =====
-- The Type-3 correspondences of a document that passes are the comparisons that pass the threshold.
use src_move.Common.{
  ℕ, ◌≤◌, ◌≡◌, ◌↔◌, refl, sym, subst, ◌∙◌, Bool, true, false, not, ◌&&◌, Option, none, some, List,
  [], ◌∷◌, String, str_eq, ◌==◌, ==_iff, if◌then◌else◌, map, All, arith, Bool-cases, inl, inr,
}
use src_move.Common.Checked.{
  valid, and_then_lem, past_guard, true_of_not, both, all_of, filter, valid_inj,
}
use src_move.Common.Occurrences.{
  if_le_one, member, distinct, subset, disjoint, occurrences, occurrences_of_distinct,
  occurrences_of_same,
}
use src_move.Results.Comparisons.{
  Candidate, VerificationStatus, not_evaluated, below_threshold, verified, Comparison,
  Type3Correspondence, CandidatePair, same_pair, is_evaluated, is_verified, threshold_passed,
  agrees, check_record, check_candidates, check_both, pair_of, check_comparison, check_comparisons,
  correspondence_pair, original_degree, modified_degree, check_correspondences, check_type3,
}

-- An evaluated comparison that reaches nine tenths of the lines or of the tokens.
abbrev pub passes : Comparison → Bool
passes c = is_evaluated c.status && threshold_passed c

abbrev pub passing_pairs : List Comparison → List CandidatePair
passing_pairs comparisons = map pair_of (filter passes comparisons)

same_pair_iff : (x y : CandidatePair) → (same_pair x y ≡ true) ↔ (x ≡ y)
same_pair_iff (a, b) (c, d) = (λ h. ground (arith, h), λ e. ground (arith, e))

agrees_lem :
    (s : VerificationStatus) (p : Bool) → agrees s p ≡ true → is_verified s ≡ (is_evaluated s && p)
agrees_lem not_evaluated p h = refl
agrees_lem below_threshold p h = ground (arith, h)
agrees_lem verified p h = sym h

candidates_agree :
    (a b : Candidate) (g : Option String) (c : Comparison)
    → check_candidates a b g c ≡ true
    → is_verified c.status ≡ passes c
unfolding check_candidates
candidates_agree a b g c h =
    agrees_lem c.status (threshold_passed c)
      (both (check_record a b g c) (agrees c.status (threshold_passed c)) h).1

found_agree :
    (a b : Option Candidate) (g : Option String) (c : Comparison)
    → check_both a b g c ≡ true
    → is_verified c.status ≡ passes c
found_agree none b g c h = cc
found_agree (some a) none g c h = cc
found_agree (some a) (some b) g c h = candidates_agree a b g c h

disjoint-cons :
    (x : CandidatePair) (ys zs : List CandidatePair)
    → disjoint same_pair ys (x ∷ zs) ≡ true
    → (member same_pair x ys ≡ false) × (disjoint same_pair ys zs ≡ true)
disjoint-cons x [] zs h = (refl, refl)
disjoint-cons (a, b) ((c, d) ∷ ys) zs h =
    let (m, r) = disjoint-cons (a, b) ys zs (ground (arith, h)) in
    (ground (arith, h, m), ground (arith, h, r))

member-filter :
    (x : CandidatePair) (cs : List Comparison)
    → member same_pair x (map pair_of cs) ≡ false
    → member same_pair x (passing_pairs cs) ≡ false
member-filter x [] h = refl
member-filter x (c ∷ cs) h = elim (Bool-cases (passes c)) [
  | inl t ↦ rw t (ground (arith, h, member-filter x cs))
  | inr f ↦ rw f (member-filter x cs (ground (arith, h)))
]

distinct-filter :
    (cs : List Comparison)
    → distinct same_pair (map pair_of cs) ≡ true
    → distinct same_pair (passing_pairs cs) ≡ true
distinct-filter [] h = refl
distinct-filter (c ∷ cs) h =
    let rest = distinct-filter cs (ground (arith, h)) in
    elim (Bool-cases (passes c)) [
      | inl t ↦ rw t (ground (arith, h, rest, member-filter (pair_of c) cs))
      | inr f ↦ rw f rest
    ]

module _ (candidate : ℕ → Option Candidate) (selected_pair : CandidatePair → Option String) where
  -- What the loop says of the comparisons that it has passed.
  record Compared (compared : List CandidatePair) (cs : List Comparison)
      (pairs : List CandidatePair) : Type 0 where
    result : pairs ≡ passing_pairs cs
    once : distinct same_pair (map pair_of cs) ≡ true
    apart : disjoint same_pair (map pair_of cs) compared ≡ true

  comparisons-Compared :
      (compared : List CandidatePair) (cs : List Comparison) (pairs : List CandidatePair)
      → check_comparisons candidate selected_pair compared cs ≡ valid pairs
      → Compared compared cs pairs
  unfolding check_comparisons
  comparisons-Compared compared [] pairs h = record {
    result = sym (valid_inj h);
    once = refl;
    apart = refl;
  }
  comparisons-Compared compared (c ∷ cs) pairs h =
      let (ok, h1) =
        past_guard (not (check_comparison candidate selected_pair c)) "Type-3 comparison disagrees"
          _ pairs h in
      let (fresh, h2) =
        past_guard (member same_pair (pair_of c) compared) "Duplicate Type-3 comparison endpoints" _
          pairs h1 in
      let (found, e, h3) =
        and_then_lem (check_comparisons candidate selected_pair (pair_of c ∷ compared) cs) _ pairs
          h2 in
      let rest = comparisons-Compared (pair_of c ∷ compared) cs found e in
      let (new, others) = disjoint-cons (pair_of c) (map pair_of cs) compared rest.apart in
      let same =
        found_agree (candidate c.original_candidate_id) (candidate c.modified_candidate_id)
          (selected_pair (pair_of c)) c (true_of_not _ ok) in
      record {
        result = sym (valid_inj h3) ∙ rw (same, rest.result) (pushed c cs (passes c) refl);
        once = ground (arith, new, rest.once);
        apart = ground (arith, fresh, others);
      }
    where
      pushed :
          (c : Comparison) (cs : List Comparison) (b : Bool)
          → passes c ≡ b
          → (if b then pair_of c ∷ passing_pairs cs else passing_pairs cs) ≡ passing_pairs (c ∷ cs)
      pushed c cs true e = rw e refl
      pushed c cs false e = rw e refl

-- The partner counts of a record are its degrees among the pairs.
abbrev pub HasDegrees : List CandidatePair → Type3Correspondence → Type 0
HasDegrees pairs r =
    (r.original_partners ≡ original_degree r.original_candidate_id pairs)
    × (r.modified_partners ≡ modified_degree r.modified_candidate_id pairs)

degrees_of :
    (pairs : List CandidatePair) (records : List Type3Correspondence)
    → all_of
        (λ r.
          (r.original_partners == original_degree r.original_candidate_id pairs)
          && (r.modified_partners == modified_degree r.modified_candidate_id pairs))
        records
      ≡ true
    → All (HasDegrees pairs) records
degrees_of pairs [] h = tt
degrees_of pairs (r ∷ records) h =
    let m = original_degree r.original_candidate_id pairs in
    let n = modified_degree r.modified_candidate_id pairs in
    let (here, rest) = both ((r.original_partners == m) && (r.modified_partners == n)) _ h in
    let (a, b) = both (r.original_partners == m) (r.modified_partners == n) here in
    (
      ((==_iff r.original_partners m).0 a, (==_iff r.modified_partners n).0 b),
      degrees_of pairs records rest,
    )

-- The consistency of the Type-3 part of the diagnostics.
pub record IsType3Consistent (comparisons : List Comparison) (records : List Type3Correspondence)
    : Type 0 where
  pub compared_once : (p : CandidatePair) → occurrences same_pair p (map pair_of comparisons) ≤ 1
  pub classified :
      (p : CandidatePair)
      → occurrences same_pair p (map correspondence_pair records)
        ≡ occurrences same_pair p (passing_pairs comparisons)
  pub partners : All (HasDegrees (passing_pairs comparisons)) records

correspondences-IsType3Consistent :
    (comparisons : List Comparison) (records : List Type3Correspondence)
    → distinct same_pair (map pair_of comparisons) ≡ true
    → check_correspondences (passing_pairs comparisons) records ≡ valid tt
    → IsType3Consistent comparisons records
unfolding check_correspondences
correspondences-IsType3Consistent comparisons records once h =
    let pairs = map correspondence_pair records in
    let passing = passing_pairs comparisons in
    let same =
      distinct same_pair pairs
      && (subset same_pair pairs passing && subset same_pair passing pairs) in
    let (ok, h1) =
      past_guard (not same) "Verified Type-3 comparisons and classified correspondences differ" _ tt
        h in
    let (counted, h2) =
      past_guard
        (not (
          all_of
            (λ r.
              (r.original_partners == original_degree r.original_candidate_id passing)
              && (r.modified_partners == modified_degree r.modified_candidate_id passing))
            records))
        "Type-3 verified partner counts differ from verified-edge degrees" _ tt h1 in
    let (d, both_ways) =
      both (distinct same_pair pairs)
        (subset same_pair pairs passing && subset same_pair passing pairs) (true_of_not same ok) in
    let (s, t) = both (subset same_pair pairs passing) (subset same_pair passing pairs) both_ways in
    record {
      compared_once = λ p. omega (
        arith,
        occurrences_of_distinct same_pair same_pair_iff p (map pair_of comparisons) once,
        if_le_one (member same_pair p (map pair_of comparisons)),
      );
      classified = λ p.
          occurrences_of_same same_pair same_pair_iff p pairs passing d
            (distinct-filter comparisons once) s t;
      partners = degrees_of passing records (true_of_not _ counted);
    }

-- When the Type-3 part of a document's diagnostics passes its checks: a pair of candidates is compared at
-- most once; the pairs of the Type-3 correspondences are, each once, those of the evaluated comparisons
-- whose common lines or tokens reach nine tenths of a maximum that is not 0; and the partner counts of a
-- correspondence are the numbers of such comparisons of each of its candidates.
pub check_type3-IsType3Consistent :
    (candidate : ℕ → Option Candidate) (selected_pair : CandidatePair → Option String)
    (comparisons : List Comparison) (records : List Type3Correspondence)
    → check_type3 candidate selected_pair comparisons records ≡ valid tt
    → IsType3Consistent comparisons records
unfolding check_type3
check_type3-IsType3Consistent candidate selected_pair comparisons records h =
    let (ids, h1) =
      past_guard (not (distinct str_eq (map (λ (c : Comparison). c.id) comparisons)))
        "Duplicate Type-3 comparison ID" _ tt h in
    let (pairs, e, h2) =
      and_then_lem (check_comparisons candidate selected_pair [] comparisons) _ tt h1 in
    let c = comparisons-Compared candidate selected_pair [] comparisons pairs e in
    correspondences-IsType3Consistent comparisons records c.once
      (subst (λ ps. check_correspondences ps records ≡ valid tt) c.result h2)
