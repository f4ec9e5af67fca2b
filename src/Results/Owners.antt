-- ===== src/Results/Owners.antt =====
-- The walk over the groups gives every candidate one owner.
use src_move.Common.{
  ℕ, ◌+◌, ◌≡◌, true, not, List, [], ◌∷◌, ◌++◌, map, String, length, arith, ==_iff, ◌==◌,
  if◌then◌else◌, length-append,
}
use src_move.Common.Occurrences.{member, distinct, occurrences, occurrences-append}
use src_move.Results.Document.{Endpoint, Group}
use src_move.Common.Checked.{valid, invalid, and_then, any_of, and_then_lem, past_guard}
use src_move.Results.Groups.{Regex, PairKey, same_key, own, check_groups, check_group, pair_keys}

abbrev pub candidates : List Endpoint → List ℕ
candidates es = map (λ (e : Endpoint). e.candidate_id) es

-- The candidates of all endpoints of all groups.
unfoldable pub all_candidates : List Group → List ℕ
all_candidates [] = []
all_candidates (g ∷ gs) = candidates g.original ++ (candidates g.modified ++ all_candidates gs)

-- What a walk over endpoints adds to the owned candidates, which stay without repetition.
pub record Owns (before added after : List ℕ) : Type 0 where
  pub unrepeated : distinct ◌==◌ before ≡ true → distinct ◌==◌ after ≡ true
  pub grows :
      (q : ℕ) → occurrences ◌==◌ q after ≡ occurrences ◌==◌ q added + occurrences ◌==◌ q before
  pub size : length after ≡ length added + length before

own-Owns :
    (regex : Regex) (bound : List String) (owned : List ℕ) (es : List Endpoint) (after : List ℕ)
    → own regex bound owned es ≡ valid after
    → Owns owned (candidates es) after
unfolding own
own-Owns regex bound owned [] after h = record {
  unrepeated = λ d. ground arith;
  grows = λ q. ground arith;
  size = ground arith;
}
own-Owns regex bound owned (e ∷ es) after h =
    let rest = own-Owns regex bound (e.candidate_id ∷ owned) es after (ground arith) in
    record {
      unrepeated = λ d. rest.unrepeated (ground arith);
      grows = λ q. omega (arith, rest.grows q);
      size = omega (arith, rest.size);
    }

pub check_groups-Owns :
    (regex : Regex) (bound : List String) (owned : List ℕ) (pairs : List PairKey) (gs : List Group)
    (after : List ℕ)
    → check_groups regex bound owned pairs gs ≡ valid after
    → Owns owned (all_candidates gs) after
unfolding check_groups all_candidates
check_groups-Owns regex bound owned pairs [] after h = record {
  unrepeated = λ d. ground arith;
  grows = λ q. ground arith;
  size = ground arith;
}
check_groups-Owns regex bound owned pairs (g ∷ gs) after h =
    let walk : and_then (own regex bound owned g.original) (λ owned1.
      and_then (own regex bound owned1 g.modified) (λ owned2.
        if any_of (λ key. member same_key key pairs) (pair_keys g)
        then invalid "Duplicate selected pair"
        else check_groups regex bound owned2 (pair_keys g ++ pairs) gs))
        ≡ valid after =
      (past_guard (not (check_group g)) "group evidence disagrees" _ after h).1 in
    let (owned1, e1, h1) = and_then_lem (own regex bound owned g.original) _ after walk in
    let (owned2, e2, h2) = and_then_lem (own regex bound owned1 g.modified) _ after h1 in
    let a = own-Owns regex bound owned g.original owned1 e1 in
    let b = own-Owns regex bound owned1 g.modified owned2 e2 in
    let rest =
      check_groups-Owns regex bound owned2 (pair_keys g ++ pairs) gs after
        (past_guard (any_of (λ key. member same_key key pairs) (pair_keys g))
          "Duplicate selected pair" _ after h2).1 in
    record {
      unrepeated = λ d. rest.unrepeated (b.unrepeated (a.unrepeated d));
      grows = λ q. omega (
        arith,
        a.grows q,
        b.grows q,
        rest.grows q,
        occurrences-append ◌==◌ ==_iff q (candidates g.original)
            (candidates g.modified ++ all_candidates gs),
        occurrences-append ◌==◌ ==_iff q (candidates g.modified) (all_candidates gs),
      );
      size = omega (
        arith,
        a.size,
        b.size,
        rest.size,
        length-append (candidates g.original) (candidates g.modified ++ all_candidates gs),
        length-append (candidates g.modified) (all_candidates gs),
      );
    }
