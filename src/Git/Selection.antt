-- ===== src/Git/Selection.antt =====
-- The bounded selection is the beginning of the whole history, and the two ways to reach a commit agree.
use src_move.Common.{
  take-take, ℕ, zero, suc, ◌+◌, ◌-◌, ◌<◌, ◌≡◌, refl, ap, ◌∙◌, true, Option, none, some, List, [],
  ◌∷◌, String, arith, length, take, length-take, get_elem?, get_elem?-lt, leb, ◌==◌, str_eq, eq_iff,
  if◌then◌else◌, Bool-cases, inl, inr,
}
use mathlib.Core.List.{reverse}
use src_move.Common.Checked.{valid, invalid}
use src_move.Common.Occurrences.{member, distinct}
use src_move.Git.History.{
  FirstParentHistory, of_newest_first, select_older, index_of, select_through, is_commit,
  first_parent_distance,
}

-- The beginning of a history, and whether the history ends with it.
abbrev pub beginning : String → ℕ → List String → FirstParentHistory
beginning resolved pair_count chain = record {
  resolved_start = resolved;
  commits = reverse (take (pair_count + 1) chain);
  history_exhausted = leb (length chain) (pair_count + 1);
}

cut_history : String → ℕ → List String → FirstParentHistory
cut_history resolved n xs = record {
  resolved_start = resolved;
  commits = reverse (take (n + 1) xs);
  history_exhausted = leb (length xs) (n + 1);
}

of_newest_first-cut :
    (resolved : String) (n : ℕ) (xs : List String)
    → 0 < length xs
    → of_newest_first resolved n xs ≡ valid (cut_history resolved n xs)
unfolding cut_history
of_newest_first-cut resolved n [] h = absurd (omega arith)
of_newest_first-cut resolved n (x ∷ xs) h = refl

cut-beginning :
    (resolved : String) (n : ℕ) (chain : List String)
    → cut_history resolved n (take (n + 2) chain) ≡ beginning resolved n chain
unfolding cut_history
cut-beginning resolved n chain =
    let same : leb (length (take (n + 2) chain)) (n + 1) ≡ leb (length chain) (n + 1) =
      ground (arith, length-take (n + 2) chain) in
    rw (take-take (n + 1) (n + 2) chain (omega arith), same) refl

-- For a positive pair count, reading two commits more than the count from git gives what the whole
-- history gives: its beginning of one commit more than the count, and that the history is exhausted
-- exactly when it has no more commits than these.
pub select_older-beginning :
    (resolved : String) (n : ℕ) (chain : List String)
    → 0 < n
    → 0 < length chain
    → select_older resolved (some n) chain ≡ valid (beginning resolved n chain)
unfolding select_older
select_older-beginning resolved n chain positive h =
    let size : 0 < length (take (n + 2) chain) = omega (arith, length-take (n + 2) chain) in
    let found =
      of_newest_first-cut resolved n (take (n + 2) chain) size
      ∙ ap valid (cut-beginning resolved n chain) in
    ground (arith, found)

member_of_get :
    (x : String) (d : ℕ) (cs : List String) → get_elem? cs d ≡ some x → member str_eq x cs ≡ true
member_of_get x d [] h = cc
member_of_get x zero (c ∷ cs) h = ground (arith, eq_iff x c, h)
member_of_get x (suc d) (c ∷ cs) h = ground (arith, member_of_get x d cs h)

-- A commit that is found by its position in a chain without repetition has that index.
index_of-position :
    (through : String) (d : ℕ) (chain : List String)
    → distinct str_eq chain ≡ true
    → get_elem? chain d ≡ some through
    → index_of through chain ≡ some d
unfolding index_of
index_of-position through d [] u h = cc
index_of-position through zero (c ∷ cs) u h = ground (arith, eq_iff c through, h)
index_of-position through (suc d) (c ∷ cs) u h =
    let rest = index_of-position through d cs (ground (arith, u)) h in
    let there = member_of_get through d cs h in
    elim (Bool-cases (str_eq c through)) [
      | inl same ↦
          let e = (eq_iff c through).0 same in
          absurd (ground (arith, u, ap (λ x. member str_eq x cs) e, there))
      | inr differs ↦ rw (differs, rest) refl
    ]

distance_lem :
    (count : ℕ) (through : String) (o : Option String) (d : ℕ)
    → (if is_commit through o
        then valid count
        else invalid "through commit is not on the frozen first-parent history")
      ≡ valid d
    → (count ≡ d) × (o ≡ some through)
distance_lem count through none d h = cc
distance_lem count through (some c) d h = (ground arith, ground (arith, eq_iff c through))

-- In a chain without repetition, when the distance to a commit is found and is positive, selecting as
-- many pairs as this distance gives the same history as selecting through that commit.
pub distance-selections :
    (resolved : String) (count : ℕ) (through : String) (chain : List String) (d : ℕ)
    → distinct str_eq chain ≡ true
    → first_parent_distance count through chain ≡ valid d
    → 0 < d
    → select_older resolved (some d) chain ≡ select_through resolved through chain
unfolding first_parent_distance select_through
distance-selections resolved count through chain d u h positive =
    let (e, at) = distance_lem count through (get_elem? chain count) d h in
    let at' : get_elem? chain d ≡ some through = rw (← e) at in
    let size = get_elem?-lt d chain at' in
    let last : leb (length chain) (d + 1) ≡ (d == length chain - 1) = ground (arith, size) in
    rw
      (
        index_of-position through d chain u at',
        select_older-beginning resolved d chain positive (omega (arith, size)),
        last,
      )
      refl
