-- ===== src/Git/History.antt =====
-- The selection of a first-parent history. `chain` is what `git rev-list --first-parent` prints for the
-- resolved start, the newest commit first; with `--max-count` it prints the beginning of this. The
-- checks of the arguments and of a shallow repository, which come before, are left out.
use src_move.Common.{
  ℕ, suc, ◌+◌, ◌-◌, Bool, true, false, not, Option, none, some, List, [], ◌∷◌, String, length, take,
  get_elem?, leb, ltb, ◌==◌, str_eq, if◌then◌else◌,
}
use mathlib.Core.List.{reverse}
use src_move.Common.Checked.{Checked, valid, invalid}

-- `FirstParentHistory`
pub record FirstParentHistory : Type 0 where
  pub resolved_start : String
  pub commits : List String
  pub history_exhausted : Bool

-- `git rev-list --first-parent --max-count=...`
abbrev pub rev_list : Option ℕ → List String → List String
rev_list none chain = chain
rev_list (some maximum) chain = take maximum chain

abbrev pub of_newest_first : String → ℕ → List String → Checked FirstParentHistory
of_newest_first resolved pair_count [] = invalid "Git returned no commits for the selected history"
of_newest_first resolved pair_count (c ∷ cs) = valid (record {
  resolved_start = resolved;
  commits = reverse (take (pair_count + 1) (c ∷ cs));
  history_exhausted = leb (length (c ∷ cs)) (pair_count + 1);
})

abbrev pub of_whole : String → List String → Checked FirstParentHistory
of_whole resolved [] = invalid "Git returned no commits for the selected history"
of_whole resolved (c ∷ cs) =
    valid
      (record { resolved_start = resolved; commits = reverse (c ∷ cs); history_exhausted = true })

-- `select_older_first_parent_history` with a pair count, or without a limit.
unfoldable pub select_older : String → Option ℕ → List String → Checked FirstParentHistory
select_older resolved none chain = of_whole resolved (rev_list none chain)
select_older resolved (some pair_count) chain =
    if not (ltb 0 pair_count)
    then invalid "commit pair count must be positive"
    else of_newest_first resolved pair_count (rev_list (some (pair_count + 2)) chain)

-- `newest_first.index(...)`
unfoldable pub index_of : String → List String → Option ℕ
index_of commit [] = none
index_of commit (c ∷ cs) =
    let rest = later (index_of commit cs) in if str_eq c commit then some 0 else rest
  where
    later : Option ℕ → Option ℕ
    later none = none
    later (some k) = some (suc k)

abbrev pub through_index : String → List String → Option ℕ → Checked FirstParentHistory
through_index resolved chain none =
    invalid "through commit is not on the frozen first-parent history"
through_index resolved chain (some k) = valid (record {
  resolved_start = resolved;
  commits = reverse (take (k + 1) chain);
  history_exhausted = k == length chain - 1;
})

-- `select_older_first_parent_history` with a commit to go through.
unfoldable pub select_through : String → String → List String → Checked FirstParentHistory
unfolding index_of
select_through resolved through chain = through_index resolved chain (index_of through chain)

abbrev pub is_commit : String → Option String → Bool
is_commit through none = false
is_commit through (some c) = str_eq c through

-- `first_parent_distance`; `count` is what `rev-list --count` prints, and `--skip` gives the commit
-- after so many.
unfoldable pub first_parent_distance : ℕ → String → List String → Checked ℕ
first_parent_distance count through chain =
    if is_commit through (get_elem? chain count)
    then valid count
    else invalid "through commit is not on the frozen first-parent history"
