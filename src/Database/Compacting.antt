-- ===== src/Database/Compacting.antt =====
-- What the publication of an outcome asks of compact.py: the files that it reads back, and the refusal of
-- `compact_pair_outcome`, with which `record_outcome` raises before it looks at the database. The metrics
-- and timings of an outcome hold no floats here, so that their checks have nothing to refuse.
use src_move.Common.{ℕ, ◌≡◌, List, [], ◌∷◌, String}
use src_move.Common.Checked.{Checked, valid}
use src_move.Contracts.{Scalar, PairWorkItem, PairOutcome}
use src_move.Execution.Evidence.{CompactPair, compact_pair_outcome}

-- The files, hashlib, and the reduction of a results document, of which only the refusal is kept.
pub record Files : Type 0 where
  pub read_file : String → Checked (List ℕ)
  pub digest : List ℕ → String
  pub compact_results : List ℕ → List (String × Scalar) → Checked (Unit {0})

unfoldable pub compacted :
    (files : Files)
    → PairOutcome
    → Checked (CompactPair files.read_file files.digest files.compact_results)
unfolding compact_pair_outcome
compacted files outcome =
    compact_pair_outcome files.read_file files.digest files.compact_results outcome

-- Compaction does not refuse the outcome.
abbrev pub Compacts : Files → PairOutcome → Type 0
Compacts files outcome =
    (c : CompactPair files.read_file files.digest files.compact_results) × (compacted files outcome
      ≡ valid c)

-- Each of these outcomes, with the files that are there when it is published.
abbrev pub EachCompacts : (PairWorkItem → Files) → List PairOutcome → Type 0
EachCompacts files [] = Unit
EachCompacts files (outcome ∷ outcomes) =
    Compacts (files outcome.work_item) outcome × EachCompacts files outcomes
