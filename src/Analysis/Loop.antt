-- ===== src/Analysis/Loop.antt =====
-- The loop of `_advance_analysis`: it plans batches at the oldest completed commit, executes and commits
-- them, until the history is exhausted or the desired total is reached, or one of its calls
-- raises. The desired total is the same in each turn.
use src_move.Common.{
  ℕ, zero, suc, ◌+◌, ◌≡◌, refl, ap, Bool, Option, none, some, List, [], ◌∷◌, String, length,
}
use src_move.Common.Checked.{Checked, valid, invalid, and_then}
use src_move.Database.Rows.{Target, Analysis, Manifest, Digests, Database, StoredBatch}
use src_move.Database.Store.{ok, boundary, add_pending_batch}
use src_move.Database.Invariant.Reached.{add-Planned}
use src_move.Database.Commit.{committed}
use src_move.Git.History.{select_older}
use src_move.Analysis.Advance.{Turn, executes, leaves, plans, target_too_small, next_turn}

-- What the loop reads of a pending batch.
pub record Planned : Type 0 where
  pub oldest_commit : String
  pub pair_count : ℕ
  pub reaches_root : Bool

-- The stored analysis and its pending batch, which the loop reads anew in every turn.
pub record LoopState : Type 0 where
  pub analysis : Analysis
  pub pending : Option Planned

-- The batch of a selected history: `add_pending_batch` takes the first commit as the oldest.
unfoldable pub planned : Bool → List String → Checked Planned
planned reaches_root [] =
    invalid "repository has no older adjacent commit pair at the analysis frontier"
planned reaches_root (c ∷ []) =
    invalid "repository has no older adjacent commit pair at the analysis frontier"
planned reaches_root (oldest ∷ c ∷ cs) =
    valid
      (record { oldest_commit = oldest; pair_count = suc (length cs); reaches_root = reaches_root })

-- What a commit of the batch makes of the stored analysis.
unfoldable pub committed_analysis : Analysis → Planned → Analysis
committed_analysis a b = record a {
  revision = a.revision + 1;
  oldest_completed_commit = some b.oldest_commit;
  completed_pair_count = a.completed_pair_count + b.pair_count;
  history_exhausted = b.reaches_root;
}

abbrev pub planned_of : StoredBatch → Planned
planned_of b = record {
  oldest_commit = b.oldest_commit;
  pair_count = b.pair_count;
  reaches_root = b.reaches_root;
}

-- This is what the transaction does.
committed-committed_analysis :
    (db : Database) (batch : StoredBatch)
    → (committed db batch).analysis ≡ committed_analysis db.analysis (planned_of batch)
unfolding committed committed_analysis
committed-committed_analysis db batch = refl

-- What the transaction of `add_pending_batch` makes of it.
added-analysis :
    (digests : Digests) (db : Database) (m : Manifest) (id : String) (target : Target)
    (reaches_root : Bool) (db' : Database)
    → add_pending_batch digests db m id target reaches_root ≡ ok db'
    → db'.analysis ≡ record db.analysis { revision = db.analysis.revision + 1 }
added-analysis digests db m id target reaches_root db' e =
    ap (λ (d : Database). d.analysis) (add-Planned digests db m id target reaches_root db' e).result

pub data LoopTurn : Type 0 where
  stops : LoopTurn
  goes_on : LoopState → LoopTurn
  raises : String → LoopTurn

pub data LoopEnd : Type 0 where
  ended : LoopState → LoopEnd
  failed : String → LoopEnd
  out_of_fuel : LoopEnd

-- What a turn leads to, with the rest of the loop.
abbrev pub follow : (LoopState → LoopEnd) → LoopState → LoopTurn → LoopEnd
follow rest s stops = ended s
follow rest s (raises message) = failed message
follow rest s (goes_on next) = rest next

abbrev pub pending_pairs : Option Planned → Option ℕ
pending_pairs none = none
pending_pairs (some b) = some b.pair_count

-- What the turns call, as far as it decides on how the loop goes on: whether the verification of what the
-- caller supplies and the finding of the desired total return; what git lists from a commit; and
-- whether `freeze_analysis_inputs` accepts the selected commits, `add_pending_batch` and
-- `commit_pending_batch` a batch in the database as it is at that revision, and whether
-- `_execute_pending_batch` returns, or the message with which they raise.
pub record Calls : Type 0 where
  pub verify : Analysis → Checked (Unit {0})
  pub history_of : String → List String
  pub freeze : Analysis → List String → Checked (Unit {0})
  pub add : Analysis → Planned → Checked (Unit {0})
  pub execute : Analysis → Planned → Checked (Unit {0})
  pub commit : Analysis → Planned → Checked (Unit {0})

abbrev pub if_verified : Checked (Unit {0}) → LoopTurn → LoopTurn
if_verified (invalid message) turn = raises message
if_verified (valid u) turn = turn

module _ (calls : Calls) (desired : Option ℕ) where
  -- `_plan_next_batch` and the test of its commits.
  unfoldable pub plan_next_batch : Analysis → ℕ → Checked Planned
  unfolding select_older boundary planned
  plan_next_batch a size =
      and_then (select_older (boundary a) (some size) (calls.history_of (boundary a))) (λ history.
        and_then (calls.freeze a history.commits)
          (λ u. planned history.history_exhausted history.commits))

  abbrev pub after_add : Analysis → Planned → Checked (Unit {0}) → LoopTurn
  after_add a b (invalid message) = raises message
  after_add a b (valid u) =
      goes_on (record { analysis = record a { revision = a.revision + 1 }; pending = some b })

  abbrev pub after_plan : Analysis → Checked Planned → LoopTurn
  after_plan a (invalid message) = raises message
  after_plan a (valid b) = after_add a b (calls.add a b)

  abbrev pub after_commit : Analysis → Planned → Checked (Unit {0}) → LoopTurn
  after_commit a b (invalid message) = raises message
  after_commit a b (valid u) =
      goes_on (record { analysis = committed_analysis a b; pending = none })

  abbrev pub after_execution : Analysis → Planned → Checked (Unit {0}) → LoopTurn
  after_execution a b (invalid message) = raises message
  after_execution a b (valid u) = after_commit a b (calls.commit a b)

  abbrev pub after_turn : Analysis → Option Planned → Turn → LoopTurn
  after_turn a pending (target_too_small total) =
      raises "requested target is smaller than frozen pending work"
  after_turn a (some b) executes = after_execution a b (calls.execute a b)
  after_turn a none executes = raises "no pending batch"
  after_turn a pending leaves = stops
  after_turn a pending (plans size) = after_plan a (plan_next_batch a size)

  -- One turn.
  unfoldable pub one_turn : LoopState → LoopTurn
  unfolding next_turn plan_next_batch committed_analysis
  one_turn s =
      if_verified (calls.verify s.analysis)
        (after_turn s.analysis s.pending (next_turn s.analysis desired (pending_pairs s.pending)))

  -- `while True:`
  unfoldable pub run_loop : ℕ → LoopState → LoopEnd
  unfolding one_turn
  run_loop zero s = out_of_fuel
  run_loop (suc fuel) s = follow (λ next. run_loop fuel next) s (one_turn s)
