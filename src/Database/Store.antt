-- ===== src/Database/Store.antt =====
-- The operations of `AnalysisDatabase`. Each runs in one transaction, so it gives the next state of the
-- database, or the reason for which it raises and leaves the database as it was.
use src_move.Common.{
  ℕ, ◌+◌, suc, Bool, true, false, ◌&&◌, ◌||◌, not, Option, none, some, List, [], ◌∷◌, map, String,
  length, ltb, ◌==◌, str_eq, if◌then◌else◌,
}
use src_move.Common.Checked.{Checked, valid, invalid}
use src_move.Contracts.{PairWorkItem, PairOutcome}
use src_move.Database.Compacting.{Files, compacted}
use src_move.Database.Rows.{
  Target, BatchStatus, batch_pending, batch_completed, InvocationResult, running, target_reached,
  target_reached_with_failures, run_failed, interrupted, Analysis, Manifest, Digests, StoredBatch,
  Seal, PairRow, Batch, Invocation, Database, last_commit, build_pair_work_items, pending_rows,
  is_valid_target,
}

-- The ValueErrors of these operations.
pub data Refusal : Type 0 where
  already_exhausted already_pending invalid_target invalid_jobs revision_changed wrong_boundary
        definition_drift constraint_failed no_running_invocation not_in_batch identity_drift
        already_sealed sequence_drift noncontiguous_prefix count_drift batch_incomplete
        batch_changed boundary_drift not_compacted :
      Refusal

pub data Result {ℓ} (A : Type ℓ) : Type ℓ where
  ok : A → Result A
  refused : Refusal → Result A

abbrev pub is_pending_status : BatchStatus → Bool
is_pending_status batch_pending = true
is_pending_status batch_completed = false

-- `pending_batch() is not None`
unfoldable pub has_pending : List Batch → Bool
has_pending [] = false
has_pending (b ∷ bs) = is_pending_status b.stored.status || has_pending bs

unfoldable pub has_batch : String → List Batch → Bool
has_batch id [] = false
has_batch id (b ∷ bs) = str_eq b.stored.batch_id id || has_batch id bs

-- UNIQUE of `pair_fingerprint` and of `distance_from_newest`: no row agrees in either.
clashes : PairRow → List PairRow → Bool
clashes row [] = false
clashes row (r ∷ rs) =
    str_eq row.pair_fingerprint r.pair_fingerprint
    || ((row.distance_from_newest == r.distance_from_newest) || clashes row rs)

clashes_any : PairRow → List Batch → Bool
unfolding clashes
clashes_any row [] = false
clashes_any row (b ∷ bs) = clashes row b.pairs || clashes_any row bs

-- Every inserted row is free of clashes, among themselves and with the rows of `bs`.
unfoldable pub inserts : List PairRow → List Batch → Bool
unfolding clashes clashes_any
inserts [] bs = true
inserts (row ∷ rows) bs = not (clashes row rows) && (not (clashes_any row bs) && inserts rows bs)

abbrev pub given_commit : Option String → String → String
given_commit none newest = newest
given_commit (some oldest) newest = oldest

-- `state.oldest_completed_commit or state.newest_commit`
unfoldable pub boundary : Analysis → String
boundary a = given_commit a.oldest_completed_commit a.newest_commit

-- The batch that `_insert_pending_batch` inserts.
unfoldable pub new_batch : Digests → Analysis → Manifest → String → Target → Bool → Batch
new_batch digests a m id target reaches_root =
    let pair_count = length m.newer in
    record {
      stored = record {
        batch_id = id;
        base_revision = a.revision;
        target = target;
        oldest_commit = m.oldest;
        newest_commit = last_commit m.oldest m.newer;
        pair_count = pair_count;
        reaches_root = reaches_root;
        status = batch_pending;
      };
      manifest = m;
      pairs = pending_rows a.completed_pair_count pair_count (build_pair_work_items digests m);
    }

abbrev pub put_batch : Database → Batch → Database
put_batch db b = record db {
  analysis = record db.analysis { revision = db.analysis.revision + 1 };
  batches = b ∷ db.batches;
}

-- `_insert_pending_batch`, with the revision that the caller expects.
unfoldable pub insert_pending_batch :
    Digests → Database → ℕ → Manifest → String → Target → Bool → Result Database
unfolding has_pending has_batch boundary new_batch inserts
insert_pending_batch digests db expected m id target reaches_root =
    let batch = new_batch digests db.analysis m id target reaches_root in
    if has_pending db.batches
    then refused already_pending
    else if not (is_valid_target target)
    then refused invalid_target
    else if not (db.analysis.revision == expected)
    then refused revision_changed
    else if not (str_eq (last_commit m.oldest m.newer) (boundary db.analysis))
    then refused wrong_boundary
    else if not (str_eq (digests.definition m) db.analysis.definition_sha256)
    then refused definition_drift
    else if not (ltb 0 (length m.newer)) || has_batch id db.batches
    then refused constraint_failed
    else if not (inserts batch.pairs db.batches)
    then refused constraint_failed
    else ok (put_batch db batch)

-- `add_pending_batch`
unfoldable pub add_pending_batch :
    Digests → Database → Manifest → String → Target → Bool → Result Database
unfolding insert_pending_batch
add_pending_batch digests db m id target reaches_root =
    if db.analysis.history_exhausted
    then refused already_exhausted
    else insert_pending_batch digests db db.analysis.revision m id target reaches_root

-- The database after the insertion of the singleton row.
abbrev pub empty_analysis : Digests → Manifest → Database
empty_analysis digests m = record {
  analysis = record {
    revision = 0;
    definition_sha256 = digests.definition m;
    newest_commit = last_commit m.oldest m.newer;
    oldest_completed_commit = none;
    completed_pair_count = 0;
    history_exhausted = false;
  };
  batches = [];
  invocations = [];
}

-- `create`: the singleton row and the first batch, in one transaction.
unfoldable pub create : Digests → Manifest → String → Target → Bool → Result Database
unfolding insert_pending_batch
create digests m id target reaches_root =
    insert_pending_batch digests (empty_analysis digests m) 0 m id target reaches_root

abbrev pub runs : InvocationResult → Bool
runs running = true
runs target_reached = false
runs target_reached_with_failures = false
runs run_failed = false
runs interrupted = false

unfoldable pub is_running : String → List Invocation → Bool
is_running id [] = false
is_running id (i ∷ is) = (str_eq i.invocation_id id && runs i.result) || is_running id is

-- The row of a batch with a sequence number.
unfoldable pub find_row : ℕ → List PairRow → Option PairRow
find_row sequence [] = none
find_row sequence (row ∷ rows) =
    let rest = find_row sequence rows in if row.batch_sequence == sequence then some row else rest

unfoldable pub find_pair : String → ℕ → List Batch → Option PairRow
unfolding find_row
find_pair id sequence [] = none
find_pair id sequence (b ∷ bs) =
    let rest = find_pair id sequence bs in
    if str_eq b.stored.batch_id id then find_row sequence b.pairs else rest

abbrev pub seal_option : Option Seal → Seal → Option Seal
seal_option none new = some new
seal_option (some old) new = some old

-- `UPDATE pairs SET ... WHERE batch_id = ? AND batch_sequence = ? AND status IS NULL`
unfoldable pub seal_row : ℕ → Seal → PairRow → PairRow
seal_row sequence new row = record row {
  sealed = if row.batch_sequence == sequence then seal_option row.sealed new else row.sealed;
}

unfoldable pub seal_batch : String → ℕ → Seal → Batch → Batch
unfolding seal_row
seal_batch id sequence new b = record b {
  pairs = if str_eq b.stored.batch_id id then map (seal_row sequence new) b.pairs else b.pairs;
}

unfoldable pub same_identity : PairRow → PairWorkItem → Bool
same_identity row item =
    str_eq item.old_commit row.old_commit
    && (str_eq item.new_commit row.new_commit && str_eq item.fingerprint row.pair_fingerprint)

abbrev pub sealed_in : Database → String → Seal → Database
sealed_in db id new = record db {
  batches = map (seal_batch id new.outcome.work_item.sequence new) db.batches;
}

abbrev pub seal_if_open : Database → String → Seal → Option Seal → Result Database
seal_if_open db id new (some old) = refused already_sealed
seal_if_open db id new none = ok (sealed_in db id new)

unfoldable pub seal_found : Database → String → Seal → Option PairRow → Result Database
unfolding same_identity
seal_found db id new none = refused not_in_batch
seal_found db id new (some row) =
    if not (same_identity row new.outcome.work_item)
    then refused identity_drift
    else seal_if_open db id new row.sealed

abbrev pub when_compacted {ℓ} : {A : Type ℓ} → Checked A → Result Database → Result Database
when_compacted (invalid message) next = refused not_compacted
when_compacted (valid compact) next = next

-- `record_outcome`, with the files that compaction reads. Of the outcome that it stores, the model keeps
-- the whole instead of its compact form; its time stamps are not kept.
unfoldable pub record_outcome :
    Files → Database → StoredBatch → PairOutcome → String → Result Database
unfolding compacted is_running find_pair seal_found
record_outcome files db batch outcome invocation_id = when_compacted (compacted files outcome) (
    if not (is_running invocation_id db.invocations)
    then refused no_running_invocation
    else seal_found db batch.batch_id (record { invocation_id = invocation_id; outcome = outcome })
        (find_pair batch.batch_id outcome.work_item.sequence db.batches))

abbrev pub by_seal : Option Seal → Bool → Result ℕ → Result ℕ → Result ℕ
by_seal none found open_row sealed_row = open_row
by_seal (some s) true open_row sealed_row = refused noncontiguous_prefix
by_seal (some s) false open_row sealed_row = sealed_row

-- The loop of `completed_prefix` over the rows, with `expected`, `found_pending` and `prefix`.
unfoldable pub prefix_of : ℕ → Bool → ℕ → List PairRow → Result ℕ
prefix_of expected found_pending prefix [] = ok prefix
prefix_of expected found_pending prefix (row ∷ rows) =
    let open_row = prefix_of (suc expected) true prefix rows in
    let sealed_row = prefix_of (suc expected) found_pending (suc prefix) rows in
    if not (row.batch_sequence == expected)
    then refused sequence_drift
    else by_seal row.sealed found_pending open_row sealed_row
