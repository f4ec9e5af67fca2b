-- ===== src/Database/Commit.antt =====
-- `completed_prefix`, `pending_manifest` and `commit_pending_batch` of `AnalysisDatabase`, and the
-- invocations around them.
use src_move.Common.{
  ltb, ℕ, ◌+◌, Bool, true, false, ◌&&◌, ◌||◌, not, Option, none, some, List, [], ◌∷◌, map, String,
  length, ◌==◌, str_eq, if◌then◌else◌,
}
use src_move.Contracts.{PairWorkItem}
use src_move.Database.Rows.{
  is_valid_target, Target, total_pairs, through, all_history, batch_completed, InvocationResult,
  running, interrupted, Manifest, Digests, StoredBatch, PairRow, Batch, Invocation, Database,
  last_commit, build_pair_work_items,
}
use src_move.Database.Store.{
  invalid_target, invalid_jobs, Result, ok, refused, count_drift, batch_incomplete, batch_changed,
  boundary_drift, identity_drift, revision_changed, is_pending_status, constraint_failed,
  no_running_invocation, same_identity, runs, is_running, prefix_of,
}

unfoldable pub rows_of : String → List Batch → List PairRow
rows_of id [] = []
rows_of id (b ∷ bs) =
    let rest = rows_of id bs in if str_eq b.stored.batch_id id then b.pairs else rest

abbrev pub counted : Bool → Result ℕ → Result ℕ
counted whole (refused e) = refused e
counted true (ok prefix) = ok prefix
counted false (ok prefix) = refused count_drift

-- `completed_prefix`
unfoldable pub completed_prefix : Database → StoredBatch → Result ℕ
unfolding rows_of prefix_of
completed_prefix db batch =
    let rows = rows_of batch.batch_id db.batches in
    counted (length rows == batch.pair_count) (prefix_of 0 false 0 rows)

unfoldable pub find_batch : String → List Batch → Option Batch
find_batch id [] = none
find_batch id (b ∷ bs) =
    let rest = find_batch id bs in if str_eq b.stored.batch_id id then some b else rest

unfoldable pub same_target : Target → Target → Bool
same_target (total_pairs m) (total_pairs n) = m == n
same_target (through a) (through b) = str_eq a b
same_target all_history all_history = true
same_target _ _ = false

abbrev pub same_flag : Bool → Bool → Bool
same_flag true b = b
same_flag false b = not b

-- `stored != batch`, for a stored batch that is pending.
unfoldable pub same_batch : StoredBatch → StoredBatch → Bool
unfolding same_target
same_batch a b =
    str_eq a.batch_id b.batch_id
    && ((a.base_revision == b.base_revision)
        && (same_target a.target b.target
            && (str_eq a.oldest_commit b.oldest_commit
                && (str_eq a.newest_commit b.newest_commit
                    && ((a.pair_count == b.pair_count)
                        && (same_flag a.reaches_root b.reaches_root
                            && is_pending_status b.status))))))

-- The last test of `_manifest_from_row`.
unfoldable pub manifest_fits : Manifest → StoredBatch → Bool
manifest_fits m b =
    str_eq m.oldest b.oldest_commit
    && (str_eq (last_commit m.oldest m.newer) b.newest_commit && (length m.newer == b.pair_count))

-- `_verify_batch_pairs`
unfoldable pub verify_pairs : List PairRow → List PairWorkItem → Bool
unfolding same_identity
verify_pairs [] [] = true
verify_pairs [] (item ∷ items) = false
verify_pairs (row ∷ rows) [] = false
verify_pairs (row ∷ rows) (item ∷ items) =
    (row.batch_sequence == item.sequence) && (same_identity row item && verify_pairs rows items)

unfoldable pub load_manifest : Digests → Option Batch → StoredBatch → Result Manifest
unfolding same_batch manifest_fits verify_pairs
load_manifest digests none batch = refused batch_changed
load_manifest digests (some b) batch =
    if not (is_pending_status b.stored.status)
    then refused batch_changed
    else if not (same_batch b.stored batch)
    then refused identity_drift
    else if not (manifest_fits b.manifest batch)
    then refused identity_drift
    else if not (verify_pairs b.pairs (build_pair_work_items digests b.manifest))
    then refused identity_drift
    else ok b.manifest

-- `pending_manifest`
unfoldable pub pending_manifest : Digests → Database → StoredBatch → Result Manifest
unfolding load_manifest find_batch
pending_manifest digests db batch =
    load_manifest digests (find_batch batch.batch_id db.batches) batch

-- `UPDATE batches SET status = 'completed' WHERE batch_id = ?`
unfoldable pub complete_batch : String → Batch → Batch
complete_batch id b = record b {
  stored = record b.stored {
    status = if str_eq b.stored.batch_id id then batch_completed else b.stored.status;
  };
}

-- The transaction of `commit_pending_batch`.
unfoldable pub committed : Database → StoredBatch → Database
unfolding complete_batch
committed db batch = record db {
  analysis = record db.analysis {
    revision = db.analysis.revision + 1;
    oldest_completed_commit = some batch.oldest_commit;
    completed_pair_count = db.analysis.completed_pair_count + batch.pair_count;
    history_exhausted = batch.reaches_root;
  };
  batches = map (complete_batch batch.batch_id) db.batches;
}

abbrev pub commit_manifest : Database → StoredBatch → Result Manifest → Result Database
commit_manifest db batch (refused e) = refused e
commit_manifest db batch (ok m) =
    if not (str_eq m.oldest batch.oldest_commit)
    then refused boundary_drift
    else ok (committed db batch)

abbrev pub commit_prefix : Digests → Database → StoredBatch → Result ℕ → Result Database
commit_prefix digests db batch (refused e) = refused e
commit_prefix digests db batch (ok prefix) =
    if not (prefix == batch.pair_count)
    then refused batch_incomplete
    else commit_manifest db batch (pending_manifest digests db batch)

-- `commit_pending_batch`
unfoldable pub commit_pending_batch : Digests → Database → StoredBatch → Result Database
unfolding completed_prefix
commit_pending_batch digests db batch =
    if not (db.analysis.revision == batch.base_revision + 1)
    then refused revision_changed
    else commit_prefix digests db batch (completed_prefix db batch)

unfoldable pub interrupt : Invocation → Invocation
interrupt i = if runs i.result then record i { result = interrupted } else i

unfoldable pub has_invocation : String → List Invocation → Bool
has_invocation id [] = false
has_invocation id (i ∷ is) = str_eq i.invocation_id id || has_invocation id is

-- `begin_invocation`: a writer that never finalized is interrupted. Times are not kept.
unfoldable pub begin_invocation : Database → String → Target → ℕ → Result Database
unfolding interrupt has_invocation
begin_invocation db id target jobs =
    if not (is_valid_target target)
    then refused invalid_target
    else if not (ltb 0 jobs)
    then refused invalid_jobs
    else if has_invocation id db.invocations
    then refused constraint_failed
    else ok (record db {
      invocations = record { invocation_id = id; result = running } ∷ map interrupt db.invocations;
    })

unfoldable pub finish_row : String → InvocationResult → Invocation → Invocation
finish_row id result i =
    if str_eq i.invocation_id id && runs i.result then record i { result = result } else i

-- `finish_invocation`
unfoldable pub finish_invocation : Database → String → InvocationResult → Result Database
unfolding finish_row is_running
finish_invocation db id result =
    if runs result
    then refused constraint_failed
    else if not (is_running id db.invocations)
    then refused no_running_invocation
    else ok (record db { invocations = map (finish_row id result) db.invocations })
