-- ===== src/Database/Publishing.antt =====
-- srcmove_history/analysis.py: `_DatabasePublisher`, which seals the outcomes of one batch in the
-- order of their sequence numbers, and `_execute_pending_batch`, which starts it at the prefix that
-- earlier runs have completed. The observer is not seen here: `_SafeAnalysisObserver` keeps its
-- exceptions, but for those that end the process.
use src_move.Common.{
  ℕ, suc, ◌+◌, ◌≡◌, refl, sym, ◌∙◌, ap, true, false, not, none, some, List, [], ◌∷◌, map, drop,
  String, length, length-map, arith, ◌==◌, if◌then◌else◌,
}
use src_move.Contracts.{PairWorkItem, PairOutcome}
use src_move.Database.Compacting.{Files, Compacts}
use src_move.Database.Rows.{StoredBatch, Seal, PairRow, Batch, Database}
use src_move.Database.Store.{
  Result, ok, refused, sequence_drift, prefix_of, find_row, find_pair, seal_row, seal_batch,
  same_identity, is_running, seal_found, sealed_in, record_outcome,
}
use src_move.Database.Commit.{rows_of, completed_prefix, verify_pairs}
use src_move.Database.Prefix.{prefix-seal, next_row}
use src_move.Database.Invariant.Committing.{counted_lem}

-- `_DatabasePublisher`
pub record DatabasePublisher : Type 0 where
  pub batch : StoredBatch
  pub next_sequence : ℕ
  pub invocation_id : String
  pub committed_before : ℕ

-- What a call leaves: the publisher, the database, and the coverage that the observer is told.
pub record Published : Type 0 where
  pub publisher : DatabasePublisher
  pub database : Database
  pub covered : ℕ

abbrev pub published : DatabasePublisher → PairOutcome → Result Database → Result Published
published p outcome (refused e) = refused e
published p outcome (ok db) = ok (record {
  publisher = record p { next_sequence = p.next_sequence + 1 };
  database = db;
  covered = p.committed_before + outcome.work_item.sequence + 1;
})

-- `_DatabasePublisher.__call__`
unfoldable pub publish : Files → DatabasePublisher → Database → PairOutcome → Result Published
publish files p db outcome =
    if not (outcome.work_item.sequence == p.next_sequence)
    then refused sequence_drift
    else published p outcome (record_outcome files db p.batch outcome p.invocation_id)

abbrev pub and_then {ℓ κ} : {A : Type ℓ} {B : Type κ} → Result A → (A → Result B) → Result B
and_then (refused e) next = refused e
and_then (ok a) next = next a

-- The calls that the coordinator makes, one after the other, with the files of each item.
unfoldable pub publish_each :
    (PairWorkItem → Files) → DatabasePublisher → Database → List PairOutcome → Result Database
unfolding publish
publish_each files p db [] = ok db
publish_each files p db (outcome ∷ outcomes) =
    and_then (publish (files outcome.work_item) p db outcome)
      (λ r. publish_each files r.publisher r.database outcomes)

find_pair-rows_of :
    (id : String) (q : ℕ) (bs : List Batch) → find_pair id q bs ≡ find_row q (rows_of id bs)
unfolding find_pair rows_of find_row
find_pair-rows_of id q [] = refl
find_pair-rows_of id q (b ∷ bs) = ground (arith, find_pair-rows_of id q bs)

rows_of-seal :
    (id : String) (q : ℕ) (new : Seal) (bs : List Batch)
    → rows_of id (map (seal_batch id q new) bs) ≡ map (seal_row q new) (rows_of id bs)
unfolding rows_of seal_batch
rows_of-seal id q new [] = refl
rows_of-seal id q new (b ∷ bs) = ground (arith, rows_of-seal id q new bs)

verify-seal :
    (q : ℕ) (new : Seal) (rows : List PairRow) (items : List PairWorkItem)
    → verify_pairs (map (seal_row q new) rows) items ≡ verify_pairs rows items
unfolding verify_pairs seal_row same_identity
verify-seal q new [] [] = refl
verify-seal q new [] (i ∷ is) = refl
verify-seal q new (r ∷ rs) [] = refl
verify-seal q new (r ∷ rs) (i ∷ is) = ground (arith, verify-seal q new rs is)

-- Recording the outcome of the row at the prefix lengthens the prefix by one.
pub prefix-record :
    (db : Database) (batch : StoredBatch) (new : Seal) (row : PairRow)
    → completed_prefix db batch ≡ ok new.outcome.work_item.sequence
    → find_pair batch.batch_id new.outcome.work_item.sequence db.batches ≡ some row
    → completed_prefix (sealed_in db batch.batch_id new) batch
      ≡ ok (suc new.outcome.work_item.sequence)
unfolding completed_prefix
prefix-record db batch new row h found =
    let k = new.outcome.work_item.sequence in
    let rows = rows_of batch.batch_id db.batches in
    let (size, p) = counted_lem (length rows == batch.pair_count) (prefix_of 0 false 0 rows) k h in
    let sealed =
      prefix-seal 0 k new rows row p
        (sym (find_pair-rows_of batch.batch_id k db.batches) ∙ found) in
    rw
      (rows_of-seal batch.batch_id k new db.batches, length-map (seal_row k new) rows, size, sealed)
      refl

-- A publisher that stands at the prefix of its batch, whose rows are those of `items`, in a run.
pub record Ready (items : List PairWorkItem) (p : DatabasePublisher) (db : Database) : Type 0 where
  pub at_prefix : completed_prefix db p.batch ≡ ok p.next_sequence
  pub rows_match : verify_pairs (rows_of p.batch.batch_id db.batches) items ≡ true
  pub running : is_running p.invocation_id db.invocations ≡ true

-- The step of a ready publisher with an outcome of the next item.
pub record Advances (items : List PairWorkItem) (files : Files) (p : DatabasePublisher)
    (db : Database) (outcome : PairOutcome) : Type 0 where
  pub result : Published
  pub accepted : publish files p db outcome ≡ ok result
  pub ready : Ready items result.publisher result.database
  pub same_batch : result.publisher.batch ≡ p.batch
  pub next : result.publisher.next_sequence ≡ suc p.next_sequence

record_accepts :
    (files : Files) (db : Database) (batch : StoredBatch) (outcome : PairOutcome)
    (invocation : String) (row : PairRow)
    → Compacts files outcome
    → is_running invocation db.invocations ≡ true
    → find_pair batch.batch_id outcome.work_item.sequence db.batches ≡ some row
    → row.sealed ≡ none
    → same_identity row outcome.work_item ≡ true
    → record_outcome files db batch outcome invocation
      ≡ ok (sealed_in db batch.batch_id (record { invocation_id = invocation; outcome = outcome }))
unfolding record_outcome seal_found
record_accepts files db batch outcome invocation row (c, e) r f u s = rw (e, r, f, s, u) refl

pub publish-Advances :
    (items : List PairWorkItem) (files : Files) (p : DatabasePublisher) (db : Database)
    (outcome : PairOutcome) (rest : List PairWorkItem)
    → Ready items p db
    → Compacts files outcome
    → drop p.next_sequence items ≡ outcome.work_item ∷ rest
    → Advances items files p db outcome
unfolding publish completed_prefix
publish-Advances items files p db outcome rest r compacts d =
    let id = p.batch.batch_id in
    let k = p.next_sequence in
    let rows = rows_of id db.batches in
    let new : Seal = record { invocation_id = p.invocation_id; outcome = outcome } in
    let (size, pre) =
      counted_lem (length rows == p.batch.pair_count) (prefix_of 0 false 0 rows) k r.at_prefix in
    let (row, f, u, i, q) = next_row 0 k k rows items pre (omega arith) r.rows_match d in
    let found : find_pair id k db.batches ≡ some row = find_pair-rows_of id k db.batches ∙ f in
    let step : suc outcome.work_item.sequence ≡ k + 1 = omega (arith, q) in
    let accepts =
      record_accepts files db p.batch outcome p.invocation_id row compacts r.running (rw q found) u
        i in
    record {
      result = record {
        publisher = record p { next_sequence = p.next_sequence + 1 };
        database = sealed_in db id new;
        covered = p.committed_before + outcome.work_item.sequence + 1;
      };
      accepted = ground (arith, accepts, q);
      ready = record {
        at_prefix =
            prefix-record db p.batch new row (r.at_prefix ∙ ap ok (sym q)) (rw q found)
            ∙ ap ok step;
        rows_match =
            let n = outcome.work_item.sequence in
            rw (rows_of-seal id n new db.batches, verify-seal n new rows items) r.rows_match;
        running = r.running;
      };
      same_batch = refl;
      next = omega arith;
    }
