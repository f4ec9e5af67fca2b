-- ===== src/Database/Invariant/Reached.antt =====
-- What each successful operation has done, and the invariant of every database that is reached.
use src_move.Common.{
  ℕ, ◌≡◌, refl, sym, ◌∙◌, inl, inr, Bool, true, false, Option, none, some, String, arith, eq_iff,
  Option-cases,
}
use src_move.Contracts.{PairOutcome}
use src_move.Common.Checked.{Checked, valid, invalid}
use src_move.Database.Compacting.{Files, compacted}
use src_move.Database.Rows.{
  Target, Manifest, Digests, StoredBatch, Seal, PairRow, Database, last_commit,
}
use src_move.Database.Store.{
  Result, ok, has_pending, has_batch, boundary, new_batch, put_batch, insert_pending_batch,
  add_pending_batch, empty_analysis, create, is_running, find_pair, same_identity, seal_found,
  sealed_in, when_compacted, record_outcome,
}
use src_move.Database.Commit.{begin_invocation, finish_invocation}
use src_move.Database.History.{
  DbStep, plans, records, commits, begins, finishes, DbReach, created, continued, WellFormed,
  completed_rows, completed_oldest,
}
use src_move.Database.Invariant.Sealing.{
  completed_rows-seal, completed_oldest-seal, History-seal, Latest-seal,
}
use src_move.Database.Invariant.Planning.{WellFormed-plan}
use src_move.Database.Invariant.Committing.{commit-Committed, WellFormed-commit}

-- What a successful planning has seen.
pub record Planned (digests : Digests) (db : Database) (m : Manifest) (id : String)
    (target : Target) (reaches_root : Bool) (db' : Database) : Type 0 where
  pub none_pending : has_pending db.batches ≡ false
  pub starts : last_commit m.oldest m.newer ≡ boundary db.analysis
  pub fresh : has_batch id db.batches ≡ false
  pub result : db' ≡ put_batch db (new_batch digests db.analysis m id target reaches_root)

insert-Planned :
    (digests : Digests) (db : Database) (expected : ℕ) (m : Manifest) (id : String)
    (target : Target) (reaches_root : Bool) (db' : Database)
    → insert_pending_batch digests db expected m id target reaches_root ≡ ok db'
    → Planned digests db m id target reaches_root db'
unfolding insert_pending_batch
insert-Planned digests db expected m id target reaches_root db' h = record {
  none_pending = ground arith;
  starts = ground (arith, eq_iff (last_commit m.oldest m.newer) (boundary db.analysis));
  fresh = ground arith;
  result = ground arith;
}

pub add-Planned :
    (digests : Digests) (db : Database) (m : Manifest) (id : String) (target : Target)
    (reaches_root : Bool) (db' : Database)
    → add_pending_batch digests db m id target reaches_root ≡ ok db'
    → Planned digests db m id target reaches_root db'
unfolding add_pending_batch
add-Planned digests db m id target reaches_root db' h =
    insert-Planned digests db db.analysis.revision m id target reaches_root db' (ground arith)

-- What a successful record has seen.
pub record Recorded (db : Database) (batch : StoredBatch) (new : Seal) (db' : Database)
    : Type 0 where
  pub running : is_running new.invocation_id db.invocations ≡ true
  pub row : PairRow
  pub found : find_pair batch.batch_id new.outcome.work_item.sequence db.batches ≡ some row
  pub unsealed : row.sealed ≡ none
  pub identity : same_identity row new.outcome.work_item ≡ true
  pub result : db' ≡ sealed_in db batch.batch_id new

seal_found_lem :
    (db : Database) (id : String) (new : Seal) (o : Option PairRow) (db' : Database)
    → seal_found db id new o ≡ ok db'
    → (row : PairRow) × (o ≡ some row)
      × (row.sealed ≡ none)
      × (same_identity row new.outcome.work_item ≡ true)
      × (db' ≡ sealed_in db id new)
unfolding seal_found
seal_found_lem db id new none db' h = cc
seal_found_lem db id new (some row) db' h = elim (Option-cases row.sealed) [
  | inl e ↦ (row, refl, e, ground arith, ground (arith, e))
  | inr (s, e) ↦ absurd (ground (arith, e))
]

when_compacted_lem :
    {A : Type 0} (c : Checked A) (next : Result Database) (db' : Database)
    → when_compacted c next ≡ ok db'
    → A × (next ≡ ok db')
when_compacted_lem (invalid message) next db' h = cc
when_compacted_lem (valid a) next db' h = (a, h)

pub record-Recorded :
    (files : Files) (db : Database) (batch : StoredBatch) (outcome : PairOutcome)
    (invocation : String) (db' : Database)
    → record_outcome files db batch outcome invocation ≡ ok db'
    → Recorded db batch (record { invocation_id = invocation; outcome = outcome }) db'
unfolding record_outcome
record-Recorded files db batch outcome invocation db' h =
    let (c, h) = when_compacted_lem (compacted files outcome) _ db' h in
    let new : Seal = record { invocation_id = invocation; outcome = outcome } in
    let o = find_pair batch.batch_id outcome.work_item.sequence db.batches in
    let (row, f, u, i, r) = seal_found_lem db batch.batch_id new o db' (ground arith) in
    record { running = ground arith; row = row; found = f; unsealed = u; identity = i; result = r }

WellFormed-record :
    (db : Database) (id : String) (new : Seal) → WellFormed db → WellFormed (sealed_in db id new)
WellFormed-record db id new w =
    let q = new.outcome.work_item.sequence in
    record {
      history = History-seal id q new db.analysis.newest_commit db.batches w.history;
      latest = Latest-seal id q new db.batches w.latest;
      counted = w.counted ∙ sym (completed_rows-seal id q new db.batches);
      oldest = w.oldest ∙ sym (completed_oldest-seal id q new db.batches);
    }

-- Operations that leave the analysis and its batches alone keep the invariant.
WellFormed-same :
    (db db' : Database)
    → db'.analysis ≡ db.analysis
    → db'.batches ≡ db.batches
    → WellFormed db
    → WellFormed db'
WellFormed-same db db' a b w = record {
  history = rw (a, b) w.history;
  latest = rw b w.latest;
  counted = rw (a, b) w.counted;
  oldest = rw (a, b) w.oldest;
}

DbStep-WellFormed :
    (digests : Digests) (db db' : Database) → DbStep digests db db' → WellFormed db → WellFormed db'
unfolding begin_invocation finish_invocation
DbStep-WellFormed digests db db' (plans m id target reaches_root e) w =
    let p = add-Planned digests db m id target reaches_root db' e in
    rw p.result (WellFormed-plan digests db m id target reaches_root w p.none_pending p.starts)
DbStep-WellFormed digests db db' (records files batch outcome invocation e) w =
    rw (record-Recorded files db batch outcome invocation db' e).result
      (WellFormed-record db batch.batch_id _ w)
DbStep-WellFormed digests db db' (commits batch e) w =
    WellFormed-commit digests db db' batch w (commit-Committed digests db batch db' e)
DbStep-WellFormed digests db db' (begins id target jobs e) w =
    WellFormed-same db db' (ground arith) (ground arith) w
DbStep-WellFormed digests db db' (finishes id result e) w =
    WellFormed-same db db' (ground arith) (ground arith) w

pub reach-WellFormed : (digests : Digests) (db : Database) → DbReach digests db → WellFormed db
unfolding create completed_rows completed_oldest
reach-WellFormed digests db (created m id target reaches_root e) =
    let start = empty_analysis digests m in
    let p = insert-Planned digests start 0 m id target reaches_root db e in
    let w : WellFormed start = record {
      history = tt;
      latest = tt;
      counted = refl;
      oldest = refl;
    } in
    rw p.result (WellFormed-plan digests start m id target reaches_root w p.none_pending p.starts)
reach-WellFormed digests db (continued {db = before} r s) =
    DbStep-WellFormed digests before db s (reach-WellFormed digests before r)
