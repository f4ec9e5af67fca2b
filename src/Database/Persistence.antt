-- ===== src/Database/Persistence.antt =====
-- A sealed outcome stays as it is, whatever is done to the database afterwards.
use src_move.Common.{
  ℕ, ◌≡◌, refl, ◌∙◌, false, Option, none, some, List, [], ◌∷◌, map, String, arith, str_eq, eq_iff,
  Bool-cases, inl, inr,
}
use src_move.Database.Rows.{Digests, Seal, PairRow, Batch, Database}
use src_move.Database.Store.{has_batch, find_row, find_pair, seal_row, seal_batch, new_batch}
use src_move.Database.Commit.{complete_batch, committed, begin_invocation, finish_invocation}
use src_move.Database.History.{DbStep, plans, records, commits, begins, finishes}
use src_move.Database.Invariant.Committing.{commit-Committed}
use src_move.Database.Invariant.Reached.{add-Planned, record-Recorded}

-- The operations that follow on a database.
pub data DbRun (digests : Digests) (db : Database) : Database → Type 0 where
  stays : DbRun digests db db
  goes_on :
      {mid db' : Database} → DbRun digests db mid → DbStep digests mid db' → DbRun digests db db'

abbrev pub seal_of : Option PairRow → Option Seal
seal_of none = none
seal_of (some row) = row.sealed

-- The seal of the row of a batch with a sequence number.
unfoldable pub outcome_at : String → ℕ → List Batch → Option Seal
unfolding find_pair
outcome_at id q bs = seal_of (find_pair id q bs)

find_row-seal :
    (q p : ℕ) (new s : Seal) (rows : List PairRow)
    → seal_of (find_row q rows) ≡ some s
    → seal_of (find_row q (map (seal_row p new) rows)) ≡ some s
unfolding find_row seal_row
find_row-seal q p new s [] h = h
find_row-seal q p new s (row ∷ rows) h = ground (arith, find_row-seal q p new s rows)

outcome_at-seal :
    (id id' : String) (q p : ℕ) (new s : Seal) (bs : List Batch)
    → outcome_at id q bs ≡ some s
    → outcome_at id q (map (seal_batch id' p new) bs) ≡ some s
unfolding outcome_at find_pair seal_batch
outcome_at-seal id id' q p new s [] h = h
outcome_at-seal id id' q p new s (b ∷ bs) h =
    ground (arith, outcome_at-seal id id' q p new s bs, find_row-seal q p new s b.pairs)

outcome_at_complete :
    (id id' : String) (q : ℕ) (bs : List Batch)
    → outcome_at id q (map (complete_batch id') bs) ≡ outcome_at id q bs
unfolding outcome_at find_pair complete_batch
outcome_at_complete id id' q [] = refl
outcome_at_complete id id' q (b ∷ bs) = ground (arith, outcome_at_complete id id' q bs)

-- A batch that is not there has no outcomes.
outcome_at-fresh :
    (id : String) (q : ℕ) (bs : List Batch) → has_batch id bs ≡ false → outcome_at id q bs ≡ none
unfolding outcome_at find_pair has_batch
outcome_at-fresh id q [] h = refl
outcome_at-fresh id q (b ∷ bs) h = ground (arith, outcome_at-fresh id q bs)

-- The row of an older batch is found behind a new batch of another identifier.
outcome_at-plan :
    (id : String) (q : ℕ) (s : Seal) (b : Batch) (bs : List Batch)
    → has_batch b.stored.batch_id bs ≡ false
    → outcome_at id q bs ≡ some s
    → outcome_at id q (b ∷ bs) ≡ some s
unfolding outcome_at find_pair
outcome_at-plan id q s b bs fresh h = elim (Bool-cases (str_eq b.stored.batch_id id)) [
  | inl e ↦
      let absent = outcome_at-fresh b.stored.batch_id q bs fresh in
      let same = (eq_iff b.stored.batch_id id).0 e in absurd (ground (arith, absent, same, h))
  | inr e ↦ ground (arith, e, h)
]

step-sealed :
    (digests : Digests) (db db' : Database) (id : String) (q : ℕ) (s : Seal)
    → DbStep digests db db'
    → outcome_at id q db.batches ≡ some s
    → outcome_at id q db'.batches ≡ some s
unfolding begin_invocation finish_invocation committed new_batch
step-sealed digests db db' id q s (plans m new_id target reaches_root e) h =
    let p = add-Planned digests db m new_id target reaches_root db' e in
    rw p.result (
      outcome_at-plan id q s (new_batch digests db.analysis m new_id target reaches_root) db.batches
        p.fresh h)
step-sealed digests db db' id q s (records files batch outcome invocation e) h =
    let r = record-Recorded files db batch outcome invocation db' e in
    rw r.result (outcome_at-seal id batch.batch_id q outcome.work_item.sequence _ s db.batches h)
step-sealed digests db db' id q s (commits batch e) h =
    let c = commit-Committed digests db batch db' e in
    rw c.result (outcome_at_complete id batch.batch_id q db.batches ∙ h)
step-sealed digests db db' id q s (begins i target jobs e) h = ground (arith, h)
step-sealed digests db db' id q s (finishes i result e) h = ground (arith, h)

-- An outcome that a row of the database holds is held there, unchanged, after any further successful
-- operations: planning, recording, committing, and beginning or finishing invocations.
pub run_keeps_sealed :
    {digests : Digests} {db db' : Database} (id : String) (q : ℕ) {s : Seal}
    → DbRun digests db db'
    → outcome_at id q db.batches ≡ some s
    → outcome_at id q db'.batches ≡ some s
run_keeps_sealed id q stays h = h
run_keeps_sealed {digests} id q {s} (goes_on {mid = mid} {db' = db'} run step) h =
    step-sealed digests mid db' id q s step (run_keeps_sealed id q run h)
