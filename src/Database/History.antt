-- ===== src/Database/History.antt =====
-- What the stored batches of one analysis are to each other, and the runs of its operations.
use src_move.Common.{
  ℕ, suc, ◌+◌, ◌≡◌, ◌⊎◌, Bool, true, false, Option, none, some, List, [], ◌∷◌, String, length,
  if◌then◌else◌,
}
use src_move.Contracts.{PairOutcome}
use src_move.Database.Rows.{
  Target, InvocationResult, batch_pending, batch_completed, Manifest, Digests, StoredBatch, PairRow,
  Batch, Database,
}
use src_move.Database.Compacting.{Files}
use src_move.Database.Store.{ok, create, add_pending_batch, record_outcome, is_pending_status}
use src_move.Database.Commit.{commit_pending_batch, begin_invocation, finish_invocation}

-- One successful operation, by any caller and with any arguments.
pub data DbStep (digests : Digests) (db : Database) (db' : Database) : Type 0 where
  plans :
      (m : Manifest) (id : String) (target : Target) (reaches_root : Bool)
      → add_pending_batch digests db m id target reaches_root ≡ ok db'
      → DbStep digests db db'
  records :
      (files : Files) (batch : StoredBatch) (outcome : PairOutcome) (invocation : String)
      → record_outcome files db batch outcome invocation ≡ ok db'
      → DbStep digests db db'
  commits :
      (batch : StoredBatch) → commit_pending_batch digests db batch ≡ ok db' → DbStep digests db db'
  begins :
      (id : String) (target : Target) (jobs : ℕ)
      → begin_invocation db id target jobs ≡ ok db'
      → DbStep digests db db'
  finishes :
      (id : String) (result : InvocationResult)
      → finish_invocation db id result ≡ ok db'
      → DbStep digests db db'

-- The databases that creation and successful operations lead to.
pub data DbReach (digests : Digests) : Database → Type 0 where
  created :
      {db : Database} (m : Manifest) (id : String) (target : Target) (reaches_root : Bool)
      → create digests m id target reaches_root ≡ ok db
      → DbReach digests db
  continued : {db db' : Database} → DbReach digests db → DbStep digests db db' → DbReach digests db'

unfoldable pub count_rows : List Batch → ℕ
count_rows [] = 0
count_rows (b ∷ bs) = length b.pairs + count_rows bs

-- The number of rows of completed batches, which `summary` counts.
unfoldable pub completed_rows : List Batch → ℕ
completed_rows [] = 0
completed_rows (b ∷ bs) =
    let rest = completed_rows bs in
    if is_pending_status b.stored.status then rest else length b.pairs + rest

-- The oldest commit of the latest completed batch.
unfoldable pub completed_oldest : List Batch → Option String
completed_oldest [] = none
completed_oldest (b ∷ bs) =
    let rest = completed_oldest bs in
    if is_pending_status b.stored.status then rest else some b.stored.oldest_commit

unfoldable pub frontier : String → List Batch → String
frontier newest [] = newest
frontier newest (b ∷ bs) = b.stored.oldest_commit

-- The rows' distances count down to `floor`.
abbrev pub CountsDown : ℕ → List PairRow → Type 0
CountsDown floor [] = Unit
CountsDown floor (row ∷ rows) =
    (row.distance_from_newest ≡ floor + length rows) × CountsDown floor rows

-- The rows' commits lead from `old` to `new`, each row starting where the one before ends.
abbrev pub Linked : String → List PairRow → String → Type 0
Linked old [] new = old ≡ new
Linked old (row ∷ rows) new = (row.old_commit ≡ old) × Linked row.new_commit rows new

-- The rows' sequence numbers count up from `first`.
abbrev pub Numbered : ℕ → List PairRow → Type 0
Numbered first [] = Unit
Numbered first (row ∷ rows) = (row.batch_sequence ≡ first) × Numbered (suc first) rows

abbrev pub is_some {ℓ} : {A : Type ℓ} → Option A → Bool
is_some none = false
is_some (some a) = true

abbrev pub AllSealed : List PairRow → Type 0
AllSealed [] = Unit
AllSealed (row ∷ rows) = (is_some row.sealed ≡ true) × AllSealed rows

-- A batch that continues the older ones `bs`.
pub record Continues (newest : String) (bs : List Batch) (b : Batch) : Type 0 where
  pub size : b.stored.pair_count ≡ length b.pairs
  pub distances : CountsDown (count_rows bs) b.pairs
  pub linked : Linked b.stored.oldest_commit b.pairs (frontier newest bs)
  pub numbered : Numbered 0 b.pairs

abbrev pub History : String → List Batch → Type 0
History newest [] = Unit
History newest (b ∷ bs) = Continues newest bs b × History newest bs

pub record IsDone (b : Batch) : Type 0 where
  pub status_completed : b.stored.status ≡ batch_completed
  pub rows_sealed : AllSealed b.pairs

abbrev pub Done : List Batch → Type 0
Done [] = Unit
Done (b ∷ bs) = IsDone b × Done bs

-- Only the latest batch may be pending.
abbrev pub Latest : List Batch → Type 0
Latest [] = Unit
Latest (b ∷ bs) = ((b.stored.status ≡ batch_pending) ⊎ IsDone b) × Done bs

-- What every stored analysis satisfies.
pub record WellFormed (db : Database) : Type 0 where
  pub history : History db.analysis.newest_commit db.batches
  pub latest : Latest db.batches
  pub counted : db.analysis.completed_pair_count ≡ completed_rows db.batches
  pub oldest : db.analysis.oldest_completed_commit ≡ completed_oldest db.batches
