-- ===== src/Database/Invariant/Committing.antt =====
-- A commit completes the latest batch, whose rows are all sealed.
use src_move.Common.{
  ℕ, suc, ◌+◌, ◌≤◌, ◌≡◌, ◌≢◌, refl, sym, subst, ap, inl, inr, Bool, true, false, Option, none, some,
  List, [], ◌∷◌, map, String, length, arith, ◌==◌, str_eq, eq_iff, Bool-cases, Option-cases,
}
use src_move.Database.Rows.{
  BatchStatus, batch_pending, batch_completed, Manifest, Digests, StoredBatch, PairRow, Batch,
  Database,
}
use src_move.Database.Store.{Result, ok, refused, is_pending_status, prefix_of}
use src_move.Database.Commit.{
  rows_of, counted, completed_prefix, find_batch, same_batch, load_manifest, pending_manifest,
  complete_batch, committed, commit_manifest, commit_prefix, commit_pending_batch,
}
use src_move.Database.History.{
  completed_rows, completed_oldest, AllSealed, History, Done, Latest, WellFormed,
}

-- A prefix is at most the number of rows passed, and when it is that number every row is sealed.
pub prefix-AllSealed :
    (rows : List PairRow) (e : ℕ) (found : Bool) (p k : ℕ)
    → prefix_of e found p rows ≡ ok k
    → (k ≤ p + length rows) × (k ≡ p + length rows → AllSealed rows)
unfolding prefix_of
prefix-AllSealed [] e found p k h = (ground arith, λ q. tt)
prefix-AllSealed (row ∷ rows) e found p k h = elim (Option-cases row.sealed) [
  | inl none_yet ↦
      let rest = prefix-AllSealed rows (suc e) true p k (ground (arith, none_yet)) in
      (omega (arith, rest.0), λ q. absurd (omega (arith, rest.0)))
  | inr (s, is_sealed) ↦
      let rest = prefix-AllSealed rows (suc e) found (suc p) k (ground (arith, is_sealed)) in
      (omega (arith, rest.0), λ q. (rw is_sealed refl, rest.1 (omega arith)))
]

-- A completed batch is not the pending one.
not_among :
    (id : String) (cs : List Batch) (b : Batch)
    → Done cs
    → find_batch id cs ≡ some b
    → b.stored.status ≢ batch_pending
unfolding find_batch
not_among id [] b d f p = cc
not_among id (c ∷ cs) b (done, d) f p = elim (Bool-cases (str_eq c.stored.batch_id id)) [
  | inl e ↦ ground (arith, done.status_completed)
  | inr e ↦ not_among id cs b d (ground arith) p
]

-- The rows of the pending batch are those of the latest one.
find-Latest :
    (id : String) (bs : List Batch) (b : Batch)
    → Latest bs
    → find_batch id bs ≡ some b
    → b.stored.status ≡ batch_pending
    → (rest : List Batch) × (bs ≡ b ∷ rest)
      × (rows_of id bs ≡ b.pairs)
      × (str_eq b.stored.batch_id id ≡ true)
unfolding find_batch rows_of
find-Latest id [] b l f p = cc
find-Latest id (c ∷ cs) b (l, d) f p = elim (Bool-cases (str_eq c.stored.batch_id id)) [
  | inl e ↦ (cs, ground arith, ground arith, ground arith)
  | inr e ↦ absurd (not_among id cs b d (ground arith) p)
]

-- What a successful commit has seen.
pub record Committed (digests : Digests) (db : Database) (batch : StoredBatch) (db' : Database)
    : Type 0 where
  pub found : Batch
  pub loaded : find_batch batch.batch_id db.batches ≡ some found
  pub pending : is_pending_status found.stored.status ≡ true
  pub same : same_batch found.stored batch ≡ true
  pub whole : completed_prefix db batch ≡ ok batch.pair_count
  pub next_revision : db.analysis.revision ≡ batch.base_revision + 1
  pub result : db' ≡ committed db batch

load_lem :
    (digests : Digests) (o : Option Batch) (batch : StoredBatch) (m : Manifest)
    → load_manifest digests o batch ≡ ok m
    → (b : Batch) × (o ≡ some b)
      × (is_pending_status b.stored.status ≡ true)
      × (same_batch b.stored batch ≡ true)
unfolding load_manifest
load_lem digests none batch m h = cc
load_lem digests (some b) batch m h = (b, refl, ground arith, ground arith)

commit_manifest_lem :
    (db : Database) (batch : StoredBatch) (r : Result Manifest) (db' : Database)
    → commit_manifest db batch r ≡ ok db'
    → (m : Manifest) × (r ≡ ok m) × (db' ≡ committed db batch)
commit_manifest_lem db batch (refused e) db' h = cc
commit_manifest_lem db batch (ok m) db' h = (m, refl, ground arith)

commit_prefix_lem :
    (digests : Digests) (db : Database) (batch : StoredBatch) (r : Result ℕ) (db' : Database)
    → commit_prefix digests db batch r ≡ ok db'
    → (r ≡ ok batch.pair_count)
      × (commit_manifest db batch (pending_manifest digests db batch) ≡ ok db')
commit_prefix_lem digests db batch (refused e) db' h = cc
commit_prefix_lem digests db batch (ok k) db' h = (ground arith, ground arith)

pub commit-Committed :
    (digests : Digests) (db : Database) (batch : StoredBatch) (db' : Database)
    → commit_pending_batch digests db batch ≡ ok db'
    → Committed digests db batch db'
unfolding commit_pending_batch pending_manifest
commit-Committed digests db batch db' h =
    let p = commit_prefix_lem digests db batch (completed_prefix db batch) db' (ground arith) in
    let (m, r, e) = commit_manifest_lem db batch (pending_manifest digests db batch) db' p.1 in
    let (b, f, s, t) = load_lem digests (find_batch batch.batch_id db.batches) batch m r in
    record {
      found = b;
      loaded = f;
      pending = s;
      same = t;
      whole = p.0;
      next_revision = ground arith;
      result = e;
    }

complete-Done : (id : String) (bs : List Batch) → Done bs → map (complete_batch id) bs ≡ bs
unfolding complete_batch
complete-Done id [] h = refl
complete-Done id (b ∷ bs) (d, h) = ground (arith, d.status_completed, complete-Done id bs h)

pub counted_lem : (c : Bool) (r : Result ℕ) (k : ℕ) → counted c r ≡ ok k → (c ≡ true) × (r ≡ ok k)
counted_lem c (refused e) k h = cc
counted_lem true (ok n) k h = (refl, h)
counted_lem false (ok n) k h = cc

-- The rows that a successful commit has counted are all sealed.
rows-AllSealed :
    (db : Database) (batch : StoredBatch)
    → completed_prefix db batch ≡ ok batch.pair_count
    → AllSealed (rows_of batch.batch_id db.batches)
unfolding completed_prefix
rows-AllSealed db batch h =
    let rows = rows_of batch.batch_id db.batches in
    let (size, prefix) =
      counted_lem (length rows == batch.pair_count) (prefix_of 0 false 0 rows) batch.pair_count h in
    (prefix-AllSealed rows 0 false 0 batch.pair_count prefix).1 (ground (arith, size))

same_batch_lem :
    (a b : StoredBatch)
    → same_batch a b ≡ true
    → (a.oldest_commit ≡ b.oldest_commit) × (a.pair_count ≡ b.pair_count)
unfolding same_batch
same_batch_lem a b h = (ground (arith, eq_iff a.oldest_commit b.oldest_commit), ground arith)

-- The history with its latest batch completed.
complete-Latest :
    (newest : String) (id : String) (b : Batch) (rest : List Batch)
    → str_eq b.stored.batch_id id ≡ true
    → History newest (b ∷ rest)
    → Latest (b ∷ rest)
    → AllSealed b.pairs
    → History newest (complete_batch id b ∷ rest) × Latest (complete_batch id b ∷ rest)
unfolding complete_batch
complete-Latest newest id b rest here h l sealed = (
  (
    record {
      size = h.0.size;
      distances = h.0.distances;
      linked = h.0.linked;
      numbered = h.0.numbered;
    },
    h.1,
  ),
  (inr (record { status_completed = rw here refl; rows_sealed = sealed }), l.1),
)

pending_status : (s : BatchStatus) → is_pending_status s ≡ true → s ≡ batch_pending
pending_status batch_pending h = refl
pending_status batch_completed h = cc

-- A commit of the latest batch, with its rows sealed, keeps the invariant.
WellFormed-complete :
    (db : Database) (batch : StoredBatch) (b : Batch) (rest : List Batch)
    → WellFormed db
    → db.batches ≡ b ∷ rest
    → b.stored.status ≡ batch_pending
    → str_eq b.stored.batch_id batch.batch_id ≡ true
    → AllSealed b.pairs
    → same_batch b.stored batch ≡ true
    → WellFormed (committed db batch)
unfolding committed completed_rows completed_oldest complete_batch
WellFormed-complete db batch b rest w e p here sealed same =
    let newest = db.analysis.newest_commit in
    let id = batch.batch_id in
    let history = subst (λ bs. History newest bs) e w.history in
    let latest = subst (λ bs. Latest bs) e w.latest in
    let (h, l) = complete-Latest newest id b rest here history latest sealed in
    let all : map (complete_batch id) db.batches ≡ complete_batch id b ∷ rest =
      ground (arith, e, complete-Done id rest latest.1) in
    let (oldest_same, count_same) = same_batch_lem b.stored batch same in
    record {
      history = subst (λ bs. History newest bs) (sym all) h;
      latest = subst (λ bs. Latest bs) (sym all) l;
      counted =
          let before = ap completed_rows e in
          let after = ap completed_rows all in
          let size = history.0.size in
          ground (arith, w.counted, before, after, p, here, size, count_same);
      oldest = let after = ap completed_oldest all in ground (arith, after, here, oldest_same);
    }

pub WellFormed-commit :
    (digests : Digests) (db db' : Database) (batch : StoredBatch)
    → WellFormed db
    → Committed digests db batch db'
    → WellFormed db'
WellFormed-commit digests db db' batch w done =
    let p = pending_status done.found.stored.status done.pending in
    let (rest, e, rows, here) =
      find-Latest batch.batch_id db.batches done.found w.latest done.loaded p in
    let sealed = subst (λ rows. AllSealed rows) rows (rows-AllSealed db batch done.whole) in
    rw done.result (WellFormed-complete db batch done.found rest w e p here sealed done.same)
