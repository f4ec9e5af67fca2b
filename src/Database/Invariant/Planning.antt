-- ===== src/Database/Invariant/Planning.antt =====
-- A planned batch continues the history.
use src_move.Common.{
  ℕ, suc, ◌+◌, ◌≡◌, refl, sym, ◌∙◌, ap, ◌⊎◌, inl, inr, Bool, false, List, [], ◌∷◌, String, length,
  arith,
}
use src_move.Database.Rows.{
  batch_pending, Target, Analysis, Manifest, Digests, PairRow, Batch, Database, last_commit,
  work_from, build_pair_work_items, pending_rows,
}
use src_move.Database.Store.{is_pending_status, has_pending, boundary, new_batch, put_batch}
use src_move.Database.History.{
  count_rows, completed_rows, completed_oldest, frontier, CountsDown, Linked, Numbered, IsDone,
  Done, Latest, WellFormed,
}

-- The rows of the pairs from the one with number `k` on, of a batch of `n` pairs after `before`.
module _ (digests : Digests) (m : Manifest) (before n : ℕ) where
  abbrev rows_from : ℕ → String → List String → List PairRow
  rows_from k old rest = pending_rows before n (work_from digests m k old rest)

  pub length-rows_from :
      (k : ℕ) (old : String) (rest : List String) → length (rows_from k old rest) ≡ length rest
  unfolding pending_rows work_from
  length-rows_from k old [] = refl
  length-rows_from k old (c ∷ cs) = ap suc (length-rows_from (suc k) c cs)

  pub CountsDown-rows_from :
      (k : ℕ) (old : String) (rest : List String)
      → n ≡ k + length rest
      → CountsDown before (rows_from k old rest)
  unfolding pending_rows work_from
  CountsDown-rows_from k old [] h = tt
  CountsDown-rows_from k old (c ∷ cs) h = (
    omega (arith, length-rows_from (suc k) c cs),
    CountsDown-rows_from (suc k) c cs (omega arith),
  )

  pub Numbered-rows_from :
      (k : ℕ) (old : String) (rest : List String) → Numbered k (rows_from k old rest)
  unfolding pending_rows work_from
  Numbered-rows_from k old [] = tt
  Numbered-rows_from k old (c ∷ cs) = (refl, Numbered-rows_from (suc k) c cs)

  pub Linked-rows_from :
      (k : ℕ) (old : String) (rest : List String)
      → Linked old (rows_from k old rest) (last_commit old rest)
  unfolding pending_rows work_from last_commit
  Linked-rows_from k old [] = refl
  Linked-rows_from k old (c ∷ cs) = (refl, Linked-rows_from (suc k) c cs)

-- A status that is not pending.
settled :
    (b : Batch)
    → is_pending_status b.stored.status ≡ false
    → (b.stored.status ≡ batch_pending) ⊎ IsDone b
    → IsDone b
settled b h (inl p) = absurd (ground arith)
settled b h (inr d) = d

pub Done-of_Latest : (bs : List Batch) → has_pending bs ≡ false → Latest bs → Done bs
unfolding has_pending
Done-of_Latest [] h l = tt
Done-of_Latest (b ∷ bs) h (l, d) = (settled b (ground arith) l, d)

pub completed_rows_of_Done : (bs : List Batch) → Done bs → completed_rows bs ≡ count_rows bs
unfolding completed_rows count_rows
completed_rows_of_Done [] h = refl
completed_rows_of_Done (b ∷ bs) (d, h) =
    ground (arith, d.status_completed, completed_rows_of_Done bs h)

pub boundary_of_Done :
    (a : Analysis) (bs : List Batch)
    → a.oldest_completed_commit ≡ completed_oldest bs
    → Done bs
    → boundary a ≡ frontier a.newest_commit bs
unfolding boundary completed_oldest frontier
boundary_of_Done a [] e h = ground arith
boundary_of_Done a (b ∷ bs) e (d, h) = ground (arith, d.status_completed)

-- Planning keeps the invariant when its guards hold.
pub WellFormed-plan :
    (digests : Digests) (db : Database) (m : Manifest) (id : String) (target : Target)
    (reaches_root : Bool)
    → WellFormed db
    → has_pending db.batches ≡ false
    → last_commit m.oldest m.newer ≡ boundary db.analysis
    → WellFormed (put_batch db (new_batch digests db.analysis m id target reaches_root))
unfolding new_batch completed_rows completed_oldest build_pair_work_items
WellFormed-plan digests db m id target reaches_root w none_pending starts =
    let n = length m.newer in
    let done = Done-of_Latest db.batches none_pending w.latest in
    let before = w.counted ∙ completed_rows_of_Done db.batches done in
    let c = db.analysis.completed_pair_count in
    record {
      history = (
        record {
          size = sym (length-rows_from digests m c n 0 m.oldest m.newer);
          distances =
              rw (← before) (CountsDown-rows_from digests m c n 0 m.oldest m.newer (omega arith));
          linked =
              rw (← boundary_of_Done db.analysis db.batches w.oldest done, ← starts)
                (Linked-rows_from digests m c n 0 m.oldest m.newer);
          numbered = Numbered-rows_from digests m c n 0 m.oldest m.newer;
        },
        w.history,
      );
      latest = (inl refl, done);
      counted = w.counted;
      oldest = w.oldest;
    }
