-- ===== src/Database/Resume.antt =====
-- The coordinator with the database publisher: what a run publishes, the database takes.
use src_move.Common.{
  ℕ, suc, ◌+◌, ◌≡◌, ◌⊎◌, inl, inr, refl, ◌∙◌, ap, subst, none, List, [], ◌∷◌, take, drop, drop_cons,
  length, length-map, length-drop, arith, ◌≤◌, ◌==◌, true, false,
}
use src_move.Common.Int.{ℤ}
use src_move.Contracts.{PairWorkItem, PairOutcome}
use src_move.Coordinator.State.{State, Limits, done}
use src_move.Coordinator.Invariant.Publication.{items_of}
use src_move.Coordinator.Safety.{RunsTo, published_in_order, success-Complete}
use src_move.Database.Compacting.{Files, EachCompacts}
use src_move.Database.Rows.{PairRow, Database}
use src_move.Database.Store.{ok, prefix_of}
use src_move.Database.Commit.{completed_prefix, rows_of, verify_pairs}
use src_move.Database.Invariant.Committing.{counted_lem, prefix-AllSealed}
use src_move.Database.Publishing.{DatabasePublisher, publish_each, Ready, publish-Advances}

List-cases :
    (xs : List PairWorkItem)
    → (xs ≡ []) ⊎ ((x : PairWorkItem) × (rest : List PairWorkItem) × (xs ≡ x ∷ rest))
List-cases [] = inl refl
List-cases (x ∷ xs) = inr (x, xs, refl)

-- The database after outcomes that it has taken one by one.
pub record Taken (files : PairWorkItem → Files) (p : DatabasePublisher) (db : Database)
    (outcomes : List PairOutcome) : Type 0 where
  pub after : Database
  pub accepted : publish_each files p db outcomes ≡ ok after
  pub prefix : completed_prefix after p.batch ≡ ok (p.next_sequence + length outcomes)

take_next_item :
    (k : ℕ) (items : List PairWorkItem) (outcome : PairOutcome) (outcomes : List PairOutcome)
    → items_of (outcome ∷ outcomes) ≡ take (suc (length outcomes)) (drop k items)
    → (rest : List PairWorkItem) × (drop k items ≡ outcome.work_item ∷ rest)
      × (items_of outcomes ≡ take (length outcomes) (drop (suc k) items))
take_next_item k items outcome outcomes h = elim (List-cases (drop k items)) [
  | inl e ↦
      absurd
        (cc (subst (λ xs. items_of (outcome ∷ outcomes) ≡ take (suc (length outcomes)) xs) e h))
  | inr (x, rest, e) ↦
      let h' = subst (λ xs. items_of (outcome ∷ outcomes) ≡ take (suc (length outcomes)) xs) e h in
      let (found, after, prefix) = drop_cons k items e in (rest, cc (e, h'), rw after (cc h'))
]

pub publish_each-Taken :
    (items : List PairWorkItem) (files : PairWorkItem → Files) (p : DatabasePublisher)
    (db : Database) (outcomes : List PairOutcome)
    → Ready items p db
    → EachCompacts files outcomes
    → items_of outcomes ≡ take (length outcomes) (drop p.next_sequence items)
    → Taken files p db outcomes
unfolding publish_each
publish_each-Taken items files p db [] r u h = record {
  after = db;
  accepted = refl;
  prefix = r.at_prefix ∙ ap ok (omega arith);
}
publish_each-Taken items files p db (outcome ∷ outcomes) r (c, cs) h =
    let (rest, d, h') = take_next_item p.next_sequence items outcome outcomes h in
    let a = publish-Advances items (files outcome.work_item) p db outcome rest r c d in
    let b = a.result in
    let t =
      publish_each-Taken items files b.publisher b.database outcomes a.ready cs (rw a.next h') in
    record {
      after = t.after;
      accepted = rw a.accepted t.accepted;
      prefix =
          subst (λ x. completed_prefix t.after x ≡ ok (b.publisher.next_sequence + length outcomes))
            a.same_batch t.prefix
          ∙ ap ok (omega (arith, a.next));
    }

verify-length :
    (rows : List PairRow) (items : List PairWorkItem)
    → verify_pairs rows items ≡ true
    → length rows ≡ length items
unfolding verify_pairs
verify-length [] [] h = refl
verify-length [] (i ∷ is) h = cc
verify-length (r ∷ rs) [] h = cc
verify-length (r ∷ rs) (i ∷ is) h = ap suc (verify-length rs is (ground arith))

-- A ready publisher's batch has as many pairs as there are items, and the prefix is within them.
Ready-size :
    (items : List PairWorkItem) (p : DatabasePublisher) (db : Database)
    → Ready items p db
    → (p.batch.pair_count ≡ length items) × (p.next_sequence ≤ length items)
unfolding completed_prefix
Ready-size items p db r =
    let rows = rows_of p.batch.batch_id db.batches in
    let (size, pre) =
      counted_lem (length rows == p.batch.pair_count) (prefix_of 0 false 0 rows) p.next_sequence
        r.at_prefix in
    let bound = (prefix-AllSealed rows 0 false 0 p.next_sequence pre).0 in
    let same = verify-length rows items r.rows_match in
    (ground (arith, size, same), omega (arith, bound, same))

-- Let a publisher stand at the completed prefix of its batch, whose rows are those of the items,
-- in a running invocation. When the coordinator runs the items that follow the prefix, then in
-- every state that it reaches, whatever the interleaving and also after a failure, and in which
-- compaction refuses none of the published outcomes, the database accepts each of them, and the
-- completed prefix is the earlier one plus their number.
pub run-Taken :
    (files : PairWorkItem → Files) {items : List PairWorkItem} {p : DatabasePublisher}
    {db : Database} {first : ℤ} {limits : Limits} {s : State}
    → Ready items p db
    → RunsTo (drop p.next_sequence items) first limits s
    → EachCompacts files s.log
    → Taken files p db s.log
run-Taken files {items} {p} {db} {s} ready run compact =
    publish_each-Taken items files p db s.log ready compact (published_in_order run).0

-- Let a publisher stand at the completed prefix of its batch, whose rows are those of the items,
-- in a running invocation. When the coordinator runs the items that follow the prefix and returns
-- without an error, and compaction refuses none of the published outcomes, the database has accepted every outcome and every pair of the batch is sealed:
-- the completed prefix is the batch's pair count.
pub resume_completes :
    (files : PairWorkItem → Files) {items : List PairWorkItem} {p : DatabasePublisher}
    {db : Database} {first : ℤ} {limits : Limits} {s : State}
    → Ready items p db
    → RunsTo (drop p.next_sequence items) first limits s
    → s.main ≡ done none
    → EachCompacts files s.log
    → (after : Database) × (publish_each files p db s.log ≡ ok after)
      × (completed_prefix after p.batch ≡ ok p.batch.pair_count)
resume_completes files {items} {p} {db} {s} ready run at compact =
    let t = run-Taken files ready run compact in
    let all = ap length (success-Complete run at).all_published in
    let (size, bound) = Ready-size items p db ready in
    (
      t.after,
      t.accepted,
      t.prefix
          ∙ ap ok (
              omega (
                arith,
                all,
                size,
                bound,
                length-map (λ (outcome : PairOutcome). outcome.work_item) s.log,
                length-drop p.next_sequence items,
              )),
    )
