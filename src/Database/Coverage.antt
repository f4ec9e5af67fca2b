-- ===== src/Database/Coverage.antt =====
-- What a stored analysis says of its repository's history, and that what is sealed stays.
use src_move.Common.{
  inl, inr, ◌≡◌, refl, sym, subst, ◌∙◌, List, [], ◌∷◌, ◌++◌, String, length, length-append, arith,
  if◌then◌else◌,
}
use src_move.Database.Rows.{Digests, PairRow, Batch, Database}
use src_move.Database.Store.{is_pending_status}
use src_move.Database.History.{
  DbReach, completed_rows, count_rows, frontier, CountsDown, Linked, AllSealed, History, Done,
  Latest,
}
use src_move.Database.Invariant.Reached.{reach-WellFormed}

-- The rows of all batches, from the oldest commit pair to the newest.
unfoldable pub all_rows : List Batch → List PairRow
all_rows [] = []
all_rows (b ∷ bs) = b.pairs ++ all_rows bs

-- The rows of the completed batches.
unfoldable pub completed_pairs : List Batch → List PairRow
completed_pairs [] = []
completed_pairs (b ∷ bs) =
    let rest = completed_pairs bs in
    if is_pending_status b.stored.status then rest else b.pairs ++ rest

length-all_rows : (bs : List Batch) → length (all_rows bs) ≡ count_rows bs
unfolding all_rows count_rows
length-all_rows [] = refl
length-all_rows (b ∷ bs) = omega (arith, length-append b.pairs (all_rows bs), length-all_rows bs)

CountsDown-append :
    (xs ys : List PairRow) → CountsDown (length ys) xs → CountsDown 0 ys → CountsDown 0 (xs ++ ys)
CountsDown-append [] ys h k = k
CountsDown-append (x ∷ xs) ys h k =
    (omega (arith, h.0, length-append xs ys), CountsDown-append xs ys h.1 k)

Linked-append :
    (a b c : String) (xs ys : List PairRow) → Linked a xs b → Linked b ys c → Linked a (xs ++ ys) c
Linked-append a b c [] ys h k = subst (λ x. Linked x ys c) (sym h) k
Linked-append a b c (x ∷ xs) ys h k = (h.0, Linked-append x.new_commit b c xs ys h.1 k)

AllSealed-append : (xs ys : List PairRow) → AllSealed xs → AllSealed ys → AllSealed (xs ++ ys)
AllSealed-append [] ys h k = k
AllSealed-append (x ∷ xs) ys h k = (h.0, AllSealed-append xs ys h.1 k)

History-CountsDown :
    (newest : String) (bs : List Batch) → History newest bs → CountsDown 0 (all_rows bs)
unfolding all_rows
History-CountsDown newest [] h = tt
History-CountsDown newest (b ∷ bs) h =
    CountsDown-append b.pairs (all_rows bs) (rw (length-all_rows bs) h.0.distances)
      (History-CountsDown newest bs h.1)

History-Linked :
    (newest : String) (bs : List Batch)
    → History newest bs
    → Linked (frontier newest bs) (all_rows bs) newest
unfolding all_rows frontier
History-Linked newest [] h = refl
History-Linked newest (b ∷ bs) h =
    Linked-append b.stored.oldest_commit (frontier newest bs) newest b.pairs (all_rows bs)
      h.0.linked (History-Linked newest bs h.1)

Done-AllSealed : (bs : List Batch) → Done bs → AllSealed (completed_pairs bs)
unfolding completed_pairs
Done-AllSealed [] h = tt
Done-AllSealed (b ∷ bs) (d, h) =
    rw d.status_completed
      (AllSealed-append b.pairs (completed_pairs bs) d.rows_sealed (Done-AllSealed bs h))

Latest-AllSealed : (bs : List Batch) → Latest bs → AllSealed (completed_pairs bs)
unfolding completed_pairs
Latest-AllSealed [] h = tt
Latest-AllSealed (b ∷ bs) (inl p, h) = rw p (Done-AllSealed bs h)
Latest-AllSealed (b ∷ bs) (inr d, h) =
    rw d.status_completed
      (AllSealed-append b.pairs (completed_pairs bs) d.rows_sealed (Done-AllSealed bs h))

length-completed_pairs : (bs : List Batch) → length (completed_pairs bs) ≡ completed_rows bs
unfolding completed_pairs completed_rows
length-completed_pairs [] = refl
length-completed_pairs (b ∷ bs) =
    ground (arith, length-append b.pairs (completed_pairs bs), length-completed_pairs bs)

-- The coverage that an analysis claims: all its rows form one path of adjacent commits up to the
-- newest one, their distances from it count down to 0, and the completed pairs are counted and sealed.
pub record Covers (db : Database) : Type 0 where
  pub one_path :
      Linked
        (frontier db.analysis.newest_commit db.batches)
        (all_rows db.batches)
        db.analysis.newest_commit
  pub distances : CountsDown 0 (all_rows db.batches)
  pub counted : db.analysis.completed_pair_count ≡ length (completed_pairs db.batches)
  pub sealed : AllSealed (completed_pairs db.batches)

-- In every database that creation and successful operations lead to, with any callers and arguments,
-- the stored pairs form one path of adjacent commits that ends at the newest commit, their distances
-- count down to 0 along it, the completed pair count is the number of rows of completed batches, and
-- each of these rows is sealed.
pub reach-Covers : {digests : Digests} {db : Database} → DbReach digests db → Covers db
reach-Covers {digests} {db} r =
    let w = reach-WellFormed digests db r in
    record {
      one_path = History-Linked db.analysis.newest_commit db.batches w.history;
      distances = History-CountsDown db.analysis.newest_commit db.batches w.history;
      counted = w.counted ∙ sym (length-completed_pairs db.batches);
      sealed = Latest-AllSealed db.batches w.latest;
    }
