-- ===== src/Database/Invariant/Sealing.antt =====
-- Sealing a row changes neither the shape of the history nor a row that is sealed already.
use src_move.Common.{
  ℕ, suc, ◌≡◌, refl, inl, inr, Bool, true, false, List, [], ◌∷◌, map, String, length, length-map,
  arith, str_eq, sym, ◌∙◌, if◌then◌else◌,
}
use src_move.Database.Rows.{Seal, PairRow, Batch}
use src_move.Database.Store.{seal_row, seal_batch}
use src_move.Database.History.{
  count_rows, completed_rows, completed_oldest, frontier, CountsDown, Linked, Numbered, AllSealed,
  Continues, History, IsDone, Done, Latest,
}

if_both {ℓ} :
    (P : List PairRow → Type ℓ) (c : Bool) (xs ys : List PairRow)
    → P xs
    → P ys
    → P (if c then xs else ys)
if_both P true xs ys p q = p
if_both P false xs ys p q = q

module _ (sequence : ℕ) (new : Seal) where
  CountsDown-seal :
      (floor : ℕ) (rows : List PairRow)
      → CountsDown floor rows
      → CountsDown floor (map (seal_row sequence new) rows)
  unfolding seal_row
  CountsDown-seal floor [] h = tt
  CountsDown-seal floor (row ∷ rows) h =
      (ground (arith, length-map (seal_row sequence new) rows), CountsDown-seal floor rows h.1)

  Linked-seal :
      (old : String) (rows : List PairRow) (end : String)
      → Linked old rows end
      → Linked old (map (seal_row sequence new) rows) end
  unfolding seal_row
  Linked-seal old [] end h = h
  Linked-seal old (row ∷ rows) end h = (h.0, Linked-seal row.new_commit rows end h.1)

  Numbered-seal :
      (first : ℕ) (rows : List PairRow)
      → Numbered first rows
      → Numbered first (map (seal_row sequence new) rows)
  unfolding seal_row
  Numbered-seal first [] h = tt
  Numbered-seal first (row ∷ rows) h = (h.0, Numbered-seal (suc first) rows h.1)

  AllSealed-seal :
      (rows : List PairRow) → AllSealed rows → AllSealed (map (seal_row sequence new) rows)
  unfolding seal_row
  AllSealed-seal [] h = tt
  AllSealed-seal (row ∷ rows) h = (ground arith, AllSealed-seal rows h.1)

module _ (id : String) (sequence : ℕ) (new : Seal) where
  abbrev sealed_batches : List Batch → List Batch
  sealed_batches bs = map (seal_batch id sequence new) bs

  length-seal : (b : Batch) → length (seal_batch id sequence new b).pairs ≡ length b.pairs
  unfolding seal_batch
  length-seal b = ground (arith, length-map (seal_row sequence new) b.pairs)

  count_rows-seal : (bs : List Batch) → count_rows (sealed_batches bs) ≡ count_rows bs
  unfolding count_rows
  count_rows-seal [] = refl
  count_rows-seal (b ∷ bs) = omega (arith, length-seal b, count_rows-seal bs)

  pub completed_rows-seal :
      (bs : List Batch) → completed_rows (sealed_batches bs) ≡ completed_rows bs
  unfolding completed_rows seal_batch
  completed_rows-seal [] = refl
  completed_rows-seal (b ∷ bs) =
      ground (arith, length-map (seal_row sequence new) b.pairs, completed_rows-seal bs)

  pub completed_oldest-seal :
      (bs : List Batch) → completed_oldest (sealed_batches bs) ≡ completed_oldest bs
  unfolding completed_oldest seal_batch
  completed_oldest-seal [] = refl
  completed_oldest-seal (b ∷ bs) = ground (arith, completed_oldest-seal bs)

  frontier-seal :
      (newest : String) (bs : List Batch) → frontier newest (sealed_batches bs) ≡ frontier newest bs
  unfolding frontier seal_batch
  frontier-seal newest [] = refl
  frontier-seal newest (b ∷ bs) = refl

  Continues-seal :
      (newest : String) (bs : List Batch) (b : Batch)
      → Continues newest bs b
      → Continues newest (sealed_batches bs) (seal_batch id sequence new b)
  unfolding seal_batch
  Continues-seal newest bs b h =
      let here = str_eq b.stored.batch_id id in
      let sealed_rows = map (seal_row sequence new) b.pairs in
      record {
        size = h.size ∙ sym (length-seal b);
        distances = rw (count_rows-seal bs) (
            if_both (CountsDown (count_rows bs)) here sealed_rows b.pairs
              (CountsDown-seal sequence new (count_rows bs) b.pairs h.distances) h.distances);
        linked = rw (frontier-seal newest bs) (
            if_both (λ rows. Linked b.stored.oldest_commit rows (frontier newest bs)) here
              sealed_rows b.pairs
              (Linked-seal sequence new b.stored.oldest_commit b.pairs (frontier newest bs)
                h.linked)
              h.linked);
        numbered =
            if_both (Numbered 0) here sealed_rows b.pairs
              (Numbered-seal sequence new 0 b.pairs h.numbered) h.numbered;
      }

  pub History-seal :
      (newest : String) (bs : List Batch) → History newest bs → History newest (sealed_batches bs)
  History-seal newest [] h = tt
  History-seal newest (b ∷ bs) h = (Continues-seal newest bs b h.0, History-seal newest bs h.1)

  IsDone-seal : (b : Batch) → IsDone b → IsDone (seal_batch id sequence new b)
  unfolding seal_batch
  IsDone-seal b h = record {
    status_completed = h.status_completed;
    rows_sealed =
        if_both AllSealed (str_eq b.stored.batch_id id) (map (seal_row sequence new) b.pairs)
          b.pairs (AllSealed-seal sequence new b.pairs h.rows_sealed) h.rows_sealed;
  }

  Done-seal : (bs : List Batch) → Done bs → Done (sealed_batches bs)
  Done-seal [] h = tt
  Done-seal (b ∷ bs) h = (IsDone-seal b h.0, Done-seal bs h.1)

  pub Latest-seal : (bs : List Batch) → Latest bs → Latest (sealed_batches bs)
  unfolding seal_batch
  Latest-seal [] h = tt
  Latest-seal (b ∷ bs) (inl p, h) = (inl p, Done-seal bs h)
  Latest-seal (b ∷ bs) (inr d, h) = (inr (IsDone-seal b d), Done-seal bs h)
