-- ===== src/Database/Prefix.antt =====
-- `completed_prefix` over the rows of a batch: what it accepts, and how sealing the next row moves it.
use src_move.Common.{
  ℕ, zero, suc, ◌+◌, ◌≤◌, ◌<◌, ◌≡◌, refl, Bool, true, false, none, some, List, [], ◌∷◌, map, drop,
  arith, Option-cases, inl, inr,
}
use src_move.Contracts.{PairWorkItem}
use src_move.Database.Rows.{Seal, PairRow}
use src_move.Database.Store.{ok, prefix_of, find_row, seal_row, same_identity}
use src_move.Database.Commit.{verify_pairs}

pub prefix_bound :
    (e : ℕ) (found : Bool) (p k : ℕ) (rows : List PairRow) → prefix_of e found p rows ≡ ok k → p ≤ k
unfolding prefix_of
prefix_bound e found p k [] h = ground arith
prefix_bound e found p k (row ∷ rows) h = elim (Option-cases row.sealed) [
  | inl o ↦ prefix_bound (suc e) true p k rows (ground (arith, o))
  | inr (s, o) ↦
      let b = prefix_bound (suc e) found (suc p) k rows (ground (arith, o)) in omega (arith, b)
]

-- After an open row the prefix stays.
open_count : (e p k : ℕ) (rows : List PairRow) → prefix_of e true p rows ≡ ok k → k ≡ p
unfolding prefix_of
open_count e p k [] h = ground arith
open_count e p k (row ∷ rows) h = elim (Option-cases row.sealed) [
  | inl o ↦ open_count (suc e) p k rows (ground (arith, o))
  | inr (s, o) ↦ absurd (ground (arith, o))
]

-- After an open row, sealing an earlier row changes nothing.
open_rows :
    (e p k q : ℕ) (new : Seal) (rows : List PairRow)
    → prefix_of e true p rows ≡ ok k
    → q < e
    → (found : Bool) (p' : ℕ) → prefix_of e found p' (map (seal_row q new) rows) ≡ ok p'
unfolding prefix_of seal_row
open_rows e p k q new [] h lt found p' = refl
open_rows e p k q new (row ∷ rows) h lt found p' = elim (Option-cases row.sealed) [
  | inl o ↦
      let rest = open_rows (suc e) p k q new rows (ground (arith, o)) (omega arith) in
      ground (arith, o, rest true p')
  | inr (s, o) ↦ absurd (ground (arith, o))
]

-- Sealing the row at the prefix lengthens the prefix by one.
pub prefix-seal :
    (e k : ℕ) (new : Seal) (rows : List PairRow) (row : PairRow)
    → prefix_of e false e rows ≡ ok k
    → find_row k rows ≡ some row
    → prefix_of e false e (map (seal_row k new) rows) ≡ ok (suc k)
unfolding prefix_of find_row seal_row
prefix-seal e k new [] row h f = cc
prefix-seal e k new (r ∷ rows) row h f = elim (Option-cases r.sealed) [
  | inl o ↦
      let same = open_count (suc e) e k rows (ground (arith, o)) in
      let rest =
        open_rows (suc e) e k k new rows (ground (arith, o)) (omega (arith, same)) false (suc e) in
      ground (arith, o, same, rest)
  | inr (s, o) ↦
      let after : prefix_of (suc e) false (suc e) rows ≡ ok k = ground (arith, o) in
      let bound = prefix_bound (suc e) false (suc e) k rows after in
      let rest = prefix-seal (suc e) k new rows row after (ground (arith, o, bound)) in
      ground (arith, o, bound, rest)
]

-- The row at the prefix is open and is the row of the next item.
pub next_row :
    (e k n : ℕ) (rows : List PairRow) (items : List PairWorkItem) {item : PairWorkItem}
    {rest : List PairWorkItem}
    → prefix_of e false e rows ≡ ok k
    → k ≡ e + n
    → verify_pairs rows items ≡ true
    → drop n items ≡ item ∷ rest
    → (row : PairRow) × (find_row k rows ≡ some row)
      × (row.sealed ≡ none)
      × (same_identity row item ≡ true)
      × (item.sequence ≡ k)
unfolding prefix_of verify_pairs find_row
next_row e k n [] (i ∷ items) h size v d = cc
next_row e k zero [] [] h size v d = cc
next_row e k (suc n) [] [] h size v d = cc
next_row e k n (r ∷ rows) [] h size v d = cc
next_row e k zero (r ∷ rows) (i ∷ items) h size v d = elim (Option-cases r.sealed) [
  | inl o ↦ (r, ground arith, o, ground arith, ground arith)
  | inr (s, o) ↦
      let after : prefix_of (suc e) false (suc e) rows ≡ ok k = ground (arith, o) in
      absurd (omega (arith, prefix_bound (suc e) false (suc e) k rows after))
]
next_row e k (suc n) (r ∷ rows) (i ∷ items) h size v d = elim (Option-cases r.sealed) [
  | inl o ↦
      let same = open_count (suc e) e k rows (ground (arith, o)) in absurd (omega (arith, same))
  | inr (s, o) ↦
      let after : prefix_of (suc e) false (suc e) rows ≡ ok k = ground (arith, o) in
      let (row, f, u, i, q) =
        next_row (suc e) k n rows items after (omega arith) (ground arith) d in
      (row, ground (arith, f, size), u, i, q)
]
