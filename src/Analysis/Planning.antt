-- ===== src/Analysis/Planning.antt =====
-- The batch that is planned of the rest of a chain.
use src_move.Common.{
  ℕ, zero, suc, ◌+◌, ◌-◌, ◌≤◌, ◌<◌, ◌≡◌, refl, ap, ◌∙◌, Bool, some, List, [], ◌∷◌, String, length,
  leb, min, arith, take, drop, get_elem?, length-take,
}
use mathlib.Core.List.{reverse, reverse_aux}
use src_move.Common.Checked.{valid}
use src_move.Git.Selection.{beginning}
use src_move.Analysis.Loop.{planned}

get_elem?-take : (i n : ℕ) (xs : List String) → i < n → get_elem? (take n xs) i ≡ get_elem? xs i
get_elem?-take i zero xs h = absurd (omega arith)
get_elem?-take i (suc n) [] h = refl
get_elem?-take zero (suc n) (x ∷ xs) h = refl
get_elem?-take (suc i) (suc n) (x ∷ xs) h = get_elem?-take i n xs (omega arith)

pub get_elem?-drop : (p i : ℕ) (xs : List String) → get_elem? (drop p xs) i ≡ get_elem? xs (p + i)
get_elem?-drop zero i xs = let e : i ≡ 0 + i = omega arith in ap (λ k. get_elem? xs k) e
get_elem?-drop (suc p) i [] = refl
get_elem?-drop (suc p) i (x ∷ xs) =
    let e : suc (p + i) ≡ suc p + i = omega arith in
    get_elem?-drop p i xs ∙ ap (λ k. get_elem? (x ∷ xs) k) e

get_of_lt : (i : ℕ) (xs : List String) → i < length xs → (c : String) × (get_elem? xs i ≡ some c)
get_of_lt i [] h = absurd (omega arith)
get_of_lt zero (x ∷ xs) h = (x, refl)
get_of_lt (suc i) (x ∷ xs) h = get_of_lt i xs (omega arith)

reverse_aux-first :
    (x : String) (xs r : List String)
    → get_elem? (reverse_aux (x ∷ xs) r) 0 ≡ get_elem? (x ∷ xs) (length xs)
reverse_aux-first x [] r = refl
reverse_aux-first x (y ∷ ys) r = reverse_aux-first y ys (x ∷ r)

length-reverse_aux : (xs r : List String) → length (reverse_aux xs r) ≡ length xs + length r
length-reverse_aux [] r = omega arith
length-reverse_aux (x ∷ xs) r = omega (arith, length-reverse_aux xs (x ∷ r))

length-reverse : (xs : List String) → length (reverse xs) ≡ length xs
length-reverse xs = omega (arith, length-reverse_aux xs [])

reverse_first :
    (xs : List String) → 0 < length xs → get_elem? (reverse xs) 0 ≡ get_elem? xs (length xs - 1)
reverse_first [] h = absurd (omega arith)
reverse_first (x ∷ xs) h =
    let e : length xs ≡ suc (length xs) - 1 = omega arith in
    reverse_aux-first x xs [] ∙ ap (λ k. get_elem? (x ∷ xs) k) e

-- A batch of at least one pair.
planned_lem :
    (root : Bool) (cs : List String) (oldest : String)
    → 2 ≤ length cs
    → get_elem? cs 0 ≡ some oldest
    → planned root cs
      ≡ valid (record { oldest_commit = oldest; pair_count = length cs - 1; reaches_root = root })
unfolding planned
planned_lem root [] o h e = absurd (omega arith)
planned_lem root (c ∷ []) o h e = absurd (omega arith)
planned_lem root (c ∷ d ∷ cs) o h e =
    let n : suc (length cs) ≡ suc (suc (length cs)) - 1 = omega arith in ground (arith, e, n)

-- The batch that a plan of `size` pairs makes behind the first `done` pairs.
pub planned-beginning :
    (resolved : String) (size : ℕ) (rest : List String)
    → 0 < size
    → 2 ≤ length rest
    → (oldest : String) × (planned
          (beginning resolved size rest).history_exhausted
          (beginning resolved size rest).commits
        ≡ valid (record {
          oldest_commit = oldest;
          pair_count = min size (length rest - 1);
          reaches_root = leb (length rest) (size + 1);
        }))
      × (get_elem? rest (min size (length rest - 1)) ≡ some oldest)
planned-beginning resolved size rest positive two =
    let newest_first = take (size + 1) rest in
    let k = min size (length rest - 1) in
    let size_of = length-take (size + 1) rest in
    let turned = length-reverse newest_first in
    let (oldest, at) = get_of_lt k rest (omega (arith, two)) in
    let index : length newest_first - 1 ≡ k = omega (arith, size_of, two) in
    let first : get_elem? (reverse newest_first) 0 ≡ some oldest =
      reverse_first newest_first (omega (arith, size_of, two))
      ∙ ap (λ i. get_elem? newest_first i) index
      ∙ get_elem?-take k (size + 1) rest (omega (arith, two))
      ∙ at in
    let count : length (reverse newest_first) - 1 ≡ k = omega (arith, turned, index) in
    let root = leb (length rest) (size + 1) in
    let made =
      planned_lem root (reverse newest_first) oldest (omega (arith, turned, size_of, positive, two))
        first in
    (
      oldest,
      made
          ∙ ap
              (λ (n : ℕ).
                valid (record { oldest_commit = oldest; pair_count = n; reaches_root = root }))
              count,
      at,
    )
