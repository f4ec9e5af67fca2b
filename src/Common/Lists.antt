-- ===== src/Common/Lists.antt =====
-- Lists measured and indexed by the native numbers, under the library's names.
use Prim.Native.Nat.{ℕ, zero, suc, ◌+◌, ◌-◌, ◌≤◌, ◌<◌, min}
use mathlib.Core.Path.{◌≡◌, refl, sym, ap, ◌∙◌}
use mathlib.Core.List.{List, [], ◌∷◌, ◌++◌, map}
use mathlib.Core.Option.{Option, none, some}
use native.Mathlib.Omega.{arith}

module _ {ℓ} {A : Type ℓ} where
  abbrev pub length : List A → ℕ
  length [] = 0
  length (x ∷ xs) = suc (length xs)

  abbrev pub get_elem? : List A → ℕ → Option A
  get_elem? [] i = none
  get_elem? (x ∷ xs) zero = some x
  get_elem? (x ∷ xs) (suc i) = get_elem? xs i

  abbrev pub take : ℕ → List A → List A
  take zero xs = []
  take (suc n) [] = []
  take (suc n) (x ∷ xs) = x ∷ take n xs

  abbrev pub drop : ℕ → List A → List A
  drop zero xs = xs
  drop (suc n) [] = []
  drop (suc n) (x ∷ xs) = drop n xs

  abbrev pub All {κ} : (A → Type κ) → List A → Type κ
  All P [] = Unit
  All P (x ∷ xs) = P x × All P xs

module _ {ℓ} {A : Type ℓ} where
  pub length-append : (xs ys : List A) → length (xs ++ ys) ≡ length xs + length ys
  length-append [] ys = omega arith
  length-append (x ∷ xs) ys = omega (arith, length-append xs ys)

  pub length-take : (n : ℕ) (xs : List A) → length (take n xs) ≡ min n (length xs)
  length-take zero xs = omega arith
  length-take (suc n) [] = omega arith
  length-take (suc n) (x ∷ xs) = omega (arith, length-take n xs)

  pub length-drop : (n : ℕ) (xs : List A) → length (drop n xs) ≡ length xs - n
  length-drop zero xs = omega arith
  length-drop (suc n) [] = omega arith
  length-drop (suc n) (x ∷ xs) = omega (arith, length-drop n xs)

  pub take-append-drop : (n : ℕ) (xs : List A) → take n xs ++ drop n xs ≡ xs
  take-append-drop zero xs = refl
  take-append-drop (suc n) [] = refl
  take-append-drop (suc n) (x ∷ xs) = ap (λ l. x ∷ l) (take-append-drop n xs)

  abbrev resize : {m n : ℕ} (f : ℕ → List A) → m ≡ n → f m ≡ f n
  resize f e = ap f e

  pub take-append :
      (n : ℕ) (xs ys : List A) → take n (xs ++ ys) ≡ take n xs ++ take (n - length xs) ys
  take-append zero [] ys = refl
  take-append (suc n) [] ys = let e : suc n ≡ suc n - 0 = omega arith in resize (λ k. take k ys) e
  take-append zero (x ∷ xs) ys =
      let e : 0 ≡ 0 - suc (length xs) = omega arith in resize (λ k. take k ys) e
  take-append (suc n) (x ∷ xs) ys =
      let e : n - length xs ≡ suc n - suc (length xs) = omega arith in
      ap (λ l. x ∷ l) (take-append n xs ys ∙ resize (λ k. take n xs ++ take k ys) e)

  pub drop-append :
      (n : ℕ) (xs ys : List A) → drop n (xs ++ ys) ≡ drop n xs ++ drop (n - length xs) ys
  drop-append zero [] ys = refl
  drop-append (suc n) [] ys = let e : suc n ≡ suc n - 0 = omega arith in resize (λ k. drop k ys) e
  drop-append zero (x ∷ xs) ys =
      let e : 0 ≡ 0 - suc (length xs) = omega arith in resize (λ k. x ∷ (xs ++ drop k ys)) e
  drop-append (suc n) (x ∷ xs) ys =
      let e : n - length xs ≡ suc n - suc (length xs) = omega arith in
      drop-append n xs ys ∙ resize (λ k. drop n xs ++ drop k ys) e

  drop-nil : (n : ℕ) → drop {A = A} n [] ≡ []
  drop-nil zero = refl
  drop-nil (suc n) = refl

  pub drop-drop : (m n : ℕ) (xs : List A) → drop m (drop n xs) ≡ drop (n + m) xs
  drop-drop m zero xs = let e : m ≡ 0 + m = omega arith in resize (λ k. drop k xs) e
  drop-drop m (suc n) [] = drop-nil m ∙ sym (drop-nil (suc n + m))
  drop-drop m (suc n) (x ∷ xs) =
      let e : suc (n + m) ≡ suc n + m = omega arith in
      drop-drop m n xs ∙ resize (λ k. drop k (x ∷ xs)) e

  pub drop_all : (n : ℕ) (xs : List A) → length xs ≤ n → drop n xs ≡ []
  drop_all zero [] h = refl
  drop_all zero (x ∷ xs) h = absurd (omega arith)
  drop_all (suc n) [] h = refl
  drop_all (suc n) (x ∷ xs) h = drop_all n xs (omega arith)

  pub take_all : (n : ℕ) (xs : List A) → length xs ≤ n → take n xs ≡ xs
  take_all zero [] h = refl
  take_all zero (x ∷ xs) h = absurd (omega arith)
  take_all (suc n) [] h = refl
  take_all (suc n) (x ∷ xs) h = ap (λ l. x ∷ l) (take_all n xs (omega arith))

  pub take-take : (m n : ℕ) (xs : List A) → m ≤ n → take m (take n xs) ≡ take m xs
  take-take zero n xs h = refl
  take-take (suc m) zero xs h = absurd (omega arith)
  take-take (suc m) (suc n) [] h = refl
  take-take (suc m) (suc n) (x ∷ xs) h = ap (λ l. x ∷ l) (take-take m n xs (omega arith))

  pub drop-append_of_le :
      (n : ℕ) (xs ys : List A) → n ≤ length xs → drop n (xs ++ ys) ≡ drop n xs ++ ys
  drop-append_of_le zero xs ys h = refl
  drop-append_of_le (suc n) [] ys h = absurd (omega arith)
  drop-append_of_le (suc n) (x ∷ xs) ys h = drop-append_of_le n xs ys (omega arith)

  -- What is left of a list from a position on decides its entry there.
  pub drop_cons :
      (n : ℕ) (xs : List A) {y : A} {ys : List A}
      → drop n xs ≡ y ∷ ys
      → (get_elem? xs n ≡ some y) × (drop (suc n) xs ≡ ys) × (take (suc n) xs ≡ take n xs ++ y ∷ [])
  drop_cons zero [] h = cc
  drop_cons zero (x ∷ xs) h = (cc, cc, cc)
  drop_cons (suc n) [] h = cc
  drop_cons (suc n) (x ∷ xs) h = let (e, d, t) = drop_cons n xs h in (e, d, ap (λ l. x ∷ l) t)

  -- One more entry of a list lengthens its prefix by that entry.
  pub take-suc :
      (n : ℕ) (xs : List A) {y : A}
      → get_elem? xs n ≡ some y
      → take (suc n) xs ≡ take n xs ++ y ∷ []
  take-suc n [] h = cc
  take-suc zero (x ∷ xs) h = cc
  take-suc (suc n) (x ∷ xs) h = ap (λ l. x ∷ l) (take-suc n xs h)

  module _ {κ} (P : A → Type κ) where
    pub All-snoc : (xs : List A) (x : A) → All P xs → P x → All P (xs ++ x ∷ [])
    All-snoc [] x h p = (p, tt)
    All-snoc (y ∷ xs) x h p = (h.0, All-snoc xs x h.1 p)

pub length-map {ℓ κ} :
    {A : Type ℓ} {B : Type κ} (f : A → B) (xs : List A) → length (map f xs) ≡ length xs
length-map f [] = refl
length-map f (x ∷ xs) = ap suc (length-map f xs)

-- An entry that is found stands within the list.
pub get_elem?-lt {ℓ} :
    {A : Type ℓ} (k : ℕ) (xs : List A) {x : A} → get_elem? xs k ≡ some x → k < length xs
get_elem?-lt k [] h = cc
get_elem?-lt zero (y ∷ xs) h = omega arith
get_elem?-lt (suc k) (y ∷ xs) h = omega (arith, get_elem?-lt k xs h)
