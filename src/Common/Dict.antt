-- ===== src/Common/Dict.antt =====
-- A Python `dict` with integer keys: an association list in which `insert` replaces a key's value.
use src_move.Common.Tests.{Bool-cases, ◌==◌, if◌then◌else◌}
use src_move.Common.Lists.{length, All}
use Prim.Native.Nat.{ℕ, suc, ◌+◌}
use mathlib.Core.Path.{◌≡◌, refl, subst}
use mathlib.Core.Logic.{inl, inr}
use mathlib.Core.Option.{Option, none, some}
use mathlib.Core.List.{List, [], ◌∷◌}
use native.Mathlib.Omega.{arith}

module _ {ℓ} {V : Type ℓ} where
  unfoldable pub lookup : ℕ → List (ℕ × V) → Option V
  lookup k [] = none
  lookup k ((j, v) ∷ d) = if j == k then some v else lookup k d

  -- `d[k] = v`
  unfoldable pub insert : ℕ → V → List (ℕ × V) → List (ℕ × V)
  insert k v [] = (k, v) ∷ []
  insert k v ((j, w) ∷ d) = if j == k then (k, v) ∷ d else (j, w) ∷ insert k v d

  -- `d.pop(k)`
  unfoldable pub remove : ℕ → List (ℕ × V) → List (ℕ × V)
  remove k [] = []
  remove k ((j, v) ∷ d) = if j == k then d else (j, v) ∷ remove k d

  -- How often `k` is a key.
  unfoldable pub count_key : ℕ → List (ℕ × V) → ℕ
  count_key k [] = 0
  count_key k ((j, v) ∷ d) = (if j == k then 1 else 0) + count_key k d

  -- A key that occurs has a value.
  pub lookup-none : (k : ℕ) (d : List (ℕ × V)) → lookup k d ≡ none → count_key k d ≡ 0
  unfolding lookup count_key
  lookup-none k [] h = refl
  lookup-none k ((j, v) ∷ d) h = ground (arith, lookup-none k d)

  pub length-insert :
      (k : ℕ) (v : V) (d : List (ℕ × V))
      → count_key k d ≡ 0
      → length (insert k v d) ≡ suc (length d)
  unfolding insert count_key
  length-insert k v [] h = refl
  length-insert k v ((j, w) ∷ d) h = ground (arith, length-insert k v d)

  pub count_key-insert :
      (k j : ℕ) (v : V) (d : List (ℕ × V))
      → count_key k d ≡ 0
      → count_key j (insert k v d) ≡ (if k == j then 1 else 0) + count_key j d
  unfolding insert count_key
  count_key-insert k j v [] h = refl
  count_key-insert k j v ((i, w) ∷ d) h = ground (arith, count_key-insert k j v d)

  pub length-remove :
      (k : ℕ) (v : V) (d : List (ℕ × V))
      → lookup k d ≡ some v
      → suc (length (remove k d)) ≡ length d
  unfolding lookup remove
  length-remove k v [] h = cc
  length-remove k v ((j, w) ∷ d) h = ground (arith, length-remove k v d)

  pub count_key-remove :
      (k j : ℕ) (v : V) (d : List (ℕ × V))
      → lookup k d ≡ some v
      → (if k == j then 1 else 0) + count_key j (remove k d) ≡ count_key j d
  unfolding lookup remove count_key
  count_key-remove k j v [] h = cc
  count_key-remove k j v ((i, w) ∷ d) h = ground (arith, count_key-remove k j v d)

  module _ {κ} (P : ℕ × V → Type κ) where
    pub All-insert : (k : ℕ) (v : V) (d : List (ℕ × V)) → P (k, v) → All P d → All P (insert k v d)
    unfolding insert
    All-insert k v [] p h = (p, tt)
    All-insert k v ((j, w) ∷ d) p h = ground (arith, All-insert k v d p h.1)

    pub All-remove : (k : ℕ) (d : List (ℕ × V)) → All P d → All P (remove k d)
    unfolding remove
    All-remove k [] h = tt
    All-remove k ((j, w) ∷ d) h = ground (arith, All-remove k d h.1)

    pub All-lookup : (k : ℕ) (v : V) (d : List (ℕ × V)) → lookup k d ≡ some v → All P d → P (k, v)
    unfolding lookup
    All-lookup k v [] e h = cc
    All-lookup k v ((j, w) ∷ d) e h = elim (Bool-cases (j == k)) [
      | inl same ↦ let found : ◌≡◌ {A = ℕ × V} (j, w) (k, v) = ground arith in subst P found h.0
      | inr other ↦ All-lookup k v d (rw other at e) h.1
    ]
