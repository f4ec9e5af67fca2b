-- ===== src/Common/Counting.antt =====
-- The threads of a pool, as a function of the thread's number: changing one, and counting over all.
use Prim.Native.Nat.{ℕ, zero, suc, ◌+◌, ◌<◌}
use mathlib.Core.Path.{◌≡◌, refl}
use mathlib.Core.Logic.{ite, if_pos, if_neg}
use native.Mathlib.Decide.{ℕ_discrete}
use native.Mathlib.Omega.{arith}

abbrev pub update {ℓ} : {A : Type ℓ} → (ℕ → A) → ℕ → A → ℕ → A
update family at value j = ite (ℕ_discrete at j) value (family j)

-- The sum of `measure` over the members below `count`.
unfoldable pub total {ℓ} : {A : Type ℓ} → (A → ℕ) → ℕ → (ℕ → A) → ℕ
total measure zero family = 0
total measure (suc count) family = measure (family count) + total measure count family

-- Families that agree below `count` have the same sum.
total-agree {ℓ} :
    {A : Type ℓ} (measure : A → ℕ) (count : ℕ) (left right : ℕ → A)
    → ((j : ℕ) → j < count → measure (left j) ≡ measure (right j))
    → total measure count left ≡ total measure count right
unfolding total
total-agree measure zero left right same = refl
total-agree measure (suc count) left right same =
    let rest = total-agree measure count left right (λ j lt. same j (omega arith)) in
    omega (arith, rest, same count (omega arith))

-- An update at a member below `count` exchanges that member's measure for the new one's.
pub total-update {ℓ} :
    {A : Type ℓ} (measure : A → ℕ) (count : ℕ) (family : ℕ → A) (at : ℕ) (value : A)
    → at < count
    → total measure count (update family at value) + measure (family at)
      ≡ total measure count family + measure value
unfolding total
total-update measure zero family at value below = absurd (omega arith)
total-update measure (suc count) family at value below = elim (ℕ_discrete at count) [
  | yes last ↦
      let rest = total-agree measure count (update family at value) family (λ j lt. ground arith) in
      ground (arith, rest)
  | no earlier ↦
      let rest = total-update measure count family at value (omega arith) in ground (arith, rest)
]

-- Every member weighs nothing, so the sum is zero.
pub total-eq-zero {ℓ} :
    {A : Type ℓ} (measure : A → ℕ) (count : ℕ) (family : ℕ → A)
    → ((j : ℕ) → j < count → measure (family j) ≡ 0)
    → total measure count family ≡ 0
unfolding total
total-eq-zero measure zero family none_weighs = refl
total-eq-zero measure (suc count) family none_weighs =
    let rest = total-eq-zero measure count family (λ j lt. none_weighs j (omega arith)) in
    omega (arith, rest, none_weighs count (omega arith))

-- What holds of every member holds after an update by a value of which it holds.
pub update-All {ℓ κ} :
    {A : Type ℓ} (P : A → Type κ) (f : ℕ → A) (i : ℕ) (a : A)
    → P a
    → ((j : ℕ) → P (f j))
    → (j : ℕ) → P (update f i a j)
update-All P f i a p h j = elim (ℕ_discrete i j) [
  | yes e ↦ rw (if_pos _ e) p
  | no e ↦ rw (if_neg _ e) (h j)
]
