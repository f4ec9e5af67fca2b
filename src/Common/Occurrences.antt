-- ===== src/Common/Occurrences.antt =====
-- Membership and occurrences of an element under a Boolean equality test.
use Prim.Native.Nat.{ℕ, ◌+◌, ◌≤◌}
use mathlib.Core.Path.{◌≡◌, refl}
use mathlib.Core.Logic.{◌↔◌}
use mathlib.Core.Bool.{Bool, true, false, not, ◌&&◌, ◌||◌}
use mathlib.Core.List.{List, [], ◌∷◌, ◌++◌}
use native.Mathlib.Omega.{arith}
use src_move.Common.Tests.{if◌then◌else◌}

pub if_le_one : (c : Bool) → (if c then 1 else 0) ≤ 1
if_le_one true = omega arith
if_le_one false = omega arith

module _ {ℓ} {A : Type ℓ} (same : A → A → Bool) where
  abbrev pub member : A → List A → Bool
  member x [] = false
  member x (y ∷ ys) = same x y || member x ys

  abbrev pub distinct : List A → Bool
  distinct [] = true
  distinct (x ∷ xs) = not (member x xs) && distinct xs

  abbrev pub subset : List A → List A → Bool
  subset [] ys = true
  subset (x ∷ xs) ys = member x ys && subset xs ys

  abbrev pub disjoint : List A → List A → Bool
  disjoint [] ys = true
  disjoint (x ∷ xs) ys = not (member x ys) && disjoint xs ys

  abbrev pub occurrences : A → List A → ℕ
  occurrences x [] = 0
  occurrences x (y ∷ ys) = (if same x y then 1 else 0) + occurrences x ys

module _ {ℓ} {A : Type ℓ} (same : A → A → Bool)
    (same_iff : (x y : A) → (same x y ≡ true) ↔ (x ≡ y)) where
  member_congr : (x y : A) (zs : List A) → same x y ≡ true → member same y zs ≡ member same x zs
  member_congr x y zs h = rw ((same_iff x y).0 h) refl

  -- An element of a list without repetition occurs once, and any other not at all.
  pub occurrences_of_distinct :
      (x : A) (ys : List A)
      → distinct same ys ≡ true
      → occurrences same x ys ≡ (if member same x ys then 1 else 0)
  occurrences_of_distinct x [] h = refl
  occurrences_of_distinct x (y ∷ ys) h =
      ground (arith, occurrences_of_distinct x ys, member_congr x y ys)

  pub occurrences-append :
      (x : A) (ys zs : List A)
      → occurrences same x (ys ++ zs) ≡ occurrences same x ys + occurrences same x zs
  occurrences-append x [] zs = omega arith
  occurrences-append x (y ∷ ys) zs = omega (arith, occurrences-append x ys zs)

  pub member-append :
      (x : A) (ys zs : List A) → member same x (ys ++ zs) ≡ (member same x ys || member same x zs)
  member-append x [] zs = refl
  member-append x (y ∷ ys) zs = ground (arith, member-append x ys zs)

  pub member_of_subset :
      (x : A) (ys zs : List A)
      → subset same ys zs ≡ true
      → member same x ys ≡ true
      → member same x zs ≡ true
  member_of_subset x [] zs s m = cc
  member_of_subset x (y ∷ ys) zs s m = ground (arith, member_of_subset x ys zs, member_congr x y zs)

  -- Lists without repetition and with the same elements have the same occurrences.
  pub occurrences_of_same :
      (x : A) (ys zs : List A)
      → distinct same ys ≡ true
      → distinct same zs ≡ true
      → subset same ys zs ≡ true
      → subset same zs ys ≡ true
      → occurrences same x ys ≡ occurrences same x zs
  occurrences_of_same x ys zs d e s t = ground (
    arith,
    occurrences_of_distinct x ys d,
    occurrences_of_distinct x zs e,
    member_of_subset x ys zs s,
    member_of_subset x zs ys t,
  )

  -- Lists without repetition and without a common element are together without repetition.
  pub distinct-append :
      (ys zs : List A)
      → distinct same ys ≡ true
      → distinct same zs ≡ true
      → disjoint same ys zs ≡ true
      → distinct same (ys ++ zs) ≡ true
  distinct-append [] zs d e s = e
  distinct-append (y ∷ ys) zs d e s = ground (arith, distinct-append ys zs, member-append y ys zs)
