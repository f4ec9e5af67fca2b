-- ===== src/Common/Checked.antt =====
-- A value, or the message of the exception that the code raises, with the rules to read a result back.
use Prim.Native.String.{String}
use mathlib.Core.Path.{◌≡◌, refl}
use mathlib.Core.Logic.{◌⊎◌, inl, inr}
use mathlib.Core.Bool.{Bool, true, false, not, ◌&&◌, ◌||◌}
use mathlib.Core.List.{List, [], ◌∷◌}
use mathlib.Core.Option.{Option, none, some}
use src_move.Common.Tests.{if◌then◌else◌}

pub data Checked {ℓ} (A : Type ℓ) : Type ℓ where
  valid : A → Checked A
  invalid : String → Checked A

abbrev pub and_then {ℓ κ} : {A : Type ℓ} {B : Type κ} → Checked A → (A → Checked B) → Checked B
and_then (invalid e) next = invalid e
and_then (valid a) next = next a

-- The successes of a test, read back.
pub and_then_lem {ℓ κ} :
    {A : Type ℓ} {B : Type κ} (c : Checked A) (next : A → Checked B) (b : B)
    → and_then c next ≡ valid b
    → (a : A) × (c ≡ valid a) × (next a ≡ valid b)
and_then_lem (invalid e) next b h = cc
and_then_lem (valid a) next b h = (a, refl, h)

-- A guard that a valid result has passed.
pub past_guard {ℓ} :
    {A : Type ℓ} (c : Bool) (m : String) (x : Checked A) (a : A)
    → (if c then invalid m else x) ≡ valid a
    → (c ≡ false) × (x ≡ valid a)
past_guard true m x a h = cc
past_guard false m x a h = (refl, h)

pub valid_inj {ℓ} : {A : Type ℓ} {a b : A} → valid a ≡ valid b → a ≡ b
valid_inj h = cc

-- The branch that has given a result.
pub branch_taken {ℓ} :
    {A : Type ℓ} (c : Bool) (x y r : A)
    → (if c then x else y) ≡ r
    → ((c ≡ true) × (x ≡ r)) ⊎ ((c ≡ false) × (y ≡ r))
branch_taken true x y r h = inl (refl, h)
branch_taken false x y r h = inr (refl, h)

pub true_of_not : (b : Bool) → not b ≡ false → b ≡ true
true_of_not true h = refl
true_of_not false h = cc

pub both : (a b : Bool) → (a && b) ≡ true → (a ≡ true) × (b ≡ true)
both true b h = (refl, h)
both false b h = cc

abbrev pub all_of {ℓ} : {A : Type ℓ} → (A → Bool) → List A → Bool
all_of p [] = true
all_of p (x ∷ xs) = p x && all_of p xs

abbrev pub any_of {ℓ} : {A : Type ℓ} → (A → Bool) → List A → Bool
any_of p [] = false
any_of p (x ∷ xs) = p x || any_of p xs

abbrev pub is_some {ℓ} : {A : Type ℓ} → Option A → Bool
is_some none = false
is_some (some a) = true

abbrev pub is_nil {ℓ} : {A : Type ℓ} → List A → Bool
is_nil [] = true
is_nil (x ∷ xs) = false

pub nil_of {ℓ} : {A : Type ℓ} (xs : List A) → is_nil xs ≡ true → xs ≡ []
nil_of [] h = refl
nil_of (x ∷ xs) h = cc

-- The entries that pass a test, in their order.
abbrev pub filter {ℓ} : {A : Type ℓ} → (A → Bool) → List A → List A
filter p [] = []
filter p (x ∷ xs) = let rest = filter p xs in if p x then x ∷ rest else rest
