-- ===== src/Execution/Owned.antt =====
-- `PairExecutor`: the directories of the pairs that workers own, until their outcomes are published.
use src_move.Common.{
  ℕ, ◌≡◌, refl, Bool, true, false, ◌&&◌, Option, none, some, List, [], ◌∷◌, ◌++◌, String, str_eq,
  eq_iff, ◌==◌, if◌then◌else◌, arith, Bool-cases, inl, inr,
}
use src_move.Common.Checked.{Checked, valid, invalid, and_then, past_guard, valid_inj, is_some}
use src_move.Contracts.{PairWorkItem, PairOutcome}

-- `(item.sequence, item.fingerprint)`
abbrev pub OwnedKey : Type 0
OwnedKey = ℕ × String

abbrev pub owned_key : PairWorkItem → OwnedKey
owned_key item = (item.sequence, item.fingerprint)

abbrev pub same_owner : OwnedKey → OwnedKey → Bool
same_owner (m, s) (n, t) = (m == n) && str_eq s t

-- `_owned_pairs`: a dict, whose new keys come last.
abbrev pub OwnedPairs : Type 0
OwnedPairs = List (OwnedKey × String)

unfoldable pub owner_of : OwnedKey → OwnedPairs → Option String
owner_of key [] = none
owner_of key ((k, directory) ∷ owned) =
    let rest = owner_of key owned in if same_owner k key then some directory else rest

-- `del self._owned_pairs[key]`
unfoldable pub release_key : OwnedKey → OwnedPairs → OwnedPairs
release_key key [] = []
release_key key ((k, directory) ∷ owned) =
    let rest = release_key key owned in if same_owner k key then owned else (k, directory) ∷ rest

-- `_register_pair`
unfoldable pub register_pair : PairWorkItem → String → OwnedPairs → Checked OwnedPairs
unfolding owner_of
register_pair item directory owned =
    if is_some (owner_of (owned_key item) owned)
    then invalid "commit pair already has an owner"
    else valid (owned ++ (owned_key item, directory) ∷ [])

-- `acknowledge`, which no other change of the key interrupts; `remove_tree` is the removal of a directory
-- below the root of the analysis.
abbrev pub acknowledge_directory :
    (remove_tree : String → Checked (Unit {0}))
    → OwnedKey
    → OwnedPairs
    → Option String
    → Checked OwnedPairs
acknowledge_directory remove_tree key owned none = valid owned
acknowledge_directory remove_tree key owned (some directory) =
    and_then (remove_tree directory) (λ u. valid (release_key key owned))

unfoldable pub acknowledge :
    (remove_tree : String → Checked (Unit {0})) → PairOutcome → OwnedPairs → Checked OwnedPairs
unfolding owner_of release_key
acknowledge remove_tree outcome owned =
    let key = owned_key outcome.work_item in
    acknowledge_directory remove_tree key owned (owner_of key owned)

same_owner_refl : (key : OwnedKey) → same_owner key key ≡ true
same_owner_refl (n, s) = ground (arith, eq_iff s s)

unowned :
    (key : OwnedKey) (k : OwnedKey) (d : String) (owned : OwnedPairs)
    → is_some (owner_of key ((k, d) ∷ owned)) ≡ false
    → (same_owner k key ≡ false) × (is_some (owner_of key owned) ≡ false)
unfolding owner_of
unowned key k d owned h = elim (Bool-cases (same_owner k key)) [
  | inl t ↦ absurd (ground (arith, h, t))
  | inr f ↦ (f, ground (arith, h, f))
]

owner-last :
    (key : OwnedKey) (d : String) (owned : OwnedPairs)
    → is_some (owner_of key owned) ≡ false
    → (owner_of key (owned ++ (key, d) ∷ []) ≡ some d)
      × (release_key key (owned ++ (key, d) ∷ []) ≡ owned)
unfolding owner_of release_key
owner-last key d [] h = rw (same_owner_refl key) (refl, refl)
owner-last key d ((k, e) ∷ owned) h =
    let (other, after) = unowned key k e owned h in
    let (a, b) = owner-last key d owned after in rw (other, a, b) (refl, refl)

-- When a pair has been registered with a directory and this directory can be removed, acknowledging an
-- outcome of the pair's item leaves the owners as they were before the registration.
pub acknowledge-register_pair :
    (remove_tree : String → Checked (Unit {0})) (outcome : PairOutcome) (directory : String)
    (owned registered : OwnedPairs)
    → register_pair outcome.work_item directory owned ≡ valid registered
    → remove_tree directory ≡ valid tt
    → acknowledge remove_tree outcome registered ≡ valid owned
unfolding register_pair acknowledge
acknowledge-register_pair remove_tree outcome directory owned registered h removed =
    let key = owned_key outcome.work_item in
    let (free, e) =
      past_guard (is_some (owner_of key owned)) "commit pair already has an owner" _ registered h in
    let (found, released) = owner-last key directory owned free in
    rw (← valid_inj e, found, removed, released) refl
