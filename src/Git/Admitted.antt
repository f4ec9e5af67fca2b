-- ===== src/Git/Admitted.antt =====
-- The changes that the inventory calls analyzable are materialized: no mode is refused.
use src_move.Common.{
  ◌≡◌, refl, sym, subst, ◌∙◌, ap, Bool, true, not, ◌&&◌, ◌||◌, Option, none, some, List, [], ◌∷◌,
  ◌++◌, map, String, arith, length, ◌%◌, ◌==◌, str_eq, All, Bool-cases, inl, inr,
}
use src_move.Common.Checked.{
  nil_of, valid_inj, valid, and_then_lem, past_guard, all_of, filter, both,
}
use src_move.Contracts.{ChangedPath, VerifiedArtifact, exists_in_old, exists_in_new}
use src_move.Git.Inventory.{
  Text, Header, header_of, is_regular, mode_reasons, unsupported_git_mode_reasons,
  exclusion_reasons, or_else, change_of, changes_of, is_analyzable, Inventory,
  inventory_changed_paths,
}
use src_move.Git.Materialize.{
  Side, old, new, is_zeros, exists_on, mode_on, blob_on, validate_side, validate_change,
  materialize,
}

-- The behaviour of `sorted(set(...))` that is used: no element is lost.
pub record KeepsElements (text : Text) : Type 0 where
  pub empty_only : (xs : List String) → text.sorted_set xs ≡ [] → xs ≡ []

-- A change holds the reasons that its modes and its path give.
abbrev HasReasons : Text → List String → ChangedPath → Type 0
HasReasons text excluded c =
    c.exclusion_reasons ≡ exclusion_reasons text excluded c.old_mode c.new_mode c.path

abbrev IsModeAdmitted : String → Type 0
IsModeAdmitted mode = (str_eq mode "000000" || is_regular mode) ≡ true

or_else_nil : (xs ys : List String) → or_else xs ys ≡ [] → xs ≡ []
or_else_nil [] ys h = refl
or_else_nil (x ∷ xs) ys h = cc

append_nil_both : (xs ys : List String) → xs ++ ys ≡ [] → (xs ≡ []) × (ys ≡ [])
append_nil_both [] ys h = (refl, h)
append_nil_both (x ∷ xs) ys h = cc

mode_of_no_reason : (mode : String) → mode_reasons mode ≡ [] → IsModeAdmitted mode
unfolding mode_reasons
mode_of_no_reason mode h = ground arith

modes-admitted :
    (text : Text)
    → KeepsElements text
    → (excluded : List String) (c : ChangedPath) → HasReasons text excluded c
    → is_analyzable c ≡ true
    → IsModeAdmitted c.old_mode × IsModeAdmitted c.new_mode
unfolding is_analyzable exclusion_reasons unsupported_git_mode_reasons
modes-admitted text keeps excluded c has analyzable =
    let none_left = nil_of c.exclusion_reasons (ground (arith, analyzable)) in
    let no_mode = or_else_nil _ _ (sym has ∙ none_left) in
    let (a, b) = append_nil_both _ _ (keeps.empty_only _ no_mode) in
    (mode_of_no_reason c.old_mode a, mode_of_no_reason c.new_mode b)

change-HasReasons :
    (text : Text) (excluded : List String) (header : Option Header) (path : String)
    (c : ChangedPath)
    → change_of text excluded header path ≡ valid c
    → HasReasons text excluded c
unfolding change_of
change-HasReasons text excluded none path c h = cc
change-HasReasons text excluded (some header) path c h = let same = valid_inj h in rw (← same) refl

changes-HasReasons :
    (text : Text) (excluded fields : List String) (cs : List ChangedPath)
    → changes_of text excluded fields ≡ valid cs
    → All (HasReasons text excluded) cs
unfolding changes_of
changes-HasReasons text excluded [] cs h = rw (← valid_inj h) tt
changes-HasReasons text excluded (header ∷ []) cs h = rw (← valid_inj h) tt
changes-HasReasons text excluded (header ∷ path ∷ fields) cs h =
    let (c, e, h1) =
      and_then_lem (change_of text excluded (header_of (text.words header)) path) _ cs h in
    let (rest, e', h2) = and_then_lem (changes_of text excluded fields) _ cs h1 in
    rw (← valid_inj h2)
      (change-HasReasons text excluded _ path c e, changes-HasReasons text excluded fields rest e')

-- A side of a change has a blob, or there is no file on it.
abbrev pub has_blob : Side → ChangedPath → Bool
has_blob side c = not (exists_on side c) || not (is_zeros (blob_on side c))

-- The path is safe and no blob is missing.
abbrev pub is_complete : (is_safe : String → Bool) → ChangedPath → Bool
is_complete is_safe c = is_safe c.path && (has_blob old c && has_blob new c)

abbrev pub artifact_of :
    (String → String → String → VerifiedArtifact) → Side → ChangedPath → VerifiedArtifact
artifact_of write side c = write (blob_on side c) (mode_on side c) c.path

validate-admitted :
    (is_safe : String → Bool) (c : ChangedPath)
    → IsModeAdmitted c.old_mode
    → IsModeAdmitted c.new_mode
    → is_complete is_safe c ≡ true
    → validate_change is_safe c ≡ valid tt
unfolding validate_change validate_side exists_in_old exists_in_new
validate-admitted is_safe c o n h = ground arith

exists_on_mode :
    (side : Side) (c : ChangedPath) → exists_on side c ≡ not (str_eq (mode_on side c) "000000")
unfolding exists_in_old exists_in_new
exists_on_mode old c = refl
exists_on_mode new c = refl

-- Both modes of a change are absent or regular.
abbrev ModesAdmitted : ChangedPath → Type 0
ModesAdmitted c = IsModeAdmitted c.old_mode × IsModeAdmitted c.new_mode

analyzable-ModesAdmitted :
    (text : Text)
    → KeepsElements text
    → (excluded : List String) (cs : List ChangedPath) → All (HasReasons text excluded) cs
    → All ModesAdmitted (filter is_analyzable cs)
analyzable-ModesAdmitted text keeps excluded [] has = tt
analyzable-ModesAdmitted text keeps excluded (c ∷ cs) has =
    let rest = analyzable-ModesAdmitted text keeps excluded cs has.1 in
    elim (Bool-cases (is_analyzable c)) [
      | inl a ↦ rw a (modes-admitted text keeps excluded c has.0 a, rest)
      | inr n ↦ rw n rest
    ]

materialize-admitted :
    (is_safe : String → Bool) (write : String → String → String → VerifiedArtifact) (side : Side)
    (cs : List ChangedPath)
    → All ModesAdmitted cs
    → all_of (is_complete is_safe) cs ≡ true
    → materialize is_safe (λ blob mode path. valid (write blob mode path)) side cs
      ≡ valid (map (artifact_of write side) (filter (exists_on side) cs))
unfolding materialize
materialize-admitted is_safe write side [] modes h = refl
materialize-admitted is_safe write side (c ∷ cs) modes h =
    let split = both (is_complete is_safe c) (all_of (is_complete is_safe) cs) h in
    let rest = materialize-admitted is_safe write side cs modes.1 split.1 in
    let here = validate-admitted is_safe c modes.0.0 modes.0.1 split.0 in
    elim (Bool-cases (str_eq (mode_on side c) "000000")) [
      | inl a ↦ rw (here, rest, exists_on_mode side c, a) refl
      | inr n ↦ rw (here, rest, exists_on_mode side c, n) refl
    ]

-- When the inventory succeeds, the paths of its analyzable changes are safe and none of their blobs is
-- missing, then materializing a side never refuses a mode: with a writer that succeeds it gives one
-- artifact for each analyzable change that exists on the side, in their order.
pub inventory-materialize :
    {text : Text} (keeps : KeepsElements text) (excluded_suffixes fields : List String)
    (inventory : Inventory) (is_safe : String → Bool)
    (write : String → String → String → VerifiedArtifact) (side : Side)
    → inventory_changed_paths text excluded_suffixes fields ≡ valid inventory
    → all_of (is_complete is_safe) inventory.analyzable ≡ true
    → materialize is_safe (λ blob mode path. valid (write blob mode path)) side inventory.analyzable
      ≡ valid (map (artifact_of write side) (filter (exists_on side) inventory.analyzable))
unfolding inventory_changed_paths
inventory-materialize {text} keeps excluded_suffixes fields inventory is_safe write side h
      complete =
    let lowered = map text.lower excluded_suffixes in
    let a =
      past_guard (not (length fields % 2 == 0)) "Git returned malformed raw changed-path metadata" _
        inventory h in
    let (cs, e, h1) = and_then_lem (changes_of text lowered fields) _ inventory a.1 in
    let same = ap (λ (i : Inventory). i.analyzable) (valid_inj h1) in
    let has = changes-HasReasons text lowered fields cs e in
    let modes = analyzable-ModesAdmitted text keeps lowered cs has in
    materialize-admitted is_safe write side inventory.analyzable
      (subst (λ ds. All ModesAdmitted ds) same modes) complete
