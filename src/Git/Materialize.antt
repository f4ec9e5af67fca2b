-- ===== src/Git/Materialize.antt =====
-- `_validate_change` and the loop of `GitBatch.materialize`. How a blob is written is an argument. An
-- exception is the text of its type and message, without the path and mode that the message names.
use Prim.Native.Char.{code}
use Prim.Native.String.{String}
use src_move.Common.{ℕ, none, Bool, true, not, ◌&&◌, List, [], ◌∷◌, ◌==◌, str_eq, if◌then◌else◌}
use src_move.Common.Checked.{Checked, valid, invalid, and_then}
use src_move.Contracts.{ChangedPath, VerifiedArtifact, exists_in_old, exists_in_new}
use src_move.Git.Inventory.{is_regular}

-- Every character is a zero; so also the empty blob, which is tested before.
abbrev pub is_zeros : String → Bool
is_zeros String.[] = true
is_zeros (String.◌∷◌ c s) = (code c == 48) && is_zeros s

pub data Side : Type 0 where
  old new : Side

abbrev pub exists_on : Side → ChangedPath → Bool
exists_on old = exists_in_old
exists_on new = exists_in_new

abbrev pub mode_on : Side → ChangedPath → String
mode_on old c = c.old_mode
mode_on new c = c.new_mode

abbrev pub blob_on : Side → ChangedPath → String
blob_on old c = c.old_blob
blob_on new c = c.new_blob

-- One turn of the loop of `_validate_change` over the sides.
unfoldable pub validate_side : ChangedPath → Side → Checked (Unit {0})
validate_side c side =
    if not (exists_on side c)
    then valid tt
    else if not (is_regular (mode_on side c))
    then invalid "GitMaterializationError: unsupported Git object mode"
    else if is_zeros (blob_on side c)
    then invalid "GitMaterializationError: missing Git blob"
    else valid tt

-- `_validate_change`; `is_safe` is the test of the path: not empty, relative and without `..`.
unfoldable pub validate_change : (is_safe : String → Bool) → ChangedPath → Checked (Unit {0})
unfolding validate_side
validate_change is_safe c =
    if not (is_safe c.path)
    then invalid "GitMaterializationError: unsafe changed path"
    else and_then (validate_side c old) (λ done. validate_side c new)

-- The loop of `materialize`; `write` stands for `_write_blob`, with blob, mode and path.
unfoldable pub materialize :
    (is_safe : String → Bool) (write : String → String → String → Checked VerifiedArtifact)
    → Side
    → List ChangedPath
    → Checked (List VerifiedArtifact)
unfolding validate_change
materialize is_safe write side [] = valid []
materialize is_safe write side (c ∷ cs) =
    let rest = materialize is_safe write side cs in
    and_then (validate_change is_safe c) (λ done.
      if str_eq (mode_on side c) "000000"
      then rest
      else and_then (write (blob_on side c) (mode_on side c) c.path)
          (λ artifact. and_then rest (λ artifacts. valid (artifact ∷ artifacts))))

-- The artifact that `_write_blob` returns, for a target with a size and a digest.
unfoldable pub blob_artifact :
    (target : String) (size : ℕ) (sha256 : String) → Side → String → String → VerifiedArtifact
blob_artifact target size sha256 side blob mode = record {
  path = target;
  size_bytes = size;
  sha256 = sha256;
  kind = "git_blob";
  validation_status = "valid";
  producing_stage = "git_materialization";
  producing_command = "git" ∷ "cat-file" ∷ "--batch" ∷ [];
  shape = none;
  details = ("side", side_text side) ∷ ("git_blob", blob) ∷ ("git_mode", mode) ∷ [];
  retention = "ephemeral_input";
}
  where
    side_text : Side → String
    side_text old = "old"
    side_text new = "new"
