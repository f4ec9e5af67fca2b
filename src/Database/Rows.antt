-- ===== src/Database/Rows.antt =====
-- The rows of the analysis database. A batch's row carries its pair rows in the order of their
-- sequence numbers, as the foreign key and the primary key of `pairs` order them; batches stand in a
-- list by `created_order`, the latest first. An outcome's columns are a function of the outcome, so a
-- sealed row keeps the outcome with its invocation.
use src_move.Common.{
  ℕ, ◌+◌, ◌-◌, suc, Bool, true, not, Option, none, some, List, [], ◌∷◌, String, ltb, str_eq,
}
use src_move.Contracts.{PairWorkItem, PairOutcome}

-- An analysis target as it is stored: `target_kind` with `target_value`.
pub data Target : Type 0 where
  total_pairs : ℕ → Target
  through : String → Target
  all_history : Target

pub data BatchStatus : Type 0 where
  batch_pending batch_completed : BatchStatus

pub data InvocationResult : Type 0 where
  running target_reached target_reached_with_failures run_failed interrupted : InvocationResult

-- `StoredAnalysis`
pub record Analysis : Type 0 where
  pub revision : ℕ
  pub definition_sha256 : String
  pub newest_commit : String
  pub oldest_completed_commit : Option String
  pub completed_pair_count : ℕ
  pub history_exhausted : Bool

-- The frozen inputs of a batch. Its commits are never empty: the oldest, then the newer ones.
pub record Manifest : Type 0 where
  pub repository : String
  pub oldest : String
  pub newer : List String
  pub selected_directory : Option String
  pub excluded_suffixes : List String
  pub srcdiff : String
  pub srcmove : String
  pub srcdiff_timeout : ℕ
  pub srcmove_timeout : ℕ
  pub use_position : Bool
  pub source_encoding : String

-- hashlib over canonical JSON: the digest of an analysis definition and that of a pair's identity.
pub record Digests : Type 0 where
  pub definition : Manifest → String
  pub pair : Manifest → String → String → String

-- `StoredBatch`. The digest of the manifest is left out: a batch keeps the manifest itself.
pub record StoredBatch : Type 0 where
  pub batch_id : String
  pub base_revision : ℕ
  pub target : Target
  pub oldest_commit : String
  pub newest_commit : String
  pub pair_count : ℕ
  pub reaches_root : Bool
  pub status : BatchStatus

-- What a sealed row holds: the invocation and the outcome.
pub record Seal : Type 0 where
  pub invocation_id : String
  pub outcome : PairOutcome

pub record PairRow : Type 0 where
  pub batch_sequence : ℕ
  pub distance_from_newest : ℕ
  pub old_commit : String
  pub new_commit : String
  pub pair_fingerprint : String
  pub sealed : Option Seal

pub record Batch : Type 0 where
  pub stored : StoredBatch
  pub manifest : Manifest
  pub pairs : List PairRow

pub record Invocation : Type 0 where
  pub invocation_id : String
  pub result : InvocationResult

pub record Database : Type 0 where
  pub analysis : Analysis
  pub batches : List Batch
  pub invocations : List Invocation

-- `manifest.commits[-1]`
unfoldable pub last_commit : String → List String → String
last_commit oldest [] = oldest
last_commit oldest (c ∷ cs) = last_commit c cs

-- `build_pair_work_items`, from the pair with the older commit `old` on.
unfoldable pub work_from : Digests → Manifest → ℕ → String → List String → List PairWorkItem
work_from digests m sequence old [] = []
work_from digests m sequence old (new ∷ rest) =
    record {
      sequence = sequence;
      old_commit = old;
      new_commit = new;
      fingerprint = digests.pair m old new;
      repository = some m.repository;
      selected_directory = m.selected_directory;
      excluded_suffixes = m.excluded_suffixes;
      srcdiff = some m.srcdiff;
      srcmove = some m.srcmove;
      srcdiff_timeout = m.srcdiff_timeout;
      srcmove_timeout = m.srcmove_timeout;
      use_position = m.use_position;
      source_encoding = m.source_encoding;
    }
    ∷ work_from digests m (suc sequence) new rest

unfoldable pub build_pair_work_items : Digests → Manifest → List PairWorkItem
build_pair_work_items digests m = work_from digests m 0 m.oldest m.newer

-- The rows that `_insert_pending_batch` inserts for a batch's items.
unfoldable pub pending_rows : ℕ → ℕ → List PairWorkItem → List PairRow
pending_rows completed_before pair_count [] = []
pending_rows completed_before pair_count (item ∷ items) =
    record {
      batch_sequence = item.sequence;
      distance_from_newest = completed_before + pair_count - 1 - item.sequence;
      old_commit = item.old_commit;
      new_commit = item.new_commit;
      pair_fingerprint = item.fingerprint;
      sealed = none;
    }
    ∷ pending_rows completed_before pair_count items

-- `_validate_target`, for the targets that are stored.
unfoldable pub is_valid_target : Target → Bool
is_valid_target (total_pairs n) = ltb 0 n
is_valid_target (through commit) = not (str_eq commit "")
is_valid_target all_history = true
