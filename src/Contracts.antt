-- ===== src/Contracts.antt =====
-- srcmove_history/contracts.py: the immutable values that the workers of a history analysis exchange.
-- A path is its text, and a duration is a number of microseconds.
use src_move.Common.{
  ℕ, ◌≡◌, refl, ap, Bool, true, false, not, ◌&&◌, Option, none, some, List, [], ◌∷◌, String, arith,
  ltb, ◌==◌, str_eq, eq_iff,
}

-- `PairStatus`
pub data PairStatus : Type 0 where
  completed no_analyzable_change export_failed srcdiff_failed srcmove_failed orchestration_failed :
      PairStatus

-- `ChangedPath`
pub record ChangedPath : Type 0 where
  pub status : String
  pub path : String
  pub old_mode : String
  pub new_mode : String
  pub old_blob : String
  pub new_blob : String
  pub exclusion_reasons : List String

-- `ChangedPath.exists_in_old`
unfoldable pub exists_in_old : ChangedPath → Bool
exists_in_old p = not (str_eq p.old_mode "000000")

-- `ChangedPath.exists_in_new`
unfoldable pub exists_in_new : ChangedPath → Bool
exists_in_new p = not (str_eq p.new_mode "000000")

-- `ChangedPath.content_changed`
unfoldable pub content_changed : ChangedPath → Bool
content_changed p = not (str_eq p.old_blob p.new_blob)

-- A metric's scalar value.
pub data Scalar : Type 0 where
  null : Scalar
  flag : Bool → Scalar
  count : ℕ → Scalar
  text : String → Scalar

-- `PairWorkItem`. A sequence is not negative once `__post_init__` has admitted it.
pub record PairWorkItem : Type 0 where
  pub sequence : ℕ
  pub old_commit : String
  pub new_commit : String
  pub fingerprint : String
  pub repository : Option String
  pub selected_directory : Option String
  pub excluded_suffixes : List String
  pub srcdiff : Option String
  pub srcmove : Option String
  pub srcdiff_timeout : ℕ
  pub srcmove_timeout : ℕ
  pub use_position : Bool
  pub source_encoding : String

-- The checks of `PairWorkItem.__post_init__`.
unfoldable pub is_admitted_item : PairWorkItem → Bool
is_admitted_item item =
    not (str_eq item.old_commit "")
    && not (str_eq item.new_commit "")
    && not (str_eq item.fingerprint "")
    && (ltb 0 item.srcdiff_timeout && ltb 0 item.srcmove_timeout)

-- `VerifiedArtifact`
pub record VerifiedArtifact : Type 0 where
  pub path : String
  pub size_bytes : ℕ
  pub sha256 : String
  pub kind : String
  pub validation_status : String
  pub producing_stage : String
  pub producing_command : List String
  pub shape : Option String
  pub details : List (String × String)
  pub retention : String

-- `CaptureObservation`
pub record CaptureObservation : Type 0 where
  pub path : Option String
  pub total_bytes : ℕ
  pub retained_bytes : ℕ
  pub omitted_bytes : ℕ
  pub truncated : Bool
  pub sha256 : String

-- `ProcessOutcome`
pub record ProcessOutcome : Type 0 where
  pub command : List String
  pub working_directory : String
  pub started_at : String
  pub completed_at : String
  pub elapsed : ℕ
  pub termination_status : String
  pub exit_code : Option ℕ
  pub signal_number : Option ℕ
  pub timed_out : Bool
  pub spawn_error : Option String
  pub cleanup_signals : List ℕ
  pub process_group_cleaned : Bool
  pub stdout : CaptureObservation
  pub stderr : CaptureObservation
  pub peak_rss_bytes : Option ℕ
  pub oom_kill_observed : Bool
  pub output_artifact : Option VerifiedArtifact
  pub validation_error : Option String

-- `ProcessOutcome.admitted`
unfoldable pub admitted : ProcessOutcome → Bool
admitted p =
    str_eq p.termination_status "exited"
    && exited_zero p.exit_code
    && has_artifact p.output_artifact
    && no_error p.validation_error
  where
    exited_zero : Option ℕ → Bool
    exited_zero none = false
    exited_zero (some code) = code == 0

    has_artifact : Option VerifiedArtifact → Bool
    has_artifact none = false
    has_artifact (some a) = true

    no_error : Option String → Bool
    no_error none = true
    no_error (some e) = false

-- `PairOutcome`
pub record PairOutcome : Type 0 where
  pub work_item : PairWorkItem
  pub status : PairStatus
  pub changed_paths : List ChangedPath
  pub analyzable_paths : List ChangedPath
  pub srcdiff_process : Option ProcessOutcome
  pub srcmove_process : Option ProcessOutcome
  pub artifacts : List VerifiedArtifact
  pub metrics : List (String × Scalar)
  pub timings : List (String × ℕ)
  pub error : Option String

-- `==` of optional texts and of tuples of texts.
unfoldable pub same_option : Option String → Option String → Bool
same_option none none = true
same_option none (some t) = false
same_option (some s) none = false
same_option (some s) (some t) = str_eq s t

unfoldable pub same_texts : List String → List String → Bool
same_texts [] [] = true
same_texts [] (t ∷ ts) = false
same_texts (s ∷ ss) [] = false
same_texts (s ∷ ss) (t ∷ ts) = str_eq s t && same_texts ss ts

unfoldable pub same_bool : Bool → Bool → Bool
same_bool true b = b
same_bool false b = not b

-- `==` of two work items: a frozen dataclass compares field by field.
unfoldable pub same_item : PairWorkItem → PairWorkItem → Bool
unfolding same_option same_texts same_bool
same_item a b =
    (a.sequence == b.sequence)
    && (str_eq a.old_commit b.old_commit
        && (str_eq a.new_commit b.new_commit
            && (str_eq a.fingerprint b.fingerprint
                && (same_option a.repository b.repository
                    && (same_option a.selected_directory b.selected_directory
                        && (same_texts a.excluded_suffixes b.excluded_suffixes
                            && (same_option a.srcdiff b.srcdiff
                                && (same_option a.srcmove b.srcmove
                                    && ((a.srcdiff_timeout == b.srcdiff_timeout)
                                        && ((a.srcmove_timeout == b.srcmove_timeout)
                                            && (same_bool a.use_position b.use_position
                                                && str_eq a.source_encoding
                                                    b.source_encoding)))))))))))

pub same_option→≡ : (a b : Option String) → same_option a b ≡ true → a ≡ b
unfolding same_option
same_option→≡ none none h = refl
same_option→≡ none (some t) h = cc
same_option→≡ (some s) none h = cc
same_option→≡ (some s) (some t) h = ap some ((eq_iff s t).0 h)

pub same_texts→≡ : (a b : List String) → same_texts a b ≡ true → a ≡ b
unfolding same_texts
same_texts→≡ [] [] h = refl
same_texts→≡ [] (t ∷ ts) h = cc
same_texts→≡ (s ∷ ss) [] h = cc
same_texts→≡ (s ∷ ss) (t ∷ ts) h = ground (arith, eq_iff s t, same_texts→≡ ss ts)

pub same_bool→≡ : (a b : Bool) → same_bool a b ≡ true → a ≡ b
unfolding same_bool
same_bool→≡ a b h = ground arith

-- Two work items that compare equal are the same.
pub same_item→≡ : (a b : PairWorkItem) → same_item a b ≡ true → a ≡ b
unfolding same_item
same_item→≡ a b h = ground (
  arith,
  eq_iff a.old_commit b.old_commit,
  eq_iff a.new_commit b.new_commit,
  eq_iff a.fingerprint b.fingerprint,
  same_option→≡ a.repository b.repository,
  same_option→≡ a.selected_directory b.selected_directory,
  same_texts→≡ a.excluded_suffixes b.excluded_suffixes,
  same_option→≡ a.srcdiff b.srcdiff,
  same_option→≡ a.srcmove b.srcmove,
  same_bool→≡ a.use_position b.use_position,
  eq_iff a.source_encoding b.source_encoding,
)
