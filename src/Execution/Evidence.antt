-- ===== src/Execution/Evidence.antt =====
-- srcmove_history/compact.py: what `compact_pair_outcome` takes from an outcome, with its refusals, and the
-- evidence that it keeps of the processes of a failed pair. Files, digests and canonical JSON are
-- arguments; so is the reduction of a results document.
use src_move.Common.{
  ℕ, ◌-◌, ◌/◌, Bool, true, false, not, Option, none, some, List, [], ◌∷◌, ◌++◌, String, str_eq, ltb,
  ◌==◌, if◌then◌else◌, length, take,
}
use src_move.Common.Checked.{is_nil, Checked, valid, invalid, and_then, filter}
use src_move.Capture.Window.{last}
use src_move.Contracts.{
  PairStatus, completed, no_analyzable_change, export_failed, srcdiff_failed, srcmove_failed,
  orchestration_failed, Scalar, VerifiedArtifact, CaptureObservation, ProcessOutcome, PairOutcome,
}
use src_move.Execution.Promise.{is_results}

-- `COMPACT_FAILURE_LOG_LIMIT`
abbrev pub compact_failure_log_limit : ℕ
compact_failure_log_limit = 65536

-- The cut of `_capture_evidence`, to the beginning and the end.
unfoldable pub cut_log : ℕ → List ℕ → List ℕ
cut_log limit retained =
    let half = limit / 2 in
    if ltb limit (length retained) then take half retained ++ last half retained else retained

-- What `_capture_evidence` returns; the retained bytes before base64.
pub record CaptureEvidence : Type 0 where
  pub total_bytes : ℕ
  pub runtime_retained_bytes : ℕ
  pub durable_retained_bytes : ℕ
  pub runtime_omitted_bytes : ℕ
  pub durable_omitted_bytes : ℕ
  pub truncated : Bool
  pub sha256 : String
  pub retained : Option (List ℕ)
  pub retained_sha256 : Option String

unfoldable pub evidence_of :
    (digest : List ℕ → String) → CaptureObservation → List ℕ → CaptureEvidence
evidence_of digest capture retained = record {
  total_bytes = capture.total_bytes;
  runtime_retained_bytes = capture.retained_bytes;
  durable_retained_bytes = length retained;
  runtime_omitted_bytes = capture.omitted_bytes;
  durable_omitted_bytes = capture.total_bytes - length retained;
  truncated = capture.truncated;
  sha256 = capture.sha256;
  retained = if is_nil retained then none else some retained;
  retained_sha256 = if is_nil retained then none else some (digest retained);
}

-- What `_process_evidence` returns, but for the fields that it copies.
pub record ProcessEvidence : Type 0 where
  pub process : ProcessOutcome
  pub stdout : CaptureEvidence
  pub stderr : CaptureEvidence

-- What `_failure_evidence` returns.
pub record FailureEvidence : Type 0 where
  pub srcdiff : Option ProcessEvidence
  pub srcmove : Option ProcessEvidence

-- The only one of the results, for a completed outcome.
abbrev pub only_result : List VerifiedArtifact → Checked VerifiedArtifact
only_result (artifact ∷ []) = valid artifact
only_result [] = invalid "completed commit pair requires one valid results artifact"
only_result (a ∷ b ∷ artifacts) =
    invalid "completed commit pair requires one valid results artifact"

-- What is taken of the results of a completed outcome: size, digest and the reduced document.
pub record CompactResults (M : Type 0) : Type 0 where
  pub results_size_bytes : ℕ
  pub results_sha256 : String
  pub moves : M

-- `status.endswith("_failed")`
abbrev pub is_failed : PairStatus → Bool
is_failed completed = false
is_failed no_analyzable_change = false
is_failed export_failed = true
is_failed srcdiff_failed = true
is_failed srcmove_failed = true
is_failed orchestration_failed = true

abbrev pub is_completed : PairStatus → Bool
is_completed completed = true
is_completed no_analyzable_change = false
is_completed export_failed = false
is_completed srcdiff_failed = false
is_completed srcmove_failed = false
is_completed orchestration_failed = false

module _ (read_file : String → Checked (List ℕ)) (digest : List ℕ → String) where
  -- The bytes of the log, of which there is no file when nothing was retained.
  abbrev pub read_log : Option String → Checked (List ℕ)
  read_log none = valid []
  read_log (some path) = read_file path

  -- `_capture_evidence`
  unfoldable pub capture_evidence : CaptureObservation → Checked CaptureEvidence
  unfolding evidence_of cut_log
  capture_evidence capture = and_then (read_log capture.path) (λ retained.
      if not (length retained == capture.retained_bytes)
      then invalid "bounded process capture size changed before publication"
      else valid (evidence_of digest capture (cut_log compact_failure_log_limit retained)))

  -- `_process_evidence`
  unfoldable pub process_evidence : Option ProcessOutcome → Checked (Option ProcessEvidence)
  unfolding capture_evidence
  process_evidence none = valid none
  process_evidence (some p) = and_then (capture_evidence p.stdout) (λ out.
      and_then (capture_evidence p.stderr)
        (λ err. valid (some (record { process = p; stdout = out; stderr = err }))))

  -- `_failure_evidence`
  unfoldable pub failure_evidence : PairOutcome → Checked FailureEvidence
  unfolding process_evidence
  failure_evidence o = and_then (process_evidence o.srcdiff_process) (λ d.
      and_then (process_evidence o.srcmove_process)
        (λ m. valid (record { srcdiff = d; srcmove = m })))

  -- `_read_verified_file`
  unfoldable pub read_verified_file : VerifiedArtifact → Checked (List ℕ)
  read_verified_file artifact = and_then (read_file artifact.path) (λ content.
      if not (length content == artifact.size_bytes)
      then invalid "srcMove results size changed before compact publication"
      else if not (str_eq (digest content) artifact.sha256)
      then invalid "srcMove results checksum changed before compact publication"
      else valid content)

  module _ {M : Type 0} (compact_results : List ℕ → List (String × Scalar) → Checked M) where
    -- The results of a completed outcome; `compact_results` stands for `_compact_results`.
    unfoldable pub results_of_outcome : PairOutcome → Checked (CompactResults M)
    unfolding read_verified_file
    results_of_outcome o = and_then (only_result (filter is_results o.artifacts)) (λ artifact.
        and_then (read_verified_file artifact) (λ content.
          and_then (compact_results content o.metrics) (λ moves. valid (record {
            results_size_bytes = length content;
            results_sha256 = artifact.sha256;
            moves = moves;
          }))))

    -- `CompactPair`, with the evidence and the moves before they are written as JSON, and without the
    -- metrics and timings.
    pub record CompactPair : Type 0 where
      pub status : PairStatus
      pub changed_path_count : ℕ
      pub analyzable_path_count : ℕ
      pub error : Option String
      pub evidence : Option FailureEvidence
      pub results : Option (CompactResults M)

    abbrev pub map_some {ℓ} : {A : Type ℓ} → Checked A → Checked (Option A)
    map_some c = and_then c (λ a. valid (some a))

    -- `compact_pair_outcome`, after its checks of metrics and timings.
    unfoldable pub compact_pair_outcome : PairOutcome → Checked CompactPair
    unfolding results_of_outcome failure_evidence
    compact_pair_outcome o =
        and_then (if is_completed o.status then map_some (results_of_outcome o) else valid none)
          (λ results.
            and_then (if is_failed o.status then map_some (failure_evidence o) else valid none)
              (λ evidence. valid (record {
                status = o.status;
                changed_path_count = length o.changed_paths;
                analyzable_path_count = length o.analyzable_paths;
                error = o.error;
                evidence = evidence;
                results = results;
              })))
