-- ===== src/Execution/Process.antt =====
-- `run_process`: the outcome of a supervised tool with its bounded logs and its validated output.
use Prim.Native.String.{◌++◌ as str_append}
use src_move.Common.{
  ℕ, Bool, false, not, ◌&&◌, Option, none, some, List, String, ltb, ◌==◌, str_eq, if◌then◌else◌,
  length,
}
use src_move.Common.Checked.{is_nil, Checked, valid, invalid, and_then}
use src_move.Capture.{CaptureResult}
use src_move.Contracts.{VerifiedArtifact, CaptureObservation, ProcessOutcome}
use src_move.Execution.Artifacts.{ArtifactAdmission, accepted, refused, os_error, raised}

-- What `run_supervised_process` returns, and the clocks that `run_process` reads.
pub record Supervised : Type 0 where
  pub command : List String
  pub started_at : String
  pub completed_at : String
  pub elapsed : ℕ
  pub termination_status : String
  pub exit_code : Option ℕ
  pub signal_number : Option ℕ
  pub timed_out : Bool
  pub spawn_error : Option String
  pub signals_sent : List ℕ
  pub process_group_cleaned : Bool
  pub stdout : CaptureResult
  pub stderr : CaptureResult
  pub peak_rss_bytes : Option ℕ
  pub oom_kill_observed : Bool

-- The writing of `_persist_capture`: what was retained, if anything, is written to the path.
abbrev pub write_capture :
    (write : String → List ℕ → Checked (Unit {0})) → String → CaptureResult → Checked (Unit {0})
write_capture write path capture =
    if is_nil capture.retained then valid tt else write path capture.retained

-- What `_persist_capture` returns, when the file is written.
unfoldable pub persist_capture : String → CaptureResult → CaptureObservation
persist_capture path capture = record {
  path = if is_nil capture.retained then none else some path;
  total_bytes = capture.total_bytes;
  retained_bytes = length capture.retained;
  omitted_bytes = capture.omitted_bytes;
  truncated = capture.truncated;
  sha256 = capture.sha256;
}

-- The command of the process, when the validator has given none.
abbrev pub with_command : List String → VerifiedArtifact → VerifiedArtifact
with_command command artifact = record artifact {
  producing_command =
      if is_nil artifact.producing_command then command else artifact.producing_command;
}

abbrev pub output_artifact :
    List String → ArtifactAdmission VerifiedArtifact → Option VerifiedArtifact
output_artifact command (accepted artifact) = some (with_command command artifact)
output_artifact command (refused message none) = none
output_artifact command (refused message (some artifact)) = some (with_command command artifact)
output_artifact command (os_error message) = none
output_artifact command (raised message) = none

abbrev pub validation_error : ArtifactAdmission VerifiedArtifact → Option String
validation_error (accepted artifact) = none
validation_error (refused message artifact) = some message
validation_error (os_error message) = some message
validation_error (raised message) = none

-- `ProcessOutcome(...)` at the end of `run_process`.
unfoldable pub process_outcome :
    String
    → CaptureObservation
    → CaptureObservation
    → Supervised
    → ArtifactAdmission VerifiedArtifact
    → ProcessOutcome
process_outcome cwd stdout stderr result admission = record {
  command = result.command;
  working_directory = cwd;
  started_at = result.started_at;
  completed_at = result.completed_at;
  elapsed = result.elapsed;
  termination_status = result.termination_status;
  exit_code = result.exit_code;
  signal_number = result.signal_number;
  timed_out = result.timed_out;
  spawn_error = result.spawn_error;
  cleanup_signals = result.signals_sent;
  process_group_cleaned = result.process_group_cleaned;
  stdout = stdout;
  stderr = stderr;
  peak_rss_bytes = result.peak_rss_bytes;
  oom_kill_observed = result.oom_kill_observed;
  output_artifact = output_artifact result.command admission;
  validation_error = validation_error admission;
}

-- An exception of the validator that is not caught leaves `run_process`.
abbrev pub unless_raised :
    (ArtifactAdmission VerifiedArtifact → ProcessOutcome)
    → ArtifactAdmission VerifiedArtifact
    → Checked ProcessOutcome
unless_raised make (accepted artifact) = valid (make (accepted artifact))
unless_raised make (refused message artifact) = valid (make (refused message artifact))
unless_raised make (os_error message) = valid (make (os_error message))
unless_raised make (raised message) = invalid message

-- `run_process`, in the directory `cwd`; `capture_path` makes the paths of the logs and `write` writes
-- them. The supervisor may raise too.
unfoldable pub run_process :
    (capture_path : String → String) (write : String → List ℕ → Checked (Unit {0})) (cwd : String)
    (timeout log_limit : ℕ) (capture_prefix : String)
    → Checked Supervised
    → ArtifactAdmission VerifiedArtifact
    → Checked ProcessOutcome
unfolding process_outcome persist_capture
run_process capture_path write cwd timeout log_limit capture_prefix supervised admission =
    let out = capture_path (str_append capture_prefix ".stdout.bin") in
    let err = capture_path (str_append capture_prefix ".stderr.bin") in
    if not (ltb 0 timeout)
    then invalid "timeout_seconds must be positive"
    else if ltb log_limit 2
    then invalid "log_limit must be at least two bytes"
    else and_then supervised (λ result. and_then (write_capture write out result.stdout) (λ u.
      and_then (write_capture write err result.stderr) (λ v.
        unless_raised
          (process_outcome cwd (persist_capture out result.stdout)
            (persist_capture err result.stderr) result)
          admission)))

-- A number, or `None`, in a text.
abbrev pub option_text {ℓ} : {A : Type ℓ} → (A → String) → Option A → String
option_text show none = "None"
option_text show (some a) = show a

abbrev pub is_code_zero : Option ℕ → Bool
is_code_zero none = false
is_code_zero (some code) = code == 0

-- `_process_failure` after the tests of the termination; an empty validation error counts as none.
abbrev pub validation_failure : String → String → Option String → String
validation_failure stage termination none =
    str_append stage (str_append " failed with termination status " termination)
validation_failure stage termination (some e) =
    if str_eq e ""
    then str_append stage (str_append " failed with termination status " termination)
    else str_append stage (str_append " artifact validation failed: " e)

-- `_process_failure`; `decimal` writes a number.
unfoldable pub process_failure : (decimal : ℕ → String) → String → ProcessOutcome → String
process_failure decimal stage o =
    if str_eq o.termination_status "exited" && not (is_code_zero o.exit_code)
    then str_append stage (str_append " exited with code " (option_text decimal o.exit_code))
    else if str_eq o.termination_status "signaled"
    then str_append stage
        (str_append " terminated by signal " (option_text decimal o.signal_number))
    else if str_eq o.termination_status "timed_out"
    then str_append stage " timed out"
    else if str_eq o.termination_status "spawn_failed"
    then str_append stage (str_append " could not start: " (option_text (λ e. e) o.spawn_error))
    else validation_failure stage o.termination_status o.validation_error
