-- ===== src/Execution/Samples.antt =====
-- A session on a small pair, the ownership of its directory and the evidence of a stream.
use src_move.Common.{◌≡◌, refl, true, false, none, some, List, [], ◌∷◌, String, arith}
use Prim.Native.String.{◌++◌ as str_append}
use src_move.Common.Checked.{valid}
use src_move.Contracts.{
  CaptureObservation, completed, PairWorkItem, is_admitted_item, VerifiedArtifact, ProcessOutcome,
  PairOutcome, content_changed, exists_in_old, exists_in_new, admitted,
}
use src_move.Capture.{CaptureResult, initial, snapshot, drain}
use src_move.Capture.Evidence.{received}
use src_move.Capture.Samples.{remembering, remembering-IsStreaming, reads}
use src_move.Git.Inventory.{inventory_changed_paths, exclusion_reasons}
use src_move.Git.Samples.{text, raw, inventory}
use src_move.Git.Materialize.{old, new, blob_artifact}
use src_move.Execution.Artifacts.{readable, json_object, results_artifact}
use src_move.Execution.Process.{Supervised, persist_capture}
use src_move.Execution.Environment.{Environment}
use src_move.Execution.Session.{session}
use src_move.Execution.Promise.{EndsWell}
use src_move.Execution.Terminal.{session-EndsWell}
use src_move.Execution.Evidence.{capture_evidence}
use src_move.Execution.Compaction.{expected_evidence, capture_evidence-stream}
use src_move.Execution.Owned.{OwnedPairs, register_pair, acknowledge, acknowledge-register_pair}

abbrev item : PairWorkItem
item = record {
  sequence = 4;
  old_commit = "b5";
  new_commit = "c9";
  fingerprint = "f1";
  repository = some "/work";
  selected_directory = none;
  excluded_suffixes = [];
  srcdiff = some "/bin/srcdiff";
  srcmove = some "/bin/srcmove";
  srcdiff_timeout = 1800;
  srcmove_timeout = 300;
  use_position = true;
  source_encoding = "UTF-8";
}

abbrev quiet : CaptureResult
quiet = record {
  retained = [];
  total_bytes = 0;
  omitted_bytes = 0;
  truncated = false;
  sha256 = "digest";
  complete = true;
  error = none;
}

abbrev supervise : List String → Supervised
supervise command = record {
  command = command;
  started_at = "12:00";
  completed_at = "12:01";
  elapsed = 60;
  termination_status = "exited";
  exit_code = some 0;
  signal_number = none;
  timed_out = false;
  spawn_error = none;
  signals_sent = [];
  process_group_cleaned = true;
  stdout = quiet;
  stderr = quiet;
  peak_rss_bytes = none;
  oom_kill_observed = false;
}

abbrev env : Environment
env = record {
  resolve = λ path. path;
  join = λ directory name. str_append directory (str_append "/" name);
  decimal = λ n. "some number";
  log_limit = 65536;
  measured = λ name. 7;
  raw_diff = λ repository old_commit new_commit directory. valid raw;
  text = text;
  pair_directory = λ i. "pair-4";
  prepare = λ i. valid tt;
  is_safe = λ path. true;
  make_directory = λ path. valid tt;
  write_blob = λ blob target. valid (4, "digest");
  supervise = λ command. valid (supervise command);
  write_log = λ path bytes. valid tt;
  xml_file = λ command. readable 9 "digest" (
      valid (record {
        namespaces = "http://www.srcML.org/srcDiff" ∷ [];
        root_tag = "{http://www.srcML.org/srcML/src}unit";
        child_tags = "{http://www.srcML.org/srcML/src}unit" ∷ [];
      }));
  results_file = λ command. readable 30 "digest" (valid (json_object (valid tt) []));
}

item-IsAdmitted : is_admitted_item item ≡ true
unfolding is_admitted_item
item-IsAdmitted = refl

session-EndsWell_example : EndsWell item (session env item)
session-EndsWell_example =
    session-EndsWell env item (omega arith) item-IsAdmitted (λ command. (supervise command, refl))
      (λ path bytes. refl) (λ command. refl) (λ command. refl)

abbrev observed : CaptureObservation
observed = record {
  path = none;
  total_bytes = 0;
  retained_bytes = 0;
  omitted_bytes = 0;
  truncated = false;
  sha256 = "digest";
}

abbrev xml : String → List String → VerifiedArtifact
xml stage command = record {
  path = str_append "pair-4/" (str_append stage ".xml");
  size_bytes = 9;
  sha256 = "digest";
  kind = "xml";
  validation_status = "valid";
  producing_stage = stage;
  producing_command = command;
  shape = some "archive";
  details = [];
  retention = "worker_owned";
}

abbrev process : String → List String → ProcessOutcome
process stage command = record {
  command = command;
  working_directory = "pair-4";
  started_at = "12:00";
  completed_at = "12:01";
  elapsed = 60;
  termination_status = "exited";
  exit_code = some 0;
  signal_number = none;
  timed_out = false;
  spawn_error = none;
  cleanup_signals = [];
  process_group_cleaned = true;
  stdout = observed;
  stderr = observed;
  peak_rss_bytes = none;
  oom_kill_observed = false;
  output_artifact = some (xml stage command);
  validation_error = none;
}

abbrev srcdiff_run : List String
srcdiff_run =
    "/bin/srcdiff" ∷ "--position" ∷ "--archive" ∷ "--src-encoding" ∷ "UTF-8" ∷ "pair-4/original"
    ∷ "pair-4/modified" ∷ "-o" ∷ "pair-4/srcdiff.xml" ∷ []

abbrev srcmove_run : List String
srcmove_run =
    "/bin/srcmove" ∷ "pair-4/srcdiff.xml" ∷ "pair-4/srcmove.xml" ∷ "--results"
    ∷ "pair-4/results.json" ∷ []

abbrev outcome : PairOutcome
outcome = record {
  work_item = item;
  status = completed;
  changed_paths = inventory.changed;
  analyzable_paths = inventory.analyzable;
  srcdiff_process = some (process "srcdiff" srcdiff_run);
  srcmove_process = some (process "srcmove" srcmove_run);
  artifacts =
      blob_artifact "pair-4/original/four.cpp" 4 "digest" old "5678" "100755"
      ∷ blob_artifact "pair-4/modified/one.cpp" 4 "digest" new "1234" "100644"
      ∷ blob_artifact "pair-4/modified/four.cpp" 4 "digest" new "1234" "100644"
      ∷ xml "srcdiff" srcdiff_run
      ∷ xml "srcmove" srcmove_run
      ∷ results_artifact "pair-4/results.json" 30 "digest" srcmove_run "valid" none
      ∷ [];
  metrics = [];
  timings =
      ("inventory_seconds", 7)
      ∷ ("materialization_seconds", 7)
      ∷ ("srcdiff_seconds", 7)
      ∷ ("srcmove_seconds", 7)
      ∷ ("results_validation_seconds", 7)
      ∷ ("pair_seconds", 7)
      ∷ [];
  error = none;
}

executed : session env item ≡ valid outcome
unfolding session exclusion_reasons content_changed exists_in_old exists_in_new
    inventory_changed_paths admitted
executed = refl

abbrev owned : OwnedPairs
owned = ((3, "f0"), "pair-3") ∷ []

registered :
    register_pair item "pair-4" owned ≡ valid (((3, "f0"), "pair-3") ∷ ((4, "f1"), "pair-4") ∷ [])
unfolding register_pair
registered = refl

acknowledge-register_pair_example :
    acknowledge (λ directory. valid tt) outcome (((3, "f0"), "pair-3") ∷ ((4, "f1"), "pair-4") ∷ [])
    ≡ valid owned
acknowledge-register_pair_example =
    acknowledge-register_pair (λ directory. valid tt) outcome "pair-4" owned
      (((3, "f0"), "pair-3") ∷ ((4, "f1"), "pair-4") ∷ []) registered refl

abbrev log : CaptureResult
log = snapshot remembering (drain remembering (initial remembering 65536) reads) true

capture_evidence-stream_example :
    capture_evidence
      (λ path. valid log.retained)
      (λ bytes. "digest")
      (persist_capture "srcdiff.stdout.bin" log)
    ≡ valid (expected_evidence remembering (λ bytes. "digest") 65536 (received reads))
capture_evidence-stream_example =
    capture_evidence-stream remembering-IsStreaming (λ path. valid log.retained) (λ bytes. "digest")
      "srcdiff.stdout.bin" 65536 reads true (omega arith) refl
