-- ===== src/Execution/Session.antt =====
-- `_WorkerSession.__call__`: the stages of one commit pair, each with the outcome that it ends in.
use Prim.Native.Char.{code}
use Prim.Native.String.{String, ◌++◌ as str_append}
use src_move.Common.{
  ℕ, Bool, true, false, not, ◌&&◌, Option, none, some, List, [], ◌∷◌, ◌++◌, ◌==◌, str_eq,
  if◌then◌else◌,
}
use src_move.Common.Checked.{is_nil, Checked, valid, invalid, and_then}
use src_move.Contracts.{
  PairStatus, completed, no_analyzable_change, export_failed, srcdiff_failed, srcmove_failed,
  orchestration_failed, ChangedPath, Scalar, PairWorkItem, VerifiedArtifact, ProcessOutcome,
  admitted, PairOutcome,
}
use src_move.Git.Inventory.{Inventory, inventory_changed_paths}
use src_move.Git.Materialize.{Side, old, new, materialize, blob_artifact}
use src_move.Execution.Artifacts.{
  archive, ArtifactAdmission, accepted, refused, os_error, raised, validate_xml_artifact,
  validate_results_artifact,
}
use src_move.Execution.Process.{run_process, process_failure}
use src_move.Execution.Environment.{
  Environment, Paths, required_paths, option_artifact, pair_outcome,
}

-- `text.startswith(prefix)`
abbrev pub starts_with : String → String → Bool
starts_with String.[] text = true
starts_with (String.◌∷◌ c prefix) String.[] = false
starts_with (String.◌∷◌ c prefix) (String.◌∷◌ d text) =
    (code c == code d) && starts_with prefix text

module _ (env : Environment) (item : PairWorkItem) where
  abbrev pub timed : List String → List (String × ℕ)
  timed [] = []
  timed (name ∷ names) = (name, env.measured name) ∷ timed names

  -- `_failed_outcome`, with the error's text.
  unfoldable pub failed_outcome : PairStatus → Inventory → List String → String → PairOutcome
  unfolding pair_outcome
  failed_outcome status inventory names error =
      record (pair_outcome item status inventory (timed (names ++ "pair_seconds" ∷ []))) {
        error = some error;
      }

  abbrev pub directory : String
  directory = env.pair_directory item

  abbrev pub position_option : List String
  position_option = if item.use_position then "--position" ∷ [] else []

  abbrev pub encoding_option : List String
  encoding_option =
      if str_eq item.source_encoding "" then [] else "--src-encoding" ∷ item.source_encoding ∷ []

  unfoldable pub srcdiff_command : Paths → List String
  srcdiff_command p =
      (p.srcdiff ∷ position_option)
      ++ ("--archive" ∷ encoding_option)
      ++ (env.join directory "original"
          ∷ env.join directory "modified"
          ∷ "-o"
          ∷ env.join directory "srcdiff.xml"
          ∷ [])

  unfoldable pub srcmove_command : Paths → VerifiedArtifact → List String
  srcmove_command p input =
      p.srcmove
      ∷ input.path
      ∷ env.join directory "srcmove.xml"
      ∷ "--results"
      ∷ env.join directory "results.json"
      ∷ []

  -- A tool's run, whose output is an archive with the name of its stage.
  unfoldable pub run_tool : String → (timeout : ℕ) → List String → Checked ProcessOutcome
  unfolding run_process validate_xml_artifact
  run_tool stage timeout command =
      run_process (env.join directory) env.write_log directory timeout env.log_limit stage
        (env.supervise command)
        (validate_xml_artifact (env.join directory (str_append stage ".xml")) stage archive
          (env.xml_file command))

  -- The outcome after srcMove has run and its results have been read.
  unfoldable pub after_results :
      Inventory
      → (srcdiff_process srcmove_process : ProcessOutcome) → List VerifiedArtifact
      → ArtifactAdmission (VerifiedArtifact × List (String × Scalar))
      → Checked PairOutcome
  unfolding pair_outcome
  after_results inventory srcdiff_process srcmove_process artifacts (os_error message) =
      invalid message
  after_results inventory srcdiff_process srcmove_process artifacts (raised message) =
      invalid message
  after_results inventory srcdiff_process srcmove_process artifacts (refused message artifact) =
      valid
        (record (pair_outcome item srcmove_failed inventory (
          timed (
            "inventory_seconds" ∷ "materialization_seconds" ∷ "srcdiff_seconds" ∷ "srcmove_seconds"
            ∷ "results_validation_seconds" ∷ "pair_seconds" ∷ []))) {
              srcdiff_process = some srcdiff_process;
              srcmove_process = some srcmove_process;
              artifacts = artifacts ++ option_artifact artifact;
              error = some message;
            })
  after_results inventory srcdiff_process srcmove_process artifacts (accepted (artifact, metrics)) =
      valid
        (record (pair_outcome item completed inventory (
          timed (
            "inventory_seconds" ∷ "materialization_seconds" ∷ "srcdiff_seconds" ∷ "srcmove_seconds"
            ∷ "results_validation_seconds" ∷ "pair_seconds" ∷ []))) {
              srcdiff_process = some srcdiff_process;
              srcmove_process = some srcmove_process;
              artifacts = artifacts ++ artifact ∷ [];
              metrics = metrics;
            })

  unfoldable pub after_srcmove :
      Inventory
      → ProcessOutcome
      → List VerifiedArtifact
      → List String
      → ProcessOutcome
      → Checked PairOutcome
  unfolding pair_outcome after_results process_failure validate_results_artifact admitted
  after_srcmove inventory srcdiff_process inputs command process =
      let artifacts = inputs ++ option_artifact process.output_artifact in
      if not (admitted process)
      then valid
          (record (pair_outcome item srcmove_failed inventory (
            timed (
              "inventory_seconds" ∷ "materialization_seconds" ∷ "srcdiff_seconds"
              ∷ "srcmove_seconds" ∷ "pair_seconds" ∷ []))) {
                srcdiff_process = some srcdiff_process;
                srcmove_process = some process;
                artifacts = artifacts;
                error = some (process_failure env.decimal "srcMove" process);
              })
      else after_results inventory srcdiff_process process artifacts (
          validate_results_artifact (env.join directory "results.json") process.command
            (env.results_file command))

  -- The run of srcMove on srcDiff's artifact, which is asserted to be there.
  unfoldable pub with_srcdiff :
      Paths
      → Inventory
      → List VerifiedArtifact
      → ProcessOutcome
      → Option VerifiedArtifact
      → Checked PairOutcome
  unfolding after_srcmove run_tool srcmove_command
  with_srcdiff p inventory inputs srcdiff_process none = invalid "AssertionError"
  with_srcdiff p inventory inputs srcdiff_process (some artifact) =
      let command = srcmove_command p artifact in
      and_then (run_tool "srcmove" item.srcmove_timeout command)
        (after_srcmove inventory srcdiff_process (inputs ++ artifact ∷ []) command)

  unfoldable pub after_srcdiff :
      Paths → Inventory → List VerifiedArtifact → ProcessOutcome → Checked PairOutcome
  unfolding pair_outcome with_srcdiff process_failure admitted
  after_srcdiff p inventory inputs process =
      if not (admitted process)
      then valid
          (record (pair_outcome item srcdiff_failed inventory (
            timed (
              "inventory_seconds" ∷ "materialization_seconds" ∷ "srcdiff_seconds" ∷ "pair_seconds"
              ∷ []))) {
                srcdiff_process = some process;
                artifacts = inputs ++ option_artifact process.output_artifact;
                error = some (process_failure env.decimal "srcDiff" process);
              })
      else with_srcdiff p inventory inputs process process.output_artifact

  -- The writer of one side, below the directory of the pair.
  abbrev pub side_writer : Side → String → String → String → String → Checked VerifiedArtifact
  side_writer side destination blob mode path =
      let target = env.join (env.join directory destination) path in
      and_then (env.write_blob blob target)
        (λ (size, sha256). valid (blob_artifact target size sha256 side blob mode))

  unfoldable pub input_artifacts : List ChangedPath → Checked (List VerifiedArtifact)
  unfolding materialize blob_artifact
  input_artifacts analyzable = and_then (env.make_directory (env.join directory "original")) (λ u.
      and_then (materialize env.is_safe (side_writer old "original") old analyzable) (λ originals.
        and_then (env.make_directory (env.join directory "modified")) (λ v.
          and_then (materialize env.is_safe (side_writer new "modified") new analyzable)
            (λ modifieds. valid (originals ++ modifieds)))))

  -- The `except` clause that takes an error, by the type that its text begins with.
  abbrev pub failure_status : String → PairStatus
  failure_status error =
      if starts_with "GitMaterializationError: " error then export_failed else orchestration_failed

  unfoldable pub after_inputs :
      Paths → Inventory → Checked (List VerifiedArtifact) → Checked PairOutcome
  unfolding failed_outcome after_srcdiff run_tool srcdiff_command
  after_inputs p inventory (invalid error) =
      valid (failed_outcome (failure_status error) inventory ("inventory_seconds" ∷ []) error)
  after_inputs p inventory (valid inputs) =
      and_then (run_tool "srcdiff" item.srcdiff_timeout (srcdiff_command p))
        (after_srcdiff p inventory inputs)

  unfoldable pub after_prepare : Paths → Inventory → Checked (Unit {0}) → Checked PairOutcome
  unfolding failed_outcome after_inputs input_artifacts
  after_prepare p inventory (invalid error) =
      valid (failed_outcome (failure_status error) inventory ("inventory_seconds" ∷ []) error)
  after_prepare p inventory (valid u) =
      after_inputs p inventory (input_artifacts inventory.analyzable)

  abbrev pub no_inventory : Inventory
  no_inventory = record { changed = []; analyzable = [] }

  unfoldable pub after_inventory : Paths → Checked Inventory → Checked PairOutcome
  unfolding failed_outcome pair_outcome after_prepare
  after_inventory p (invalid error) =
      valid
        (failed_outcome orchestration_failed no_inventory [] (str_append "RuntimeError: " error))
  after_inventory p (valid inventory) =
      if is_nil inventory.analyzable
      then valid (
          pair_outcome item no_analyzable_change inventory
            (timed ("inventory_seconds" ∷ "pair_seconds" ∷ [])))
      else after_prepare p inventory (env.prepare item)

  unfoldable pub after_paths : Checked Paths → Checked PairOutcome
  unfolding failed_outcome after_inventory inventory_changed_paths
  after_paths (invalid error) =
      valid (failed_outcome orchestration_failed no_inventory [] (str_append "ValueError: " error))
  after_paths (valid p) = after_inventory p (
      and_then (env.raw_diff p.repository item.old_commit item.new_commit item.selected_directory)
        (inventory_changed_paths env.text item.excluded_suffixes))

  -- `_WorkerSession.__call__`: the outcome, or the exception that it raises.
  unfoldable pub session : Checked PairOutcome
  unfolding after_paths required_paths
  session = after_paths (required_paths env.resolve item)
