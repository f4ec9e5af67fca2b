-- ===== src/Execution/Terminal.antt =====
-- Every execution of a pair ends in an outcome that says what its status promises.
use Prim.Native.String.{◌++◌ as str_append}
use src_move.Capture.{CaptureResult}
use src_move.Common.{
  ℕ, ◌≡◌, refl, ◌<◌, ◌≤◌, true, false, Option, none, some, List, [], ◌∷◌, ◌++◌, String, ltb, arith,
  Bool-cases, inl, inr,
}
use src_move.Common.Checked.{is_nil, nil_of, Checked, valid, invalid}
use src_move.Contracts.{PairWorkItem, is_admitted_item, VerifiedArtifact, ProcessOutcome, admitted}
use src_move.Git.Inventory.{Inventory}
use src_move.Execution.Artifacts.{
  archive, ArtifactAdmission, OutputFile, missing, unreadable, failing, readable, JsonValue,
  validate_results_artifact, validate_xml_artifact, results_artifact, json_object, other_value,
}
use src_move.Execution.Process.{
  Supervised, write_capture, run_process, persist_capture, process_outcome,
}
use src_move.Execution.Environment.{
  Environment, Paths, required_paths, option_artifact, pair_outcome,
}
use src_move.Execution.Session.{
  failed_outcome, run_tool, srcdiff_command, srcmove_command, failure_status, starts_with,
  after_results, after_srcmove, with_srcdiff, after_srcdiff, input_artifacts, after_inputs,
  after_prepare, after_inventory, after_paths, session,
}
use src_move.Execution.Promise.{
  EndsWell, NotRaised, is_caught, xml-NotRaised, unless_raised-returns, append_none, append_one,
  can_read, inputs-no_results, no_results-append, results_of, xml-no_results,
}

srcdiff_positive : (item : PairWorkItem) → is_admitted_item item ≡ true → 0 < item.srcdiff_timeout
unfolding is_admitted_item
srcdiff_positive item h = ground arith

srcmove_positive : (item : PairWorkItem) → is_admitted_item item ≡ true → 0 < item.srcmove_timeout
unfolding is_admitted_item
srcmove_positive item h = ground arith

module _ (env : Environment) (item : PairWorkItem) (inventory : Inventory) where
  after_results-EndsWell :
      (p q : ProcessOutcome) (xs : List VerifiedArtifact) (path : String) (command : List String)
      (file : OutputFile JsonValue)
      → admitted p ≡ true
      → admitted q ≡ true
      → results_of xs ≡ []
      → can_read file ≡ true
      → EndsWell item
          (after_results env item inventory p q xs (validate_results_artifact path command file))
  unfolding after_results validate_results_artifact pair_outcome results_artifact
  after_results-EndsWell p q xs path command missing a b n r =
      (refl, (refl, a, refl, append_none xs n))
  after_results-EndsWell p q xs path command (unreadable error) a b n r = cc
  after_results-EndsWell p q xs path command (failing error) a b n r = cc
  after_results-EndsWell p q xs path command (readable size sha256 (invalid error)) a b n r =
      (refl, (refl, a, refl, no_results-append xs _ n refl))
  after_results-EndsWell p q xs path command (readable size sha256 (valid other_value)) a b n r =
      (refl, (refl, a, refl, no_results-append xs _ n refl))
  after_results-EndsWell p q xs path command
        (readable size sha256 (valid (json_object (invalid error) metrics))) a b n r =
      (refl, (refl, a, refl, no_results-append xs _ n refl))
  after_results-EndsWell p q xs path command
        (readable size sha256 (valid (json_object (valid u) metrics))) a b n r =
      (refl, (refl, a, b, append_one xs _ n refl))

  after_srcmove-EndsWell :
      (p q : ProcessOutcome) (xs : List VerifiedArtifact) (command : List String)
      → admitted p ≡ true
      → results_of xs ≡ []
      → results_of (option_artifact q.output_artifact) ≡ []
      → can_read (env.results_file command) ≡ true
      → EndsWell item (after_srcmove env item inventory p xs command q)
  unfolding after_srcmove pair_outcome
  after_srcmove-EndsWell p q xs command a n m r =
      let kept = no_results-append xs (option_artifact q.output_artifact) n m in
      elim (Bool-cases (admitted q)) [
        | inl b ↦ rw b (after_results-EndsWell p q _ _ _ (env.results_file command) a b kept r)
        | inr b ↦ rw b (refl, (refl, a, refl, kept))
      ]

-- A process that has been supervised, whose logs have been written and whose validator is done.
run_process-returns :
    (capture_path : String → String) (write : String → List ℕ → Checked (Unit {0})) (cwd : String)
    (timeout log_limit : ℕ) (stage : String) (r : Supervised)
    (admission : ArtifactAdmission VerifiedArtifact)
    → 0 < timeout
    → 2 ≤ log_limit
    → write_capture write (capture_path (str_append stage ".stdout.bin")) r.stdout ≡ valid tt
    → write_capture write (capture_path (str_append stage ".stderr.bin")) r.stderr ≡ valid tt
    → NotRaised admission
    → run_process capture_path write cwd timeout log_limit stage (valid r) admission
      ≡ valid (
          process_outcome cwd
            (persist_capture (capture_path (str_append stage ".stdout.bin")) r.stdout)
            (persist_capture (capture_path (str_append stage ".stderr.bin")) r.stderr)
            r
            admission)
unfolding run_process
run_process-returns capture_path write cwd timeout log_limit stage r admission h enough out err n =
    let positive : ltb 0 timeout ≡ true = ground (arith, h) in
    let bounded : ltb log_limit 2 ≡ false = ground (arith, enough) in
    let made =
      unless_raised-returns
        (process_outcome cwd
          (persist_capture (capture_path (str_append stage ".stdout.bin")) r.stdout)
          (persist_capture (capture_path (str_append stage ".stderr.bin")) r.stderr) r)
        admission n in
    rw (positive, bounded, out, err) made

-- A tool that may be started has an outcome, whose output is no results.
module _ (env : Environment) (item : PairWorkItem) (enough : 2 ≤ env.log_limit)
    (supervised : (command : List String) → (r : Supervised) × (env.supervise command ≡ valid r))
    (logged : (path : String) (bytes : List ℕ) → env.write_log path bytes ≡ valid tt)
    (parsed : (command : List String) → is_caught (env.xml_file command) ≡ true) where
  capture_written :
      (path : String) (capture : CaptureResult)
      → write_capture env.write_log path capture ≡ valid tt
  capture_written path capture = elim (Bool-cases (is_nil capture.retained)) [
    | inl t ↦ rw t refl
    | inr f ↦ rw f (logged path capture.retained)
  ]

  run_tool-returns :
      (stage : String) (timeout : ℕ) (command : List String)
      → 0 < timeout
      → (q : ProcessOutcome) × (run_tool env item stage timeout command ≡ valid q)
        × (results_of (option_artifact q.output_artifact) ≡ [])
  unfolding run_tool process_outcome
  run_tool-returns stage timeout command h =
      let (r, ran) = supervised command in
      let file = env.xml_file command in
      let path = env.join (env.pair_directory item) (str_append stage ".xml") in
      let returned =
        run_process-returns (env.join (env.pair_directory item)) env.write_log
          (env.pair_directory item) timeout env.log_limit stage r
          (validate_xml_artifact path stage archive file) h enough (capture_written _ r.stdout)
          (capture_written _ r.stderr) (xml-NotRaised path stage archive file (parsed command)) in
      rw ran (_, returned, xml-no_results path stage archive r.command file)

  -- The environment and the item with which the session must end well.
  module _ (admitted_item : is_admitted_item item ≡ true)
      (readable_results : (command : List String)
        → can_read (env.results_file command) ≡ true) where
    with_srcdiff-EndsWell :
        (paths : Paths) (inventory : Inventory) (xs : List VerifiedArtifact) (p : ProcessOutcome)
        (input : Option VerifiedArtifact)
        → admitted p ≡ true
        → p.output_artifact ≡ input
        → results_of xs ≡ []
        → results_of (option_artifact input) ≡ []
        → EndsWell item (with_srcdiff env item paths inventory xs p input)
    unfolding with_srcdiff admitted
    with_srcdiff-EndsWell paths inventory xs p none a e n m = ground (arith, a, e)
    with_srcdiff-EndsWell paths inventory xs p (some input) a e n m =
        let command = srcmove_command env item paths input in
        let (q, returned, o) =
          run_tool-returns "srcmove" item.srcmove_timeout command
            (srcmove_positive item admitted_item) in
        rw returned (
          after_srcmove-EndsWell env item inventory p q (xs ++ input ∷ []) command a
            (no_results-append xs (input ∷ []) n m) o (readable_results command))

    after_srcdiff-EndsWell :
        (paths : Paths) (inventory : Inventory) (xs : List VerifiedArtifact) (p : ProcessOutcome)
        → results_of xs ≡ []
        → results_of (option_artifact p.output_artifact) ≡ []
        → EndsWell item (after_srcdiff env item paths inventory xs p)
    unfolding after_srcdiff pair_outcome
    after_srcdiff-EndsWell paths inventory xs p n m = elim (Bool-cases (admitted p)) [
      | inl a ↦ rw a (with_srcdiff-EndsWell paths inventory xs p p.output_artifact a refl n m)
      | inr a ↦ rw a (
        refl,
        (refl, refl, a, refl, no_results-append xs (option_artifact p.output_artifact) n m),
      )
    ]

    failure-EndsWell :
        (inventory : Inventory) (error : String)
        → EndsWell item (
            valid (
              failed_outcome env item
                (failure_status env item error)
                inventory
                ("inventory_seconds" ∷ [])
                error))
    unfolding failed_outcome pair_outcome
    failure-EndsWell inventory error =
        elim (Bool-cases (starts_with "GitMaterializationError: " error)) [
          | inl t ↦ rw t (refl, (refl, refl, refl, refl))
          | inr f ↦ rw f (refl, (refl, refl, refl, refl))
        ]

    after_inputs-EndsWell :
        (paths : Paths) (inventory : Inventory) (inputs : Checked (List VerifiedArtifact))
        → ((xs : List VerifiedArtifact) → inputs ≡ valid xs → results_of xs ≡ [])
        → EndsWell item (after_inputs env item paths inventory inputs)
    unfolding after_inputs failed_outcome pair_outcome
    after_inputs-EndsWell paths inventory (invalid error) n = failure-EndsWell inventory error
    after_inputs-EndsWell paths inventory (valid xs) n =
        let (p, returned, o) =
          run_tool-returns "srcdiff" item.srcdiff_timeout (srcdiff_command env item paths)
            (srcdiff_positive item admitted_item) in
        rw returned (after_srcdiff-EndsWell paths inventory xs p (n xs refl) o)

    after_prepare-EndsWell :
        (paths : Paths) (inventory : Inventory) (prepared : Checked (Unit {0}))
        → EndsWell item (after_prepare env item paths inventory prepared)
    unfolding after_prepare failed_outcome pair_outcome
    after_prepare-EndsWell paths inventory (invalid error) = failure-EndsWell inventory error
    after_prepare-EndsWell paths inventory (valid u) =
        after_inputs-EndsWell paths inventory (input_artifacts env item inventory.analyzable)
          (inputs-no_results env item inventory.analyzable)

    after_inventory-EndsWell :
        (paths : Paths) (inventory : Checked Inventory)
        → EndsWell item (after_inventory env item paths inventory)
    unfolding after_inventory failed_outcome pair_outcome
    after_inventory-EndsWell paths (invalid error) = (refl, (refl, refl, refl, refl))
    after_inventory-EndsWell paths (valid inventory) =
        elim (Bool-cases (is_nil inventory.analyzable)) [
          | inl e ↦ rw e (refl, (refl, nil_of inventory.analyzable e, refl, refl, refl))
          | inr f ↦ rw f (after_prepare-EndsWell paths inventory (env.prepare item))
        ]

    after_paths-EndsWell : (paths : Checked Paths) → EndsWell item (after_paths env item paths)
    unfolding after_paths failed_outcome pair_outcome
    after_paths-EndsWell (invalid error) = (refl, (refl, refl, refl, refl))
    after_paths-EndsWell (valid paths) = after_inventory-EndsWell paths _

-- For an item whose fields have been validated, with a limit of logs of at least two bytes, and when the
-- supervisor raises nothing, the logs can be written, the parser of XML raises only the errors that are
-- caught, and a results file can be read and decoded or rejected when it exists, a session returns an
-- outcome of the item and raises nothing. A completed
-- outcome has no error, two admitted processes and exactly one valid results artifact; a failed one has
-- an error, the processes up to the stage that failed, and no valid results artifact; and one without
-- analyzable changes has neither error nor process nor artifact.
pub session-EndsWell :
    (env : Environment) (item : PairWorkItem)
    → 2 ≤ env.log_limit
    → is_admitted_item item ≡ true
    → ((command : List String) → (r : Supervised) × (env.supervise command ≡ valid r))
    → ((path : String) (bytes : List ℕ) → env.write_log path bytes ≡ valid tt)
    → ((command : List String) → is_caught (env.xml_file command) ≡ true)
    → ((command : List String) → can_read (env.results_file command) ≡ true)
    → EndsWell item (session env item)
unfolding session
session-EndsWell env item enough admitted_item supervised logged parsed readable_results =
    after_paths-EndsWell env item enough supervised logged parsed admitted_item readable_results
      (required_paths env.resolve item)
