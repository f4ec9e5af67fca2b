-- ===== src/Execution/Promise.antt =====
-- What the outcome of each status promises, and that neither blobs nor a tool's output are results.
use src_move.Common.{
  ◌≡◌, refl, sym, ap, ◌∙◌, Bool, true, false, ◌&&◌, Option, none, some, List, [], ◌∷◌, ◌++◌, String,
  ◌==◌, str_eq, arith, length, Bool-cases, inl, inr,
}
use src_move.Common.Checked.{
  Checked, valid, invalid, filter, is_some, and_then_lem, valid_inj, branch_taken,
}
use src_move.Contracts.{
  PairStatus, completed, no_analyzable_change, export_failed, srcdiff_failed, srcmove_failed,
  orchestration_failed, ChangedPath, PairWorkItem, VerifiedArtifact, ProcessOutcome, admitted,
  PairOutcome,
}
use src_move.Git.Materialize.{
  Side, old, new, mode_on, blob_on, validate_change, materialize, blob_artifact,
}
use src_move.Execution.Artifacts.{
  Shape, OutputFile, XmlDocument, missing, unreadable, failing, readable, structure_error,
  admit_structure, ArtifactAdmission, accepted, refused, os_error, raised, validate_xml_artifact,
  xml_artifact,
}
use src_move.Execution.Process.{output_artifact, unless_raised}
use src_move.Execution.Environment.{Environment, option_artifact}
use src_move.Execution.Session.{side_writer, input_artifacts}

-- The test by which an outcome's results are found.
abbrev pub is_results : VerifiedArtifact → Bool
is_results a = str_eq a.kind "json_results" && str_eq a.validation_status "valid"

abbrev pub results_of : List VerifiedArtifact → List VerifiedArtifact
results_of = filter is_results

abbrev pub is_admitted : Option ProcessOutcome → Bool
is_admitted none = false
is_admitted (some p) = admitted p

-- What each status promises.
abbrev pub Terminal : PairStatus → PairOutcome → Type 0
Terminal completed o =
    (o.error ≡ none)
    × (is_admitted o.srcdiff_process ≡ true)
    × (is_admitted o.srcmove_process ≡ true)
    × (length (results_of o.artifacts) ≡ 1)
Terminal no_analyzable_change o =
    (o.error ≡ none)
    × (o.analyzable_paths ≡ [])
    × (o.srcdiff_process ≡ none)
    × (o.srcmove_process ≡ none)
    × (o.artifacts ≡ [])
Terminal export_failed o =
    (is_some o.error ≡ true)
    × (o.srcdiff_process ≡ none)
    × (o.srcmove_process ≡ none)
    × (o.artifacts ≡ [])
Terminal orchestration_failed o =
    (is_some o.error ≡ true)
    × (o.srcdiff_process ≡ none)
    × (o.srcmove_process ≡ none)
    × (o.artifacts ≡ [])
Terminal srcdiff_failed o =
    (is_some o.error ≡ true)
    × (is_some o.srcdiff_process ≡ true)
    × (is_admitted o.srcdiff_process ≡ false)
    × (o.srcmove_process ≡ none)
    × (results_of o.artifacts ≡ [])
Terminal srcmove_failed o =
    (is_some o.error ≡ true)
    × (is_admitted o.srcdiff_process ≡ true)
    × (is_some o.srcmove_process ≡ true)
    × (results_of o.artifacts ≡ [])

-- An outcome of the item that keeps the promise, and no exception.
abbrev pub EndsWell : PairWorkItem → Checked PairOutcome → Type 0
EndsWell item (invalid message) = true ≡ false
EndsWell item (valid o) = (o.work_item ≡ item) × Terminal o.status o

pub results_of-append :
    (xs ys : List VerifiedArtifact) → results_of (xs ++ ys) ≡ results_of xs ++ results_of ys
results_of-append [] ys = refl
results_of-append (a ∷ xs) ys = elim (Bool-cases (is_results a)) [
  | inl t ↦ rw (t, results_of-append xs ys) refl
  | inr f ↦ rw (f, results_of-append xs ys) refl
]

pub no_results-append :
    (xs ys : List VerifiedArtifact)
    → results_of xs ≡ []
    → results_of ys ≡ []
    → results_of (xs ++ ys) ≡ []
no_results-append xs ys a b = results_of-append xs ys ∙ rw (a, b) refl

-- Materialized blobs are no results.
writer-no_results :
    (env : Environment) (item : PairWorkItem) (side : Side) (destination blob mode path : String)
    (a : VerifiedArtifact)
    → side_writer env item side destination blob mode path ≡ valid a
    → is_results a ≡ false
unfolding blob_artifact
writer-no_results env item side destination blob mode path a h =
    let target = env.join (env.join (env.pair_directory item) destination) path in
    let ((size, sha256), e, h1) = and_then_lem (env.write_blob blob target) _ a h in
    ap is_results (sym (valid_inj h1))

materialize-no_results :
    (is_safe : String → Bool) (write : String → String → String → Checked VerifiedArtifact)
    (side : Side) (cs : List ChangedPath) (xs : List VerifiedArtifact)
    → ((blob mode path : String) (a : VerifiedArtifact)
        → write blob mode path ≡ valid a
        → is_results a ≡ false)
    → materialize is_safe write side cs ≡ valid xs
    → results_of xs ≡ []
unfolding materialize
materialize-no_results is_safe write side [] xs w h = rw (← valid_inj h) refl
materialize-no_results is_safe write side (c ∷ cs) xs w h =
    let (u, e, h1) = and_then_lem (validate_change is_safe c) _ xs h in
    elim (branch_taken (str_eq (mode_on side c) "000000") (materialize is_safe write side cs) _
      (valid xs) h1) [
        | inl (t, h2) ↦ materialize-no_results is_safe write side cs xs w h2
        | inr (f, h2) ↦
            let (a, e1, h3) =
              and_then_lem (write (blob_on side c) (mode_on side c) c.path) _ xs h2 in
            let (rest, e2, h4) = and_then_lem (materialize is_safe write side cs) _ xs h3 in
            let here = w _ _ _ a e1 in
            rw (← valid_inj h4, here) (materialize-no_results is_safe write side cs rest w e2)
      ]

pub inputs-no_results :
    (env : Environment) (item : PairWorkItem) (cs : List ChangedPath) (xs : List VerifiedArtifact)
    → input_artifacts env item cs ≡ valid xs
    → results_of xs ≡ []
unfolding input_artifacts
inputs-no_results env item cs xs h =
    let (u, made, h0) =
      and_then_lem (env.make_directory (env.join (env.pair_directory item) "original")) _ xs h in
    let (originals, e, h1) =
      and_then_lem (materialize env.is_safe (side_writer env item old "original") old cs) _ xs h0 in
    let (v, made', h1') =
      and_then_lem (env.make_directory (env.join (env.pair_directory item) "modified")) _ xs h1 in
    let (modifieds, e', h2) =
      and_then_lem (materialize env.is_safe (side_writer env item new "modified") new cs) _ xs
        h1' in
    rw (← valid_inj h2) (
      no_results-append originals modifieds
        (materialize-no_results env.is_safe _ old cs originals
          (writer-no_results env item old "original") e)
        (materialize-no_results env.is_safe _ new cs modifieds
          (writer-no_results env item new "modified") e'))

-- The output of a tool is no results.
pub xml-no_results :
    (path stage : String) (shape : Shape) (command : List String) (file : OutputFile _)
    → results_of
        (option_artifact (output_artifact command (validate_xml_artifact path stage shape file)))
      ≡ []
unfolding validate_xml_artifact xml_artifact
xml-no_results path stage shape command missing = refl
xml-no_results path stage shape command (unreadable e) = refl
xml-no_results path stage shape command (failing e) = refl
xml-no_results path stage shape command (readable size sha256 parsed) = ground arith

abbrev pub can_read : {D : Type 0} → OutputFile D → Bool
can_read (unreadable error) = false
can_read (failing error) = false
can_read missing = true
can_read (readable size sha256 parsed) = true

-- The validator looks for what may be wrong with the file.
abbrev pub is_caught : {D : Type 0} → OutputFile D → Bool
is_caught (failing error) = false
is_caught (unreadable error) = true
is_caught missing = true
is_caught (readable size sha256 parsed) = true

abbrev pub NotRaised : {A : Type 0} → ArtifactAdmission A → Type 0
NotRaised (raised message) = true ≡ false
NotRaised (accepted a) = Unit
NotRaised (refused message a) = Unit
NotRaised (os_error message) = Unit

pub xml-NotRaised :
    (path stage : String) (shape : Shape) (file : OutputFile XmlDocument)
    → is_caught file ≡ true
    → NotRaised (validate_xml_artifact path stage shape file)
unfolding validate_xml_artifact
xml-NotRaised path stage shape missing h = tt
xml-NotRaised path stage shape (unreadable e) h = tt
xml-NotRaised path stage shape (failing e) h = cc
xml-NotRaised path stage shape (readable size sha256 (invalid error)) h =
    elim (Bool-cases (size == 0)) [ inl t ↦ rw t tt | inr f ↦ rw f tt ]
xml-NotRaised path stage shape (readable size sha256 (valid d)) h = elim (Bool-cases (size == 0)) [
  | inl t ↦ rw t tt
  | inr f ↦ rw f (of_structure (structure_error path stage shape d))
]
  where
    of_structure : (e : Option String) → NotRaised (admit_structure path stage shape size sha256 e)
    of_structure none = tt
    of_structure (some message) = tt

pub unless_raised-returns :
    (make : ArtifactAdmission VerifiedArtifact → ProcessOutcome)
    (admission : ArtifactAdmission VerifiedArtifact)
    → NotRaised admission
    → unless_raised make admission ≡ valid (make admission)
unless_raised-returns make (accepted a) h = refl
unless_raised-returns make (refused message a) h = refl
unless_raised-returns make (os_error message) h = refl
unless_raised-returns make (raised message) h = cc

pub append_none : (xs : List VerifiedArtifact) → results_of xs ≡ [] → results_of (xs ++ []) ≡ []
append_none xs h = no_results-append xs [] h refl

pub append_one :
    (xs : List VerifiedArtifact) (a : VerifiedArtifact)
    → results_of xs ≡ []
    → is_results a ≡ true
    → length (results_of (xs ++ a ∷ [])) ≡ 1
append_one xs a h t = ap length (results_of-append xs (a ∷ [])) ∙ rw (h, t) refl
