-- ===== src/Execution/Artifacts.antt =====
-- `validate_xml_artifact` and `validate_results_artifact`: what is admitted of the files that a tool has
-- written. What the file system and the parsers of XML and JSON say of a file is an argument.
use Prim.Native.String.{◌++◌ as str_append}
use src_move.Common.{
  ℕ, Bool, true, false, not, Option, none, some, List, [], ◌∷◌, String, ◌==◌, str_eq, if◌then◌else◌,
}
use src_move.Common.Checked.{Checked, valid, invalid, any_of}
use src_move.Common.Occurrences.{member}
use src_move.Contracts.{Scalar, VerifiedArtifact}

-- The `shape` of an archive or of a single file.
pub data Shape : Type 0 where
  archive single_file : Shape

abbrev pub shape_text : Shape → String
shape_text archive = "archive"
shape_text single_file = "single_file"

-- The namespaces that a document declares, its root's tag and the tags of the root's children.
pub record XmlDocument : Type 0 where
  pub namespaces : List String
  pub root_tag : String
  pub child_tags : List String

-- An output file: missing, not readable, or its size, its digest and its document or the message of the
-- parser's error; or the message of another exception, for which the validators do not look.
pub data OutputFile (D : Type 0) : Type 0 where
  missing : OutputFile D
  unreadable : String → OutputFile D
  failing : String → OutputFile D
  readable : (size : ℕ) (sha256 : String) (parsed : Checked D) → OutputFile D

-- An artifact; the message and artifact of an `ArtifactValidationError`; the message of
-- an OSError; or that of another exception.
pub data ArtifactAdmission (A : Type 0) : Type 0 where
  accepted : A → ArtifactAdmission A
  refused : (message : String) (artifact : Option VerifiedArtifact) → ArtifactAdmission A
  os_error : String → ArtifactAdmission A
  raised : String → ArtifactAdmission A

abbrev pub unit_tag : String
unit_tag = "{http://www.srcML.org/srcML/src}unit"

abbrev pub srcdiff_namespaces : List String
srcdiff_namespaces = "http://www.srcML.org/srcDiff" ∷ "http://www.srcML.org/srcDiff/diff" ∷ []

abbrev pub error_details : Option String → List (String × String)
error_details none = []
error_details (some e) = ("error", e) ∷ []

-- An artifact of a tool; `_invalid_artifact`, and `VerifiedArtifact(...)` with its defaults.
unfoldable pub xml_artifact :
    String → ℕ → String → String → Shape → String → Option String → VerifiedArtifact
xml_artifact path size sha256 producing_stage shape status error = record {
  path = path;
  size_bytes = size;
  sha256 = sha256;
  kind = "xml";
  validation_status = status;
  producing_stage = producing_stage;
  producing_command = [];
  shape = some (shape_text shape);
  details = error_details error;
  retention = "worker_owned";
}

module _ (path : String) (producing_stage : String) (shape : Shape) where
  unfoldable pub is_unit_missing : List String → Bool
  is_unit_missing tags = not (any_of (λ tag. str_eq tag unit_tag) tags)

  -- `message` when the number of child units does not fit the shape.
  abbrev pub shape_error : Shape → Bool → Option String
  shape_error archive true = some "archive output must contain child unit elements"
  shape_error archive false = none
  shape_error single_file true = none
  shape_error single_file false = some "single-file output must not contain child unit elements"

  -- The checks of a parsed document, of which the first that fails is reported.
  unfoldable pub structure_error : XmlDocument → Option String
  unfolding is_unit_missing
  structure_error d =
      if not (str_eq d.root_tag unit_tag)
      then some "root must be a srcML unit element"
      else if not (any_of (λ n. member str_eq n srcdiff_namespaces) d.namespaces)
      then some "srcDiff namespace declaration is missing"
      else shape_error shape (is_unit_missing d.child_tags)

  abbrev pub admit_structure : ℕ → String → Option String → ArtifactAdmission VerifiedArtifact
  admit_structure size sha256 none =
      accepted (xml_artifact path size sha256 producing_stage shape "valid" none)
  admit_structure size sha256 (some message) = refused message (
      some (xml_artifact path size sha256 producing_stage shape "invalid_structure" (some message)))

  abbrev pub malformed_xml : String → String
  malformed_xml error = str_append "output XML is malformed: " error

  abbrev pub admit_parsed : ℕ → String → Checked XmlDocument → ArtifactAdmission VerifiedArtifact
  admit_parsed size sha256 (valid d) = admit_structure size sha256 (structure_error d)
  admit_parsed size sha256 (invalid error) = refused (malformed_xml error) (
      some (
        xml_artifact path size sha256 producing_stage shape "malformed"
          (some (malformed_xml error))))

  -- `validate_xml_artifact`
  unfoldable pub validate_xml_artifact : OutputFile XmlDocument → ArtifactAdmission VerifiedArtifact
  unfolding structure_error xml_artifact
  validate_xml_artifact missing = refused "output XML is missing" none
  validate_xml_artifact (unreadable error) = os_error error
  validate_xml_artifact (failing error) = raised error
  validate_xml_artifact (readable size sha256 parsed) =
      if size == 0
      then refused "output XML is empty"
          (some (xml_artifact path 0 sha256 producing_stage shape "empty" none))
      else admit_parsed size sha256 parsed

-- What `json.loads` gives: an object, with what `normalize_compactable_results` says of it and its
-- sorted scalar metrics, or another value.
pub data JsonValue : Type 0 where
  json_object : (normalized : Checked (Unit {0})) (metrics : List (String × Scalar)) → JsonValue
  other_value : JsonValue

unfoldable pub results_artifact :
    String → ℕ → String → List String → String → Option String → VerifiedArtifact
results_artifact path size sha256 producing_command status error = record {
  path = path;
  size_bytes = size;
  sha256 = sha256;
  kind = "json_results";
  validation_status = status;
  producing_stage = "srcmove";
  producing_command = producing_command;
  shape = none;
  details = error_details error;
  retention = "worker_owned";
}

module _ (path : String) (producing_command : List String) where
  abbrev pub refuse_results :
      ℕ → String → String → String → ArtifactAdmission (VerifiedArtifact × List (String × Scalar))
  refuse_results size sha256 status message =
      refused message
        (some (results_artifact path size sha256 producing_command status (some message)))

  abbrev pub admit_value :
      ℕ → String → JsonValue → ArtifactAdmission (VerifiedArtifact × List (String × Scalar))
  admit_value size sha256 other_value =
      refuse_results size sha256 "invalid_structure" "srcMove results must be a JSON object"
  admit_value size sha256 (json_object (invalid error) metrics) =
      refuse_results size sha256 "invalid_structure" error
  admit_value size sha256 (json_object (valid u) metrics) =
      accepted (results_artifact path size sha256 producing_command "valid" none, metrics)

  abbrev pub admit_json :
      ℕ → String → Checked JsonValue → ArtifactAdmission (VerifiedArtifact × List (String × Scalar))
  admit_json size sha256 (valid v) = admit_value size sha256 v
  admit_json size sha256 (invalid error) =
      refuse_results size sha256 "malformed"
        (str_append "srcMove results JSON is malformed: " error)

  -- `validate_results_artifact`
  unfoldable pub validate_results_artifact :
      OutputFile JsonValue → ArtifactAdmission (VerifiedArtifact × List (String × Scalar))
  unfolding results_artifact
  validate_results_artifact missing = refused "srcMove results JSON is missing" none
  validate_results_artifact (unreadable error) = os_error error
  validate_results_artifact (failing error) = raised error
  validate_results_artifact (readable size sha256 parsed) = admit_json size sha256 parsed
