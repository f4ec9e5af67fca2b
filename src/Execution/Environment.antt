-- ===== src/Execution/Environment.antt =====
-- What a session asks of git, of the file system and of the supervisor of processes; the fields that it
-- requires, and an outcome with its defaults.
use Prim.Native.String.{◌++◌ as str_append}
use src_move.Common.{ℕ, Bool, Option, none, some, List, [], ◌∷◌, ◌++◌, String}
use src_move.Common.Checked.{Checked, valid, invalid}
use src_move.Contracts.{PairStatus, PairWorkItem, VerifiedArtifact, PairOutcome}
use src_move.Git.Inventory.{Text, Inventory}
use src_move.Execution.Artifacts.{XmlDocument, OutputFile, JsonValue}
use src_move.Execution.Process.{Supervised}

pub record Environment : Type 0 where
  pub resolve : String → String
  pub join : String → String → String
  pub decimal : ℕ → String
  pub log_limit : ℕ
  -- The microseconds that are recorded under a name.
  pub measured : String → ℕ
  -- What `git diff` prints for two commits of a repository, below a directory; or the error.
  pub raw_diff : String → String → String → Option String → Checked (List String)
  pub text : Text
  pub pair_directory : PairWorkItem → String
  -- Making the directory, registering the pair and starting git, or the error with its type.
  pub prepare : PairWorkItem → Checked (Unit {0})
  pub is_safe : String → Bool
  -- Making the directory of a side, or the error with its type.
  pub make_directory : String → Checked (Unit {0})
  -- The size and digest of a blob that is written to a target; or the error with its type.
  pub write_blob : (blob target : String) → Checked (ℕ × String)
  -- What a command ends with, or the exception of the supervisor; the writing of a log, which may fail;
  -- and the files that a command leaves.
  pub supervise : List String → Checked Supervised
  pub write_log : String → List ℕ → Checked (Unit {0})
  pub xml_file : List String → OutputFile XmlDocument
  pub results_file : List String → OutputFile JsonValue

pub record Paths : Type 0 where
  pub repository : String
  pub srcdiff : String
  pub srcmove : String

abbrev pub missing_field : String → Option String → List String
missing_field name none = name ∷ []
missing_field name (some value) = []

abbrev pub comma_joined : List String → String
comma_joined [] = ""
comma_joined (name ∷ []) = name
comma_joined (name ∷ other ∷ names) =
    str_append name (str_append ", " (comma_joined (other ∷ names)))

-- `_required_paths`
unfoldable pub required_paths : (resolve : String → String) → PairWorkItem → Checked Paths
required_paths resolve item = given_fields item.repository item.srcdiff item.srcmove
  where
    given_fields : Option String → Option String → Option String → Checked Paths
    given_fields (some repository) (some srcdiff) (some srcmove) = valid (record {
      repository = resolve repository;
      srcdiff = resolve srcdiff;
      srcmove = resolve srcmove;
    })
    given_fields repository srcdiff srcmove = invalid (
        str_append "commit pair work item is missing execution fields: " (
          comma_joined (
            missing_field "repository" repository
            ++ missing_field "srcdiff" srcdiff
            ++ missing_field "srcmove" srcmove)))

abbrev pub option_artifact : Option VerifiedArtifact → List VerifiedArtifact
option_artifact none = []
option_artifact (some artifact) = artifact ∷ []

-- `PairOutcome(...)` with its defaults.
unfoldable pub pair_outcome :
    PairWorkItem → PairStatus → Inventory → List (String × ℕ) → PairOutcome
pair_outcome item status inventory timings = record {
  work_item = item;
  status = status;
  changed_paths = inventory.changed;
  analyzable_paths = inventory.analyzable;
  srcdiff_process = none;
  srcmove_process = none;
  artifacts = [];
  metrics = [];
  timings = timings;
  error = none;
}
