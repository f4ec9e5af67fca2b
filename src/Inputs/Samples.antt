-- ===== src/Inputs/Samples.antt =====
-- An analysis is resumed with a tool that has been moved to another directory.
use src_move.Common.{◌≡◌, refl, true, some, [], ◌∷◌, String}
use src_move.Common.Checked.{valid}
use src_move.Inputs.Frozen.{
  AnalysisConfiguration, ExecutableObservation, FrozenAnalysisManifest, current_versions,
  verify_resume_inputs,
}
use src_move.Inputs.Resume.{Resumes, verify_resume_inputs-Resumes}

abbrev configuration : AnalysisConfiguration
configuration = record {
  selected_directory = some "src";
  excluded_suffixes = ".h" ∷ [];
  use_position = true;
  source_encoding = "UTF-8";
  srcdiff_timeout = 1800;
  srcmove_timeout = 300;
}

abbrev executable : String → ExecutableObservation
executable path = record {
  requested_path = path;
  resolved_path = path;
  size_bytes = 7;
  sha256 = "ab";
}

abbrev manifest : FrozenAnalysisManifest
manifest = record {
  repository = "/work";
  repository_identity = "origin";
  commits = "a7" ∷ "b5" ∷ [];
  configuration = configuration;
  srcdiff = executable "/bin/srcdiff";
  srcmove = executable "/bin/srcmove";
  repository_locator = "../work";
  srcdiff_locator = "../bin/srcdiff";
  srcmove_locator = "../bin/srcmove";
  schema_versions = current_versions;
}

abbrev resumed : FrozenAnalysisManifest
resumed = record manifest { srcdiff = executable "/opt/srcdiff" }

verified_again :
    verify_resume_inputs manifest "origin" configuration
      (executable "/opt/srcdiff")
      (executable "/bin/srcmove")
    ≡ valid resumed
unfolding verify_resume_inputs
verified_again = refl

verify_resume_inputs-Resumes_example :
    Resumes manifest "origin" configuration
      (executable "/opt/srcdiff")
      (executable "/bin/srcmove")
      resumed
verify_resume_inputs-Resumes_example =
    verify_resume_inputs-Resumes manifest "origin" configuration (executable "/opt/srcdiff")
      (executable "/bin/srcmove") resumed verified_again
