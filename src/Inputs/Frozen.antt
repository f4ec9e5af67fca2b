-- ===== src/Inputs/Frozen.antt =====
-- The frozen manifest, the record that a pair's fingerprint digests, and `verify_resume_inputs`.
use src_move.Common.{ℕ, Bool, not, ◌&&◌, Option, List, String, ◌==◌, str_eq, if◌then◌else◌}
use src_move.Common.Checked.{Checked, valid, invalid}
use src_move.Contracts.{same_option, same_texts, same_bool}

-- `AnalysisConfiguration`, admitted; timeouts in microseconds.
pub record AnalysisConfiguration : Type 0 where
  pub selected_directory : Option String
  pub excluded_suffixes : List String
  pub use_position : Bool
  pub source_encoding : String
  pub srcdiff_timeout : ℕ
  pub srcmove_timeout : ℕ

-- `ExecutableObservation`
pub record ExecutableObservation : Type 0 where
  pub requested_path : String
  pub resolved_path : String
  pub size_bytes : ℕ
  pub sha256 : String

-- `FingerprintSchemaVersions`
pub record FingerprintSchemaVersions : Type 0 where
  pub pair_outcome : ℕ
  pub srcdiff_xml_validator : ℕ
  pub srcmove_results_validator : ℕ
  pub compact_pair : ℕ

-- The versions of this program.
abbrev pub current_versions : FingerprintSchemaVersions
current_versions = record {
  pair_outcome = 2;
  srcdiff_xml_validator = 1;
  srcmove_results_validator = 4;
  compact_pair = 5;
}

-- `FrozenAnalysisManifest`; a repository identity is its value.
pub record FrozenAnalysisManifest : Type 0 where
  pub repository : String
  pub repository_identity : String
  pub commits : List String
  pub configuration : AnalysisConfiguration
  pub srcdiff : ExecutableObservation
  pub srcmove : ExecutableObservation
  pub repository_locator : String
  pub srcdiff_locator : String
  pub srcmove_locator : String
  pub schema_versions : FingerprintSchemaVersions

-- `_pair_fingerprint_record`, of which a pair's fingerprint is the digest.
pub record PairFingerprintRecord : Type 0 where
  pub repository_identity : String
  pub old_commit : String
  pub new_commit : String
  pub configuration : AnalysisConfiguration
  pub srcdiff_sha256 : String
  pub srcmove_sha256 : String
  pub schema_versions : FingerprintSchemaVersions

unfoldable pub pair_fingerprint_record :
    FrozenAnalysisManifest → String → String → PairFingerprintRecord
pair_fingerprint_record m old_commit new_commit = record {
  repository_identity = m.repository_identity;
  old_commit = old_commit;
  new_commit = new_commit;
  configuration = m.configuration;
  srcdiff_sha256 = m.srcdiff.sha256;
  srcmove_sha256 = m.srcmove.sha256;
  schema_versions = m.schema_versions;
}

-- `==` of the frozen dataclasses.
unfoldable pub same_versions : FingerprintSchemaVersions → FingerprintSchemaVersions → Bool
same_versions a b =
    (a.pair_outcome == b.pair_outcome)
    && ((a.srcdiff_xml_validator == b.srcdiff_xml_validator)
        && ((a.srcmove_results_validator == b.srcmove_results_validator)
            && (a.compact_pair == b.compact_pair)))

unfoldable pub same_configuration : AnalysisConfiguration → AnalysisConfiguration → Bool
unfolding same_option same_texts same_bool
same_configuration a b =
    same_option a.selected_directory b.selected_directory
    && (same_texts a.excluded_suffixes b.excluded_suffixes
        && (same_bool a.use_position b.use_position
            && (str_eq a.source_encoding b.source_encoding
                && ((a.srcdiff_timeout == b.srcdiff_timeout)
                    && (a.srcmove_timeout == b.srcmove_timeout)))))

abbrev pub same_content : ExecutableObservation → ExecutableObservation → Bool
same_content a b = (a.size_bytes == b.size_bytes) && str_eq a.sha256 b.sha256

-- `verify_resume_inputs`
unfoldable pub verify_resume_inputs :
    FrozenAnalysisManifest
    → (repository_identity : String) → AnalysisConfiguration
    → (srcdiff srcmove : ExecutableObservation) → Checked FrozenAnalysisManifest
unfolding same_versions same_configuration
verify_resume_inputs m repository_identity configuration srcdiff srcmove =
    if not (same_versions m.schema_versions current_versions)
    then invalid "legacy analysis contract is read-only; create a new state"
    else if not (str_eq repository_identity m.repository_identity)
    then invalid "repository identity drift from frozen manifest"
    else if not (same_configuration configuration m.configuration)
    then invalid "analysis configuration drift from frozen manifest"
    else if not (same_content srcdiff m.srcdiff)
    then invalid "srcDiff executable drift from frozen manifest"
    else if not (same_content srcmove m.srcmove)
    then invalid "srcMove executable drift from frozen manifest"
    else valid (record m { srcdiff = srcdiff; srcmove = srcmove })
