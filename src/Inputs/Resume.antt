-- ===== src/Inputs/Resume.antt =====
-- A resumed analysis keeps the identity of every pair, and one that would not is refused.
use src_move.Common.{
  ◌≡◌, refl, sym, ap, ◌∙◌, true, not, String, ◌==◌, ==_iff, str_eq, eq_iff, arith,
}
use src_move.Common.Checked.{valid, past_guard, true_of_not, both, valid_inj}
use src_move.Contracts.{same_option→≡, same_texts→≡, same_bool→≡}
use src_move.Inputs.Frozen.{
  AnalysisConfiguration, ExecutableObservation, FingerprintSchemaVersions, current_versions,
  FrozenAnalysisManifest, pair_fingerprint_record, same_versions, same_configuration, same_content,
  verify_resume_inputs,
}

same_configuration→≡ : (a b : AnalysisConfiguration) → same_configuration a b ≡ true → a ≡ b
unfolding same_configuration
same_configuration→≡ a b h = ground (
  arith,
  same_option→≡ a.selected_directory b.selected_directory,
  same_texts→≡ a.excluded_suffixes b.excluded_suffixes,
  same_bool→≡ a.use_position b.use_position,
  eq_iff a.source_encoding b.source_encoding,
)

same_versions→≡ : (a b : FingerprintSchemaVersions) → same_versions a b ≡ true → a ≡ b
unfolding same_versions
same_versions→≡ a b h = ground (arith, h)

-- The two executables have the same content, where their paths may differ.
abbrev pub SameContent : ExecutableObservation → ExecutableObservation → Type 0
SameContent a b = (a.size_bytes ≡ b.size_bytes) × (a.sha256 ≡ b.sha256)

same_content→SameContent : (a b : ExecutableObservation) → same_content a b ≡ true → SameContent a b
same_content→SameContent a b h =
    let (s, d) = both (a.size_bytes == b.size_bytes) (str_eq a.sha256 b.sha256) h in
    ((==_iff a.size_bytes b.size_bytes).0 s, (eq_iff a.sha256 b.sha256).0 d)

-- What a resumed analysis has in common with the frozen one.
pub record Resumes (m : FrozenAnalysisManifest) (repository_identity : String)
    (configuration : AnalysisConfiguration) (srcdiff srcmove : ExecutableObservation)
    (resumed : FrozenAnalysisManifest) : Type 0 where
  pub current : m.schema_versions ≡ current_versions
  pub same_repository : repository_identity ≡ m.repository_identity
  pub configured : configuration ≡ m.configuration
  pub same_srcdiff : SameContent srcdiff m.srcdiff
  pub same_srcmove : SameContent srcmove m.srcmove
  pub observed : resumed ≡ record m { srcdiff = srcdiff; srcmove = srcmove }
  pub fingerprints :
      (old_commit new_commit : String)
      → pair_fingerprint_record resumed old_commit new_commit
        ≡ pair_fingerprint_record m old_commit new_commit

observed-fingerprints :
    (m : FrozenAnalysisManifest) (srcdiff srcmove : ExecutableObservation)
    (old_commit new_commit : String)
    → srcdiff.sha256 ≡ m.srcdiff.sha256
    → srcmove.sha256 ≡ m.srcmove.sha256
    → pair_fingerprint_record
        (record m { srcdiff = srcdiff; srcmove = srcmove })
        old_commit
        new_commit
      ≡ pair_fingerprint_record m old_commit new_commit
unfolding pair_fingerprint_record
observed-fingerprints m srcdiff srcmove old_commit new_commit d e = rw (d, e) refl

-- When the inputs of a resumed analysis are verified, the manifest has the schema versions of this
-- program, the repository identity and the configuration are those that are frozen, the executables
-- have the frozen size and digest and take the place of the frozen ones, and the record that each
-- pair's fingerprint digests is the same as before.
pub verify_resume_inputs-Resumes :
    (m : FrozenAnalysisManifest) (repository_identity : String)
    (configuration : AnalysisConfiguration) (srcdiff srcmove : ExecutableObservation)
    (resumed : FrozenAnalysisManifest)
    → verify_resume_inputs m repository_identity configuration srcdiff srcmove ≡ valid resumed
    → Resumes m repository_identity configuration srcdiff srcmove resumed
unfolding verify_resume_inputs
verify_resume_inputs-Resumes m repository_identity configuration srcdiff srcmove resumed h =
    let (a, h1) =
      past_guard (not (same_versions m.schema_versions current_versions))
        "legacy analysis contract is read-only; create a new state" _ resumed h in
    let (b, h2) =
      past_guard (not (str_eq repository_identity m.repository_identity))
        "repository identity drift from frozen manifest" _ resumed h1 in
    let (c, h3) =
      past_guard (not (same_configuration configuration m.configuration))
        "analysis configuration drift from frozen manifest" _ resumed h2 in
    let (d, h4) =
      past_guard (not (same_content srcdiff m.srcdiff))
        "srcDiff executable drift from frozen manifest" _ resumed h3 in
    let (e, h5) =
      past_guard (not (same_content srcmove m.srcmove))
        "srcMove executable drift from frozen manifest" _ resumed h4 in
    let diff = same_content→SameContent srcdiff m.srcdiff (true_of_not _ d) in
    let move = same_content→SameContent srcmove m.srcmove (true_of_not _ e) in
    let same = sym (valid_inj h5) in
    record {
      current = same_versions→≡ m.schema_versions current_versions (true_of_not _ a);
      same_repository = (eq_iff repository_identity m.repository_identity).0 (true_of_not _ b);
      configured = same_configuration→≡ configuration m.configuration (true_of_not _ c);
      same_srcdiff = diff;
      same_srcmove = move;
      observed = same;
      fingerprints = λ x y.
          ap (λ r. pair_fingerprint_record r x y) same
          ∙ observed-fingerprints m srcdiff srcmove x y diff.1 move.1;
    }
