-- ===== src/Categories/Expectation.antt =====
-- The category that a case expects is the one that was derived from its row.
use src_move.Common.{ℕ, ◌≡◌, ◌≢◌, ◌⊎◌, arith}
use src_move.Categories.{
  Category, type1, type2b, type2c, type3, known_false_positive, Field, absent, null, value, Row,
  Outcome, category, get_or, of_similarity, of_type, derived, unversioned, benchmark_category,
  Metadata, expected_category,
}

-- What a case keeps of a row: its raw type, and under version 1 the category derived from it.
abbrev pub derived_metadata : Row → Category → Metadata
derived_metadata row c = record {
  category_rules_version = value 1;
  benchmark_category_of = value c;
  syntactic_type = row.syntactic_type;
}

abbrev pub raw_metadata : Row → Metadata
raw_metadata row = record {
  category_rules_version = absent;
  benchmark_category_of = absent;
  syntactic_type = row.syntactic_type;
}

-- Without a rules version, a row of type 2b has a case that expects its raw type 3.
abbrev pub raw_expectation : Category → Category
raw_expectation type1 = type1
raw_expectation type2b = type3
raw_expectation type2c = type2c
raw_expectation type3 = type3
raw_expectation known_false_positive = known_false_positive

-- The category of similarities is one of the two of raw type 3.
similarity_category :
    (line token : Field ℕ) (c : Category)
    → of_similarity line token ≡ category c
    → (c ≡ type2b) ⊎ (c ≡ type3)
similarity_category absent token c h = cc
similarity_category null token c h = cc
similarity_category (value l) absent c h = cc
similarity_category (value l) null c h = cc
similarity_category (value l) (value t) c h = ground arith

-- The category that is derived from a raw type has that raw type.
typed :
    (kind : Field ℕ) (similar : Outcome) (c : Category)
    → (similar ≡ category c → (c ≡ type2b) ⊎ (c ≡ type3))
    → of_type kind similar ≡ category c
    → (derived (value c) kind ≡ category c) × (unversioned kind ≡ category (raw_expectation c))
typed absent similar c s h = cc
typed null similar c s h = cc
typed (value kind) similar type1 s h = (ground arith, ground arith)
typed (value kind) similar type2c s h = (ground arith, ground arith)
typed (value kind) similar type2b s h = (ground arith, ground arith)
typed (value kind) similar type3 s h = (ground arith, ground arith)
typed (value kind) similar known_false_positive s h = absurd (ground arith)

-- A row of a category other than a known false positive has a case that expects just this category
-- under the current rules; without a rules version its case expects the same category, but for a row
-- of type 2b, whose case then expects type 3.
pub expected-benchmark :
    (row : Row) (c : Category)
    → benchmark_category row ≡ category c
    → c ≢ known_false_positive
    → (expected_category (derived_metadata row c) ≡ category c)
      × (expected_category (raw_metadata row) ≡ category (raw_expectation c))
unfolding benchmark_category expected_category
expected-benchmark row c h clone =
    let line = get_or row.similarity_line row.nested_line in
    let token = get_or row.similarity_token row.nested_token in
    typed row.syntactic_type (of_similarity line token) c (similarity_category line token c)
      (ground arith)
