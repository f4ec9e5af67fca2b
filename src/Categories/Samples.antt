-- ===== src/Categories/Samples.antt =====
-- The theorem of categories at a row of type 2b.
use src_move.Common.{◌≡◌, ◌≢◌, refl}
use src_move.Categories.{
  type2b, type3, known_false_positive, absent, value, Row, category, benchmark_category,
  expected_category,
}
use src_move.Categories.Expectation.{derived_metadata, raw_metadata, expected-benchmark}

abbrev row : Row
row = record {
  pair_kind = value "clone";
  case_kind = absent;
  syntactic_type = value 3;
  similarity_line = value 1000000;
  similarity_token = absent;
  nested_line = absent;
  nested_token = value 1000000;
}

row_category : benchmark_category row ≡ category type2b
unfolding benchmark_category
row_category = refl

type2b_is_clone : type2b ≢ known_false_positive
type2b_is_clone = λ e. cc e

expected-benchmark_example :
    (expected_category (derived_metadata row type2b) ≡ category type2b)
    × (expected_category (raw_metadata row) ≡ category type3)
expected-benchmark_example = expected-benchmark row type2b row_category type2b_is_clone
