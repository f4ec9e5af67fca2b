-- ===== src/Categories.antt =====
-- bigMoveBench/categories.py: the benchmark category of a database row, and the category that a
-- benchmark case expects. A similarity is a natural number of millionths.
pub mod Expectation
mod Samples
use src_move.Common.{
  ℕ, zero, suc, ◌≡◌, refl, Bool, true, false, not, ◌&&◌, Option, none, some, String, leb, ◌==◌,
  str_eq, if◌then◌else◌,
}

-- `CATEGORIES`, and the category of a known false positive.
pub data Category : Type 0 where
  type1 type2b type2c type3 known_false_positive : Category

-- A key of a mapping: not there, null, or a value.
pub data Field {ℓ} (A : Type ℓ) : Type ℓ where
  absent null : Field A
  value : A → Field A

-- `row.get(key, default)`
abbrev pub get_or {ℓ} : {A : Type ℓ} → Field A → Field A → Field A
get_or absent default = default
get_or null default = null
get_or (value a) default = value a

pub record Row : Type 0 where
  pub pair_kind : Field String
  pub case_kind : Field String
  pub syntactic_type : Field ℕ
  pub similarity_line : Field ℕ
  pub similarity_token : Field ℕ
  pub nested_line : Field ℕ
  pub nested_token : Field ℕ

pub data Error : Type 0 where
  missing_similarity unsupported_type unsupported_version invalid_category category_conflict
        missing_key :
      Error

pub data Outcome : Type 0 where
  category : Category → Outcome
  raises : Error → Outcome

-- `== "known_false_positive"`
abbrev pub is_false_positive : Field String → Bool
is_false_positive absent = false
is_false_positive null = false
is_false_positive (value kind) = str_eq kind "known_false_positive"

abbrev pub of_similarity : Field ℕ → Field ℕ → Outcome
of_similarity absent token = raises missing_similarity
of_similarity null token = raises missing_similarity
of_similarity (value line) absent = raises missing_similarity
of_similarity (value line) null = raises missing_similarity
of_similarity (value line) (value token) =
    if leb 1000000 line && leb 1000000 token then category type2b else category type3

abbrev pub of_type : Field ℕ → Outcome → Outcome
of_type absent similar = raises unsupported_type
of_type null similar = raises unsupported_type
of_type (value kind) similar =
    if kind == 1
    then category type1
    else if kind == 2
    then category type2c
    else if kind == 3
    then similar
    else raises unsupported_type

-- `benchmark_category`
unfoldable pub benchmark_category : Row → Outcome
benchmark_category row =
    if is_false_positive (get_or row.pair_kind row.case_kind)
    then category known_false_positive
    else of_type row.syntactic_type (
        of_similarity (get_or row.similarity_line row.nested_line)
          (get_or row.similarity_token row.nested_token))

-- A case's metadata. A `benchmark_category` that is no category's text is `null`.
pub record Metadata : Type 0 where
  pub category_rules_version : Field ℕ
  pub benchmark_category_of : Field Category
  pub syntactic_type : Field ℕ

-- `{1: "type1", 2: "type2c", 3: "type3"}[...]`
abbrev pub unversioned : Field ℕ → Outcome
unversioned absent = raises missing_key
unversioned null = raises missing_key
unversioned (value kind) =
    if kind == 1
    then category type1
    else if kind == 2
    then category type2c
    else if kind == 3
    then category type3
    else raises missing_key

abbrev pub raw_type : Category → ℕ
raw_type type1 = 1
raw_type type2c = 2
raw_type type2b = 3
raw_type type3 = 3
raw_type known_false_positive = 0

abbrev pub is_type : Field ℕ → ℕ → Bool
is_type absent n = false
is_type null n = false
is_type (value kind) n = kind == n

abbrev pub is_category : Category → Bool
is_category known_false_positive = false
is_category type1 = true
is_category type2b = true
is_category type2c = true
is_category type3 = true

abbrev pub derived : Field Category → Field ℕ → Outcome
derived absent kind = raises invalid_category
derived null kind = raises invalid_category
derived (value c) kind =
    if not (is_category c)
    then raises invalid_category
    else if not (is_type kind (raw_type c))
    then raises category_conflict
    else category c

abbrev pub versioned : Metadata → Field ℕ → Outcome
versioned m absent = unversioned m.syntactic_type
versioned m null = unversioned m.syntactic_type
versioned m (value version) =
    if version == 1
    then derived m.benchmark_category_of m.syntactic_type
    else raises unsupported_version

-- `expected_category`
unfoldable pub expected_category : Metadata → Outcome
expected_category m = versioned m m.category_rules_version
