-- ===== src/Oracle/Texts.antt =====
-- The comparison of a reported text with the expected one. Python's text functions are parameters: the
-- stripping of lines, the test for damaged encoding and its repair.
use src_move.Common.{Bool, ◌||◌, Option, none, some, List, [], ◌∷◌, String, str_eq, if◌then◌else◌}

pub record TextRules : Type 0 where
  -- `normalize_moved_text`
  pub normalize : String → String
  -- `has_encoding_damage`
  pub has_damage : String → Bool
  -- `normalize_encoding_damage`
  pub repair : String → String

-- How a text matches.
pub data Status : Type 0 where
  strict encoding_tolerant : Status

-- `text_matches_with_status`
unfoldable pub text_matches_with_status : TextRules → String → String → Option Status
text_matches_with_status rules observed expected =
    let o = rules.normalize observed in
    let e = rules.normalize expected in
    if str_eq o e
    then some strict
    else if rules.has_damage o || rules.has_damage e
    then if str_eq (rules.repair o) (rules.repair e) then some encoding_tolerant else none
    else none

abbrev pub or_status : Option Status → Option Status → Option Status
or_status none other = other
or_status (some s) other = some s

-- The status of the first of the values that matches.
unfoldable pub first_status : TextRules → String → List String → Option Status
unfolding text_matches_with_status
first_status rules expected [] = none
first_status rules expected (value ∷ values) =
    or_status (text_matches_with_status rules value expected) (first_status rules expected values)

-- The texts of one side of a case's metadata, where they are texts.
pub record ExpectedText : Type 0 where
  pub generated : Option String
  pub raw : Option String

-- `expected_generated_text`
unfoldable pub expected_generated_text : ExpectedText → Option String
expected_generated_text e = chosen e.generated e.raw
  where
    chosen : Option String → Option String → Option String
    chosen none raw = raw
    chosen (some text) raw = some text
