-- ===== src/Git/Samples.antt =====
-- The history, the inventory and the blobs of a small repository.
use src_move.Common.{
  ℕ, ◌-◌, ◌≡◌, refl, true, false, Option, none, some, List, [], ◌∷◌, ◌++◌, map, String, str_eq,
  if◌then◌else◌, arith,
}
use src_move.Common.Checked.{valid, filter, all_of}
use src_move.Contracts.{
  ChangedPath, VerifiedArtifact, content_changed, exists_in_old, exists_in_new,
}
use src_move.Capture.Samples.{remembering, remembering-IsStreaming}
use src_move.Git.Inventory.{Text, Inventory, inventory_changed_paths, exclusion_reasons}
use src_move.Git.Materialize.{old, materialize, exists_on}
use src_move.Git.Admitted.{KeepsElements, artifact_of, inventory-materialize, is_complete}
use src_move.Git.History.{select_older, select_through, first_parent_distance}
use src_move.Git.Selection.{beginning, select_older-beginning, distance-selections}
use src_move.Git.Blob.{copy_blocks, write_blob, written}
use src_move.Git.Stream.{expected_copy, copy_blocks-expected}
use src_move.Git.Answers.{header_line, write_blob-answer}

abbrev chain : List String
chain = "c9" ∷ "b5" ∷ "a7" ∷ "f0" ∷ []

older :
    select_older "c9" (some 2) chain
    ≡ valid (record {
      resolved_start = "c9";
      commits = "a7" ∷ "b5" ∷ "c9" ∷ [];
      history_exhausted = false;
    })
unfolding select_older
older = refl

select_older-beginning_example : select_older "c9" (some 2) chain ≡ valid (beginning "c9" 2 chain)
select_older-beginning_example = select_older-beginning "c9" 2 chain (omega arith) (omega arith)

distance : first_parent_distance 2 "a7" chain ≡ valid 2
unfolding first_parent_distance
distance = refl

distance-selections_example : select_older "c9" (some 2) chain ≡ select_through "c9" "a7" chain
distance-selections_example = distance-selections "c9" 2 "a7" chain 2 refl distance (omega arith)

-- The headers of the sample, split.
abbrev words : String → List String
words header =
    if str_eq header "added"
    then "000000" ∷ "100644" ∷ "0000" ∷ "1234" ∷ "A" ∷ []
    else if str_eq header "linked"
    then "120000" ∷ "100644" ∷ "5678" ∷ "1234" ∷ "T" ∷ []
    else "100755" ∷ "100644" ∷ "5678" ∷ "1234" ∷ "M" ∷ []

abbrev suffix : String → String
suffix path = if str_eq path "notes" then "" else ".cpp"

abbrev pub text : Text
text = record { words = words; suffix = suffix; lower = λ s. s; sorted_set = λ xs. xs }

text-KeepsElements : KeepsElements text
text-KeepsElements = record { empty_only = λ xs e. e }

abbrev pub raw : List String
raw = "added" ∷ "one.cpp" ∷ "linked" ∷ "two.cpp" ∷ "changed" ∷ "notes" ∷ "changed" ∷ "four.cpp" ∷ []

abbrev change : List String → String → ChangedPath
change reasons path = record {
  status = "M";
  path = path;
  old_mode = "100755";
  new_mode = "100644";
  old_blob = "5678";
  new_blob = "1234";
  exclusion_reasons = reasons;
}

abbrev added : ChangedPath
added = record (change [] "one.cpp") { status = "A"; old_mode = "000000"; old_blob = "0000" }

abbrev linked : ChangedPath
linked = record (change ("unsupported_git_mode: symlink" ∷ []) "two.cpp") {
  status = "T";
  old_mode = "120000";
}

abbrev pub inventory : Inventory
inventory = record {
  changed =
      added
      ∷ linked
      ∷ change ("unsupported_srcml_extension: <none>" ∷ []) "notes"
      ∷ change [] "four.cpp"
      ∷ [];
  analyzable = added ∷ change [] "four.cpp" ∷ [];
}

inventoried : inventory_changed_paths text [] raw ≡ valid inventory
unfolding inventory_changed_paths exclusion_reasons content_changed
inventoried = refl

abbrev write : String → String → String → VerifiedArtifact
write blob mode path = record {
  path = path;
  size_bytes = 4;
  sha256 = "digest";
  kind = "git_blob";
  validation_status = "valid";
  producing_stage = "git_materialization";
  producing_command = "git" ∷ "cat-file" ∷ "--batch" ∷ [];
  shape = none;
  details = ("git_blob", blob) ∷ ("git_mode", mode) ∷ [];
  retention = "ephemeral_input";
}

is_complete_inventory : all_of (is_complete (λ path. true)) inventory.analyzable ≡ true
unfolding exists_in_old exists_in_new
is_complete_inventory = refl

inventory-materialize_example :
    materialize
      (λ path. true)
      (λ blob mode path. valid (write blob mode path))
      old
      inventory.analyzable
    ≡ valid (map (artifact_of write old) (filter (exists_on old) inventory.analyzable))
inventory-materialize_example =
    inventory-materialize text-KeepsElements [] raw inventory (λ path. true) write old inventoried
      is_complete_inventory

-- Five bytes wanted, and then seven of a stream of six.
copy_blocks-expected_example :
    copy_blocks remembering 8 5 (1 ∷ 2 ∷ 3 ∷ 4 ∷ 5 ∷ 6 ∷ []) [] []
    ≡ expected_copy remembering-IsStreaming 5 (1 ∷ 2 ∷ 3 ∷ 4 ∷ 5 ∷ 6 ∷ []) [] []
copy_blocks-expected_example =
    copy_blocks-expected remembering-IsStreaming 8 5 (1 ∷ 2 ∷ 3 ∷ 4 ∷ 5 ∷ 6 ∷ []) [] []
      (omega arith)

-- A size of one digit.
abbrev parse_digit : List ℕ → Option ℕ
parse_digit [] = none
parse_digit (c ∷ []) = some (c - 48)
parse_digit (c ∷ d ∷ cs) = none

abbrev answer : List ℕ
answer = header_line (b'a' ∷ b'7' ∷ []) (b'3' ∷ []) ++ 10 ∷ (1 ∷ 10 ∷ 3 ∷ 10 ∷ 99 ∷ [])

write_blob-answer_example :
    write_blob remembering parse_digit (b'a' ∷ b'7' ∷ []) answer
    ≡ written (1 ∷ 10 ∷ 3 ∷ []) "digest" (99 ∷ [])
write_blob-answer_example =
    write_blob-answer remembering-IsStreaming parse_digit (b'a' ∷ b'7' ∷ []) (b'3' ∷ [])
      (1 ∷ 10 ∷ 3 ∷ []) (99 ∷ []) refl refl refl
