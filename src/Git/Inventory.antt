-- ===== src/Git/Inventory.antt =====
-- `inventory_changed_paths`: the fields that `git diff --raw -z` prints, read two at a time.
use Prim.Native.String.{◌++◌ as str_append}
use src_move.Common.{
  Bool, not, ◌&&◌, ◌||◌, Option, none, some, List, [], ◌∷◌, ◌++◌, map, String, length, ◌%◌, ◌==◌,
  str_eq, if◌then◌else◌,
}
use src_move.Common.Checked.{is_nil, Checked, valid, invalid, and_then, filter}
use src_move.Common.Occurrences.{member}
use src_move.Contracts.{ChangedPath, content_changed}

-- Python's text functions: `str.split` of a header without its colon, the suffix of a path,
-- `str.lower`, and `sorted(set(...))`.
pub record Text : Type 0 where
  pub words : String → List String
  pub suffix : String → String
  pub lower : String → String
  pub sorted_set : List String → List String

abbrev pub is_regular : String → Bool
is_regular mode = str_eq mode "100644" || str_eq mode "100755"

-- `GIT_MODE_NAMES.get(mode, mode)`
abbrev pub mode_name : String → String
mode_name mode =
    if str_eq mode "120000" then "symlink" else if str_eq mode "160000" then "submodule" else mode

unfoldable pub mode_reasons : String → List String
mode_reasons mode =
    if str_eq mode "000000" || is_regular mode
    then []
    else str_append "unsupported_git_mode: " (mode_name mode) ∷ []

-- `_unsupported_git_mode_reasons`
unfoldable pub unsupported_git_mode_reasons : Text → String → String → List String
unfolding mode_reasons
unsupported_git_mode_reasons text old_mode new_mode =
    text.sorted_set (mode_reasons old_mode ++ mode_reasons new_mode)

-- `SRCML_SOURCE_SUFFIXES`
abbrev pub srcml_source_suffixes : List String
srcml_source_suffixes =
    ".aj" ∷ ".c" ∷ ".C" ∷ ".c++" ∷ ".cc" ∷ ".cp" ∷ ".cpp" ∷ ".CPP" ∷ ".cs" ∷ ".cxx" ∷ ".h" ∷ ".H"
    ∷ ".h++" ∷ ".hh" ∷ ".hpp" ∷ ".hxx" ∷ ".i" ∷ ".ii" ∷ ".java" ∷ ".py" ∷ ".pyi" ∷ ".pyw" ∷ ".pyz"
    ∷ ".tcc" ∷ []

abbrev pub suffix_label : String → String
suffix_label suffix = if str_eq suffix "" then "<none>" else suffix

-- The reason for a suffix, when the modes gave none.
unfoldable pub suffix_reasons : Text → List String → String → List String
suffix_reasons text excluded suffix =
    if not (member str_eq suffix srcml_source_suffixes)
    then str_append "unsupported_srcml_extension: " (suffix_label suffix) ∷ []
    else if member str_eq (text.lower suffix) excluded
    then str_append "excluded_suffix: " (text.lower suffix) ∷ []
    else []

abbrev pub or_else : List String → List String → List String
or_else [] ys = ys
or_else (x ∷ xs) ys = x ∷ xs

-- `exclusion_reasons`, with the excluded suffixes in lower case.
unfoldable pub exclusion_reasons : Text → List String → String → String → String → List String
unfolding unsupported_git_mode_reasons suffix_reasons
exclusion_reasons text excluded old_mode new_mode path =
    or_else (unsupported_git_mode_reasons text old_mode new_mode)
      (suffix_reasons text excluded (text.suffix path))

-- The five words of a header.
pub record Header : Type 0 where
  pub old_mode : String
  pub new_mode : String
  pub old_blob : String
  pub new_blob : String
  pub status : String

unfoldable pub header_of : List String → Option Header
header_of (old_mode ∷ new_mode ∷ old_blob ∷ new_blob ∷ status ∷ []) = some (record {
  old_mode = old_mode;
  new_mode = new_mode;
  old_blob = old_blob;
  new_blob = new_blob;
  status = status;
})
header_of _ = none

unfoldable pub change_of : Text → List String → Option Header → String → Checked ChangedPath
change_of text excluded none path = invalid "Git returned malformed change header"
change_of text excluded (some h) path = valid (record {
  status = h.status;
  path = path;
  old_mode = h.old_mode;
  new_mode = h.new_mode;
  old_blob = h.old_blob;
  new_blob = h.new_blob;
  exclusion_reasons = exclusion_reasons text excluded h.old_mode h.new_mode path;
})

-- The loop over the fields, of which there is an even number.
unfoldable pub changes_of : Text → List String → List String → Checked (List ChangedPath)
unfolding change_of header_of
changes_of text excluded [] = valid []
changes_of text excluded (header ∷ []) = valid []
changes_of text excluded (header ∷ path ∷ fields) =
    let rest = changes_of text excluded fields in
    and_then (change_of text excluded (header_of (text.words header)) path)
      (λ change. and_then rest (λ changes. valid (change ∷ changes)))

-- The test of `analyzable`.
unfoldable pub is_analyzable : ChangedPath → Bool
is_analyzable change = is_nil change.exclusion_reasons && content_changed change

-- What `inventory_changed_paths` returns.
pub record Inventory : Type 0 where
  pub changed : List ChangedPath
  pub analyzable : List ChangedPath

unfoldable pub inventory_changed_paths : Text → List String → List String → Checked Inventory
unfolding changes_of is_analyzable
inventory_changed_paths text excluded_suffixes fields =
    if not (length fields % 2 == 0)
    then invalid "Git returned malformed raw changed-path metadata"
    else and_then (changes_of text (map text.lower excluded_suffixes) fields)
        (λ changes. valid (record { changed = changes; analyzable = filter is_analyzable changes }))
