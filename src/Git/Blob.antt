-- ===== src/Git/Blob.antt =====
-- `GitBatch._write_blob`: one answer of `git cat-file --batch`, read from the bytes of its output. Bytes
-- are natural numbers; `read(n)` of a buffered pipe gives n bytes, or what is left at its end. The
-- process is running, and the target can be written.
use src_move.Common.{
  ℕ, zero, suc, ◌-◌, Bool, true, false, ◌&&◌, ◌||◌, Option, none, some, List, [], ◌∷◌, ◌++◌, map,
  length, take, drop, min, leb, ◌==◌, if◌then◌else◌, String,
}
use src_move.Common.Checked.{is_nil}
use src_move.Capture.{Hasher}

-- A byte of `decode("ascii", errors="replace")`: the replacement character stands for what is not ASCII.
abbrev pub decode : ℕ → ℕ
decode c = if leb c 127 then c else 65533

-- What `str.isspace` holds of in a decoded text: the blank, tab to carriage return, and the four
-- separators from 28 to 31. The replacement character is no space.
abbrev pub is_space : ℕ → Bool
is_space c = (c == 32) || ((leb 9 c && leb c 13) || (leb 28 c && leb c 31))

abbrev pub flush : List ℕ → List (List ℕ)
flush [] = []
flush (c ∷ cs) = (c ∷ cs) ∷ []

-- `header.split()`, with the word that has been begun.
unfoldable pub words_from : List ℕ → List ℕ → List (List ℕ)
words_from word [] = flush word
words_from word (c ∷ cs) =
    let next = words_from [] cs in
    let same = words_from (word ++ c ∷ []) cs in if is_space c then flush word ++ next else same

-- `readline()`: the bytes before the line feed, and those after it.
unfoldable pub line_of : List ℕ → List ℕ
line_of [] = []
line_of (c ∷ cs) = let rest = line_of cs in if c == 10 then [] else c ∷ rest

unfoldable pub after_line : List ℕ → List ℕ
after_line [] = []
after_line (c ∷ cs) = let rest = after_line cs in if c == 10 then cs else rest

abbrev pub same_bytes : List ℕ → List ℕ → Bool
same_bytes [] [] = true
same_bytes [] (y ∷ ys) = false
same_bytes (x ∷ xs) [] = false
same_bytes (x ∷ xs) (y ∷ ys) = (x == y) && same_bytes xs ys

-- `"blob"`
abbrev pub blob_word : List ℕ
blob_word = b'b' ∷ b'l' ∷ b'o' ∷ b'b' ∷ []

-- `1024 * 1024`
abbrev pub block_size : ℕ
block_size = 1048576

module _ (hasher : Hasher) where
  open hasher use {Digest, new, update, hexdigest}

  -- The blob as written, the digest, and the bytes that git has still to be read; or the error.
  pub data Copy : Type 0 where
    copied : List ℕ → Digest → List ℕ → Copy
    truncated : Copy
    out_of_fuel : Copy

  -- `while remaining:`, with the bytes written.
  unfoldable pub copy_blocks : ℕ → ℕ → List ℕ → List ℕ → Digest → Copy
  copy_blocks zero remaining stream written digest =
      if remaining == 0 then copied written digest stream else out_of_fuel
  copy_blocks (suc fuel) remaining stream written digest =
      let block = take (min block_size remaining) stream in
      let rest =
        copy_blocks fuel (remaining - length block) (drop (length block) stream) (written ++ block)
          (update digest block) in
      if remaining == 0
      then copied written digest stream
      else if is_nil block
      then truncated
      else rest

  pub data Answer : Type 0 where
    written : (content : List ℕ) (sha256 : String) (rest : List ℕ) → Answer
    malformed_header invalid_size truncated_blob no_delimiter fuel_spent : Answer

  -- `process.stdout.read(1) != b"\n"`
  abbrev pub delimited : List ℕ → String → List ℕ → Answer
  delimited content sha256 [] = no_delimiter
  delimited content sha256 (c ∷ rest) =
      if c == 10 then written content sha256 rest else no_delimiter

  abbrev pub of_copy : Copy → Answer
  of_copy (copied content digest rest) = delimited content (hexdigest digest) rest
  of_copy truncated = truncated_blob
  of_copy out_of_fuel = fuel_spent

  abbrev pub of_size : Option ℕ → List ℕ → Answer
  of_size none stream = invalid_size
  of_size (some size) stream = of_copy (copy_blocks size size stream [] new)

  -- The three fields of a header.
  abbrev pub of_fields : (parse_int : List ℕ → Option ℕ) → List ℕ → List (List ℕ) → List ℕ → Answer
  of_fields parse_int blob (name ∷ kind ∷ size ∷ []) stream =
      if same_bytes kind blob_word && same_bytes name blob
      then of_size (parse_int size) stream
      else malformed_header
  of_fields parse_int blob _ stream = malformed_header

  -- `_write_blob`; `parse_int` is `int` of a text, for a size. The name, which is written to git first, is
  -- a text of ASCII characters.
  unfoldable pub write_blob : (parse_int : List ℕ → Option ℕ) → List ℕ → List ℕ → Answer
  unfolding copy_blocks words_from line_of after_line
  write_blob parse_int blob stream =
      of_fields parse_int blob (words_from [] (map decode (line_of stream))) (after_line stream)
