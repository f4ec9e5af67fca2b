-- ===== src/Git/Answers.antt =====
-- An answer in git's format is read back: the header's words, the blob and the delimiter.
use src_move.Common.{
  ℕ, ◌≡◌, refl, ap, ◌∙◌, Bool, true, false, not, ◌&&◌, Option, some, List, [], ◌∷◌, ◌++◌, map,
  length, take, drop, leb, ◌==◌, arith, length-append, append_assoc, append-nil,
}
use src_move.Common.Checked.{all_of, both}
use src_move.Capture.{Hasher, IsStreaming}
use src_move.Git.Blob.{
  copied, decode, is_space, flush, words_from, line_of, after_line, same_bytes, blob_word, written,
  write_blob, copy_blocks,
}
use src_move.Git.Stream.{copy_blocks-expected}

abbrev pub is_word_byte : ℕ → Bool
is_word_byte c = leb c 127 && not (is_space c)

-- A field of a header: not empty, of ASCII characters without whitespace.
abbrev pub is_field : List ℕ → Bool
is_field [] = false
is_field (c ∷ cs) = all_of is_word_byte (c ∷ cs)

-- `<blob> blob <size>`
abbrev pub header_line : List ℕ → List ℕ → List ℕ
header_line blob size = blob ++ 32 ∷ (blob_word ++ 32 ∷ size)

words_from-word :
    (acc w s : List ℕ)
    → all_of is_word_byte w ≡ true
    → words_from acc (w ++ 32 ∷ s) ≡ flush (acc ++ w) ++ words_from [] s
unfolding words_from
words_from-word acc [] s h = rw (append-nil acc) refl
words_from-word acc (c ∷ w) s h =
    let (here, after) = both (is_word_byte c) (all_of is_word_byte w) h in
    let black : is_space c ≡ false = ground (arith, here) in
    rw black (
      words_from-word (acc ++ c ∷ []) w s after
      ∙ ap (λ x. flush x ++ words_from [] s) (append_assoc acc (c ∷ []) w))

words_from-last :
    (acc w : List ℕ) → all_of is_word_byte w ≡ true → words_from acc w ≡ flush (acc ++ w)
unfolding words_from
words_from-last acc [] h = rw (append-nil acc) refl
words_from-last acc (c ∷ w) h =
    let (here, after) = both (is_word_byte c) (all_of is_word_byte w) h in
    let black : is_space c ≡ false = ground (arith, here) in
    rw black (words_from-last (acc ++ c ∷ []) w after ∙ ap flush (append_assoc acc (c ∷ []) w))

flush_field : (w : List ℕ) → is_field w ≡ true → (flush w ≡ w ∷ []) × (all_of is_word_byte w ≡ true)
flush_field [] h = cc
flush_field (c ∷ w) h = (refl, h)

-- The three words of a header.
words-header_line :
    (blob size : List ℕ)
    → is_field blob ≡ true
    → is_field size ≡ true
    → words_from [] (header_line blob size) ≡ blob ∷ blob_word ∷ size ∷ []
unfolding words_from
words-header_line blob size b s =
    let (fb, wb) = flush_field blob b in
    let (fs, ws) = flush_field size s in
    rw (words_from-word [] blob (blob_word ++ 32 ∷ size) wb, fb)
      (ap (λ r. blob ∷ blob_word ∷ r) (words_from-last [] size ws ∙ fs))

-- ASCII is what it decodes to.
decode_ascii : (w : List ℕ) → all_of (λ c. leb c 127) w ≡ true → map decode w ≡ w
decode_ascii [] h = refl
decode_ascii (c ∷ w) h =
    let (here, after) = both (leb c 127) (all_of (λ x. leb x 127) w) h in
    rw here (ap (λ r. c ∷ r) (decode_ascii w after))

word_ascii : (w : List ℕ) → all_of is_word_byte w ≡ true → all_of (λ c. leb c 127) w ≡ true
word_ascii [] h = refl
word_ascii (c ∷ w) h =
    let (here, after) = both (is_word_byte c) (all_of is_word_byte w) h in
    let ascii : leb c 127 ≡ true = ground (arith, here) in rw (ascii, word_ascii w after) refl

-- A line without a line feed, read from a stream that goes on.
lines :
    (h s : List ℕ)
    → all_of (λ c. not (c == 10)) h ≡ true
    → (line_of (h ++ 10 ∷ s) ≡ h) × (after_line (h ++ 10 ∷ s) ≡ s)
unfolding line_of after_line
lines [] s h = (refl, refl)
lines (c ∷ cs) s h =
    let (here, after) = both (not (c == 10)) (all_of (λ x. not (x == 10)) cs) h in
    let other : (c == 10) ≡ false = ground (arith, here) in
    let (a, b) = lines cs s after in rw (other, a, b) (refl, refl)

all_of-append :
    (p : ℕ → Bool) (xs ys : List ℕ)
    → all_of p xs ≡ true
    → all_of p ys ≡ true
    → all_of p (xs ++ ys) ≡ true
all_of-append p [] ys a b = b
all_of-append p (x ∷ xs) ys a b =
    let (here, after) = both (p x) (all_of p xs) a in rw (here, all_of-append p xs ys after b) refl

word_line : (w : List ℕ) → all_of is_word_byte w ≡ true → all_of (λ c. not (c == 10)) w ≡ true
word_line [] h = refl
word_line (c ∷ w) h =
    let (here, after) = both (is_word_byte c) (all_of is_word_byte w) h in
    let other : (c == 10) ≡ false = ground (arith, here) in rw (other, word_line w after) refl

same_bytes_refl : (xs : List ℕ) → same_bytes xs xs ≡ true
same_bytes_refl [] = refl
same_bytes_refl (x ∷ xs) = let e : (x == x) ≡ true = ground arith in rw (e, same_bytes_refl xs) refl

-- The header and all its bytes are read when its fields hold no whitespace.
header_line-lines :
    (blob size s : List ℕ)
    → is_field blob ≡ true
    → is_field size ≡ true
    → (line_of (header_line blob size ++ 10 ∷ s) ≡ header_line blob size)
      × (after_line (header_line blob size ++ 10 ∷ s) ≡ s)
header_line-lines blob size s b f =
    let wb = (flush_field blob b).1 in
    let ws = (flush_field size f).1 in
    lines (header_line blob size) s
      (all_of-append _ blob (32 ∷ (blob_word ++ 32 ∷ size)) (word_line blob wb) (word_line size ws))

header_line-decode :
    (blob size : List ℕ)
    → is_field blob ≡ true
    → is_field size ≡ true
    → map decode (header_line blob size) ≡ header_line blob size
header_line-decode blob size b f = decode_ascii (header_line blob size) (
    all_of-append _ blob (32 ∷ (blob_word ++ 32 ∷ size)) (word_ascii blob (flush_field blob b).1)
      (word_ascii size (flush_field size f).1))

whole : (xs ys : List ℕ) → (take (length xs) (xs ++ ys) ≡ xs) × (drop (length xs) (xs ++ ys) ≡ ys)
whole [] ys = (refl, refl)
whole (x ∷ xs) ys = let (a, b) = whole xs ys in (ap (λ l. x ∷ l) a, b)

module _ {hasher : Hasher} (streaming : IsStreaming hasher) where
  open hasher use {Digest, new, update, hexdigest}

  copy_whole :
      (content rest : List ℕ)
      → copy_blocks hasher (length content) (length content) (content ++ rest) [] new
        ≡ copied content (update new content) rest
  copy_whole content rest =
      let fits : leb (length content) (length (content ++ rest)) ≡ true =
        ground (arith, length-append content rest) in
      let (begins, ends) = whole content rest in
      copy_blocks-expected streaming (length content) (length content) (content ++ rest) [] new
        (omega arith)
      ∙ rw (fits, begins, ends) refl

  -- When the name and the size are not empty, of ASCII characters and without whitespace, and `int` reads the size as the
  -- number of the content's bytes, the answer that git writes is read as the content and its digest, and
  -- what follows the answer is left to be read.
  pub write_blob-answer :
      (parse_int : List ℕ → Option ℕ) (blob size content rest : List ℕ)
      → is_field blob ≡ true
      → is_field size ≡ true
      → parse_int size ≡ some (length content)
      → write_blob hasher parse_int blob (header_line blob size ++ 10 ∷ (content ++ 10 ∷ rest))
        ≡ written content (hexdigest (update new content)) rest
  unfolding write_blob
  write_blob-answer parse_int blob size content rest b f number =
      let (line, after) = header_line-lines blob size (content ++ 10 ∷ rest) b f in
      rw
        (
          line,
          after,
          header_line-decode blob size b f,
          words-header_line blob size b f,
          same_bytes_refl blob,
          number,
          copy_whole content (10 ∷ rest),
        )
        refl
