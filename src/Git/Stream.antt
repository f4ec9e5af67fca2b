-- ===== src/Git/Stream.antt =====
-- Reading a blob ends, takes exactly its bytes, and gives back what git has written.
use src_move.Common.{
  ℕ, zero, suc, ◌+◌, ◌-◌, ◌≤◌, ◌<◌, ◌≡◌, refl, sym, ap, ◌∙◌, true, false, List, [], ◌∷◌, ◌++◌,
  length, take, drop, min, leb, ◌==◌, if◌then◌else◌, arith, length-take, length-drop, drop-drop,
  append_assoc, append-nil,
}
use src_move.Common.Checked.{is_nil}
use src_move.Capture.{Hasher, IsStreaming}
use src_move.Git.Blob.{block_size, Copy, copied, truncated, copy_blocks}

take_nil : (n : ℕ) → take {A = ℕ} n [] ≡ []
take_nil zero = refl
take_nil (suc n) = refl

-- A block and the rest of what is wanted are together what is wanted.
take-take-drop :
    (m r : ℕ) (s : List ℕ)
    → m ≤ r
    → take m s ++ take (r - length (take m s)) (drop (length (take m s)) s) ≡ take r s
take-take-drop m r [] h = rw (take_nil m, take_nil (r - 0), take_nil r) refl
take-take-drop zero r (x ∷ s) h = let e : r - 0 ≡ r = omega arith in ap (λ k. take k (x ∷ s)) e
take-take-drop (suc m) zero (x ∷ s) h = absurd (omega arith)
take-take-drop (suc m) (suc r) (x ∷ s) h =
    let e : suc r - suc (length (take m s)) ≡ r - length (take m s) = omega arith in
    ap (λ l. x ∷ l)
      (ap (λ k. take m s ++ take k (drop (length (take m s)) s)) e
        ∙ take-take-drop m r s (omega arith))

is_nil-length : (xs : List ℕ) → 0 < length xs → is_nil xs ≡ false
is_nil-length [] h = absurd (omega arith)
is_nil-length (x ∷ xs) h = refl

module _ {hasher : Hasher} (streaming : IsStreaming hasher) where
  open hasher use {Digest, new, update}

  -- What reading `r` bytes of `s` should give.
  abbrev pub expected_copy : ℕ → List ℕ → List ℕ → Digest → Copy hasher
  expected_copy r s w d =
      if leb r (length s)
      then copied (w ++ take r s) (update d (take r s)) (drop r s)
      else truncated

  expected_copy-zero : (s w : List ℕ) (d : Digest) → expected_copy 0 s w d ≡ copied w d s
  expected_copy-zero s w d =
      let fits : leb 0 (length s) ≡ true = ground arith in
      rw (fits, append-nil w, streaming.update_nil d) refl

  expected_copy-step :
      (m r : ℕ) (s w : List ℕ) (d : Digest)
      → m ≤ r
      → expected_copy
          (r - length (take m s))
          (drop (length (take m s)) s)
          (w ++ take m s)
          (update d (take m s))
        ≡ expected_copy r s w d
  expected_copy-step m r s w d h =
      let b = length (take m s) in
      let fits : leb (r - b) (length (drop b s)) ≡ leb r (length s) =
        ground (arith, length-take m s, length-drop b s) in
      let joined = take-take-drop m r s h in
      let bytes = append_assoc w (take m s) (take (r - b) (drop b s)) ∙ ap (λ x. w ++ x) joined in
      let digest =
        streaming.update_append d (take m s) (take (r - b) (drop b s)) ∙ ap (update d) joined in
      let size : b + (r - b) ≡ r = omega (arith, length-take m s) in
      let left = drop-drop (r - b) b s ∙ ap (λ k. drop k s) size in
      rw (fits, bytes, digest, left) refl

  -- With as much fuel as bytes are wanted the loop ends; it has taken exactly these bytes, or the stream
  -- has fewer.
  pub copy_blocks-expected :
      (fuel r : ℕ) (s w : List ℕ) (d : Digest)
      → r ≤ fuel
      → copy_blocks hasher fuel r s w d ≡ expected_copy r s w d
  unfolding copy_blocks
  copy_blocks-expected zero zero s w d h = sym (expected_copy-zero s w d)
  copy_blocks-expected zero (suc r) s w d h = absurd (omega arith)
  copy_blocks-expected (suc fuel) zero s w d h = sym (expected_copy-zero s w d)
  copy_blocks-expected (suc fuel) (suc r) [] w d h =
      let wants : (suc r == 0) ≡ false = ground arith in
      let none_left : leb (suc r) 0 ≡ false = ground arith in
      rw (wants, take_nil (min block_size (suc r)), none_left) refl
  copy_blocks-expected (suc fuel) (suc r) (x ∷ s) w d h =
      let m = min block_size (suc r) in
      let block = take m (x ∷ s) in
      let size = length-take m (x ∷ s) in
      let wants : (suc r == 0) ≡ false = ground arith in
      let some_left = is_nil-length block (omega (arith, size)) in
      let rest =
        copy_blocks-expected fuel (suc r - length block) (drop (length block) (x ∷ s)) (w ++ block)
          (update d block) (omega (arith, size)) in
      rw (wants, some_left, rest) (expected_copy-step m (suc r) (x ∷ s) w d (omega arith))
