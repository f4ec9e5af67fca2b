-- ===== src/Capture/Window.antt =====
-- What `_BoundedCapture` retains is a function of the whole stream and not of its division into
-- blocks: the head window and the tail window below.
use src_move.Common.{
  ℕ, ◌+◌, ◌-◌, ◌/◌, ◌≡◌, inl, inr, Bool-cases, drop-append_of_le, refl, sym, ap, ◌∙◌, List, [], ◌∷◌,
  ◌++◌, length, take, drop, ltb, arith, length-append, length-take, length-drop, take_all, drop_all,
  take-append, drop-append, drop-drop, append-nil,
}
use src_move.Capture.{Hasher, IsStreaming, BoundedCapture, initial, add, trim, extend}

-- The last `n` entries.
abbrev pub last : ℕ → List ℕ → List ℕ
last n xs = drop (length xs - n) xs

trim-eq-last : (n : ℕ) (xs : List ℕ) → trim n xs ≡ last n xs
unfolding trim
trim-eq-last n xs = elim (Bool-cases (ltb n (length xs))) [
  | inl longer ↦ rw longer
  | inr fits ↦
      let none_cut : 0 ≡ length xs - n = ground arith in rw fits (ap (λ k. drop k xs) none_cut)
]

-- Trimming before an extension is no different from trimming after it.
last-last-append : (n : ℕ) (xs ys : List ℕ) → last n (last n xs ++ ys) ≡ last n (xs ++ ys)
last-last-append n xs ys =
    let k = length xs - n in
    let joined : drop k xs ++ ys ≡ drop k (xs ++ ys) =
      sym (drop-append_of_le k xs ys (omega arith)) in
    let offset : k + (length (drop k (xs ++ ys)) - n) ≡ length (xs ++ ys) - n =
      omega (arith, length-drop k (xs ++ ys), length-append xs ys) in
    ap (last n) joined
    ∙ drop-drop (length (drop k (xs ++ ys)) - n) k (xs ++ ys)
    ∙ ap (λ j. drop j (xs ++ ys)) offset

extend-eq-last :
    (n : ℕ) (remainder stream : List ℕ)
    → extend n remainder (last n stream) ≡ last n (stream ++ remainder)
unfolding extend
extend-eq-last n [] stream = ap (last n) (sym (append-nil stream))
extend-eq-last n (x ∷ xs) stream =
    trim-eq-last n (last n stream ++ x ∷ xs) ∙ last-last-append n stream (x ∷ xs)

-- The windows that a capture of a limit keeps of a stream.
abbrev pub head_window : ℕ → List ℕ → List ℕ
head_window limit stream = take (limit / 2) stream

abbrev pub tail_window : ℕ → List ℕ → List ℕ
tail_window limit stream = last (limit - limit / 2) (drop (limit / 2) stream)

tail_window-nil : (limit : ℕ) → tail_window limit [] ≡ []
tail_window-nil limit =
    ap (last (limit - limit / 2)) (drop_all (limit / 2) [] (omega arith))
    ∙ drop_all (0 - (limit - limit / 2)) [] (omega arith)

module _ {hasher : Hasher} (streaming : IsStreaming hasher) where
  -- The capture `c` has seen exactly `stream`.
  pub record Sees (limit : ℕ) (stream : List ℕ) (c : BoundedCapture hasher) : Type 0 where
    pub limit_kept : c.limit ≡ limit
    pub head_seen : c.head ≡ head_window limit stream
    pub tail_seen : c.tail ≡ tail_window limit stream
    pub total_seen : c.total ≡ length stream
    pub digest_seen : c.digest ≡ hasher.update hasher.new stream

  pub Sees-initial : (limit : ℕ) → Sees limit [] (initial hasher limit)
  unfolding initial
  Sees-initial limit = record {
    limit_kept = refl;
    head_seen = sym (take_all (limit / 2) [] (omega arith));
    tail_seen = sym (tail_window-nil limit);
    total_seen = refl;
    digest_seen = sym (streaming.update_nil hasher.new);
  }

  room :
      (limit : ℕ) (stream : List ℕ) (c : BoundedCapture hasher)
      → Sees limit stream c
      → c.limit / 2 - length c.head ≡ limit / 2 - length stream
  room limit stream c h = omega (
    arith,
    ap (λ (l : ℕ). l / 2) h.limit_kept,
    ap (length {A = ℕ}) h.head_seen,
    length-take (limit / 2) stream,
  )

  pub add-Sees :
      (limit : ℕ) (stream block : List ℕ) (c : BoundedCapture hasher)
      → Sees limit stream c
      → Sees limit (stream ++ block) (add hasher c block)
  unfolding add
  add-Sees limit stream block c h = record {
    limit_kept = h.limit_kept;
    head_seen = cc (h.head_seen, room limit stream c h, take-append (limit / 2) stream block);
    tail_seen = cc (
      h.tail_seen,
      h.limit_kept,
      room limit stream c h,
      extend-eq-last (limit - limit / 2) (drop (limit / 2 - length stream) block)
          (drop (limit / 2) stream),
      drop-append (limit / 2) stream block,
    );
    total_seen = omega (arith, h.total_seen, length-append stream block);
    digest_seen =
        ap (λ d. hasher.update d block) h.digest_seen ∙ streaming.update_append _ stream block;
  }
