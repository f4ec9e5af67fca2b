-- ===== src/Capture/Evidence.antt =====
-- The evidence that `_drain` and `snapshot` leave of a stream, against a description of it that
-- does not mention the blocks.
use src_move.Common.{
  ℕ, ◌+◌, ◌-◌, ◌/◌, ◌≤◌, ◌<◌, ◌≡◌, refl, ap, ◌∙◌, Bool, true, Option, none, some, ◌&&◌, List, [],
  ◌∷◌, ◌++◌, length, min, ◌↔◌, drop, ltb, arith, length-append, length-take, length-drop,
  append_assoc, append-nil, take-append-drop, String,
}
use src_move.Capture.{
  Hasher, IsStreaming, CaptureResult, Read, chunk, raises, BoundedCapture, initial, add, snapshot,
  drain, fail, is_none, describe,
}
use src_move.Capture.Window.{head_window, tail_window, Sees, Sees-initial, add-Sees}

-- The bytes before the first empty block or exception.
pub received : List Read → List ℕ
received [] = []
received (chunk [] ∷ reads) = []
received (chunk (x ∷ xs) ∷ reads) = (x ∷ xs) ++ received reads
received (raises e ∷ reads) = []

-- The exception that ended the reading.
pub failure : List Read → Option String
failure [] = none
failure (chunk [] ∷ reads) = none
failure (chunk (x ∷ xs) ∷ reads) = failure reads
failure (raises e ∷ reads) = some (describe e)

-- What a capture of `limit` bytes reports of a stream, which `failed` may have cut short.
unfoldable pub expected_result :
    (hasher : Hasher) (limit : ℕ) (stream : List ℕ) (failed : Option String) → Bool → CaptureResult
expected_result hasher limit stream failed finished =
    let retained = head_window limit stream ++ tail_window limit stream in
    record {
      retained = retained;
      total_bytes = length stream;
      omitted_bytes = length stream - length retained;
      truncated = ltb (length retained) (length stream);
      sha256 = hasher.hexdigest (hasher.update hasher.new stream);
      complete = finished && is_none failed;
      error = failed;
    }

module _ {hasher : Hasher} (streaming : IsStreaming hasher) where
  add-error : (c : BoundedCapture hasher) (block : List ℕ) → (add hasher c block).error ≡ c.error
  unfolding add
  add-error c block = refl

  drain-error :
      (c : BoundedCapture hasher) (reads : List Read)
      → c.error ≡ none
      → (drain hasher c reads).error ≡ failure reads
  unfolding drain failure fail
  drain-error c [] h = h
  drain-error c (chunk [] ∷ reads) h = h
  drain-error c (chunk (x ∷ xs) ∷ reads) h =
      drain-error (add hasher c (x ∷ xs)) reads (add-error c (x ∷ xs) ∙ h)
  drain-error c (raises e ∷ reads) h = refl

  drain-Sees :
      (limit : ℕ) (stream : List ℕ) (c : BoundedCapture hasher) (reads : List Read)
      → Sees streaming limit stream c
      → Sees streaming limit (stream ++ received reads) (drain hasher c reads)
  unfolding drain received fail
  drain-Sees limit stream c [] h = rw append-nil h
  drain-Sees limit stream c (chunk [] ∷ reads) h = rw append-nil h
  drain-Sees limit stream c (chunk (x ∷ xs) ∷ reads) h =
      rw (← append_assoc stream (x ∷ xs) (received reads)) (
        drain-Sees limit (stream ++ x ∷ xs) (add hasher c (x ∷ xs)) reads
          (add-Sees streaming limit stream (x ∷ xs) c h))
  drain-Sees limit stream c (raises e ∷ reads) h = rw append-nil (record {
    limit_kept = h.limit_kept;
    head_seen = h.head_seen;
    tail_seen = h.tail_seen;
    total_seen = h.total_seen;
    digest_seen = h.digest_seen;
  })

  -- For every limit and every sequence of reads, the snapshot of a drained capture is the expected
  -- result of the bytes received, however they were divided into blocks: the head and tail windows,
  -- the length and digest of the whole stream, and complete exactly when the thread finished and no
  -- read raised.
  pub snapshot-drain :
      (limit : ℕ) (reads : List Read) (finished : Bool)
      → snapshot hasher (drain hasher (initial hasher limit) reads) finished
        ≡ expected_result hasher limit (received reads) (failure reads) finished
  unfolding snapshot expected_result
  snapshot-drain limit reads finished =
      let seen = drain-Sees limit [] (initial hasher limit) reads (Sees-initial streaming limit) in
      let failed = drain-error (initial hasher limit) reads (unfold initial in refl) in
      cc (seen.head_seen, seen.tail_seen, seen.total_seen, seen.digest_seen, failed)

pub retained_length :
    (limit : ℕ) (stream : List ℕ)
    → length (head_window limit stream ++ tail_window limit stream) ≡ min limit (length stream)
retained_length limit stream = omega (
  arith,
  length-append (head_window limit stream) (tail_window limit stream),
  length-take (limit / 2) stream,
  length-drop (limit / 2) stream,
  length-drop (length (drop (limit / 2) stream) - (limit - limit / 2)) (drop (limit / 2) stream),
)

-- A stream that fits in the limit is retained whole.
pub retained_whole :
    (limit : ℕ) (stream : List ℕ)
    → length stream ≤ limit
    → head_window limit stream ++ tail_window limit stream ≡ stream
retained_whole limit stream fits =
    let uncut : length (drop (limit / 2) stream) - (limit - limit / 2) ≡ 0 =
      omega (arith, length-drop (limit / 2) stream) in
    ap (λ k. head_window limit stream ++ drop k (drop (limit / 2) stream)) uncut
    ∙ take-append-drop (limit / 2) stream

-- The bounds that the evidence of `limit` bytes keeps on a stream of `size` bytes.
pub record IsBounded (limit : ℕ) (stream : List ℕ) (result : CaptureResult) : Type 0 where
  pub retained_size : length result.retained ≡ min limit (length stream)
  pub accounted : result.total_bytes ≡ length result.retained + result.omitted_bytes
  pub truncated_when : (result.truncated ≡ true) ↔ (limit < length stream)
  pub whole : length stream ≤ limit → result.retained ≡ stream

expected_result-IsBounded :
    (hasher : Hasher) (limit : ℕ) (stream : List ℕ) (failed : Option String) (finished : Bool)
    → IsBounded limit stream (expected_result hasher limit stream failed finished)
unfolding expected_result
expected_result-IsBounded hasher limit stream failed finished =
    let size = retained_length limit stream in
    record {
      retained_size = size;
      accounted = omega (arith, size);
      truncated_when = (λ h. ground (arith, size), λ h. ground (arith, size));
      whole = retained_whole limit stream;
    }

-- For every limit and every sequence of reads the snapshot retains the smaller of the limit and the
-- number of bytes received, its omitted bytes are exactly the rest, it is marked truncated exactly
-- when more bytes than the limit were received, and otherwise it retains what was received whole.
pub snapshot-IsBounded :
    {hasher : Hasher} (streaming : IsStreaming hasher) (limit : ℕ) (reads : List Read)
    (finished : Bool)
    → IsBounded limit
        (received reads)
        (snapshot hasher (drain hasher (initial hasher limit) reads) finished)
snapshot-IsBounded {hasher} streaming limit reads finished =
    rw (snapshot-drain streaming limit reads finished)
      (expected_result-IsBounded hasher limit (received reads) (failure reads) finished)
