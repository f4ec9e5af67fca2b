-- ===== src/Execution/Compaction.antt =====
-- What compaction keeps of a log is the beginning and the end of its stream.
use src_move.Common.{
  ℕ, ◌+◌, ◌-◌, ◌/◌, ◌≤◌, ◌<◌, ◌≡◌, refl, sym, ap, ◌∙◌, Bool, true, false, Option, none, some, List,
  [], ◌∷◌, ◌++◌, String, ltb, leb, ◌==◌, if◌then◌else◌, length, take, drop, min, arith,
  length-append, length-take, length-drop, take-append, drop-append, drop-drop, append-nil,
  drop_all, take-take, Bool-cases, inl, inr,
}
use src_move.Common.Checked.{Checked, valid, is_nil}
use src_move.Capture.{Hasher, IsStreaming, Read, initial, snapshot, drain, CaptureResult}
use src_move.Capture.Window.{last, head_window, tail_window}
use src_move.Capture.Evidence.{
  received, failure, expected_result, snapshot-drain, retained_length, retained_whole,
}
use src_move.Execution.Process.{persist_capture}
use src_move.Execution.Evidence.{
  cut_log, compact_failure_log_limit, CaptureEvidence, evidence_of, capture_evidence, read_log,
}

last-append : (n : ℕ) (xs ys : List ℕ) → n ≤ length ys → last n (xs ++ ys) ≡ last n ys
last-append n xs ys h =
    let k = length (xs ++ ys) - n in
    let size = length-append xs ys in
    let gone : drop k xs ≡ [] = drop_all k xs (omega (arith, size)) in
    let e : k - length xs ≡ length ys - n = omega (arith, size) in
    drop-append k xs ys ∙ rw (gone, e) refl

last-drop : (n k : ℕ) (xs : List ℕ) → k + n ≤ length xs → last n (drop k xs) ≡ last n xs
last-drop n k xs h =
    let size = length-drop k xs in
    let e : k + (length (drop k xs) - n) ≡ length xs - n = omega (arith, size) in
    drop-drop (length (drop k xs) - n) k xs ∙ ap (λ j. drop j xs) e

take-append_short : (n : ℕ) (xs ys : List ℕ) → n ≤ length xs → take n (xs ++ ys) ≡ take n xs
take-append_short n xs ys h =
    let e : n - length xs ≡ 0 = omega arith in
    take-append n xs ys ∙ rw (e, append-nil (take n xs)) refl

-- The same for a stream that the log itself has cut.
cut_log-longer :
    (limit most : ℕ) (stream : List ℕ)
    → limit / 2 + limit / 2 ≡ limit
    → limit ≤ most
    → most < length stream
    → cut_log limit (head_window most stream ++ tail_window most stream)
      ≡ take (limit / 2) stream ++ last (limit / 2) stream
unfolding cut_log
cut_log-longer limit most stream even fits long =
    let half = limit / 2 in
    let hw = head_window most stream in
    let tw = tail_window most stream in
    let front = length-take (most / 2) stream in
    let after = length-drop (most / 2) stream in
    let j = length (drop (most / 2) stream) - (most - most / 2) in
    let back : length tw ≡ most - most / 2 =
      omega (arith, after, length-drop j (drop (most / 2) stream)) in
    let size = length-append hw tw in
    let begins : take half (hw ++ tw) ≡ take half stream =
      take-append_short half hw tw (omega (arith, front))
      ∙ take-take half (most / 2) stream (omega arith) in
    let ends : last half (hw ++ tw) ≡ last half stream =
      last-append half hw tw (omega (arith, back))
      ∙ last-drop half j (drop (most / 2) stream) (omega (arith, after))
      ∙ last-drop half (most / 2) stream (omega (arith, after)) in
    elim (Bool-cases (ltb limit (length (hw ++ tw)))) [
      | inl cut ↦ rw (cut, begins, ends) refl
      | inr uncut ↦
          let same : limit ≡ most = ground (arith, uncut, front, back, size) in
          let here : most / 2 ≡ half = ap (λ (k : ℕ). k / 2) (sym same) in
          rw uncut (
            ap (λ k. take k stream ++ last (most - k) (drop k stream)) here
            ∙ ap (λ l. take half stream ++ l)
                (ap (λ k. last k (drop half stream)) (omega (arith, same, even))
                  ∙ last-drop half half stream (omega (arith, same, even))))
    ]

-- The windows of a log of `most` bytes, cut to `limit`, are the windows of `limit` bytes of the stream.
cut_log-windows :
    (limit most : ℕ) (stream : List ℕ)
    → limit / 2 + limit / 2 ≡ limit
    → limit ≤ most
    → cut_log limit (head_window most stream ++ tail_window most stream)
      ≡ head_window limit stream ++ tail_window limit stream
unfolding cut_log
cut_log-windows limit most stream even fits =
    let half = limit / 2 in
    let front = length-take (most / 2) stream in
    let after = length-drop (most / 2) stream in
    let size = retained_length most stream in
    let rest : limit - half ≡ half = omega (arith, even) in
    elim (Bool-cases (leb (length stream) limit)) [
      | inl short ↦
          let uncut : ltb limit (length (head_window most stream ++ tail_window most stream))
              ≡ false =
            ground (arith, short, size) in
          rw uncut (
            retained_whole most stream (ground (arith, short))
            ∙ sym (retained_whole limit stream (ground (arith, short))))
      | inr long ↦
          let ends : last (limit - half) (drop half stream) ≡ last half stream =
            ap (λ n. last n (drop half stream)) rest
            ∙ last-drop half half stream (ground (arith, long, even)) in
          elim (Bool-cases (leb (length stream) most)) [
            | inl whole ↦
                let same = retained_whole most stream (ground (arith, whole)) in
                let cut : ltb limit (length stream) ≡ true = ground (arith, long) in
                rw (same, cut, ends) refl
            | inr more ↦
                cut_log-longer limit most stream even fits (ground (arith, more))
                ∙ ap (λ l. take half stream ++ l) (sym ends)
          ]
    ]

-- The part of a stream that is kept for good.
abbrev pub kept : List ℕ → List ℕ
kept stream =
    head_window compact_failure_log_limit stream ++ tail_window compact_failure_log_limit stream

-- What is to be known of a stream of which the capture has kept at most `most` bytes.
abbrev pub expected_evidence :
    Hasher → (digest : List ℕ → String) → (most : ℕ) → List ℕ → CaptureEvidence
expected_evidence hasher digest most stream = record {
  total_bytes = length stream;
  runtime_retained_bytes = min most (length stream);
  durable_retained_bytes = min compact_failure_log_limit (length stream);
  runtime_omitted_bytes = length stream - min most (length stream);
  durable_omitted_bytes = length stream - min compact_failure_log_limit (length stream);
  truncated = ltb most (length stream);
  sha256 = hasher.hexdigest (hasher.update hasher.new stream);
  retained = if is_nil (kept stream) then none else some (kept stream);
  retained_sha256 = if is_nil (kept stream) then none else some (digest (kept stream));
}

read_back :
    (read_file : String → Checked (List ℕ)) (digest : List ℕ → String) (path : String)
    (retained : List ℕ)
    → read_file path ≡ valid retained
    → read_log read_file digest (if is_nil retained then none else some path) ≡ valid retained
read_back read_file digest path [] h = refl
read_back read_file digest path (x ∷ xs) h = h

truncated_when : (most n : ℕ) → ltb (min most n) n ≡ ltb most n
truncated_when most n = ground arith

captured-expected :
    (hasher : Hasher) (digest : List ℕ → String) (path : String) (most : ℕ) (stream : List ℕ)
    (failed : Option String) (finished : Bool)
    → compact_failure_log_limit ≤ most
    → evidence_of digest
        (persist_capture path (expected_result hasher most stream failed finished))
        (cut_log compact_failure_log_limit
          (expected_result hasher most stream failed finished).retained)
      ≡ expected_evidence hasher digest most stream
unfolding evidence_of persist_capture expected_result
captured-expected hasher digest path most stream failed finished fits =
    let size = retained_length most stream in
    let limited = retained_length compact_failure_log_limit stream in
    let truncated = truncated_when most (length stream) in
    rw (cut_log-windows compact_failure_log_limit most stream refl fits, size, limited, truncated)
      refl

-- When a capture's limit is at least that of the durable logs and the file of the log holds what the
-- capture has retained, the evidence of a stream is the beginning and the end of the whole stream, each
-- of 32 KiB, or the stream itself when it has no more than 64 KiB, with the numbers of bytes that each
-- of the two limits keeps and leaves out.
pub capture_evidence-stream :
    {hasher : Hasher} (streaming : IsStreaming hasher) (read_file : String → Checked (List ℕ))
    (digest : List ℕ → String) (path : String) (most : ℕ) (reads : List Read) (finished : Bool)
    → compact_failure_log_limit ≤ most
    → read_file path
      ≡ valid (snapshot hasher (drain hasher (initial hasher most) reads) finished).retained
    → capture_evidence read_file digest
        (persist_capture path (snapshot hasher (drain hasher (initial hasher most) reads) finished))
      ≡ valid (expected_evidence hasher digest most (received reads))
unfolding capture_evidence
capture_evidence-stream {hasher} streaming read_file digest path most reads finished fits h =
    let seen = snapshot-drain streaming most reads finished in
    let whole = expected_result hasher most (received reads) (failure reads) finished in
    let there : read_file path ≡ valid whole.retained =
      h ∙ ap (λ (r : CaptureResult). valid r.retained) seen in
    let back = read_back read_file digest path whole.retained there in
    let size : (length whole.retained == length whole.retained) ≡ true = ground arith in
    rw seen (
      unfold persist_capture in
      rw (back, size)
        (ap valid (
          captured-expected hasher digest path most (received reads) (failure reads) finished
            fits)))
