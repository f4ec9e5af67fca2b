-- ===== src/Capture/Samples.antt =====
-- The captures run on small streams, with a hasher that only remembers what it was given.
use src_move.Common.{ℕ, ◌≡◌, refl, true, List, [], ◌∷◌, ◌++◌, append_assoc, append-nil}
use src_move.Capture.{Hasher, IsStreaming, Read, chunk, initial, add, snapshot, drain}
use src_move.Capture.Evidence.{
  IsBounded, received, failure, expected_result, snapshot-drain, snapshot-IsBounded,
}

abbrev pub remembering : Hasher
remembering = record {
  Digest = List ℕ;
  new = [];
  update = λ d xs. d ++ xs;
  hexdigest = λ d. "digest";
}

pub remembering-IsStreaming : IsStreaming remembering
remembering-IsStreaming = record {
  update_nil = λ d. append-nil d;
  update_append = λ d xs ys. append_assoc d xs ys;
}

abbrev pub reads : List Read
reads =
    chunk (1 ∷ 2 ∷ 3 ∷ []) ∷ chunk (4 ∷ 5 ∷ []) ∷ chunk (6 ∷ []) ∷ chunk [] ∷ chunk (7 ∷ []) ∷ []

retained_ends :
    (snapshot remembering (drain remembering (initial remembering 5) reads) true).retained
    ≡ 1 ∷ 2 ∷ 4 ∷ 5 ∷ 6 ∷ []
unfolding snapshot drain initial add
retained_ends = refl

snapshot-drain_example :
    snapshot remembering (drain remembering (initial remembering 5) reads) true
    ≡ expected_result remembering 5 (received reads) (failure reads) true
snapshot-drain_example = snapshot-drain remembering-IsStreaming 5 reads true

snapshot-IsBounded_example :
    IsBounded 5
      (received reads)
      (snapshot remembering (drain remembering (initial remembering 5) reads) true)
snapshot-IsBounded_example = snapshot-IsBounded remembering-IsStreaming 5 reads true
