-- ===== src/Capture.antt =====
-- srcmove_runtime/process_supervision.py: `_BoundedCapture` keeps the head and the tail of a stream
-- that a child process writes, with the length and the digest of the whole stream. `_drain` reads
-- a pipe into it. Bytes are natural numbers; the lock around every method makes each of them one
-- step, so the methods are functions of the object's state.
pub mod Window
pub mod Evidence
pub mod Samples
use Prim.Native.String.{◌++◌ as str_append}
use src_move.Common.{
  ℕ, ◌+◌, ◌-◌, ◌/◌, ◌≡◌, String, Bool, true, false, ◌&&◌, Option, none, some, List, [], ◌∷◌, ◌++◌,
  length, take, drop, ltb, if◌then◌else◌,
}

-- hashlib's streaming interface.
pub record Hasher : Type 1 where
  pub Digest : Type 0
  pub new : Digest
  pub update : Digest → List ℕ → Digest
  pub hexdigest : Digest → String

-- The documented behaviour of `update`: repeated calls are one call on the concatenation.
pub record IsStreaming (hasher : Hasher) : Type 0 where
  pub update_nil : (d : hasher.Digest) → hasher.update d [] ≡ d
  pub update_append :
      (d : hasher.Digest) (xs ys : List ℕ)
      → hasher.update (hasher.update d xs) ys ≡ hasher.update d (xs ++ ys)

-- An exception: its class's name and its text.
pub record Exception : Type 0 where
  pub name : String
  pub text : String

-- `f"{type(error).__name__}: {error}"`
pub describe : Exception → String
describe e = str_append e.name (str_append ": " e.text)

pub record CaptureResult : Type 0 where
  pub retained : List ℕ
  pub total_bytes : ℕ
  pub omitted_bytes : ℕ
  pub truncated : Bool
  pub sha256 : String
  pub complete : Bool
  pub error : Option String

abbrev pub is_none {ℓ} : {A : Type ℓ} → Option A → Bool
is_none none = true
is_none (some a) = false

-- What `stream.read(64 * 1024)` gives: a block, or an exception. No more events is the empty block.
pub data Read : Type 0 where
  chunk : List ℕ → Read
  raises : Exception → Read

-- `del self._tail[: len(self._tail) - tail_limit]`, under its test.
trim : ℕ → List ℕ → List ℕ
trim tail_limit tail =
    if ltb tail_limit (length tail) then drop (length tail - tail_limit) tail else tail

-- `if remainder:` the tail takes the remainder and is trimmed.
extend : ℕ → List ℕ → List ℕ → List ℕ
unfolding trim
extend tail_limit [] tail = tail
extend tail_limit (x ∷ xs) tail = trim tail_limit (tail ++ x ∷ xs)

module _ (hasher : Hasher) where
  open hasher use {Digest, new, update, hexdigest}

  pub record BoundedCapture : Type 0 where
    pub limit : ℕ
    pub head : List ℕ
    pub tail : List ℕ
    pub total : ℕ
    pub digest : Digest
    pub error : Option String

  pub initial : ℕ → BoundedCapture
  initial limit = record {
    limit = limit;
    head = [];
    tail = [];
    total = 0;
    digest = new;
    error = none;
  }

  -- `max(0, head_limit - len(head))` is the truncated subtraction.
  pub add : BoundedCapture → List ℕ → BoundedCapture
  unfolding extend
  add c block =
      let head_limit = c.limit / 2 in
      let head_remaining = head_limit - length c.head in
      let remainder = drop head_remaining block in
      record c {
        total = c.total + length block;
        digest = update c.digest block;
        head = c.head ++ take head_remaining block;
        tail = extend (c.limit - head_limit) remainder c.tail;
      }

  pub fail : BoundedCapture → Exception → BoundedCapture
  fail c e = record c { error = some (describe e) }

  pub snapshot : BoundedCapture → Bool → CaptureResult
  snapshot c thread_finished =
      let retained = c.head ++ c.tail in
      record {
        retained = retained;
        total_bytes = c.total;
        omitted_bytes = c.total - length retained;
        truncated = ltb (length retained) c.total;
        sha256 = hexdigest c.digest;
        complete = thread_finished && is_none c.error;
        error = c.error;
      }

  -- The loop of `_drain`: an empty block ends it, and so does an exception.
  pub drain : BoundedCapture → List Read → BoundedCapture
  drain c [] = c
  drain c (chunk [] ∷ reads) = c
  drain c (chunk (x ∷ xs) ∷ reads) = drain (add c (x ∷ xs)) reads
  drain c (raises e ∷ reads) = fail c e
