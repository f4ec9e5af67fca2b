-- ===== src/Analysis/Advance.antt =====
-- One turn of the loop of `_advance_analysis` with `_plan_next_batch`: what it does with the stored
-- analysis, the pending batch and the desired total.
use src_move.Common.{
  ℕ, ◌+◌, ◌-◌, ◌≤◌, ◌<◌, ◌≡◌, refl, ap, min, Bool, false, Option, none, some, arith, ltb, leb,
  if◌then◌else◌,
}
use src_move.Database.Rows.{Analysis, Database, StoredBatch}
use src_move.Database.Commit.{committed}

-- The turn executes and commits the pending batch, leaves the loop, plans a batch of at most so many
-- pairs, or raises.
pub data Turn : Type 0 where
  executes : Turn
  leaves : Turn
  plans : ℕ → Turn
  target_too_small : ℕ → Turn

-- `DEFAULT_BATCH_PAIR_LIMIT`
abbrev pub default_batch_pair_limit : ℕ
default_batch_pair_limit = 100

-- `_plan_next_batch` asks for this many pairs.
unfoldable pub batch_size : Analysis → Option ℕ → ℕ
batch_size state none = default_batch_pair_limit
batch_size state (some desired) =
    min (desired - state.completed_pair_count) default_batch_pair_limit

abbrev pub reached : Analysis → Option ℕ → Bool
reached state none = false
reached state (some desired) = leb desired state.completed_pair_count

abbrev pub too_small : ℕ → Option ℕ → Bool
too_small total none = false
too_small total (some desired) = ltb desired total

-- The turn, with the pair count of the pending batch.
unfoldable pub next_turn : Analysis → Option ℕ → Option ℕ → Turn
unfolding batch_size
next_turn state desired (some pending) =
    let total = state.completed_pair_count + pending in
    if too_small total desired then target_too_small total else executes
next_turn state desired none =
    if state.history_exhausted
    then leaves
    else if reached state desired
    then leaves
    else plans (batch_size state desired)

abbrev pub Within : ℕ → Option ℕ → Type 0
Within total none = Unit
Within total (some desired) = total ≤ desired

-- What a planned size allows for the batch of `k` pairs that is made of it.
pub record PlansWell (state : Analysis) (desired : Option ℕ) (size : ℕ) : Type 0 where
  pub some_pairs : 0 < size
  pub within_limit : size ≤ default_batch_pair_limit
  pub not_exhausted : state.history_exhausted ≡ false
  pub not_refused : (k : ℕ) → k ≤ size → next_turn state desired (some k) ≡ executes
  pub not_beyond : (k : ℕ) → k ≤ size → Within (state.completed_pair_count + k) desired
  pub settles :
      (db : Database) (batch : StoredBatch) (total : ℕ)
      → db.analysis ≡ state
      → batch.pair_count ≡ size
      → desired ≡ some total
      → state.completed_pair_count + size ≡ total
      → next_turn (committed db batch).analysis desired none ≡ leaves

-- When a turn plans a batch, it asks for at least one pair and at most the
-- limit, the history is not exhausted, any batch with at most so many pairs is executed and not refused
-- when the loop turns to it with the same analysis and desired total, its commit does not go beyond the desired total,
-- and when the size reaches that total the loop leaves after the commit.
pub next_turn-PlansWell :
    (state : Analysis) (desired : Option ℕ) (size : ℕ)
    → next_turn state desired none ≡ plans size
    → PlansWell state desired size
unfolding next_turn committed
next_turn-PlansWell state none size h = record {
  some_pairs = ground arith;
  within_limit = ground arith;
  not_exhausted = ground arith;
  not_refused = λ k le. refl;
  not_beyond = λ k le. tt;
  settles = λ db batch total at size_is e t. cc e;
}
next_turn-PlansWell state (some desired) size h = record {
  some_pairs = ground arith;
  within_limit = ground arith;
  not_exhausted = ground arith;
  not_refused = λ k le. ground arith;
  not_beyond = λ k le. ground arith;
  settles = λ db batch total at size_is e t.
      ground (arith, ap (λ (a : Analysis). a.completed_pair_count) at);
}
