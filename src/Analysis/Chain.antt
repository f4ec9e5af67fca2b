-- ===== src/Analysis/Chain.antt =====
-- What the loop of an analysis keeps of a history: the analysis has completed the pairs of the beginning of
-- a chain of commits, and the goal that it has with a desired total.
use src_move.Common.{
  ℕ, suc, ◌+◌, ◌-◌, ◌≤◌, ◌<◌, ◌≡◌, refl, ◌⊎◌, inl, inr, Option, none, some, List, String, length,
  ◌==◌, min, max, arith, drop, get_elem?, Bool-cases, sym, ◌∙◌, leb, length-drop,
}
use src_move.Common.Checked.{Checked, valid, invalid}
use src_move.Database.Rows.{Analysis}
use src_move.Database.Store.{boundary}
use src_move.Analysis.Advance.{executes, leaves, plans, next_turn, batch_size, Within, reached}
use src_move.Analysis.Loop.{Planned, LoopState, Calls, committed_analysis, plan_next_batch}
use src_move.Git.Selection.{beginning, select_older-beginning}
use src_move.Analysis.Planning.{get_elem?-drop, planned-beginning}

-- A batch that fits the chain behind the first `done` pairs, and the desired total.
abbrev pub FitsChain : List String → Option ℕ → ℕ → Option Planned → Type 0
FitsChain chain desired done none = Unit
FitsChain chain desired done (some b) =
    (0 < b.pair_count)
    × (get_elem? chain (done + b.pair_count) ≡ some b.oldest_commit)
    × (b.reaches_root ≡ (suc (done + b.pair_count) == length chain))
    × Within (done + b.pair_count) desired

-- The analysis has completed the pairs of the beginning of the chain.
pub record OnChain (chain : List String) (desired : Option ℕ) (s : LoopState) : Type 0 where
  pub frontier : get_elem? chain s.analysis.completed_pair_count ≡ some (boundary s.analysis)
  pub exhausted_when :
      s.analysis.history_exhausted ≡ (suc s.analysis.completed_pair_count == length chain)
  pub fits : FitsChain chain desired s.analysis.completed_pair_count s.pending

-- The number of pairs that an analysis of a chain comes to.
abbrev pub goal : Option ℕ → (done : ℕ) → (pairs : ℕ) → ℕ
goal none done pairs = pairs
goal (some total) done pairs = max done (min total pairs)

-- What git documents: the list from a commit on the first-parent chain is the rest of the chain.
abbrev pub ListsRest : (String → List String) → List String → Type 0
ListsRest history_of chain =
    (d : ℕ) (c : String) → get_elem? chain d ≡ some c → history_of c ≡ drop d chain

pub Within-le : (m n : ℕ) (desired : Option ℕ) → m ≤ n → Within n desired → Within m desired
Within-le m n none h w = tt
Within-le m n (some t) h w = omega arith

pub next_turn-executes :
    (a : Analysis) (desired : Option ℕ) (k : ℕ)
    → Within (a.completed_pair_count + k) desired
    → next_turn a desired (some k) ≡ executes
unfolding next_turn
next_turn-executes a none k w = refl
next_turn-executes a (some t) k w = ground (arith, w)

pub turn_cases :
    (a : Analysis) (desired : Option ℕ)
    → (next_turn a desired none ≡ leaves) ⊎ ((size : ℕ) × (next_turn a desired none ≡ plans size))
unfolding next_turn
turn_cases a desired = elim (Bool-cases a.history_exhausted) [
  | inl e ↦ inl (rw e refl)
  | inr f ↦ elim (Bool-cases (reached a desired)) [
    | inl r ↦ inl (rw (f, r) refl)
    | inr n ↦ inr (batch_size a desired, rw (f, n) refl)
  ]
]

pub goal-leaves :
    (a : Analysis) (desired : Option ℕ) (chain : List String)
    → 0 < length chain
    → a.history_exhausted ≡ (suc a.completed_pair_count == length chain)
    → next_turn a desired none ≡ leaves
    → a.completed_pair_count ≡ goal desired a.completed_pair_count (length chain - 1)
unfolding next_turn
goal-leaves a none chain some_commits e h = ground (arith, e, h)
goal-leaves a (some t) chain some_commits e h = ground (arith, e, h)

pub goal_step :
    (desired : Option ℕ) (done more pairs : ℕ)
    → Within (done + more) desired
    → done + more ≤ pairs
    → goal desired (done + more) pairs ≡ goal desired done pairs
goal_step none done more pairs w h = refl
goal_step (some t) done more pairs w h = omega (arith, w)

-- One of the calls has raised the message.
pub data RaisedBy (calls : Calls) (message : String) : Type 0 where
  by_verify : (a : Analysis) → calls.verify a ≡ invalid message → RaisedBy calls message
  by_freeze :
      (a : Analysis) (commits : List String)
      → calls.freeze a commits ≡ invalid message
      → RaisedBy calls message
  by_add : (a : Analysis) (b : Planned) → calls.add a b ≡ invalid message → RaisedBy calls message
  by_execute :
      (a : Analysis) (b : Planned) → calls.execute a b ≡ invalid message → RaisedBy calls message
  by_commit :
      (a : Analysis) (b : Planned) → calls.commit a b ≡ invalid message → RaisedBy calls message

pub returns_or_raises :
    (c : Checked (Unit {0})) → (c ≡ valid tt) ⊎ ((message : String) × (c ≡ invalid message))
returns_or_raises (valid u) = inl refl
returns_or_raises (invalid message) = inr (message, refl)

abbrev pub pending_turns : Option Planned → ℕ
pending_turns none = 0
pending_turns (some b) = 1

module _ (chain : List String) (calls : Calls) (desired : Option ℕ) where
  -- The commits that git's list leads to.
  abbrev pub selected_commits : Analysis → ℕ → List String
  selected_commits a size =
      (beginning (boundary a) size (drop a.completed_pair_count chain)).commits

  pub plan_refused :
      (a : Analysis) (size : ℕ) (message : String)
      → ListsRest calls.history_of chain
      → get_elem? chain a.completed_pair_count ≡ some (boundary a)
      → a.completed_pair_count + 1 < length chain
      → 0 < size
      → calls.freeze a (selected_commits a size) ≡ invalid message
      → plan_next_batch calls desired a size ≡ invalid message
  unfolding plan_next_batch
  plan_refused a size message lists at more positive refused =
      let rest = drop a.completed_pair_count chain in
      let size_of = length-drop a.completed_pair_count chain in
      let selected =
        select_older-beginning (boundary a) size rest positive (omega (arith, size_of, more)) in
      rw (lists a.completed_pair_count (boundary a) at, selected, refused) refl

  pub plan-FitsChain :
      (a : Analysis) (size : ℕ)
      → ListsRest calls.history_of chain
      → get_elem? chain a.completed_pair_count ≡ some (boundary a)
      → a.completed_pair_count + 1 < length chain
      → 0 < size
      → calls.freeze a (selected_commits a size) ≡ valid tt
      → Within (a.completed_pair_count + size) desired
      → (b : Planned) × (plan_next_batch calls desired a size ≡ valid b)
        × FitsChain chain desired a.completed_pair_count (some b)
  unfolding plan_next_batch
  plan-FitsChain a size lists at more positive frozen within =
      let done = a.completed_pair_count in
      let rest = drop done chain in
      let listed = lists done (boundary a) at in
      let size_of = length-drop done chain in
      let selected =
        select_older-beginning (boundary a) size rest positive (omega (arith, size_of, more)) in
      let (oldest, made, there) =
        planned-beginning (boundary a) size rest positive (omega (arith, size_of, more)) in
      let k = min size (length rest - 1) in
      let root : leb (length rest) (size + 1) ≡ (suc (done + k) == length chain) =
        ground (arith, size_of, more) in
      (
        _,
        rw (listed, selected, frozen) made,
        (
          omega (arith, size_of, more, positive),
          sym (get_elem?-drop done k chain) ∙ there,
          root,
          Within-le (done + k) (done + size) desired (omega arith) within,
        ),
      )

  pub committed-OnChain :
      (a : Analysis) (b : Planned)
      → get_elem? chain (a.completed_pair_count + b.pair_count) ≡ some b.oldest_commit
      → b.reaches_root ≡ (suc (a.completed_pair_count + b.pair_count) == length chain)
      → OnChain chain desired (record { analysis = committed_analysis a b; pending = none })
  unfolding committed_analysis boundary
  committed-OnChain a b at root = record { frontier = at; exhausted_when = root; fits = tt }

  pub planned-OnChain :
      (a : Analysis) (b : Planned)
      → OnChain chain desired (record { analysis = a; pending = none })
      → FitsChain chain desired a.completed_pair_count (some b)
      → OnChain chain desired
          (record { analysis = record a { revision = a.revision + 1 }; pending = some b })
  unfolding boundary
  planned-OnChain a b on fits = record {
    frontier = on.frontier;
    exhausted_when = on.exhausted_when;
    fits = fits;
  }
