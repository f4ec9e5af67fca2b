-- ===== src/Coordinator/Invariant/Publication.antt =====
-- What has been published and acknowledged is a prefix of the input, and all of it on success.
use mathlib.Core.List.{map-append}
use src_move.Common.{
  ℕ, suc, ◌+◌, ◌≤◌, ◌≡◌, sym, ◌∙◌, ap, Bool, true, false, none, some, List, [], ◌∷◌, ◌++◌, arith,
  map, length, take, get_elem?, take-suc, length-append,
}
use src_move.Contracts.{PairWorkItem, PairOutcome}
use src_move.Coordinator.State.{
  WorkerPc, MainPc, acknowledging, stopping, draining, flushing, done, State, Limits,
}
use src_move.Coordinator.Worker.{WorkerStep, open_session}
use src_move.Coordinator.Invariant.Moves.{live}
use src_move.Coordinator.Invariant.Slots.{in_hand}

-- The loop ended by its own test, and no error has come up since.
abbrev pub succeeding : MainPc → Bool
succeeding (stopping none) = true
succeeding (draining none) = true
succeeding (flushing none) = true
succeeding (done none) = true
succeeding _ = false

-- An outcome that is published and not yet acknowledged.
abbrev pub unacknowledged : MainPc → ℕ
unacknowledged (acknowledging outcome) = 1
unacknowledged _ = 0

abbrev pub items_of : List PairOutcome → List PairWorkItem
items_of = map (λ (outcome : PairOutcome). outcome.work_item)

-- Everything was submitted, executed, published and acknowledged, in the order of the input.
pub record Complete (items : List PairWorkItem) (log acknowledged : List PairOutcome)
    (submitted completed published : ℕ) : Type 0 where
  pub all_published : items_of log ≡ items
  pub all_acknowledged : items_of acknowledged ≡ items
  pub submitted_count : submitted ≡ length items
  pub completed_count : completed ≡ length items
  pub published_count : published ≡ length items

pub record Publication (items : List PairWorkItem) (first : ℕ) (s : State) : Type 0 where
  pub position : s.next_publication ≡ first + s.published
  pub tallied : live s.main ≡ true → s.completed ≡ s.published + length s.pending + in_hand s.main
  pub logged : items_of s.log ≡ take (length s.log) items
  pub log_size : live s.main ≡ true → length s.log ≡ s.published + unacknowledged s.main
  pub acked : items_of s.acknowledged ≡ take (length s.acknowledged) items
  pub ack_size : live s.main ≡ true → length s.acknowledged ≡ s.published
  pub behind : (length s.acknowledged ≤ length s.log) × (length s.log ≤ length s.acknowledged + 1)
  pub complete :
      succeeding s.main ≡ true
      → Complete items s.log s.acknowledged s.submitted s.completed s.published

module _ (items : List PairWorkItem) (first : ℕ) {s : State} (inv : Publication items first s) where
  pub worker-Publication :
      {limits : Limits} {i : ℕ} {pc : WorkerPc} {t : State}
      → WorkerStep limits s i pc t
      → Publication items first t
  worker-Publication open_session = record {
    position = inv.position;
    tallied = inv.tallied;
    logged = inv.logged;
    log_size = inv.log_size;
    acked = inv.acked;
    ack_size = inv.ack_size;
    behind = inv.behind;
    complete = inv.complete;
  }
  worker-Publication _ = record {
    position = inv.position;
    tallied = inv.tallied;
    logged = inv.logged;
    log_size = inv.log_size;
    acked = inv.acked;
    ack_size = inv.ack_size;
    behind = inv.behind;
    complete = inv.complete;
  }

-- An outcome that stands in the input right behind a prefix extends the prefix.
pub extend_prefix :
    (items : List PairWorkItem) (outcomes : List PairOutcome) (outcome : PairOutcome)
    → items_of outcomes ≡ take (length outcomes) items
    → get_elem? items (length outcomes) ≡ some outcome.work_item
    → items_of (outcomes ++ outcome ∷ []) ≡ take (length (outcomes ++ outcome ∷ [])) items
extend_prefix items outcomes outcome prefix found =
    let longer : suc (length outcomes) ≡ length (outcomes ++ outcome ∷ []) =
      omega (arith, length-append outcomes (outcome ∷ [])) in
    map-append _ outcomes (outcome ∷ [])
    ∙ ap (λ (l : List PairWorkItem). l ++ outcome.work_item ∷ []) prefix
    ∙ sym (take-suc (length outcomes) items found)
    ∙ ap (λ (k : ℕ). take k items) longer
