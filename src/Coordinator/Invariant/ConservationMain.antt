-- ===== src/Coordinator/Invariant/ConservationMain.antt =====
-- While it is in its loop, the calling thread keeps each submitted sequence number in one place.
use src_move.Common.{ℕ, ◌+◌, ◌≤◌, ◌≡◌, sym, ◌∙◌, ap, List, ◌∷◌, arith, Option-cases, inl, inr}
use src_move.Common.Dict.{lookup, All-lookup, count_key, count_key-insert, count_key-remove}
use src_move.Contracts.{PairWorkItem, PairOutcome}
use src_move.Coordinator.State.{
  WorkerResult, finished, failed, MainPc, acknowledging, receiving, publishing, submitting, State,
  Limits,
}
use src_move.Coordinator.Publisher.{
  MainStep, get_result, next_outcome, put, submission, submit, put_item, measure, check, receive,
  take_outcome, release, advance, release_pending, conclude, acknowledge_returns,
}
use src_move.Coordinator.Invariant.Items.{Items, IsInputEntry, IsInputInHand}
use src_move.Coordinator.Invariant.ItemsMain.{offered_next}
use src_move.Coordinator.Invariant.Conservation.{
  Conserved, window, one_if, in_results, in_queue-snoc, with_caller,
}

-- One more number at the end of a window.
window-suc : (a b q : ℕ) → a ≤ b → window a (b + 1) q ≡ window a b q + one_if b q
window-suc a b q h = ground arith

window_le_one : (a b q : ℕ) → window a b q ≤ 1
window_le_one a b q = ground arith

one_if_self : (k : ℕ) → one_if k k ≡ 1
one_if_self k = ground arith

module _ (items : List PairWorkItem) (first n : ℕ) {s : State} (all : Items items first s)
    (begun : first ≤ s.next_publication) (inv : (q : ℕ) → Conserved n first q s) where
  -- The number of an outcome that arrives is not pending.
  pub arrival_fresh :
      (item : PairWorkItem) (outcome : PairOutcome) (rest : List WorkerResult)
      → s.main ≡ receiving
      → s.result_queue ≡ finished item outcome ∷ rest
      → count_key item.sequence s.pending ≡ 0
  arrival_fresh item outcome rest at q =
      let k = item.sequence in
      omega (
        arith,
        inv k (ground arith),
        ap (in_results k) q,
        one_if_self k,
        window_le_one first s.expected_submission k,
      )

  receive-Conserved :
      (q : ℕ) (result : WorkerResult) (rest : List WorkerResult)
      → s.main ≡ receiving
      → s.result_queue ≡ result ∷ rest
      → Conserved n first q (receive result rest s)
  unfolding receive
  receive-Conserved q (failed item e) rest at e' = λ alive. cc
  receive-Conserved q (finished item o) rest at e = λ alive. ground (
    arith,
    inv q,
    ap (in_results q) e,
    count_key-insert item.sequence q o s.pending (arrival_fresh item o rest at e),
  )

  take_outcome-Conserved : (q : ℕ) → s.main ≡ publishing → Conserved n first q (take_outcome s)
  unfolding take_outcome
  take_outcome-Conserved q at = elim (Option-cases (lookup s.next_publication s.pending)) [
    | inl absent ↦ rw absent (λ alive. ground (arith, inv q))
    | inr (o, found) ↦
        let seq : o.work_item.sequence ≡ s.next_publication =
          (All-lookup (IsInputEntry items first) s.next_publication o s.pending found all.kept).0 in
        rw found (λ alive. omega (
          arith,
          inv q (ground arith),
          ap (λ (k : ℕ). one_if k q) seq,
          count_key-remove s.next_publication q o s.pending found,
          ap (with_caller q) at,
        ))
  ]

  submit-Conserved : (q : ℕ) → s.main ≡ submitting → Conserved n first q (submit s)
  unfolding submit
  submit-Conserved q at = λ alive. ground (arith, inv q)

  pub main-Conserved :
      {limits : Limits} (q : ℕ) {pc : MainPc} {t : State}
      → MainStep limits s pc t
      → s.main ≡ pc
      → Conserved n first q t
  unfolding put_item measure check release advance release_pending conclude
  main-Conserved q (get_result result rest e) at = receive-Conserved q result rest at e
  main-Conserved q next_outcome at = take_outcome-Conserved q at
  main-Conserved q submission at = submit-Conserved q at
  main-Conserved q (put {item} room) at = λ alive.
      let (_, _, seq) = offered_next items first all item at in
      omega (
        arith,
        inv q (ground arith),
        ap (with_caller q) at,
        in_queue-snoc q s.work_queue item,
        ap (λ (k : ℕ). one_if k q) (seq ∙ sym all.expected),
        window-suc first s.expected_submission q (omega (arith, all.expected)),
      )
  main-Conserved q (acknowledge_returns {outcome}) at = λ alive.
      let hand : IsInputInHand items first (acknowledging outcome) s.next_publication =
        rw at at all.hand in
      omega (
        arith,
        inv q (ground arith),
        ap (with_caller q) at,
        ap (λ (k : ℕ). one_if k q) hand.0,
        window-suc first s.next_publication q begun,
      )
  main-Conserved q st at = λ alive. ground (arith, inv q)
