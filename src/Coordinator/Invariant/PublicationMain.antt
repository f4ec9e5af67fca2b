-- ===== src/Coordinator/Invariant/PublicationMain.antt =====
-- The calling thread keeps what `Publication` says of the log and of the acknowledgements.
use src_move.Common.{
  ℕ, ◌+◌, ◌-◌, ◌≤◌, ◌≡◌, refl, sym, ◌∙◌, ap, subst, true, none, some, List, [], ◌∷◌, arith, length,
  take, drop, get_elem?, take_all, length-append, length-drop, Option-cases, inl, inr, length-map,
}
use src_move.Common.Dict.{lookup, length-insert, length-remove}
use src_move.Contracts.{PairWorkItem, PairOutcome}
use src_move.Coordinator.State.{
  WorkerResult, finished, failed, MainPc, calling, receiving, publishing, checking, State, Limits,
}
use src_move.Coordinator.Publisher.{
  MainStep, stop_all, workers_gone, joined, get_result, next_outcome, drain_result, flush_result,
  checked, submit, put_item, measure, check, receive, take_outcome, release, advance,
  release_pending, conclude, publish_returns, acknowledge_returns,
}
use src_move.Coordinator.Invariant.Moves.{live}
use src_move.Coordinator.Invariant.Slots.{in_hand, Fresh, FreshNext}
use src_move.Coordinator.Invariant.Items.{Items, IsInputInHand}
use src_move.Coordinator.Invariant.Publication.{
  succeeding, unacknowledged, items_of, Complete, Publication, extend_prefix,
}

-- The counters of the publication.
record Counters (first : ℕ) (t : State) : Type 0 where
  position : t.next_publication ≡ first + t.published
  tallied : live t.main ≡ true → t.completed ≡ t.published + length t.pending + in_hand t.main
  log_size : live t.main ≡ true → length t.log ≡ t.published + unacknowledged t.main
  ack_size : live t.main ≡ true → length t.acknowledged ≡ t.published
  behind : (length t.acknowledged ≤ length t.log) × (length t.log ≤ length t.acknowledged + 1)

record Logs (items : List PairWorkItem) (t : State) : Type 0 where
  logged : items_of t.log ≡ take (length t.log) items
  acked : items_of t.acknowledged ≡ take (length t.acknowledged) items

module _ (items : List PairWorkItem) (first : ℕ) {s : State} (all : Items items first s)
    (inv : Publication items first s) where
  receive-Counters :
      (result : WorkerResult) (rest : List WorkerResult)
      → s.main ≡ receiving
      → Fresh s.pending result
      → Counters first (receive result rest s)
  unfolding receive
  receive-Counters (failed item e) rest at fresh =
      ground (arith, inv.position, inv.tallied, inv.log_size, inv.ack_size, inv.behind)
  receive-Counters (finished item o) rest at fresh = ground (
    arith,
    inv.position,
    inv.tallied,
    inv.log_size,
    inv.ack_size,
    inv.behind,
    length-insert item.sequence o s.pending,
  )

  take_outcome-Counters : s.main ≡ publishing → Counters first (take_outcome s)
  unfolding take_outcome
  take_outcome-Counters at = elim (Option-cases (lookup s.next_publication s.pending)) [
    | inl absent ↦
        rw absent
          (ground (arith, inv.position, inv.tallied, inv.log_size, inv.ack_size, inv.behind))
    | inr (o, found) ↦ rw found (
        ground (
          arith,
          inv.position,
          inv.tallied,
          inv.log_size,
          inv.ack_size,
          inv.behind,
          length-remove s.next_publication o s.pending,
        ))
  ]

  main-Counters :
      {limits : Limits} {pc : MainPc} {t : State}
      → MainStep limits s pc t
      → s.main ≡ pc
      → FreshNext s
      → Counters first t
  unfolding submit put_item measure check release advance release_pending conclude
  main-Counters (get_result result rest q) at fresh =
      receive-Counters result rest at (fresh at result rest q)
  main-Counters next_outcome at fresh = take_outcome-Counters at
  main-Counters (publish_returns {outcome}) at fresh = ground (
    arith,
    inv.position,
    inv.tallied,
    inv.log_size,
    inv.ack_size,
    inv.behind,
    length-append s.log (outcome ∷ []),
  )
  main-Counters (acknowledge_returns {outcome}) at fresh = ground (
    arith,
    inv.position,
    inv.tallied,
    inv.log_size,
    inv.ack_size,
    inv.behind,
    length-append s.acknowledged (outcome ∷ []),
  )
  main-Counters st at fresh =
      ground (arith, inv.position, inv.tallied, inv.log_size, inv.ack_size, inv.behind)

  -- The outcome in the caller's hands is the next of the input.
  hand_next :
      (outcome : PairOutcome)
      → IsInputInHand items first (calling outcome) s.next_publication
      → get_elem? items s.published ≡ some outcome.work_item
  hand_next outcome hand =
      let index : outcome.work_item.sequence - first ≡ s.published =
        omega (arith, hand.0, inv.position) in
      subst (λ (k : ℕ). get_elem? items k ≡ some outcome.work_item) index hand.1.placed

  same-Logs : {t : State} → t.log ≡ s.log → t.acknowledged ≡ s.acknowledged → Logs items t
  same-Logs l a = record { logged = cc (l, inv.logged); acked = cc (a, inv.acked) }

  main-Logs :
      {limits : Limits} {pc : MainPc} {t : State}
      → MainStep limits s pc t
      → s.main ≡ pc
      → Logs items t
  unfolding submit put_item measure check take_outcome release advance release_pending conclude
  main-Logs (publish_returns {outcome}) at =
      let size : length s.log ≡ s.published = ground (arith, inv.log_size) in
      record {
        logged = extend_prefix items s.log outcome inv.logged (
            subst (λ (k : ℕ). get_elem? items k ≡ some outcome.work_item) (sym size)
              (hand_next outcome (rw at at all.hand)));
        acked = inv.acked;
      }
  main-Logs (acknowledge_returns {outcome}) at =
      let size : length s.acknowledged ≡ s.published = ground (arith, inv.ack_size) in
      record {
        logged = inv.logged;
        acked = extend_prefix items s.acknowledged outcome inv.acked (
            subst (λ (k : ℕ). get_elem? items k ≡ some outcome.work_item) (sym size)
              (hand_next outcome (rw at at all.hand)));
      }
  main-Logs (get_result (failed item e) rest q) at = unfold receive in same-Logs refl refl
  main-Logs (get_result (finished item o) rest q) at = unfold receive in same-Logs refl refl
  main-Logs st at = same-Logs (ground arith) (ground arith)

  -- The test that ends the loop holds only when the whole input has been published.
  ended-Complete :
      s.main ≡ checking
      → s.exhausted ≡ true
      → s.completed ≡ s.submitted
      → s.pending ≡ []
      → Complete items s.log s.acknowledged s.submitted s.completed s.published
  ended-Complete at e c p =
      let left = length-drop s.submitted items in
      let gone : length (drop s.submitted items) ≡ 0 = ap length (all.input ∙ all.ended e) in
      let empty : length s.pending ≡ 0 = ap length p in
      let tallied : s.completed ≡ s.published = ground (arith, inv.tallied) in
      let logs : length s.log ≡ s.published = ground (arith, inv.log_size) in
      let acks : length s.acknowledged ≡ s.published = ground (arith, inv.ack_size) in
      let whole = inv.logged ∙ take_all (length s.log) items (omega arith) in
      let size = ap length whole in
      let mapped = length-map (λ (o : PairOutcome). o.work_item) s.log in
      record {
        all_published = whole;
        all_acknowledged = inv.acked ∙ take_all (length s.acknowledged) items (omega arith);
        submitted_count = omega (arith, size, mapped, logs, tallied, c);
        completed_count = omega (arith, size, mapped, logs, tallied, c);
        published_count = omega (arith, size, mapped, logs, tallied, c);
      }

  abbrev Done : State → Type 0
  Done t = Complete items t.log t.acknowledged t.submitted t.completed t.published

  carry :
      (t : State)
      → (t.log ≡ s.log)
        × (t.acknowledged ≡ s.acknowledged)
        × (t.submitted ≡ s.submitted)
        × (t.completed ≡ s.completed)
        × (t.published ≡ s.published)
      → Done s
      → Done t
  carry t same c = rw (same.0, same.1, same.2, same.3, same.4) c

  check_complete : s.main ≡ checking → succeeding (check s).main ≡ true → Done (check s)
  unfolding check
  check_complete at h =
      carry (check s) (ground arith)
        (ended-Complete at (ground arith) (ground arith) (ground arith))

  conclude_complete : Done s → Done (conclude none s)
  unfolding conclude
  conclude_complete c = carry (conclude none s) (ground arith) c

  -- The loop is left without an error only by the test that ends it.
  main_complete :
      {limits : Limits} {pc : MainPc} {t : State}
      → MainStep limits s pc t
      → s.main ≡ pc
      → succeeding t.main ≡ true
      → Done t
  unfolding submit put_item measure receive take_outcome release advance release_pending
  main_complete checked at h = check_complete at h
  main_complete (stop_all {failure = none}) at h = inv.complete (ap succeeding at)
  main_complete (drain_result {failure = none} r rest q) at h = inv.complete (ap succeeding at)
  main_complete (flush_result {failure = none} r rest q) at h = inv.complete (ap succeeding at)
  main_complete (workers_gone {failure = none} gone) at h = inv.complete (ap succeeding at)
  main_complete (joined {failure = none} gone) at h =
      conclude_complete (inv.complete (ap succeeding at))
  main_complete (joined {failure = some e} gone) at h = unfold conclude in absurd (ground arith)
  main_complete (get_result (failed item e) rest q) at h = absurd (ground arith)
  main_complete (get_result (finished item e) rest q) at h = absurd (ground arith)
  main_complete st at h = absurd (ground arith)

  pub main-Publication :
      {limits : Limits} {pc : MainPc} {t : State}
      → MainStep limits s pc t
      → s.main ≡ pc
      → FreshNext s
      → Publication items first t
  main-Publication st at fresh =
      let counters = main-Counters st at fresh in
      let logs = main-Logs st at in
      record {
        position = counters.position;
        tallied = counters.tallied;
        logged = logs.logged;
        log_size = counters.log_size;
        acked = logs.acked;
        ack_size = counters.ack_size;
        behind = counters.behind;
        complete = main_complete st at;
      }
