-- ===== src/Coordinator/Invariant/ItemsMain.antt =====
-- The calling thread keeps what `Items` says of the input and of everything in flight.
use src_move.Common.{
  ℕ, suc, ◌+◌, ◌-◌, ◌≡◌, refl, sym, subst, ap, true, some, List, [], ◌∷◌, All, All-snoc, get_elem?,
  drop, drop_cons, arith, Option-cases, inl, inr,
}
use src_move.Common.Dict.{lookup, All-insert, All-remove, All-lookup}
use src_move.Contracts.{PairWorkItem}
use src_move.Coordinator.State.{
  WorkerResult, finished, failed, WorkerPc, MainPc, offering, receiving, publishing, submitting,
  State, Limits,
}
use src_move.Coordinator.Publisher.{
  MainStep, get_result, next_outcome, drain_result, flush_result, put, submission, submit, put_item,
  measure, check, receive, take_outcome, release, advance, release_pending, conclude,
}
use src_move.Coordinator.Invariant.Moves.{live}
use src_move.Coordinator.Invariant.Items.{
  upcoming, IsOffered, IsDue, IsInput, IsInputResult, IsInputHeld, IsInputEntry, IsInputInHand,
  Items,
}

-- What the submission loop has to keep.
record Feed (items : List PairWorkItem) (first : ℕ) (t : State) : Type 0 where
  input : drop t.submitted items ≡ upcoming t.next_item t.iterator
  expected : t.expected_submission ≡ first + t.submitted
  due : live t.main ≡ true → IsDue t.next_item t.expected_submission
  offered : IsOffered t.main t.next_item
  ended : t.exhausted ≡ true → upcoming t.next_item t.iterator ≡ []

-- What all threads keep of the items in flight.
record Flight (items : List PairWorkItem) (first : ℕ) (t : State) : Type 0 where
  queued : All (IsInput items first) t.work_queue
  results : All (IsInputResult items first) t.result_queue
  kept : All (IsInputEntry items first) t.pending
  hand : IsInputInHand items first t.main t.next_publication

module _ (items : List PairWorkItem) (first : ℕ) {s : State} (inv : Items items first s) where
  -- The item that is offered stands in the input after those that were submitted.
  pub offered_next :
      (item : PairWorkItem)
      → s.main ≡ offering item
      → (s.next_item ≡ some item)
        × (drop s.submitted items ≡ item ∷ s.iterator)
        × (item.sequence ≡ first + s.submitted)
  offered_next item at =
      let e : s.next_item ≡ some item = ground (arith, inv.offered) in
      (e, ground (arith, inv.input), ground (arith, inv.due, inv.expected))

  offered-IsInput : (item : PairWorkItem) → s.main ≡ offering item → IsInput items first item
  offered-IsInput item at =
      let (e, rest, seq) = offered_next item at in
      let (found, _, _) = drop_cons s.submitted items rest in
      let index : s.submitted ≡ item.sequence - first = omega (arith, seq) in
      record {
        from_first = omega (arith, seq);
        placed = subst (λ (k : ℕ). get_elem? items k ≡ some item) index found;
      }

  put-Feed : (item : PairWorkItem) → s.main ≡ offering item → Feed items first (put_item item s)
  unfolding put_item
  put-Feed item at =
      let (e, rest, seq) = offered_next item at in
      let (_, left, _) = drop_cons s.submitted items rest in
      let index : suc s.submitted ≡ s.submitted + 1 = omega arith in
      record {
        input = subst (λ (k : ℕ). drop k items ≡ s.iterator) index left;
        expected = omega (arith, inv.expected);
        due = λ h. tt;
        offered = tt;
        ended = ground (arith, inv.ended);
      }

  submit-Feed : s.main ≡ submitting → Feed items first (submit s)
  unfolding submit
  submit-Feed at = ground (arith, inv.input, inv.expected, inv.due, inv.offered, inv.ended)

  main-Feed :
      {limits : Limits} {pc : MainPc} {t : State}
      → MainStep limits s pc t
      → s.main ≡ pc
      → Feed items first t
  unfolding measure check receive take_outcome release advance release_pending conclude
  main-Feed (put {item} room) at = put-Feed item at
  main-Feed submission at = submit-Feed at
  main-Feed (get_result (finished item o) rest q) at =
      ground (arith, inv.input, inv.expected, inv.due, inv.offered, inv.ended)
  main-Feed (get_result (failed item o) rest q) at =
      ground (arith, inv.input, inv.expected, inv.due, inv.offered, inv.ended)
  main-Feed st at = ground (arith, inv.input, inv.expected, inv.due, inv.offered, inv.ended)

  receive-Flight :
      (result : WorkerResult) (rest : List WorkerResult)
      → s.main ≡ receiving
      → s.result_queue ≡ result ∷ rest
      → Flight items first (receive result rest s)
  unfolding receive
  receive-Flight (failed item e) rest at q =
      let all : All (IsInputResult items first) (failed item e ∷ rest) = rw q at inv.results in
      record { queued = inv.queued; results = all.1; kept = inv.kept; hand = tt }
  receive-Flight (finished item o) rest at q =
      let all : All (IsInputResult items first) (finished item o ∷ rest) = rw q at inv.results in
      record {
        queued = inv.queued;
        results = all.1;
        kept =
            All-insert (IsInputEntry items first) item.sequence o s.pending
              (ap (λ (j : PairWorkItem). j.sequence) all.0.1, rw all.0.1 all.0.0) inv.kept;
        hand = tt;
      }

  take_outcome-Flight : s.main ≡ publishing → Flight items first (take_outcome s)
  unfolding take_outcome
  take_outcome-Flight at = elim (Option-cases (lookup s.next_publication s.pending)) [
    | inl absent ↦
        rw absent
          (record { queued = inv.queued; results = inv.results; kept = inv.kept; hand = tt })
    | inr (o, found) ↦ rw found (record {
      queued = inv.queued;
      results = inv.results;
      kept = All-remove (IsInputEntry items first) s.next_publication s.pending inv.kept;
      hand = All-lookup (IsInputEntry items first) s.next_publication o s.pending found inv.kept;
    })
  ]

  main-Flight :
      {limits : Limits} {pc : MainPc} {t : State}
      → MainStep limits s pc t
      → s.main ≡ pc
      → Flight items first t
  unfolding submit put_item measure check release advance release_pending conclude
  main-Flight (put {item} room) at = record {
    queued = All-snoc (IsInput items first) s.work_queue item inv.queued (offered-IsInput item at);
    results = inv.results;
    kept = inv.kept;
    hand = tt;
  }
  main-Flight (get_result result rest q) at = receive-Flight result rest at q
  main-Flight next_outcome at = take_outcome-Flight at
  main-Flight (drain_result result rest q) at =
      let all : All (IsInputResult items first) (result ∷ rest) = rw q at inv.results in
      record { queued = inv.queued; results = all.1; kept = inv.kept; hand = inv.hand }
  main-Flight (flush_result result rest q) at =
      let all : All (IsInputResult items first) (result ∷ rest) = rw q at inv.results in
      record { queued = inv.queued; results = all.1; kept = inv.kept; hand = inv.hand }
  main-Flight st at = ground (arith, inv.queued, inv.results, inv.kept, inv.hand)

  main-workers :
      {limits : Limits} {pc : MainPc} {t : State} → MainStep limits s pc t → t.workers ≡ s.workers
  unfolding submit put_item measure check take_outcome release advance release_pending conclude
  main-workers (get_result (failed item e) rest q) = unfold receive in refl
  main-workers (get_result (finished item o) rest q) = unfold receive in refl
  main-workers st = ground arith

  pub main-Items :
      {limits : Limits} {pc : MainPc} {t : State}
      → MainStep limits s pc t
      → s.main ≡ pc
      → Items items first t
  main-Items st at =
      let feed = main-Feed st at in
      let flight = main-Flight st at in
      record {
        input = feed.input;
        expected = feed.expected;
        due = feed.due;
        offered = feed.offered;
        ended = feed.ended;
        queued = flight.queued;
        results = flight.results;
        held =
            subst (λ (ws : ℕ → WorkerPc). (j : ℕ) → IsInputHeld items first (ws j))
              (sym (main-workers st)) inv.held;
        kept = flight.kept;
        hand = flight.hand;
      }
