-- ===== src/Coordinator/Invariant/Items.antt =====
-- Everything in flight is an item of the input, at the place that its sequence number names.
use src_move.Common.{
  ℕ, ◌+◌, ◌-◌, ◌≤◌, ◌≡◌, sym, subst, true, Option, none, some, List, [], ◌∷◌, All, All-snoc,
  get_elem?, drop, Bool-cases, inl, inr,
}
use src_move.Common.Counting.{update-All}
use src_move.Contracts.{PairWorkItem, PairOutcome, same_item, same_item→≡}
use src_move.Coordinator.State.{
  WorkerResult, finished, failed, WorkerPc, executing, delivering, MainPc, offering, calling,
  acknowledging, State, Limits,
}
use src_move.Coordinator.Worker.{
  WorkerStep, receive_outcome, deliver, fetch, execute_returns, execute_raises,
}
use src_move.Coordinator.Invariant.Moves.{live, landing, workers-step}

-- The input that the calling thread has not offered yet.
abbrev pub upcoming : Option PairWorkItem → List PairWorkItem → List PairWorkItem
upcoming none items = items
upcoming (some item) items = item ∷ items

-- What the submission loop has prepared.
abbrev pub IsOffered : MainPc → Option PairWorkItem → Type 0
IsOffered (offering item) next_item = next_item ≡ some item
IsOffered _ next_item = Unit

abbrev pub IsDue : Option PairWorkItem → ℕ → Type 0
IsDue none k = Unit
IsDue (some item) k = item.sequence ≡ k

module _ (items : List PairWorkItem) (first : ℕ) where
  -- `item` stands in the input at the place that its sequence number names.
  pub record IsInput (item : PairWorkItem) : Type 0 where
    pub from_first : first ≤ item.sequence
    pub placed : get_elem? items (item.sequence - first) ≡ some item

  abbrev pub IsInputResult : WorkerResult → Type 0
  IsInputResult (finished item outcome) = IsInput item × (outcome.work_item ≡ item)
  IsInputResult (failed item e) = IsInput item

  abbrev pub IsInputHeld : WorkerPc → Type 0
  IsInputHeld (executing item) = IsInput item
  IsInputHeld (delivering result) = IsInputResult result
  IsInputHeld _ = Unit

  -- A pending outcome, under its key.
  abbrev pub IsInputEntry : ℕ × PairOutcome → Type 0
  IsInputEntry entry = (entry.1.work_item.sequence ≡ entry.0) × IsInput entry.1.work_item

  abbrev pub IsInputInHand : MainPc → ℕ → Type 0
  IsInputInHand (calling outcome) k = (outcome.work_item.sequence ≡ k) × IsInput outcome.work_item
  IsInputInHand (acknowledging outcome) k =
      (outcome.work_item.sequence ≡ k) × IsInput outcome.work_item
  IsInputInHand _ k = Unit

  pub record Items (s : State) : Type 0 where
    pub input : drop s.submitted items ≡ upcoming s.next_item s.iterator
    pub expected : s.expected_submission ≡ first + s.submitted
    pub due : live s.main ≡ true → IsDue s.next_item s.expected_submission
    pub offered : IsOffered s.main s.next_item
    pub ended : s.exhausted ≡ true → upcoming s.next_item s.iterator ≡ []
    pub queued : All IsInput s.work_queue
    pub results : All IsInputResult s.result_queue
    pub held : (i : ℕ) → IsInputHeld (s.workers i)
    pub kept : All IsInputEntry s.pending
    pub hand : IsInputInHand s.main s.next_publication

  receive_outcome-IsInput :
      (item : PairWorkItem) (outcome : PairOutcome)
      → IsInput item
      → IsInputResult (receive_outcome item outcome)
  unfolding receive_outcome
  receive_outcome-IsInput item outcome h = elim (Bool-cases (same_item outcome.work_item item)) [
    | inl same ↦ rw same (h, same_item→≡ outcome.work_item item same)
    | inr other ↦ rw other h
  ]

  module _ {limits : Limits} {s : State} {i : ℕ} (inv : Items s) where
    landing-IsInput :
        {pc : WorkerPc} {t : State} (st : WorkerStep limits s i pc t)
        → IsInputHeld pc
        → IsInputHeld (landing st)
    landing-IsInput (fetch item rest q) h =
        let all : All IsInput (item ∷ rest) = rw q at inv.queued in all.0
    landing-IsInput (execute_returns {item} outcome) h = receive_outcome-IsInput item outcome h
    landing-IsInput (execute_raises e) h = h
    landing-IsInput st h = tt

    worker-held :
        {pc : WorkerPc} {t : State} (st : WorkerStep limits s i pc t)
        → s.workers i ≡ pc
        → (j : ℕ) → IsInputHeld (t.workers j)
    worker-held st stands j =
        let here : IsInputHeld (s.workers i) = inv.held i in
        subst (λ (ws : ℕ → WorkerPc). IsInputHeld (ws j)) (sym (workers-step st))
          (update-All IsInputHeld s.workers i (landing st) (landing-IsInput st (rw stands at here))
            inv.held j)

    pub worker-Items :
        {pc : WorkerPc} {t : State} → WorkerStep limits s i pc t → s.workers i ≡ pc → Items t
    worker-Items (fetch item rest q) stands = record {
      input = inv.input;
      expected = inv.expected;
      due = inv.due;
      offered = inv.offered;
      ended = inv.ended;
      queued = let all : All IsInput (item ∷ rest) = rw q at inv.queued in all.1;
      results = inv.results;
      held = worker-held (fetch item rest q) stands;
      kept = inv.kept;
      hand = inv.hand;
    }
    worker-Items (deliver {result} h) stands = record {
      input = inv.input;
      expected = inv.expected;
      due = inv.due;
      offered = inv.offered;
      ended = inv.ended;
      queued = inv.queued;
      results =
          let here : IsInputHeld (s.workers i) = inv.held i in
          All-snoc IsInputResult s.result_queue result inv.results (rw stands at here);
      held = worker-held (deliver {result = result} h) stands;
      kept = inv.kept;
      hand = inv.hand;
    }
    worker-Items st stands = record {
      input = inv.input;
      expected = inv.expected;
      due = inv.due;
      offered = inv.offered;
      ended = inv.ended;
      queued = inv.queued;
      results = inv.results;
      held = worker-held st stands;
      kept = inv.kept;
      hand = inv.hand;
    }
