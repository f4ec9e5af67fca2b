-- ===== src/Coordinator/Invariant/Ending.antt =====
-- The end of a call: nothing is pending once the loop is left, every worker has exited before the
-- results are flushed, and nothing is left when the call returns or raises. And the numbering of
-- what was submitted.
use src_move.Common.{
  ℕ, ◌+◌, ◌<◌, ◌≡◌, ◌≢◌, Bool, true, false, refl, sym, ◌∙◌, ap, subst, Option, none, some, List, [],
  ◌∷◌, get_elem?, drop_cons, arith,
}
use native.Mathlib.Decide.{dec_lt}
use src_move.Contracts.{PairWorkItem, PairOutcome}
use src_move.Coordinator.State.{
  Error, State, Limits, WorkerPc, exited, MainPc, offering, WorkerResult, finished, failed,
  draining, flushing, done,
}
use src_move.Coordinator.Worker.{WorkerStep, open_session}
use src_move.Coordinator.Publisher.{
  MainStep, put, get_result, stop_all, drain_result, workers_gone, flush_result, joined, submit,
  put_item, measure, check, receive, take_outcome, release, advance, release_pending, conclude,
  late_error,
}
use src_move.Coordinator.Invariant.Moves.{main-step}
use src_move.Coordinator.Invariant.Items.{Items}
use src_move.Coordinator.Invariant.ItemsMain.{offered_next}

abbrev AllExited : ℕ → (ℕ → WorkerPc) → Type 0
AllExited n workers = (i : ℕ) → i < n → workers i ≡ exited

abbrev pub Emptied : MainPc → List (ℕ × PairOutcome) → List WorkerResult → Type 0
Emptied (draining f) pending results = pending ≡ []
Emptied (flushing f) pending results = pending ≡ []
Emptied (done f) pending results = (pending ≡ []) × (results ≡ [])
Emptied _ pending results = Unit

abbrev pub Stopped : MainPc → ℕ → (ℕ → WorkerPc) → Type 0
Stopped (flushing f) n workers = AllExited n workers
Stopped (done f) n workers = AllExited n workers
Stopped _ n workers = Unit

pub record Ending (limits : Limits) (s : State) : Type 0 where
  pub emptied : Emptied s.main s.pending s.result_queue
  pub stopped : Stopped s.main limits.worker_count s.workers

-- What was submitted is numbered from `first` on.
abbrev pub Numbered : List PairWorkItem → ℕ → ℕ → Type 0
Numbered items first submitted =
    (k : ℕ) (item : PairWorkItem)
    → k < submitted
    → get_elem? items k ≡ some item
    → item.sequence ≡ first + k

module _ {limits : Limits} {s : State} {i : ℕ} where
  -- A worker that has exited takes no step.
  not-exited : {pc : WorkerPc} {t : State} → WorkerStep limits s i pc t → pc ≢ exited
  not-exited open_session e = cc
  not-exited _ e = cc

  worker-pending : {pc : WorkerPc} {t : State} → WorkerStep limits s i pc t → t.pending ≡ s.pending
  worker-pending open_session = refl
  worker-pending _ = refl

  Ending-at :
      (m : MainPc) {pc : WorkerPc} {t : State}
      → WorkerStep limits s i pc t
      → s.workers i ≡ pc
      → i < limits.worker_count
      → Emptied m s.pending s.result_queue
      → Stopped m limits.worker_count s.workers
      → Emptied m t.pending t.result_queue × Stopped m limits.worker_count t.workers
  Ending-at (draining f) st stands lt e q = (worker-pending st ∙ e, tt)
  Ending-at (flushing f) st stands lt e q = absurd (not-exited st (sym stands ∙ q i lt))
  Ending-at (done f) st stands lt e q = absurd (not-exited st (sym stands ∙ q i lt))
  Ending-at _ st stands lt e q = (tt, tt)

  pub worker-Ending :
      {pc : WorkerPc} {t : State}
      → i < limits.worker_count
      → Ending limits s
      → WorkerStep limits s i pc t
      → s.workers i ≡ pc
      → Ending limits t
  worker-Ending {pc} {t} lt inv st stands =
      let both = Ending-at s.main st stands lt inv.emptied inv.stopped in
      let same = sym (main-step st) in
      record {
        emptied = subst (λ (m : MainPc). Emptied m t.pending t.result_queue) same both.0;
        stopped = subst (λ (m : MainPc). Stopped m limits.worker_count t.workers) same both.1;
      }

  worker-submitted :
      {pc : WorkerPc} {t : State} → WorkerStep limits s i pc t → t.submitted ≡ s.submitted
  worker-submitted open_session = refl
  worker-submitted _ = refl

  pub worker-Numbered :
      (items : List PairWorkItem) (first : ℕ) {pc : WorkerPc} {t : State}
      → WorkerStep limits s i pc t
      → Numbered items first s.submitted
      → Numbered items first t.submitted
  worker-Numbered items first st h = subst (Numbered items first) (sym (worker-submitted st)) h

late_error-Ending :
    (limits : Limits) (s : State) (errors : List Error)
    → (s.pending ≡ []) × (s.result_queue ≡ [])
    → AllExited limits.worker_count s.workers
    → Ending limits (late_error errors s)
unfolding late_error
late_error-Ending limits s [] e q = record { emptied = e; stopped = q }
late_error-Ending limits s (x ∷ xs) e q = record { emptied = e; stopped = q }

conclude-Ending :
    (limits : Limits) (s : State) (failure : Option Error)
    → (s.pending ≡ []) × (s.result_queue ≡ [])
    → AllExited limits.worker_count s.workers
    → Ending limits (conclude failure s)
unfolding conclude
conclude-Ending limits s none e q = late_error-Ending limits s s.errors e q
conclude-Ending limits s (some x) e q = record { emptied = e; stopped = q }

-- Where the calling thread is in its loop or about to leave it, there is nothing to keep.
abbrev in_loop : MainPc → Bool
in_loop (draining f) = false
in_loop (flushing f) = false
in_loop (done f) = false
in_loop _ = true

loop-Ending :
    (limits : Limits) (m : MainPc) (t : State) → t.main ≡ m → in_loop m ≡ true → Ending limits t
loop-Ending limits (draining f) t at h = cc
loop-Ending limits (flushing f) t at h = cc
loop-Ending limits (done f) t at h = cc
loop-Ending limits _ t at h = record { emptied = rw at tt; stopped = rw at tt }

module _ {limits : Limits} {s : State} (inv : Ending limits s) where
  pub main-Ending :
      {pc : MainPc} {t : State} → MainStep limits s pc t → s.main ≡ pc → Ending limits t
  unfolding submit put_item measure check receive take_outcome release advance release_pending
  main-Ending stop_all at = record { emptied = refl; stopped = tt }
  main-Ending (drain_result {failure} r rest q) at = record {
    emptied = subst (λ (m : MainPc). Emptied m s.pending rest) (sym at) (rw at at inv.emptied);
    stopped = rw at tt;
  }
  main-Ending (workers_gone gone) at = record { emptied = rw at at inv.emptied; stopped = gone }
  main-Ending (flush_result {failure} r rest q) at = record {
    emptied = subst (λ (m : MainPc). Emptied m s.pending rest) (sym at) (rw at at inv.emptied);
    stopped = inv.stopped;
  }
  main-Ending (joined {failure} none_left) at =
      conclude-Ending limits s failure (rw at at inv.emptied, none_left) (rw at at inv.stopped)
  main-Ending {pc} {t} (get_result (finished item e) rest q) at = loop-Ending limits _ t refl refl
  main-Ending {pc} {t} (get_result (failed item e) rest q) at = loop-Ending limits _ t refl refl
  main-Ending {pc} {t} st at = loop-Ending limits t.main t refl (ground arith)

module _ (items : List PairWorkItem) (first : ℕ) {s : State} (all : Items items first s)
    (inv : Numbered items first s.submitted) where
  put-Numbered :
      (item : PairWorkItem) → s.main ≡ offering item → Numbered items first (s.submitted + 1)
  put-Numbered item at k found lt e = elim (dec_lt k s.submitted) [
    | yes below ↦ inv k found below e
    | no last ↦
        let (_, rest, seq) = offered_next items first all item at in
        let (placed, _, _) = drop_cons s.submitted items rest in
        let here : s.submitted ≡ k = omega arith in
        let placed' = subst (λ (j : ℕ). get_elem? items j ≡ some item) here placed in
        let same : ◌≡◌ {A = PairWorkItem} item found = cc (placed', e) in
        sym (ap (λ (j : PairWorkItem). j.sequence) same) ∙ (seq ∙ ap (λ (j : ℕ). first + j) here)
  ]

  pub main-Numbered :
      {limits : Limits} {pc : MainPc} {t : State}
      → MainStep limits s pc t
      → s.main ≡ pc
      → Numbered items first t.submitted
  unfolding submit put_item measure check receive take_outcome release advance release_pending
      conclude
  main-Numbered (put {item} room) at = put-Numbered item at
  main-Numbered (get_result (finished item e) rest q) at = inv
  main-Numbered (get_result (failed item e) rest q) at = inv
  main-Numbered {limits} {pc} {t} st at =
      let same : s.submitted ≡ t.submitted = ground arith in subst (Numbered items first) same inv
