-- ===== src/Coordinator/Invariant/Moves.antt =====
-- Facts about single steps that every invariant uses: which threads moved, and how the weighted sum
-- over the workers changes when one of them moves.
use src_move.Common.{ℕ, ◌+◌, ◌<◌, ◌≡◌, refl, ap, Bool, true, false}
use src_move.Common.Counting.{update, total, total-update}
use src_move.Coordinator.State.{
  WorkerPc, at_top, acquiring, awaiting_slot, fetching, awaiting_work, executing, delivering,
  closing, exited, failed, MainPc, polling, submitting, offering, measuring, checking, receiving,
  publishing, calling, acknowledging, State, Limits,
}
use src_move.Coordinator.Worker.{
  WorkerStep, receive_outcome, open_session, open_fails, leave, enter, leave_acquiring, try_acquire,
  acquire_slot, acquire_times_out, leave_fetching, try_fetch, fetch, fetch_times_out,
  execute_returns, execute_raises, deliver, close_session, close_fails,
}

-- The calling thread is in its loop.
abbrev pub live : MainPc → Bool
live polling = true
live submitting = true
live (offering item) = true
live measuring = true
live checking = true
live receiving = true
live publishing = true
live (calling outcome) = true
live (acknowledging outcome) = true
live _ = false

module _ {limits : Limits} {s : State} {i : ℕ} where
  -- Where a step leaves its worker.
  abbrev pub landing : {pc : WorkerPc} {t : State} → WorkerStep limits s i pc t → WorkerPc
  landing open_session = at_top
  landing (open_fails e) = exited
  landing (leave h) = closing
  landing (enter h) = acquiring
  landing (leave_acquiring h) = closing
  landing (try_acquire h) = awaiting_slot
  landing (acquire_slot h) = fetching
  landing acquire_times_out = acquiring
  landing (leave_fetching h) = closing
  landing (try_fetch h) = awaiting_work
  landing (fetch item rest h) = executing item
  landing fetch_times_out = fetching
  landing (execute_returns {item} outcome) = delivering (receive_outcome item outcome)
  landing (execute_raises {item} e) = delivering (failed item e)
  landing (deliver h) = at_top
  landing close_session = exited
  landing (close_fails e) = exited

  pub workers-step :
      {pc : WorkerPc} {t : State} (st : WorkerStep limits s i pc t)
      → t.workers ≡ update s.workers i (landing st)
  workers-step open_session = refl
  workers-step _ = refl

  -- A worker's step does not move the calling thread.
  pub main-step : {pc : WorkerPc} {t : State} (st : WorkerStep limits s i pc t) → t.main ≡ s.main
  main-step open_session = refl
  main-step _ = refl

  pub tally :
      (w : WorkerPc → ℕ) (n : ℕ) {pc : WorkerPc} {t : State} (st : WorkerStep limits s i pc t)
      → s.workers i ≡ pc
      → i < n
      → total w n t.workers + w pc ≡ total w n s.workers + w (landing st)
  tally w n st stands lt =
      cc (
        ap (total w n) (workers-step st),
        ap w stands,
        total-update w n s.workers i (landing st) lt,
      )
