-- ===== src/Coordinator/Admission.antt =====
-- The head of `run_pairs_from_sequence`, before the worker threads start: the checks of its
-- arguments, `_validated_capacities`, and the first item.
use src_move.Common.{
  ℕ, ◌*◌, ◌<◌, ◌≤◌, ◌≡◌, refl, Bool, true, not, Option, none, some, List, [], ◌∷◌, arith, ltb, ◌==◌,
  if◌then◌else◌,
}
use src_move.Common.Int.{ℤ, pos, negsuc, is_positive, is_negative, to_ℕ}
use src_move.Contracts.{PairWorkItem}
use src_move.Coordinator.State.{
  Error, not_contiguous, bad_capacity, CoordinatorStats, State, Limits,
}
use src_move.Coordinator.System.{initial}

pub data Admission (A : Type 0) : Type 0 where
  admitted : A → Admission A
  refused : Error → Admission A

-- A capacity that is not given is a multiple of the worker count.
given_or : Option ℤ → ℕ → ℤ
given_or none n = pos n
given_or (some k) n = k

-- `pending_capacity < worker_count`
below : ℤ → ℕ → Bool
below (pos k) n = ltb k n
below (negsuc k) n = true

-- `_validated_capacities`
unfoldable pub validated_capacities : ℤ → Option ℤ → Option ℤ → Admission Limits
unfolding given_or below
validated_capacities worker_count work_queue_capacity outcome_capacity =
    let workers = to_ℕ worker_count in
    let work_capacity = given_or work_queue_capacity workers in
    let pending_capacity = given_or outcome_capacity (workers * 2) in
    if not (is_positive worker_count)
    then refused (bad_capacity "worker_count must be positive")
    else if not (is_positive work_capacity)
    then refused (bad_capacity "work_queue_capacity must be positive")
    else if below pending_capacity workers
    then refused (bad_capacity "outcome_capacity must be at least worker_count")
    else admitted (record {
      worker_count = workers;
      work_capacity = to_ℕ work_capacity;
      pending_capacity = to_ℕ pending_capacity;
    })

-- What a call does before its loop: it raises, it returns at once for an empty input, or it enters
-- the loop.
pub data Begin : Type 0 where
  raises : Error → Begin
  returns : CoordinatorStats → Begin
  enters : Limits → State → Begin

unfoldable pub no_work : ℕ → CoordinatorStats
no_work worker_count = record {
  worker_count = worker_count;
  submitted_count = 0;
  completed_count = 0;
  published_count = 0;
  max_queued_work = 0;
  max_unpublished_outcomes = 0;
}

unfoldable pub begin_items : Limits → ℕ → List PairWorkItem → Begin
begin_items limits first [] = returns (no_work limits.worker_count)
begin_items limits first (item ∷ rest) =
    if item.sequence == first
    then enters limits (initial limits first item rest)
    else raises (not_contiguous first item.sequence)

unfoldable pub begin_admitted : Admission Limits → ℕ → List PairWorkItem → Begin
begin_admitted (refused e) first items = raises e
begin_admitted (admitted limits) first items = begin_items limits first items

unfoldable pub begin : List PairWorkItem → ℤ → ℤ → Option ℤ → Option ℤ → Begin
unfolding begin_admitted begin_items
begin items worker_count first_sequence work_queue_capacity outcome_capacity =
    if is_negative first_sequence
    then raises (bad_capacity "first_sequence must be non-negative")
    else begin_admitted (validated_capacities worker_count work_queue_capacity outcome_capacity)
        (to_ℕ first_sequence) items

-- `run_pairs`: the sequence starts at 0.
unfoldable pub begin_run_pairs : List PairWorkItem → ℤ → Option ℤ → Option ℤ → Begin
unfolding begin
begin_run_pairs items worker_count work_queue_capacity outcome_capacity =
    begin items worker_count (pos 0) work_queue_capacity outcome_capacity

-- What holds of limits that were admitted.
pub record IsAdmitted (limits : Limits) : Type 0 where
  pub some_worker : 0 < limits.worker_count
  pub some_room : 0 < limits.work_capacity
  pub slot_each : limits.worker_count ≤ limits.pending_capacity

pub validated_capacities-IsAdmitted :
    (worker_count : ℤ) (work_queue_capacity outcome_capacity : Option ℤ) (limits : Limits)
    → validated_capacities worker_count work_queue_capacity outcome_capacity ≡ admitted limits
    → IsAdmitted limits
unfolding validated_capacities
validated_capacities-IsAdmitted w q o limits h = ground arith

-- What holds of a call that enters its loop.
pub record Entered (items : List PairWorkItem) (first : ℤ) (limits : Limits) (start : State)
    : Type 0 where
  pub limits_ok : IsAdmitted limits
  pub item : PairWorkItem
  pub rest : List PairWorkItem
  pub input : items ≡ item ∷ rest
  pub first_ok : item.sequence ≡ to_ℕ first
  pub starts : start ≡ initial limits (to_ℕ first) item rest

begin_items-Entered :
    (limits limits' : Limits) (first : ℤ) (items : List PairWorkItem) (start : State)
    → IsAdmitted limits
    → begin_items limits (to_ℕ first) items ≡ enters limits' start
    → Entered items first limits' start
unfolding begin_items
begin_items-Entered limits limits' first [] start ok h = cc
begin_items-Entered limits limits' first (item ∷ rest) start ok h = record {
  limits_ok = ground arith;
  item = item;
  rest = rest;
  input = refl;
  first_ok = ground arith;
  starts = ground arith;
}

begin_admitted-Entered :
    (a : Admission Limits) (limits : Limits) (first : ℤ) (items : List PairWorkItem) (start : State)
    → ((l : Limits) → a ≡ admitted l → IsAdmitted l)
    → begin_admitted a (to_ℕ first) items ≡ enters limits start
    → Entered items first limits start
unfolding begin_admitted
begin_admitted-Entered (refused e) limits first items start ok h = cc
begin_admitted-Entered (admitted l) limits first items start ok h =
    begin_items-Entered l limits first items start (ok l refl) h

pub begin-Entered :
    (items : List PairWorkItem) (worker_count first : ℤ)
    (work_queue_capacity outcome_capacity : Option ℤ) (limits : Limits) (start : State)
    → begin items worker_count first work_queue_capacity outcome_capacity ≡ enters limits start
    → Entered items first limits start
unfolding begin
begin-Entered items w (pos f) q o limits start h =
    begin_admitted-Entered (validated_capacities w q o) limits (pos f) items start
      (λ l e. validated_capacities-IsAdmitted w q o l e) h
begin-Entered items w (negsuc f) q o limits start h = cc
