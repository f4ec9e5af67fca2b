-- ===== src/Lock/Truth.antt =====
-- In every state the activity tells who is running and how the last operation ended.
use src_move.Common.{◌≡◌, refl, true, Option, none, some}
use src_move.Lock.Activity.{
  OperationResult, PreviousActivity, Activity, previous_activity, entered, exited,
}
use src_move.Lock.Protocol.{
  Operation, Ownership, free, acquired, running, Root, LockStep, acquire, busy, give_up,
  publish_activity, exit, die, LockReach, start, after,
}

-- What the next operation is told of the last one.
abbrev pub told : Option (Operation × OperationResult) → Option PreviousActivity
told none = none
told (some (op, result)) =
    some (record { invocation_id = op.invocation_id; command = op.command; result = some result })

-- The activity is the running one of an operation, and its previous one tells of the last operation.
abbrev pub TellsOf : Operation → Option (Operation × OperationResult) → Option Activity → Type 0
TellsOf op last activity =
    activity
    ≡ some (record {
      is_running = true;
      invocation_id = op.invocation_id;
      command = op.command;
      result = none;
      previous = told last;
    })

abbrev pub Truthful : Ownership → Option Activity → Option (Operation × OperationResult) → Type 0
Truthful free activity last = previous_activity activity ≡ told last
Truthful (acquired op) activity last = previous_activity activity ≡ told last
Truthful (running op) activity last = TellsOf op last activity

abbrev pub IsTruthful : Root → Type 0
IsTruthful r = Truthful r.ownership r.activity r.last

step-IsTruthful : (r s : Root) → LockStep r s → IsTruthful r → IsTruthful s
unfolding previous_activity entered exited
step-IsTruthful _ _ (acquire op activity last) h = h
step-IsTruthful _ _ (busy r) h = h
step-IsTruthful _ _ (give_up op activity last) h = h
step-IsTruthful _ _ (publish_activity op activity last) h = rw h refl
step-IsTruthful _ _ (exit op raised activity last) h = refl
step-IsTruthful _ _ (die op activity last) h = rw h refl

-- Whatever operations have done on a root, and wherever they have been killed: the activity that the
-- next operation will find is told to it as the last operation's, with its result, or as interrupted
-- when that operation never published an end; and while an operation runs, the activity is its own
-- and its previous activity is the last operation's with that result.
pub reach-IsTruthful : (r : Root) → LockReach r → IsTruthful r
reach-IsTruthful _ start = unfold previous_activity in refl
reach-IsTruthful _ (after {r} {s} reached step) =
    step-IsTruthful r s step (reach-IsTruthful r reached)
