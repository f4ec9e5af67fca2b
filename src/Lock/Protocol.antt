-- ===== src/Lock/Protocol.antt =====
-- The steps of the operations on one analysis root. The lock is the operating system's: it has at most
-- one owner, and it is free again when its owner ends, however that comes about.
use src_move.Common.{Bool, Option, none, some, String, if◌then◌else◌}
use src_move.Lock.Activity.{
  OperationResult, completed, failed, interrupted, Activity, entered, exited,
}

pub record Operation : Type 0 where
  pub invocation_id : String
  pub command : String

-- Who holds the lock: nobody, an operation that has not yet published its activity, or one that has.
pub data Ownership : Type 0 where
  free : Ownership
  acquired : Operation → Ownership
  running : Operation → Ownership

-- The lock and the activity file; and, as a record of the past, the last operation that published its
-- activity before the present owner did, with how it ended.
pub record Root : Type 0 where
  pub ownership : Ownership
  pub activity : Option Activity
  pub last : Option (Operation × OperationResult)

abbrev pub exit_result : Bool → OperationResult
exit_result raised = if raised then failed else completed

pub data LockStep : Root → Root → Type 0 where
  -- `flock` succeeds.
  acquire :
      (op : Operation) (activity : Option Activity) (last : Option (Operation × OperationResult))
      → LockStep
          (record { ownership = free; activity = activity; last = last })
          (record { ownership = acquired op; activity = activity; last = last })
  -- `AnalysisBusyError`, of an operation that finds the lock held.
  busy : (r : Root) → LockStep r r
  -- The activity cannot be published, or the process ends before: the lock is released.
  give_up :
      (op : Operation) (activity : Option Activity) (last : Option (Operation × OperationResult))
      → LockStep
          (record { ownership = acquired op; activity = activity; last = last })
          (record { ownership = free; activity = activity; last = last })
  publish_activity :
      (op : Operation) (activity : Option Activity) (last : Option (Operation × OperationResult))
      → LockStep
          (record { ownership = acquired op; activity = activity; last = last })
          (record {
            ownership = running op;
            activity = some (entered op.invocation_id op.command activity);
            last = last;
          })
  -- `__exit__`
  exit :
      (op : Operation) (raised : Bool) (activity : Option Activity)
      (last : Option (Operation × OperationResult))
      → LockStep
          (record { ownership = running op; activity = activity; last = last })
          (record {
            ownership = free;
            activity = some (exited op.invocation_id op.command raised activity);
            last = some (op, exit_result raised);
          })
  -- The process is killed, or the end cannot be published: the activity stays.
  die :
      (op : Operation) (activity : Option Activity) (last : Option (Operation × OperationResult))
      → LockStep
          (record { ownership = running op; activity = activity; last = last })
          (record { ownership = free; activity = activity; last = some (op, interrupted) })

-- A root without an activity file.
abbrev pub fresh : Root
fresh = record { ownership = free; activity = none; last = none }

pub data LockReach : Root → Type 0 where
  start : LockReach fresh
  after : {r s : Root} → LockReach r → LockStep r s → LockReach s
