-- ===== src/Lock/Samples.antt =====
-- An operation is killed, and the next one is running.
use src_move.Common.{none, some}
use src_move.Lock.Activity.{entered, interrupted}
use src_move.Lock.Protocol.{
  Operation, Root, running, acquire, publish_activity, die, LockReach, start, after,
}
use src_move.Lock.Truth.{IsTruthful, reach-IsTruthful}

abbrev first : Operation
first = record { invocation_id = "i1"; command = "run" }

abbrev second : Operation
second = record { invocation_id = "i2"; command = "compare" }

abbrev second_runs : Root
second_runs = record {
  ownership = running second;
  activity = some (entered "i2" "compare" (some (entered "i1" "run" none)));
  last = some (first, interrupted);
}

second_runs-LockReach : LockReach second_runs
second_runs-LockReach =
    let one = some (entered "i1" "run" none) in
    after
      (after
        (after (after (after start (acquire first none none)) (publish_activity first none none))
          (die first one none))
        (acquire second one (some (first, interrupted))))
      (publish_activity second one (some (first, interrupted)))

reach-IsTruthful_example : IsTruthful second_runs
reach-IsTruthful_example = reach-IsTruthful second_runs second_runs-LockReach
