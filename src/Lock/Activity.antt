-- ===== src/Lock/Activity.antt =====
-- The activity record of `AnalysisOperationLock`, without its time stamps, process and host.
use src_move.Common.{Bool, true, false, Option, none, some, String, if◌then◌else◌}

-- The texts of `result`.
pub data OperationResult : Type 0 where
  completed failed interrupted : OperationResult

pub record PreviousActivity : Type 0 where
  pub invocation_id : String
  pub command : String
  pub result : Option OperationResult

pub record Activity : Type 0 where
  pub is_running : Bool
  pub invocation_id : String
  pub command : String
  pub result : Option OperationResult
  pub previous : Option PreviousActivity

-- `_previous_activity`
unfoldable pub previous_activity : Option Activity → Option PreviousActivity
previous_activity none = none
previous_activity (some a) = some (record {
  invocation_id = a.invocation_id;
  command = a.command;
  result = if a.is_running then some interrupted else a.result;
})

-- What `__enter__` publishes once the lock is held.
unfoldable pub entered : String → String → Option Activity → Activity
unfolding previous_activity
entered invocation_id command stored = record {
  is_running = true;
  invocation_id = invocation_id;
  command = command;
  result = none;
  previous = previous_activity stored;
}

abbrev pub kept_previous : Option Activity → Option PreviousActivity
kept_previous none = none
kept_previous (some a) = a.previous

-- What `__exit__` publishes, with or without an exception.
unfoldable pub exited : String → String → (raised : Bool) → Option Activity → Activity
exited invocation_id command raised stored = record {
  is_running = false;
  invocation_id = invocation_id;
  command = command;
  result = some (if raised then failed else completed);
  previous = kept_previous stored;
}
