-- ===== src/Handlers/States.antt =====
-- Tests of states that several handlers make.
use tork.Prelude.{Bool, true, false, ◌||◌}
use tork.Task.{TaskState}
use tork.Job.{JobState}

abbrev pub is_running : JobState → Bool
is_running JobState.running = true
is_running _ = false

abbrev pub is_scheduled : JobState → Bool
is_scheduled JobState.scheduled = true
is_scheduled _ = false

abbrev pub is_failed : JobState → Bool
is_failed JobState.failed = true
is_failed _ = false

abbrev pub is_cancelled : JobState → Bool
is_cancelled JobState.cancelled = true
is_cancelled _ = false

-- RUNNING or SCHEDULED
abbrev pub is_under_way : JobState → Bool
is_under_way s = is_running s || is_scheduled s

abbrev pub task_failed : TaskState → Bool
task_failed TaskState.failed = true
task_failed _ = false

-- The states of a row from which a task may be completed.
abbrev pub is_completable : TaskState → Bool
is_completable TaskState.running = true
is_completable TaskState.scheduled = true
is_completable TaskState.skipped = true
is_completable _ = false
