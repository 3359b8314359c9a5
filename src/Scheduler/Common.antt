-- ===== src/Scheduler/Common.antt =====
-- What the kinds of scheduling share: `JobContext.AsMap` of job.go, and the report of a failure.
use tork.Prelude.{String, [], ◌∷◌}
use tork.Task.{TaskState, Task}
use tork.Job.{JobContext}
use tork.Eval.{Value, Scope}
use tork.Broker.Queues.{queue_error}
use tork.Exec.{M, publish_task}

-- `JobContext.AsMap`
abbrev pub as_map : JobContext → Scope
as_map c =
    ("inputs", Value.texts c.inputs)
    ∷ ("secrets", Value.texts c.secrets)
    ∷ ("tasks", Value.texts c.tasks)
    ∷ ("job", Value.texts c.job)
    ∷ []

-- The failure of a composite task is reported to the queue of errors.
abbrev pub report_failure : Task → String → M (Unit {0})
report_failure t e =
    publish_task queue_error
      (record t { info = record t.info { error = e; state = TaskState.failed } })
