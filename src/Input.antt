-- ===== src/Input.antt =====
-- The package input: jobs and tasks as clients describe them. input/task.go and input/job.go: the
-- types. A nil pointer is `none`, or a constructor such as `no_each_input`.
pub mod ToTask
pub mod ToJob
pub mod Validate
pub mod Accepted
use tork.Prelude.{ℕ, String, Bool, Option, List, Dict}
use tork.Task.{Registry, TaskLimits, AutoDelete, Webhook}

-- `Retry`, which has a limit only
pub record RetryInput : Type 0 where
  pub limit : ℕ

-- `Mount`, which has no identifier
pub record MountInput : Type 0 where
  pub type : String
  pub source : String
  pub target : String

pub record AuxTask : Type 0 where
  pub name : String
  pub description : String
  pub cmd : List String
  pub entrypoint : List String
  pub run : String
  pub image : String
  pub registry : Option Registry
  pub env : Dict String
  pub files : Dict String
  pub timeout : String

-- The fields of `Task` that hold no `Task`.
pub record TaskFields : Type 0 where
  pub name : String
  pub description : String
  pub cmd : List String
  pub entrypoint : List String
  pub run : String
  pub image : String
  pub registry : Option Registry
  pub env : Dict String
  pub files : Dict String
  pub queue : String
  pub pre : List AuxTask
  pub post : List AuxTask
  pub mounts : List MountInput
  pub networks : List String
  pub retry : Option RetryInput
  pub limits : Option TaskLimits
  pub timeout : String
  pub var : String
  pub if_ : String
  pub gpus : String
  pub tags : List String
  pub workdir : String
  pub priority : ℕ

-- The fields of `Each` but its task.
pub record EachFields : Type 0 where
  pub var : String
  pub list : String
  pub concurrency : ℕ

-- The fields of `SubJob` but its tasks.
pub record SubJobFields : Type 0 where
  pub id : String
  pub name : String
  pub description : String
  pub inputs : Dict String
  pub secrets : Dict String
  pub auto_delete : Option AutoDelete
  pub output : String
  pub detached : Bool
  pub webhooks : List Webhook

mutual
  pub data TaskInput : Type 0 where
    task_input : TaskFields → ParallelInput → EachInput → SubJobInput → TaskInput

  pub data TaskInputs : Type 0 where
    no_tasks : TaskInputs
    a_task : TaskInput → TaskInputs → TaskInputs

  pub data ParallelInput : Type 0 where
    no_parallel_input : ParallelInput
    parallel_input : TaskInputs → ParallelInput

  pub data EachInput : Type 0 where
    no_each_input : EachInput
    each_input : EachFields → TaskInput → EachInput

  pub data SubJobInput : Type 0 where
    no_subjob_input : SubJobInput
    subjob_input : SubJobFields → TaskInputs → SubJobInput

-- `Permission`
pub record PermissionInput : Type 0 where
  pub user : String
  pub role : String

-- `Defaults`
pub record DefaultsInput : Type 0 where
  pub retry : Option RetryInput
  pub limits : Option TaskLimits
  pub timeout : String
  pub queue : String
  pub priority : ℕ

-- `Job`. What the API reads of `wait` is not part of the job.
pub record JobInput : Type 0 where
  pub id : String
  pub name : String
  pub description : String
  pub tags : List String
  pub tasks : List TaskInput
  pub inputs : Dict String
  pub secrets : Dict String
  pub output : String
  pub defaults : Option DefaultsInput
  pub webhooks : List Webhook
  pub permissions : List PermissionInput
  pub auto_delete : Option AutoDelete

-- `ScheduledJob`, of whose schedule the expression in `cron` is all.
pub record ScheduledJobInput : Type 0 where
  pub id : String
  pub name : String
  pub description : String
  pub tags : List String
  pub tasks : List TaskInput
  pub inputs : Dict String
  pub secrets : Dict String
  pub output : String
  pub defaults : Option DefaultsInput
  pub webhooks : List Webhook
  pub permissions : List PermissionInput
  pub auto_delete : Option AutoDelete
  pub cron : Option String
