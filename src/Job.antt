-- ===== src/Job.antt =====
-- job.go: jobs, scheduled jobs and their parts.
pub mod Clone
use tork.Prelude.{ℕ, String, Option, List, Dict, [], ◌∷◌, ◌≡◌, refl}
use tork.User.{Time, User, Permission}
use tork.Task.{TaskRetry, TaskLimits, Webhook, AutoDelete, Task}

-- `type JobState = string`, as `TaskState` is.
pub data JobState : Type 0 where
  pending scheduled running cancelled completed failed restart : JobState
  other : String → JobState

pub data ScheduledJobState : Type 0 where
  active paused : ScheduledJobState
  other : String → ScheduledJobState

pub record JobSchedule : Type 0 where
  pub id : String
  pub cron : String

pub record JobContext : Type 0 where
  pub job : Dict String
  pub inputs : Dict String
  pub secrets : Dict String
  pub tasks : Dict String

pub record JobDefaults : Type 0 where
  pub retry : Option TaskRetry
  pub limits : Option TaskLimits
  pub timeout : String
  pub queue : String
  pub priority : ℕ

-- Progress is in hundredths of a percent.
pub record Job : Type 0 where
  pub id : String
  pub parent_id : String
  pub name : String
  pub description : String
  pub tags : List String
  pub state : JobState
  pub created_at : Time
  pub created_by : Option User
  pub started_at : Option Time
  pub completed_at : Option Time
  pub failed_at : Option Time
  pub tasks : List Task
  pub execution : List Task
  pub position : ℕ
  pub inputs : Dict String
  pub context : JobContext
  pub task_count : ℕ
  pub output : String
  pub result : String
  pub error : String
  pub defaults : Option JobDefaults
  pub webhooks : List Webhook
  pub permissions : List Permission
  pub auto_delete : Option AutoDelete
  pub delete_at : Option Time
  pub secrets : Dict String
  pub progress : ℕ
  pub schedule : Option JobSchedule

pub record ScheduledJob : Type 0 where
  pub id : String
  pub name : String
  pub description : String
  pub cron : String
  pub state : ScheduledJobState
  pub inputs : Dict String
  pub tasks : List Task
  pub created_by : Option User
  pub defaults : Option JobDefaults
  pub auto_delete : Option AutoDelete
  pub webhooks : List Webhook
  pub permissions : List Permission
  pub created_at : Time
  pub tags : List String
  pub secrets : Dict String
  pub output : String

pub record JobSummary : Type 0 where
  pub id : String
  pub created_by : Option User
  pub parent_id : String
  pub inputs : Dict String
  pub name : String
  pub description : String
  pub tags : List String
  pub state : JobState
  pub created_at : Time
  pub started_at : Option Time
  pub completed_at : Option Time
  pub failed_at : Option Time
  pub position : ℕ
  pub task_count : ℕ
  pub result : String
  pub error : String
  pub progress : ℕ
  pub schedule : Option JobSchedule

unfoldable pub new_job_summary : Job → JobSummary
new_job_summary j = record {
  id = j.id;
  created_by = j.created_by;
  parent_id = j.parent_id;
  name = j.name;
  description = j.description;
  tags = j.tags;
  inputs = j.inputs;
  state = j.state;
  created_at = j.created_at;
  started_at = j.started_at;
  completed_at = j.completed_at;
  failed_at = j.failed_at;
  position = j.position;
  task_count = j.task_count;
  result = j.result;
  error = j.error;
  progress = j.progress;
  schedule = j.schedule;
}
