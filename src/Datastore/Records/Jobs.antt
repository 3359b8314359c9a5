-- ===== src/Datastore/Records/Jobs.antt =====
-- Rows of jobs: `toJob` of datastore/postgres/record.go, and the columns that `CreateJob` of
-- datastore/postgres/postgres.go writes. A nil map or slice is the empty one. The column `ts`, which the
-- database fills for the text search, is left out.
use tork.Prelude.{ℕ, String, Option, none, some, List, [], ◌∷◌, Dict, str_eq, if◌then◌else◌}
use tork.User.{Time, User, Permission}
use tork.Task.{Webhook, AutoDelete, Task}
use tork.Job.{JobState, JobSchedule, JobContext, JobDefaults, Job}
use tork.Eval
use tork.Datastore.Records.{Codec, Fallible, ◌>>=◌, column, read, is_none, is_empty}
pub mod Kept

pub record Codecs : Type 0 where
  pub texts : Codec (Dict String)
  pub tasks : Codec (List Task)
  pub context : Codec JobContext
  pub defaults : Codec (Option JobDefaults)
  pub webhooks : Codec (List Webhook)
  pub auto_delete : Codec (Option AutoDelete)

pub record JobRecord : Type 0 where
  pub id : String
  pub name : String
  pub description : String
  pub tags : List String
  pub state : JobState
  pub created_at : Time
  pub created_by : String
  pub started_at : Option Time
  pub completed_at : Option Time
  pub failed_at : Option Time
  pub delete_at : Option Time
  pub tasks : String
  pub position : ℕ
  pub inputs : String
  pub context : String
  pub parent_id : String
  pub task_count : ℕ
  pub output : String
  pub result : String
  pub error : String
  pub defaults : Option String
  pub webhooks : Option String
  pub auto_delete : Option String
  pub secrets : Option String
  pub progress : ℕ
  pub scheduled_job_id : Option String

-- A column that is read even when it has no text.
unfoldable pub required : {A : Type 0} → Codec A → Option String → Fallible A
required c none = Eval.Result.err "unexpected end of JSON input"
required c (some s) = c.decode s

unfoldable pub schedule_of : Option String → Option JobSchedule
schedule_of none = none
schedule_of (some id) = some (record { id = id; cron = "" })

-- The reference to the scheduled job that a job comes from.
unfoldable pub scheduled_id : Option JobSchedule → Option String
scheduled_id none = none
scheduled_id (some s) = if str_eq s.id "" then none else some s.id

module _ (c : Codecs) where
  -- `tasks` is the column of that name, which the callers read.
  unfoldable pub to_job :
      JobRecord → List Task → List Task → Option User → List Permission → Fallible Job
  unfolding read required schedule_of
  to_job r tasks execution created_by permissions = do
    context ← c.context.decode r.context
    inputs ← c.texts.decode r.inputs
    defaults ← read c.defaults none r.defaults
    auto_delete ← read c.auto_delete none r.auto_delete
    webhooks ← required c.webhooks r.webhooks
    secrets ← read c.texts [] r.secrets
    Eval.Result.ok (record {
      id = r.id;
      name = r.name;
      tags = r.tags;
      state = r.state;
      created_at = r.created_at;
      created_by = created_by;
      started_at = r.started_at;
      completed_at = r.completed_at;
      failed_at = r.failed_at;
      tasks = tasks;
      execution = execution;
      position = r.position;
      context = context;
      inputs = inputs;
      description = r.description;
      parent_id = r.parent_id;
      task_count = r.task_count;
      output = r.output;
      result = r.result;
      error = r.error;
      defaults = defaults;
      webhooks = webhooks;
      permissions = permissions;
      auto_delete = auto_delete;
      delete_at = r.delete_at;
      secrets = secrets;
      progress = r.progress;
      schedule = schedule_of r.scheduled_job_id;
    })

  -- The columns of a new job with this creator. The times of its end, of its failure and of its
  -- deletion are not among them, nor is the progress, which is 0 by default.
  unfoldable pub record_of : Job → User → Fallible JobRecord
  unfolding column is_none is_empty scheduled_id
  record_of j creator = do
    tasks ← c.tasks.encode j.tasks
    context ← c.context.encode j.context
    inputs ← c.texts.encode j.inputs
    defaults ← column c.defaults (is_none j.defaults) j.defaults
    auto_delete ← column c.auto_delete (is_none j.auto_delete) j.auto_delete
    webhooks ← c.webhooks.encode j.webhooks
    secrets ← column c.texts (is_empty j.secrets) j.secrets
    Eval.Result.ok (record {
      id = j.id;
      name = j.name;
      description = j.description;
      tags = j.tags;
      state = j.state;
      created_at = j.created_at;
      created_by = creator.id;
      started_at = j.started_at;
      completed_at = none;
      failed_at = none;
      delete_at = none;
      tasks = tasks;
      position = j.position;
      inputs = inputs;
      context = context;
      parent_id = j.parent_id;
      task_count = j.task_count;
      output = j.output;
      result = j.result;
      error = j.error;
      defaults = defaults;
      webhooks = some webhooks;
      auto_delete = auto_delete;
      secrets = secrets;
      progress = 0;
      scheduled_job_id = scheduled_id j.schedule;
    })

-- The job as it is read back.
abbrev pub kept : Job → List Task → Option User → List Permission → Job
kept j execution created_by permissions = record j {
  created_by = created_by;
  completed_at = none;
  failed_at = none;
  delete_at = none;
  execution = execution;
  permissions = permissions;
  progress = 0;
  schedule = schedule_of (scheduled_id j.schedule);
}
