-- ===== src/Input/ToJob.antt =====
-- input/job.go: `ToJob` and `ToScheduledJob`
use mathlib.Core.List.{map}
use mathlib.Core.Option
use tork.Prelude.{String, false, none, some, [], ◌∷◌, length, str_eq, if◌then◌else◌}
use tork.User.{Role, User, Permission}
use tork.Job.{JobState, ScheduledJobState, JobDefaults, Job, ScheduledJob}
use tork.Exec.{Env, M, panic, pure, need, ◌>>=◌, time_now, new_uuid}
use tork.Input.{PermissionInput, DefaultsInput, JobInput, ScheduledJobInput}
use tork.Input.ToTask.{to_task_retry, to_task_limits, to_webhook, to_auto_delete, to_task}

unfoldable pub to_job_defaults : DefaultsInput → JobDefaults
to_job_defaults d = record {
  retry = Option.map to_task_retry d.retry;
  limits = Option.map to_task_limits d.limits;
  timeout = d.timeout;
  queue = d.queue;
  priority = d.priority;
}

abbrev pub role_of : String → Role
role_of slug = record { id = ""; slug = slug; name = ""; created_at = none }

abbrev pub user_of : String → User
user_of username = record {
  id = "";
  name = "";
  username = username;
  password_hash = "";
  password = "";
  created_at = none;
  disabled = false;
}

unfoldable pub to_permission : PermissionInput → Permission
to_permission p =
    if str_eq p.role ""
    then record { role = none; user = some (user_of p.user) }
    else record { role = some (role_of p.role); user = none }

-- `ID`
unfoldable pub id_or_new : Env → String → M String
id_or_new env id = if str_eq id "" then new_uuid env else pure id

module _ (env : Env) where
  unfoldable pub to_job : JobInput → M Job
  unfolding to_job_defaults to_permission id_or_new to_task
  to_job i = do
    now ← time_now env
    id ← id_or_new env i.id
    pure (record {
      id = id;
      parent_id = "";
      name = i.name;
      description = i.description;
      tags = i.tags;
      state = JobState.pending;
      created_at = now;
      created_by = none;
      started_at = none;
      completed_at = none;
      failed_at = none;
      tasks = map to_task i.tasks;
      execution = [];
      position = 0;
      inputs = i.inputs;
      context = record {
        job = ("id", id) ∷ ("name", i.name) ∷ [];
        inputs = i.inputs;
        secrets = i.secrets;
        tasks = [];
      };
      task_count = length i.tasks;
      output = i.output;
      result = "";
      error = "";
      defaults = Option.map to_job_defaults i.defaults;
      webhooks = map to_webhook i.webhooks;
      permissions = map to_permission i.permissions;
      auto_delete = Option.map to_auto_delete i.auto_delete;
      delete_at = none;
      secrets = i.secrets;
      progress = 0;
      schedule = none;
    })

  -- The schedule is read at the end, and has to be there.
  unfoldable pub to_scheduled_job : ScheduledJobInput → M ScheduledJob
  unfolding to_job_defaults to_permission id_or_new to_task
  to_scheduled_job i = do
    now ← time_now env
    id ← id_or_new env i.id
    cron ← need i.cron panic
    pure (record {
      id = id;
      name = i.name;
      description = i.description;
      cron = cron;
      state = ScheduledJobState.active;
      inputs = i.inputs;
      tasks = map to_task i.tasks;
      created_by = none;
      defaults = Option.map to_job_defaults i.defaults;
      auto_delete = Option.map to_auto_delete i.auto_delete;
      webhooks = map to_webhook i.webhooks;
      permissions = map to_permission i.permissions;
      created_at = now;
      tags = i.tags;
      secrets = i.secrets;
      output = i.output;
    })
