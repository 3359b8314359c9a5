-- ===== src/Job/Clone.antt =====
-- `Job.Clone`, `ScheduledJob.Clone` and the `Clone` methods of the parts of a job, in job.go.
-- `none` is the panic of `Permission.Clone`.
use mathlib.Core.List.{map}
use mathlib.Core.Option
use tork.Prelude.{◌≡◌, refl, ap, Option, none, some, List, [], ◌∷◌, All, arith, ◌⊎◌, ◌≢◌}
use tork.User.{User, Permission}
use tork.User.Clone.{clone_user, clone_permission, clone_permissions}
use tork.Task.{Task}
use tork.Task.Clone
use tork.Task.Clone.{
  clone_retry, clone_limits, clone_auto_delete, clone_webhook, map-eq_self, list_map-eq_self,
  clone_webhooks-eq,
}
use tork.Job.{JobSchedule, JobContext, JobDefaults, Job, ScheduledJob}

clone_schedule : JobSchedule → JobSchedule
clone_schedule s = record { id = s.id; cron = s.cron }

clone_context : JobContext → JobContext
clone_context c = record { inputs = c.inputs; secrets = c.secrets; tasks = c.tasks; job = c.job }

clone_defaults : JobDefaults → JobDefaults
unfolding clone_retry clone_limits
clone_defaults d = record {
  limits = Option.map clone_limits d.limits;
  retry = Option.map clone_retry d.retry;
  queue = d.queue;
  timeout = d.timeout;
  priority = d.priority;
}

-- `CloneTasks` on a list that no task holds.
clone_tasks : List Task → List Task
clone_tasks ts = map Clone.clone ts

-- `DeleteAt` is not among the copied fields, so the copy has the zero value.
unfoldable pub clone : Job → Option Job
unfolding clone_schedule clone_context clone_defaults clone_tasks clone_permissions
clone j = Option.bind (clone_permissions j.permissions) λ perms. some (record {
  id = j.id;
  name = j.name;
  description = j.description;
  tags = j.tags;
  state = j.state;
  created_at = j.created_at;
  created_by = Option.map clone_user j.created_by;
  started_at = j.started_at;
  completed_at = j.completed_at;
  failed_at = j.failed_at;
  tasks = clone_tasks j.tasks;
  execution = clone_tasks j.execution;
  position = j.position;
  inputs = j.inputs;
  secrets = j.secrets;
  context = clone_context j.context;
  parent_id = j.parent_id;
  task_count = j.task_count;
  output = j.output;
  result = j.result;
  error = j.error;
  defaults = Option.map clone_defaults j.defaults;
  webhooks = map clone_webhook j.webhooks;
  permissions = perms;
  auto_delete = Option.map clone_auto_delete j.auto_delete;
  progress = j.progress;
  schedule = Option.map clone_schedule j.schedule;
  delete_at = none;
})

unfoldable pub clone_scheduled_job : ScheduledJob → Option ScheduledJob
unfolding clone_defaults clone_tasks clone_permissions
clone_scheduled_job j = Option.bind (clone_permissions j.permissions) λ perms. some (record {
  id = j.id;
  cron = j.cron;
  name = j.name;
  description = j.description;
  tags = j.tags;
  created_at = j.created_at;
  created_by = Option.map clone_user j.created_by;
  tasks = clone_tasks j.tasks;
  inputs = j.inputs;
  secrets = j.secrets;
  output = j.output;
  defaults = Option.map clone_defaults j.defaults;
  webhooks = map clone_webhook j.webhooks;
  permissions = perms;
  auto_delete = Option.map clone_auto_delete j.auto_delete;
  state = j.state;
})

-- A permission names a role or a user, and not both; a user carries no clear-text password.
abbrev pub IsClean : Permission → Type 0
IsClean p =
    (p.role ≢ none) × (p.user ≡ none)
    ⊎ (p.role ≡ none) × ((u : User) × (p.user ≡ some u) × (u.password ≡ ""))

abbrev pub HasNoPassword : Option User → Type 0
HasNoPassword none = Unit
HasNoPassword (some u) = u.password ≡ ""

clone_user-eq : (u : User) → u.password ≡ "" → clone_user u ≡ u
unfolding clone_user
clone_user-eq u h = ground arith

created_by-eq : (o : Option User) → HasNoPassword o → Option.map clone_user o ≡ o
created_by-eq none h = refl
created_by-eq (some u) h = ap some (clone_user-eq u h)

clone_permission-eq : (p : Permission) → IsClean p → clone_permission p ≡ some p
unfolding clone_permission clone_user
clone_permission-eq p h = ground arith

clone_permissions-eq : (ps : List Permission) → All IsClean ps → clone_permissions ps ≡ some ps
unfolding clone_permissions
clone_permissions-eq [] h = refl
clone_permissions-eq (p ∷ ps) h = rw (clone_permission-eq p h.0) (rw (clone_permissions-eq ps h.1))

clone_defaults-eq : (d : JobDefaults) → clone_defaults d ≡ d
unfolding clone_defaults
clone_defaults-eq d = λ k. record d {
  limits = map-eq_self clone_limits (λ l. refl) d.limits k;
  retry = map-eq_self clone_retry (λ r. refl) d.retry k;
}

clone_tasks-eq : (ts : List Task) → clone_tasks ts ≡ ts
unfolding clone_tasks
clone_tasks-eq ts = list_map-eq_self Clone.clone Clone.clone-eq ts

-- A job whose permissions each name a role or else a user, and whose users carry no clear-text
-- password, is cloned whole but for its deletion time, which the copy has not.
pub clone-eq_kept :
    (j : Job)
    → All IsClean j.permissions
    → HasNoPassword j.created_by
    → clone j ≡ some (record j { delete_at = none })
unfolding clone Option.bind clone_auto_delete
clone-eq_kept j perms user = rw (clone_permissions-eq j.permissions perms) λ k. some (record j {
  created_by = created_by-eq j.created_by user k;
  tasks = clone_tasks-eq j.tasks k;
  execution = clone_tasks-eq j.execution k;
  defaults = map-eq_self clone_defaults clone_defaults-eq j.defaults k;
  webhooks = clone_webhooks-eq j.webhooks k;
  auto_delete = map-eq_self clone_auto_delete (λ a. refl) j.auto_delete k;
  schedule = map-eq_self clone_schedule (λ s. refl) j.schedule k;
  delete_at = none;
})

-- A scheduled job under the same conditions is cloned whole.
pub clone_scheduled_job-eq :
    (j : ScheduledJob)
    → All IsClean j.permissions
    → HasNoPassword j.created_by
    → clone_scheduled_job j ≡ some j
unfolding clone_scheduled_job Option.bind clone_auto_delete
clone_scheduled_job-eq j perms user = rw (clone_permissions-eq j.permissions perms) λ k.
    some (record j {
      created_by = created_by-eq j.created_by user k;
      tasks = clone_tasks-eq j.tasks k;
      defaults = map-eq_self clone_defaults clone_defaults-eq j.defaults k;
      webhooks = clone_webhooks-eq j.webhooks k;
      auto_delete = map-eq_self clone_auto_delete (λ a. refl) j.auto_delete k;
    })
