-- ===== src/Scheduler/SubJob.antt =====
-- `scheduleSubJob` of internal/coordinator/scheduler/scheduler.go.
use tork.Prelude.{String, none, some, [], length, if◌then◌else◌}
use tork.User.{Time}
use tork.Task.{TaskState, SubJobInfo, TaskNodes, subjob_task, no_subjob, Task, tasks_of}
use tork.Job.{JobState, Job}
use tork.Broker.Queues.{queue_completed}
use tork.Exec.{
  Env, M, panic, pure, fail, ◌>>=◌, ◌>>◌, time_now, new_uuid, publish_task, publish_job,
}
use tork.Datastore.{get_job, update_task, create_job}

-- `u.SubJob.ID = …` at a task with no sub-job is a panic.
unfoldable pub mark_subjob : Time → String → Task → M Task
mark_subjob now subjob_id u = elim u.subjob [
  | no_subjob ↦ fail panic
  | subjob_task s tasks ↦ pure (record u {
    info = record u.info {
      state = TaskState.running;
      scheduled_at = some now;
      started_at = some now;
    };
    subjob = subjob_task (record s { id = subjob_id }) tasks;
  })
]

-- The job that a sub-job task stands for; only an attached one knows its parent task and gets
-- the secrets into its context.
unfoldable pub subjob_of : Job → SubJobInfo → TaskNodes → String → Time → Job
subjob_of job s tasks id now = record {
  id = id;
  parent_id = "";
  name = s.name;
  description = s.description;
  tags = [];
  state = JobState.pending;
  created_at = now;
  created_by = job.created_by;
  started_at = none;
  completed_at = none;
  failed_at = none;
  tasks = tasks_of tasks;
  execution = [];
  position = 0;
  inputs = s.inputs;
  context = record { job = []; inputs = s.inputs; secrets = []; tasks = [] };
  task_count = length (tasks_of tasks);
  output = s.output;
  result = "";
  error = "";
  defaults = none;
  webhooks = s.webhooks;
  permissions = job.permissions;
  auto_delete = s.auto_delete;
  delete_at = none;
  secrets = s.secrets;
  progress = 0;
  schedule = none;
}

module _ (env : Env) where
  unfoldable pub schedule_attached_subjob : Task → SubJobInfo → TaskNodes → M (Unit {0})
  unfolding get_job update_task create_job mark_subjob subjob_of
  schedule_attached_subjob t s tasks = do
    job ← get_job t.job_id
    now ← time_now env
    id ← new_uuid env
    let detached = subjob_of job s tasks id now
    let subjob = record detached {
      parent_id = t.id;
      context = record detached.context { secrets = s.secrets };
    }
    update_task t.id (mark_subjob now id)
    created ← create_job env subjob
    publish_job created

  unfoldable pub schedule_detached_subjob : Task → SubJobInfo → TaskNodes → M (Unit {0})
  unfolding get_job update_task create_job mark_subjob subjob_of
  schedule_detached_subjob t s tasks = do
    job ← get_job t.job_id
    now ← time_now env
    id ← new_uuid env
    created ← create_job env (subjob_of job s tasks id now)
    publish_job created
    update_task t.id (mark_subjob now id)
    publish_task queue_completed
        (record t { info = record t.info { completed_at = some now; state = TaskState.completed } })

  unfoldable pub schedule_subjob : Task → SubJobInfo → TaskNodes → M (Unit {0})
  unfolding schedule_attached_subjob schedule_detached_subjob
  schedule_subjob t s tasks =
      if s.detached then schedule_detached_subjob t s tasks else schedule_attached_subjob t s tasks
