-- ===== src/Datastore/Records/Tasks.antt =====
-- Rows of tasks: `toTask` of datastore/postgres/record.go, and the columns that `CreateTask` of
-- datastore/postgres/postgres.go writes. A nil map or slice is the empty one. The field for a column
-- `subjob_id`, which the table does not have, is left out.
use tork.Prelude.{ℕ, String, Bool, true, false, Option, none, some, List, [], ◌∷◌, Dict}
pub mod Kept
use tork.User.{Time}
use tork.Task.{
  TaskState, TaskInfo, TaskRetry, TaskLimits, Registry, Mount, Task, TaskNodes, nil, ParallelTask,
  no_parallel, parallel_task, EachTask, no_each, each_task, SubJobTask, no_subjob, subjob_task,
}
use tork.Eval
use tork.Datastore.Records.{Codec, Fallible, ◌>>=◌, column, read, is_none, is_empty}

pub record Codecs : Type 0 where
  pub texts : Codec (Dict String)
  pub tasks : Codec TaskNodes
  pub retry : Codec (Option TaskRetry)
  pub limits : Codec (Option TaskLimits)
  pub parallel : Codec ParallelTask
  pub each : Codec EachTask
  pub subjob : Codec SubJobTask
  pub registry : Codec (Option Registry)
  pub mounts : Codec (List Mount)

pub record TaskRecord : Type 0 where
  pub id : String
  pub job_id : String
  pub position : ℕ
  pub name : String
  pub description : String
  pub state : TaskState
  pub created_at : Time
  pub scheduled_at : Option Time
  pub started_at : Option Time
  pub completed_at : Option Time
  pub failed_at : Option Time
  pub cmd : List String
  pub entrypoint : List String
  pub run : String
  pub image : String
  pub queue : String
  pub error : String
  pub networks : List String
  pub node_id : String
  pub timeout : String
  pub var : String
  pub result : String
  pub parent_id : String
  pub gpus : String
  pub if_ : String
  pub tags : List String
  pub priority : ℕ
  pub workdir : String
  pub progress : ℕ
  pub env : Option String
  pub files : Option String
  pub pre : Option String
  pub post : Option String
  pub retry : Option String
  pub limits : Option String
  pub parallel : Option String
  pub each : Option String
  pub subjob : Option String
  pub registry : Option String
  pub mounts : Option String

unfoldable pub no_parallel_in : ParallelTask → Bool
no_parallel_in no_parallel = true
no_parallel_in (parallel_task ts n) = false

unfoldable pub no_each_in : EachTask → Bool
no_each_in no_each = true
no_each_in (each_task e n) = false

unfoldable pub no_subjob_in : SubJobTask → Bool
no_subjob_in no_subjob = true
no_subjob_in (subjob_task s ts) = false

-- The column of the time of creation holds no null.
unfoldable pub not_null : Option Time → Fallible Time
not_null none = Eval.Result.err "null value in column created_at"
not_null (some time) = Eval.Result.ok time

module _ (c : Codecs) where
  unfoldable pub to_task : TaskRecord → Fallible Task
  unfolding read
  to_task r = do
    env ← read c.texts [] r.env
    files ← read c.texts [] r.files
    pre ← read c.tasks nil r.pre
    post ← read c.tasks nil r.post
    retry ← read c.retry none r.retry
    limits ← read c.limits none r.limits
    parallel ← read c.parallel no_parallel r.parallel
    each ← read c.each no_each r.each
    subjob ← read c.subjob no_subjob r.subjob
    registry ← read c.registry none r.registry
    mounts ← read c.mounts [] r.mounts
    Eval.Result.ok (record {
      info = record {
        id = r.id;
        job_id = r.job_id;
        position = r.position;
        name = r.name;
        description = r.description;
        state = r.state;
        scheduled_at = r.scheduled_at;
        started_at = r.started_at;
        completed_at = r.completed_at;
        failed_at = r.failed_at;
        cmd = r.cmd;
        entrypoint = r.entrypoint;
        run = r.run;
        image = r.image;
        queue = r.queue;
        error = r.error;
        networks = r.networks;
        node_id = r.node_id;
        timeout = r.timeout;
        var = r.var;
        result = r.result;
        parent_id = r.parent_id;
        gpus = r.gpus;
        if_ = r.if_;
        tags = r.tags;
        priority = r.priority;
        workdir = r.workdir;
        progress = r.progress;
        created_at = some r.created_at;
        env = env;
        files = files;
        retry = retry;
        limits = limits;
        registry = registry;
        mounts = mounts;
      };
      pre = pre;
      post = post;
      parallel = parallel;
      each = each;
      subjob = subjob;
    })

  -- The columns of a new task. The progress is not among them, and is 0 by default. `sanitize` takes
  -- NUL characters out.
  module _ (sanitize : String → String) where
    unfoldable pub record_of : Task → Fallible TaskRecord
    unfolding column is_none is_empty no_parallel_in no_each_in no_subjob_in not_null
    record_of t = do
      env ← column c.texts (is_empty t.env) t.env
      files ← column c.texts (is_empty t.files) t.files
      pre ← column c.tasks (false) t.pre
      post ← column c.tasks (false) t.post
      retry ← column c.retry (is_none t.retry) t.retry
      limits ← column c.limits (is_none t.limits) t.limits
      parallel ← column c.parallel (no_parallel_in t.parallel) t.parallel
      each ← column c.each (no_each_in t.each) t.each
      subjob ← column c.subjob (no_subjob_in t.subjob) t.subjob
      registry ← column c.registry (is_none t.registry) t.registry
      mounts ← column c.mounts (is_empty t.mounts) t.mounts
      created_at ← not_null t.created_at
      Eval.Result.ok (record {
        id = t.id;
        job_id = t.job_id;
        position = t.position;
        name = t.name;
        description = t.description;
        state = t.state;
        scheduled_at = t.scheduled_at;
        started_at = t.started_at;
        completed_at = t.completed_at;
        failed_at = t.failed_at;
        cmd = t.cmd;
        entrypoint = t.entrypoint;
        run = t.run;
        image = t.image;
        queue = t.queue;
        error = sanitize t.error;
        networks = t.networks;
        node_id = t.node_id;
        timeout = t.timeout;
        var = t.var;
        result = sanitize t.result;
        parent_id = t.parent_id;
        gpus = t.gpus;
        if_ = t.if_;
        tags = t.tags;
        priority = t.priority;
        workdir = t.workdir;
        created_at = created_at;
        progress = 0;
        env = env;
        files = files;
        pre = pre;
        post = post;
        retry = retry;
        limits = limits;
        parallel = parallel;
        each = each;
        subjob = subjob;
        registry = registry;
        mounts = mounts;
      })

    -- The task as it is read back.
    abbrev pub kept : Task → Task
    kept t = record t {
      info = record t.info { progress = 0; error = sanitize t.error; result = sanitize t.result };
    }
