-- ===== src/Input/ToTask.antt =====
-- input/task.go: `toTask` and the conversions it calls. What the Go code does not set is the zero
-- value of its type.
use mathlib.Core.List.{map}
use mathlib.Core.Option
use tork.Prelude.{none, List, [], ◌∷◌}
use tork.Task.{
  TaskState, TaskRetry, TaskLimits, Registry, Mount, Webhook, AutoDelete, TaskInfo, EachInfo,
  SubJobInfo, TaskNode, TaskNodes, ParallelTask, EachTask, SubJobTask, node, nil, cons, no_parallel,
  parallel_task, no_each, each_task, no_subjob, subjob_task, Task, of_node,
}
use tork.Input.{
  RetryInput, MountInput, AuxTask, TaskFields, EachFields, SubJobFields, TaskInput, TaskInputs,
  ParallelInput, EachInput, SubJobInput, task_input, no_tasks, a_task, no_parallel_input,
  parallel_input, no_each_input, each_input, no_subjob_input, subjob_input,
}

abbrev pub to_mount : MountInput → Mount
to_mount m = record { id = ""; type = m.type; source = m.source; target = m.target }

abbrev pub to_task_retry : RetryInput → TaskRetry
to_task_retry r = record { limit = r.limit; attempts = 0 }

abbrev pub to_task_limits : TaskLimits → TaskLimits
to_task_limits l = record { cpus = l.cpus; memory = l.memory }

abbrev pub to_registry : Registry → Registry
to_registry r = record { username = r.username; password = r.password }

abbrev pub to_webhook : Webhook → Webhook
to_webhook w = record { url = w.url; headers = w.headers; event = w.event; if_ = w.if_ }

abbrev pub to_auto_delete : AutoDelete → AutoDelete
to_auto_delete a = record { after = a.after }

-- The zero value of `tork.Task`.
abbrev pub zero_info : TaskInfo
zero_info = record {
  id = "";
  job_id = "";
  parent_id = "";
  position = 0;
  name = "";
  description = "";
  state = TaskState.other "";
  created_at = none;
  scheduled_at = none;
  started_at = none;
  completed_at = none;
  failed_at = none;
  cmd = [];
  entrypoint = [];
  run = "";
  image = "";
  registry = none;
  env = [];
  files = [];
  queue = "";
  error = "";
  mounts = [];
  networks = [];
  node_id = "";
  retry = none;
  limits = none;
  timeout = "";
  result = "";
  var = "";
  if_ = "";
  gpus = "";
  tags = [];
  workdir = "";
  priority = 0;
  progress = 0;
}

-- `toTask` of an `AuxTask`
abbrev pub aux_to_task : AuxTask → TaskNode
aux_to_task i =
    node
      (record zero_info {
        name = i.name;
        description = i.description;
        cmd = i.cmd;
        entrypoint = i.entrypoint;
        run = i.run;
        image = i.image;
        env = i.env;
        timeout = i.timeout;
        files = i.files;
        registry = Option.map to_registry i.registry;
      })
      nil nil no_parallel no_each no_subjob

abbrev pub to_aux_tasks : List AuxTask → TaskNodes
to_aux_tasks [] = nil
to_aux_tasks (i ∷ is) = cons (aux_to_task i) (to_aux_tasks is)

-- The fields of the task that hold no task.
unfoldable pub to_info : TaskFields → TaskInfo
to_info i = record zero_info {
  name = i.name;
  description = i.description;
  cmd = i.cmd;
  entrypoint = i.entrypoint;
  run = i.run;
  image = i.image;
  registry = Option.map to_registry i.registry;
  env = i.env;
  files = i.files;
  queue = i.queue;
  mounts = map to_mount i.mounts;
  networks = i.networks;
  retry = Option.map to_task_retry i.retry;
  limits = Option.map to_task_limits i.limits;
  timeout = i.timeout;
  var = i.var;
  if_ = i.if_;
  gpus = i.gpus;
  tags = i.tags;
  workdir = i.workdir;
  priority = i.priority;
}

abbrev pub to_each_info : EachFields → EachInfo
to_each_info e = record {
  var = e.var;
  list = e.list;
  size = 0;
  completions = 0;
  concurrency = e.concurrency;
  index = 0;
}

-- The identifier of the input is not kept: the scheduler sets it.
abbrev pub to_subjob_info : SubJobFields → SubJobInfo
to_subjob_info s = record {
  id = "";
  name = s.name;
  description = s.description;
  inputs = s.inputs;
  secrets = s.secrets;
  auto_delete = Option.map to_auto_delete s.auto_delete;
  output = s.output;
  detached = s.detached;
  webhooks = map to_webhook s.webhooks;
}

-- `toTask` of a `Task`
unfoldable mutual
  unfolding to_info

  pub to_task_node : TaskInput → TaskNode
  to_task_node (task_input i parallel each subjob) =
      node (to_info i) (to_aux_tasks i.pre) (to_aux_tasks i.post) (to_parallel parallel)
        (to_each each) (to_subjob subjob)

  pub to_tasks : TaskInputs → TaskNodes
  to_tasks no_tasks = nil
  to_tasks (a_task i is) = cons (to_task_node i) (to_tasks is)

  pub to_parallel : ParallelInput → ParallelTask
  to_parallel no_parallel_input = no_parallel
  to_parallel (parallel_input tasks) = parallel_task (to_tasks tasks) 0

  pub to_each : EachInput → EachTask
  to_each no_each_input = no_each
  to_each (each_input e task) = each_task (to_each_info e) (to_task_node task)

  pub to_subjob : SubJobInput → SubJobTask
  to_subjob no_subjob_input = no_subjob
  to_subjob (subjob_input s tasks) = subjob_task (to_subjob_info s) (to_tasks tasks)

unfoldable pub to_task : TaskInput → Task
unfolding to_task_node
to_task i = of_node (to_task_node i)
