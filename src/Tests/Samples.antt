-- ===== src/Tests/Samples.antt =====
-- A small world for the tests: a job of two tasks, a parallel task, an each, and a node.
use tork.Prelude.{◌+◌, String, false, some, none, List, [], ◌∷◌, str_eq, if◌then◌else◌}
use tork.User.{User}
use tork.Task.{
  TaskState, TaskInfo, Task, EachInfo, TaskNodes, parallel_task, each_task, no_parallel, no_each,
  no_subjob, nil, cons, to_node,
}
use tork.Job.{JobState, Job}
use tork.Node.{Node, NodeStatus}
use tork.Eval
use tork.Eval.{Evaluator, Value, Values, Match}
use tork.Exec.{Store, World, Env}

-- The fields of a task with no more than an identifier, its job, its parent and its state.
abbrev pub info_of : String → String → String → TaskState → TaskInfo
info_of id job parent state = record {
  id = id;
  job_id = job;
  parent_id = parent;
  position = 1;
  name = "";
  description = "";
  state = state;
  created_at = none;
  scheduled_at = none;
  started_at = none;
  completed_at = none;
  failed_at = none;
  cmd = [];
  entrypoint = [];
  run = "echo";
  image = "";
  registry = none;
  env = [];
  files = [];
  queue = "";
  error = "";
  mounts = [];
  networks = [];
  node_id = "";
  retry = none;
  limits = none;
  timeout = "";
  result = "";
  var = "";
  if_ = "";
  gpus = "";
  tags = [];
  workdir = "";
  priority = 0;
  progress = 0;
}

abbrev pub task_of : TaskInfo → Task
task_of i = record {
  info = i;
  pre = nil;
  post = nil;
  parallel = no_parallel;
  each = no_each;
  subjob = no_subjob;
}

-- A task as a worker sends it when it is done, and its row before.
abbrev pub done_task : Task
done_task = task_of (info_of "t1" "j1" "" TaskState.completed)

abbrev pub done_row : Task
done_row = task_of (info_of "t1" "j1" "" TaskState.running)

-- The same of a task inside another one.
abbrev pub done_member : Task
done_member = task_of (info_of "m1" "j1" "p1" TaskState.completed)

abbrev pub member_row : Task
member_row = task_of (info_of "m1" "j1" "p1" TaskState.running)

abbrev pub two_nodes : TaskNodes
two_nodes = cons (to_node done_row) (cons (to_node done_row) nil)

abbrev pub parallel_row : Task
parallel_row = record (task_of (info_of "p1" "j1" "" TaskState.running)) {
  parallel = parallel_task two_nodes 1;
}

-- An each over three items, two at a time, with no item complete.
abbrev pub three_items : EachInfo
three_items = record {
  var = "";
  list = "{{list}}";
  size = 3;
  completions = 0;
  concurrency = 2;
  index = 2;
}

-- An each with no bound on concurrency.
abbrev pub all_at_once : EachInfo
all_at_once = record three_items { concurrency = 0; index = 0; completions = 2 }

abbrev pub each_row : EachInfo → Task
each_row e = record (task_of (info_of "p1" "j1" "" TaskState.running)) {
  each = each_task e (to_node done_row);
}

abbrev pub waiting_row : Task
waiting_row = task_of (info_of "m3" "j1" "p1" TaskState.created)

abbrev pub failed_task : Task
failed_task = record done_task {
  info = record done_task.info {
    state = TaskState.failed;
    retry = some (record { limit = 2; attempts = 1 });
  };
}

abbrev pub two_task_job : Job
two_task_job = record {
  id = "j1";
  parent_id = "";
  name = "";
  description = "";
  tags = [];
  state = JobState.running;
  created_at = 0;
  created_by = none;
  started_at = none;
  completed_at = none;
  failed_at = none;
  tasks = done_row ∷ done_row ∷ [];
  execution = [];
  position = 1;
  inputs = [];
  context = record { job = []; inputs = []; secrets = []; tasks = [] };
  task_count = 2;
  output = "";
  result = "";
  error = "";
  defaults = none;
  webhooks = [];
  permissions = [];
  auto_delete = none;
  delete_at = none;
  secrets = [];
  progress = 0;
  schedule = none;
}

-- The job of a task, with an output that does not evaluate.
abbrev pub subjob : Job
subjob = record two_task_job { id = "s1"; parent_id = "p1"; output = "{{bad}}" }

abbrev pub worker : Node
worker = record {
  id = "n1";
  name = "";
  started_at = 0;
  cpu_percent = 0;
  last_heartbeat_at = 5;
  queue = "x-n1";
  status = NodeStatus.up;
  hostname = "h";
  port = 0;
  task_count = 0;
  version = "";
}

-- The only templates are "{{bad}}", which fails, and the whole text of any other expression is an
-- empty list.
abbrev pub evaluator : Evaluator
evaluator = record {
  find_all = λ s.
      if str_eq s "{{bad}}"
      then record { start_tag = 0; end_tag = 7; start_expr = 2; end_expr = 5 } ∷ []
      else [];
  submatch = λ s. none;
  run_expr = λ s c.
      if str_eq s "bad"
      then Eval.Result.err "no such name"
      else Eval.Result.ok (Value.slice_of Values.no_values);
  sprint = λ v. "";
}

abbrev pub user : User
user = record {
  id = "u1";
  name = "";
  username = "guest";
  password_hash = "";
  password = "";
  created_at = none;
  disabled = false;
}

abbrev pub env : Env
env = record {
  now = λ n. 100 + n;
  uuid = λ n. "new";
  evaluator = evaluator;
  deadline = λ t s. none;
  trim_space = λ s. s;
  decimal = λ n. "0";
  message = λ e. "";
  guest = user;
  sanitize = λ s. s;
}

abbrev pub store_of : List Task → List Job → Store
store_of tasks jobs = record {
  tasks = tasks;
  jobs = jobs;
  nodes = worker ∷ [];
  users = user ∷ [];
  roles = [];
  user_roles = [];
  log_parts = [];
  scheduled_jobs = [];
}

abbrev pub world_of : List Task → List Job → World
world_of tasks jobs = record {
  db = store_of tasks jobs;
  committed = store_of tasks jobs;
  sent = [];
  readings = 0;
  drawn = 0;
}
