-- ===== src/Task/Clone.antt =====
-- The `Clone` methods of task.go, with the webhook and auto-delete ones of job.go that they call.
-- Values have no identity here, so a copy is right when it is equal to the original.
use mathlib.Core.List.{map}
use mathlib.Core.Option
use tork.Prelude.{◌≡◌, refl, ap, ap₂, Option, none, some, List, [], ◌∷◌}
use tork.Task.{
  TaskRetry, TaskLimits, Registry, Webhook, AutoDelete, TaskInfo, EachInfo, SubJobInfo, TaskNode,
  TaskNodes, ParallelTask, EachTask, SubJobTask, node, nil, cons, no_parallel, parallel_task,
  no_each, each_task, no_subjob, subjob_task, Task, to_node, of_node,
}

unfoldable pub clone_retry : TaskRetry → TaskRetry
clone_retry r = record { limit = r.limit; attempts = r.attempts }

unfoldable pub clone_limits : TaskLimits → TaskLimits
clone_limits l = record { cpus = l.cpus; memory = l.memory }

clone_registry : Registry → Registry
clone_registry r = record { username = r.username; password = r.password }

unfoldable pub clone_auto_delete : AutoDelete → AutoDelete
clone_auto_delete a = record { after = a.after }

unfoldable pub clone_webhook : Webhook → Webhook
clone_webhook w = record { url = w.url; headers = w.headers; event = w.event; if_ = w.if_ }

clone_info : TaskInfo → TaskInfo
unfolding clone_retry clone_limits clone_registry
clone_info t = record {
  id = t.id;
  job_id = t.job_id;
  parent_id = t.parent_id;
  position = t.position;
  name = t.name;
  state = t.state;
  created_at = t.created_at;
  scheduled_at = t.scheduled_at;
  started_at = t.started_at;
  completed_at = t.completed_at;
  failed_at = t.failed_at;
  cmd = t.cmd;
  entrypoint = t.entrypoint;
  run = t.run;
  image = t.image;
  registry = Option.map clone_registry t.registry;
  env = t.env;
  files = t.files;
  queue = t.queue;
  error = t.error;
  mounts = t.mounts;
  networks = t.networks;
  node_id = t.node_id;
  retry = Option.map clone_retry t.retry;
  limits = Option.map clone_limits t.limits;
  timeout = t.timeout;
  result = t.result;
  var = t.var;
  if_ = t.if_;
  description = t.description;
  gpus = t.gpus;
  tags = t.tags;
  workdir = t.workdir;
  priority = t.priority;
  progress = t.progress;
}

clone_each_info : EachInfo → EachInfo
clone_each_info e = record {
  var = e.var;
  list = e.list;
  size = e.size;
  completions = e.completions;
  concurrency = e.concurrency;
  index = e.index;
}

clone_subjob_info : SubJobInfo → SubJobInfo
unfolding clone_auto_delete clone_webhook
clone_subjob_info s = record {
  id = s.id;
  name = s.name;
  description = s.description;
  inputs = s.inputs;
  secrets = s.secrets;
  auto_delete = Option.map clone_auto_delete s.auto_delete;
  output = s.output;
  detached = s.detached;
  webhooks = map clone_webhook s.webhooks;
}

unfoldable mutual
  unfolding clone_info clone_each_info clone_subjob_info

  pub clone_node : TaskNode → TaskNode
  clone_node (node i pre post parallel each subjob) =
      node (clone_info i) (clone_nodes pre) (clone_nodes post) (clone_parallel parallel)
        (clone_each each) (clone_subjob subjob)

  pub clone_nodes : TaskNodes → TaskNodes
  clone_nodes nil = nil
  clone_nodes (cons n ns) = cons (clone_node n) (clone_nodes ns)

  pub clone_parallel : ParallelTask → ParallelTask
  clone_parallel no_parallel = no_parallel
  clone_parallel (parallel_task tasks completions) = parallel_task (clone_nodes tasks) completions

  pub clone_each : EachTask → EachTask
  clone_each no_each = no_each
  clone_each (each_task e n) = each_task (clone_each_info e) (clone_node n)

  pub clone_subjob : SubJobTask → SubJobTask
  clone_subjob no_subjob = no_subjob
  clone_subjob (subjob_task s tasks) = subjob_task (clone_subjob_info s) (clone_nodes tasks)

unfoldable pub clone : Task → Task
unfolding clone_node
clone t = of_node (clone_node (to_node t))

pub map-eq_self {ℓ} :
    {A : Type ℓ} (f : A → A) → ((a : A) → f a ≡ a) → (o : Option A) → Option.map f o ≡ o
map-eq_self f h none = refl
map-eq_self f h (some a) = ap some (h a)

pub list_map-eq_self {ℓ} :
    {A : Type ℓ} (f : A → A) → ((a : A) → f a ≡ a) → (l : List A) → map f l ≡ l
list_map-eq_self f h [] = refl
list_map-eq_self f h (a ∷ l) = ap₂ ◌∷◌ (h a) (list_map-eq_self f h l)

clone_info-eq : (i : TaskInfo) → clone_info i ≡ i
unfolding clone_info
clone_info-eq i = λ k. record i {
  registry = map-eq_self clone_registry (λ r. refl) i.registry k;
  retry = map-eq_self clone_retry (λ r. refl) i.retry k;
  limits = map-eq_self clone_limits (λ l. refl) i.limits k;
}

pub clone_webhooks-eq : (l : List Webhook) → map clone_webhook l ≡ l
unfolding clone_webhook
clone_webhooks-eq l = list_map-eq_self clone_webhook (λ w. refl) l

clone_subjob_info-eq : (s : SubJobInfo) → clone_subjob_info s ≡ s
unfolding clone_subjob_info
clone_subjob_info-eq s = λ k. record s {
  auto_delete = map-eq_self clone_auto_delete (λ a. refl) s.auto_delete k;
  webhooks = clone_webhooks-eq s.webhooks k;
}

mutual
  unfolding clone_node clone_each_info

  node-eq : (n : TaskNode) → clone_node n ≡ n
  node-eq (node i pre post parallel each subjob) = λ k.
      node (clone_info-eq i k) (nodes-eq pre k) (nodes-eq post k) (parallel-eq parallel k)
        (each-eq each k) (subjob-eq subjob k)

  nodes-eq : (ns : TaskNodes) → clone_nodes ns ≡ ns
  nodes-eq nil = refl
  nodes-eq (cons n ns) = ap₂ cons (node-eq n) (nodes-eq ns)

  parallel-eq : (p : ParallelTask) → clone_parallel p ≡ p
  parallel-eq no_parallel = refl
  parallel-eq (parallel_task tasks completions) = λ k. parallel_task (nodes-eq tasks k) completions

  each-eq : (e : EachTask) → clone_each e ≡ e
  each-eq no_each = refl
  each-eq (each_task e n) = λ k. each_task e (node-eq n k)

  subjob-eq : (s : SubJobTask) → clone_subjob s ≡ s
  subjob-eq no_subjob = refl
  subjob-eq (subjob_task s tasks) = λ k. subjob_task (clone_subjob_info-eq s k) (nodes-eq tasks k)

-- A list of tasks inside a task is copied whole.
pub clone_nodes-eq : (ns : TaskNodes) → clone_nodes ns ≡ ns
clone_nodes-eq ns = nodes-eq ns

-- `Task.Clone` copies every field of a task, at every depth: pre and post tasks, parallel tasks,
-- the task of an each, and the tasks of a sub-job.
pub clone-eq : (t : Task) → clone t ≡ t
unfolding clone
clone-eq t = ap of_node (node-eq (to_node t))
