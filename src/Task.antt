-- ===== src/Task.antt =====
-- task.go and mount.go: a task and its parts. A Go record holds lists of itself, and records here
-- are not recursive: a task that stands inside another one is a `TaskNode`, and `to_node` and
-- `of_node` pass between the two forms.
pub mod Clone
use tork.Prelude.{ℕ, String, Bool, false, true, Option, List, [], ◌∷◌, Dict, ◌≡◌, refl}
use tork.User.{Time}

-- `type TaskState = string`: the constants, and any other text, the zero value "" among them.
pub data TaskState : Type 0 where
  created pending scheduled running cancelled stopped completed failed skipped : TaskState
  other : String → TaskState

pub record TaskRetry : Type 0 where
  pub limit : ℕ
  pub attempts : ℕ

pub record TaskLimits : Type 0 where
  pub cpus : String
  pub memory : String

pub record Registry : Type 0 where
  pub username : String
  pub password : String

pub record Mount : Type 0 where
  pub id : String
  pub type : String
  pub source : String
  pub target : String

pub record Webhook : Type 0 where
  pub url : String
  pub headers : Dict String
  pub event : String
  pub if_ : String

pub record AutoDelete : Type 0 where
  pub after : String

-- The fields of `Task` that hold no task. Progress is in hundredths of a percent.
pub record TaskInfo : Type 0 where
  pub id : String
  pub job_id : String
  pub parent_id : String
  pub position : ℕ
  pub name : String
  pub description : String
  pub state : TaskState
  pub created_at : Option Time
  pub scheduled_at : Option Time
  pub started_at : Option Time
  pub completed_at : Option Time
  pub failed_at : Option Time
  pub cmd : List String
  pub entrypoint : List String
  pub run : String
  pub image : String
  pub registry : Option Registry
  pub env : Dict String
  pub files : Dict String
  pub queue : String
  pub error : String
  pub mounts : List Mount
  pub networks : List String
  pub node_id : String
  pub retry : Option TaskRetry
  pub limits : Option TaskLimits
  pub timeout : String
  pub result : String
  pub var : String
  pub if_ : String
  pub gpus : String
  pub tags : List String
  pub workdir : String
  pub priority : ℕ
  pub progress : ℕ

-- The fields of `EachTask` but its task.
pub record EachInfo : Type 0 where
  pub var : String
  pub list : String
  pub size : ℕ
  pub completions : ℕ
  pub concurrency : ℕ
  pub index : ℕ

-- The fields of `SubJobTask` but its tasks.
pub record SubJobInfo : Type 0 where
  pub id : String
  pub name : String
  pub description : String
  pub inputs : Dict String
  pub secrets : Dict String
  pub auto_delete : Option AutoDelete
  pub output : String
  pub detached : Bool
  pub webhooks : List Webhook

-- A part of what a task prints, numbered from 1.
pub record TaskLogPart : Type 0 where
  pub id : String
  pub number : ℕ
  pub task_id : String
  pub contents : String
  pub created_at : Option Time

-- A nil pointer is `no_parallel`, `no_each` or `no_subjob`.
mutual
  pub data TaskNode : Type 0 where
    node : TaskInfo → TaskNodes → TaskNodes → ParallelTask → EachTask → SubJobTask → TaskNode

  pub data TaskNodes : Type 0 where
    nil : TaskNodes
    cons : TaskNode → TaskNodes → TaskNodes

  pub data ParallelTask : Type 0 where
    no_parallel : ParallelTask
    parallel_task : TaskNodes → ℕ → ParallelTask

  pub data EachTask : Type 0 where
    no_each : EachTask
    each_task : EachInfo → TaskNode → EachTask

  pub data SubJobTask : Type 0 where
    no_subjob : SubJobTask
    subjob_task : SubJobInfo → TaskNodes → SubJobTask

pub record Task : Type 0 where
  pub info : TaskInfo
  pub open info use *
  pub pre : TaskNodes
  pub post : TaskNodes
  pub parallel : ParallelTask
  pub each : EachTask
  pub subjob : SubJobTask

abbrev pub to_node : Task → TaskNode
to_node t = node t.info t.pre t.post t.parallel t.each t.subjob

abbrev pub of_node : TaskNode → Task
of_node (node i pre post parallel each subjob) = record {
  info = i;
  pre = pre;
  post = post;
  parallel = parallel;
  each = each;
  subjob = subjob;
}

abbrev pub node_list : TaskNodes → List TaskNode
node_list nil = []
node_list (cons n ns) = n ∷ node_list ns

-- The states listed in `TaskStateActive`.
abbrev pub active_state : TaskState → Bool
active_state TaskState.created = true
active_state TaskState.pending = true
active_state TaskState.scheduled = true
active_state TaskState.running = true
active_state _ = false

unfoldable pub is_active : Task → Bool
is_active t = active_state t.state

pub record TaskSummary : Type 0 where
  pub id : String
  pub job_id : String
  pub position : ℕ
  pub progress : ℕ
  pub name : String
  pub description : String
  pub state : TaskState
  pub created_at : Option Time
  pub scheduled_at : Option Time
  pub started_at : Option Time
  pub completed_at : Option Time
  pub error : String
  pub result : String
  pub var : String
  pub tags : List String

unfoldable pub new_task_summary : Task → TaskSummary
new_task_summary t = record {
  id = t.id;
  job_id = t.job_id;
  position = t.position;
  progress = t.progress;
  name = t.name;
  description = t.description;
  state = t.state;
  created_at = t.created_at;
  scheduled_at = t.scheduled_at;
  started_at = t.started_at;
  completed_at = t.completed_at;
  error = t.error;
  result = t.result;
  var = t.var;
  tags = t.tags;
}

-- The tasks of a list inside a task, and back.
abbrev pub tasks_of : TaskNodes → List Task
tasks_of nil = []
tasks_of (cons n ns) = of_node n ∷ tasks_of ns

abbrev pub nodes_of : List Task → TaskNodes
nodes_of [] = nil
nodes_of (t ∷ ts) = cons (to_node t) (nodes_of ts)
