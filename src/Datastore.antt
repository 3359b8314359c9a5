-- ===== src/Datastore.antt =====
-- datastore/postgres/postgres.go: the operations on tasks, jobs and nodes that the coordinator
-- calls. A row is read whole; an update writes the columns of its statement, and an insert those of
-- its column list. A query that fails for another reason than its rows is left out, as are the
-- foreign keys and the removal of NUL characters from texts.
pub mod Rows
pub mod RoundTrip
pub mod Users
pub mod Paging
pub mod Logs
pub mod Scheduled
pub mod Listing
pub mod Cleanup
pub mod Records
use tork.Prelude.{
  get_elem?, ℕ, ◌-◌, ◌*◌, ◌+◌, String, Bool, true, false, not, ◌&&◌, ◌||◌, Option, none, some, List,
  [], ◌∷◌, ◌++◌, ltb, leb, ◌==◌, str_eq, if◌then◌else◌,
}
use tork.User.{Time}
use tork.Task.{Mount, TaskState, Task, active_state}
use tork.Job.{Job}
use tork.Node.{Node, NodeStatus}
use tork.Exec.{
  Store, World, Env, M, Error, task_not_found, job_not_found, node_not_found, duplicate_key,
  missing_id, time_now, pure, fail, ensure, need, gets, ◌>>=◌, ◌>>◌,
}

-- The rows of a table, which `key` identifies.
module _ {R : Type 0} (key : R → String) where
  unfoldable pub find_row : String → List R → Option R
  find_row k [] = none
  find_row k (r ∷ rs) = if str_eq (key r) k then some r else find_row k rs

  -- `update … where id = k`, for a key of one row at most
  unfoldable pub write_row : String → R → List R → List R
  write_row k new [] = []
  write_row k new (r ∷ rs) = if str_eq (key r) k then new ∷ rs else r ∷ write_row k new rs

abbrev pub task_key : Task → String
task_key t = t.id

abbrev pub job_key : Job → String
job_key j = j.id

abbrev pub node_key : Node → String
node_key n = n.id

-- A stable sort, for `ORDER BY`.
module _ {A : Type 0} (le : A → A → Bool) where
  insert_sorted : A → List A → List A
  insert_sorted a [] = a ∷ []
  insert_sorted a (b ∷ bs) = if le a b then a ∷ b ∷ bs else b ∷ insert_sorted a bs

  pub sort : List A → List A
  unfolding insert_sorted
  sort [] = []
  sort (a ∷ as') = insert_sorted a (sort as')

-- NULL comes last.
time_le : Option Time → Option Time → Bool
time_le (some a) (some b) = leb a b
time_le (some a) none = true
time_le none none = true
time_le none (some b) = false

by_position : (Task → Option Time) → Task → Task → Bool
unfolding time_le
by_position time s t =
    ltb s.position t.position || (s.position == t.position && time_le (time s) (time t))

select : (Task → Bool) → List Task → List Task
select p [] = []
select p (t ∷ ts) = if p t then t ∷ select p ts else select p ts

abbrev pub set_tasks : List Task → World → World
set_tasks ts w = record w { db = record w.db { tasks = ts } }

abbrev pub set_jobs : List Job → World → World
set_jobs js w = record w { db = record w.db { jobs = js } }

abbrev pub set_nodes : List Node → World → World
set_nodes ns w = record w { db = record w.db { nodes = ns } }

-- GetTaskByID
unfoldable pub get_task : String → M Task
unfolding find_row
get_task id w = need (find_row task_key id w.db.tasks) task_not_found w

-- The columns of `update tasks set …`.
unfoldable pub written_task : Task → Task → Task
written_task old new = record old {
  info = record old.info {
    position = new.position;
    state = new.state;
    scheduled_at = new.scheduled_at;
    started_at = new.started_at;
    completed_at = new.completed_at;
    failed_at = new.failed_at;
    error = new.error;
    node_id = new.node_id;
    result = new.result;
    limits = new.limits;
    timeout = new.timeout;
    retry = new.retry;
    queue = new.queue;
    progress = new.progress;
    priority = new.priority;
  };
  each = new.each;
  subjob = new.subjob;
  parallel = new.parallel;
}

unfoldable pub put_task : Task → M (Unit {0})
unfolding write_row
put_task t w = pure tt (set_tasks (write_row task_key t.id t w.db.tasks) w)

-- UpdateTask, for a `modify` that may itself act
unfoldable pub update_task : String → (Task → M Task) → M (Unit {0})
unfolding get_task written_task put_task
update_task id modify = do old ← get_task id; new ← modify old; put_task (written_task old new)

-- UpdateTask, where `modify` also sets a variable of the caller
unfoldable pub update_task_returning : {A : Type 0} → String → (Task → M (Task × A)) → M A
unfolding get_task written_task put_task
update_task_returning id modify = do
  old ← get_task id
  (new, a) ← modify old
  put_task (written_task old new)
  pure a

-- The identifier of a mount is not part of its JSON.
unfoldable pub without_ids : List Mount → List Mount
without_ids [] = []
without_ids (m ∷ ms) = record m { id = "" } ∷ without_ids ms

-- The columns of `insert into tasks …`: `progress` is not among them, and has the default 0.
unfoldable pub inserted_task : Env → Task → Task
unfolding without_ids
inserted_task env t = record t {
  info = record t.info {
    progress = 0;
    error = env.sanitize t.error;
    result = env.sanitize t.result;
    mounts = without_ids t.mounts;
  };
}

-- CreateTask
unfoldable pub create_task : Env → Task → M (Unit {0})
unfolding find_row inserted_task
create_task env t w = elim (find_row task_key t.id w.db.tasks) [
  | some _ ↦ fail duplicate_key w
  | none ↦ pure tt (set_tasks (w.db.tasks ++ inserted_task env t ∷ []) w)
]

unfoldable pub active_tasks : String → List Task → List Task
unfolding sort by_position select
active_tasks job_id tasks =
    sort (by_position (λ t. t.created_at))
      (select (λ t. str_eq t.job_id job_id && active_state t.state) tasks)

-- GetActiveTasks
unfoldable pub get_active_tasks : String → M (List Task)
get_active_tasks job_id = gets λ w. active_tasks job_id w.db.tasks

is_next : String → Task → Bool
is_next parent_id t = elim t.state [ TaskState.created ↦ str_eq t.parent_id parent_id | _ ↦ false ]

-- The statement of GetNextTask leaves open which of the rows is returned: the model takes the oldest.
unfoldable pub next_created : String → List Task → Option Task
unfolding select is_next
next_created parent_id tasks = get_elem? (select (is_next parent_id) tasks) 0

-- GetNextTask, asked on another connection than the one of the open transaction.
unfoldable pub get_next_task_outside : String → M Task
get_next_task_outside parent_id w = need (next_created parent_id w.committed.tasks) task_not_found w

unfoldable pub put_task_outside : Task → M (Unit {0})
unfolding write_row
put_task_outside t w = pure tt (record w {
  db = record w.db { tasks = write_row task_key t.id t w.db.tasks };
  committed = record w.committed { tasks = write_row task_key t.id t w.committed.tasks };
})

-- UpdateTask on another connection than the one of the open transaction, which sees the write, and
-- whose end does not undo it.
unfoldable pub update_task_outside : String → (Task → Task) → M (Unit {0})
unfolding find_row written_task put_task_outside
update_task_outside id modify = do
  old ← (λ w. need (find_row task_key id w.committed.tasks) task_not_found w)
  put_task_outside (written_task old (modify old))

-- The tasks of a job so far.
pub execution_of : String → List Task → List Task
unfolding sort by_position select
execution_of id tasks =
    sort (by_position (λ t. t.started_at)) (select (λ t. str_eq t.job_id id) tasks)

-- GetJobByID
unfoldable pub get_job : String → M Job
unfolding find_row
get_job id = do
  j ← (λ w. need (find_row job_key id w.db.jobs) job_not_found w)
  gets λ w. record j { execution = execution_of id w.db.tasks }

-- The columns of `update jobs set …`.
unfoldable pub written_job : Job → Job → Job
written_job old new = record old {
  state = new.state;
  started_at = new.started_at;
  completed_at = new.completed_at;
  failed_at = new.failed_at;
  position = new.position;
  context = new.context;
  result = new.result;
  error = new.error;
  delete_at = new.delete_at;
  progress = new.progress;
}

unfoldable pub put_job : Job → M (Unit {0})
unfolding write_row
put_job j w = pure tt (set_jobs (write_row job_key j.id j w.db.jobs) w)

-- UpdateJob: `modify` is given no execution and no permissions
unfoldable pub update_job : String → (Job → M Job) → M (Unit {0})
unfolding find_row written_job put_job
update_job id modify = do
  old ← (λ w. need (find_row job_key id w.db.jobs) job_not_found w)
  new ← modify (record old { execution = []; permissions = [] })
  put_job (written_job old new)

-- UpdateJob, where `modify` also changes a variable of the caller
unfoldable pub update_job_returning : {A : Type 0} → String → (Job → M (Job × A)) → M A
unfolding find_row written_job put_job
update_job_returning id modify = do
  old ← (λ w. need (find_row job_key id w.db.jobs) job_not_found w)
  (new, a) ← modify (record old { execution = []; permissions = [] })
  put_job (written_job old new)
  pure a

pub created_by_or : Env → Job → Job
created_by_or env j = elim j.created_by [
  | some _ ↦ j
  | none ↦ record j { created_by = some env.guest }
]

-- The columns of `insert into jobs …`, and the permissions.
unfoldable pub inserted_job : Job → Job
inserted_job j = record j {
  completed_at = none;
  failed_at = none;
  execution = [];
  delete_at = none;
  progress = 0;
}

-- CreateJob, which completes its argument by the user who creates it
unfoldable pub create_job : Env → Job → M Job
unfolding find_row created_by_or inserted_job
create_job env j = do
  ensure (not (str_eq j.id "")) missing_id
  let j' = created_by_or env j
  λ w. elim (find_row job_key j'.id w.db.jobs) [
    | some _ ↦ fail duplicate_key w
    | none ↦ pure j' (set_jobs (w.db.jobs ++ inserted_job j' ∷ []) w)
  ]

-- `tork.HEARTBEAT_RATE`, in nanoseconds
abbrev pub heartbeat_rate : Time
heartbeat_rate = 30000000000

unfoldable pub is_up : NodeStatus → Bool
is_up NodeStatus.up = true
is_up _ = false

-- `toNode`: a node that is up and was not heard of for two periods is read as offline.
unfoldable pub read_node : Time → Node → Node
unfolding is_up
read_node now n =
    if ltb n.last_heartbeat_at (now - heartbeat_rate * 2) && is_up n.status
    then record n { status = NodeStatus.offline }
    else n

-- The row of a node, which GetNodeByID and UpdateNode select.
unfoldable pub select_node : String → M Node
unfolding find_row
select_node id w = need (find_row node_key id w.db.nodes) node_not_found w

-- GetNodeByID
unfoldable pub get_node : Env → String → M Node
unfolding select_node read_node
get_node env id = do n ← select_node id; now ← time_now env; pure (read_node now n)

-- CreateNode
unfoldable pub create_node : Node → M (Unit {0})
unfolding find_row
create_node n w = elim (find_row node_key n.id w.db.nodes) [
  | some _ ↦ fail duplicate_key w
  | none ↦ pure tt (set_nodes (w.db.nodes ++ n ∷ []) w)
]

-- The columns of `update nodes set …`.
unfoldable pub written_node : Node → Node → Node
written_node old new = record old {
  last_heartbeat_at = new.last_heartbeat_at;
  cpu_percent = new.cpu_percent;
  status = new.status;
  task_count = new.task_count;
}

-- UpdateNode
unfoldable pub update_node : Env → String → (Node → Node) → M (Unit {0})
unfolding select_node read_node written_node write_row
update_node env id modify = do
  old ← select_node id
  now ← time_now env
  λ w. pure tt (
      set_nodes (write_row node_key id (written_node old (modify (read_node now old))) w.db.nodes)
        w)
