-- ===== src/Middleware.antt =====
-- middleware/job/webhook.go, middleware/task/webhook.go, middleware/task/hostenv.go and the events of
-- internal/webhook/webhook.go: what surrounds a handler. A webhook that is called goes on by itself,
-- and here it is which ones are called, and with which headers.
use tork.Prelude.{
  ℕ, zero, suc, ◌+◌, String, Bool, true, false, not, ◌&&◌, ◌||◌, Option, none, some, List, [], ◌∷◌,
  Dict, insert, ltb, leb, ◌==◌, str_eq, if◌then◌else◌,
}
use tork.Task.{
  TaskState, Webhook, TaskInfo, TaskNode, node, TaskNodes, nil, cons, Task, to_node, of_node,
  TaskSummary, new_task_summary,
}
use tork.Job.{Job, JobSummary, JobContext, new_job_summary}
use tork.Eval
use tork.Eval.{Evaluator, evaluate_template}
use tork.Scheduler.Common.{as_map}
use tork.Handlers.Jobs.{EventType, state_change, progress, read}
pub mod Chosen

abbrev pub event_job_state_change : String
event_job_state_change = "job.StateChange"

abbrev pub event_job_progress : String
event_job_progress = "job.Progress"

abbrev pub event_task_state_change : String
event_task_state_change = "task.StateChange"

abbrev pub event_task_progress : String
event_task_progress = "task.Progress"

abbrev pub event_default : String
event_default = ""

-- The value of a condition: `none` when its evaluation fails or is no Boolean.
is_true : Option Bool → Bool
is_true none = false
is_true (some b) = b

keep : (Webhook → Bool) → List Webhook → List Webhook
keep p [] = []
keep p (wh ∷ whs) = let rest = keep p whs in if p wh then wh ∷ rest else rest

-- `holds` evaluates a condition over the summary of the job.
module _ (holds : String → JobSummary → Option Bool) where
  unfoldable pub job_webhook_wants : EventType → Job → Webhook → Bool
  unfolding is_true new_job_summary
  job_webhook_wants et j wh =
      if not (str_eq wh.event event_job_state_change)
        && not (str_eq wh.event event_default)
        && not (str_eq wh.event event_job_progress)
      then false
      else if elim et [ EventType.state_change ↦ true | _ ↦ false ]
          && not (str_eq wh.event event_job_state_change)
          && not (str_eq wh.event event_default)
      then false
      else if elim et [ EventType.progress ↦ true | _ ↦ false ]
          && not (str_eq wh.event event_job_progress)
      then false
      else if str_eq wh.if_ ""
      then true
      else is_true (holds wh.if_ (new_job_summary j))

  -- The webhooks of a job that are called after its handler succeeded.
  unfoldable pub job_webhooks : EventType → Job → List Webhook
  unfolding keep job_webhook_wants
  job_webhooks EventType.read j = []
  job_webhooks et j = keep (job_webhook_wants et j) j.webhooks

-- The events of middleware/task.
pub data TaskEvent : Type 0 where
  started state_changed progressed was_read : TaskEvent

module _ (holds : String → TaskSummary → JobSummary → Option Bool) where
  unfoldable pub task_webhook_wants : TaskEvent → Task → Job → Webhook → Bool
  unfolding is_true new_job_summary new_task_summary
  task_webhook_wants et t j wh =
      if not (str_eq wh.event event_task_state_change) && not (str_eq wh.event event_task_progress)
      then false
      else if (str_eq wh.event event_task_state_change
            && not (elim et [ state_changed ↦ true | _ ↦ false ]))
          || (str_eq wh.event event_task_progress
              && not (elim et [ progressed ↦ true | _ ↦ false ]))
      then false
      else if str_eq wh.if_ ""
      then true
      else is_true (holds wh.if_ (new_task_summary t) (new_job_summary j))

  -- The webhooks of a job that are called after the handler of one of its tasks succeeded.
  unfoldable pub task_webhooks : TaskEvent → Task → Job → List Webhook
  unfolding keep task_webhook_wants
  task_webhooks started t j = []
  task_webhooks was_read t j = []
  task_webhooks et t j = keep (task_webhook_wants et t j) j.webhooks

text_or_empty : Eval.Result String String → String
text_or_empty (Eval.Result.ok s) = s
text_or_empty (Eval.Result.err e) = ""

-- The headers of a call; one that does not evaluate is empty.
unfoldable pub evaluated_headers : Evaluator → JobContext → Dict String → Dict String
unfolding text_or_empty
evaluated_headers ev c [] = []
evaluated_headers ev c ((name, v) ∷ rest) =
    (name, text_or_empty (evaluate_template ev v (as_map c))) ∷ evaluated_headers ev c rest

-- The variables of the host, by the name they have there and the name they get.
set_vars : (String → String) → Dict String → Dict String → Dict String
set_vars getenv [] env = env
set_vars getenv ((name, alias) ∷ vars) env = set_vars getenv vars (insert alias (getenv name) env)

-- `setHostVars`
unfoldable mutual
  unfolding set_vars

  pub set_host_vars : (String → String) → Dict String → TaskNode → TaskNode
  set_host_vars getenv vars (node i pre post parallel each subjob) =
      node (record i { env = set_vars getenv vars i.env }) (set_host_vars_all getenv vars pre)
        (set_host_vars_all getenv vars post) parallel each subjob

  pub set_host_vars_all : (String → String) → Dict String → TaskNodes → TaskNodes
  set_host_vars_all getenv vars nil = nil
  set_host_vars_all getenv vars (cons n ns) =
      cons (set_host_vars getenv vars n) (set_host_vars_all getenv vars ns)

is_task_running : TaskState → Bool
is_task_running TaskState.running = true
is_task_running s = false

-- `HostEnv.Execute`: the task that the next handler gets
unfoldable pub with_host_env : (String → String) → Dict String → TaskEvent → Task → Task
unfolding is_task_running set_host_vars
with_host_env getenv vars state_changed t =
    if is_task_running t.state then of_node (set_host_vars getenv vars (to_node t)) else t
with_host_env getenv vars et t = t
