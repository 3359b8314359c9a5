-- ===== src/Redact.antt =====
-- internal/redact/redact.go: secrets in what is shown of tasks and jobs
pub mod Safe
pub mod Tasks
pub mod Jobs
use mathlib.Core.Option
use mathlib.Core.List.{map}
use tork.Prelude.{
  String, Bool, true, false, ◌||◌, Option, none, some, List, [], ◌∷◌, Dict, str_eq, if◌then◌else◌,
}
use tork.Task.{
  TaskInfo, Registry, Webhook, SubJobInfo, TaskNode, node, TaskNodes, nil, cons, ParallelTask,
  no_parallel, parallel_task, SubJobTask, no_subjob, subjob_task, Task, to_node, of_node,
}
use tork.Job.{Job}
use tork.Eval
use tork.Exec.{World}
use tork.Datastore.{get_job}

-- `redactedStr`
abbrev pub redacted_str : String
redacted_str = "[REDACTED]"

-- `strings.ToUpper`, `strings.Contains`, and the function `Match` of internal/wildcard on strings
pub record Texts : Type 0 where
  pub to_upper : String → String
  pub has_substring : String → String → Bool

abbrev pub Matcher : Type 0
Matcher = String → Bool

module _ (texts : Texts) where
  -- `Contains`
  pub contains : String → Matcher
  contains substr s = texts.has_substring (texts.to_upper s) (texts.to_upper substr)

  unfoldable pub default_matchers : List Matcher
  unfolding contains
  default_matchers = contains "SECRET" ∷ contains "PASSWORD" ∷ contains "ACCESS_KEY" ∷ []

  -- `NewRedacter`, of which only the matchers are kept
  unfoldable pub new_redacter : List Matcher → List Matcher
  unfolding default_matchers
  new_redacter [] = default_matchers
  new_redacter (m ∷ ms) = m ∷ ms

-- The loop over the matchers, which ends at the first that accepts.
unfoldable pub accepts : List Matcher → String → Bool
accepts [] k = false
accepts (m ∷ ms) k = m k || accepts ms k

-- The loop over the secrets.
unfoldable pub hide_secrets : Dict String → String → String
hide_secrets [] v = v
hide_secrets ((name, secret) ∷ rest) v =
    hide_secrets rest (if str_eq secret v then redacted_str else v)

-- Every value is replaced.
unfoldable pub hide_all : Dict String → Dict String
hide_all [] = []
hide_all ((k, v) ∷ m) = (k, redacted_str) ∷ hide_all m

unfoldable pub redact_registry : Registry → Registry
redact_registry r = record r { password = redacted_str }

unfoldable pub redact_subjob : SubJobTask → SubJobTask
unfolding hide_all
redact_subjob no_subjob = no_subjob
redact_subjob (subjob_task s tasks) = subjob_task (record s { secrets = hide_all s.secrets }) tasks

module _ (matchers : List Matcher) where
  unfoldable pub redact_value : Dict String → String → String → String
  unfolding accepts hide_secrets
  redact_value secrets k v = hide_secrets secrets (if accepts matchers k then redacted_str else v)

  -- `redactVars`
  unfoldable pub redact_vars : Dict String → Dict String → Dict String
  unfolding redact_value
  redact_vars [] secrets = []
  redact_vars ((k, v) ∷ m) secrets = (k, redact_value secrets k v) ∷ redact_vars m secrets

  unfoldable pub redact_info : Dict String → TaskInfo → TaskInfo
  unfolding redact_vars redact_registry
  redact_info secrets i = record i {
    env = redact_vars i.env secrets;
    registry = Option.map redact_registry i.registry;
  }

  -- `doRedactTask`
  unfoldable mutual
    unfolding redact_info redact_subjob

    pub redact_node : Dict String → TaskNode → TaskNode
    redact_node secrets (node i pre post parallel each subjob) =
        node (redact_info secrets i) (redact_nodes secrets pre) (redact_nodes secrets post)
          (redact_parallel secrets parallel) each (redact_subjob subjob)

    pub redact_nodes : Dict String → TaskNodes → TaskNodes
    redact_nodes secrets nil = nil
    redact_nodes secrets (cons n ns) = cons (redact_node secrets n) (redact_nodes secrets ns)

    pub redact_parallel : Dict String → ParallelTask → ParallelTask
    redact_parallel secrets no_parallel = no_parallel
    redact_parallel secrets (parallel_task tasks completions) =
        parallel_task (redact_nodes secrets tasks) completions

  unfoldable pub do_redact_task : Dict String → Task → Task
  unfolding redact_node
  do_redact_task secrets t = of_node (redact_node secrets (to_node t))

  -- `RedactTask`: a task whose job is not found is left as it is
  unfoldable pub redact_task : World → Task → Task
  redact_task w t = elim (get_job t.job_id w).0 [
    | Eval.Result.err e ↦ t
    | Eval.Result.ok j ↦ do_redact_task j.secrets t
  ]

  unfoldable pub redact_webhook : Dict String → Webhook → Webhook
  unfolding redact_vars
  redact_webhook secrets wh = record wh { headers = redact_vars wh.headers secrets }

  -- `RedactJob`
  unfoldable pub redact_job : Job → Job
  unfolding redact_vars redact_webhook do_redact_task hide_all
  redact_job j = record j {
    inputs = redact_vars j.inputs j.secrets;
    webhooks = map (redact_webhook j.secrets) j.webhooks;
    context = record j.context {
      inputs = redact_vars j.context.inputs j.secrets;
      secrets = redact_vars j.context.secrets j.secrets;
      tasks = redact_vars j.context.tasks j.secrets;
    };
    tasks = map (do_redact_task j.secrets) j.tasks;
    execution = map (do_redact_task j.secrets) j.execution;
    secrets = hide_all j.secrets;
  }
