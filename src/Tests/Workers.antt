-- ===== src/Tests/Workers.antt =====
-- A worker and a pattern; a task to check and one to hide secrets in.
use mathlib.Core.List.{map}
use tork.Redact.Jobs.{tasks_inside}
use tork.Prelude.{true, false, none, some, List, [], ◌∷◌, ◌++◌, ◌≡◌, ◌↔◌, refl, All}
use tork.Task.{Task, to_node}
use tork.Job.{Job}
use tork.Exec.{World, Message, ok, task_message}
use tork.Broker.Queues.{queue_started}
use tork.Wildcard.{Bytes, cell, match}
use tork.Wildcard.Matches.{Matches}
use tork.Wildcard.Table.{match-Matches}
use tork.Redact.{Matcher, do_redact_task, redact_job}
use tork.Redact.Safe.{AllSafe}
use tork.Redact.Tasks.{AllHidden, IsSafeNode, do_redact_task-IsSafe}
use tork.Redact.Jobs.{redact_job-IsSafe}
use tork.Worker.{Worker, Runtime, Limits, prepare, handle_task}
use tork.Worker.Reports.{IsOutcome, handle_task-IsOutcome}
use tork.Input.{TaskFields}
use tork.Tests.Samples.{done_task, two_task_job, parallel_row, world_of, env}

-- "a*c" and "abc"
abbrev pattern_text : Bytes
pattern_text = 97 ∷ 42 ∷ 99 ∷ []

abbrev subject : Bytes
subject = 97 ∷ 98 ∷ 99 ∷ []

match-Matches_example : (match pattern_text subject ≡ true) ↔ Matches pattern_text subject
match-Matches_example = match-Matches pattern_text subject

-- "a*c" does not match "abd".
no_match : match pattern_text (97 ∷ 98 ∷ 100 ∷ []) ≡ false
unfolding match cell
no_match = refl

abbrev secret_task : Task
secret_task = record parallel_row {
  info = record parallel_row.info { env = ("A", "s3cret") ∷ ("B", "plain") ∷ [] };
}

abbrev by_nothing : List Matcher
by_nothing = (λ k. false) ∷ []

do_redact_task-IsSafe_example :
    IsSafeNode by_nothing
      (("x", "s3cret") ∷ [])
      (to_node (do_redact_task by_nothing (("x", "s3cret") ∷ []) secret_task))
    × ((do_redact_task by_nothing (("x", "s3cret") ∷ []) secret_task).each ≡ secret_task.each)
do_redact_task-IsSafe_example = do_redact_task-IsSafe by_nothing (("x", "s3cret") ∷ []) secret_task

abbrev secret_job : Job
secret_job = record two_task_job {
  secrets = ("x", "s3cret") ∷ [];
  inputs = ("in", "s3cret") ∷ [];
  tasks = secret_task ∷ [];
}

redact_job-IsSafe_example :
    let r = redact_job by_nothing secret_job in
    AllHidden r.secrets
    × AllSafe by_nothing secret_job.secrets r.inputs
    × All (λ wh. AllSafe by_nothing secret_job.secrets wh.headers) r.webhooks
    × AllSafe by_nothing secret_job.secrets r.context.inputs
    × AllSafe by_nothing secret_job.secrets r.context.secrets
    × AllSafe by_nothing secret_job.secrets r.context.tasks
    × All (λ t. IsSafeNode by_nothing secret_job.secrets (to_node t)) r.tasks
    × All (λ t. IsSafeNode by_nothing secret_job.secrets (to_node t)) r.execution
    × (map (λ (t : Task). t.each) r.tasks ≡ map (λ (t : Task). t.each) secret_job.tasks)
    × (map (λ (t : Task). tasks_inside t.subjob) r.tasks
        ≡ map (λ (t : Task). tasks_inside t.subjob) secret_job.tasks)
redact_job-IsSafe_example = redact_job-IsSafe by_nothing secret_job

abbrev no_limits : Limits
no_limits = record { default_cpus_limit = "1"; default_memory_limit = ""; default_timeout = "" }

abbrev idle : Worker
idle = record {
  id = "n1";
  name = "";
  start_time = 0;
  queues = [];
  tasks = [];
  cancelled = [];
  limits = no_limits;
  task_count = 0;
  used_ports = [];
}

-- A runtime that fails every task.
abbrev failing : Runtime
failing = record {
  run = λ t. (some "exit code 1", t);
  healthy = true;
  parses = λ s. true;
  hostname = "h";
  cpu_percent = 0;
  port = 0;
  version = "";
}

abbrev empty_world : World
empty_world = world_of [] []

handle_task-IsOutcome_example :
    let t' = prepare idle (env.now empty_world.readings) done_task in
    let (r, wk', w') = handle_task env failing [] done_task idle empty_world in
    (m : Message) × (r ≡ ok tt)
    × IsOutcome env failing t' t' m
    × (w'.sent ≡ (empty_world.sent ++ task_message queue_started t' ∷ []) ++ m ∷ [])
    × (wk'.task_count ≡ idle.task_count)
handle_task-IsOutcome_example = handle_task-IsOutcome env failing done_task idle empty_world

abbrev bare : TaskFields
bare = record {
  name = "t";
  description = "";
  cmd = [];
  entrypoint = [];
  run = "";
  image = "";
  registry = none;
  env = [];
  files = [];
  queue = "";
  pre = [];
  post = [];
  mounts = [];
  networks = [];
  retry = none;
  limits = none;
  timeout = "";
  var = "";
  if_ = "";
  gpus = "";
  tags = [];
  workdir = "";
  priority = 0;
}
