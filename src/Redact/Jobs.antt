-- ===== src/Redact/Jobs.antt =====
-- `RedactJob`
use mathlib.Core.List.{map}
use tork.Prelude.{String, List, [], ◌∷◌, Dict, All, ◌≡◌, refl, arith}
use tork.Task.{Task, Webhook, to_node, SubJobTask, no_subjob, subjob_task, TaskNodes, nil}
use tork.Job.{Job}
use tork.Redact.{Matcher, do_redact_task, redact_webhook, redact_job, redact_subjob, redact_node}
use tork.Redact.Safe.{AllSafe, redact_vars-AllSafe}
use tork.Redact.Tasks.{AllHidden, hide_all-AllHidden, IsSafeNode, do_redact_task-IsSafe}

module _ (matchers : List Matcher) (secrets : Dict String) where
  tasks-All :
      (ts : List Task)
      → All
          (λ t. IsSafeNode matchers secrets (to_node t))
          (map (do_redact_task matchers secrets) ts)
  tasks-All [] = tt
  tasks-All (t ∷ ts) = ((do_redact_task-IsSafe matchers secrets t).0, tasks-All ts)

  webhooks-All :
      (ws : List Webhook)
      → All (λ wh. AllSafe matchers secrets wh.headers) (map (redact_webhook matchers secrets) ws)
  unfolding redact_webhook
  webhooks-All [] = tt
  webhooks-All (wh ∷ ws) = (redact_vars-AllSafe matchers secrets wh.headers, webhooks-All ws)

-- The tasks of a sub-job.
pub tasks_inside : SubJobTask → TaskNodes
tasks_inside no_subjob = nil
tasks_inside (subjob_task s ts) = ts

redact_subjob_inside : (s : SubJobTask) → tasks_inside (redact_subjob s) ≡ tasks_inside s
unfolding tasks_inside redact_subjob
redact_subjob_inside no_subjob = refl
redact_subjob_inside (subjob_task s ts) = refl

module _ (matchers : List Matcher) (secrets : Dict String) where
  eachs_kept :
      (ts : List Task)
      → map (λ (t : Task). t.each) (map (do_redact_task matchers secrets) ts)
        ≡ map (λ (t : Task). t.each) ts
  eachs_kept [] = refl
  eachs_kept (t ∷ ts) = ground (arith, (do_redact_task-IsSafe matchers secrets t).1, eachs_kept ts)

  inside_kept :
      (t : Task) → tasks_inside (do_redact_task matchers secrets t).subjob ≡ tasks_inside t.subjob
  unfolding do_redact_task redact_node
  inside_kept t = redact_subjob_inside t.subjob

  insides_kept :
      (ts : List Task)
      → map (λ (t : Task). tasks_inside t.subjob) (map (do_redact_task matchers secrets) ts)
        ≡ map (λ (t : Task). tasks_inside t.subjob) ts
  insides_kept [] = refl
  insides_kept (t ∷ ts) = ground (arith, inside_kept t, insides_kept ts)

-- After a job is redacted, all its secrets are replaced, and every input, every header of its webhooks,
-- and every input, secret and result of its context has a value that is replaced, or that is no secret
-- and stands under a name that no matcher accepts. The same holds of the variables of its tasks, those
-- that ran among them, and of the tasks before, after and in parallel in them. The task of an each is
-- shown as it was, and so are the tasks of a sub-job, of which only the secrets are replaced.
pub redact_job-IsSafe :
    (matchers : List Matcher) (j : Job)
    → let r = redact_job matchers j in
      AllHidden r.secrets
      × AllSafe matchers j.secrets r.inputs
      × All (λ wh. AllSafe matchers j.secrets wh.headers) r.webhooks
      × AllSafe matchers j.secrets r.context.inputs
      × AllSafe matchers j.secrets r.context.secrets
      × AllSafe matchers j.secrets r.context.tasks
      × All (λ t. IsSafeNode matchers j.secrets (to_node t)) r.tasks
      × All (λ t. IsSafeNode matchers j.secrets (to_node t)) r.execution
      × (map (λ (t : Task). t.each) r.tasks ≡ map (λ (t : Task). t.each) j.tasks)
      × (map (λ (t : Task). tasks_inside t.subjob) r.tasks
          ≡ map (λ (t : Task). tasks_inside t.subjob) j.tasks)
unfolding redact_job
redact_job-IsSafe matchers j = (
  hide_all-AllHidden j.secrets,
  redact_vars-AllSafe matchers j.secrets j.inputs,
  webhooks-All matchers j.secrets j.webhooks,
  redact_vars-AllSafe matchers j.secrets j.context.inputs,
  redact_vars-AllSafe matchers j.secrets j.context.secrets,
  redact_vars-AllSafe matchers j.secrets j.context.tasks,
  tasks-All matchers j.secrets j.tasks,
  tasks-All matchers j.secrets j.execution,
  eachs_kept matchers j.secrets j.tasks,
  insides_kept matchers j.secrets j.tasks,
)
