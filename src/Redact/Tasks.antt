-- ===== src/Redact/Tasks.antt =====
-- `doRedactTask` at every depth it visits, and what it does not visit.
use mathlib.Core.Option
use tork.Prelude.{String, Option, none, some, Dict, List, [], ◌∷◌, All, ◌≡◌, refl}
use tork.Task.{
  Registry, TaskNode, node, TaskNodes, nil, cons, ParallelTask, no_parallel, parallel_task,
  SubJobTask, no_subjob, subjob_task, Task, to_node,
}
use tork.Redact.{
  redacted_str, Matcher, hide_all, redact_registry, redact_info, redact_subjob, redact_node,
  redact_nodes, redact_parallel, do_redact_task,
}
use tork.Redact.Safe.{AllSafe, redact_vars-AllSafe}

-- Every value is hidden.
abbrev pub AllHidden : Dict String → Type 0
AllHidden secrets = All (λ s. s.1 ≡ redacted_str) secrets

pub hide_all-AllHidden : (secrets : Dict String) → AllHidden (hide_all secrets)
unfolding hide_all
hide_all-AllHidden [] = tt
hide_all-AllHidden ((k, v) ∷ rest) = (refl, hide_all-AllHidden rest)

abbrev pub HidesPassword : Option Registry → Type 0
HidesPassword none = Unit
HidesPassword (some r) = r.password ≡ redacted_str

abbrev pub HidesSecrets : SubJobTask → Type 0
HidesSecrets no_subjob = Unit
HidesSecrets (subjob_task s tasks) = AllHidden s.secrets

redact_info-HidesPassword : (r : Option Registry) → HidesPassword (Option.map redact_registry r)
unfolding redact_registry
redact_info-HidesPassword none = tt
redact_info-HidesPassword (some r) = refl

redact_subjob-HidesSecrets : (s : SubJobTask) → HidesSecrets (redact_subjob s)
unfolding redact_subjob
redact_subjob-HidesSecrets no_subjob = tt
redact_subjob-HidesSecrets (subjob_task s tasks) = hide_all-AllHidden s.secrets

module _ (matchers : List Matcher) (secrets : Dict String) where
  -- The variables, the password and the secrets of a task are hidden, and so are those of the tasks
  -- before it, after it and in parallel in it.
  unfoldable mutual
    pub IsSafeNode : TaskNode → Type 0
    IsSafeNode (node i pre post parallel each subjob) =
        AllSafe matchers secrets i.env
        × HidesPassword i.registry
        × AreSafe pre
        × AreSafe post
        × IsSafeParallel parallel
        × HidesSecrets subjob

    pub AreSafe : TaskNodes → Type 0
    AreSafe nil = Unit
    AreSafe (cons n ns) = IsSafeNode n × AreSafe ns

    pub IsSafeParallel : ParallelTask → Type 0
    IsSafeParallel no_parallel = Unit
    IsSafeParallel (parallel_task tasks completions) = AreSafe tasks

  mutual
    unfolding redact_node redact_nodes redact_parallel redact_info IsSafeNode AreSafe IsSafeParallel

    node-IsSafe : (n : TaskNode) → IsSafeNode (redact_node matchers secrets n)
    node-IsSafe (node i pre post parallel each subjob) = (
      redact_vars-AllSafe matchers secrets i.env,
      redact_info-HidesPassword i.registry,
      nodes-AreSafe pre,
      nodes-AreSafe post,
      parallel-IsSafe parallel,
      redact_subjob-HidesSecrets subjob,
    )

    nodes-AreSafe : (ns : TaskNodes) → AreSafe (redact_nodes matchers secrets ns)
    nodes-AreSafe nil = tt
    nodes-AreSafe (cons n ns) = (node-IsSafe n, nodes-AreSafe ns)

    parallel-IsSafe : (p : ParallelTask) → IsSafeParallel (redact_parallel matchers secrets p)
    parallel-IsSafe no_parallel = tt
    parallel-IsSafe (parallel_task tasks completions) = nodes-AreSafe tasks

-- After a task is redacted, every variable of it and of the tasks before it, after it and in
-- parallel in it, at any depth, has a value that is replaced, or that is no secret and stands under
-- a name that no matcher accepts. Passwords of registries and secrets of sub-jobs there are
-- replaced. The task of an each is not visited and stays as it was.
pub do_redact_task-IsSafe :
    (matchers : List Matcher) (secrets : Dict String) (t : Task)
    → IsSafeNode matchers secrets (to_node (do_redact_task matchers secrets t))
      × ((do_redact_task matchers secrets t).each ≡ t.each)
unfolding do_redact_task redact_node
do_redact_task-IsSafe matchers secrets t = (node-IsSafe matchers secrets (to_node t), refl)
