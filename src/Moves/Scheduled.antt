-- ===== src/Moves/Scheduled.antt =====
-- The handler of pending tasks, which schedules them, adds rows of jobs at most.
use tork.Prelude.{
  ℕ, suc, String, Option, none, some, List, [], ◌∷◌, ◌++◌, ◌≡◌, ◌⊎◌, inl, inr, refl, arith, str_eq,
}
use tork.Task.{
  TaskState, EachInfo, SubJobInfo, TaskNode, TaskNodes, Task, parallel_task, no_parallel, each_task,
  no_each, subjob_task, no_subjob, tasks_of, nodes_of,
}
use tork.User.{Time}
use tork.Job.{Job}
use tork.Eval
use tork.Eval.{Value, Values, evaluate_task, evaluate_expr}
use tork.Exec.{World, Env, M, new_uuid, time_now, publish_task, publish_job, pure, ◌>>◌}
use tork.Datastore.{
  find_row, job_key, get_job, update_task, create_task, create_job, inserted_job, created_by_or,
}
use tork.Scheduler.{schedule_task}
use tork.Scheduler.Regular.{schedule_regular_task}
use tork.Scheduler.SubJob.{
  schedule_subjob, schedule_attached_subjob, schedule_detached_subjob, mark_subjob, subjob_of,
}
use tork.Scheduler.Each.{
  schedule_each_task, each_list, each_loop, each_round, each_instance, item_scope, mark_each, fires,
  count_values,
}
use tork.Scheduler.Parallel.{schedule_parallel_task, parallel_loop, parallel_instance}
use tork.Handlers.Pending
use tork.Handlers.Pending.{skip_task}
use tork.Moves.{Moves, Moves-refl, Moves-same, Moves-then_same, here}
use tork.Moves.Actions.{
  IsMover, IsStill, IsStill-IsMover, if-IsMover, if-IsStill, bind-IsMover, bind-IsStill, still_then,
}
use tork.Moves.Still.{
  time_now-IsStill, new_uuid-IsStill, publish-IsStill, pure-IsStill, get_job-IsStill,
  create_task-IsStill, update_task-IsStill,
}
use tork.Scheduler.Common.{as_map, report_failure}
use tork.Broker.Queues.{queue_pending, queue_completed}

find_row-append :
    (k : String) (js : List Job) (x j : Job)
    → find_row job_key k js ≡ some j
    → find_row job_key k (js ++ x ∷ []) ≡ some j
unfolding find_row
find_row-append k [] x j found = ground (arith, found)
find_row-append k (i ∷ js) x j found = ground (arith, found, find_row-append k js x j)

-- A new row leaves the others as they are.
append-Moves : (js : List Job) (x : Job) → Moves js (js ++ x ∷ [])
append-Moves js x k j found = (j, find_row-append k js x j found, here)

-- What `create_job` adds, if anything.
create_job-jobs :
    (env : Env) (j : Job) (w : World)
    → ((create_job env j w).1.db.jobs ≡ w.db.jobs)
      ⊎ ((create_job env j w).1.db.jobs ≡ w.db.jobs ++ inserted_job (created_by_or env j) ∷ [])
unfolding create_job
create_job-jobs env j w = ground arith

create_job-IsMover : (env : Env) (j : Job) → IsMover (create_job env j)
create_job-IsMover env j = record {
  at = λ w. elim (create_job-jobs env j w) [
    | inl same ↦ Moves-same w.db.jobs (create_job env j w).1.db.jobs same
    | inr more ↦
        let row = inserted_job (created_by_or env j) in
        Moves-then_same w.db.jobs (w.db.jobs ++ row ∷ []) (create_job env j w).1.db.jobs
          (append-Moves w.db.jobs row) more
  ];
}

mark_subjob-IsStill : (now : Time) (id : String) (u : Task) → IsStill (mark_subjob now id u)
unfolding mark_subjob
mark_subjob-IsStill now id u = record { at = λ w. ground arith; outside = λ w. ground arith }

mark_each-IsStill : (now : Time) (size : ℕ) (u : Task) → IsStill (mark_each now size u)
unfolding mark_each
mark_each-IsStill now size u = record { at = λ w. ground arith; outside = λ w. ground arith }

module _ (env : Env) where
  regular-IsStill : (t : Task) → IsStill (schedule_regular_task env t)
  unfolding schedule_regular_task update_task get_job
  regular-IsStill t = record { at = λ w. ground arith; outside = λ w. ground arith }

  skip-IsStill : (t : Task) → IsStill (skip_task env t)
  unfolding skip_task update_task
  skip-IsStill t = record { at = λ w. ground arith; outside = λ w. ground arith }

  each_round-IsStill :
      (t : Task) (e : EachInfo) (ix : ℕ) (r : Task × Option String) (rest : M (Unit {0}))
      → IsStill rest
      → IsStill (each_round env t e ix r rest)
  unfolding each_round
  each_round-IsStill t e ix (et, some x) rest still = record { at = λ w. refl; outside = λ w. refl }
  each_round-IsStill t e ix (et, none) rest still =
      bind-IsStill (create_task env et) _ (create_task-IsStill env et) λ done.
        bind-IsStill _ _
          (if-IsStill (fires e.concurrency ix) (publish_task queue_pending et) (pure tt)
            (publish-IsStill _) (pure-IsStill tt))
          λ sent. still

  each_loop-IsStill :
      (t : Task) (e : EachInfo) (n : TaskNode) (j : Job) (now : Time) (ix : ℕ) (vs : Values)
      → IsStill (each_loop env t e n j now ix vs)
  unfolding each_loop
  each_loop-IsStill t e n j now ix Values.no_values = pure-IsStill tt
  each_loop-IsStill t e n j now ix (Values.one_more v vs) =
      bind-IsStill (new_uuid env) _ (new_uuid-IsStill env) λ id.
        each_round-IsStill t e ix
          (evaluate_task env.evaluator (item_scope env e j ix v) (each_instance t e n j now id ix))
          (each_loop env t e n j now (suc ix) vs) (each_loop-IsStill t e n j now (suc ix) vs)

  each_list-IsStill :
      (t : Task) (e : EachInfo) (n : TaskNode) (j : Job) (now : Time) (vs : Values)
      → IsStill (each_list env t e n j now vs)
  unfolding each_list
  each_list-IsStill t e n j now vs =
      bind-IsStill (update_task t.id (mark_each now (count_values vs))) _
        (update_task-IsStill t.id _ (mark_each-IsStill now (count_values vs)))
        λ done. each_loop-IsStill t e n j now 0 vs

  each_value-IsStill :
      (t : Task) (e : EachInfo) (n : TaskNode) (j : Job) (now : Time) (r : Eval.Result String Value)
      → IsStill {A = Unit {0}} (elim r [
        | Eval.Result.err x ↦ report_failure t x
        | Eval.Result.ok (Value.slice_of vs) ↦ each_list env t e n j now vs
        | Eval.Result.ok _ ↦ report_failure t "each.list does not evaluate to a list"
      ])
  each_value-IsStill t e n j now (Eval.Result.err x) = publish-IsStill _
  each_value-IsStill t e n j now (Eval.Result.ok (Value.slice_of vs)) =
      each_list-IsStill t e n j now vs
  each_value-IsStill t e n j now (Eval.Result.ok v) = publish-IsStill _

  each-IsStill : (t : Task) (e : EachInfo) (n : TaskNode) → IsStill (schedule_each_task env t e n)
  unfolding schedule_each_task
  each-IsStill t e n = bind-IsStill (time_now env) _ (time_now-IsStill env) λ now.
      bind-IsStill (get_job t.job_id) _ (get_job-IsStill t.job_id)
        λ j. each_value-IsStill t e n j now (evaluate_expr env.evaluator e.list (as_map j.context))

  parallel_round-IsStill :
      (t : Task) (completions : ℕ) (reached ps : List Task) (pt : Task) (failure : Option String)
      (rest : M (Unit {0}))
      → IsStill rest
      → IsStill {A = Unit {0}} (elim failure [
        | some x ↦
            report_failure
              (record t { parallel = parallel_task (nodes_of (reached ++ pt ∷ ps)) completions })
              x
        | none ↦ do create_task env pt; publish_task queue_pending pt; rest
      ])
  parallel_round-IsStill t completions reached ps pt (some x) rest still = record {
    at = λ w. refl;
    outside = λ w. refl;
  }
  parallel_round-IsStill t completions reached ps pt none rest still =
      bind-IsStill (create_task env pt) _ (create_task-IsStill env pt)
        λ done. bind-IsStill (publish_task queue_pending pt) _ (publish-IsStill _) λ sent. still

  parallel_loop-IsStill :
      (t : Task) (completions : ℕ) (j : Job) (now : Time) (reached ps : List Task)
      → IsStill (parallel_loop env t completions j now reached ps)
  unfolding parallel_loop
  parallel_loop-IsStill t completions j now reached [] = pure-IsStill tt
  parallel_loop-IsStill t completions j now reached (p ∷ ps) =
      bind-IsStill (new_uuid env) _ (new_uuid-IsStill env) λ id.
        let done =
          evaluate_task env.evaluator (as_map j.context) (parallel_instance t j now id p) in
        parallel_round-IsStill t completions reached ps done.0 done.1
          (parallel_loop env t completions j now (reached ++ done.0 ∷ []) ps)
          (parallel_loop-IsStill t completions j now (reached ++ done.0 ∷ []) ps)

  parallel-IsStill :
      (t : Task) (ts : TaskNodes) (completions : ℕ)
      → IsStill (schedule_parallel_task env t ts completions)
  unfolding schedule_parallel_task
  parallel-IsStill t ts completions = bind-IsStill (time_now env) _ (time_now-IsStill env) λ now.
      let mark : Task → M Task = λ u. pure (record u {
        info = record u.info {
          state = TaskState.running;
          scheduled_at = some now;
          started_at = some now;
        };
      }) in
      bind-IsStill (update_task t.id mark) _
        (update_task-IsStill t.id mark λ u. record { at = λ w. refl; outside = λ w. refl })
        λ done.
          bind-IsStill (get_job t.job_id) _ (get_job-IsStill t.job_id)
            λ j. parallel_loop-IsStill t completions j now [] (tasks_of ts)

  attached-IsMover :
      (t : Task) (s : SubJobInfo) (ts : TaskNodes) → IsMover (schedule_attached_subjob env t s ts)
  unfolding schedule_attached_subjob
  attached-IsMover t s ts = still_then (get_job t.job_id) _ (get_job-IsStill t.job_id) λ job.
      still_then (time_now env) _ (time_now-IsStill env) λ now.
        still_then (new_uuid env) _ (new_uuid-IsStill env) λ id.
          let detached = subjob_of job s ts id now in
          let subjob = record detached {
            parent_id = t.id;
            context = record detached.context { secrets = s.secrets };
          } in
          still_then (update_task t.id (mark_subjob now id)) _
            (update_task-IsStill t.id _ (mark_subjob-IsStill now id))
            λ done.
              bind-IsMover (create_job env subjob) (λ created. publish_job created)
                (create_job-IsMover env subjob) λ created. record { at = λ w. Moves-refl w.db.jobs }

  detached-IsMover :
      (t : Task) (s : SubJobInfo) (ts : TaskNodes) → IsMover (schedule_detached_subjob env t s ts)
  unfolding schedule_detached_subjob
  detached-IsMover t s ts = still_then (get_job t.job_id) _ (get_job-IsStill t.job_id) λ job.
      still_then (time_now env) _ (time_now-IsStill env) λ now.
        still_then (new_uuid env) _ (new_uuid-IsStill env) λ id.
          let subjob = subjob_of job s ts id now in
          bind-IsMover (create_job env subjob) _ (create_job-IsMover env subjob) λ created.
            still_then (publish_job created) _ (publish-IsStill _) λ sent.
              still_then (update_task t.id (mark_subjob now id))
                (λ done. publish_task queue_completed (record t {
                  info = record t.info { completed_at = some now; state = TaskState.completed };
                }))
                (update_task-IsStill t.id _ (mark_subjob-IsStill now id))
                λ done. record { at = λ w. Moves-refl w.db.jobs }

  subjob-IsMover :
      (t : Task) (s : SubJobInfo) (ts : TaskNodes) → IsMover (schedule_subjob env t s ts)
  unfolding schedule_subjob
  subjob-IsMover t s ts =
      if-IsMover s.detached (schedule_detached_subjob env t s ts)
        (schedule_attached_subjob env t s ts) (detached-IsMover t s ts) (attached-IsMover t s ts)

  schedule_task-IsMover : (t : Task) → IsMover (schedule_task env t)
  unfolding schedule_task
  schedule_task-IsMover t =
      elim t.parallel
        as (λ p. IsMover (elim p [
          | parallel_task tasks completions ↦ schedule_parallel_task env t tasks completions
          | no_parallel ↦ elim t.each [
            | each_task e n ↦ schedule_each_task env t e n
            | no_each ↦ elim t.subjob [
              | subjob_task s tasks ↦ schedule_subjob env t s tasks
              | no_subjob ↦ schedule_regular_task env t
            ]
          ]
        ])) [
          | parallel_task tasks completions ↦
              IsStill-IsMover _ (parallel-IsStill t tasks completions)
          | no_parallel ↦
              elim t.each
                as (λ e'. IsMover (elim e' [
                  | each_task e n ↦ schedule_each_task env t e n
                  | no_each ↦ elim t.subjob [
                    | subjob_task s tasks ↦ schedule_subjob env t s tasks
                    | no_subjob ↦ schedule_regular_task env t
                  ]
                ])) [
                  | each_task e n ↦ IsStill-IsMover _ (each-IsStill t e n)
                  | no_each ↦
                      elim t.subjob
                        as (λ s'. IsMover (elim s' [
                          | subjob_task s tasks ↦ schedule_subjob env t s tasks
                          | no_subjob ↦ schedule_regular_task env t
                        ])) [
                          | subjob_task s tasks ↦ subjob-IsMover t s tasks
                          | no_subjob ↦ IsStill-IsMover _ (regular-IsStill t)
                        ]
                ]
        ]

  pub pending-IsMover : (t : Task) → IsMover (Pending.handle env t)
  unfolding Pending.handle
  pending-IsMover t =
      if-IsMover (str_eq (env.trim_space t.if_) "false") (skip_task env t) (schedule_task env t)
        (IsStill-IsMover _ (skip-IsStill t)) (schedule_task-IsMover t)
