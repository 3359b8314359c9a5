-- ===== src/Datastore/Records/Tasks/Kept.antt =====
-- A task that is written to its row is read back from it.
use tork.Prelude.{String, true, false, Option, none, some, [], ◌≡◌, ◌∙◌, refl, ap, arith}
use tork.User.{Time}
use tork.Task.{
  Task, TaskNodes, nil, ParallelTask, no_parallel, parallel_task, EachTask, no_each, each_task,
  SubJobTask, no_subjob, subjob_task,
}
use tork.Eval
use tork.Datastore.Records.{
  Fallible, fine, read, IsReadBack, bind-ok, bind-step, write_column, is_none, is_empty,
  is_none-nil, is_empty-nil,
}
use tork.Datastore.Records.Tasks.{
  Codecs, TaskRecord, no_parallel_in, no_each_in, no_subjob_in, not_null, to_task, record_of, kept,
}

no_parallel_in-nil : (p : ParallelTask) → no_parallel_in p ≡ true → p ≡ no_parallel
unfolding no_parallel_in
no_parallel_in-nil no_parallel absent = refl
no_parallel_in-nil (parallel_task ts n) absent = ground (arith, absent)

no_each_in-nil : (e : EachTask) → no_each_in e ≡ true → e ≡ no_each
unfolding no_each_in
no_each_in-nil no_each absent = refl
no_each_in-nil (each_task e n) absent = ground (arith, absent)

no_subjob_in-nil : (s : SubJobTask) → no_subjob_in s ≡ true → s ≡ no_subjob
unfolding no_subjob_in
no_subjob_in-nil no_subjob absent = refl
no_subjob_in-nil (subjob_task s ts) absent = ground (arith, absent)

always_written : (ts : TaskNodes) → false ≡ true → ts ≡ nil
always_written ts absent = ground (arith, absent)

not_null-some : (o : Option Time) (time : Time) → not_null o ≡ Eval.Result.ok time → some time ≡ o
unfolding not_null
not_null-some none time h = ground (arith, h)
not_null-some (some time') time h = ground (arith, h)

module _ (c : Codecs) where
  -- What is written of the parts of a task is read as these parts.
  pub record TaskIsReadBack (t : Task) : Type 0 where
    pub env : IsReadBack c.texts t.env
    pub files : IsReadBack c.texts t.files
    pub pre : IsReadBack c.tasks t.pre
    pub post : IsReadBack c.tasks t.post
    pub retry : IsReadBack c.retry t.retry
    pub limits : IsReadBack c.limits t.limits
    pub parallel : IsReadBack c.parallel t.parallel
    pub each : IsReadBack c.each t.each
    pub subjob : IsReadBack c.subjob t.subjob
    pub registry : IsReadBack c.registry t.registry
    pub mounts : IsReadBack c.mounts t.mounts

  to_task-parts :
      (x : TaskRecord) (t : Task)
      → read c.texts [] x.env ≡ fine t.env
      → read c.texts [] x.files ≡ fine t.files
      → read c.tasks nil x.pre ≡ fine t.pre
      → read c.tasks nil x.post ≡ fine t.post
      → read c.retry none x.retry ≡ fine t.retry
      → read c.limits none x.limits ≡ fine t.limits
      → read c.parallel no_parallel x.parallel ≡ fine t.parallel
      → read c.each no_each x.each ≡ fine t.each
      → read c.subjob no_subjob x.subjob ≡ fine t.subjob
      → read c.registry none x.registry ≡ fine t.registry
      → read c.mounts [] x.mounts ≡ fine t.mounts
      → to_task c x
        ≡ fine (record t {
          info = record t.info {
            id = x.id;
            job_id = x.job_id;
            position = x.position;
            name = x.name;
            description = x.description;
            state = x.state;
            scheduled_at = x.scheduled_at;
            started_at = x.started_at;
            completed_at = x.completed_at;
            failed_at = x.failed_at;
            cmd = x.cmd;
            entrypoint = x.entrypoint;
            run = x.run;
            image = x.image;
            queue = x.queue;
            error = x.error;
            networks = x.networks;
            node_id = x.node_id;
            timeout = x.timeout;
            var = x.var;
            result = x.result;
            parent_id = x.parent_id;
            gpus = x.gpus;
            if_ = x.if_;
            tags = x.tags;
            priority = x.priority;
            workdir = x.workdir;
            progress = x.progress;
            created_at = some x.created_at;
          };
        })
  unfolding to_task
  to_task-parts x t env' files' pre' post' retry' limits' parallel' each' subjob' registry'
        mounts' =
      bind-step (read c.texts [] x.env) _ t.env _ env' (
        bind-step (read c.texts [] x.files) _ t.files _ files' (
          bind-step (read c.tasks nil x.pre) _ t.pre _ pre' (
            bind-step (read c.tasks nil x.post) _ t.post _ post' (
              bind-step (read c.retry none x.retry) _ t.retry _ retry' (
                bind-step (read c.limits none x.limits) _ t.limits _ limits' (
                  bind-step (read c.parallel no_parallel x.parallel) _ t.parallel _ parallel' (
                    bind-step (read c.each no_each x.each) _ t.each _ each' (
                      bind-step (read c.subjob no_subjob x.subjob) _ t.subjob _ subjob' (
                        bind-step (read c.registry none x.registry) _ t.registry _ registry' (
                          bind-step (read c.mounts [] x.mounts) _ t.mounts _ mounts'
                            (refl)))))))))))

  read_row :
      (x r : TaskRecord) (t : Fallible Task) → fine x ≡ fine r → to_task c x ≡ t → to_task c r ≡ t
  read_row x r t same reads = ground (arith, same, reads)

  -- If a task is written to a row without an error, and the parts of it that are written as JSON are
  -- read as they were, then the row is read as the task, but for its progress, which is 0, and for NUL
  -- characters in its error and its result.
  pub to_task-record_of :
      (sanitize : String → String) (t : Task) (r : TaskRecord)
      → TaskIsReadBack t
      → record_of c sanitize t ≡ Eval.Result.ok r
      → to_task c r ≡ Eval.Result.ok (kept c sanitize t)
  unfolding record_of
  to_task-record_of sanitize t r back written =
      write_column c.texts (is_empty t.env) [] t.env _ r (is_empty-nil t.env) back.env written
        λ env env_read h0.
          write_column c.texts (is_empty t.files) [] t.files _ r (is_empty-nil t.files) back.files
            h0
            λ files files_read h1.
              write_column c.tasks (false) nil t.pre _ r (always_written t.pre) back.pre h1
                λ pre pre_read h2.
                  write_column c.tasks (false) nil t.post _ r (always_written t.post) back.post h2
                    λ post post_read h3.
                      write_column c.retry (is_none t.retry) none t.retry _ r (is_none-nil t.retry)
                        back.retry h3
                        λ retry retry_read h4.
                          write_column c.limits (is_none t.limits) none t.limits _ r
                            (is_none-nil t.limits) back.limits h4
                            λ limits limits_read h5.
                              write_column c.parallel (no_parallel_in t.parallel) no_parallel
                                t.parallel _ r (no_parallel_in-nil t.parallel) back.parallel h5
                                λ parallel parallel_read h6.
                                  write_column c.each (no_each_in t.each) no_each t.each _ r
                                    (no_each_in-nil t.each) back.each h6
                                    λ each each_read h7.
                                      write_column c.subjob (no_subjob_in t.subjob) no_subjob
                                        t.subjob _ r (no_subjob_in-nil t.subjob) back.subjob h7
                                        λ subjob subjob_read h8.
                                          write_column c.registry (is_none t.registry) none
                                            t.registry _ r (is_none-nil t.registry) back.registry h8
                                            λ registry registry_read h9.
                                              write_column c.mounts (is_empty t.mounts) [] t.mounts
                                                _ r (is_empty-nil t.mounts) back.mounts h9
                                                λ mounts mounts_read h10.
                                                  let (time, time_col, same) =
                                                    bind-ok (not_null t.created_at) _ r h10 in
                                                  read_row _ r (fine (kept c sanitize t)) same (
                                                    to_task-parts _ t env_read files_read pre_read
                                                      post_read retry_read limits_read parallel_read
                                                      each_read subjob_read registry_read
                                                      mounts_read
                                                    ∙ ap
                                                        (λ at. fine (record (kept c sanitize t) {
                                                          info = record (kept c sanitize t).info {
                                                            created_at = at;
                                                          };
                                                        }))
                                                        (not_null-some t.created_at time time_col))
