-- ===== src/Datastore/Records/Jobs/Kept.antt =====
-- A job that is written to its row is read back from it.
use tork.Prelude.{String, Option, none, some, List, [], ◌≡◌, refl, arith}
use tork.User.{User, Permission}
use tork.Task.{Webhook, Task}
use tork.Job.{Job}
use tork.Eval
use tork.Datastore.Records.{
  fine, read, IsReadBack, bind-step, write_column, write_text, is_none, is_empty, is_none-nil,
  is_empty-nil,
}
use tork.Datastore.Records.Jobs.{Codecs, JobRecord, required, schedule_of, to_job, record_of, kept}

module _ (c : Codecs) where
  -- What is written of the parts of a job is read as these parts.
  pub record JobIsReadBack (j : Job) : Type 0 where
    pub tasks : IsReadBack c.tasks j.tasks
    pub context : IsReadBack c.context j.context
    pub inputs : IsReadBack c.texts j.inputs
    pub defaults : IsReadBack c.defaults j.defaults
    pub auto_delete : IsReadBack c.auto_delete j.auto_delete
    pub webhooks : IsReadBack c.webhooks j.webhooks
    pub secrets : IsReadBack c.texts j.secrets

  to_job-parts :
      (x : JobRecord) (j : Job) (execution : List Task) (u : Option User) (perms : List Permission)
      → c.context.decode x.context ≡ fine j.context
      → c.texts.decode x.inputs ≡ fine j.inputs
      → read c.defaults none x.defaults ≡ fine j.defaults
      → read c.auto_delete none x.auto_delete ≡ fine j.auto_delete
      → required c.webhooks x.webhooks ≡ fine j.webhooks
      → read c.texts [] x.secrets ≡ fine j.secrets
      → to_job c x j.tasks execution u perms
        ≡ fine (record j {
          id = x.id;
          name = x.name;
          tags = x.tags;
          state = x.state;
          created_at = x.created_at;
          created_by = u;
          started_at = x.started_at;
          completed_at = x.completed_at;
          failed_at = x.failed_at;
          execution = execution;
          position = x.position;
          description = x.description;
          parent_id = x.parent_id;
          task_count = x.task_count;
          output = x.output;
          result = x.result;
          error = x.error;
          permissions = perms;
          delete_at = x.delete_at;
          progress = x.progress;
          schedule = schedule_of x.scheduled_job_id;
        })
  unfolding to_job
  to_job-parts x j execution u perms context inputs defaults auto_delete webhooks secrets =
      bind-step (c.context.decode x.context) _ j.context _ context (
        bind-step (c.texts.decode x.inputs) _ j.inputs _ inputs (
          bind-step (read c.defaults none x.defaults) _ j.defaults _ defaults (
            bind-step (read c.auto_delete none x.auto_delete) _ j.auto_delete _ auto_delete (
              bind-step (required c.webhooks x.webhooks) _ j.webhooks _ webhooks
                (bind-step (read c.texts [] x.secrets) _ j.secrets _ secrets refl)))))

  webhooks-required :
      (s : String) (ws : List Webhook)
      → c.webhooks.decode s ≡ fine ws
      → required c.webhooks (some s) ≡ fine ws
  unfolding required
  webhooks-required s ws reads = reads

  read_row :
      (x r : JobRecord) (j : Job) (execution : List Task) (u : Option User)
      (perms : List Permission)
      → fine x ≡ fine r
      → c.tasks.decode x.tasks ≡ fine j.tasks
      → to_job c x j.tasks execution u perms ≡ fine (kept j execution u perms)
      → (c.tasks.decode r.tasks ≡ fine j.tasks)
        × (to_job c r j.tasks execution u perms ≡ fine (kept j execution u perms))
  read_row x r j execution u perms same tasks reads = ground (arith, same, tasks, reads)

  -- If a job is written to a row without an error, and the parts of it that are written as JSON are
  -- read as they were, then the tasks of the row are those of the job, and the row is read as the job
  -- with what the reader gives (its creator, permissions and execution), but for the times of its end,
  -- failure and deletion, which are none, its progress, which is 0, and the expression of its schedule,
  -- which is "".
  pub to_job-record_of :
      (j : Job) (creator : User) (r : JobRecord) (execution : List Task) (u : Option User)
      → (perms : List Permission) → JobIsReadBack j
      → record_of c j creator ≡ Eval.Result.ok r
      → (c.tasks.decode r.tasks ≡ Eval.Result.ok j.tasks)
        × (to_job c r j.tasks execution u perms ≡ Eval.Result.ok (kept j execution u perms))
  unfolding record_of
  to_job-record_of j creator r execution u perms back written =
      write_text c.tasks j.tasks _ r back.tasks written λ tasks tasks_read h1.
        write_text c.context j.context _ r back.context h1 λ context context_read h2.
          write_text c.texts j.inputs _ r back.inputs h2 λ inputs inputs_read h3.
            write_column c.defaults (is_none j.defaults) none j.defaults _ r
              (is_none-nil j.defaults) back.defaults h3
              λ defaults defaults_read h4.
                write_column c.auto_delete (is_none j.auto_delete) none j.auto_delete _ r
                  (is_none-nil j.auto_delete) back.auto_delete h4
                  λ auto_delete auto_delete_read h5.
                    write_text c.webhooks j.webhooks _ r back.webhooks h5
                      λ webhooks webhooks_read h6.
                        write_column c.texts (is_empty j.secrets) [] j.secrets _ r
                          (is_empty-nil j.secrets) back.secrets h6
                          λ secrets secrets_read same.
                            read_row _ r j execution u perms same tasks_read (
                              to_job-parts _ j execution u perms context_read inputs_read
                                defaults_read auto_delete_read
                                (webhooks-required webhooks j.webhooks webhooks_read) secrets_read)
