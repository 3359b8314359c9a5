-- ===== src/Datastore/Records/Scheduled.antt =====
-- Rows of scheduled jobs: `toScheduledJob` of datastore/postgres/record.go, and the columns that
-- `CreateScheduledJob` of datastore/postgres/postgres.go writes.
use tork.Prelude.{String, Option, none, some, List, [], ◌≡◌, refl, arith}
use tork.User.{Time, User, Permission}
use tork.Task.{Webhook, Task}
use tork.Job.{ScheduledJobState, ScheduledJob}
use tork.Eval
use tork.Datastore.Records.{
  Fallible, fine, ◌>>=◌, column, read, IsReadBack, bind-step, write_column, write_text, is_none,
  is_empty, is_none-nil, is_empty-nil,
}
use tork.Datastore.Records.Jobs.{Codecs, required}

pub record ScheduledJobRecord : Type 0 where
  pub id : String
  pub cron : String
  pub name : String
  pub description : String
  pub tags : List String
  pub state : ScheduledJobState
  pub created_at : Time
  pub created_by : String
  pub tasks : String
  pub inputs : String
  pub output : String
  pub defaults : Option String
  pub webhooks : Option String
  pub auto_delete : Option String
  pub secrets : Option String

module _ (c : Codecs) where
  unfoldable pub to_scheduled_job :
      ScheduledJobRecord → List Task → Option User → List Permission → Fallible ScheduledJob
  unfolding read required
  to_scheduled_job r tasks created_by permissions = do
    inputs ← c.texts.decode r.inputs
    defaults ← read c.defaults none r.defaults
    auto_delete ← read c.auto_delete none r.auto_delete
    webhooks ← required c.webhooks r.webhooks
    secrets ← read c.texts [] r.secrets
    Eval.Result.ok (record {
      id = r.id;
      cron = r.cron;
      name = r.name;
      tags = r.tags;
      state = r.state;
      created_at = r.created_at;
      created_by = created_by;
      tasks = tasks;
      inputs = inputs;
      description = r.description;
      output = r.output;
      defaults = defaults;
      webhooks = webhooks;
      permissions = permissions;
      auto_delete = auto_delete;
      secrets = secrets;
    })

  unfoldable pub scheduled_record_of : ScheduledJob → User → Fallible ScheduledJobRecord
  unfolding column is_none is_empty
  scheduled_record_of s creator = do
    tasks ← c.tasks.encode s.tasks
    inputs ← c.texts.encode s.inputs
    defaults ← column c.defaults (is_none s.defaults) s.defaults
    auto_delete ← column c.auto_delete (is_none s.auto_delete) s.auto_delete
    webhooks ← c.webhooks.encode s.webhooks
    secrets ← column c.texts (is_empty s.secrets) s.secrets
    Eval.Result.ok (record {
      id = s.id;
      name = s.name;
      description = s.description;
      created_at = s.created_at;
      tasks = tasks;
      inputs = inputs;
      output = s.output;
      defaults = defaults;
      webhooks = some webhooks;
      created_by = creator.id;
      tags = s.tags;
      auto_delete = auto_delete;
      secrets = secrets;
      cron = s.cron;
      state = s.state;
    })

  -- What is written of the parts of a scheduled job is read as these parts.
  pub record ScheduledIsReadBack (s : ScheduledJob) : Type 0 where
    pub tasks : IsReadBack c.tasks s.tasks
    pub inputs : IsReadBack c.texts s.inputs
    pub defaults : IsReadBack c.defaults s.defaults
    pub auto_delete : IsReadBack c.auto_delete s.auto_delete
    pub webhooks : IsReadBack c.webhooks s.webhooks
    pub secrets : IsReadBack c.texts s.secrets

  to_scheduled_job-parts :
      (x : ScheduledJobRecord) (s : ScheduledJob) (u : Option User) (perms : List Permission)
      → c.texts.decode x.inputs ≡ fine s.inputs
      → read c.defaults none x.defaults ≡ fine s.defaults
      → read c.auto_delete none x.auto_delete ≡ fine s.auto_delete
      → required c.webhooks x.webhooks ≡ fine s.webhooks
      → read c.texts [] x.secrets ≡ fine s.secrets
      → to_scheduled_job x s.tasks u perms
        ≡ fine (record s {
          id = x.id;
          cron = x.cron;
          name = x.name;
          tags = x.tags;
          state = x.state;
          created_at = x.created_at;
          created_by = u;
          description = x.description;
          output = x.output;
          permissions = perms;
        })
  unfolding to_scheduled_job
  to_scheduled_job-parts x s u perms inputs defaults auto_delete webhooks secrets =
      bind-step (c.texts.decode x.inputs) _ s.inputs _ inputs (
        bind-step (read c.defaults none x.defaults) _ s.defaults _ defaults (
          bind-step (read c.auto_delete none x.auto_delete) _ s.auto_delete _ auto_delete (
            bind-step (required c.webhooks x.webhooks) _ s.webhooks _ webhooks
              (bind-step (read c.texts [] x.secrets) _ s.secrets _ secrets refl))))

  webhooks-required :
      (text : String) (ws : List Webhook)
      → c.webhooks.decode text ≡ fine ws
      → required c.webhooks (some text) ≡ fine ws
  unfolding required
  webhooks-required text ws reads = reads

  read_row :
      (x r : ScheduledJobRecord) (s : ScheduledJob) (u : Option User) (perms : List Permission)
      → fine x ≡ fine r
      → c.tasks.decode x.tasks ≡ fine s.tasks
      → to_scheduled_job x s.tasks u perms ≡ fine (record s { created_by = u; permissions = perms })
      → (c.tasks.decode r.tasks ≡ fine s.tasks)
        × (to_scheduled_job r s.tasks u perms
            ≡ fine (record s { created_by = u; permissions = perms }))
  read_row x r s u perms same tasks reads = ground (arith, same, tasks, reads)

  -- A scheduled job that is written to its row is read back, with the creator and the permissions that
  -- the reader gives, if its parts that are written as JSON are read as they were.
  pub to_scheduled_job-record_of :
      (s : ScheduledJob) (creator : User) (r : ScheduledJobRecord) (u : Option User)
      → (perms : List Permission) → ScheduledIsReadBack s
      → scheduled_record_of s creator ≡ Eval.Result.ok r
      → (c.tasks.decode r.tasks ≡ Eval.Result.ok s.tasks)
        × (to_scheduled_job r s.tasks u perms
            ≡ Eval.Result.ok (record s { created_by = u; permissions = perms }))
  unfolding scheduled_record_of
  to_scheduled_job-record_of s creator r u perms back written =
      write_text c.tasks s.tasks _ r back.tasks written λ tasks tasks_read h1.
        write_text c.texts s.inputs _ r back.inputs h1 λ inputs inputs_read h2.
          write_column c.defaults (is_none s.defaults) none s.defaults _ r (is_none-nil s.defaults)
            back.defaults h2
            λ defaults defaults_read h3.
              write_column c.auto_delete (is_none s.auto_delete) none s.auto_delete _ r
                (is_none-nil s.auto_delete) back.auto_delete h3
                λ auto_delete auto_delete_read h4.
                  write_text c.webhooks s.webhooks _ r back.webhooks h4 λ webhooks webhooks_read h5.
                    write_column c.texts (is_empty s.secrets) [] s.secrets _ r
                      (is_empty-nil s.secrets) back.secrets h5
                      λ secrets secrets_read same. read_row _ r s u perms same tasks_read (
                        to_scheduled_job-parts _ s u perms inputs_read defaults_read
                          auto_delete_read (webhooks-required webhooks s.webhooks webhooks_read)
                          secrets_read)
