-- ===== src/Tests/Rows.antt =====
-- Rows of a task and of a job, with a notation that knows one value of each type.
use tork.Prelude.{
  String, none, some, [], ◌∷◌, Dict, ◌≡◌, refl, arith, str_eq, eq_iff, if◌then◌else◌,
}
use tork.Task.{Registry, Task, nil, no_parallel, no_each, no_subjob}
use tork.Job.{Job}
use tork.Eval
use tork.Datastore.Records.{Codec, column, some_text, is_none, is_empty, IsReadBack}
use tork.Datastore.Records.Tasks
use tork.Datastore.Records.Tasks.{
  TaskRecord, to_task, not_null, no_parallel_in, no_each_in, no_subjob_in,
}
use tork.Datastore.Records.Tasks.Kept.{TaskIsReadBack, to_task-record_of}
use tork.Datastore.Records.Jobs
use tork.Datastore.Records.Jobs.{JobRecord, to_job, scheduled_id}
use tork.Datastore.Records.Jobs.Kept.{JobIsReadBack, to_job-record_of}
use tork.Tests.Samples.{done_row, two_task_job, user}

abbrev knows : {A : Type 0} → String → A → Codec A
knows text a = record {
  encode = λ a'. Eval.Result.ok text;
  decode = λ s. if str_eq s text then Eval.Result.ok a else Eval.Result.err "unknown";
}

knows-IsReadBack : {A : Type 0} (text : String) (a : A) → IsReadBack (knows text a) a
knows-IsReadBack text a s written = ground (arith, eq_iff s text, written)

abbrev vars : Dict String
vars = ("A", "1") ∷ []

abbrev login : Registry
login = record { username = "me"; password = "secret" }

abbrev t : Task
t = record done_row {
  info = record done_row.info {
    created_at = some 5;
    env = vars;
    files = vars;
    registry = some login;
    progress = 4;
  };
}

abbrev codecs : Tasks.Codecs
codecs = record {
  texts = knows "{\"A\":\"1\"}" vars;
  tasks = knows "null" nil;
  retry = knows "" none;
  limits = knows "" none;
  parallel = knows "" no_parallel;
  each = knows "" no_each;
  subjob = knows "" no_subjob;
  registry = knows "{\"username\":\"me\",\"password\":\"secret\"}" (some login);
  mounts = knows "" [];
}

t_back : TaskIsReadBack codecs t
t_back = record {
  env = knows-IsReadBack _ vars;
  files = knows-IsReadBack _ vars;
  pre = knows-IsReadBack _ nil;
  post = knows-IsReadBack _ nil;
  retry = knows-IsReadBack _ none;
  limits = knows-IsReadBack _ none;
  parallel = knows-IsReadBack _ no_parallel;
  each = knows-IsReadBack _ no_each;
  subjob = knows-IsReadBack _ no_subjob;
  registry = knows-IsReadBack _ (some login);
  mounts = knows-IsReadBack _ [];
}

-- The row of the task.
written : (r : TaskRecord) × (Tasks.record_of codecs (λ s. s) t ≡ Eval.Result.ok r)
unfolding Tasks.record_of column some_text is_none is_empty not_null no_parallel_in no_each_in
    no_subjob_in
written = (_, refl)

to_task-record_of_example : to_task codecs written.0 ≡ Eval.Result.ok (Tasks.kept codecs (λ s. s) t)
to_task-record_of_example = to_task-record_of codecs (λ s. s) t written.0 t_back written.1

abbrev j : Job
j = record two_task_job {
  inputs = vars;
  secrets = vars;
  progress = 4;
  schedule = some (record { id = "s1"; cron = "* * * * *" });
}

abbrev job_codecs : Jobs.Codecs
job_codecs = record {
  texts = knows "{\"A\":\"1\"}" vars;
  tasks = knows "[]" j.tasks;
  context = knows "{}" j.context;
  defaults = knows "" j.defaults;
  webhooks = knows "null" j.webhooks;
  auto_delete = knows "" j.auto_delete;
}

j_back : JobIsReadBack job_codecs j
j_back = record {
  tasks = knows-IsReadBack _ j.tasks;
  context = knows-IsReadBack _ j.context;
  inputs = knows-IsReadBack _ vars;
  defaults = knows-IsReadBack _ j.defaults;
  auto_delete = knows-IsReadBack _ j.auto_delete;
  webhooks = knows-IsReadBack _ j.webhooks;
  secrets = knows-IsReadBack _ vars;
}

job_written : (r : JobRecord) × (Jobs.record_of job_codecs j user ≡ Eval.Result.ok r)
unfolding Jobs.record_of column some_text is_none is_empty
job_written = (_, refl)

to_job-record_of_example :
    (job_codecs.tasks.decode job_written.0.tasks ≡ Eval.Result.ok j.tasks)
    × (to_job job_codecs job_written.0 j.tasks [] (some user) []
        ≡ Eval.Result.ok (Jobs.kept j [] (some user) []))
to_job-record_of_example =
    to_job-record_of job_codecs j user job_written.0 [] (some user) [] j_back job_written.1
