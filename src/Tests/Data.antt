-- ===== src/Tests/Data.antt =====
-- Rows and copies.
use tork.Prelude.{◌≡◌, ◌≢◌, ◌≤◌, refl, some, none, [], ◌∷◌, arith, eq_iff, inr, All}
use tork.Job.{Job, ScheduledJob, ScheduledJobState}
use tork.Job.Clone as Copies
use tork.Node.{Node}
use tork.Exec.{World}
use tork.Datastore.{find_row, task_key, node_key}
use tork.Handlers.Heartbeats
use tork.Handlers.Heartbeats.Monotone.{IsStatus, handle_known}
use tork.Tests.Samples.{done_row, waiting_row, two_task_job, world_of, user, worker, env}

abbrev w : World
w = world_of (done_row ∷ []) (two_task_job ∷ [])

row_found : find_row task_key "t1" w.db.tasks ≡ some done_row
unfolding find_row
row_found = refl

apart_back : done_row.id ≢ waiting_row.id
apart_back = ground (arith, eq_iff done_row.id waiting_row.id)

-- A job with one permission, for a user.
abbrev shared_job : Job
shared_job = record two_task_job {
  delete_at = some 9;
  created_by = some user;
  permissions = record { role = none; user = some user } ∷ [];
}

clean : All Copies.IsClean shared_job.permissions
clean = (inr (refl, (user, refl, refl)), tt)

clone-eq_kept_example : Copies.clone shared_job ≡ some (record shared_job { delete_at = none })
clone-eq_kept_example = Copies.clone-eq_kept shared_job clean refl

abbrev nightly : ScheduledJob
nightly = record {
  id = "c1";
  name = "";
  description = "";
  cron = "0 0 * * *";
  state = ScheduledJobState.active;
  inputs = [];
  tasks = done_row ∷ [];
  created_by = some user;
  defaults = none;
  auto_delete = none;
  webhooks = [];
  permissions = record { role = none; user = some user } ∷ [];
  created_at = 0;
  tags = [];
  secrets = [];
  output = "";
}

node_found : find_row node_key "n1" w.db.nodes ≡ some worker
unfolding find_row
node_found = refl

-- A heartbeat that was overtaken by a later one.
abbrev late : Node
late = record worker { last_heartbeat_at = 3 }

handle_known_example :
    (u : Node) × (find_row node_key "n1" (Heartbeats.handle env late w).1.db.nodes ≡ some u)
    × (5 ≤ u.last_heartbeat_at)
    × (3 ≤ u.last_heartbeat_at)
    × (u.queue ≡ "x-n1")
    × (u.hostname ≡ "h")
    × IsStatus late worker 101 u.status
handle_known_example = handle_known env late worker w node_found
