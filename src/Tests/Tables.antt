-- ===== src/Tests/Tables.antt =====
-- Pages, deletions, permissions, progress, scheduled jobs, and moves of jobs.
use tork.Prelude.{
  ℕ, String, true, false, not, none, some, List, [], ◌∷◌, ◌++◌, length, ◌≡◌, ◌≢◌, refl, All, arith,
  eq_iff,
}
use tork.User.{Permission}
use tork.Job.{Job, ScheduledJobState, ScheduledJob}
use tork.Exec.{World, ok}
use tork.Datastore.{find_row, job_key, set_jobs}
use tork.Datastore.Paging.{pages_for}
use tork.Datastore.Paging.All.{first_pages, page_of-all}
use tork.Datastore.Logs.{Search}
use tork.Datastore.Cleanup.{is_any, ids_of_tasks, delete_jobs}
use tork.Datastore.Cleanup.Deleted.{delete_jobs-others}
use tork.Datastore.Listing.{get_jobs}
use tork.Datastore.Listing.Visible.{get_jobs-hidden}
use tork.Handlers.Progress
use tork.Handlers.Progress.{clamp, overall}
use tork.Handlers.Schedule
use tork.Handlers.Schedule.{Schedules, lookup}
use tork.Handlers.Schedule.Entries.{handle-paused}
use tork.Tests.Samples.{done_row, two_task_job, subjob, user, world_of}

abbrev w : World
w = world_of (done_row ∷ []) (two_task_job ∷ subjob ∷ [])

abbrev three_rows : List ℕ
three_rows = 7 ∷ 8 ∷ 9 ∷ []

-- Three rows make two pages of two.
page_of-all_example :
    first_pages (length three_rows) 2 (pages_for (length three_rows) 2) three_rows ≡ three_rows
page_of-all_example = page_of-all three_rows 2 (omega arith)

other_job : is_any ("j1" ∷ []) "s1" ≡ false
unfolding is_any
other_job = refl

delete_jobs-others_example :
    let v = (delete_jobs ("j1" ∷ []) w).1 in
    All (λ j. not (is_any ("j1" ∷ []) j.id) ≡ true) v.db.jobs
    × All (λ t. not (is_any ("j1" ∷ []) t.job_id) ≡ true) v.db.tasks
    × All (λ p. not (is_any (ids_of_tasks ("j1" ∷ []) w.db.tasks) p.task_id) ≡ true) v.db.log_parts
    × (find_row job_key "s1" v.db.jobs ≡ find_row job_key "s1" w.db.jobs)
delete_jobs-others_example = delete_jobs-others "j1" [] "s1" w other_job

abbrev search : Search
search = record {
  fields = λ q. [];
  split_commas = λ q. [];
  join = λ ts. "";
  found_in = λ texts term. true;
}

abbrev only_guest : Permission
only_guest = record { role = none; user = some user }

abbrev hidden_job : Job
hidden_job = record two_task_job { permissions = only_guest ∷ [] }

abbrev someone : String
someone = "someone"

named : someone ≢ ""
named = ground (arith, eq_iff someone "")

not_guest : user.username ≢ someone
not_guest = ground (arith, eq_iff user.username someone)

get_jobs-hidden_example :
    (get_jobs search (λ s. "") someone "" 1 10 (set_jobs (subjob ∷ [] ++ hidden_job ∷ []) w)).0
    ≡ (get_jobs search (λ s. "") someone "" 1 10 (set_jobs (subjob ∷ [] ++ []) w)).0
get_jobs-hidden_example =
    get_jobs-hidden search (λ s. "") someone "" 1 10 w (subjob ∷ []) [] hidden_job only_guest []
      refl named ((refl, (user, refl, not_guest)), tt)

-- Half of the first of two tasks is a quarter.
quarter : overall 5000 two_task_job ≡ 2500
unfolding overall
quarter = refl

abbrev nightly : ScheduledJob
nightly = record {
  id = "c1";
  name = "";
  description = "";
  cron = "0 0 * * *";
  state = ScheduledJobState.active;
  inputs = [];
  tasks = done_row ∷ [];
  created_by = none;
  defaults = none;
  auto_delete = none;
  webhooks = [];
  permissions = [];
  created_at = 0;
  tags = [];
  secrets = [];
  output = "";
}

abbrev nightly_paused : ScheduledJob
nightly_paused = record nightly { state = ScheduledJobState.paused }

abbrev nothing_scheduled : Schedules
nothing_scheduled = record { m = []; entries = []; next_id = 0 }

no_entry : lookup "c1" nothing_scheduled.m ≡ none
unfolding lookup
no_entry = refl

handle-paused_example :
    let st' = (Schedule.handle (λ c. true) nightly nothing_scheduled).1 in
    ((Schedule.handle (λ c. true) nightly nothing_scheduled).0 ≡ ok tt)
    × (st'.entries ≡ nothing_scheduled.entries ++ record { id = 0; job = nightly } ∷ [])
    × ((Schedule.handle (λ c. true) nightly_paused st').0 ≡ ok tt)
    × ((Schedule.handle (λ c. true) nightly_paused st').1.entries ≡ nothing_scheduled.entries)
    × ((Schedule.handle (λ c. true) nightly_paused st').1.m ≡ nothing_scheduled.m)
handle-paused_example =
    handle-paused (λ c. true) nightly nightly_paused nothing_scheduled tt refl refl refl refl
      no_entry
