-- ===== src/Datastore/Listing.antt =====
-- datastore/postgres/postgres.go: lists of jobs, scheduled jobs and nodes, and the
-- summaries of job.go that they consist of. A page of jobs holds those that a user may see.
use tork.Prelude.{
  ℕ, suc, ◌+◌, ◌-◌, ◌/◌, String, Bool, true, false, not, ◌&&◌, ◌||◌, Option, none, some, List, [],
  ◌∷◌, Dict, length, ltb, leb, ◌==◌, str_eq, if◌then◌else◌,
}
use tork.User.{Time, Role, User, Permission}
use tork.Task.{TaskState, Task}
use tork.Job.{JobState, ScheduledJobState, Job, ScheduledJob, JobSummary, new_job_summary}
use tork.Node.{Node}
use tork.Exec.{World, Env, M, ok, err, pure, gets, ◌>>=◌, time_now}
use tork.Datastore.{read_node, sort}
use tork.Datastore.Users.{filter_rows, find_first, has_role}
use tork.Datastore.Paging.{Page, page_of}
use tork.Datastore.Logs.{Search, parse_query}
use tork.Datastore.Cleanup.{is_any}
pub mod Visible

pub record ScheduledJobSummary : Type 0 where
  pub id : String
  pub created_by : Option User
  pub inputs : Dict String
  pub state : ScheduledJobState
  pub name : String
  pub description : String
  pub tags : List String
  pub created_at : Time
  pub cron : String

unfoldable pub new_scheduled_job_summary : ScheduledJob → ScheduledJobSummary
new_scheduled_job_summary j = record {
  id = j.id;
  created_by = j.created_by;
  name = j.name;
  state = j.state;
  description = j.description;
  tags = j.tags;
  inputs = j.inputs;
  cron = j.cron;
  created_at = j.created_at;
}

-- The identifier of a user, and whether the user has a role.
user_id_of : String → World → Option String
unfolding find_first
user_id_of username w = elim (find_first (λ u. str_eq u.username username) w.db.users) [
  | none ↦ none
  | some u ↦ some u.id
]

-- The role with a slug, by its identifier.
role_id_of : String → World → Option String
unfolding find_first
role_id_of slug w = elim (find_first (λ r. str_eq r.slug slug) w.db.roles) [
  | none ↦ none
  | some r ↦ some r.id
]

-- `jp.user_id = … OR jp.role_id IN …`. A row of permissions was made from the slug of the role, or
-- else from the name of the user.
grants : String → String → World → Permission → Bool
unfolding has_role role_id_of
grants username user_id w p = elim p.role [
  | some r ↦ elim (role_id_of r.slug w) [ none ↦ false | some id ↦ has_role user_id w id ]
  | none ↦ elim p.user [ none ↦ false | some u ↦ str_eq u.username username ]
]

unfoldable pub any_grants : String → String → World → List Permission → Bool
unfolding grants
any_grants username user_id w [] = false
any_grants username user_id w (p ∷ ps) =
    grants username user_id w p || any_grants username user_id w ps

-- Whether a user may see what has the permissions. Without permissions it is seen by all, and for no
-- user at all everything is.
unfoldable pub visible : String → World → List Permission → Bool
unfolding user_id_of any_grants
visible username w [] = true
visible username w (p ∷ ps) =
    str_eq username ""
    || elim (user_id_of username w) [ none ↦ false | some id ↦ any_grants username id w (p ∷ ps) ]

-- `j.tags && $2`
share_tag : List String → List String → Bool
unfolding is_any
share_tag [] tags = false
share_tag (t ∷ ts) tags = is_any tags t || share_tag ts tags

tagged : List String → List String → Bool
unfolding share_tag
tagged [] job_tags = true
tagged (t ∷ ts) job_tags = share_tag (t ∷ ts) job_tags

-- The latest first.
abbrev pub newer_job : Job → Job → Bool
newer_job i j = leb j.created_at i.created_at

abbrev pub newer_scheduled : ScheduledJob → ScheduledJob → Bool
newer_scheduled i j = leb j.created_at i.created_at

summaries : List Job → List JobSummary
unfolding new_job_summary
summaries [] = []
summaries (j ∷ js) = new_job_summary (record j { permissions = [] }) ∷ summaries js

scheduled_summaries : List ScheduledJob → List ScheduledJobSummary
unfolding new_scheduled_job_summary
scheduled_summaries [] = []
scheduled_summaries (j ∷ js) =
    new_scheduled_job_summary (record j { permissions = [] }) ∷ scheduled_summaries js

module _ (search : Search) (state_text : JobState → String) where
  -- The condition of the statement. The search vector is of the description, the name and the state.
  unfoldable pub listed : String → String → List String → World → Job → Bool
  unfolding tagged visible
  listed username term tags w j =
      (str_eq term "" || search.found_in (j.description ∷ j.name ∷ state_text j.state ∷ []) term)
      && tagged tags j.tags
      && visible username w j.permissions

  -- GetJobs
  unfoldable pub get_jobs : String → String → ℕ → ℕ → M (Page JobSummary)
  unfolding parse_query listed summaries sort filter_rows page_of
  get_jobs username q page size = gets λ w.
      let (term, tags) = parse_query search q in
      let rows = sort newer_job (filter_rows (listed username term tags w) w.db.jobs) in
      page_of (length rows) page size (summaries rows)

-- GetScheduledJobs
unfoldable pub get_scheduled_jobs : String → ℕ → ℕ → M (Page ScheduledJobSummary)
unfolding visible scheduled_summaries sort filter_rows page_of
get_scheduled_jobs username page size = gets λ w.
    let rows =
      sort newer_scheduled
        (filter_rows (λ j. visible username w j.permissions) w.db.scheduled_jobs) in
    page_of (length rows) page size (scheduled_summaries rows)

-- `tork.LAST_HEARTBEAT_TIMEOUT`, in nanoseconds
abbrev pub last_heartbeat_timeout : Time
last_heartbeat_timeout = 300000000000

-- The nodes of these rows, each read at its time.
unfoldable pub read_nodes : Env → List Node → M (List Node)
unfolding read_node
read_nodes env [] = pure []
read_nodes env (n ∷ ns) = do
  now ← time_now env
  rest ← read_nodes env ns
  pure (read_node now n ∷ rest)

-- GetActiveNodes. The order of texts is that of the database.
unfoldable pub get_active_nodes : Env → (String → String → Bool) → M (List Node)
unfolding sort filter_rows read_nodes
get_active_nodes env text_le = do
  now ← time_now env
  rows ← gets λ w.
      sort (λ m n. text_le m.name n.name)
        (filter_rows (λ n. ltb (now - last_heartbeat_timeout) n.last_heartbeat_at) w.db.nodes)
  read_nodes env rows
