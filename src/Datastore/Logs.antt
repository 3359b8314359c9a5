-- ===== src/Datastore/Logs.antt =====
-- datastore/postgres/postgres.go: the parts of the logs of tasks
use Prim.Native.String.{slice, len}
use text.Mathlib.Text.{starts_with}
use tork.Prelude.{
  ℕ, String, Bool, true, false, ◌||◌, not, Option, none, some, List, [], ◌∷◌, ◌++◌, length, ltb,
  leb, ◌==◌, str_eq, if◌then◌else◌,
}
use tork.User.{Time}
use tork.Task.{TaskLogPart, Task}
use tork.Exec.{
  World, Env, M, missing_task_id, invalid_part_number, pure, ensure, gets, ◌>>=◌, ◌>>◌, time_now,
  new_uuid,
}
use tork.Datastore.{sort, find_row, task_key}
use tork.Datastore.Users.{filter_rows}
use tork.Datastore.Paging.{Page, page_of}

-- `strings.Fields`, `strings.Split` at commas, `strings.Join` with spaces, and whether the search
-- vector of a row matches a term.
pub record Search : Type 0 where
  pub fields : String → List String
  pub split_commas : String → List String
  pub join : List String → String
  pub found_in : List String → String → Bool

-- One part of a query, added to the terms and the tags so far.
add_part : Search → String → List String × List String → List String × List String
add_part search part (terms, tags) =
    if starts_with part "tag:"
    then (terms, tags ++ slice part 4 (len part) ∷ [])
    else if starts_with part "tags:"
    then (terms, tags ++ search.split_commas (slice part 5 (len part)))
    else (terms ++ part ∷ [], tags)

parse_parts : Search → List String → List String × List String → List String × List String
unfolding add_part
parse_parts search [] acc = acc
parse_parts search (part ∷ parts) acc = parse_parts search parts (add_part search part acc)

-- `parseQuery`
unfoldable pub parse_query : Search → String → String × List String
unfolding parse_parts
parse_query search query =
    let (terms, tags) = parse_parts search (search.fields query) ([], []) in
    (search.join terms, tags)

abbrev pub set_log_parts : List TaskLogPart → World → World
set_log_parts ps w = record w { db = record w.db { log_parts = ps } }

-- CreateTaskLogPart
unfoldable pub create_task_log_part : Env → TaskLogPart → M (Unit {0})
create_task_log_part env p = do
  ensure (not (str_eq p.task_id "")) missing_task_id
  ensure (not (ltb p.number 1)) invalid_part_number
  id ← new_uuid env
  now ← time_now env
  λ w.
      pure tt (set_log_parts (w.db.log_parts ++ record p { id = id; created_at = some now } ∷ []) w)

-- The highest number first.
abbrev later_part : TaskLogPart → TaskLogPart → Bool
later_part p q = leb q.number p.number

module _ (search : Search) where
  part_found : String → TaskLogPart → Bool
  part_found term p = str_eq term "" || search.found_in (p.contents ∷ []) term

  parts_of_task : String → World → List TaskLogPart
  unfolding filter_rows
  parts_of_task task_id w = filter_rows (λ p. str_eq p.task_id task_id) w.db.log_parts

  -- GetTaskLogParts, whose count is of all the parts of the task
  unfoldable pub get_task_log_parts : String → String → ℕ → ℕ → M (Page TaskLogPart)
  unfolding parse_query part_found parts_of_task sort page_of
  get_task_log_parts task_id q page size = gets λ w.
      let (term, tags) = parse_query search q in
      let parts = parts_of_task task_id w in
      page_of (length parts) page size (sort later_part (filter_rows (part_found term) parts))

  -- The parts of the tasks of a job, each with its task.
  joined : String → List Task → List TaskLogPart → List (Task × TaskLogPart)
  unfolding find_row
  joined job_id tasks [] = []
  joined job_id tasks (p ∷ ps) =
      let rest = joined job_id tasks ps in
      elim (find_row task_key p.task_id tasks) [
        | none ↦ rest
        | some t ↦ if str_eq t.job_id job_id then (t, p) ∷ rest else rest
      ]

  -- In descending order, NULL comes first.
  newer : Option Time → Option Time → Bool
  newer none b = true
  newer (some a) none = false
  newer (some a) (some b) = ltb b a

  same_time : Option Time → Option Time → Bool
  same_time none none = true
  same_time (some a) (some b) = a == b
  same_time a b = false

  -- `order by t.position desc, t.created_at desc, tlp.number_ desc, tlp.created_at DESC`
  later_in_job : Task × TaskLogPart → Task × TaskLogPart → Bool
  unfolding newer same_time
  later_in_job (t, p) (u, q) =
      if not (t.position == u.position)
      then ltb u.position t.position
      else if not (same_time t.created_at u.created_at)
      then newer t.created_at u.created_at
      else if not (p.number == q.number)
      then ltb q.number p.number
      else newer p.created_at q.created_at || same_time p.created_at q.created_at

  parts_only : List (Task × TaskLogPart) → List TaskLogPart
  parts_only [] = []
  parts_only ((t, p) ∷ rest) = p ∷ parts_only rest

  -- GetJobLogParts, whose count is of all the parts of the job
  unfoldable pub get_job_log_parts : String → String → ℕ → ℕ → M (Page TaskLogPart)
  unfolding parse_query part_found joined later_in_job parts_only sort page_of filter_rows
  get_job_log_parts job_id q page size = gets λ w.
      let (term, tags) = parse_query search q in
      let rows = joined job_id w.db.tasks w.db.log_parts in
      page_of (length rows) page size
        (parts_only (sort later_in_job (filter_rows (λ r. part_found term r.1) rows)))
