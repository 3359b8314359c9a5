-- ===== src/Handlers/Cancel/Cancelled.antt =====
-- What a cancellation leaves of the active tasks of a job.
use tork.Prelude.{Bool, true, false, some, none, Option, String, List}
use tork.Task.{Task, TaskState}
use tork.Datastore.{find_row, task_key}
use tork.Handlers.Cancel.{cancel_row, tell_holder, tell_holder, cancel_row}

-- There is a row with the identifier, and it is CANCELLED.
is_cancelled_row : Option Task → Bool
is_cancelled_row none = false
is_cancelled_row (some u) = elim u.state [ TaskState.cancelled ↦ true | _ ↦ false ]

unfoldable pub is_cancelled_in : List Task → String → Bool
unfolding is_cancelled_row
is_cancelled_in rows id = is_cancelled_row (find_row task_key id rows)
