-- ===== src/Broker/Queues.antt =====
-- broker/queues.go, and the topics of broker/broker.go.
use text.Mathlib.Text.{starts_with}
use tork.Prelude.{String, Bool, false, not, ◌&&◌, ◌||◌, List, [], ◌∷◌, str_eq}

abbrev pub queue_pending : String
queue_pending = "pending"

abbrev pub queue_started : String
queue_started = "started"

abbrev pub queue_completed : String
queue_completed = "completed"

abbrev pub queue_error : String
queue_error = "error"

abbrev pub queue_default : String
queue_default = "default"

abbrev pub queue_heartbeat : String
queue_heartbeat = "heartbeat"

abbrev pub queue_jobs : String
queue_jobs = "jobs"

abbrev pub queue_logs : String
queue_logs = "logs"

abbrev pub queue_progress : String
queue_progress = "progress"

abbrev pub queue_exclusive_prefix : String
queue_exclusive_prefix = "x-"

abbrev pub topic_job_completed : String
topic_job_completed = "job.completed"

abbrev pub topic_job_failed : String
topic_job_failed = "job.failed"

contains : List String → String → Bool
contains [] s = false
contains (q ∷ qs) s = str_eq q s || contains qs s

abbrev pub coordinator_queues : List String
coordinator_queues =
    queue_pending ∷ queue_started ∷ queue_completed ∷ queue_error ∷ queue_heartbeat ∷ queue_jobs
    ∷ queue_logs ∷ queue_progress ∷ []

unfoldable pub is_coordinator_queue : String → Bool
unfolding contains
is_coordinator_queue qname = contains coordinator_queues qname

unfoldable pub is_worker_queue : String → Bool
unfolding is_coordinator_queue
is_worker_queue qname = not (is_coordinator_queue qname)

unfoldable pub is_task_queue : String → Bool
unfolding is_coordinator_queue
is_task_queue qname =
    not (is_coordinator_queue qname) && not (starts_with qname queue_exclusive_prefix)
