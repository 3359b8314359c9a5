-- ===== src/Lib.antt =====
-- Tork runs workflows. A job is a list of tasks that run one after the other; a task may hold
-- tasks that run in parallel, a task for each item of a list, or a job of its own. A coordinator
-- keeps jobs and tasks in a datastore, sends tasks to workers over a broker, and reacts to what the
-- workers send back. This library models the data, the checks and conversions of input, the
-- evaluation of templates in tasks, the datastore's operations, the scheduler, the handlers of
-- messages and their wiring, what a worker does with a task, the run of a task by docker, by podman
-- and as a process, the broker within one process, the requests of the HTTP interface, webhooks,
-- the redaction of secrets and wildcard patterns.
--
-- Which file models which part (paths from the root of the repository):
--   Task, Task/Clone         task.go, mount.go, and Webhook and AutoDelete of job.go
--   Job, Job/Clone           job.go
--   User, User/Clone         user.go, role.go, and Permission of job.go
--   Node                     node.go
--   Eval, Eval/Keeps         internal/eval/eval.go: EvaluateTask, EvaluateTemplate, EvaluateExpr
--   Exec                     what a handler acts on: datastore/datastore.go, broker/broker.go, and
--                            WithTx of datastore/postgres/postgres.go
--   Datastore                datastore/postgres/postgres.go: CreateTask, GetTaskByID, UpdateTask,
--                            GetActiveTasks, GetNextTask, CreateJob, GetJobByID, UpdateJob,
--                            CreateNode, GetNodeByID, UpdateNode. Of the same file, Users has
--                            users and roles, Logs the parts of logs, Scheduled the scheduled
--                            jobs, Paging the pages of a list, Listing GetJobs,
--                            GetScheduledJobs and GetActiveNodes, Cleanup the expunging of old
--                            rows, and Records, with datastore/postgres/record.go, the rows as
--                            they are written and read
--   Broker/Queues            broker/queues.go and the topics of broker/broker.go
--   Broker/InMemory          broker/inmemory.go
--   Scheduler                internal/coordinator/scheduler/scheduler.go: ScheduleTask is
--                            schedule_task, with a file for each kind of task
--   Handlers                 internal/coordinator/handlers: Pending, Completed, Jobs, Cancel,
--                            Errors, Started, Heartbeats model pending.go, completed.go, job.go,
--                            cancel.go, error.go, started.go, heartbeat.go, Progress
--                            models progress.go and log.go, Schedule models schedule.go; Fire
--                            has the statements that job.go and completed.go share, States
--                            their tests
--   Moves                    the states of jobs as a step relation, and what handlers do to rows
--   Coordinator              internal/coordinator/coordinator.go: queues and their handlers
--   Api                      internal/coordinator/api/api.go: the requests
--   Input                    input/job.go, input/task.go (ToTask, ToJob) and input/validate.go
--                            (Validate)
--   Worker                   internal/worker/worker.go and the middleware of
--                            middleware/task/task.go; Start the subscriptions, Ports the ports
--   Runtimes                 Docker models runtime/docker/docker.go, Podman models
--                            runtime/podman/podman.go, Shell models runtime/shell/shell.go; Host
--                            is what they act on, Sides the loops that they share, Mounts the
--                            mounters (runtime/multi.go, bind.go and volume.go), Tidy and
--                            Plain the lemmas on what is obtained and given back
--   Middleware, Webhook      middleware/job/webhook.go, middleware/task/webhook.go,
--                            middleware/task/hostenv.go; internal/webhook/webhook.go
--   Redact                   internal/redact/redact.go
--   Wildcard                 internal/wildcard/wildcard.go
--   Prelude                  shared names, Boolean tests, lists, maps
--   Tests                    concrete runs
--
-- How they interact. A handler is an action of Exec, a function from a World to a result and the
-- next World. A World has the tables, the tables as other connections see them while a
-- transaction is open, the messages sent so far in their order, and two counters, for the readings
-- of the clock and for the identifiers drawn. The handlers call one another as the constructors of
-- the code wire them: completed tasks and errors call the handler of jobs, which calls those of
-- cancellations and of pending tasks, which calls the scheduler. What goes by a queue is a message
-- of the World, and the handler at its other end is not called.
--
-- A runtime is an action on a Host: the sequence of its calls of the container engine and the
-- operating system, and its tables of containers and images. A `defer` is `finally`. The handler of
-- the worker takes the runtime as a parameter.
--
-- Conventions. A field keeps its name in lower case with underscores; `if` is `if_`. A nil pointer
-- is `none`, or a constructor such as `no_each`. A Go error is a value of Error, without its text; a
-- nil dereference and an index out of range are the error `panic`. Times are numbers, progress and
-- the share of a processor count hundredths of a percent. A task inside another one is a TaskNode,
-- since a record cannot hold a list of itself.
--
-- Bounds. The one function on fuel is complete_task, which goes from a task to its parent when the
-- last of the parent's tasks is complete, and spends one unit on each: the fuel is to be more than
-- the number of tasks around the completed one. Loops that the code bounds by a number, such as the
-- attempts at a port and at the call of a webhook, recur on what is left of that number. Everything
-- else is by recursion on lists.
--
-- Parameters. The regular expression and the expression language (Evaluator), the clock, the
-- identifiers, the parsing of durations, the trimming of texts, the removal of NUL characters, the
-- decimal notation and the texts of errors (Env), full-text search, the checks of the validation library and of
-- expressions and cron entries, the runtime of a worker, what container engines and operating
-- systems answer (Answers), the parsers of limits, JSON (Codec), the choice of ports, the answers
-- of HTTP servers, the variables of the host, and the parsing of numbers in a query are code of
-- other libraries, of the run-time or of other machines, and any functions will do for the theorems,
-- but for the hypotheses a theorem names.
--
-- Not modelled: RabbitMQ, the credentials of registries and the archives of the runtimes, a run that
-- is cancelled, the engine, the command line and the configuration, the cache, the lockers, health,
-- the routing, decoding and encoding of the HTTP interface and its request that waits for a job, how
-- the validation library goes through the fields of its input, GetMetrics, foreign keys, failures of
-- the database or the broker themselves, and what runs by a timer or concurrently: the heartbeats of
-- a coordinator, the reports of progress of a runtime, and goroutines as such. CreateTask removes the
-- NUL characters of an error and a result, and the identifiers of mounts, which JSON leaves out, but
-- UpdateTask writes both as they are, as the tables of a World hold tasks and jobs as they were before
-- they became rows; Records has the rows themselves. A node is read as `toNode` makes it, which
-- UpdateNode writes back. The share of a job's progress is that of the code for a job that has
-- started and has tasks; at position 0, or without tasks, the code's floating-point number is
-- negative, infinite or not a number, and the model has a number from 0 on. Where a handler of the
-- coordinator fails, the task or job that is failed then is the one that was received; what the
-- handler wrote on it before it failed is left out. The handlers are wired without middleware.
pub mod Prelude
pub mod User
pub mod Task
pub mod Job
pub mod Node
pub mod Eval
pub mod Exec
pub mod Datastore
pub mod Broker
pub mod Scheduler
pub mod Handlers
pub mod Wildcard
pub mod Redact
pub mod Input
pub mod Worker
pub mod Runtimes
pub mod Moves
pub mod Coordinator
pub mod Webhook
pub mod Middleware
pub mod Api
pub mod Tests
