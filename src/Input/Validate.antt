-- ===== src/Input/Validate.antt =====
-- input/validate.go: the checks that the validator library calls on the fields and the structs of a
-- job. A report is the name of the field and the tag that `ReportError` is given.
use text.Mathlib.Text.{starts_with}
use tork.Prelude.{
  String, Bool, true, false, not, ◌&&◌, ◌||◌, Option, none, some, List, [], ◌∷◌, ◌++◌, str_eq,
  if◌then◌else◌,
}
use tork.Broker.Queues.{queue_exclusive_prefix, is_coordinator_queue}
use tork.Input.{
  MountInput, TaskFields, ParallelInput, EachInput, SubJobInput, no_parallel_input, parallel_input,
  no_each_input, each_input, no_subjob_input, subjob_input, PermissionInput,
}

abbrev pub Report : Type 0
Report = String × String

-- `eval.ValidExpr`, `time.ParseDuration`, the pattern of mounts, and `GetUser` and `GetRole` of the
-- datastore, each as whether it succeeds.
pub record Checks : Type 0 where
  pub valid_expr : String → Bool
  pub parses_duration : String → Bool
  pub is_mount_path : String → Bool
  pub has_user : String → Bool
  pub has_role : String → Bool

abbrev pub mount_type_volume : String
mount_type_volume = "volume"

abbrev pub mount_type_bind : String
mount_type_bind = "bind"

unfoldable pub is_none : {A : Type 0} → Option A → Bool
is_none none = true
is_none (some a) = false

unfoldable pub is_empty : {A : Type 0} → List A → Bool
is_empty [] = true
is_empty (a ∷ as') = false

unfoldable pub has_parallel : ParallelInput → Bool
has_parallel no_parallel_input = false
has_parallel (parallel_input tasks) = true

unfoldable pub has_each : EachInput → Bool
has_each no_each_input = false
has_each (each_input e task) = true

unfoldable pub has_subjob : SubJobInput → Bool
has_subjob no_subjob_input = false
has_subjob (subjob_input s tasks) = true

-- A report, if the test succeeds.
unfoldable pub report_if : Bool → String → String → List Report
report_if true field tag = (field, tag) ∷ []
report_if false field tag = []

unfoldable pub task_type_validation : ParallelInput → EachInput → SubJobInput → List Report
task_type_validation parallel each subjob =
    report_if (has_parallel parallel && has_each each) "each" "paralleloreach"
    ++ report_if (has_parallel parallel && has_each each) "parallel" "paralleloreach"
    ++ report_if (has_parallel parallel && has_subjob subjob) "subjob" "parallelorsubjob"
    ++ report_if (has_parallel parallel && has_subjob subjob) "parallel" "parallelorsubjob"
    ++ report_if (has_each each && has_subjob subjob) "subjob" "eachorsubjob"
    ++ report_if (has_each each && has_subjob subjob) "each" "eachorsubjob"

unfoldable pub is_composite : ParallelInput → EachInput → SubJobInput → Bool
is_composite parallel each subjob = has_parallel parallel || has_each each || has_subjob subjob

-- What a task with tasks inside must not have.
unfoldable pub composite_reports : TaskFields → List Report
composite_reports t =
    report_if (not (str_eq t.image "")) "image" "invalidcompositetask"
    ++ report_if (not (is_empty t.cmd)) "cmd" "invalidcompositetask"
    ++ report_if (not (is_empty t.entrypoint)) "entrypoint" "invalidcompositetask"
    ++ report_if (not (str_eq t.run "")) "run" "invalidcompositetask"
    ++ report_if (not (is_empty t.env)) "env" "invalidcompositetask"
    ++ report_if (not (str_eq t.queue "")) "queue" "invalidcompositetask"
    ++ report_if (not (is_empty t.pre)) "pre" "invalidcompositetask"
    ++ report_if (not (is_empty t.post)) "post" "invalidcompositetask"
    ++ report_if (not (is_empty t.mounts)) "mounts" "invalidcompositetask"
    ++ report_if (not (is_none t.retry)) "retry" "invalidcompositetask"
    ++ report_if (not (is_none t.limits)) "limits" "invalidcompositetask"
    ++ report_if (not (str_eq t.timeout "")) "timeout" "invalidcompositetask"

unfoldable pub composite_task_validation :
    TaskFields → ParallelInput → EachInput → SubJobInput → List Report
unfolding is_composite composite_reports
composite_task_validation t parallel each subjob =
    if is_composite parallel each subjob then composite_reports t else []

-- `taskInputValidation`
unfoldable pub task_input_validation :
    TaskFields → ParallelInput → EachInput → SubJobInput → List Report
unfolding task_type_validation composite_task_validation
task_input_validation t parallel each subjob =
    task_type_validation parallel each subjob ++ composite_task_validation t parallel each subjob

unfoldable pub validate_queue : String → Bool
validate_queue v =
    if str_eq v ""
    then true
    else if starts_with v queue_exclusive_prefix
    then false
    else if is_coordinator_queue v
    then false
    else true

module _ (checks : Checks) where
  unfoldable pub validate_expr : String → Bool
  validate_expr v = if str_eq v "" then true else checks.valid_expr v

  unfoldable pub validate_duration : String → Bool
  validate_duration v = if str_eq v "" then true else checks.parses_duration v

  -- The first of the checks that fails is reported.
  unfoldable pub validate_mount : MountInput → Option String
  validate_mount m =
      if str_eq m.type ""
      then some "typerequired"
      else if str_eq m.type mount_type_volume && not (str_eq m.source "")
      then some "sourcenotempty"
      else if str_eq m.type mount_type_volume && str_eq m.target ""
      then some "targetrequired"
      else if str_eq m.type mount_type_bind && str_eq m.source ""
      then some "sourcerequired"
      else if not (str_eq m.source "") && not (checks.is_mount_path m.source)
      then some "invalidsource"
      else if not (str_eq m.target "") && not (checks.is_mount_path m.target)
      then some "invalidtarget"
      else if str_eq m.target "/tork"
      then some "invalidtarget"
      else none

  unfoldable pub validate_permission : PermissionInput → List String
  validate_permission p =
      (if str_eq p.role "" && str_eq p.user "" then "roleoruser" ∷ [] else [])
      ++ (if not (str_eq p.role "") && not (str_eq p.user "") then "roleoruser" ∷ [] else [])
      ++ (if not (str_eq p.user "") && not (checks.has_user p.user)
          then "invalidusername" ∷ []
          else [])
      ++ (if not (str_eq p.role "") && not (checks.has_role p.role) then "invalidrole" ∷ [] else [])
