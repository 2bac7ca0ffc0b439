-- ===== src/Utils/Tests.antt =====
-- A task of a module that can be imported.
use dispatcher_fork.Base.{
  ◌≡◌, refl, false, Option, none, some, String, str_eq, starts_with, if◌then◌else◌,
}
use dispatcher_fork.Utils.{has_dot, resolve_callable, serialize_task}
use dispatcher_fork.Utils.Names.{resolve_callable-serialize_task}

-- The module jobs holds run_job; nothing can be evaluated.
abbrev import_jobs : String → Option (String → Option String)
import_jobs name =
    if str_eq name "app.jobs"
    then some (λ target. if str_eq target "run_job" then some "a callable" else none)
    else none

abbrev no_value : String → Option (Option String)
no_value expression = none

run_job_plain : has_dot "run_job" ≡ false
unfolding has_dot
run_job_plain = refl

resolve_callable-serialize_task_example :
    resolve_callable no_value import_jobs (serialize_task "app.jobs" "run_job") ≡ (
      if starts_with (serialize_task "app.jobs" "run_job") "lambda"
      then no_value (serialize_task "app.jobs" "run_job")
      else some (if str_eq "run_job" "run_job" then some "a callable" else none))
resolve_callable-serialize_task_example =
    resolve_callable-serialize_task no_value import_jobs "app.jobs" "run_job"
      (λ target. if str_eq target "run_job" then some "a callable" else none) run_job_plain refl
