-- ===== src/Systemd/Tasks.antt =====
-- internal/systemd/systemd.go: the goroutine that a request starts, and the result that it stores.
use tailkitd.Prelude.{
  ℕ, Bool, ◌||◌, Option, none, some, [], ◌++◌, Text, codes, str_eq, if◌then◌else◌,
}
use tailkitd.Exec.Jobs.{JobStore, JobResult, JobStatus, completed, failed, new_result, store_result}

pub data Verb : Type 0 where
  start stop restart reload : Verb

-- The goroutine of a request, with the unit and the id of its job
pub data Task : Type 0 where
  control : Verb → Text → Text → Task
  enabling : Bool → Text → Text → Task

-- What comes of a control: an error of the call, the result of the job, or nothing in time
pub data BusResult : Type 0 where
  call_failed : Text → BusResult
  reported : Text → BusResult
  timed_out : BusResult

abbrev job_result : Text → JobStatus → Text → JobResult
job_result id final error = record (new_result id) { status = final; error = error }

-- `result` is one that systemd reports for a job that has done its work.
unfoldable pub is_done : Text → Bool
is_done result = str_eq result (codes "done") || str_eq result (codes "skipped")

abbrev reported_result : Text → Text → JobResult
reported_result id result =
    if is_done result
    then job_result id completed []
    else job_result id failed (codes "systemd job result: " ++ result)

-- The result that the goroutine of `handleUnitControl` stores
unfoldable pub control_result : Text → BusResult → JobResult
control_result id (call_failed e) = job_result id failed e
control_result id (reported result) = reported_result id result
control_result id timed_out = reported_result id (codes "timeout")

-- The result that the goroutine of `handleUnitEnable` stores, for the error of the call
unfoldable pub enable_result : Text → Option Text → JobResult
enable_result id none = job_result id completed []
enable_result id (some e) = job_result id failed e

-- What comes of the calls of a goroutine. The call that enables or disables a unit gives an error or
-- none; its context, once it is over, is an error of the call.
abbrev pub Answer : Task → Type 0
Answer (control verb unit id) = BusResult
Answer (enabling enable unit id) = Option Text

-- The end of a goroutine
unfoldable pub finish_task : (task : Task) → Answer task → ℕ → JobStore → JobStore
finish_task (control verb unit id) answer now s = store_result id (control_result id answer) now s
finish_task (enabling enable unit id) answer now s = store_result id (enable_result id answer) now s
