-- ===== src/Systemd/Units/Jobs.antt =====
-- internal/systemd/systemd.go: how the jobs of the units end.
use tailkitd.Prelude.{◌≡◌, ◌⊎◌, true, none, [], Text}
use tailkitd.Exec.Jobs.{JobResult, completed, failed}
use tailkitd.Systemd.Tasks.{
  control, enabling, call_failed, reported, timed_out, is_done, control_result, enable_result,
  Answer, Task,
}

abbrev pub task_id : Task → Text
task_id (control verb unit id) = id
task_id (enabling enable unit id) = id

-- The work has been done: systemd reports so, or the call that enables a unit gives no error.
abbrev pub HasWorked : (task : Task) → Answer task → Type 0
HasWorked (control verb unit id) (call_failed e) = ⊥
HasWorked (control verb unit id) (reported result) = is_done result ≡ true
HasWorked (control verb unit id) timed_out = ⊥
HasWorked (enabling enable unit id) error = error ≡ none

abbrev pub stored_result : (task : Task) → Answer task → JobResult
stored_result (control verb unit id) answer = control_result id answer
stored_result (enabling enable unit id) answer = enable_result id answer

-- The result says how the job has ended.
abbrev pub Tells : (task : Task) → Answer task → JobResult → Type 0
Tells task answer result =
    ((result.status ≡ completed) × (result.error ≡ []) × HasWorked task answer)
    ⊎ ((result.status ≡ failed) × ¬ HasWorked task answer)
