-- ===== src/Exec/Events.antt =====
-- internal/exec/handlers.go: the events that tell of a job.
use tailkitd.Prelude.{
  Bool, true, false, ◌&&◌, List, [], ◌∷◌, ◌++◌, map, ℤ, split, Text, str_eq, ◌==◌, if◌then◌else◌,
}
use tailkitd.Exec.Jobs.{JobResult, JobStatus, accepted, completed, failed, cancelled, other_status}

-- `strings.ReplaceAll(text, "\r\n", "\n")`
drop_returns : Text → Text
drop_returns [] = []
drop_returns (c ∷ []) = c ∷ []
drop_returns (c ∷ d ∷ s) =
    let rest = drop_returns (d ∷ s) in if (c == 13) && (d == 10) then rest else c ∷ rest

-- `strings.TrimSuffix(text, "\n")`
trim_newline : Text → Text
trim_newline [] = []
trim_newline (c ∷ []) = if c == 10 then [] else c ∷ []
trim_newline (c ∷ d ∷ s) = c ∷ trim_newline (d ∷ s)

unfoldable pub split_lines : Text → List Text
unfolding drop_returns trim_newline
split_lines text =
    let trimmed = trim_newline (drop_returns text) in
    if str_eq trimmed [] then [] else split 10 trimmed

-- `types.JobUpdate`, by the fields that are set, under the name of the event
pub data JobUpdate : Type 0 where
  job_status : JobStatus → JobUpdate
  job_stdout job_stderr : Text → JobUpdate
  -- the exit code and the error
  job_completed job_failed : ℤ → Text → JobUpdate

unfoldable pub is_terminal_job_status : JobStatus → Bool
is_terminal_job_status completed = true
is_terminal_job_status failed = true
is_terminal_job_status cancelled = true
is_terminal_job_status accepted = false
is_terminal_job_status (other_status s) = false

abbrev status_events : JobStatus → List JobUpdate
status_events accepted = []
status_events s = job_status s ∷ []

abbrev final_event : JobResult → JobStatus → JobUpdate
final_event r completed = job_completed r.exit_code r.error
final_event r s = job_failed r.exit_code r.error

-- `buildJobEvents`; the job's id, which is in all of them, is left out.
unfoldable pub build_job_events : JobResult → List JobUpdate
unfolding is_terminal_job_status
build_job_events r =
    job_status accepted
    ∷ (status_events r.status
        ++ map job_stdout (split_lines r.stdout)
        ++ map job_stderr (split_lines r.stderr)
        ++ (if is_terminal_job_status r.status then final_event r r.status ∷ [] else []))
