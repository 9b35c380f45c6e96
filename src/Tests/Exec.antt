-- ===== src/Tests/Exec.antt =====
-- Runs of internal/exec.
use tailkitd.Prelude.{
  ◌^◌, ◌≤◌, ◌<◌, ◌≡◌, refl, true, false, some, List, [], ◌∷◌, ◌++◌, arith, print_int, parse_int,
  pos, lookup, length, All, split, codes, str_eq,
}
use tailkitd.Exec.Jobs.{JobResult, JobStore, accepted, failed}
use tailkitd.Exec.Jobs.Laws.{IsMap, Op, Spares, created, stored, evicted}
use tailkitd.Exec.Events.{
  build_job_events, split_lines, is_terminal_job_status, job_status, job_stdout, job_stderr,
  job_failed,
}
use tailkitd.Exec.Stream.{stream_job, resume_from}
use tailkitd.Exec.Stream.Resume.{stream_job-resumes, numbered}

abbrev result : JobResult
result = record {
  job_id = codes "j";
  status = failed;
  stdout = codes "a\r\nb\n";
  stderr = codes "c";
  exit_code = pos 1;
  error = codes "e";
}

events :
    build_job_events result
    ≡ job_status accepted
      ∷ job_status failed
      ∷ job_stdout (codes "a")
      ∷ job_stdout (codes "b")
      ∷ job_stderr (codes "c")
      ∷ job_failed (pos 1) (codes "e")
      ∷ []
unfolding build_job_events split_lines split str_eq
events = refl

abbrev ops : List Op
ops = created (codes "k") 5 ∷ evicted 300000000007 ∷ stored (codes "k") result 9 ∷ []

spared : All (Spares (codes "j") 7) ops
unfolding str_eq
spared = (refl, (refl, (refl, tt)))

abbrev store : JobStore
store = (codes "j", record { result = result; stored_at = 7 }) ∷ []

is_map : IsMap store
unfolding lookup
is_map = (refl, tt)

few : length (build_job_events result) < 2 ^ 63
few = rw events (omega arith)

terminal : is_terminal_job_status result.status ≡ true
unfolding is_terminal_job_status
terminal = refl

header : resume_from (codes "2") ≡ pos 2
unfolding resume_from parse_int str_eq
header = refl

two_of_six : 2 ≤ length (build_job_events result)
two_of_six = rw events (omega arith)

stream_job-resumes_example :
    let first = (stream_job (some result ∷ []) [] (false ∷ true ∷ [])).1.sent in
    first ++ (stream_job (some result ∷ []) (print_int (pos (length first))) []).1.sent
    ≡ numbered 0 (build_job_events result)
stream_job-resumes_example = stream_job-resumes result [] [] (false ∷ true ∷ []) terminal few
