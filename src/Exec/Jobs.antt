-- ===== src/Exec/Jobs.antt =====
-- internal/exec/jobs.go: the results of the jobs that run in the background.
-- A time is a number of nanoseconds. The status, a string of the package tailkit, is one of the
-- four that the program names, or another.
pub mod Laws
use tailkitd.Prelude.{
  ℕ, ◌+◌, Bool, Option, none, some, [], ◌∷◌, ℤ, pos, Dict, lookup, insert, Text, ltb, if◌then◌else◌,
}

pub data JobStatus : Type 0 where
  accepted completed failed cancelled : JobStatus
  other_status : Text → JobStatus

pub record JobResult : Type 0 where
  pub job_id : Text
  pub status : JobStatus
  pub stdout : Text
  pub stderr : Text
  pub exit_code : ℤ
  pub error : Text

pub record JobRecord : Type 0 where
  pub result : JobResult
  pub stored_at : ℕ

abbrev pub JobStore : Type 0
JobStore = Dict JobRecord

-- five minutes
abbrev pub job_ttl : ℕ
job_ttl = 300000000000

abbrev pub new_result : Text → JobResult
new_result id = record {
  job_id = id;
  status = accepted;
  stdout = [];
  stderr = [];
  exit_code = pos 0;
  error = [];
}

-- `NewJob`, for the id that `uuid.New` gives
unfoldable pub new_job : Text → ℕ → JobStore → JobStore
new_job id now s = insert id (record { result = new_result id; stored_at = now }) s

-- `StoreResult`
unfoldable pub store_result : Text → JobResult → ℕ → JobStore → JobStore
store_result id result now s =
    insert id (record { result = record result { job_id = id }; stored_at = now }) s

abbrev result_of : Option JobRecord → Option JobResult
result_of none = none
result_of (some rec) = some rec.result

-- `GetResult`
unfoldable pub get_result : JobStore → Text → Option JobResult
get_result s id = result_of (lookup id s)

abbrev pub is_expired : ℕ → JobRecord → Bool
is_expired now rec = ltb (rec.stored_at + job_ttl) now

-- `evict`
unfoldable pub evict : ℕ → JobStore → JobStore
evict now [] = []
evict now ((id, rec) ∷ s) =
    let rest = evict now s in if is_expired now rec then rest else (id, rec) ∷ rest
