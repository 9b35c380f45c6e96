-- ===== src/Exec/Stream.antt =====
-- internal/exec/handlers.go: `streamJob`, and `Writer` of internal/sse/writer.go under it.
pub mod Resume
use tailkitd.Prelude.{
  ℕ, suc, Bool, true, false, not, Option, none, some, List, [], ◌∷◌, ◌++◌, ℤ, ltb_ℤ, inc64,
  parse_int, pos, Text, str_eq, if◌then◌else◌,
}
use tailkitd.Os.{Outcome, not_exist, io_fault, canceled, ok, err}
use tailkitd.Exec.Jobs.{JobResult}
use tailkitd.Exec.Events.{JobUpdate, is_terminal_job_status, build_job_events}

-- The connection to one client: the last sequence id, what has been written under which id, and
-- for each write to come whether it fails, since the client is gone; a write past the end succeeds.
pub record Writer : Type 0 where
  pub seq : ℤ
  pub sent : List (ℤ × JobUpdate)
  pub failures : List Bool

abbrev write_on : List Bool → JobUpdate → Writer → Outcome Unit × Writer
write_on (true ∷ rest) event sw = (err io_fault, record sw { failures = rest })
write_on (false ∷ rest) event sw = (
  ok tt,
  record { seq = inc64 sw.seq; sent = sw.sent ++ (inc64 sw.seq, event) ∷ []; failures = rest },
)
write_on [] event sw = (
  ok tt,
  record { seq = inc64 sw.seq; sent = sw.sent ++ (inc64 sw.seq, event) ∷ []; failures = [] },
)

-- `Send`
unfoldable pub send : JobUpdate → Writer → Outcome Unit × Writer
send event sw = write_on sw.failures event sw

abbrev or_zero : Option ℤ → ℤ
or_zero none = pos 0
or_zero (some n) = n

-- `ResumeFrom`, of the header Last-Event-ID
unfoldable pub resume_from : Text → ℤ
resume_from value = if str_eq value [] then pos 0 else or_zero (parse_int value)

-- The loop over the events. `i` is the index; the result has `lastSent`.
unfoldable pub send_events : ℕ → List JobUpdate → ℤ → Writer → Outcome ℤ × Writer
send_events i [] last sw = (ok last, sw)
send_events i (event ∷ events) last sw =
    let skipped = send_events (suc i) events last sw in
    let (r, sw') = send event sw in
    let rest = send_events (suc i) events (pos (suc i)) sw' in
    if not (ltb_ℤ last (pos (suc i)))
    then skipped
    else elim r [ ok _ ↦ rest | err e ↦ (err e, sw') ]

abbrev after_events :
    JobResult → Outcome ℤ × Writer → (ℤ → Writer → Outcome Unit × Writer) → Outcome Unit × Writer
after_events result (err e, sw) next = (err e, sw)
after_events result (ok last, sw) next =
    if is_terminal_job_status result.status then (ok tt, sw) else next last sw

abbrev on_poll :
    Option JobResult → ℤ → Writer → (ℤ → Writer → Outcome Unit × Writer) → Outcome Unit × Writer
on_poll none last sw next = (err not_exist, sw)
on_poll (some result) last sw next =
    after_events result (send_events 0 (build_job_events result) last sw) next

-- `streamJob`, by what `GetResult` returns at each poll; the context is cancelled after the last.
stream_polls : List (Option JobResult) → ℤ → Writer → Outcome Unit × Writer
unfolding send_events
stream_polls [] last sw = (err canceled, sw)
stream_polls (found ∷ polls) last sw = on_poll found last sw (stream_polls polls)

-- `handleJobStream`
unfoldable pub stream_job : List (Option JobResult) → Text → List Bool → Outcome Unit × Writer
unfolding stream_polls resume_from
stream_job polls last_event_id failures =
    let resume = resume_from last_event_id in
    stream_polls polls resume (record { seq = resume; sent = []; failures = failures })
