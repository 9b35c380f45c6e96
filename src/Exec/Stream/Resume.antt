-- ===== src/Exec/Stream/Resume.antt =====
-- internal/exec/handlers.go: a client that reconnects gets what it has missed.
use mathlib.Core.List.{append_assoc, append-nil}
use tailkitd.Prelude.{
  ℕ, zero, suc, ◌+◌, ◌^◌, ◌≤◌, ◌<◌, ◌≡◌, refl, sym, ap, ◌∙◌, inl, inr, Bool, true, false, Option,
  some, List, [], ◌∷◌, ◌++◌, arith, ℤ, InInt64, ltb_ℤ, inc64, print_int, parse_int,
  parse_int-print_int, pos, length, drop, Text, str_eq, eq_of_str_eq, Bool-cases,
}
use tailkitd.Os.{Outcome, ok, err}
use tailkitd.Exec.Jobs.{JobResult}
use tailkitd.Exec.Events.{JobUpdate, is_terminal_job_status, build_job_events}
use tailkitd.Exec.Stream.{
  Writer, send, send_events, resume_from, stream_job, stream_polls, after_events,
}

-- The events under their sequence ids.
abbrev pub numbered : ℕ → List JobUpdate → List (ℤ × JobUpdate)
numbered i [] = []
numbered i (e ∷ es) = (pos (suc i), e) ∷ numbered (suc i) es

-- What comes through, up to the first failure.
abbrev pub delivered {ℓ} : {A : Type ℓ} → List Bool → List A → List A
delivered fs [] = []
delivered [] (x ∷ xs) = x ∷ xs
delivered (true ∷ fs) (x ∷ xs) = []
delivered (false ∷ fs) (x ∷ xs) = x ∷ delivered fs xs

inc64_pos : (i n : ℕ) → i + suc n < 2 ^ 63 → inc64 (pos i) ≡ pos (suc i)
unfolding inc64
inc64_pos i n h = ground (arith, h)

lt_next : (i : ℕ) → ltb_ℤ (pos i) (pos (suc i)) ≡ true
unfolding ltb_ℤ
lt_next i = ground arith

writer : ℕ → List (ℤ × JobUpdate) → List Bool → Writer
writer i sent fs = record { seq = pos i; sent = sent; failures = fs }

delivered_all : {A : Type 0} (xs : List A) → delivered [] xs ≡ xs
delivered_all [] = refl
delivered_all (x ∷ xs) = refl

send_events-sent :
    (i : ℕ) (es : List JobUpdate) (sent : List (ℤ × JobUpdate)) (fs : List Bool)
    → i + length es < 2 ^ 63
    → (send_events i es (pos i) (writer i sent fs)).1.sent ≡ sent ++ delivered fs (numbered i es)
unfolding send_events send writer
send_events-sent i [] sent fs small = sym (append-nil sent)
send_events-sent i (e ∷ es) sent (true ∷ fs) small = rw (lt_next i) (sym (append-nil sent))
send_events-sent i (e ∷ es) sent (false ∷ fs) small =
    rw (lt_next i, inc64_pos i (length es) small)
      (send_events-sent (suc i) es (sent ++ (pos (suc i), e) ∷ []) fs (omega (arith, small))
        ∙ append_assoc sent _ _)
send_events-sent i (e ∷ es) sent [] small =
    rw (lt_next i, inc64_pos i (length es) small)
      (send_events-sent (suc i) es (sent ++ (pos (suc i), e) ∷ []) [] (omega (arith, small))
        ∙ append_assoc sent _ _
        ∙ ap (λ t. sent ++ (pos (suc i), e) ∷ t) (delivered_all (numbered (suc i) es)))

plus_zero : (i : ℕ) → i + 0 ≡ i
plus_zero i = omega arith

plus_suc : (i k : ℕ) → i + suc k ≡ suc i + k
plus_suc i k = omega arith

lt_not : (i k : ℕ) → ltb_ℤ (pos (i + suc k)) (pos (suc i)) ≡ false
unfolding ltb_ℤ
lt_not i k = ground arith

append-drop : {A : Type 0} (xs : List A) → xs ++ drop (length xs) xs ≡ xs
unfolding drop
append-drop [] = refl
append-drop (x ∷ xs) = ap (λ t. x ∷ t) (append-drop xs)

-- Events up to the last one that the client has are passed over.
send_events-drop :
    (i k : ℕ) (es : List JobUpdate) (sw : Writer)
    → k ≤ length es
    → send_events i es (pos (i + k)) sw ≡ send_events (i + k) (drop k es) (pos (i + k)) sw
unfolding send_events drop
send_events-drop i zero es sw h = rw (plus_zero i) refl
send_events-drop i (suc k) [] sw h = absurd (omega (arith, h))
send_events-drop i (suc k) (e ∷ es) sw h =
    rw (lt_not i k) (rw (plus_suc i k) (send_events-drop (suc i) k es sw (omega (arith, h))))

numbered-drop :
    (i k : ℕ) (es : List JobUpdate) → numbered (i + k) (drop k es) ≡ drop k (numbered i es)
unfolding drop
numbered-drop i zero es = rw (plus_zero i) refl
numbered-drop i (suc k) [] = refl
numbered-drop i (suc k) (e ∷ es) = rw (plus_suc i k) (numbered-drop (suc i) k es)

delivered_rest :
    {A : Type 0} (fs : List Bool) (xs : List A)
    → delivered fs xs ++ drop (length (delivered fs xs)) xs ≡ xs
unfolding drop
delivered_rest fs [] = refl
delivered_rest [] (x ∷ xs) = ap (λ t. x ∷ t) (append-drop xs)
delivered_rest (true ∷ fs) (x ∷ xs) = refl
delivered_rest (false ∷ fs) (x ∷ xs) = ap (λ t. x ∷ t) (delivered_rest fs xs)

length-numbered : (i : ℕ) (es : List JobUpdate) → length (numbered i es) ≡ length es
length-numbered i [] = refl
length-numbered i (e ∷ es) = ap suc (length-numbered (suc i) es)

length-delivered :
    {A : Type 0} (fs : List Bool) (xs : List A) → length (delivered fs xs) ≤ length xs
length-delivered fs [] = omega arith
length-delivered [] (x ∷ xs) = omega arith
length-delivered (true ∷ fs) (x ∷ xs) = omega arith
length-delivered (false ∷ fs) (x ∷ xs) = omega (arith, length-delivered fs xs)

length-drop : (k : ℕ) (es : List JobUpdate) → k ≤ length es → k + length (drop k es) ≡ length es
unfolding drop
length-drop zero es h = omega arith
length-drop (suc k) [] h = absurd (omega (arith, h))
length-drop (suc k) (e ∷ es) h = omega (arith, length-drop k es (omega (arith, h)))

after_terminal :
    (result : JobResult) (out : Outcome ℤ × Writer) (next : ℤ → Writer → Outcome Unit × Writer)
    → is_terminal_job_status result.status ≡ true
    → (after_events result out next).1.sent ≡ out.1.sent
after_terminal result (err e, sw) next done = refl
after_terminal result (ok l, sw) next done = rw done refl

zero_plus : (k : ℕ) → 0 + k ≡ k
zero_plus k = omega arith

events_sent :
    (es : List JobUpdate) (k : ℕ) (fs : List Bool)
    → k ≤ length es
    → length es < 2 ^ 63
    → (send_events 0 es (pos k) (writer k [] fs)).1.sent ≡ delivered fs (drop k (numbered 0 es))
events_sent es k fs within small =
    let skip : send_events 0 es (pos k) (writer k [] fs)
        ≡ send_events k (drop k es) (pos k) (writer k [] fs) =
      rw (zero_plus k) at (send_events-drop 0 k es (writer k [] fs) within) in
    let shift : numbered k (drop k es) ≡ drop k (numbered 0 es) =
      rw (zero_plus k) at (numbered-drop 0 k es) in
    ap (λ (out : Outcome ℤ × Writer). out.1.sent) skip
    ∙ send_events-sent k (drop k es) [] fs (omega (arith, small, length-drop k es within))
    ∙ ap (delivered fs) shift

-- A client of a job that is done gets the events after the one it names, in order and under their
-- own numbers, up to the first write that fails.
pub stream_job-sent :
    (result : JobResult) (polls : List (Option JobResult)) (header : Text) (k : ℕ) (fs : List Bool)
    → is_terminal_job_status result.status ≡ true
    → resume_from header ≡ pos k
    → k ≤ length (build_job_events result)
    → length (build_job_events result) < 2 ^ 63
    → (stream_job (some result ∷ polls) header fs).1.sent
      ≡ delivered fs (drop k (numbered 0 (build_job_events result)))
unfolding stream_job stream_polls writer
stream_job-sent result polls header k fs done resume within small =
    let sw : Writer = record { seq = resume_from header; sent = []; failures = fs } in
    let one : (send_events 0 (build_job_events result) (resume_from header) sw).1.sent
        ≡ delivered fs (drop k (numbered 0 (build_job_events result))) =
      rw resume (events_sent (build_job_events result) k fs within small) in
    after_terminal result (send_events 0 (build_job_events result) (resume_from header) sw)
      (stream_polls polls) done
    ∙ one

resume_from-print_int : (k : ℕ) → k < 2 ^ 63 → resume_from (print_int (pos k)) ≡ pos k
unfolding resume_from parse_int
resume_from-print_int k h =
    let range : InInt64 (pos k) = omega (arith, h) in
    let read = parse_int-print_int (pos k) range in
    elim (Bool-cases (str_eq (print_int (pos k)) [])) [
      | inl e ↦ cc (rw (eq_of_str_eq (print_int (pos k)) [] e) at read)
      | inr e ↦ rw e (rw read refl)
    ]

no_header : resume_from [] ≡ pos 0
unfolding resume_from str_eq
no_header = refl

-- A client whose connection breaks anywhere, and that then names the number of the last event it
-- has got, gets over the two connections every event of the finished job once and in order.
pub stream_job-resumes :
    (result : JobResult) (polls polls' : List (Option JobResult)) (fs : List Bool)
    → is_terminal_job_status result.status ≡ true
    → length (build_job_events result) < 2 ^ 63
    → let first = (stream_job (some result ∷ polls) [] fs).1.sent in
      first ++ (stream_job (some result ∷ polls') (print_int (pos (length first))) []).1.sent
      ≡ numbered 0 (build_job_events result)
unfolding build_job_events drop
stream_job-resumes result polls polls' fs done small =
    let es = build_job_events result in
    let first : (stream_job (some result ∷ polls) [] fs).1.sent ≡ delivered fs (numbered 0 es) =
      stream_job-sent result polls [] 0 fs done no_header (omega arith) small in
    let k = length (delivered fs (numbered 0 es)) in
    let within : k ≤ length es =
      rw (length-numbered 0 es) at (length-delivered fs (numbered 0 es)) in
    let second : (stream_job (some result ∷ polls') (print_int (pos k)) []).1.sent
        ≡ drop k (numbered 0 es) =
      stream_job-sent result polls' (print_int (pos k)) k [] done
        (resume_from-print_int k (omega (arith, within, small))) within small
      ∙ delivered_all (drop k (numbered 0 es)) in
    rw (first, second) (delivered_rest fs (numbered 0 es))
