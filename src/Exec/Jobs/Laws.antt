-- ===== src/Exec/Jobs/Laws.antt =====
-- internal/exec/jobs.go: what a poll finds.
use tailkitd.Prelude.{
  ℕ, ◌+◌, ◌≡◌, refl, sym, ap, ◌∙◌, ◌⊎◌, inl, inr, true, false, Option, none, some, List, [], ◌∷◌,
  arith, lookup, insert, lookup-insert, lookup-insert_self, All, Text, str_eq, eq_of_str_eq,
  str_eq_iff, ltb, if◌then◌else◌, Bool-cases, Option-cases,
}
use tailkitd.Exec.Jobs.{
  evict, JobRecord, JobStore, is_expired, JobResult, job_ttl, new_result, new_job, store_result,
  get_result, result_of,
}

-- No id has two records, as in a Go map.
abbrev pub IsMap : JobStore → Type 0
IsMap [] = Unit
IsMap ((id, rec) ∷ s) = (lookup id s ≡ none) × IsMap s

insert-none :
    (k j : Text) (rec : JobRecord) (s : JobStore)
    → str_eq k j ≡ false
    → lookup j s ≡ none
    → lookup j (insert k rec s) ≡ none
insert-none k j rec s other absent = ground (arith, lookup-insert j k rec s, other, absent)

str_eq_swap : (a b : Text) → str_eq a b ≡ false → str_eq b a ≡ false
str_eq_swap a b h = ground (arith, h, str_eq_iff a b, str_eq_iff b a)

insert-IsMap : (id : Text) (rec : JobRecord) (s : JobStore) → IsMap s → IsMap (insert id rec s)
unfolding insert lookup
insert-IsMap id rec [] h = (refl, tt)
insert-IsMap id rec ((k, v) ∷ s) h = elim (Bool-cases (str_eq k id)) [
  | inl e ↦ rw e (rw (eq_of_str_eq k id e) at h.0, h.1)
  | inr e ↦ rw e (insert-none id k rec s (str_eq_swap k id e) h.0, insert-IsMap id rec s h.1)
]

abbrev unless_expired : ℕ → Option JobRecord → Option JobRecord
unless_expired now none = none
unless_expired now (some rec) = if is_expired now rec then none else some rec

evict-lookup :
    (now : ℕ) (id : Text) (s : JobStore)
    → IsMap s
    → lookup id (evict now s) ≡ unless_expired now (lookup id s)
unfolding evict lookup
evict-lookup now id [] h = refl
evict-lookup now id ((k, v) ∷ s) h = elim (Bool-cases (is_expired now v)) [
  | inl old ↦ elim (Bool-cases (str_eq k id)) [
    | inl e ↦
        rw (old, e)
          (rw old
            (evict-lookup now id s h.1 ∙ ap (unless_expired now) (rw (eq_of_str_eq k id e) at h.0)))
    | inr e ↦ rw (old, e) (evict-lookup now id s h.1)
  ]
  | inr live ↦ elim (Bool-cases (str_eq k id)) [
    | inl e ↦ rw (live, e) (rw live refl)
    | inr e ↦ rw (live, e) (evict-lookup now id s h.1)
  ]
]

evict-IsMap : (now : ℕ) (s : JobStore) → IsMap s → IsMap (evict now s)
unfolding evict
evict-IsMap now [] h = tt
evict-IsMap now ((k, v) ∷ s) h = elim (Bool-cases (is_expired now v)) [
  | inl old ↦ rw old (evict-IsMap now s h.1)
  | inr live ↦
      rw live (evict-lookup now k s h.1 ∙ ap (unless_expired now) h.0, evict-IsMap now s h.1)
]

-- What may happen to the store.
pub data Op : Type 0 where
  created : Text → ℕ → Op
  stored : Text → JobResult → ℕ → Op
  evicted : ℕ → Op

abbrev pub run : Op → JobStore → JobStore
run (created id now) s = new_job id now s
run (stored id result now) s = store_result id result now s
run (evicted now) s = evict now s

abbrev pub run_all : List Op → JobStore → JobStore
run_all [] s = s
run_all (op ∷ ops) s = run_all ops (run op s)

run-IsMap : (op : Op) (s : JobStore) → IsMap s → IsMap (run op s)
unfolding new_job store_result
run-IsMap (created id now) s h = insert-IsMap id _ s h
run-IsMap (stored id result now) s h = insert-IsMap id _ s h
run-IsMap (evicted now) s h = evict-IsMap now s h

-- The operation does not write this id, and evicts nothing that was stored as late as `t`.
abbrev pub Spares : Text → ℕ → Op → Type 0
Spares id t (created j now) = str_eq j id ≡ false
Spares id t (stored j result now) = str_eq j id ≡ false
Spares id t (evicted now) = ltb (t + job_ttl) now ≡ false

run-keeps :
    (id : Text) (rec : JobRecord) (op : Op) (s : JobStore)
    → IsMap s
    → Spares id rec.stored_at op
    → lookup id s ≡ some rec
    → lookup id (run op s) ≡ some rec
unfolding new_job store_result
run-keeps id rec (created j now) s h spares held =
    ground (
      arith,
      lookup-insert id j (record { result = new_result j; stored_at = now }) s,
      spares,
      held,
    )
run-keeps id rec (stored j result now) s h spares held = ground (
  arith,
  lookup-insert id j (record { result = record result { job_id = j }; stored_at = now }) s,
  spares,
  held,
)
run-keeps id rec (evicted now) s h spares held =
    evict-lookup now id s h ∙ ap (unless_expired now) held ∙ rw spares refl

run_all-keeps :
    (id : Text) (rec : JobRecord) (ops : List Op) (s : JobStore)
    → IsMap s
    → All (Spares id rec.stored_at) ops
    → lookup id s ≡ some rec
    → lookup id (run_all ops s) ≡ some rec
run_all-keeps id rec [] s h all held = held
run_all-keeps id rec (op ∷ ops) s h all held =
    run_all-keeps id rec ops (run op s) (run-IsMap op s h) all.1
      (run-keeps id rec op s h all.0 held)

-- A result that is stored is found, with its id set, whatever happens to other jobs, as long as no
-- eviction runs more than five minutes later; it does not matter whether the job was still there.
pub get_result-store_result :
    (id : Text) (result : JobResult) (t : ℕ) (ops : List Op) (s : JobStore)
    → IsMap s
    → All (Spares id t) ops
    → get_result (run_all ops (store_result id result t s)) id
      ≡ some (record result { job_id = id })
unfolding get_result store_result
get_result-store_result id result t ops s h all =
    let rec : JobRecord = record { result = record result { job_id = id }; stored_at = t } in
    rw
      (run_all-keeps id rec ops (insert id rec s) (insert-IsMap id rec s h) all
        (lookup-insert_self id rec s))
      refl

-- An eviction removes exactly the results that were stored more than five minutes before, and any
-- other poll finds what it found.
pub get_result-evict :
    (now : ℕ) (id : Text) (s : JobStore)
    → IsMap s
    → IsMap (evict now s)
      × (((rec : JobRecord) × (lookup id s ≡ some rec)
            × (is_expired now rec ≡ true)
            × (get_result (evict now s) id ≡ none))
          ⊎ (get_result (evict now s) id ≡ get_result s id))
unfolding get_result
get_result-evict now id s h = (
  evict-IsMap now s h,
  elim (Option-cases (lookup id s)) [
    | inl e ↦
        let same : lookup id (evict now s) ≡ lookup id s =
          evict-lookup now id s h ∙ ap (unless_expired now) e ∙ sym e in
        inr (ap result_of same)
    | inr (rec, e) ↦
        let after = evict-lookup now id s h ∙ ap (unless_expired now) e in
        elim (Bool-cases (is_expired now rec)) [
          | inl old ↦
              let gone : lookup id (evict now s) ≡ none = after ∙ rw old refl in
              inl (rec, e, old, ap result_of gone)
          | inr live ↦
              let same : lookup id (evict now s) ≡ lookup id s = after ∙ rw live (sym e) in
              inr (ap result_of same)
        ]
  ],
)
