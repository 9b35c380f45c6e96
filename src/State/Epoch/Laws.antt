-- ===== src/State/Epoch/Laws.antt =====
-- internal/state/epoch.go: what callers and restarts see of the epoch.
use tailkitd.Prelude.{
  ◌≡◌, refl, ◌∙◌, ◌↔◌, ◌⊎◌, inl, inr, false, some, [], arith, ℤ, InInt64, ltb_ℤ, inc64, print_int,
  parse_int-print_int, print_int-NotSpace, inc64-InInt64, pos, negsuc, Dict, lookup, insert,
  lookup-insert_self, Text, trim_space-line,
}
use tailkitd.Os.{
  Error, Outcome, Outcome-cases, World, pure, continue, mkdir_all, mkdir_all-files,
  read_file-no_faults, ok, err,
}
use tailkitd.Os.Atomic.{Written, atomic_write, atomic_write_lem}
use tailkitd.State.Epoch.{Epoch, load, new_epoch, current, validate, line_of, increment, save}

ltb_ℤ_irrefl : (n : ℤ) → ltb_ℤ n n ≡ false
unfolding ltb_ℤ
ltb_ℤ_irrefl (pos n) = ground arith
ltb_ℤ_irrefl (negsuc n) = ground arith

ltb_ℤ_antisymm : (a b : ℤ) → ltb_ℤ a b ≡ false → ltb_ℤ b a ≡ false → a ≡ b
unfolding ltb_ℤ
ltb_ℤ_antisymm (pos a) (pos b) h k = ground arith
ltb_ℤ_antisymm (pos a) (negsuc b) h k = cc
ltb_ℤ_antisymm (negsuc a) (pos b) h k = cc
ltb_ℤ_antisymm (negsuc a) (negsuc b) h k = ground arith

-- `Validate` accepts a caller exactly if it names the current value.
pub validate_iff : (e : Epoch) (caller : ℤ) → (validate e caller ≡ ok tt) ↔ (caller ≡ current e)
unfolding validate
validate_iff e caller =
    (λ h. ground (arith, ltb_ℤ_antisymm caller e.value), λ h. rw (h, ltb_ℤ_irrefl e.value))

abbrev pub Incremented : Epoch → Dict Text → Epoch × Outcome ℤ × World Text → Type 0
Incremented e before (e', r, w') =
    (e' ≡ record e { value = inc64 e.value })
    × (((r ≡ ok (inc64 e.value)) × (w'.files ≡ insert e.path (line_of (inc64 e.value)) before))
        ⊎ (((x : Error) × (r ≡ err x)) × (w'.files ≡ before)))

written_lem :
    (n : ℤ) (path text : Text) (before : Dict Text) (v : World Text)
    → v.files ≡ before
    → (r : Outcome Unit) (w : World Text) → Written path text r v.files w.files
    → let (r', w') = (continue r (λ _. pure n)) w in
      ((r' ≡ ok n) × (w'.files ≡ insert path text before))
      ⊎ (((x : Error) × (r' ≡ err x)) × (w'.files ≡ before))
written_lem n path text before v same (ok u) w h = inl (refl, rw (← same) h)
written_lem n path text before v same (err x) w h = inr ((x, refl), h ∙ same)

-- `Increment` always raises the value in memory; it returns that value exactly if the file now
-- holds it, and an error exactly if the files are as they were.
pub increment_lem : (e : Epoch) (w : World Text) → Incremented e w.files (increment e w)
unfolding increment save
increment_lem e w =
    let path = e.path in
    let text = line_of (inc64 e.value) in
    let v = (mkdir_all w).1 in
    (
      refl,
      elim (Outcome-cases (mkdir_all w).0) [
        | inr (x, bad) ↦ rw bad (inr ((x, refl), mkdir_all-files w))
        | inl (u, made) ↦ rw made (
            written_lem (inc64 e.value) path text w.files v (mkdir_all-files w)
              (atomic_write path text v).0 (atomic_write path text v).1
              (atomic_write_lem path text v))
      ],
    )

load-line_of :
    (path : Text) (n : ℤ) (w : World Text)
    → InInt64 n
    → w.faults ≡ []
    → lookup path w.files ≡ some (line_of n)
    → (load path w).0 ≡ ok n
unfolding load
load-line_of path n w h quiet saved = ground (
  arith,
  read_file-no_faults path w quiet saved,
  trim_space-line (print_int n) (print_int-NotSpace n),
  parse_int-print_int n h,
)

-- A restart after an increment that succeeded finds the raised value, if the start meets no fault.
pub new_epoch-increment :
    (e : Epoch) (w : World Text)
    → InInt64 e.value
    → (increment e w).1 ≡ ok (inc64 e.value)
    → (new_epoch e.path (record (increment e w).2 { faults = [] })).0 ≡ ok (increment e w).0
unfolding new_epoch
new_epoch-increment e w h k = elim (increment_lem e w).1 [
  | inl done ↦ ground (
    arith,
    load-line_of e.path (inc64 e.value) (record (increment e w).2 { faults = [] })
        (inc64-InInt64 e.value h),
    lookup-insert_self e.path (line_of (inc64 e.value)) w.files,
    (increment_lem e w).0,
  )
  | inr failed ↦ absurd (cc (failed.0.1, k))
]
