-- ===== src/Invite/Store/Kept.antt =====
-- internal/invite/store.go: a claim that has been recorded stays recorded.
use tailkitd.Prelude.{
  ℕ, ◌≡◌, refl, ap, ◌∙◌, ◌⊎◌, inl, inr, true, false, some, List, [], ◌∷◌, arith, Dict, lookup,
  insert, lookup-insert, lookup-insert_self, Occurs, Text, str_eq, str_eq_refl, eq_of_str_eq,
  Bool-cases,
}
use tailkitd.Os.{
  Outcome, Outcome-cases, World, read_file, syscall-files, os_laws, already_claimed, ok, err,
}
use tailkitd.Os.Atomic.{Written, atomic_write_lem}
use tailkitd.Invite.Store.{
  ClaimRecord, Document, Store, put_all, records, recorded, broken, is_claimed, persist,
  mark_claimed, new_store, load,
}

abbrev pub Entry : Text → Dict ClaimRecord → Type 0
Entry id d = (r : ClaimRecord) × (lookup id d ≡ some r) × (r.token_id ≡ id)

abbrev pub InFile : Text → Document → Type 0
InFile id broken = ⊥
InFile id (recorded rs) = (r : ClaimRecord) × Occurs r rs × (r.token_id ≡ id)

abbrev pub OnDisk : Text → Text → Dict Document → Type 0
OnDisk id path files = (doc : Document) × (lookup path files ≡ some doc) × InFile id doc

-- The token is claimed in memory and in the file.
abbrev pub Kept : Text → Store → World Document → Type 0
Kept id s w = Entry id s.claims × OnDisk id s.path w.files

-- Nothing of the map is left out.
abbrev pub VisitsAll : (List ClaimRecord → List ClaimRecord) → Type 0
VisitsAll visit = (r : ClaimRecord) (rs : List ClaimRecord) → Occurs r rs → Occurs r (visit rs)

Occurs-records :
    (id : Text) (r : ClaimRecord) (d : Dict ClaimRecord)
    → lookup id d ≡ some r
    → Occurs r (records d)
unfolding lookup records
Occurs-records id r [] h = cc h
Occurs-records id r ((k, v) ∷ d) h = elim (Bool-cases (str_eq k id)) [
  | inl e ↦ inl (ground (arith, e, h))
  | inr e ↦ inr (Occurs-records id r d (rw e at h))
]

Entry-insert :
    (id k : Text) (q : ClaimRecord) (d : Dict ClaimRecord)
    → q.token_id ≡ k
    → (k ≡ id) ⊎ Entry id d
    → Entry id (insert k q d)
Entry-insert id k q d own (inl e) =
    (q, ground (arith, lookup-insert id k q d, e, str_eq_refl id), own ∙ e)
Entry-insert id k q d own (inr (r, h, e)) = elim (Bool-cases (str_eq k id)) [
  | inl same ↦ (q, ground (arith, lookup-insert id k q d, same), own ∙ eq_of_str_eq k id same)
  | inr other ↦ (r, ground (arith, lookup-insert id k q d, other, h), e)
]

put_all-Entry :
    (id : Text) (rs : List ClaimRecord) (d : Dict ClaimRecord)
    → ((r : ClaimRecord) × Occurs r rs × (r.token_id ≡ id)) ⊎ Entry id d
    → Entry id (put_all rs d)
unfolding put_all
put_all-Entry id [] d (inl (r, o, e)) = absurd o
put_all-Entry id [] d (inr entry) = entry
put_all-Entry id (q ∷ rs) d (inl (r, inr o, e)) =
    put_all-Entry id rs (insert q.token_id q d) (inl (r, o, e))
put_all-Entry id (q ∷ rs) d (inl (r, inl same, e)) = put_all-Entry id rs (insert q.token_id q d) (
    inr (Entry-insert id q.token_id q d refl (inl (ap (λ (x : ClaimRecord). x.token_id) same ∙ e))))
put_all-Entry id (q ∷ rs) d (inr entry) =
    put_all-Entry id rs (insert q.token_id q d)
      (inr (Entry-insert id q.token_id q d refl (inr entry)))

Entry-InFile :
    (visit : List ClaimRecord → List ClaimRecord) (id : Text) (d : Dict ClaimRecord)
    → VisitsAll visit
    → Entry id d
    → InFile id (recorded (visit (records d)))
Entry-InFile visit id d all (r, h, e) = (r, all r (records d) (Occurs-records id r d h), e)

pub Entry-claimed : (id : Text) (s : Store) → Entry id s.claims → is_claimed s id ≡ true
unfolding is_claimed
Entry-claimed id s (r, h, e) = rw h refl

-- A claim that is recorded is in the file; one that is not has changed no file.
abbrev pub Recorded : Text → Text → Dict Document → Outcome Unit → Dict Document → Type 0
Recorded id path before (ok _) after = OnDisk id path after
Recorded id path before (err _) after = after ≡ before

Written-Recorded :
    (id path : Text) (doc : Document) (before after : Dict Document) (r : Outcome Unit)
    → InFile id doc
    → Written path doc r before after
    → Recorded id path before r after
Written-Recorded id path doc before after (ok u) here e =
    (doc, ap (lookup path) e ∙ lookup-insert_self path doc before, here)
Written-Recorded id path doc before after (err x) here e = e

-- The token was claimed before, or it is now in memory, and in the file if there was no error.
abbrev pub Marked : Text → Store → World Document → Store × Outcome Unit × World Document → Type 0
Marked id s w (s', r, w') =
    ((is_claimed s id ≡ true) × (s' ≡ s) × (r ≡ err already_claimed) × (w' ≡ w))
    ⊎ ((is_claimed s id ≡ false)
        × (s'.path ≡ s.path)
        × Entry id s'.claims
        × ((j : Text) → Entry j s.claims → Entry j s'.claims)
        × Recorded id s.path w.files r w'.files
        × ((j : Text) → Entry j s.claims → OnDisk j s.path w.files → OnDisk j s.path w'.files))

module _ (visit : List ClaimRecord → List ClaimRecord) where
  persist_lem :
      (s : Store) (w : World Document)
      → Written s.path
          (recorded (visit (records s.claims)))
          (persist visit s w).0
          w.files
          (persist visit s w).1.files
  unfolding persist
  persist_lem s w = grind (arith, os_laws, atomic_write_lem)

  persist-Recorded :
      (id : Text) (s : Store) (w : World Document)
      → VisitsAll visit
      → Entry id s.claims
      → Recorded id s.path w.files (persist visit s w).0 (persist visit s w).1.files
  persist-Recorded id s w all entry =
      Written-Recorded id s.path (recorded (visit (records s.claims))) w.files
        (persist visit s w).1.files (persist visit s w).0 (Entry-InFile visit id s.claims all entry)
        (persist_lem s w)

  still_OnDisk :
      (id path : Text) (before after : Dict Document) (r : Outcome Unit)
      → OnDisk id path before
      → Recorded id path before r after
      → OnDisk id path after
  still_OnDisk id path before after (ok u) disk here = here
  still_OnDisk id path before after (err e) disk same = rw same disk

  -- `MarkClaimed` refuses a token that is claimed and then changes nothing. Any other token is
  -- then claimed in memory, and also in the file if there is no error; with an error the files are
  -- as they were. No claim of another token is lost from memory or from the file.
  pub mark_claimed_lem :
      (id by : Text) (expires_at now : ℕ) (s : Store) (w : World Document)
      → VisitsAll visit
      → Marked id s w (mark_claimed visit id by expires_at now s w)
  unfolding mark_claimed
  mark_claimed_lem id by expires_at now s w all = elim (Bool-cases (is_claimed s id)) [
    | inl old ↦ rw old (inl (refl, refl, refl, refl))
    | inr fresh ↦
        let r : ClaimRecord = record {
          token_id = id;
          claimed_by = by;
          claimed_at = now;
          expires_at = expires_at;
        } in
        let s' : Store = record s { claims = insert id r s.claims } in
        let keep : (j : Text) → Entry j s.claims → Entry j s'.claims =
          λ j h. Entry-insert j id r s.claims refl (inr h) in
        let mine : Entry id s'.claims = Entry-insert id id r s.claims refl (inl refl) in
        rw fresh (
          inr (
            refl,
            refl,
            mine,
            keep,
            persist-Recorded id s' w all mine,
            λ j h disk.
                still_OnDisk j s.path w.files (persist visit s' w).1.files (persist visit s' w).0
                  disk (persist-Recorded j s' w all (keep j h)),
          ))
  ]

load-files : (path : Text) (w : World Document) → (load path w).1.files ≡ w.files
unfolding load
load-files path w = grind (arith, os_laws)

load-recorded :
    (path : Text) (w : World Document) (rs : List ClaimRecord) (d : Dict ClaimRecord)
    → lookup path w.files ≡ some (recorded rs)
    → (load path w).0 ≡ ok d
    → put_all rs [] ≡ d
unfolding load read_file
load-recorded path w rs d held h = ground (arith, syscall-files w)

new_store_lem :
    (path : Text) (w : World Document) (s : Store)
    → (new_store path w).0 ≡ ok s
    → ((load path w).0 ≡ ok s.claims) × (s.path ≡ path) × ((new_store path w).1.files ≡ w.files)
unfolding new_store
new_store_lem path w s h = elim (Outcome-cases (load path w).0) [
  | inl (d, e) ↦ ground (arith, load-files path w)
  | inr (x, e) ↦ ground (arith, load-files path w)
]

-- A claim that is in the file is found by the store that a restart makes, if the start succeeds.
pub new_store-OnDisk :
    (id path : Text) (w : World Document) (s : Store)
    → OnDisk id path w.files
    → (new_store path w).0 ≡ ok s
    → (s.path ≡ path) × Entry id s.claims × OnDisk id path (new_store path w).1.files
new_store-OnDisk id path w s (recorded rs, held, here) h =
    let (loaded, same, files) = new_store_lem path w s h in
    (
      same,
      rw (← load-recorded path w rs s.claims held loaded) (put_all-Entry id rs [] (inl here)),
      rw files (recorded rs, held, here),
    )
new_store-OnDisk id path w s (broken, held, here) h = absurd here
