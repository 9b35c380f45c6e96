-- ===== src/Admin/Files/Laws.antt =====
-- internal/admin/bootstrap.go: what `EnsureBootstrapFiles` leaves.
use tailkitd.Prelude.{
  ◌≡◌, refl, ◌∙◌, ◌≢◌, inl, inr, Bool, true, false, none, some, List, [], ◌∷◌, arith, Dict, lookup,
  lookup-insert_self, Text, codes, str_eq, eq_of_str_eq, trim_space, Bool-cases,
}
use tailkitd.Os.{
  Outcome, World, Io, lift, continue, ◌>>=◌, ◌>>◌, syscall, mkdir_all, mkdir_all-files,
  read_file-no_faults, not_exist, io_fault, ok, err,
}
use tailkitd.Os.Plain.{
  stat, stat-files, stat-not_exist, write_file, write_file-other, write_file-ok, stat-ok,
}
use tailkitd.Api.Http.{Request}
use tailkitd.Api.Gate.{admin_key_path, get_admin_key, key_verdict}
use tailkitd.Api.Transfer.{admin_fence_path}
use tailkitd.Admin.Files.{unless_found, ensure, ensure_bootstrap_files}

-- The files that are there stay as they are.
abbrev pub Keeps : Dict Text → Dict Text → Type 0
Keeps before after =
    (path content : Text) → lookup path before ≡ some content → lookup path after ≡ some content

abbrev Others : Text → Dict Text → Dict Text → Type 0
Others path before after = (j : Text) → str_eq path j ≡ false → lookup j after ≡ lookup j before

unless_found-Keeps :
    (path : Text) (create : Io Text Unit) (r : Outcome Unit) (w : World Text)
    → (r ≡ err not_exist → lookup path w.files ≡ none)
    → Others path w.files (create w).1.files
    → Keeps w.files (unless_found r create w).1.files
unless_found-Keeps path create (ok u) w absent others j content held = held
unless_found-Keeps path create (err not_exist) w absent others j content held =
    elim (Bool-cases (str_eq path j)) [
      | inl e ↦ ground (arith, absent refl, eq_of_str_eq path j e, held)
      | inr e ↦ others j e ∙ held
    ]
unless_found-Keeps path create (err io_fault) w absent others j content held = held
unless_found-Keeps path create (err e) w absent others j content held = held

ensure-Keeps :
    (path : Text) (create : Io Text Unit) (w : World Text)
    → ((v : World Text) → Others path v.files (create v).1.files)
    → Keeps w.files (ensure path create w).1.files
ensure-Keeps path create w others j content held =
    unless_found-Keeps path create (stat path w).0 (stat path w).1
      (λ e. rw (stat-files path w) (stat-not_exist path w e)) (others (stat path w).1) j content
      (rw (stat-files path w) held)

continue-Keeps :
    (r : Outcome Unit) (n : Io Text Unit) (w : World Text)
    → ((v : World Text) → Keeps v.files (n v).1.files)
    → Keeps w.files (continue r (λ _. n) w).1.files
continue-Keeps (ok u) n w h = h w
continue-Keeps (err e) n w h = λ path content held. held

then_Keeps :
    (m n : Io Text Unit) (w : World Text)
    → Keeps w.files (m w).1.files
    → ((v : World Text) → Keeps v.files (n v).1.files)
    → Keeps w.files ((m >> n) w).1.files
then_Keeps m n w hm hn path content held =
    continue-Keeps (m w).0 n (m w).1 hn path content (hm path content held)

key_Others :
    (random : Outcome Text) (v : World Text)
    → Others admin_key_path v.files
        ((do key ← lift random; write_file admin_key_path [] key) v).1.files
key_Others (ok key) v j h = write_file-other admin_key_path [] key j v h
key_Others (err e) v j h = refl

-- Whatever fails, no start changes a file that is there: a key is made once and then kept.
pub ensure_bootstrap_files-Keeps :
    (random : Outcome Text) (w : World Text)
    → Keeps w.files (ensure_bootstrap_files random w).1.files
unfolding ensure_bootstrap_files
ensure_bootstrap_files-Keeps random w =
    then_Keeps mkdir_all _ w (λ path content held. rw (mkdir_all-files w) held)
      (λ v.
        then_Keeps (ensure admin_key_path _) _ v
          (ensure-Keeps admin_key_path _ v (key_Others random))
          (λ u.
            ensure-Keeps admin_fence_path _ u
              (λ t j h. write_file-other admin_fence_path [] (codes "0\n") j t h)))

abbrev pub Present : Text → Dict Text → Type 0
Present path files = (content : Text) × (lookup path files ≡ some content)

unless_found-Present :
    (path : Text) (create : Io Text Unit) (r : Outcome Unit) (w : World Text)
    → (r ≡ ok tt → Present path w.files)
    → ((create w).0 ≡ ok tt → Present path (create w).1.files)
    → (unless_found r create w).0 ≡ ok tt
    → Present path (unless_found r create w).1.files
unless_found-Present path create (ok u) w there makes h = there refl
unless_found-Present path create (err not_exist) w there makes h = makes h
unless_found-Present path create (err io_fault) w there makes h = cc h
unless_found-Present path create (err e) w there makes h = cc h

ensure-Present :
    (path : Text) (create : Io Text Unit) (w : World Text)
    → ((v : World Text) → (create v).0 ≡ ok tt → Present path (create v).1.files)
    → (ensure path create w).0 ≡ ok tt
    → Present path (ensure path create w).1.files
ensure-Present path create w makes =
    unless_found-Present path create (stat path w).0 (stat path w).1
      (λ e. rw (stat-files path w) (stat-ok path w e)) (makes (stat path w).1)

key-Present :
    (random : Outcome Text) (v : World Text)
    → ((do key ← lift random; write_file admin_key_path [] key) v).0 ≡ ok tt
    → Present admin_key_path ((do key ← lift random; write_file admin_key_path [] key) v).1.files
key-Present (ok key) v h = (key, write_file-ok admin_key_path [] key v h)
key-Present (err e) v h = cc h

continue_ok :
    (r : Outcome Unit) (n : Io Text Unit) (w : World Text)
    → (continue r (λ _. n) w).0 ≡ ok tt
    → (r ≡ ok tt) × ((n w).0 ≡ ok tt) × ((continue r (λ _. n) w).1 ≡ (n w).1)
continue_ok (ok u) n w h = (refl, h, refl)
continue_ok (err e) n w h = cc h

-- After a start that succeeds both files are there.
pub ensure_bootstrap_files-Present :
    (random : Outcome Text) (w : World Text)
    → (ensure_bootstrap_files random w).0 ≡ ok tt
    → Present admin_key_path (ensure_bootstrap_files random w).1.files
      × Present admin_fence_path (ensure_bootstrap_files random w).1.files
unfolding ensure_bootstrap_files
ensure_bootstrap_files-Present random w h =
    let makes : Io Text Unit = do key ← lift random; write_file admin_key_path [] key
    in let fence : Io Text Unit =
        ensure admin_fence_path (write_file admin_fence_path [] (codes "0\n")) in
      let v : World Text = (mkdir_all w).1 in
      let u : World Text = (ensure admin_key_path makes v).1 in
      let (_, rest, same) =
        continue_ok (mkdir_all w).0 (ensure admin_key_path makes >> fence) v h in
      let (first, second, same') = continue_ok (ensure admin_key_path makes v).0 fence u rest in
      let (key, held) = ensure-Present admin_key_path makes v (key-Present random) first in
      rw same (
        rw same' (
          (
            key,
            ensure-Keeps admin_fence_path _ u
                (λ t j d. write_file-other admin_fence_path [] (codes "0\n") j t d) admin_key_path
                key held,
          ),
          ensure-Present admin_fence_path _ u
              (λ t d. (codes "0\n", write_file-ok admin_fence_path [] (codes "0\n") t d)) second,
        ))

-- The calls that make the key: the directory, the look for the file, opening it, and then the
-- write, which fails.
abbrev pub failing_write : World Text → World Text
failing_write w = record w { faults = false ∷ false ∷ false ∷ true ∷ [] }

failed_key-empty :
    (key : Text) (w : World Text)
    → lookup admin_key_path w.files ≡ none
    → ((ensure_bootstrap_files (ok key) (failing_write w)).0 ≢ ok tt)
      × (lookup admin_key_path (ensure_bootstrap_files (ok key) (failing_write w)).1.files
          ≡ some [])
unfolding ensure_bootstrap_files mkdir_all stat write_file syscall
failed_key-empty key w absent =
    rw absent ((λ h. cc h), lookup-insert_self admin_key_path [] w.files)

empty_key-passes :
    (w : World Text) (r : Request)
    → w.faults ≡ []
    → lookup admin_key_path w.files ≡ some []
    → r.admin_key ≡ []
    → key_verdict (get_admin_key w).0 r ≡ none
unfolding get_admin_key key_verdict trim_space str_eq
empty_key-passes w r quiet held bare =
    rw (read_file-no_faults admin_key_path w quiet held) (rw bare refl)

-- When the write of a new key fails the daemon does not start, but it leaves an empty key; every
-- later start keeps it, and then a request without a key passes the comparison of the keys.
pub ensure_bootstrap_files-empty_key :
    (key : Text) (random : Outcome Text) (w : World Text) (faults : List Bool) (r : Request)
    → lookup admin_key_path w.files ≡ none
    → r.admin_key ≡ []
    → let failed = ensure_bootstrap_files (ok key) (failing_write w) in
      let later = ensure_bootstrap_files random (record failed.1 { faults = faults }) in
      (failed.0 ≢ ok tt) × (key_verdict (get_admin_key (record later.1 { faults = [] })).0 r ≡ none)
ensure_bootstrap_files-empty_key key random w faults r absent bare =
    let failed = ensure_bootstrap_files (ok key) (failing_write w) in
    let (bad, empty) = failed_key-empty key w absent in
    (
      bad,
      empty_key-passes
          (record (ensure_bootstrap_files random (record failed.1 { faults = faults })).1 {
            faults = [];
          })
          r refl
          (ensure_bootstrap_files-Keeps random (record failed.1 { faults = faults }) admin_key_path
            [] empty)
          bare,
    )
