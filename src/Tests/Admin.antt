-- ===== src/Tests/Admin.antt =====
-- Runs of internal/admin/bootstrap.go.
use tailkitd.Prelude.{
  ◌≡◌, refl, ◌≢◌, inl, Bool, true, false, Option, none, some, List, [], ◌∷◌, lookup, insert,
  IsLeast, Occurs, sort, Text, codes, str_eq, str_lt, to_lower,
}
use tailkitd.Os.Plain.{stat, write_file}
use tailkitd.Os.{World, syscall, mkdir_all, ok}
use tailkitd.Api.Http.{Request, method_get}
use tailkitd.Api.Gate.{admin_key_path, key_verdict, get_admin_key}
use tailkitd.Admin.Election.{bootstrap_election, daemon_hostname, peer_hostnames}
use tailkitd.Admin.Election.Laws.{
  bootstrap_election_iff, bootstrap_election_unique, bootstrap_election_exists,
}
use tailkitd.Admin.Files.{ensure_bootstrap_files}
use tailkitd.Admin.Files.Laws.{failing_write, ensure_bootstrap_files-empty_key}

abbrev a : Text
a = codes "tailkitd-a"

abbrev b : Text
b = codes "tailkitd-b"

hosts :
    peer_hostnames
      (some (some (codes "B_box") ∷ none ∷ some (codes "me") ∷ some (codes "a") ∷ []))
      (codes "me")
      (codes "a" ∷ codes "B_box" ∷ codes "me" ∷ [])
    ≡ codes "tailkitd-a" ∷ codes "tailkitd-b-box" ∷ []
unfolding peer_hostnames daemon_hostname str_eq to_lower sort str_lt
hosts = refl

-- Nobody answers.
abbrev silent : Text → Option Bool
silent peer = none

b_yields : bootstrap_election silent b (a ∷ []) ≡ false
unfolding bootstrap_election sort str_lt str_eq
b_yields = refl

a_leads : bootstrap_election silent a (b ∷ []) ≡ true
unfolding bootstrap_election sort str_lt str_eq
a_leads = refl

a_first : IsLeast a (a ∷ b ∷ [])
unfolding str_lt
a_first = (refl, (refl, tt))

bootstrap_election_unique_example : a ≡ a
bootstrap_election_unique_example =
    bootstrap_election_unique silent silent a a (a ∷ b ∷ []) (a ∷ []) (inl refl) (inl refl)
      ((bootstrap_election_iff silent a (a ∷ b ∷ [])).1 ((refl, (refl, tt)), a_first))
      ((bootstrap_election_iff silent a (a ∷ [])).1 ((refl, tt), (a_first.0, tt)))

bootstrap_election_exists_example :
    (self : Text) × Occurs self (b ∷ a ∷ [])
    × ((peers : List Text)
        → ((p : Text) → Occurs p peers → Occurs p (b ∷ a ∷ []))
        → bootstrap_election silent self peers ≡ true)
bootstrap_election_exists_example = bootstrap_election_exists silent b (a ∷ []) (refl, (refl, tt))

abbrev no_files : World Text
no_files = record { files = []; temp = none; faults = [] }

started : (ensure_bootstrap_files (ok (codes "ab")) no_files).0 ≡ ok tt
unfolding ensure_bootstrap_files stat write_file syscall mkdir_all lookup insert str_eq
started = refl

abbrev old_files : World Text
old_files = record no_files { files = (admin_key_path, codes "old") ∷ [] }

abbrev bare : Request
bare = record {
  method = method_get;
  path = codes "/admin/x";
  admin_key = [];
  state_epoch = [];
  login = none;
}

no_key : lookup admin_key_path no_files.files ≡ none
unfolding lookup
no_key = refl

ensure_bootstrap_files-empty_key_example :
    let failed = ensure_bootstrap_files (ok (codes "ab")) (failing_write no_files) in
    let later = ensure_bootstrap_files (ok (codes "cd")) (record failed.1 { faults = [] }) in
    (failed.0 ≢ ok tt)
    × (key_verdict (get_admin_key (record later.1 { faults = [] })).0 bare ≡ none)
ensure_bootstrap_files-empty_key_example =
    ensure_bootstrap_files-empty_key (codes "ab") (ok (codes "cd")) no_files [] bare no_key refl
