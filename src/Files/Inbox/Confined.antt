-- ===== src/Files/Inbox/Confined.antt =====
-- internal/files/handlers.go: what a request to the inbox may see and remove.
use tailkitd.Prelude.{
  ◌≡◌, refl, sym, ◌∙◌, ◌⊎◌, inl, inr, true, some, List, [], ◌∷◌, ◌++◌, Dict, lookup, erase, All,
  is_abs, clean, path_join, Text, str_eq, eq_of_str_eq, has_prefix, Bool-cases,
}
use tailkitd.Prelude.Paths.Inside.{Inside, clean-Inside, clean-is_abs}
use tailkitd.Os.Listing.{Stands}
use tailkitd.Os.{World, syscall, syscall-files, ok}
use tailkitd.Files.{Body, Reply, file_content, dir_entries}
use tailkitd.Files.Inbox.{resolve_inbox_path, infos}

abbrev pub Within : Text → Text → Type 0
Within dir path = (path ≡ dir) ⊎ Inside dir path

join-is_abs : (dir rel : Text) → is_abs dir ≡ true → is_abs (path_join dir rel) ≡ true
unfolding path_join is_abs
join-is_abs [] rel a = cc a
join-is_abs (c ∷ dir) rel a = clean-is_abs (c ∷ (dir ++ b'/' ∷ rel)) a

pub resolve_inbox_path-Within :
    (dir rel q : Text)
    → is_abs dir ≡ true
    → resolve_inbox_path dir rel ≡ ok q
    → Within (clean dir) q
unfolding resolve_inbox_path
resolve_inbox_path-Within dir rel q a h =
    let path = clean (path_join dir rel) in
    elim (Bool-cases (is_abs rel)) [
      | inl e ↦ absurd (cc (rw e at h))
      | inr e ↦ elim (Bool-cases (has_prefix path (clean dir ++ b'/' ∷ []))) [
        | inl below ↦
            let same : path ≡ q = cc (rw (e, below) at h) in
            rw (← same) (
              inr (
                clean-Inside (clean dir) (path_join dir rel) (join-is_abs dir rel a)
                  (clean-is_abs dir a) below))
        | inr other ↦ elim (Bool-cases (str_eq path (clean dir))) [
          | inl self ↦
              let same : path ≡ q = cc (rw (e, other, self) at h) in
              inl (sym same ∙ eq_of_str_eq path (clean dir) self)
          | inr out ↦ absurd (cc (rw (e, other, out) at h))
        ]
      ]
    ]

-- A response shows only files of the directory: the content of one within it, or names of those that
-- stand right in it.
abbrev pub Shows : Text → Dict Text → Body → Type 0
Shows dir files (file_content text) =
    (path : Text) × Within dir path × (lookup path files ≡ some text)
Shows dir files (dir_entries names) = All (Stands dir files) names
Shows dir files _ = Unit

abbrev pub InboxOutcome : Text → World Text → Reply × World Text → Type 0
InboxOutcome dir w out =
    ((out.1.files ≡ w.files) × Shows dir w.files out.0.body)
    ⊎ ((out.0.status ≡ 204)
        × ((path : Text) × Within dir path
            × ((c : Text) × (lookup path w.files ≡ some c))
            × (out.1.files ≡ erase path w.files)))

pub infos-files : (names : List Text) (v : World Text) → (infos names v).1.files ≡ v.files
unfolding infos
infos-files [] v = refl
infos-files (name ∷ names) v = infos-files names (syscall v).1 ∙ syscall-files v
