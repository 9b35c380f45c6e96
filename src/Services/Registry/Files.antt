-- ===== src/Services/Registry/Files.antt =====
-- internal/services/registry.go: reading the directory changes no file.
use tailkitd.Prelude.{
  ◌≡◌, refl, ◌∙◌, Bool, true, false, Option, List, [], ◌∷◌, ◌++◌, arith, Dict, Text, codes,
  has_suffix,
}
use tailkitd.Os.{Outcome, World, read_dir, read_dir-files, os_laws, not_exist, ok, err}
use tailkitd.Services.Registry.{
  OutsiderServiceConfig, load_one, load_dir, reload, put_loaded, skip_or_load, load_names,
  after_listing,
}

module _ (toml_decode : Text → Option (OutsiderServiceConfig × Bool)) (dir : Text) where
  load_one-files : (path : Text) (w : World Text) → (load_one toml_decode path w).1.files ≡ w.files
  unfolding load_one
  load_one-files path w = grind (arith, os_laws)

  skip_or_load-files :
      (b : Bool) (path : Text) (w : World Text)
      → (skip_or_load toml_decode b path w).1.files ≡ w.files
  skip_or_load-files false path w = refl
  skip_or_load-files true path w = load_one-files path w

  load_names-files :
      (names : List Text) (d : Dict OutsiderServiceConfig) (w : World Text)
      → (load_names toml_decode dir names d w).1.files ≡ w.files
  unfolding load_names
  load_names-files [] d w = refl
  load_names-files (name ∷ names) d w =
      let (r, w') =
        skip_or_load toml_decode (has_suffix name (codes ".toml")) (dir ++ b'/' ∷ name) w in
      load_names-files names (put_loaded r d) w'
      ∙ skip_or_load-files (has_suffix name (codes ".toml")) (dir ++ b'/' ∷ name) w

  after_listing-files :
      (r : Outcome (List Text)) (w : World Text)
      → (after_listing toml_decode dir r w).1.files ≡ w.files
  after_listing-files (ok names) w = load_names-files names [] w
  after_listing-files (err not_exist) w = refl
  after_listing-files (err e) w = refl

  pub reload-files :
      (old : Dict OutsiderServiceConfig) (w : World Text)
      → (reload toml_decode dir old w).2.files ≡ w.files
  unfolding reload load_dir
  reload-files old w =
      after_listing-files (read_dir dir w).0 (read_dir dir w).1 ∙ read_dir-files dir w
