-- ===== src/Services/Push.antt =====
-- internal/api/admin.go: `pushService` and `deleteService`.
pub mod Laws
use tailkitd.Prelude.{ℕ, Bool, Option, none, some, Dict, Text}
use tailkitd.Os.{Outcome, World, remove, mkdir_all, not_exist, ok, err}
use tailkitd.Os.Atomic.{atomic_write}
use tailkitd.Services.Registry.{OutsiderServiceConfig, validate, file_path, reload}

-- The registry's map, and the files.
pub record Host : Type 0 where
  pub services : Dict OutsiderServiceConfig
  pub world : World Text

module _ (toml_decode : Text → Option (OutsiderServiceConfig × Bool))
    (toml_encode : OutsiderServiceConfig → Outcome Text) (dir : Text) where
  abbrev reloaded : ℕ → Outcome Unit × Dict OutsiderServiceConfig × World Text → ℕ × Host
  reloaded status (ok _, d, w) = (status, record { services = d; world = w })
  reloaded status (err e, d, w) = (500, record { services = d; world = w })

  abbrev after_write : Outcome Unit → Host → ℕ × Host
  after_write (err e) h = (409, h)
  after_write (ok _) h = reloaded 200 (reload toml_decode dir h.services h.world)

  abbrev at : Host → World Text → Host
  at h w = record h { world = w }

  abbrev after_mkdir : Text → Text → Outcome Unit → Host → ℕ × Host
  after_mkdir path text (err e) h = (500, h)
  after_mkdir path text (ok _) h =
      let (r, w) = atomic_write path text h.world in after_write r (at h w)

  abbrev after_encode : Text → Outcome Text → Host → ℕ × Host
  after_encode path (err e) h = (500, h)
  after_encode path (ok text) h = let (r, w) = mkdir_all h.world in after_mkdir path text r (at h w)

  abbrev after_validate : Text → Outcome OutsiderServiceConfig → Host → ℕ × Host
  after_validate name (err e) h = (400, h)
  after_validate name (ok s) h = after_encode (file_path dir name) (toml_encode s) h

  -- `pushService`; the body is `none` if it is no JSON of a service.
  unfoldable pub push_service : Text → Option OutsiderServiceConfig → Host → ℕ × Host
  push_service name none h = (400, h)
  push_service name (some s) h = after_validate name (validate (record s { name = name })) h

  abbrev after_remove : Outcome Unit → Host → ℕ × Host
  after_remove (err not_exist) h = (404, h)
  after_remove (err e) h = (500, h)
  after_remove (ok _) h = reloaded 204 (reload toml_decode dir h.services h.world)

  -- `deleteService`
  unfoldable pub delete_service : Text → Host → ℕ × Host
  delete_service name h =
      let (r, w) = remove (file_path dir name) h.world in after_remove r (at h w)
