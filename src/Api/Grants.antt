-- ===== src/Api/Grants.antt =====
-- internal/api/access.go: the grants over HTTP. The TOML encoder is a parameter.
pub mod Laws
use tailkitd.Prelude.{ℕ, Bool, Option, none, some, List, [], ◌∷◌, ◌++◌, Text, codes}
use tailkitd.Os.{Outcome, World, mkdir_all, ok, err}
use tailkitd.Os.Atomic.{atomic_write}
use tailkitd.Access.Registry.{Grant, validate, reload}
use tailkitd.Api.Http.{Method, method_get, method_post}

-- The registry's grants, and the files
pub record Grants : Type 0 where
  pub grants : List Grant
  pub world : World Text

abbrev cons_ok : Grant → Outcome (List Grant) → Outcome (List Grant)
cons_ok g (ok grants) = ok (g ∷ grants)
cons_ok g (err e) = err e

abbrev first_valid : Outcome Grant → Outcome (List Grant) → Outcome (List Grant)
first_valid (ok g) rest = cons_ok g rest
first_valid (err e) rest = err e

-- The loop that validates the grants of the request, which rewrites them
unfoldable pub validate_each : List Grant → Outcome (List Grant)
validate_each [] = ok []
validate_each (g ∷ grants) = first_valid (validate g) (validate_each grants)

module _ (toml_decode : Text → Option (List Grant × Bool)) (toml_encode : List Grant → Outcome Text)
    (dir : Text) where
  -- `filepath.Join(h.Dir, "grants.toml")`, for a clean directory
  abbrev pub grants_path : Text
  grants_path = dir ++ b'/' ∷ codes "grants.toml"

  abbrev reloaded_grants : List Grant → Outcome (List Grant) → World Text → ℕ × Grants
  reloaded_grants old (ok grants) w = (200, record { grants = grants; world = w })
  reloaded_grants old (err e) w = (500, record { grants = old; world = w })

  abbrev after_write : List Grant → Outcome Unit → World Text → ℕ × Grants
  after_write old (err e) w = (409, record { grants = old; world = w })
  after_write old (ok _) w = let (r, w') = reload toml_decode dir w in reloaded_grants old r w'

  abbrev after_mkdir : List Grant → Text → Outcome Unit → World Text → ℕ × Grants
  after_mkdir old text (err e) w = (500, record { grants = old; world = w })
  after_mkdir old text (ok _) w =
      let (r, w') = atomic_write grants_path text w in after_write old r w'

  abbrev after_encode : Outcome Text → Grants → ℕ × Grants
  after_encode (err e) s = (500, s)
  after_encode (ok text) s = let (r, w) = mkdir_all s.world in after_mkdir s.grants text r w

  abbrev after_validate : Outcome (List Grant) → Grants → ℕ × Grants
  after_validate (err e) s = (400, s)
  after_validate (ok grants) s = after_encode (toml_encode grants) s

  abbrev post_grants : Option (List Grant) → Grants → ℕ × Grants
  post_grants none s = (400, s)
  post_grants (some grants) s = after_validate (validate_each grants) s

  -- `ServeHTTP`; the body is `none` if it is no JSON of grants.
  unfoldable pub serve_grants : Method → Option (List Grant) → Grants → ℕ × Grants
  serve_grants method_get body s = (200, s)
  serve_grants method_post body s = post_grants body s
  serve_grants _ body s = (405, s)
