-- ===== src/Provision/Serve.antt =====
-- internal/api/provision.go: the handler that provisions a service.
pub mod Allowed
use tailkitd.Prelude.{
  ℕ, Bool, true, ◌||◌, not, Option, none, some, List, [], ℤ, Dict, Text, codes, str_eq,
  if◌then◌else◌,
}
use tailkitd.Os.{Outcome, World, ok, err}
use tailkitd.State.Epoch.{Epoch, validate as validate_epoch, increment}
use tailkitd.Access.Registry.{Grant, allow, has_any_grants}
use tailkitd.Api.Http.{Method, method_post}
use tailkitd.Api.Gate.{parse_caller_epoch}
use tailkitd.Services.Registry.{OutsiderServiceConfig, reload}
use tailkitd.Provision.{Request, Metadata, Packages, provision}

-- The fields of `ProvisionHandler`, with `none` for a nil pointer, and the files.
pub record Server : Type 0 where
  pub epoch : Option Epoch
  pub grants : Option (List Grant)
  pub services : Dict OutsiderServiceConfig
  pub world : World Text

pub record Call : Type 0 where
  pub method : Method
  pub state_epoch : Text
  -- `none` if the body is no such JSON
  pub body : Option Request
  pub login : Option Text

module _ (p : Packages) (toml_decode : Text → Option (OutsiderServiceConfig × Bool))
    (meanwhile : World Text → World Text) (services_dir : Text) (now : ℕ) where
  abbrev raise_epoch : Option Epoch → Server → Server
  raise_epoch none s = s
  raise_epoch (some e) s =
      let (e', _, w) = increment e s.world in record s { epoch = some e'; world = w }

  abbrev after_reload : Server → Outcome Unit × Dict OutsiderServiceConfig × World Text → ℕ × Server
  after_reload s (err e, d, w) = (500, record s { services = d; world = w })
  after_reload s (ok _, d, w) = (200, raise_epoch s.epoch (record s { services = d; world = w }))

  abbrev after_provision : Server → Outcome Metadata × World Text → ℕ × Server
  after_provision s (err e, w) = (400, record s { world = w })
  after_provision s (ok m, w) = after_reload s (reload toml_decode services_dir s.services w)

  pub run : Request → Server → ℕ × Server
  run req s = after_provision s (provision p meanwhile services_dir now req s.world)

  -- The caller may write the service.
  abbrev pub may_write : Option (List Grant) → Text → Text → Bool
  may_write none login name = true
  may_write (some grants) login name =
      not (has_any_grants grants) || allow grants login (codes "service.write") name

  abbrev check_login : Request → Server → Option Text → ℕ × Server
  check_login req s none = (403, s)
  check_login req s (some login) =
      if str_eq login []
      then (403, s)
      else if may_write s.grants login req.service_name
      then run req s
      else (403, s)

  abbrev check_body : Call → Server → Option Request → ℕ × Server
  check_body c s none = (400, s)
  check_body c s (some req) = check_login req s c.login

  abbrev verdict_of : Option Epoch → ℤ → Outcome Unit
  verdict_of none caller = ok tt
  verdict_of (some e) caller = validate_epoch e caller

  abbrev check_epoch : Call → Server → Outcome Unit → ℕ × Server
  check_epoch c s (err e) = (409, s)
  check_epoch c s (ok _) = check_body c s c.body

  abbrev check_header : Call → Server → Outcome ℤ → ℕ × Server
  check_header c s (err e) = (400, s)
  check_header c s (ok caller) = check_epoch c s (verdict_of s.epoch caller)

  abbrev check_method : Call → Server → Method → ℕ × Server
  check_method c s method_post = check_header c s (parse_caller_epoch c.state_epoch)
  check_method c s _ = (405, s)

  -- `ProvisionHandler.ServeHTTP`
  unfoldable pub serve : Call → Server → ℕ × Server
  unfolding run
  serve c s = check_method c s c.method
