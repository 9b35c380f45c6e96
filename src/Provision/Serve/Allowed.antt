-- ===== src/Provision/Serve/Allowed.antt =====
-- internal/api/provision.go: who may provision.
use tailkitd.Prelude.{
  ℕ, ◌≡◌, refl, ◌≢◌, ◌⊎◌, inl, inr, Bool, true, false, Option, none, some, List, [], ◌∷◌, arith, ℤ,
  Text, codes, str_eq, str_eq_iff, Bool-cases,
}
use tailkitd.Os.{Outcome, World, ok, err}
use tailkitd.State.Epoch.{Epoch, current}
use tailkitd.State.Epoch.Laws.{validate_iff}
use tailkitd.Access.Registry.{Grant, allow, has_any_grants}
use tailkitd.Api.Http.{
  Method, is_success, method_get, method_post, method_put, method_patch, method_delete,
  method_other,
}
use tailkitd.Api.Gate.{parse_caller_epoch}
use tailkitd.Services.Registry.{OutsiderServiceConfig}
use tailkitd.Provision.{Request, Packages}
use tailkitd.Provision.Serve.{
  Server, Call, run, may_write, serve, check_login, check_body, verdict_of, check_epoch,
  check_header, check_method,
}

module _ (p : Packages) (toml_decode : Text → Option (OutsiderServiceConfig × Bool))
    (meanwhile : World Text → World Text) (services_dir : Text) (now : ℕ) where
  abbrev pub Names : Option Epoch → ℤ → Type 0
  Names none caller = Unit
  Names (some e) caller = caller ≡ current e

  -- The node keeps no grants, has none, or has some that let the caller write this service.
  abbrev pub MayWrite : Option (List Grant) → Text → Text → Type 0
  MayWrite none login name = Unit
  MayWrite (some grants) login name =
      (grants ≡ []) ⊎ (allow grants login (codes "service.write") name ≡ true)

  may_write-MayWrite :
      (grants : Option (List Grant)) (login name : Text)
      → may_write p toml_decode meanwhile services_dir now grants login name ≡ true
      → MayWrite grants login name
  unfolding has_any_grants
  may_write-MayWrite none login name h = tt
  may_write-MayWrite (some []) login name h = inl refl
  may_write-MayWrite (some (g ∷ grants)) login name h = inr h

  -- The request names the current epoch, where the node keeps one, and a caller that may write the
  -- service.
  abbrev pub MayProvision : Call → Server → Request → Type 0
  MayProvision c s req =
      (c.body ≡ some req)
      × ((caller : ℤ) × (parse_caller_epoch c.state_epoch ≡ ok caller) × Names s.epoch caller)
      × ((login : Text) × (c.login ≡ some login)
          × (login ≢ [])
          × MayWrite s.grants login req.service_name)

  abbrev pub ServeOutcome : Call → Server → ℕ × Server → Type 0
  ServeOutcome c s out =
      ((is_success out.0 ≡ false) × (out.1 ≡ s))
      ⊎ ((req : Request) × MayProvision c s req
          × (out ≡ run p toml_decode meanwhile services_dir now req s))

  abbrev Named : Call → Server → Type 0
  Named c s = (caller : ℤ) × (parse_caller_epoch c.state_epoch ≡ ok caller) × Names s.epoch caller

  check_login_lem :
      (c : Call) (s : Server) (req : Request) (login : Option Text)
      → Named c s
      → c.body ≡ some req
      → c.login ≡ login
      → ServeOutcome c s (check_login p toml_decode meanwhile services_dir now req s login)
  check_login_lem c s req none n b l = inl (refl, refl)
  check_login_lem c s req (some login) n b l = elim (Bool-cases (str_eq login [])) [
    | inl e ↦ rw e (inl (refl, refl))
    | inr e ↦
        elim (Bool-cases
          (may_write p toml_decode meanwhile services_dir now s.grants login req.service_name)) [
            | inr bad ↦ rw (e, bad) (inl (refl, refl))
            | inl good ↦
                rw (e, good)
                  (inr (
                    req,
                    (
                      b,
                      n,
                      (
                        login,
                        l,
                        (λ h. ground (arith, e, h, str_eq_iff login [])),
                        may_write-MayWrite s.grants login req.service_name good,
                      ),
                    ),
                    refl,
                  ))
          ]
  ]

  check_body_lem :
      (c : Call) (s : Server) (body : Option Request)
      → Named c s
      → c.body ≡ body
      → ServeOutcome c s (check_body p toml_decode meanwhile services_dir now c s body)
  check_body_lem c s none n b = inl (refl, refl)
  check_body_lem c s (some req) n b = check_login_lem c s req c.login n b refl

  verdict_of_ok :
      (e : Option Epoch) (caller : ℤ) (u : Unit)
      → verdict_of p toml_decode meanwhile services_dir now e caller ≡ ok u
      → Names e caller
  verdict_of_ok none caller u h = tt
  verdict_of_ok (some e) caller u h = (validate_iff e caller).0 h

  check_epoch_lem :
      (c : Call) (s : Server) (caller : ℤ) (r : Outcome Unit)
      → parse_caller_epoch c.state_epoch ≡ ok caller
      → verdict_of p toml_decode meanwhile services_dir now s.epoch caller ≡ r
      → ServeOutcome c s (check_epoch p toml_decode meanwhile services_dir now c s r)
  check_epoch_lem c s caller (err e) h v = inl (refl, refl)
  check_epoch_lem c s caller (ok u) h v =
      check_body_lem c s c.body (caller, h, verdict_of_ok s.epoch caller u v) refl

  check_header_lem :
      (c : Call) (s : Server) (r : Outcome ℤ)
      → parse_caller_epoch c.state_epoch ≡ r
      → ServeOutcome c s (check_header p toml_decode meanwhile services_dir now c s r)
  check_header_lem c s (err e) h = inl (refl, refl)
  check_header_lem c s (ok caller) h = check_epoch_lem c s caller _ h refl

  check_method_lem :
      (c : Call) (s : Server) (m : Method)
      → ServeOutcome c s (check_method p toml_decode meanwhile services_dir now c s m)
  check_method_lem c s method_post = check_header_lem c s (parse_caller_epoch c.state_epoch) refl
  check_method_lem c s method_get = inl (refl, refl)
  check_method_lem c s method_put = inl (refl, refl)
  check_method_lem c s method_patch = inl (refl, refl)
  check_method_lem c s method_delete = inl (refl, refl)
  check_method_lem c s method_other = inl (refl, refl)

  -- A request is refused and changes nothing, or it names the current epoch, where the node keeps
  -- one, comes from a caller that `Allow` lets write the service it names, where the node has grants,
  -- and is then run.
  pub serve_lem :
      (c : Call) (s : Server)
      → ServeOutcome c s (serve p toml_decode meanwhile services_dir now c s)
  unfolding serve
  serve_lem c s = check_method_lem c s c.method
