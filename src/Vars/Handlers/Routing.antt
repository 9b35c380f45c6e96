-- ===== src/Vars/Handlers/Routing.antt =====
-- internal/vars/handlers.go: what a request may change.
use tailkitd.Prelude.{
  ◌≡◌, refl, ◌⊎◌, inl, inr, Bool, true, false, ◌||◌, not, Option, none, some, List, [], ◌∷◌, split,
  join, Text, codes, str_eq, if◌then◌else◌, Bool-cases,
}
use tailkitd.Os.{Outcome, World, ok, err}
use tailkitd.Api.Http.{
  Method, method_get, method_post, method_put, method_patch, method_delete, method_other,
}
use tailkitd.Api.Gate.{trim_prefix}
use tailkitd.Vars.Store.{Document, scope_path, set, delete, delete_scope}
use tailkitd.Vars.Store.Laws.{set_lem, delete_lem}
use tailkitd.Vars.Handlers.{
  route, VarScope, VarsConfig, VarsRequest, Reply, allows, find_scope, read_value, set_reply,
  delete_reply, scope_reply, answered, read_scope_as, route_scope, set_value, route_key, on_scope,
  on_parts, status,
}
use tailkitd.Vars.Handlers.Confined.{
  OnlyAt, IsWritable, allows-Occurs, find_scope-Occurs, Kept, Rewrites-Kept, list-files,
  render_env-files, get-files, delete_scope-Kept,
}

module _ (base_dir : Text) where
  -- No file changes, or only that of a scope that the configuration lets callers write.
  abbrev pub RouteOutcome : VarsConfig → World Document → Reply × World Document → Type 0
  RouteOutcome cfg w out =
      (out.1.files ≡ w.files)
      ⊎ ((s : VarScope) × IsWritable cfg s
          × OnlyAt (scope_path base_dir s.project s.env) w.files out.1.files)

  writable_outcome :
      (cfg : VarsConfig) (w : World Document) (project env : Text) (s : VarScope)
      (out : Reply × World Document)
      → cfg.enabled ≡ true
      → find_scope cfg.scopes project env ≡ some s
      → allows (codes "write") s.allow ≡ true
      → Kept base_dir project env w out.1
      → RouteOutcome cfg w out
  writable_outcome cfg w project env s out on found ok_write kept =
      let (o, p, v) = find_scope-Occurs cfg.scopes project env s found in
      inr (
        s,
        record {
          enabled = on;
          configured = o;
          write_allowed = allows-Occurs (codes "write") s.allow ok_write;
        },
        rw (p, v) kept,
      )

  module _ (cfg : VarsConfig) (r : VarsRequest) (w : World Document) (on : cfg.enabled ≡ true) where
    read_scope_as_lem :
        (project env : Text) → RouteOutcome cfg w (read_scope_as base_dir r project env w)
    unfolding read_scope_as
    read_scope_as_lem project env = elim (Bool-cases (str_eq r.format (codes "env"))) [
      | inl e ↦ rw e (inl (render_env-files base_dir r.ctx project env w))
      | inr e ↦ rw e (inl (list-files base_dir r.ctx project env w))
    ]

    route_scope_lem :
        (s : VarScope) (project env : Text) (m : Method)
        → find_scope cfg.scopes project env ≡ some s
        → RouteOutcome cfg w (route_scope base_dir r s project env m w)
    unfolding route_scope
    route_scope_lem s project env method_get found =
        elim (Bool-cases (allows (codes "read") s.allow)) [
          | inl e ↦ rw e (read_scope_as_lem project env)
          | inr e ↦ rw e (inl refl)
        ]
    route_scope_lem s project env method_delete found =
        elim (Bool-cases (allows (codes "write") s.allow)) [
          | inl e ↦ rw e (
              writable_outcome cfg w project env s
                (answered scope_reply (delete_scope base_dir r.ctx project env w)) on found e
                (delete_scope-Kept base_dir r.ctx project env w))
          | inr e ↦ rw e (inl refl)
        ]
    route_scope_lem s project env method_post found = inl refl
    route_scope_lem s project env method_put found = inl refl
    route_scope_lem s project env method_patch found = inl refl
    route_scope_lem s project env method_other found = inl refl

    set_value_lem :
        (s : VarScope) (project env key : Text) (v : Outcome Text)
        → find_scope cfg.scopes project env ≡ some s
        → allows (codes "write") s.allow ≡ true
        → RouteOutcome cfg w (set_value base_dir r project env key v w)
    set_value_lem s project env key (err e) found may = inl refl
    set_value_lem s project env key (ok value) found may =
        writable_outcome cfg w project env s
          (answered set_reply (set base_dir r.now r.ctx project env key value r.caller w)) on found
          may
          (Rewrites-Kept base_dir _ project env w
            (set base_dir r.now r.ctx project env key value r.caller w)
            (set_lem base_dir r.now r.ctx project env key value r.caller w))

    route_key_lem :
        (s : VarScope) (project env key : Text) (m : Method)
        → find_scope cfg.scopes project env ≡ some s
        → RouteOutcome cfg w (route_key base_dir r s project env key m w)
    unfolding route_key
    route_key_lem s project env key method_get found =
        elim (Bool-cases (allows (codes "read") s.allow)) [
          | inl e ↦ rw e (inl (get-files base_dir r.ctx project env key w))
          | inr e ↦ rw e (inl refl)
        ]
    route_key_lem s project env key method_put found =
        elim (Bool-cases (allows (codes "write") s.allow)) [
          | inl e ↦ rw e (set_value_lem s project env key (read_value r.body) found e)
          | inr e ↦ rw e (inl refl)
        ]
    route_key_lem s project env key method_delete found =
        elim (Bool-cases (allows (codes "write") s.allow)) [
          | inl e ↦ rw e (
              writable_outcome cfg w project env s
                (answered delete_reply (delete base_dir r.now r.ctx project env key r.caller w)) on
                found e
                (Rewrites-Kept base_dir _ project env w
                  (delete base_dir r.now r.ctx project env key r.caller w)
                  (delete_lem base_dir r.now r.ctx project env key r.caller w)))
          | inr e ↦ rw e (inl refl)
        ]
    route_key_lem s project env key method_post found = inl refl
    route_key_lem s project env key method_patch found = inl refl
    route_key_lem s project env key method_other found = inl refl

    on_scope_lem :
        (project env key : Text) (o : Option VarScope)
        → find_scope cfg.scopes project env ≡ o
        → RouteOutcome cfg w (on_scope base_dir r project env key o w)
    on_scope_lem project env key none found = inl refl
    on_scope_lem project env key (some s) found = elim (Bool-cases (str_eq key [])) [
      | inl e ↦ rw e (route_scope_lem s project env r.method found)
      | inr e ↦ rw e (route_key_lem s project env key r.method found)
    ]

    on_parts_lem : (parts : List Text) → RouteOutcome cfg w (on_parts base_dir cfg r parts w)
    on_parts_lem [] = inl refl
    on_parts_lem (project ∷ []) = inl refl
    on_parts_lem (project ∷ env ∷ parts) = elim (Bool-cases (str_eq project [] || str_eq env [])) [
      | inl e ↦ rw e (inl refl)
      | inr e ↦
          rw e (on_scope_lem project env (join b'/' parts) (find_scope cfg.scopes project env) refl)
    ]

  if_enabled :
      (cfg : VarsConfig) (r : VarsRequest) (w : World Document) (on : Bool) (parts : List Text)
      → cfg.enabled ≡ on
      → RouteOutcome cfg w (if not on then (status 503, w) else on_parts base_dir cfg r parts w)
  if_enabled cfg r w true parts e = on_parts_lem cfg r w e parts
  if_enabled cfg r w false parts e = inl refl

  -- A request below /vars/ changes no file, or only the file of a scope that the configuration has
  -- and lets callers write, and only if the integration is enabled.
  pub route_lem :
      (cfg : VarsConfig) (r : VarsRequest) (w : World Document)
      → RouteOutcome cfg w (route base_dir cfg r w)
  unfolding route
  route_lem cfg r w =
      if_enabled cfg r w cfg.enabled (split b'/' (trim_prefix r.path (codes "/vars/"))) refl
