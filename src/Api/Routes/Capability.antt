-- ===== src/Api/Routes/Capability.antt =====
-- internal/api/admin.go: `requiredCapability` against the handlers that `ServeHTTP` chooses.
use mathlib.Core.List.{append_assoc, reverse, reverse-append}
use tailkitd.Prelude.{
  ◌≡◌, refl, sym, ap, ◌∙◌, ◌⊎◌, inl, inr, Bool, true, false, ◌&&◌, not, List, [], ◌∷◌, ◌++◌, arith,
  split, join, contains, join-split, has_prefix-append, contains-append, Text, codes, str_eq,
  eq_of_str_eq, has_prefix, has_suffix, cut_prefix, if◌then◌else◌, Bool-cases, and_elim,
}
use tailkitd.Access.Registry.{service_write, host_write, access_write, admin_transfer, star}
use tailkitd.Api.Http.{Method, method_post, method_delete}
use tailkitd.Api.Gate.{hosts_prefix, trim_prefix, required_capability}
use tailkitd.Api.Routes.{
  Action, accept_promotion, transfer_admin, atomic_write_file, access_grants, push_host_config,
  push_service, delete_service, wrong_host, not_found, host_target, handle_host_mutation,
  serve_http, service_action, is_post, host_action,
}

-- The capabilities that may be asked for, for each action. The gate is not in front of
-- `accept_promotion`, and the last two actions change nothing.
abbrev pub Needs : Action → Text × Text → Type 0
Needs accept_promotion c = Unit
Needs transfer_admin c = c ≡ (admin_transfer, star)
Needs atomic_write_file c = c ≡ (host_write, star)
Needs access_grants c = c ≡ (access_write, star)
Needs push_host_config c = c ≡ (host_write, star)
Needs (push_service name) c = (c ≡ (service_write, name)) ⊎ (c ≡ (host_write, star))
Needs (delete_service name) c = (c ≡ (service_write, name)) ⊎ (c ≡ (host_write, star))
Needs wrong_host c = Unit
Needs not_found c = Unit

has_prefix_cut : (s p : Text) → has_prefix s p ≡ true → (rest : Text) × (s ≡ p ++ rest)
unfolding has_prefix
has_prefix_cut s [] h = (s, refl)
has_prefix_cut [] (p ∷ ps) h = cc
has_prefix_cut (c ∷ s) (p ∷ ps) h =
    let (rest, e) = has_prefix_cut s ps (ground arith) in (rest, ground arith)

has_suffix-append : (s suffix : Text) → has_suffix (s ++ suffix) suffix ≡ true
unfolding has_suffix
has_suffix-append s suffix =
    rw (reverse-append s suffix) (has_prefix-append (reverse suffix) (reverse s))

joined :
    (host part name rest : Text)
    → split b'/' rest ≡ host ∷ part ∷ name ∷ []
    → rest ≡ host ++ (b'/' ∷ (part ++ b'/' ∷ name))
unfolding join
joined host part name rest e = sym (join-split b'/' rest) ∙ ap (join b'/') e

joined_pair :
    (host part rest : Text) → split b'/' rest ≡ host ∷ part ∷ [] → rest ≡ host ++ (b'/' ∷ part)
unfolding join
joined_pair host part rest e = sym (join-split b'/' rest) ∙ ap (join b'/') e

contains_services :
    (host name rest : Text)
    → split b'/' rest ≡ host ∷ codes "services" ∷ name ∷ []
    → contains (hosts_prefix ++ rest) (codes "/services/") ≡ true
contains_services host name rest e =
    rw (joined host (codes "services") name rest e)
      (simp append_assoc at (contains-append (hosts_prefix ++ host) (codes "/services/") name))

ends_config :
    (host rest : Text)
    → split b'/' rest ≡ host ∷ codes "config" ∷ []
    → has_suffix (hosts_prefix ++ rest) (codes "/config") ≡ true
ends_config host rest e =
    rw (joined_pair host (codes "config") rest e)
      (simp append_assoc at (has_suffix-append (hosts_prefix ++ host) (codes "/config")))

-- The capability of a path below the hosts, by its parts.
service_capability :
    (host name rest : Text)
    → split b'/' rest ≡ host ∷ codes "services" ∷ name ∷ []
    → (required_capability (hosts_prefix ++ rest) ≡ (service_write, name))
      ⊎ (required_capability (hosts_prefix ++ rest) ≡ (host_write, star))
unfolding required_capability str_eq trim_prefix cut_prefix
service_capability host name rest e =
    elim (Bool-cases (has_suffix (hosts_prefix ++ rest) (codes "/config"))) [
      | inl config ↦ inr (rw config refl)
      | inr other ↦ inl (rw (other, contains_services host name rest e, e) refl)
    ]

config_capability :
    (host rest : Text)
    → split b'/' rest ≡ host ∷ codes "config" ∷ []
    → required_capability (hosts_prefix ++ rest) ≡ (host_write, star)
unfolding required_capability str_eq
config_capability host rest e = rw (ends_config host rest e) refl

Needs-if :
    (b : Bool) (a : Action) (c : Text × Text)
    → (b ≡ true → Needs a c)
    → Needs (if b then a else not_found) c
Needs-if true a c h = h refl
Needs-if false a c h = tt

service_action-Needs :
    (m : Method) (name : Text) (c : Text × Text)
    → (c ≡ (service_write, name)) ⊎ (c ≡ (host_write, star))
    → Needs (service_action m name) c
unfolding service_action
service_action-Needs method_post name c h = h
service_action-Needs method_delete name c h = h
service_action-Needs _ name c h = tt

host_target-Needs :
    (m : Method) (host part rest : Text) (parts : List Text)
    → split b'/' rest ≡ host ∷ part ∷ parts
    → Needs (host_target m part parts) (required_capability (hosts_prefix ++ rest))
unfolding host_target
host_target-Needs m host part rest [] e =
    Needs-if (str_eq part (codes "config") && is_post m) push_host_config _ (λ h.
      config_capability host rest (
        e
        ∙ ap (λ (p : Text). host ∷ p ∷ [])
            (eq_of_str_eq part (codes "config") (and_elim _ (is_post m) h).0)))
host_target-Needs m host part rest (name ∷ []) e =
    Needs-if (str_eq part (codes "services")) (service_action m name) _ (λ h.
      service_action-Needs m name _ (
        service_capability host name rest
          (e ∙ ap (λ (p : Text). host ∷ p ∷ name ∷ []) (eq_of_str_eq part (codes "services") h))))
host_target-Needs m host part rest (name ∷ more ∷ parts) e = tt

host_action-Needs :
    (self : Text) (m : Method) (rest : Text) (parts : List Text)
    → split b'/' rest ≡ parts
    → Needs (host_action self m parts) (required_capability (hosts_prefix ++ rest))
unfolding host_action
host_action-Needs self m rest [] e = tt
host_action-Needs self m rest (host ∷ []) e = tt
host_action-Needs self m rest (host ∷ part ∷ parts) e =
    elim (Bool-cases (not (str_eq host (codes "me")) && not (str_eq host self))) [
      | inl wrong ↦ rw wrong tt
      | inr right ↦ rw right (host_target-Needs m host part rest parts e)
    ]

handle_host_mutation-Needs :
    (self : Text) (m : Method) (rest : Text)
    → Needs
        (handle_host_mutation self m (hosts_prefix ++ rest))
        (required_capability (hosts_prefix ++ rest))
unfolding handle_host_mutation trim_prefix cut_prefix
handle_host_mutation-Needs self m rest = host_action-Needs self m rest (split b'/' rest) refl

-- For every action that changes the node, but the promotion, the path asks for the capability that
-- docs/config.md gives for it: no path reaches a handler with a weaker one, or with none.
pub serve_http-Needs :
    (self : Text) (m : Method) (path : Text)
    → Needs (serve_http self m path) (required_capability path)
unfolding serve_http
serve_http-Needs self m path =
    elim (Bool-cases (str_eq path (codes "/admin/internal/accept-promotion"))) [
      | inl e ↦ rw e tt
      | inr n0 ↦ elim (Bool-cases (str_eq path (codes "/admin/transfer"))) [
        | inl e ↦ rw (n0, e) (unfold required_capability in rw e refl)
        | inr n1 ↦ elim (Bool-cases (str_eq path (codes "/admin/files/write"))) [
          | inl e ↦
              rw (eq_of_str_eq path (codes "/admin/files/write") e)
                (unfold required_capability str_eq in refl)
          | inr n2 ↦ elim (Bool-cases (str_eq path (codes "/admin/access/grants"))) [
            | inl e ↦ rw (n0, n1, n2, e) (unfold required_capability in rw (n1, e) refl)
            | inr n3 ↦
                rw (n0, n1, n2, n3)
                  (Needs-if (has_prefix path hosts_prefix) (handle_host_mutation self m path)
                    (required_capability path)
                    (λ h.
                      let (rest, cut) = has_prefix_cut path hosts_prefix h in
                      rw cut (handle_host_mutation-Needs self m rest)))
          ]
        ]
      ]
    ]
