-- ===== src/Vars/Handlers/Confined.antt =====
-- internal/vars/handlers.go: which file each operation may change.
use tailkitd.Prelude.{
  ◌≡◌, refl, ap, ◌∙◌, inl, inr, true, false, ◌&&◌, some, List, [], ◌∷◌, arith, Dict, lookup,
  lookup-insert, lookup-erase, Occurs, Text, codes, str_eq, eq_of_str_eq, Bool-cases, and_elim,
}
use tailkitd.Os.{Outcome, World, remove, Removed, remove_lem, os_laws, ok, err}
use tailkitd.Vars.Store.{
  Document, Context, scope_path, read_scope, list, get, delete_scope, render_env, map,
}
use tailkitd.Vars.Store.Laws.{Rewrites}
use tailkitd.Vars.Handlers.{VarScope, VarsConfig, allows, find_scope}

-- Only that file may differ.
abbrev pub OnlyAt : Text → Dict Document → Dict Document → Type 0
OnlyAt path before after = (j : Text) → str_eq path j ≡ false → lookup j after ≡ lookup j before

-- The two settings of a scope that the configuration has.
pub record IsWritable (cfg : VarsConfig) (s : VarScope) : Type 0 where
  pub enabled : cfg.enabled ≡ true
  pub configured : Occurs s cfg.scopes
  pub write_allowed : Occurs (codes "write") s.allow

pub allows-Occurs : (op : Text) (ops : List Text) → allows op ops ≡ true → Occurs op ops
unfolding allows
allows-Occurs op [] h = cc h
allows-Occurs op (a ∷ ops) h = elim (Bool-cases (str_eq a op)) [
  | inl e ↦ inl (eq_of_str_eq a op e)
  | inr e ↦ inr (allows-Occurs op ops (rw e at h))
]

pub find_scope-Occurs :
    (scopes : List VarScope) (project env : Text) (s : VarScope)
    → find_scope scopes project env ≡ some s
    → Occurs s scopes × (s.project ≡ project) × (s.env ≡ env)
unfolding find_scope
find_scope-Occurs [] project env s h = cc h
find_scope-Occurs (t ∷ scopes) project env s h =
    elim (Bool-cases (str_eq t.project project && str_eq t.env env)) [
      | inl e ↦
          let same : t ≡ s = ground (arith, e, h) in
          let (p, v) = and_elim (str_eq t.project project) (str_eq t.env env) e in
          (
            inl same,
            rw same at (eq_of_str_eq t.project project p),
            rw same at (eq_of_str_eq t.env env v),
          )
      | inr e ↦ let (o, p, v) = find_scope-Occurs scopes project env s (rw e at h) in (inr o, p, v)
    ]

module _ (base_dir : Text) where
  abbrev pub Kept : Text → Text → World Document → World Document → Type 0
  Kept project env w w' = OnlyAt (scope_path base_dir project env) w.files w'.files

  same-Kept :
      (project env : Text) (w w' : World Document) → w'.files ≡ w.files → Kept project env w w'
  same-Kept project env w w' e j h = ap (lookup j) e

  pub Rewrites-Kept :
      (change : Dict Text → Dict Text) (project env : Text) (w : World Document)
      (out : Outcome Unit × World Document)
      → Rewrites base_dir change project env w out
      → Kept project env w out.1
  Rewrites-Kept change project env w (ok u, w') (d, held, e) j h =
      ap (lookup j) e
      ∙ lookup-insert j (scope_path base_dir project env) (map (change d)) w.files
      ∙ rw h refl
  Rewrites-Kept change project env w (err x, w') e j h = ap (lookup j) e

  pub list-files :
      (ctx : Context) (project env : Text) (w : World Document)
      → (list base_dir ctx project env w).1.files ≡ w.files
  unfolding list read_scope
  list-files ctx project env w = grind (arith, os_laws)

  pub render_env-files :
      (ctx : Context) (project env : Text) (w : World Document)
      → (render_env base_dir ctx project env w).1.files ≡ w.files
  unfolding render_env
  render_env-files ctx project env w = grind (arith, list-files)

  pub get-files :
      (ctx : Context) (project env key : Text) (w : World Document)
      → (get base_dir ctx project env key w).1.files ≡ w.files
  unfolding get read_scope
  get-files ctx project env key w = grind (arith, os_laws)

  Removed-Kept :
      (project env : Text) (w : World Document) (r : Outcome Unit) (w' : World Document)
      → Removed (scope_path base_dir project env) r w.files w'.files
      → Kept project env w w'
  Removed-Kept project env w (ok u) w' (there, e) j h =
      ap (lookup j) e ∙ lookup-erase j (scope_path base_dir project env) w.files ∙ rw h refl
  Removed-Kept project env w (err x) w' e j h = ap (lookup j) e

  pub delete_scope-Kept :
      (ctx : Context) (project env : Text) (w : World Document)
      → Kept project env w (delete_scope base_dir ctx project env w).1
  unfolding delete_scope
  delete_scope-Kept ctx project env w = elim (Bool-cases ctx.is_canceled) [
    | inl dead ↦ rw dead (λ j h. refl)
    | inr live ↦ rw live (
        Removed-Kept project env w (remove (scope_path base_dir project env) w).0
          (remove (scope_path base_dir project env) w).1
          (remove_lem (scope_path base_dir project env) w))
  ]
