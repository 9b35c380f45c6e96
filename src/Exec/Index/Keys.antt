-- ===== src/Exec/Index/Keys.antt =====
-- internal/exec/registry.go: what is looked up and under which keys it stands.
use tailkitd.Prelude.{
  ◌≡◌, refl, inl, inr, Bool, true, false, Option, none, List, [], ◌∷◌, ◌++◌, arith, Dict, lookup,
  insert, Text, codes, str_eq, eq_of_str_eq, has_suffix, contains_byte, Bool-cases,
}
use tailkitd.Os.{Outcome, World, read_dir, not_exist, ok, err}
use tailkitd.Tools.{Tool}
use tailkitd.Tools.Reading.{PlainNames, read_one_plain}
use tailkitd.Exec.Index.{lookup_command, index_tools, rebuild, keep_entry, skip_or_read, rebuilt}

-- Each entry stands under the name of its tool, which has no slash.
abbrev pub KeyedByName : Dict Tool → Type 0
KeyedByName [] = Unit
KeyedByName ((k, t) ∷ index) = (k ≡ t.name) × (contains_byte b'/' k ≡ false) × KeyedByName index

insert-KeyedByName :
    (t : Tool) (index : Dict Tool)
    → contains_byte b'/' t.name ≡ false
    → KeyedByName index
    → KeyedByName (insert t.name t index)
unfolding insert
insert-KeyedByName t [] plain h = (refl, plain, tt)
insert-KeyedByName t ((k, u) ∷ index) plain h = elim (Bool-cases (str_eq k t.name)) [
  | inl e ↦ rw e (refl, plain, h.2)
  | inr e ↦ rw e (h.0, h.1, insert-KeyedByName t index plain h.2)
]

slash_in : (a b : Text) → contains_byte b'/' (a ++ b'/' ∷ b) ≡ true
unfolding contains_byte
slash_in [] b = refl
slash_in (c ∷ a) b = ground (arith, slash_in a b)

lookup_command-none :
    (index : Dict Tool) (tool cmd : Text) → KeyedByName index → lookup_command index tool cmd ≡ none
unfolding lookup_command lookup
lookup_command-none [] tool cmd h = refl
lookup_command-none ((k, t) ∷ index) tool cmd h =
    elim (Bool-cases (str_eq k (tool ++ b'/' ∷ cmd))) [
      | inl e ↦
          let same : k ≡ tool ++ b'/' ∷ cmd = eq_of_str_eq k (tool ++ b'/' ∷ cmd) e in
          absurd (cc (slash_in tool cmd, rw same at (h.1)))
      | inr e ↦ rw e (lookup_command-none index tool cmd h.2)
    ]

module _ (json_decode : Text → Option Tool) where
  keep_entry-KeyedByName :
      (r : Outcome Tool) (index : Dict Tool)
      → ((t : Tool) → r ≡ ok t → contains_byte b'/' t.name ≡ false)
      → KeyedByName index
      → KeyedByName (keep_entry r index)
  keep_entry-KeyedByName (ok t) index plain h = insert-KeyedByName t index (plain t refl) h
  keep_entry-KeyedByName (err e) index plain h = h

  skip_or_read_plain :
      (is_json : Bool) (path : Text) (w : World Text) (t : Tool)
      → PlainNames json_decode
      → (skip_or_read json_decode is_json path w).0 ≡ ok t
      → contains_byte b'/' t.name ≡ false
  skip_or_read_plain false path w t plain h = absurd (cc h)
  skip_or_read_plain true path w t plain h = read_one_plain json_decode path w t plain h

  index_tools-KeyedByName :
      (dir : Text) (names : List Text) (index : Dict Tool) (w : World Text)
      → PlainNames json_decode
      → KeyedByName index
      → KeyedByName (index_tools json_decode dir names index w).0
  unfolding index_tools
  index_tools-KeyedByName dir [] index w plain h = h
  index_tools-KeyedByName dir (name ∷ names) index w plain h =
      let (r, w') =
        skip_or_read json_decode (has_suffix name (codes ".json")) (dir ++ b'/' ∷ name) w in
      index_tools-KeyedByName dir names (keep_entry r index) w' plain (
        keep_entry-KeyedByName r index
          (λ t e.
            skip_or_read_plain (has_suffix name (codes ".json")) (dir ++ b'/' ∷ name) w t plain e)
          h)

  rebuilt-KeyedByName :
      (dir : Text) (old : Dict Tool) (r : Outcome (List Text)) (w : World Text)
      → PlainNames json_decode
      → KeyedByName old
      → KeyedByName (rebuilt json_decode dir old r w).1
  rebuilt-KeyedByName dir old (ok names) w plain h = index_tools-KeyedByName dir names [] w plain tt
  rebuilt-KeyedByName dir old (err not_exist) w plain h = tt
  rebuilt-KeyedByName dir old (err e) w plain h = h

  -- Where no tool has a slash in its name: whatever the directory holds, a rebuild keeps each tool
  -- under its own name, and then no command of any tool is found, since it is looked up under the
  -- name of the tool, a slash and the name of the command.
  pub rebuild-lookup_command :
      (dir : Text) (old : Dict Tool) (w : World Text) (tool cmd : Text)
      → PlainNames json_decode
      → KeyedByName old
      → let out = rebuild json_decode dir old w in
        KeyedByName out.1 × (lookup_command out.1 tool cmd ≡ none)
  unfolding rebuild
  rebuild-lookup_command dir old w tool cmd plain h =
      let (r, w') = read_dir dir w in
      let keyed = rebuilt-KeyedByName dir old r w' plain h in
      (keyed, lookup_command-none (rebuilt json_decode dir old r w').1 tool cmd keyed)
