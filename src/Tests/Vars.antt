-- ===== src/Tests/Vars.antt =====
-- Runs of internal/vars/store.go.
use tailkitd.Prelude.{
  ◌≡◌, refl, inl, false, none, some, [], ◌∷◌, Dict, lookup, insert, erase, length, sort, Text,
  codes, str_eq, str_lt, has_prefix, contains_byte,
}
use tailkitd.Os.{World, syscall, read_file, mkdir_all, panic, ok, err}
use tailkitd.Vars.Store.{
  Document, Context, get, set, delete, list, keys, shell_quote, env_text, is_reserved, map, null,
  scope_path, is_key, read_scope, read_scope_or_empty, write_scope,
}
use tailkitd.Vars.Store.Laws.{get-set}
use tailkitd.Vars.Store.Quoting.{read_lines, in_order, read_lines-env_text}

abbrev ctx : Context
ctx = record { is_canceled = false }

abbrev base : Text
base = codes "/v"

abbrev now : Text
now = codes "T"

abbrev stored : Dict Text
stored = (codes "A", codes "it's") ∷ (codes "_meta.updated_by", codes "me") ∷ []

abbrev disk : World Document
disk = record { files = (codes "/v/p/e.json", map stored) ∷ []; temp = none; faults = [] }

-- The file holds `null`: an assignment panics, and the files stay.
null_panics :
    (set base now ctx
      (codes "p")
      (codes "e")
      (codes "A")
      (codes "1")
      (codes "c")
      (record disk { files = (codes "/v/p/e.json", null) ∷ [] })).0
    ≡ err panic
unfolding set is_key read_scope_or_empty read_file syscall lookup str_eq has_prefix
null_panics = refl

found : lookup (scope_path base (codes "p") (codes "e")) disk.files ≡ some (map stored)
unfolding scope_path lookup str_eq
found = refl

set_ok :
    (set base now ctx (codes "p") (codes "e") (codes "B") (codes "1") (codes "c") disk).0 ≡ ok tt
unfolding set is_key read_scope_or_empty read_file syscall lookup str_eq has_prefix write_scope
    mkdir_all insert
set_ok = refl

delete_ok : (delete base now ctx (codes "p") (codes "e") (codes "A") (codes "c") disk).0 ≡ ok tt
unfolding delete read_scope_or_empty read_file syscall lookup str_eq has_prefix write_scope
    mkdir_all insert erase
delete_ok = refl

plain : is_reserved (codes "A") ≡ false
unfolding is_reserved has_prefix
plain = refl

get-set_example :
    (get base ctx
      (codes "p")
      (codes "e")
      (codes "A")
      (record (set base now ctx
        (codes "p")
        (codes "e")
        (codes "B")
        (codes "1")
        (codes "c")
        disk).1 { faults = [] })).0
    ≡ ok (codes "it's")
unfolding lookup str_eq
get-set_example =
    get-set base now ctx ctx (codes "p") (codes "e") (codes "B") (codes "1") (codes "c") (codes "A")
      disk stored (inl found) set_ok refl plain

listed : (list base ctx (codes "p") (codes "e") disk).0 ≡ ok ((codes "A", codes "it's") ∷ [])
unfolding list read_scope read_file syscall lookup str_eq has_prefix is_reserved
listed = refl

quoted_text : shell_quote (codes "it's") ≡ codes "'it'\\''s'"
unfolding shell_quote
quoted_text = refl

read_lines-env_text_example :
    let names = sort str_lt (keys stored) in
    read_lines (length names) (env_text stored) ≡ some (in_order stored names)
unfolding contains_byte
read_lines-env_text_example = read_lines-env_text stored (refl, (refl, tt))
