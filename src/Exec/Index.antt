-- ===== src/Exec/Index.antt =====
-- internal/exec/registry.go: the index of the commands of the tools.
pub mod Keys
use tailkitd.Prelude.{
  Bool, true, false, Option, List, [], ◌∷◌, ◌++◌, Dict, lookup, insert, Text, codes, has_suffix,
}
use tailkitd.Os.{Outcome, World, read_dir, not_exist, invalid, ok, err}
use tailkitd.Tools.{Tool, read_one}

abbrev keep_entry : Outcome Tool → Dict Tool → Dict Tool
keep_entry (ok t) index = insert t.name t index
keep_entry (err e) index = index

module _ (json_decode : Text → Option Tool) where
  abbrev skip_or_read : Bool → Text → World Text → Outcome Tool × World Text
  skip_or_read false path w = (err invalid, w)
  skip_or_read true path w = read_one json_decode path w

  -- The loop over the directory
  unfoldable pub index_tools : Text → List Text → Dict Tool → World Text → Dict Tool × World Text
  index_tools dir [] index w = (index, w)
  index_tools dir (name ∷ names) index w =
      let (r, w') = skip_or_read (has_suffix name (codes ".json")) (dir ++ b'/' ∷ name) w in
      index_tools dir names (keep_entry r index) w'

  abbrev rebuilt :
      Text → Dict Tool → Outcome (List Text) → World Text → Outcome Unit × Dict Tool × World Text
  rebuilt dir old (err not_exist) w = (ok tt, [], w)
  rebuilt dir old (err e) w = (err e, old, w)
  rebuilt dir old (ok names) w = let (index, w') = index_tools dir names [] w in (ok tt, index, w')

  -- `rebuild`: the error, the index and the files
  unfoldable pub rebuild : Text → Dict Tool → World Text → Outcome Unit × Dict Tool × World Text
  rebuild dir old w = let (r, w') = read_dir dir w in rebuilt dir old r w'

-- `Lookup`
unfoldable pub lookup_command : Dict Tool → Text → Text → Option Tool
lookup_command index tool cmd = lookup (tool ++ b'/' ∷ cmd) index
