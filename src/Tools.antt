-- ===== src/Tools.antt =====
-- internal/tools/registry.go: the tools that are registered in a directory, and the comparison of
-- their versions. The JSON decoder is a parameter; a context that is cancelled gives an error.
pub mod Versions
pub mod Reading
use tailkitd.Prelude.{
  ℕ, zero, suc, ◌-◌, Bool, true, false, ◌||◌, not, Option, none, some, List, [], ◌∷◌, ◌++◌, length,
  split, Text, codes, str_eq, str_lt, has_suffix, cut_prefix, if◌then◌else◌,
}
use tailkitd.Os.{
  Outcome, World, Io, read_file, read_dir, not_exist, malformed, invalid, canceled, ok, err,
}

pub record Tool : Type 0 where
  pub name : Text
  pub version : Text

-- The first list, with "0" for each part that only the second has
unfoldable pub pad_parts : List Text → List Text → List Text
pad_parts [] [] = []
pad_parts [] (w ∷ ws) = codes "0" ∷ pad_parts [] ws
pad_parts (h ∷ hs) [] = h ∷ hs
pad_parts (h ∷ hs) (w ∷ ws) = h ∷ pad_parts hs ws

unfoldable pub zeros : ℕ → Text → Text
zeros zero s = s
zeros (suc n) s = b'0' ∷ zeros n s

-- `zeroPad`: as many rounds as the string is short of the width
unfoldable pub zero_pad : Text → ℕ → Text
zero_pad s width = zeros (width - length s) s

-- The loop over the parts, which are as many on both sides
unfoldable pub parts_at_least : List Text → List Text → Bool
parts_at_least [] ws = true
parts_at_least (h ∷ hs) [] = true
parts_at_least (h ∷ hs) (w ∷ ws) =
    let rest = parts_at_least hs ws in
    let h' = zero_pad h (length w) in
    let w' = zero_pad w (length h) in
    if str_lt w' h' then true else if str_lt h' w' then false else rest

abbrev or_whole : Text → Option Text → Text
or_whole s none = s
or_whole s (some t) = t

-- `strings.TrimPrefix(s, "v")`
unfoldable pub without_v : Text → Text
without_v s = or_whole s (cut_prefix s (codes "v"))

-- `versionAtLeast`
unfoldable pub version_at_least : Text → Text → Bool
version_at_least have want =
    let hp = split b'.' (without_v have) in
    let wp = split b'.' (without_v want) in parts_at_least (pad_parts hp wp) (pad_parts wp hp)

abbrev named : Option Tool → Outcome Tool
named none = err malformed
named (some t) = if str_eq t.name [] then err invalid else ok t

abbrev keep_tool : Outcome Tool → List Tool → List Tool
keep_tool (ok t) tools = t ∷ tools
keep_tool (err e) tools = tools

module _ (json_decode : Text → Option Tool) where
  abbrev parsed : Outcome Text → Outcome Tool
  parsed (ok text) = named (json_decode text)
  parsed (err e) = err e

  -- `readOne`, and `readTool` of internal/exec/registry.go
  unfoldable pub read_one : Text → Io Text Tool
  read_one path w = let (r, w') = read_file path w in (parsed r, w')

  abbrev skip_or_read : Bool → Text → Io Text Tool
  skip_or_read false path w = (err invalid, w)
  skip_or_read true path w = read_one path w

  -- The loop over the directory, which leaves out what is no tool
  unfoldable pub read_tools : Text → List Text → World Text → List Tool × World Text
  read_tools dir [] w = ([], w)
  read_tools dir (name ∷ names) w =
      let (r, w') = skip_or_read (has_suffix name (codes ".json")) (dir ++ b'/' ∷ name) w in
      let (rest, w'') = read_tools dir names w' in (keep_tool r rest, w'')

  abbrev listed_tools : Text → Outcome (List Text) → Io Text (List Tool)
  listed_tools dir (ok names) w = let (tools, w') = read_tools dir names w in (ok tools, w')
  listed_tools dir (err not_exist) w = (ok [], w)
  listed_tools dir (err e) w = (err e, w)

  -- `List`
  unfoldable pub list_tools : Bool → Text → Io Text (List Tool)
  list_tools cancelled dir w =
      if cancelled then (err canceled, w) else let (r, w') = read_dir dir w in listed_tools dir r w'

  -- The loop of `HasTool`
  unfoldable pub has_among : Text → Text → List Tool → Bool
  has_among name min [] = false
  has_among name min (t ∷ tools) =
      if not (str_eq t.name name)
      then has_among name min tools
      else (str_eq min [] || version_at_least t.version min) || has_among name min tools

  abbrev found_in : Text → Text → Outcome (List Tool) → Outcome Bool
  found_in name min (err e) = err e
  found_in name min (ok tools) = ok (has_among name min tools)

  -- `HasTool`
  unfoldable pub has_tool : Bool → Text → Text → Text → Io Text Bool
  has_tool cancelled dir name min w =
      let (r, w') = list_tools cancelled dir w in (found_in name min r, w')
