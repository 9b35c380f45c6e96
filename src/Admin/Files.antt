-- ===== src/Admin/Files.antt =====
-- internal/admin/bootstrap.go: the key and the fence token that a node starts with.
pub mod Laws
use tailkitd.Prelude.{[], Text, codes}
use tailkitd.Os.{Outcome, Io, lift, ◌>>=◌, ◌>>◌, mkdir_all, not_exist, io_fault, ok, err}
use tailkitd.Os.Plain.{stat, write_file}
use tailkitd.Api.Gate.{admin_key_path}
use tailkitd.Api.Transfer.{admin_fence_path}

-- `if _, err := os.Stat(path); err != nil { if !os.IsNotExist(err) { return } ... }`
abbrev pub unless_found : Outcome Unit → Io Text Unit → Io Text Unit
unless_found (ok _) create w = (ok tt, w)
unless_found (err not_exist) create w = create w
unless_found (err e) create w = (err io_fault, w)

abbrev pub ensure : Text → Io Text Unit → Io Text Unit
ensure path create w = let (r, w') = stat path w in unless_found r create w'

-- `EnsureBootstrapFiles`; the argument is the hexadecimal text of the 16 bytes that `rand.Read`
-- gives, or its error.
unfoldable pub ensure_bootstrap_files : Outcome Text → Io Text Unit
ensure_bootstrap_files random = do
  mkdir_all
  ensure admin_key_path do key ← lift random; write_file admin_key_path [] key
  ensure admin_fence_path (write_file admin_fence_path [] (codes "0\n"))
