-- ===== src/Tests/Identity.antt =====
-- Runs of internal/identity. In place of base64 every byte is raised by 33, above the spaces.
use tailkitd.Prelude.{
  ◌+◌, ◌-◌, ◌≡◌, refl, true, false, Option, none, some, [], ◌∷◌, arith, lookup, All, Text, codes,
  is_space, NotSpace,
}
use tailkitd.Os.{World, syscall, mkdir_all, not_exist, io_fault, ok, err}
use tailkitd.Os.Plain.{stat, write_file}
use tailkitd.Identity.{
  KeyPair, private_key_path, public_key_path, load_public_key, load_private_key,
  ensure_artifact_keys,
}
use tailkitd.Identity.Stored.{
  IsBase64, ensure_artifact_keys-load, ensure_artifact_keys-no_public_key,
}

raise : Text → Text
raise [] = []
raise (c ∷ s) = (c + 33) ∷ raise s

lower : Text → Text
lower [] = []
lower (c ∷ s) = (c - 33) ∷ lower s

abbrev decode : Text → Option Text
decode s = some (lower s)

lower-raise : (s : Text) → lower (raise s) ≡ s
unfolding lower raise
lower-raise [] = refl
lower-raise (c ∷ s) = let byte : (c + 33) - 33 ≡ c = omega arith in rw (byte, lower-raise s) refl

raise-NotSpace : (s : Text) → All NotSpace (raise s)
unfolding raise is_space
raise-NotSpace [] = tt
raise-NotSpace (c ∷ s) = (ground arith, raise-NotSpace s)

base64 : IsBase64 raise decode
base64 = record { decodes = λ s. rw (lower-raise s) refl; spaceless = raise-NotSpace }

abbrev keys : KeyPair
keys = record {
  public_key = codes "0123456789abcdef0123456789abcdef";
  private_key = codes "0123456789abcdef0123456789abcdef0123456789abcdef0123456789abcdef";
}

abbrev empty : World Text
empty = record { files = []; temp = none; faults = [] }

abbrev after : World Text
after = (ensure_artifact_keys raise decode (ok keys) empty).1

succeeds : (ensure_artifact_keys raise decode (ok keys) empty).0 ≡ ok tt
unfolding ensure_artifact_keys stat write_file syscall mkdir_all lookup
succeeds = refl

quiet : after.faults ≡ []
unfolding ensure_artifact_keys stat write_file syscall mkdir_all lookup
quiet = refl

none_there : lookup private_key_path (empty.files) ≡ none
unfolding lookup
none_there = refl

none_public : lookup public_key_path (empty.files) ≡ none
unfolding lookup
none_public = refl

ensure_artifact_keys-load_example :
    (load_public_key raise decode after ≡ (ok keys.public_key, after))
    × (load_private_key raise decode after ≡ (ok keys.private_key, after))
ensure_artifact_keys-load_example =
    ensure_artifact_keys-load raise decode keys empty after base64 refl refl none_there succeeds
      refl quiet

abbrev failing : World Text
failing = record {
  files = [];
  temp = none;
  faults = false ∷ false ∷ false ∷ false ∷ false ∷ true ∷ [];
}

ensure_artifact_keys-no_public_key_example :
    let (first, v) = ensure_artifact_keys raise decode (ok keys) failing in
    (first ≡ err io_fault)
    × (ensure_artifact_keys raise decode (ok keys) v ≡ (ok tt, v))
    × (load_public_key raise decode v ≡ (err not_exist, v))
ensure_artifact_keys-no_public_key_example =
    ensure_artifact_keys-no_public_key raise decode keys (ok keys) [] none_there none_public
