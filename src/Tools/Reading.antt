-- ===== src/Tools/Reading.antt =====
-- internal/tools/registry.go: what a tool file may give.
use tailkitd.Prelude.{
  ◌≡◌, refl, inl, inr, false, Option, none, some, [], Text, str_eq, contains_byte, Bool-cases,
}
use tailkitd.Os.{Outcome, World, read_file, ok, err}
use tailkitd.Tools.{Tool, read_one, named, parsed}

module _ (json_decode : Text → Option Tool) where
  -- The names of tools have no slash.
  abbrev pub PlainNames : Type 0
  PlainNames =
      (text : Text) (t : Tool) → json_decode text ≡ some t → contains_byte b'/' t.name ≡ false

  named_plain :
      (o : Option Tool) (t : Tool)
      → ((u : Tool) → o ≡ some u → contains_byte b'/' u.name ≡ false)
      → named o ≡ ok t
      → contains_byte b'/' t.name ≡ false
  named_plain none t plain h = absurd (cc h)
  named_plain (some u) t plain h = elim (Bool-cases (str_eq u.name [])) [
    | inl e ↦ absurd (cc (rw e at h))
    | inr e ↦ let same : u ≡ t = cc (rw e at h) in rw (← same) (plain u refl)
  ]

  parsed_plain :
      (r : Outcome Text) (t : Tool)
      → PlainNames
      → parsed json_decode r ≡ ok t
      → contains_byte b'/' t.name ≡ false
  parsed_plain (ok text) t plain h = named_plain (json_decode text) t (plain text) h
  parsed_plain (err e) t plain h = absurd (cc h)

  pub read_one_plain :
      (path : Text) (w : World Text) (t : Tool)
      → PlainNames
      → (read_one json_decode path w).0 ≡ ok t
      → contains_byte b'/' t.name ≡ false
  unfolding read_one
  read_one_plain path w t plain h = parsed_plain (read_file path w).0 t plain h
