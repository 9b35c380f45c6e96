-- ===== src/State/Epoch.antt =====
-- internal/state/epoch.go: the operations. The laws are in the module below.
pub mod Laws
use tailkitd.Prelude.{
  Option, none, some, [], ◌∷◌, ◌++◌, ℤ, ltb_ℤ, inc64, print_int, parse_int, pos, Text, trim_space,
  if◌then◌else◌,
}
use tailkitd.Os.{
  Outcome, World, Io, pure, ◌>>=◌, ◌>>◌, read_file, mkdir_all, not_exist, io_fault, malformed,
  stale_epoch, future_epoch, ok, err,
}
use tailkitd.Os.Atomic.{atomic_write}

-- Files hold bytes.
pub record Epoch : Type 0 where
  pub path : Text
  pub value : ℤ

abbrev or_malformed : Option ℤ → Outcome ℤ
or_malformed none = err malformed
or_malformed (some n) = ok n

-- `load`, for the value that it leaves in the field
load : Text → Io Text ℤ
load path w =
    let (read, w') = read_file path w in
    elim read [
      | ok text ↦ (or_malformed (parse_int (trim_space text)), w')
      | err e ↦ (elim e [ not_exist ↦ ok (pos 0) | _ ↦ err io_fault ], w')
    ]

unfoldable pub new_epoch : Text → Io Text Epoch
unfolding load
new_epoch path = do n ← load path; pure (record { path = path; value = n })

unfoldable pub current : Epoch → ℤ
current e = e.value

unfoldable pub validate : Epoch → ℤ → Outcome Unit
unfolding current
validate e caller =
    if ltb_ℤ caller (current e)
    then err stale_epoch
    else if ltb_ℤ (current e) caller
    then err future_epoch
    else ok tt

-- The text of the file.
abbrev pub line_of : ℤ → Text
line_of n = print_int n ++ 10 ∷ []

save : Epoch → Io Text ℤ
save e = do mkdir_all; atomic_write e.path (line_of e.value); pure e.value

-- `Increment`: the new object, the value or error that it returns, and the files. The value is
-- raised before it is written.
unfoldable pub increment : Epoch → World Text → Epoch × Outcome ℤ × World Text
unfolding save
increment e w =
    let e' : Epoch = record e { value = inc64 e.value } in let (r, w') = save e' w in (e', r, w')
