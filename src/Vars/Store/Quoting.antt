-- ===== src/Vars/Store/Quoting.antt =====
-- internal/vars/store.go: what `RenderEnv` writes, read back by the rules of the shell.
use mathlib.Core.List.{append_assoc}
use mathlib.Core.Option
use tailkitd.Vars.Store.{shell_quote, quote_bytes, keys, or_empty_text, env_text, lines}
use tailkitd.Prelude.{
  ℕ, zero, suc, ◌≡◌, refl, inl, inr, Bool, true, false, ◌||◌, not, Option, none, some, List, [],
  ◌∷◌, ◌++◌, arith, Dict, lookup, length, All, sort, sort-All, Text, str_lt, contains_byte, ◌==◌,
  if◌then◌else◌, Bool-cases,
}

-- The value of a word, with what follows it, as a POSIX shell reads it: between single quotes every
-- byte stands for itself, outside of them a backslash keeps the byte behind it, and a newline ends
-- the word. `none` means that a quote is left open.
pub data Mode : Type 0 where
  bare quoted escaped : Mode

abbrev next : Mode → ℕ → Mode
next bare c = if c == b'\'' then quoted else if c == b'\\' then escaped else bare
next quoted c = if c == b'\'' then bare else quoted
next escaped c = bare

abbrev is_end : Mode → ℕ → Bool
is_end bare c = c == 10
is_end quoted c = false
is_end escaped c = false

abbrev is_literal : Mode → ℕ → Bool
is_literal bare c = not (c == b'\'' || c == b'\\')
is_literal quoted c = not (c == b'\'')
is_literal escaped c = true

pub read_word : Mode → Text → Option (Text × Text)
read_word bare [] = some ([], [])
read_word quoted [] = none
read_word escaped [] = none
read_word m (c ∷ s) =
    let rest = read_word (next m c) s in
    if is_end m c
    then some ([], s)
    else if is_literal m c
    then Option.map (λ (v, r). (c ∷ v, r)) rest
    else rest

read_quoted :
    (s rest : Text) → read_word quoted (quote_bytes s ++ b'\'' ∷ 10 ∷ rest) ≡ some (s, rest)
unfolding read_word quote_bytes
read_quoted [] rest = refl
read_quoted (c ∷ s) rest = elim (Bool-cases (c == b'\'')) [
  | inl quote ↦ rw quote (rw (read_quoted s rest) (ground arith))
  | inr plain ↦ rw (plain, read_word) (rw (plain, read_quoted s rest) (ground arith))
]

-- A shell reads a quoted value back as it was, whatever bytes it has, and stops at the newline.
pub read_word-shell_quote :
    (s rest : Text) → read_word bare (shell_quote s ++ 10 ∷ rest) ≡ some (s, rest)
unfolding read_word shell_quote
read_word-shell_quote s rest = rw append_assoc (read_quoted s rest)

-- The name of a line, up to its `=`, with what follows that.
read_name : Text → Option (Text × Text)
read_name [] = none
read_name (c ∷ s) =
    let rest = read_name s in
    if c == b'=' then some ([], s) else Option.map (λ (n, r). (c ∷ n, r)) rest

and_value : Option (Text × Text) → Option ((Text × Text) × Text)
and_value none = none
and_value (some (name, s)) = Option.map (λ (v, r). ((name, v), r)) (read_word bare s)

-- The first `n` lines, which have to be all.
pub read_lines : ℕ → Text → Option (List (Text × Text))
read_lines zero [] = some []
read_lines zero (c ∷ s) = none
read_lines (suc n) s = elim (and_value (read_name s)) [
  | none ↦ none
  | some (entry, rest) ↦ Option.map (λ more. entry ∷ more) (read_lines n rest)
]

abbrev pub IsName : Text → Type 0
IsName k = contains_byte b'=' k ≡ false

read_name-IsName : (k s : Text) → IsName k → read_name (k ++ b'=' ∷ s) ≡ some (k, s)
unfolding read_name contains_byte
read_name-IsName [] s h = refl
read_name-IsName (c ∷ k) s h = elim (Bool-cases (c == b'=')) [
  | inl e ↦ ground arith
  | inr e ↦ rw (e, read_name-IsName k s (rw e at h)) refl
]

-- The variables in the order of the keys.
pub in_order : Dict Text → List Text → List (Text × Text)
in_order d [] = []
in_order d (k ∷ ks) = (k, or_empty_text (lookup k d)) ∷ in_order d ks

read_lines-lines :
    (d : Dict Text) (ks : List Text)
    → All IsName ks
    → read_lines (length ks) (lines d ks) ≡ some (in_order d ks)
unfolding read_lines lines in_order and_value
read_lines-lines d [] h = refl
read_lines-lines d (k ∷ ks) h = ground (
  arith,
  read_name-IsName k (shell_quote (or_empty_text (lookup k d)) ++ 10 ∷ lines d ks) h.0,
  read_word-shell_quote (or_empty_text (lookup k d)) (lines d ks),
  read_lines-lines d ks h.1,
)

keys-All : (d : Dict Text) → All (λ e. IsName e.0) d → All IsName (keys d)
unfolding keys
keys-All [] h = tt
keys-All (e ∷ d) h = (h.0, keys-All d h.1)

-- The text of `RenderEnv` reads back as the variables that it was made of, in the order of their
-- keys, whatever the values are, if no key has a `=`.
pub read_lines-env_text :
    (d : Dict Text)
    → All (λ e. IsName e.0) d
    → let names = sort str_lt (keys d) in
      read_lines (length names) (env_text d) ≡ some (in_order d names)
unfolding env_text
read_lines-env_text d h =
    read_lines-lines d (sort str_lt (keys d)) (sort-All str_lt IsName (keys d) (keys-All d h))
