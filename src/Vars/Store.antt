-- ===== src/Vars/Store.antt =====
-- internal/vars/store.go. A file holds the map that its JSON text stands for, `null` for the text
-- `null`, which Go decodes into a nil map, or `broken` for any text that is not a map of strings:
-- the JSON codec itself is not modelled. A write to a nil map panics. The mutex of each scope makes
-- an operation one step, so operations are functions on the files.
pub mod Laws
pub mod Reserved
pub mod Quoting
use tailkitd.Prelude.{
  ℕ, Bool, true, false, ◌&&◌, ◌||◌, Option, none, some, List, [], ◌∷◌, ◌++◌, Dict, lookup, insert,
  erase, sort, Text, codes, str_lt, has_prefix, leb, ◌==◌, if◌then◌else◌,
}
use tailkitd.Os.{
  Error, Outcome, Io, pure, raise, lift, ◌>>=◌, ◌>>◌, syscall, read_file, remove, mkdir_all,
  not_exist, malformed, canceled, scope_not_found, key_not_found, reserved_key, invalid_key, panic,
  ok, err,
}
use tailkitd.Os.Atomic.{create_temp, deferred_remove, or_close, write_temp, rename_temp}

pub data Document : Type 0 where
  map : Dict Text → Document
  null : Document
  broken : Document

-- A request's context, for what the store asks of it.
pub record Context : Type 0 where
  pub is_canceled : Bool

alive : Context → Outcome Unit
alive ctx = if ctx.is_canceled then err canceled else ok tt

unfoldable pub is_reserved : Text → Bool
unfolding has_prefix
is_reserved key = has_prefix key (codes "_")

is_letter : ℕ → Bool
is_letter c = (leb b'a' c && leb c b'z') || (leb b'A' c && leb c b'Z')

is_key_byte : ℕ → Bool
unfolding is_letter
is_key_byte c =
    is_letter c
    || (leb b'0' c && leb c b'9')
    || (c == b'_')
    || (c == b'.')
    || (c == b'/')
    || (c == b'-')

all_key_bytes : Text → Bool
all_key_bytes [] = true
all_key_bytes (c ∷ s) = is_key_byte c && all_key_bytes s

-- `keyPattern`: a letter, then letters, digits and `_ . / -`.
unfoldable pub is_key : Text → Bool
unfolding is_letter is_key_byte all_key_bytes
is_key [] = false
is_key (c ∷ s) = is_letter c && all_key_bytes s

abbrev parse : Document → Outcome (Option (Dict Text))
parse (map d) = ok (some d)
parse null = ok none
parse broken = err malformed

abbrev scope_error : Error → Error
scope_error not_exist = scope_not_found
scope_error e = e

abbrev parse_read : Outcome Document → Outcome (Option (Dict Text))
parse_read (ok doc) = parse doc
parse_read (err e) = err (scope_error e)

abbrev or_empty : Outcome (Option (Dict Text)) → Outcome (Option (Dict Text))
or_empty (err scope_not_found) = ok (some [])
or_empty (err e) = err e
or_empty (ok d) = ok d

visible : Dict Text → Dict Text
visible [] = []
visible ((k, v) ∷ d) = let rest = visible d in if is_reserved k then rest else (k, v) ∷ rest

abbrev entries : Option (Dict Text) → Dict Text
entries none = []
entries (some d) = d

abbrev pub or_key_not_found : Option Text → Outcome Text
or_key_not_found none = err key_not_found
or_key_not_found (some v) = ok v

-- An assignment to a key of a nil map panics.
abbrev pub or_panic : Option (Dict Text) → Outcome (Dict Text)
or_panic none = err panic
or_panic (some d) = ok d

-- The two keys that say who changed the scope and when.
abbrev pub stamped : Text → Text → Dict Text → Dict Text
stamped now caller d =
    insert (codes "_meta.updated_by") caller (insert (codes "_meta.updated_at") now d)

abbrev or_absent : Outcome Unit → Outcome Unit
or_absent (err not_exist) = ok tt
or_absent r = r

module _ (base_dir : Text) where
  -- `scopePath`, for names that pass the configuration's check: they hold no `/` and no dot.
  unfoldable pub scope_path : Text → Text → Text
  scope_path project env = base_dir ++ b'/' ∷ (project ++ b'/' ∷ (env ++ codes ".json"))

  -- `readScope`: a nil map is `none`.
  unfoldable pub read_scope : Text → Text → Io Document (Option (Dict Text))
  unfolding scope_path
  read_scope project env w =
      let (r, w') = read_file (scope_path project env) w in (parse_read r, w')

  unfoldable pub read_scope_or_empty : Text → Text → Io Document (Option (Dict Text))
  unfolding read_scope
  read_scope_or_empty project env w = let (r, w') = read_scope project env w in (or_empty r, w')

  -- `writeScope`
  unfoldable pub write_scope : Text → Text → Dict Text → Io Document Unit
  unfolding create_temp deferred_remove or_close write_temp rename_temp
  write_scope project env d = do
    mkdir_all
    create_temp
    deferred_remove do
      or_close (write_temp (map d))
      -- Chmod
      or_close syscall
      -- Close
      syscall
      rename_temp (scope_path project env)

  -- `List`
  unfoldable pub list : Context → Text → Text → Io Document (Dict Text)
  unfolding visible alive
  list ctx project env = do lift (alive ctx); d ← read_scope project env; pure (visible (entries d))

  -- `Get`
  unfoldable pub get : Context → Text → Text → Text → Io Document Text
  unfolding alive is_reserved
  get ctx project env key = do
    lift (alive ctx)
    if is_reserved key
        then raise reserved_key
        else do d ← read_scope project env; lift (or_key_not_found (lookup key (entries d)))

  -- `Set`; `now` is the time, as RFC 3339 writes it.
  unfoldable pub set : Text → Context → Text → Text → Text → Text → Text → Io Document Unit
  unfolding alive is_reserved
  set now ctx project env key value caller = do
    lift (alive ctx)
    if is_reserved key then raise reserved_key else do
      if is_key key then pure tt else raise invalid_key
      found ← read_scope_or_empty project env
      d ← lift (or_panic found)
      write_scope project env (stamped now caller (insert key value d))

  -- `Delete`
  unfoldable pub delete : Text → Context → Text → Text → Text → Text → Io Document Unit
  unfolding alive is_reserved
  delete now ctx project env key caller = do
    lift (alive ctx)
    if is_reserved key then raise reserved_key else do
      found ← read_scope_or_empty project env
      d ← lift (or_panic found)
      write_scope project env (stamped now caller (erase key d))

  -- `DeleteScope`
  unfoldable pub delete_scope : Context → Text → Text → Io Document Unit
  unfolding alive
  delete_scope ctx project env = do
    lift (alive ctx)
    λ w. let (r, w') = remove (scope_path project env) w in (or_absent r, w')

quote_bytes : Text → Text
quote_bytes [] = []
quote_bytes (c ∷ s) =
    let rest = quote_bytes s in
    if c == b'\'' then b'\'' ∷ b'\\' ∷ b'\'' ∷ b'\'' ∷ rest else c ∷ rest

-- `shellQuote`
unfoldable pub shell_quote : Text → Text
unfolding quote_bytes
shell_quote s = b'\'' ∷ (quote_bytes s ++ b'\'' ∷ [])

pub keys : Dict Text → List Text
keys [] = []
keys ((k, v) ∷ d) = k ∷ keys d

abbrev pub or_empty_text : Option Text → Text
or_empty_text none = []
or_empty_text (some v) = v

lines : Dict Text → List Text → Text
lines d [] = []
lines d (k ∷ ks) = k ++ b'=' ∷ (shell_quote (or_empty_text (lookup k d)) ++ 10 ∷ lines d ks)

-- The text that `RenderEnv` builds of the listed variables.
unfoldable pub env_text : Dict Text → Text
unfolding keys lines
env_text d = lines d (sort str_lt (keys d))

-- `RenderEnv`
unfoldable pub render_env : Text → Context → Text → Text → Io Document Text
render_env base_dir ctx project env = do d ← list base_dir ctx project env; pure (env_text d)
