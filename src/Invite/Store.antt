-- ===== src/Invite/Store.antt =====
-- internal/invite/store.go: the tokens that have been claimed.
pub mod Kept
use tailkitd.Prelude.{
  ℕ, Bool, true, false, Option, none, some, List, [], ◌∷◌, Dict, lookup, insert, Text,
  if◌then◌else◌,
}
use tailkitd.Os.{
  Outcome, World, Io, pure, ◌>>=◌, ◌>>◌, read_file, mkdir_all, not_exist, io_fault, malformed,
  already_claimed, ok, err,
}
use tailkitd.Os.Atomic.{atomic_write}

pub record ClaimRecord : Type 0 where
  pub token_id : Text
  pub claimed_by : Text
  pub claimed_at : ℕ
  pub expires_at : ℕ

-- What claims.json holds: the JSON array of the records, or something else.
pub data Document : Type 0 where
  recorded : List ClaimRecord → Document
  broken : Document

pub record Store : Type 0 where
  pub path : Text
  pub claims : Dict ClaimRecord

-- `s.claims[claim.TokenID] = claim`, for every record of the file
unfoldable pub put_all : List ClaimRecord → Dict ClaimRecord → Dict ClaimRecord
put_all [] d = d
put_all (r ∷ rs) d = put_all rs (insert r.token_id r d)

abbrev parse : Document → Outcome (Dict ClaimRecord)
parse (recorded rs) = ok (put_all rs [])
parse broken = err malformed

-- `load`, for the map that it fills
unfoldable pub load : Text → Io Document (Dict ClaimRecord)
load path w =
    let (read, w') = read_file path w in
    elim read [
      | ok doc ↦ (parse doc, w')
      | err e ↦ (elim e [ not_exist ↦ ok [] | _ ↦ err io_fault ], w')
    ]

unfoldable pub new_store : Text → Io Document Store
unfolding load
new_store path = do d ← load path; pure (record { path = path; claims = d })

abbrev is_some : Option ClaimRecord → Bool
is_some none = false
is_some (some _) = true

unfoldable pub is_claimed : Store → Text → Bool
is_claimed s id = is_some (lookup id s.claims)

pub records : Dict ClaimRecord → List ClaimRecord
records [] = []
records ((k, r) ∷ d) = r ∷ records d

-- Go visits a map in any order: `visit` is the order of this run.
module _ (visit : List ClaimRecord → List ClaimRecord) where
  -- `persistLocked`
  unfoldable pub persist : Store → Io Document Unit
  persist s = do mkdir_all; atomic_write s.path (recorded (visit (records s.claims)))

  -- `MarkClaimed`, at the time `now`: the map is changed before the file is written.
  unfoldable pub mark_claimed :
      Text → Text → ℕ → ℕ → Store → World Document → Store × Outcome Unit × World Document
  unfolding is_claimed persist
  mark_claimed id by expires_at now s w =
      let r : ClaimRecord = record {
        token_id = id;
        claimed_by = by;
        claimed_at = now;
        expires_at = expires_at;
      } in
      let s' : Store = record s { claims = insert id r s.claims } in
      let (done, w') = persist s' w in
      if is_claimed s id then (s, err already_claimed, w) else (s', done, w')
