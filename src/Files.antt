-- ===== src/Files.antt =====
-- internal/files/handlers.go: the files of the node, over HTTP. The types of the rules and how a
-- rule is found for a path belong to package tailkit.
pub mod Identity
pub mod Inbox
pub mod Transfer
use tailkitd.Prelude.{ℕ, Bool, List, Text}

-- What stands in a response besides its status
pub data Body : Type 0 where
  no_body : Body
  file_content : Text → Body
  -- the names of the entries of a directory
  dir_entries : List Text → Body
  -- where a file has been written, and how many bytes
  sent_to : Text → ℕ → Body
  -- the state of a file, with the digest of this text
  file_stat : Text → Body

pub record Reply : Type 0 where
  pub status : ℕ
  pub body : Body

abbrev pub failure : ℕ → Reply
failure status = record { status = status; body = no_body }

pub record ResolvedIdentity : Type 0 where
  pub uid : ℕ
  pub gid : ℕ
  -- the field `Set`
  pub is_set : Bool

pub record PathRule : Type 0 where
  pub dir : Text
  pub allow : List Text
  pub share : Bool
  pub use_as_user : Text
  pub use_as : ResolvedIdentity

pub record FilesConfig : Type 0 where
  pub enabled : Bool
  pub paths : List PathRule
