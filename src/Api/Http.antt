-- ===== src/Api/Http.antt =====
-- Requests and responses as the admin handlers see them, and the state of the node behind them.
-- A response is its status and the value of its X-State-Epoch header; bodies are not modelled.
use tailkitd.Prelude.{ℕ, Bool, ◌&&◌, Option, none, List, ℤ, Text, ltb, leb}
use tailkitd.Os.{World}
use tailkitd.State.Epoch.{Epoch}
use tailkitd.Access.Registry.{Grant}

pub data Method : Type 0 where
  method_get method_post method_put method_patch method_delete method_other : Method

pub record Request : Type 0 where
  pub method : Method
  pub path : Text
  -- the headers X-Admin-Key and X-State-Epoch, empty if they are missing
  pub admin_key : Text
  pub state_epoch : Text
  -- the login of the caller, if the Tailscale middleware has put one in the context
  pub login : Option Text

pub record Response : Type 0 where
  pub status : ℕ
  pub epoch : Option ℤ

-- `helpers.WriteError` and `helpers.WriteJSON`, where no epoch header has been set
abbrev pub reply : ℕ → Response
reply status = record { status = status; epoch = none }

-- The fields of `AdminHandler`, with `none` for a nil pointer, and the files.
pub record Node : Type 0 where
  pub epoch : Option Epoch
  pub grants : Option (List Grant)
  pub is_admin : Bool
  pub world : World Text

-- `http.HandlerFunc`, on a node
abbrev pub Handler : Type 0
Handler = Request → Node → Response × Node

abbrev pub is_success : ℕ → Bool
is_success status = leb 200 status && ltb status 300
