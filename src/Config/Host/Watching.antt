-- ===== src/Config/Host/Watching.antt =====
-- internal/config/host.go: the loop that watches the file, with whatever else changes the files.
pub mod Kept
use tailkitd.Prelude.{
  ◌≡◌, Bool, true, false, ◌&&◌, Option, List, clean, Text, str_eq, if◌then◌else◌,
}
use tailkitd.Os.{Outcome, World}
use tailkitd.Config.Host.{HostConfig, HostManager, reload, replace_self}

pub record Watch : Type 0 where
  pub manager : HostManager
  -- the timer runs
  pub armed : Bool
  pub world : World Text

module _ (toml_decode : Text → Option (List HostConfig × Bool))
    (toml_encode : List HostConfig → Outcome Text) where
  -- An event of the watcher: the name, and whether the operation is a write, a creation, a rename
  -- or a removal
  unfoldable pub on_event : Text → Bool → Watch → Watch
  on_event name changes s =
      if str_eq (clean name) (clean s.manager.path) && changes then record s { armed = true } else s

  -- The timer has run out: a reload that fails is logged.
  unfoldable pub on_timer : Watch → Watch
  on_timer s =
      let (r, m, w) = reload toml_decode toml_encode s.manager s.world in
      record s { manager = m; armed = false; world = w }

  unfoldable pub on_replace : HostConfig → Watch → Watch
  on_replace c s = record s { manager = (replace_self toml_decode toml_encode c s.manager).1 }

  -- What may happen next: other processes write files, and calls may fail, as they like.
  pub data Step (s : Watch) : Watch → Type 0 where
    outside : (w : World Text) → Step s (record s { world = w })
    event : (name : Text) (changes : Bool) → Step s (on_event name changes s)
    timer : s.armed ≡ true → Step s (on_timer s)
    replaced : (c : HostConfig) → Step s (on_replace c s)

  pub data Reach (s : Watch) : Watch → Type 0 where
    start : Reach s s
    next : {t u : Watch} → Reach s t → Step t u → Reach s u
