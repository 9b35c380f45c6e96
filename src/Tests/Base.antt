-- ===== src/Tests/Base.antt =====
-- Runs of internal/utils/atomic_write.go and internal/state/epoch.go.
use tailkitd.Prelude.{
  ◌≡◌, refl, true, false, none, [], ◌∷◌, inc64, print_int, parse_int, pos, lookup, insert, Text,
  codes, str_eq, trim_space,
}
use tailkitd.Os.{World, syscall, read_file, mkdir_all, ok}
use tailkitd.Os.Atomic.{Written, atomic_write, atomic_write_lem}
use tailkitd.State.Epoch.{Epoch, increment, new_epoch}
use tailkitd.State.Epoch.Laws.{Incremented, increment_lem}

abbrev disk : World Text
disk = record {
  files = (codes "/etc/tailkitd/state.epoch", codes "41\n") ∷ [];
  temp = none;
  faults = [];
}

-- The third call, which writes the data, fails.
abbrev bad_disk : World Text
bad_disk = record disk { faults = false ∷ false ∷ true ∷ [] }

abbrev epoch : Epoch
epoch = record { path = codes "/etc/tailkitd/state.epoch"; value = pos 41 }

read_41 : (new_epoch (codes "/etc/tailkitd/state.epoch") disk).0 ≡ ok epoch
unfolding new_epoch read_file lookup str_eq parse_int trim_space
read_41 = refl

write_42 : (increment epoch disk).2.files ≡ (codes "/etc/tailkitd/state.epoch", codes "42\n") ∷ []
unfolding increment mkdir_all atomic_write syscall insert str_eq print_int inc64
write_42 = refl

atomic_write_lem_example :
    Written epoch.path
      (codes "42\n")
      (atomic_write epoch.path (codes "42\n") bad_disk).0
      bad_disk.files
      (atomic_write epoch.path (codes "42\n") bad_disk).1.files
atomic_write_lem_example = atomic_write_lem epoch.path (codes "42\n") bad_disk

increment_lem_example : Incremented epoch bad_disk.files (increment epoch bad_disk)
increment_lem_example = increment_lem epoch bad_disk

increment_ok : (increment epoch disk).1 ≡ ok (inc64 epoch.value)
unfolding increment mkdir_all atomic_write syscall insert str_eq print_int inc64
increment_ok = refl
