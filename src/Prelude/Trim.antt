-- ===== src/Prelude/Trim.antt =====
-- `strings.TrimSpace` on a line that was written with a newline behind it.
use Prim.Native.Nat.{ℕ}
use mathlib.Core.Path.{◌≡◌, refl}
use mathlib.Core.Bool.{false}
use mathlib.Core.List.{[], ◌∷◌, ◌++◌}
use mathlib.Core.List.{reverse, reverse-append, reverse-reverse}
use tailkitd.Prelude.Strings.{Text, is_space, trim_left, trim_space}
use tailkitd.Prelude.Lists.{All, All-append}

abbrev pub NotSpace : ℕ → Type 0
NotSpace c = is_space c ≡ false

pub trim_left-NotSpace : (s : Text) → All NotSpace s → trim_left s ≡ s
unfolding trim_left
trim_left-NotSpace [] h = refl
trim_left-NotSpace (c ∷ s) h = rw (h.0)

All-reverse : (s : Text) → All NotSpace s → All NotSpace (reverse s)
All-reverse [] h = tt
All-reverse (c ∷ s) h =
    rw (reverse-append (c ∷ []) s)
      (All-append NotSpace (reverse s) (c ∷ []) (All-reverse s h.1) (h.0, tt))

-- What was printed without spaces is read back.
pub trim_space-line : (s : Text) → All NotSpace s → trim_space (s ++ 10 ∷ []) ≡ s
unfolding trim_space
trim_space-line [] h = refl
trim_space-line (c ∷ s) h =
    rw
      (
        h.0,
        reverse-append (c ∷ s) (10 ∷ []),
        trim_left-NotSpace (reverse (c ∷ s)) (All-reverse (c ∷ s) h),
      )
      (reverse-reverse (c ∷ s))
