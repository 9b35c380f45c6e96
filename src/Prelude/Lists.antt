-- ===== src/Prelude/Lists.antt =====
-- Lists measured by native numbers, and predicates on lists by recursion.
use Prim.Native.Nat.{ℕ, zero, suc, ◌+◌}
use mathlib.Core.Path.{◌≡◌, refl}
use mathlib.Core.Logic.{◌⊎◌, inl, inr}
use mathlib.Core.List.{List, [], ◌∷◌, ◌++◌}
use native.Mathlib.Omega.{arith}

module _ {ℓ} {A : Type ℓ} where
  abbrev pub length : List A → ℕ
  length [] = 0
  length (x ∷ xs) = suc (length xs)

  pub length-append : (xs ys : List A) → length (xs ++ ys) ≡ length xs + length ys
  length-append [] ys = omega arith
  length-append (x ∷ xs) ys = omega (arith, length-append xs ys)

-- Membership that keeps the place.
abbrev pub Occurs : {A : Type 0} → A → List A → Type 0
Occurs a [] = ⊥
Occurs a (x ∷ xs) = (x ≡ a) ⊎ Occurs a xs

pub Occurs-append_left : {A : Type 0} (a : A) (xs ys : List A) → Occurs a xs → Occurs a (xs ++ ys)
Occurs-append_left a [] ys h = absurd h
Occurs-append_left a (x ∷ xs) ys (inl e) = inl e
Occurs-append_left a (x ∷ xs) ys (inr h) = inr (Occurs-append_left a xs ys h)

abbrev pub All {ℓ κ} : {A : Type ℓ} → (A → Type κ) → List A → Type κ
All P [] = Unit
All P (x ∷ xs) = P x × All P xs

module _ {ℓ κ} {A : Type ℓ} (P : A → Type κ) where
  pub All-append : (xs ys : List A) → All P xs → All P ys → All P (xs ++ ys)
  All-append [] ys hx hy = hy
  All-append (x ∷ xs) ys hx hy = (hx.0, All-append xs ys hx.1 hy)

module _ {A : Type 0} where
  pub All-each : (P : A → Type 0) (l : List A) → ((a : A) → Occurs a l → P a) → All P l
  All-each P [] h = tt
  All-each P (a ∷ l) h = (h a (inl refl), All-each P l (λ b o. h b (inr o)))

  pub Occurs-append_right : (a : A) (l m : List A) → Occurs a m → Occurs a (l ++ m)
  Occurs-append_right a [] m o = o
  Occurs-append_right a (b ∷ l) m o = inr (Occurs-append_right a l m o)

module _ {A : Type 0} (P : A → Type 0) where
  pub All_at : (a : A) (l : List A) → All P l → Occurs a l → P a
  All_at a [] all o = absurd o
  All_at a (x ∷ l) all (inl e) = rw (← e) all.0
  All_at a (x ∷ l) all (inr o) = All_at a l all.1 o

  pub All-within : (l l' : List A) → ((p : A) → Occurs p l → Occurs p l') → All P l' → All P l
  All-within [] l' inside all = tt
  All-within (x ∷ l) l' inside all =
      (All_at x l' all (inside x (inl refl)), All-within l l' (λ p o. inside p (inr o)) all)

module _ {ℓ} {A : Type ℓ} where
  unfoldable pub drop : ℕ → List A → List A
  drop zero xs = xs
  drop (suc n) [] = []
  drop (suc n) (x ∷ xs) = drop n xs
