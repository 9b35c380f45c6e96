-- ===== src/Prelude/Sorting.antt =====
-- `sort.Slice`, as an insertion sort over a Boolean order.
use mathlib.Core.Path.{◌≡◌}
use mathlib.Core.Logic.{inl, inr}
use mathlib.Core.Bool.{Bool, true, false}
use mathlib.Core.List.{List, [], ◌∷◌}
use mathlib.Core.List.{Perm}
use mathlib.Core.List.Perm
use tailkitd.Prelude.Tests.{if◌then◌else◌, Bool-cases}
use tailkitd.Prelude.Lists.{All, Occurs}

module _ {ℓ} {A : Type ℓ} (less : A → A → Bool) where
  unfoldable pub insert_sorted : A → List A → List A
  insert_sorted x [] = x ∷ []
  insert_sorted x (y ∷ ys) = if less y x then y ∷ insert_sorted x ys else x ∷ y ∷ ys

  unfoldable pub sort : List A → List A
  unfolding insert_sorted
  sort [] = []
  sort (x ∷ xs) = insert_sorted x (sort xs)

  -- No element is less than the one before it.
  abbrev pub IsSorted : List A → Type 0
  IsSorted [] = Unit
  IsSorted (x ∷ []) = Unit
  IsSorted (x ∷ y ∷ l) = (less y x ≡ false) × IsSorted (y ∷ l)

  IsSorted-tail : (x : A) (l : List A) → IsSorted (x ∷ l) → IsSorted l
  IsSorted-tail x [] h = tt
  IsSorted-tail x (y ∷ l) h = h.1

  module _ (asymm : (x y : A) → less x y ≡ true → less y x ≡ false) where
    IsSorted-insert_after :
        (x y : A) (l : List A)
        → less y x ≡ true
        → IsSorted (y ∷ l)
        → IsSorted (insert_sorted x l)
        → IsSorted (y ∷ insert_sorted x l)
    unfolding insert_sorted
    IsSorted-insert_after x y [] h s t = (asymm y x h, tt)
    IsSorted-insert_after x y (z ∷ l) h s t = elim (Bool-cases (less z x)) [
      | inl e ↦ rw e (s.0, rw e at t)
      | inr e ↦ rw e (asymm y x h, rw e at t)
    ]

    insert_sorted-IsSorted : (x : A) (l : List A) → IsSorted l → IsSorted (insert_sorted x l)
    unfolding insert_sorted
    insert_sorted-IsSorted x [] s = tt
    insert_sorted-IsSorted x (y ∷ l) s = elim (Bool-cases (less y x)) [
      | inl e ↦
          rw e (IsSorted-insert_after x y l e s (insert_sorted-IsSorted x l (IsSorted-tail y l s)))
      | inr e ↦ rw e (e, s)
    ]

    pub sort-IsSorted : (l : List A) → IsSorted (sort l)
    unfolding sort
    sort-IsSorted [] = tt
    sort-IsSorted (x ∷ l) = insert_sorted-IsSorted x (sort l) (sort-IsSorted l)

  insert_sorted-perm : (x : A) (l : List A) → Perm (insert_sorted x l) (x ∷ l)
  unfolding insert_sorted
  insert_sorted-perm x [] = Perm.refl (x ∷ [])
  insert_sorted-perm x (y ∷ l) = elim (Bool-cases (less y x)) [
    | inl e ↦ rw e (Perm.trans (Perm.cons y (insert_sorted-perm x l)) (Perm.swap x y l))
    | inr e ↦ rw e (Perm.refl (x ∷ y ∷ l))
  ]

  pub sort-perm : (l : List A) → Perm (sort l) l
  unfolding sort
  sort-perm [] = Perm.refl []
  sort-perm (x ∷ l) = Perm.trans (insert_sorted-perm x (sort l)) (Perm.cons x (sort-perm l))

module _ {ℓ κ} {A : Type ℓ} (less : A → A → Bool) (P : A → Type κ) where
  insert_sorted-All : (x : A) (l : List A) → P x → All P l → All P (insert_sorted less x l)
  unfolding insert_sorted
  insert_sorted-All x [] h a = (h, tt)
  insert_sorted-All x (y ∷ l) h a = elim (Bool-cases (less y x)) [
    | inl e ↦ rw e (a.0, insert_sorted-All x l h a.1)
    | inr e ↦ rw e (h, a)
  ]

  pub sort-All : (l : List A) → All P l → All P (sort less l)
  unfolding sort
  sort-All [] a = tt
  sort-All (x ∷ l) a = insert_sorted-All x (sort less l) a.0 (sort-All l a.1)

module _ {A : Type 0} where
  insert_sorted-Occurs :
      (less : A → A → Bool) (x a : A) (l : List A)
      → Occurs a (x ∷ l)
      → Occurs a (insert_sorted less x l)
  unfolding insert_sorted
  insert_sorted-Occurs less x a [] o = o
  insert_sorted-Occurs less x a (y ∷ l) o = elim (Bool-cases (less y x)) [
    | inr e ↦ rw e o
    | inl e ↦ elim o [
      | inl same ↦ rw e (inr (insert_sorted-Occurs less x a l (inl same)))
      | inr (inl same) ↦ rw e (inl same)
      | inr (inr more) ↦ rw e (inr (insert_sorted-Occurs less x a l (inr more)))
    ]
  ]

  pub sort-Occurs : (less : A → A → Bool) (a : A) (l : List A) → Occurs a l → Occurs a (sort less l)
  unfolding sort
  sort-Occurs less a [] o = o
  sort-Occurs less a (x ∷ l) (inl same) = insert_sorted-Occurs less x a (sort less l) (inl same)
  sort-Occurs less a (x ∷ l) (inr o) =
      insert_sorted-Occurs less x a (sort less l) (inr (sort-Occurs less a l o))
