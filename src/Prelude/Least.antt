-- ===== src/Prelude/Least.antt =====
-- The first element of a sorted list, and the order of strings that makes it unique.
use mathlib.Core.Path.{◌≡◌, refl}
use mathlib.Core.Logic.{◌↔◌, inl, inr}
use mathlib.Core.Bool.{Bool, true, false}
use mathlib.Core.List.{List, [], ◌∷◌}
use native.Mathlib.Omega.{arith}
use tailkitd.Prelude.Tests.{Bool-cases}
use tailkitd.Prelude.Lists.{All, Occurs}
use tailkitd.Prelude.Sorting.{sort, insert_sorted, sort-All}
use tailkitd.Prelude.Strings.{Text, str_lt, str_lt_asymm, str_eq, str_eq_refl, eq_of_str_eq}

-- No element is less than `h`.
abbrev pub IsLeast : Text → List Text → Type 0
IsLeast h l = All (λ y. str_lt y h ≡ false) l

str_lt_irrefl : (a : Text) → str_lt a a ≡ false
unfolding str_lt
str_lt_irrefl [] = refl
str_lt_irrefl (x ∷ a) = ground (arith, str_lt_irrefl a)

str_lt_trans_not : (a b c : Text) → str_lt a b ≡ false → str_lt b c ≡ false → str_lt a c ≡ false
unfolding str_lt
str_lt_trans_not [] b [] h k = refl
str_lt_trans_not (x ∷ a) b [] h k = refl
str_lt_trans_not [] [] (z ∷ c) h k = k
str_lt_trans_not [] (y ∷ b) (z ∷ c) h k = cc h
str_lt_trans_not (x ∷ a) [] (z ∷ c) h k = cc k
str_lt_trans_not (x ∷ a) (y ∷ b) (z ∷ c) h k = ground (arith, str_lt_trans_not a b c)

pub str_lt_total : (a b : Text) → str_lt a b ≡ false → str_lt b a ≡ false → a ≡ b
unfolding str_lt
str_lt_total [] [] h k = refl
str_lt_total [] (y ∷ b) h k = cc
str_lt_total (x ∷ a) [] h k = cc
str_lt_total (x ∷ a) (y ∷ b) h k = ground (arith, str_lt_total a b)

IsLeast-weaken : (h x : Text) (l : List Text) → str_lt h x ≡ false → IsLeast h l → IsLeast x l
IsLeast-weaken h x [] e a = tt
IsLeast-weaken h x (y ∷ l) e a = (str_lt_trans_not y h x a.0 e, IsLeast-weaken h x l e a.1)

-- The first element is the least.
abbrev Led : List Text → Type 0
Led [] = Unit
Led (h ∷ l) = IsLeast h l

insert_sorted-IsLeast :
    (x h : Text) (l : List Text)
    → str_lt x h ≡ false
    → IsLeast h l
    → IsLeast h (insert_sorted str_lt x l)
unfolding insert_sorted
insert_sorted-IsLeast x h [] e a = (e, tt)
insert_sorted-IsLeast x h (y ∷ l) e a = elim (Bool-cases (str_lt y x)) [
  | inl c ↦ rw c (a.0, insert_sorted-IsLeast x h l e a.1)
  | inr c ↦ rw c (e, a)
]

insert_sorted-Led : (x : Text) (l : List Text) → Led l → Led (insert_sorted str_lt x l)
unfolding insert_sorted
insert_sorted-Led x [] h = tt
insert_sorted-Led x (y ∷ l) h = elim (Bool-cases (str_lt y x)) [
  | inl c ↦ rw c (insert_sorted-IsLeast x y l (str_lt_asymm y x c) h)
  | inr c ↦ rw c (c, IsLeast-weaken y x l c h)
]

sort-Led : (l : List Text) → Led (sort str_lt l)
unfolding sort
sort-Led [] = tt
sort-Led (x ∷ l) = insert_sorted-Led x (sort str_lt l) (sort-Led l)

All-insert_sorted :
    (P : Text → Type 0) (x : Text) (l : List Text)
    → All P (insert_sorted str_lt x l)
    → P x × All P l
unfolding insert_sorted
All-insert_sorted P x [] h = h
All-insert_sorted P x (y ∷ l) h = elim (Bool-cases (str_lt y x)) [
  | inl c ↦
      let (here, there) = (rw c at h) in
      let (px, pl) = All-insert_sorted P x l there in (px, (here, pl))
  | inr c ↦ rw c at h
]

pub All-sort : (P : Text → Type 0) (l : List Text) → All P (sort str_lt l) → All P l
unfolding sort
All-sort P [] h = tt
All-sort P (x ∷ l) h =
    let (px, rest) = All-insert_sorted P x (sort str_lt l) h in (px, All-sort P l rest)

abbrev pub is_first : Text → List Text → Bool
is_first self [] = false
is_first self (h ∷ l) = str_eq h self

-- By what the sorted list `l` has of the list that it is sorted from.
first_of :
    (self : Text) (peers l : List Text)
    → Led l
    → ((h : Text) → IsLeast h l → IsLeast h (self ∷ peers))
    → (IsLeast self (self ∷ peers) → IsLeast self l)
    → (All (λ _. ⊥) l → ⊥)
    → (is_first self l ≡ true) ↔ IsLeast self peers
first_of self peers [] led from to filled = absurd (filled tt)
first_of self peers (h ∷ l) led from to filled =
    let all : IsLeast h (self ∷ peers) = from h (str_lt_irrefl h, led) in
    (
      (λ first.
          IsLeast-weaken h self peers (rw (eq_of_str_eq h self first) (str_lt_irrefl self)) all.1),
      (λ least.
          rw (str_lt_total h self (to (str_lt_irrefl self, least)).0 all.0) (str_eq_refl self)),
    )

-- The element stands first in the sorted list exactly if no other is less.
pub is_first-sort :
    (self : Text) (peers : List Text)
    → (is_first self (sort str_lt (self ∷ peers)) ≡ true) ↔ IsLeast self peers
is_first-sort self peers =
    first_of self peers (sort str_lt (self ∷ peers)) (sort-Led (self ∷ peers))
      (λ h. All-sort (λ y. str_lt y h ≡ false) (self ∷ peers))
      (sort-All str_lt (λ y. str_lt y self ≡ false) (self ∷ peers))
      (λ none_left. (All-sort (λ _. ⊥) (self ∷ peers) none_left).0)

pub IsLeast-exists : (x : Text) (l : List Text) → (h : Text) × Occurs h (x ∷ l) × IsLeast h (x ∷ l)
IsLeast-exists x [] = (x, inl refl, (str_lt_irrefl x, tt))
IsLeast-exists x (y ∷ l) =
    let (h, here, least) = IsLeast-exists y l in
    elim (Bool-cases (str_lt x h)) [
      | inl c ↦
          (x, inl refl, (str_lt_irrefl x, IsLeast-weaken h x (y ∷ l) (str_lt_asymm x h c) least))
      | inr c ↦ (h, inr here, (c, least))
    ]
