-- ===== src/Prelude/Splitting.antt =====
-- `strings.Split` by one byte, `strings.Contains`, and their laws.

use Prim.Native.Nat.{ℕ}
use mathlib.Core.Path.{◌≡◌, refl, sym, ap, ◌∙◌}
use mathlib.Core.Logic.{inl, inr}
use mathlib.Core.Bool.{Bool, true, false, ◌||◌}
use mathlib.Core.Option.{Option, none, some}
use mathlib.Core.List.{List, [], ◌∷◌, ◌++◌, reverse, reverse-append, reverse-reverse}
use native.Mathlib.Omega.{arith}
use tailkitd.Prelude.Tests.{◌==◌, if◌then◌else◌, ==_iff, Bool-cases}
use tailkitd.Prelude.Strings.{Text, has_prefix, has_suffix, is_space, contains_byte}
use tailkitd.Prelude.Lists.{All}

abbrev cons_head : ℕ → List Text → List Text
cons_head c [] = (c ∷ []) ∷ []
cons_head c (part ∷ parts) = (c ∷ part) ∷ parts

-- The parts between the bytes `sep`; there is always one.
unfoldable pub split : ℕ → Text → List Text
split sep [] = [] ∷ []
split sep (c ∷ s) = let parts = split sep s in if c == sep then [] ∷ parts else cons_head c parts

unfoldable pub join : ℕ → List Text → Text
join sep [] = []
join sep (part ∷ []) = part
join sep (part ∷ next ∷ parts) = part ++ sep ∷ join sep (next ∷ parts)

-- `strings.Contains`
unfoldable pub contains : Text → Text → Bool
unfolding has_prefix
contains [] p = has_prefix [] p
contains (c ∷ s) p = has_prefix (c ∷ s) p || contains s p

abbrev cut_behind : ℕ → Option (Text × Text) → Option (Text × Text)
cut_behind c none = none
cut_behind c (some (before, after)) = some (c ∷ before, after)

-- `strings.Cut` at one byte; `none` if it is not there.
unfoldable pub cut : ℕ → Text → Option (Text × Text)
cut sep [] = none
cut sep (c ∷ s) = let rest = cut sep s in if c == sep then some ([], s) else cut_behind c rest

abbrev pub NotNil : List Text → Type 0
NotNil [] = ⊥
NotNil (part ∷ parts) = Unit

pub split-NotNil : (sep : ℕ) (s : Text) → NotNil (split sep s)
unfolding split
split-NotNil sep [] = tt
split-NotNil sep (c ∷ s) = elim (Bool-cases (c == sep)) [
  | inl e ↦ rw e tt
  | inr e ↦ rw e (cons_head-NotNil c (split sep s))
]
  where
    cons_head-NotNil : (c : ℕ) (parts : List Text) → NotNil (cons_head c parts)
    cons_head-NotNil c [] = tt
    cons_head-NotNil c (part ∷ parts) = tt

join-cons_head :
    (sep c : ℕ) (parts : List Text)
    → NotNil parts
    → join sep (cons_head c parts) ≡ c ∷ join sep parts
unfolding join
join-cons_head sep c [] h = absurd h
join-cons_head sep c (part ∷ []) h = refl
join-cons_head sep c (part ∷ next ∷ parts) h = refl

join-nil :
    (sep : ℕ) (parts : List Text) → NotNil parts → join sep ([] ∷ parts) ≡ sep ∷ join sep parts
unfolding join
join-nil sep [] h = absurd h
join-nil sep (part ∷ parts) h = refl

pub join-split : (sep : ℕ) (s : Text) → join sep (split sep s) ≡ s
unfolding split join
join-split sep [] = refl
join-split sep (c ∷ s) = elim (Bool-cases (c == sep)) [
  | inl e ↦
      rw e (
        join-nil sep (split sep s) (split-NotNil sep s) ∙ cc (join-split sep s, (==_iff c sep).0 e))
  | inr e ↦
      rw e (
        join-cons_head sep c (split sep s) (split-NotNil sep s)
        ∙ ap (λ t. c ∷ t) (join-split sep s))
]

pub has_prefix-append : (p s : Text) → has_prefix (p ++ s) p ≡ true
unfolding has_prefix
has_prefix-append [] s = refl
has_prefix-append (c ∷ p) s = ground (arith, has_prefix-append p s)

pub contains-append : (a p s : Text) → contains (a ++ p ++ s) p ≡ true
unfolding contains
contains-append [] [] [] = refl
contains-append [] [] (c ∷ s) = refl
contains-append [] (c ∷ p) s = rw (has_prefix-append (c ∷ p) s)
contains-append (c ∷ a) p s = ground (arith, contains-append a p s)

cons_head-append :
    (c : ℕ) (parts more : List Text)
    → NotNil parts
    → cons_head c (parts ++ more) ≡ cons_head c parts ++ more
cons_head-append c [] more h = absurd h
cons_head-append c (part ∷ parts) more h = refl

pub split-append : (sep : ℕ) (a b : Text) → split sep (a ++ sep ∷ b) ≡ split sep a ++ split sep b
unfolding split
split-append sep [] b = rw ((==_iff sep sep).1 refl) refl
split-append sep (c ∷ a) b = elim (Bool-cases (c == sep)) [
  | inl e ↦ rw e (ap (λ t. [] ∷ t) (split-append sep a b))
  | inr e ↦
      rw (e, split-append sep a b)
        (cons_head-append c (split sep a) (split sep b) (split-NotNil sep a))
]

abbrev pub Lacks : ℕ → Text → Type 0
Lacks sep part = contains_byte sep part ≡ false

pub split_one : (sep : ℕ) (part : Text) → Lacks sep part → split sep part ≡ part ∷ []
unfolding split contains_byte
split_one sep [] h = refl
split_one sep (c ∷ part) h =
    let here : (c == sep) ≡ false = ground (arith, h) in
    let there : contains_byte sep part ≡ false = ground (arith, h) in
    rw (here, split_one sep part there) refl

cons_head-Lacks :
    (sep c : ℕ) (parts : List Text)
    → (c == sep) ≡ false
    → All (Lacks sep) parts
    → All (Lacks sep) (cons_head c parts)
unfolding contains_byte
cons_head-Lacks sep c [] e h = (rw e refl, tt)
cons_head-Lacks sep c (part ∷ parts) e h = (rw e h.0, h.1)

pub split-Lacks : (sep : ℕ) (s : Text) → All (Lacks sep) (split sep s)
unfolding split contains_byte
split-Lacks sep [] = (refl, tt)
split-Lacks sep (c ∷ s) = elim (Bool-cases (c == sep)) [
  | inl e ↦ rw e (refl, split-Lacks sep s)
  | inr e ↦ rw e (cons_head-Lacks sep c (split sep s) e (split-Lacks sep s))
]

pub split-join :
    (sep : ℕ) (part : Text) (parts : List Text)
    → All (Lacks sep) (part ∷ parts)
    → split sep (join sep (part ∷ parts)) ≡ part ∷ parts
unfolding join
split-join sep part [] h = split_one sep part h.0
split-join sep part (next ∷ parts) h =
    split-append sep part (join sep (next ∷ parts))
    ∙ rw (split_one sep part h.0, split-join sep next parts h.1) refl

pub has_prefix_cut : (s p : Text) → has_prefix s p ≡ true → (t : Text) × (s ≡ p ++ t)
unfolding has_prefix
has_prefix_cut s [] h = (s, refl)
has_prefix_cut [] (p ∷ ps) h = cc h
has_prefix_cut (c ∷ s) (p ∷ ps) h =
    let same : c ≡ p = ground (arith, h) in
    let (t, e) = has_prefix_cut s ps (ground (arith, h)) in (t, cc (same, e))

pub has_suffix_cut : (s p : Text) → has_suffix s p ≡ true → (t : Text) × (s ≡ t ++ p)
unfolding has_suffix
has_suffix_cut s p h =
    let (t, e) = has_prefix_cut (reverse s) (reverse p) h in
    (
      reverse t,
      sym (reverse-reverse s)
          ∙ ap reverse e
          ∙ reverse-append (reverse p) t
          ∙ ap (λ q. reverse t ++ q) (reverse-reverse p),
    )

pub cut-append : (sep : ℕ) (a b : Text) → Lacks sep a → cut sep (a ++ sep ∷ b) ≡ some (a, b)
unfolding cut contains_byte
cut-append sep [] b h = rw ((==_iff sep sep).1 refl) refl
cut-append sep (c ∷ a) b h =
    let here : (c == sep) ≡ false = ground (arith, h) in
    let there : contains_byte sep a ≡ false = ground (arith, h) in
    rw (here, cut-append sep a b there) refl

abbrev emit : Text → List Text → List Text
emit [] words = words
emit (c ∷ word) words = reverse (c ∷ word) ∷ words

-- The words, with the bytes of the current one in reverse
fields_from : Text → Text → List Text
fields_from word [] = emit word []
fields_from word (c ∷ s) =
    let ended = fields_from [] s in
    let longer = fields_from (c ∷ word) s in if is_space c then emit word ended else longer

-- `strings.Fields`
unfoldable pub fields : Text → List Text
unfolding fields_from
fields s = fields_from [] s
