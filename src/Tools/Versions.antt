-- ===== src/Tools/Versions.antt =====
-- internal/tools/registry.go: `versionAtLeast` on versions whose parts are numbers.
use tailkitd.Prelude.{
  ℕ, zero, suc, ◌+◌, ◌-◌, ◌*◌, ◌≤◌, ◌<◌, ◌≡◌, refl, sym, ◌∙◌, inl, inr, Bool, true, false, List, [],
  ◌∷◌, map, arith, length, All, split, Text, codes, str_lt, ltb, if◌then◌else◌, Bool-cases,
}
use tailkitd.Tools.{zeros, pad_parts, zero_pad, parts_at_least, without_v, version_at_least}

abbrev IsDigit : ℕ → Type 0
IsDigit c = (48 ≤ c) × (c ≤ 57)

abbrev pub AreDigits : Text → Type 0
AreDigits s = All IsDigit s

-- The number that the digits stand for, behind those that give `v`
pub value_from : ℕ → Text → ℕ
value_from v [] = v
value_from v (c ∷ s) = value_from (v * 10 + (c - 48)) s

pub value : Text → ℕ
value s = value_from 0 s

value_from-lt :
    (a b : Text) (x y : ℕ)
    → AreDigits a
    → AreDigits b
    → length a ≡ length b
    → x < y
    → value_from x a < value_from y b
unfolding value_from
value_from-lt [] [] x y da db same lt = lt
value_from-lt [] (d ∷ b) x y da db same lt = absurd (omega (arith, same))
value_from-lt (c ∷ a) [] x y da db same lt = absurd (omega (arith, same))
value_from-lt (c ∷ a) (d ∷ b) x y da db same lt =
    value_from-lt a b (x * 10 + (c - 48)) (y * 10 + (d - 48)) da.1 db.1 (omega (arith, same))
      (omega (arith, da.0, db.0))

-- Digits of one length are ordered as numbers are.
str_lt-value :
    (a b : Text) (x : ℕ)
    → AreDigits a
    → AreDigits b
    → length a ≡ length b
    → str_lt a b ≡ ltb (value_from x a) (value_from x b)
unfolding value_from str_lt
str_lt-value [] [] x da db same = ground arith
str_lt-value [] (d ∷ b) x da db same = absurd (omega (arith, same))
str_lt-value (c ∷ a) [] x da db same = absurd (omega (arith, same))
str_lt-value (c ∷ a) (d ∷ b) x da db same =
    let n : length a ≡ length b = omega (arith, same) in
    elim (Bool-cases (ltb c d)) [
      | inl below ↦
          let lt =
            value_from-lt a b (x * 10 + (c - 48)) (x * 10 + (d - 48)) da.1 db.1 n
              (ground (arith, below, da.0, db.0)) in
          ground (arith, below, lt)
      | inr p ↦ elim (Bool-cases (ltb d c)) [
        | inl above ↦
            let gt =
              value_from-lt b a (x * 10 + (d - 48)) (x * 10 + (c - 48)) db.1 da.1 (sym n)
                (ground (arith, above, da.0, db.0)) in
            ground (arith, above, gt)
        | inr q ↦
            let e : c ≡ d = ground (arith, p, q) in
            rw e (ground (arith, str_lt-value a b (x * 10 + (d - 48)) da.1 db.1 n))
      ]
    ]

zeros-digits : (n : ℕ) (s : Text) → AreDigits s → AreDigits (zeros n s)
unfolding zeros
zeros-digits zero s d = d
zeros-digits (suc n) s d = (omega arith, zeros-digits n s d)

zeros-length : (n : ℕ) (s : Text) → length (zeros n s) ≡ n + length s
unfolding zeros
zeros-length zero s = omega arith
zeros-length (suc n) s = omega (arith, zeros-length n s)

zeros-value : (n : ℕ) (s : Text) → value_from 0 (zeros n s) ≡ value_from 0 s
unfolding zeros value_from
zeros-value zero s = refl
zeros-value (suc n) s = zeros-value n s

-- Two padded parts are compared as the numbers that they stand for.
zero_pad-value :
    (h w : Text)
    → AreDigits h
    → AreDigits w
    → str_lt (zero_pad h (length w)) (zero_pad w (length h)) ≡ ltb (value h) (value w)
unfolding zero_pad value
zero_pad-value h w dh dw =
    str_lt-value (zeros (length w - length h) h) (zeros (length h - length w) w) 0
      (zeros-digits (length w - length h) h dh) (zeros-digits (length h - length w) w dw)
      (omega (arith, zeros-length (length w - length h) h, zeros-length (length h - length w) w))
    ∙ rw (zeros-value (length w - length h) h, zeros-value (length h - length w) w) refl

abbrev step : ℕ → ℕ → Bool → Bool
step h w rest = if ltb w h then true else if ltb h w then false else rest

-- The order of versions as lists of numbers: by the first number that differs, a missing one being 0
pub at_least : List ℕ → List ℕ → Bool
at_least [] [] = true
at_least [] (w ∷ ws) = step 0 w (at_least [] ws)
at_least (h ∷ hs) [] = step h 0 (at_least hs [])
at_least (h ∷ hs) (w ∷ ws) = step h w (at_least hs ws)

parts_at_least-step :
    (h w : Text) (hs ws : List Text)
    → AreDigits h
    → AreDigits w
    → parts_at_least (h ∷ hs) (w ∷ ws) ≡ step (value h) (value w) (parts_at_least hs ws)
unfolding parts_at_least
parts_at_least-step h w hs ws dh dw = rw (zero_pad-value w h dw dh, zero_pad-value h w dh dw) refl

pad_parts-nil : (ws : List Text) → pad_parts ws [] ≡ ws
unfolding pad_parts
pad_parts-nil [] = refl
pad_parts-nil (w ∷ ws) = refl

zero_digits : AreDigits (codes "0")
zero_digits = (omega arith, tt)

value_zero : value (codes "0") ≡ 0
unfolding value value_from
value_zero = omega arith

parts_at_least-numbers :
    (hs ws : List Text)
    → All AreDigits hs
    → All AreDigits ws
    → parts_at_least (pad_parts hs ws) (pad_parts ws hs) ≡ at_least (map value hs) (map value ws)
unfolding at_least pad_parts
parts_at_least-numbers [] [] dh dw = unfold parts_at_least in refl
parts_at_least-numbers [] (w ∷ ws) dh dw =
    parts_at_least-step (codes "0") w (pad_parts [] ws) ws zero_digits dw.0
    ∙ rw (value_zero, ← parts_at_least-numbers [] ws dh dw.1, pad_parts-nil ws) refl
parts_at_least-numbers (h ∷ hs) [] dh dw =
    parts_at_least-step h (codes "0") hs (pad_parts [] hs) dh.0 zero_digits
    ∙ rw (value_zero, ← parts_at_least-numbers hs [] dh.1 dw, pad_parts-nil hs) refl
parts_at_least-numbers (h ∷ hs) (w ∷ ws) dh dw =
    parts_at_least-step h w (pad_parts hs ws) (pad_parts ws hs) dh.0 dw.0
    ∙ rw (parts_at_least-numbers hs ws dh.1 dw.1) refl

abbrev pub parts_of : Text → List Text
parts_of v = split b'.' (without_v v)

-- Two versions whose parts are made of digits, as many as each has, are compared as lists of
-- numbers: the first number that differs decides, and a missing one counts as 0.
pub version_at_least-at_least :
    (have want : Text)
    → All AreDigits (parts_of have)
    → All AreDigits (parts_of want)
    → version_at_least have want ≡ at_least (map value (parts_of have)) (map value (parts_of want))
unfolding version_at_least
version_at_least-at_least have want dh dw =
    parts_at_least-numbers (parts_of have) (parts_of want) dh dw
