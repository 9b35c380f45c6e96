-- ===== src/Prelude/Decimal.antt =====
-- Go's signed 64-bit integers, `%d` of package `fmt` and `strconv.ParseInt(s, 10, 64)`.
use Prim.Native.Nat.{ℕ, zero, suc, ◌+◌, ◌-◌, ◌*◌, ◌/◌, ◌%◌, ◌<◌}
use mathlib.Core.Path.{◌≡◌, refl, ◌∙◌}
use mathlib.Core.Logic.{◌≢◌, inl, inr}
use mathlib.Core.Bool.{Bool, true, false, ◌&&◌}
use mathlib.Core.Option.{Option, none, some}
use mathlib.Core.List.{[], ◌∷◌}
use native.Mathlib.Omega.{arith}
use tailkitd.Prelude.Tests.{ltb, leb, ◌==◌, if◌then◌else◌, Bool-cases}
use tailkitd.Prelude.Strings.{Text, is_space}
use tailkitd.Prelude.Lists.{All}
use tailkitd.Prelude.Trim.{NotSpace}

is_digit : ℕ → Bool
is_digit c = leb b'0' c && leb c b'9'

-- The fuel is one more than the number, which has fewer digits than that.
print_onto : ℕ → ℕ → Text → Text
print_onto zero n acc = acc
print_onto (suc f) n acc =
    let rest = print_onto f (n / 10) ((48 + n % 10) ∷ acc) in
    if ltb n 10 then (48 + n) ∷ acc else rest

unfoldable pub print_nat : ℕ → Text
unfolding print_onto
print_nat n = print_onto (suc n) n []

parse_from : ℕ → Text → Option ℕ
unfolding is_digit
parse_from v [] = some v
parse_from v (c ∷ s) =
    let rest = parse_from (v * 10 + (c - 48)) s in if is_digit c then rest else none

unfoldable pub parse_nat : Text → Option ℕ
unfolding parse_from
parse_nat [] = none
parse_nat (c ∷ s) = parse_from 0 (c ∷ s)

parse_from-print_onto :
    (f n : ℕ) (acc : Text) → n < f → parse_from 0 (print_onto f n acc) ≡ parse_from n acc
unfolding print_onto parse_from
parse_from-print_onto zero n acc h = absurd (omega arith)
parse_from-print_onto (suc f) n acc h = elim (Bool-cases (ltb n 10)) [
  | inl small ↦ rw small (ground arith)
  | inr large ↦
      rw large
        (parse_from-print_onto f (n / 10) ((48 + n % 10) ∷ acc) (ground arith) ∙ ground arith)
]

abbrev Digits : Text → Type 0
Digits s = All (λ c. is_digit c ≡ true) s

print_onto-Digits : (f n : ℕ) (acc : Text) → Digits acc → Digits (print_onto f n acc)
unfolding print_onto is_digit
print_onto-Digits zero n acc h = h
print_onto-Digits (suc f) n acc h =
    ground (arith, print_onto-Digits f (n / 10) ((48 + n % 10) ∷ acc))

Digits-NotSpace : (s : Text) → Digits s → All NotSpace s
unfolding is_digit is_space
Digits-NotSpace [] h = tt
Digits-NotSpace (c ∷ s) h = (ground (arith, h.0), Digits-NotSpace s h.1)

-- `int64`: `negsuc n` is -(n + 1).
pub data ℤ : Type 0 where
  pos : ℕ → ℤ
  negsuc : ℕ → ℤ

abbrev pub two63 : ℕ
two63 = 9223372036854775808

abbrev pub InInt64 : ℤ → Type 0
InInt64 (pos n) = n < two63
InInt64 (negsuc n) = n < two63

unfoldable pub ltb_ℤ : ℤ → ℤ → Bool
ltb_ℤ (pos a) (pos b) = ltb a b
ltb_ℤ (pos a) (negsuc b) = false
ltb_ℤ (negsuc a) (pos b) = true
ltb_ℤ (negsuc a) (negsuc b) = ltb b a

-- `n++` on an `int64`, which wraps around.
unfoldable pub inc64 : ℤ → ℤ
inc64 (pos n) = if suc n == two63 then negsuc (two63 - 1) else pos (suc n)
inc64 (negsuc zero) = pos 0
inc64 (negsuc (suc n)) = negsuc n

-- `fmt.Sprintf("%d", n)`
unfoldable pub print_int : ℤ → Text
unfolding print_nat
print_int (pos n) = print_nat n
print_int (negsuc n) = b'-' ∷ print_nat (suc n)

to_pos : Option ℕ → Option ℤ
to_pos none = none
to_pos (some n) = if ltb n two63 then some (pos n) else none

to_neg : Option ℕ → Option ℤ
to_neg none = none
to_neg (some zero) = some (pos 0)
to_neg (some (suc n)) = if ltb n two63 then some (negsuc n) else none

-- `strconv.ParseInt(s, 10, 64)`, and `strconv.Atoi` where `int` has 64 bits
unfoldable pub parse_int : Text → Option ℤ
unfolding parse_nat to_pos to_neg
parse_int [] = none
parse_int (c ∷ s) =
    if c == b'-'
    then to_neg (parse_nat s)
    else if c == b'+'
    then to_pos (parse_nat s)
    else to_pos (parse_nat (c ∷ s))

parse_nat-parse_from : (s : Text) → s ≢ [] → parse_nat s ≡ parse_from 0 s
unfolding parse_nat
parse_nat-parse_from [] h = absurd (h refl)
parse_nat-parse_from (c ∷ s) h = refl

print_onto-cons : (f n c : ℕ) (acc : Text) → print_onto f n (c ∷ acc) ≢ []
unfolding print_onto
print_onto-cons zero n c acc e = cc
print_onto-cons (suc f) n c acc e =
    ground (arith, print_onto-cons f (n / 10) (48 + n % 10) (c ∷ acc))

print_nat-ne_nil : (n : ℕ) → print_nat n ≢ []
unfolding print_nat print_onto
print_nat-ne_nil n e = ground (arith, print_onto-cons n (n / 10) (48 + n % 10) [])

print_nat-Digits : (n : ℕ) → Digits (print_nat n)
unfolding print_nat
print_nat-Digits n = print_onto-Digits (suc n) n [] tt

pub parse_nat-print_nat : (n : ℕ) → parse_nat (print_nat n) ≡ some n
unfolding print_nat parse_from
parse_nat-print_nat n =
    parse_nat-parse_from (print_nat n) (print_nat-ne_nil n)
    ∙ parse_from-print_onto (suc n) n [] (omega arith)

parse_int-Digits : (s : Text) → Digits s → parse_int s ≡ to_pos (parse_nat s)
unfolding parse_int is_digit
parse_int-Digits [] h = refl
parse_int-Digits (c ∷ s) h = ground (arith, h.0)

-- What `%d` prints, `ParseInt` reads.
pub parse_int-print_int : (n : ℤ) → InInt64 n → parse_int (print_int n) ≡ some n
unfolding print_int to_pos
parse_int-print_int (pos n) h =
    parse_int-Digits (print_nat n) (print_nat-Digits n) ∙ rw parse_nat-print_nat (ground arith)
parse_int-print_int (negsuc n) h = unfold parse_int to_neg in rw parse_nat-print_nat (ground arith)

pub print_int-NotSpace : (n : ℤ) → All NotSpace (print_int n)
unfolding print_int is_space
print_int-NotSpace (pos n) = Digits-NotSpace (print_nat n) (print_nat-Digits n)
print_int-NotSpace (negsuc n) =
    (refl, Digits-NotSpace (print_nat (suc n)) (print_nat-Digits (suc n)))

pub inc64-InInt64 : (n : ℤ) → InInt64 n → InInt64 (inc64 n)
unfolding inc64
inc64-InInt64 (pos n) h = ground arith
inc64-InInt64 (negsuc zero) h = omega arith
inc64-InInt64 (negsuc (suc n)) h = omega arith
