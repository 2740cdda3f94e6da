-- ===== src/Prelude/Decimal.antt =====
-- Decimal text of a number, as `strconv` and `fmt` write and read it, over ASCII codes.
use Prim.Native.Nat.{ℕ, zero, suc, ◌+◌, ◌-◌, ◌*◌, ◌/◌, ◌%◌, ◌<◌}
use mathlib.Core.Path.{◌≡◌, refl, ap, ◌∙◌}
use mathlib.Core.Logic.{inl, inr}
use mathlib.Core.Bool.{Bool, true, false, ◌&&◌}
use mathlib.Core.Option.{Option, none, some}
use mathlib.Core.List.{List, [], ◌∷◌, ◌++◌}
use native.Mathlib.Omega.{arith}
use singboxhub.Prelude.Tests.{ltb, leb, if◌then◌else◌, Bool-cases}

unfoldable pub print_fuel : ℕ → ℕ → List ℕ
print_fuel zero n = []
print_fuel (suc f) n =
    let more = print_fuel f (n / 10) ++ (b'0' + n % 10) ∷ [] in
    if ltb n 10 then (b'0' + n) ∷ [] else more

-- A number has no more digits than its value, and zero has one.
unfoldable pub print_decimal : ℕ → List ℕ
unfolding print_fuel
print_decimal n = print_fuel (suc n) n

abbrev is_digit : ℕ → Bool
is_digit c = leb b'0' c && leb c b'9'

-- One more digit; `none` at any other byte.
add_digit : Option ℕ → ℕ → Option ℕ
add_digit none c = none
add_digit (some n) c = if is_digit c then some (n * 10 + (c - b'0')) else none

read_digits : Option ℕ → List ℕ → Option ℕ
read_digits acc [] = acc
read_digits acc (c ∷ cs) = read_digits (add_digit acc c) cs

-- A text of digits with no sign; the empty text is refused.
unfoldable pub parse_decimal : List ℕ → Option ℕ
unfolding read_digits add_digit
parse_decimal [] = none
parse_decimal (c ∷ cs) = read_digits (some 0) (c ∷ cs)

read_digits-append :
    (xs ys : List ℕ) (acc : Option ℕ)
    → read_digits acc (xs ++ ys) ≡ read_digits (read_digits acc xs) ys
unfolding read_digits
read_digits-append [] ys acc = refl
read_digits-append (x ∷ xs) ys acc = read_digits-append xs ys (add_digit acc x)

read_digits-print_fuel : (f n : ℕ) → n < f → read_digits (some 0) (print_fuel f n) ≡ some n
unfolding print_fuel
read_digits-print_fuel zero n h = absurd (omega arith)
read_digits-print_fuel (suc f) n h = elim (Bool-cases (ltb n 10)) [
  | inl small ↦ rw small (unfold read_digits add_digit in ground arith)
  | inr large ↦ rw large (
      read_digits-append (print_fuel f (n / 10)) ((b'0' + n % 10) ∷ []) (some 0)
      ∙ ap (λ acc. read_digits acc ((b'0' + n % 10) ∷ []))
          (read_digits-print_fuel f (n / 10) (ground arith))
      ∙ (unfold read_digits add_digit in ground arith))
]

print_fuel_cons : (f n : ℕ) → (c : ℕ) × (cs : List ℕ) × (print_fuel (suc f) n ≡ c ∷ cs)
unfolding print_fuel
print_fuel_cons f n = pick (ltb n 10) (print_fuel f (n / 10))
  where
    pick :
        (b : Bool) (xs : List ℕ)
        → (c : ℕ) × (cs : List ℕ) × ((if b then (b'0' + n) ∷ [] else xs ++ (b'0' + n % 10) ∷ [])
            ≡ c ∷ cs)
    pick true xs = (b'0' + n, [], refl)
    pick false [] = (b'0' + n % 10, [], refl)
    pick false (x ∷ xs) = (x, xs ++ (b'0' + n % 10) ∷ [], refl)

pub parse_decimal-print_decimal : (n : ℕ) → parse_decimal (print_decimal n) ≡ some n
unfolding parse_decimal print_decimal
parse_decimal-print_decimal n =
    let (c, cs, e) = print_fuel_cons n n in
    rw e (rw e at (read_digits-print_fuel (suc n) n (omega arith)))
