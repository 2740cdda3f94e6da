-- ===== src/Prelude/Itoa.antt =====
-- Decimal numbers as text: `strconv.Itoa` on the numbers that are not negative.
use Prim.Native.Nat.{ℕ, zero, suc, ◌+◌, ◌/◌, ◌%◌, ◌<◌}
use Prim.Native.Char.{Char, code}
use Prim.Native.String.{String, ◌++◌ as ◌++ˢ◌}
use mathlib.Core.Path.{◌≡◌, refl, sym, ap, ◌∙◌}
use mathlib.Core.Logic.{inl, inr}
use mathlib.Core.List.{List, [], ◌∷◌, ◌++◌}
use native.Mathlib.Omega.{arith}
use text.Mathlib.TextLemmas.{nil-append, cons-append}
use singboxhub.Prelude.Tests.{ltb, if◌then◌else◌, Bool-cases}
use singboxhub.Prelude.Lists.{length, get_or}
use singboxhub.Prelude.Bytes.{bytes_of}
use singboxhub.Prelude.Decimal.{
  print_decimal, print_fuel, parse_decimal, parse_decimal-print_decimal,
}

abbrev digits : List Char
digits = "0" ∷ "1" ∷ "2" ∷ "3" ∷ "4" ∷ "5" ∷ "6" ∷ "7" ∷ "8" ∷ "9" ∷ []

abbrev digit : ℕ → Char
digit n = get_or digits n "0"

itoa_fuel : ℕ → ℕ → String
itoa_fuel zero n = String.[]
itoa_fuel (suc f) n =
    let more = itoa_fuel f (n / 10) ++ˢ String.◌∷◌ (digit (n % 10)) String.[] in
    if ltb n 10 then String.◌∷◌ (digit n) String.[] else more

-- A number has no more digits than its value, and zero has one.
unfoldable pub itoa : ℕ → String
unfolding itoa_fuel
itoa n = itoa_fuel (suc n) n

-- The characters have consecutive codes from k.
abbrev IsRun : ℕ → List Char → Type 0
IsRun k [] = Unit
IsRun k (c ∷ cs) = (code c ≡ k) × IsRun (suc k) cs

code-get_or :
    (k : ℕ) (cs : List Char) (d : ℕ) → IsRun k cs → d < length cs → code (get_or cs d "0") ≡ k + d
code-get_or k [] d r h = absurd (omega arith)
code-get_or k (c ∷ cs) zero r h = omega (arith, r.0)
code-get_or k (c ∷ cs) (suc d) r h = omega (arith, code-get_or (suc k) cs d r.1 (omega arith))

code-digit : (d : ℕ) → d < 10 → code (digit d) ≡ b'0' + d
code-digit d h =
    code-get_or b'0' digits d
      (refl, (refl, (refl, (refl, (refl, (refl, (refl, (refl, (refl, (refl, tt)))))))))) h

bytes_of-append : (s t : String) → bytes_of (s ++ˢ t) ≡ bytes_of s ++ bytes_of t
bytes_of-append String.[] t = ap bytes_of (nil-append t)
bytes_of-append (String.◌∷◌ c s) t =
    ap bytes_of (cons-append c s t) ∙ ap (◌∷◌ (code c)) (bytes_of-append s t)

bytes_of-itoa_fuel : (f n : ℕ) → bytes_of (itoa_fuel f n) ≡ print_fuel f n
unfolding itoa_fuel print_fuel
bytes_of-itoa_fuel zero n = refl
bytes_of-itoa_fuel (suc f) n = elim (Bool-cases (ltb n 10)) [
  | inl small ↦ rw (small, itoa_fuel) (ap (λ c. c ∷ []) (code-digit n (ground arith)))
  | inr large ↦
      rw (large, itoa_fuel)
        (bytes_of-append (itoa_fuel f (n / 10)) (String.◌∷◌ (digit (n % 10)) String.[])
          ∙ rw (bytes_of-itoa_fuel f (n / 10))
              (ap (λ c. print_fuel f (n / 10) ++ c ∷ []) (code-digit (n % 10) (omega arith))))
]

pub itoa_inj : (m n : ℕ) → itoa m ≡ itoa n → m ≡ n
unfolding itoa print_decimal
itoa_inj m n e = cc (
  parse_decimal-print_decimal m,
  parse_decimal-print_decimal n,
  ap parse_decimal
      (sym (bytes_of-itoa_fuel (suc m) m) ∙ ap bytes_of e ∙ bytes_of-itoa_fuel (suc n) n),
)
