-- ===== src/Prelude/TextOrder.antt =====
-- The order of texts, which is that of their bytes.
use Prim.Native.Nat.{ℕ, Ordering, compare as compare_ℕ}
use Prim.Native.Char.{code}
use Prim.Native.String.{String, compare, then}
use Prim.Native.String.compare
use mathlib.Core.Path.{◌≡◌, refl, ◌∙◌, ap}
use mathlib.Core.Bool.{Bool, true, false}
use text.Mathlib.TextEquality.{Char-path}
use native.Mathlib.Omega.{arith}

abbrev is_lt : Ordering → Bool
is_lt Ordering.lt = true
is_lt _ = false

-- `a < b` on strings.
abbrev pub is_before : String → String → Bool
is_before a b = is_lt (compare a b)

is_lt_irrefl : (m : ℕ) (o : Ordering) → is_lt o ≡ false → is_lt (then (compare_ℕ m m) o) ≡ false
is_lt_irrefl m o h = ground (arith, h)

is_lt_trans :
    (m n k : ℕ) (o p q : Ordering)
    → (is_lt o ≡ true → is_lt p ≡ true → is_lt q ≡ true)
    → is_lt (then (compare_ℕ m n) o) ≡ true
    → is_lt (then (compare_ℕ n k) p) ≡ true
    → is_lt (then (compare_ℕ m k) q) ≡ true
is_lt_trans m n k o p q rest h h' = ground (arith, rest, h, h')

pub is_before_irrefl : (a : String) → is_before a a ≡ false
is_before_irrefl String.[] = refl
is_before_irrefl (String.◌∷◌ c s) =
    rw (compare.cons-cons c c s s) (is_lt_irrefl (code c) (compare s s) (is_before_irrefl s))

pub is_before_trans :
    (a b c : String) → is_before a b ≡ true → is_before b c ≡ true → is_before a c ≡ true
is_before_trans String.[] String.[] u h k = absurd (cc h)
is_before_trans String.[] (String.◌∷◌ d t) String.[] h k =
    absurd (cc (rw (compare.cons-nil d t) at k))
is_before_trans String.[] (String.◌∷◌ d t) (String.◌∷◌ e u) h k = rw (compare.nil-cons e u) refl
is_before_trans (String.◌∷◌ c s) String.[] u h k = absurd (cc (rw (compare.cons-nil c s) at h))
is_before_trans (String.◌∷◌ c s) (String.◌∷◌ d t) String.[] h k =
    absurd (cc (rw (compare.cons-nil d t) at k))
is_before_trans (String.◌∷◌ c s) (String.◌∷◌ d t) (String.◌∷◌ e u) h k =
    rw (compare.cons-cons c e s u) (
      is_lt_trans (code c) (code d) (code e) (compare s t) (compare t u) (compare s u)
        (is_before_trans s t u) (rw (compare.cons-cons c d s t) at h)
        (rw (compare.cons-cons d e t u) at k))

-- Two texts, none before the other.
is_lt-then :
    (m n : ℕ) (o p : Ordering)
    → is_lt (then (compare_ℕ m n) o) ≡ false
    → is_lt (then (compare_ℕ n m) p) ≡ false
    → (m ≡ n) × (is_lt o ≡ false) × (is_lt p ≡ false)
is_lt-then m n o p h k = (ground (arith, h, k), ground (arith, h, k), ground (arith, h, k))

pub is_before_total : (a b : String) → is_before a b ≡ false → is_before b a ≡ false → a ≡ b
is_before_total String.[] String.[] h k = refl
is_before_total String.[] (String.◌∷◌ d t) h k = absurd (cc (rw (compare.nil-cons d t) at h))
is_before_total (String.◌∷◌ c s) String.[] h k = absurd (cc (rw (compare.nil-cons c s) at k))
is_before_total (String.◌∷◌ c s) (String.◌∷◌ d t) h k =
    let (same, before, after) =
      is_lt-then (code c) (code d) (compare s t) (compare t s) (rw (compare.cons-cons c d s t) at h)
        (rw (compare.cons-cons d c t s) at k) in
    ap (λ x. String.◌∷◌ x s) (Char-path c d same)
    ∙ ap (λ r. String.◌∷◌ d r) (is_before_total s t before after)
