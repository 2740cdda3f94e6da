-- ===== src/Prelude/Bytes.antt =====
-- Text as its bytes, for the code that takes it apart; what `strings` gives for ASCII text.
use Prim.Native.Nat.{ℕ, ◌+◌, ◌-◌}
use Prim.Native.Char.{code}
use Prim.Native.String.{String}
use mathlib.Core.Path.{◌≡◌, refl}
use mathlib.Core.Bool.{Bool, true, false, ◌&&◌}
use mathlib.Core.List.{List, [], ◌∷◌, map}
use native.Mathlib.Omega.{arith}
use singboxhub.Prelude.Tests.{leb, ◌==◌, if◌then◌else◌}
use singboxhub.Prelude.Lists.{length, drop}

-- The bytes of an ASCII text.
abbrev pub bytes_of : String → List ℕ
bytes_of String.[] = []
bytes_of (String.◌∷◌ c s) = code c ∷ bytes_of s

unfoldable pub eq_bytes : List ℕ → List ℕ → Bool
eq_bytes [] [] = true
eq_bytes [] (_ ∷ _) = false
eq_bytes (_ ∷ _) [] = false
eq_bytes (x ∷ xs) (y ∷ ys) = (x == y) && eq_bytes xs ys

-- `strings.HasSuffix`
unfoldable pub has_suffix : List ℕ → List ℕ → Bool
unfolding eq_bytes
has_suffix s suffix =
    leb (length suffix) (length s) && eq_bytes (drop (length s - length suffix) s) suffix

-- `strings.ToLower`
unfoldable pub to_lower : List ℕ → List ℕ
to_lower s = map (λ c. if leb b'A' c && leb c b'Z' then c + 32 else c) s

pub eq_bytes_sound : (xs ys : List ℕ) → eq_bytes xs ys ≡ true → xs ≡ ys
unfolding eq_bytes
eq_bytes_sound [] [] e = refl
eq_bytes_sound [] (_ ∷ _) e = absurd (cc e)
eq_bytes_sound (_ ∷ _) [] e = absurd (cc e)
eq_bytes_sound (x ∷ xs) (y ∷ ys) e = ground (arith, eq_bytes_sound xs ys, e)

-- `strings.HasPrefix`
unfoldable pub has_prefix : List ℕ → List ℕ → Bool
has_prefix s [] = true
has_prefix [] (_ ∷ _) = false
has_prefix (x ∷ xs) (y ∷ ys) = (x == y) && has_prefix xs ys

-- `strings.Contains`
unfoldable pub contains : List ℕ → List ℕ → Bool
unfolding has_prefix
contains [] part = has_prefix [] part
contains (x ∷ xs) part =
    let rest = contains xs part in if has_prefix (x ∷ xs) part then true else rest
