-- ===== src/Prelude/Dict.antt =====
-- A Go map with string keys, as an association list. Go leaves the order of an iteration open;
-- here it is the order of insertion, and statements about an iteration speak of lookups or sums.
use Prim.Native.Nat.{ℕ, ◌+◌}
use Prim.Native.String.{String}
use mathlib.Core.Path.{◌≡◌, refl, sym, ◌∙◌}
use mathlib.Core.Logic.{◌≢◌, inl, inr}
use mathlib.Core.Bool.{Bool, true, false}
use mathlib.Core.Option.{Option, none, some}
use mathlib.Core.List.{List, [], ◌∷◌}
use native.Mathlib.Omega.{arith}
use text.Mathlib.Text.{◌==◌, ◌==◌ as str_eq}
use text.Mathlib.TextEquality.{eq_iff}
use singboxhub.Prelude.Tests.{if◌then◌else◌, Bool-cases}

abbrev pub Dict {ℓ} : Type ℓ → Type ℓ
Dict V = List (String × V)

module _ {ℓ} {V : Type ℓ} where
  unfoldable pub get : String → Dict V → Option V
  get k [] = none
  get k ((j, v) ∷ m) = if j == k then some v else get k m

  unfoldable pub put : String → V → Dict V → Dict V
  put k v [] = (k, v) ∷ []
  put k v ((j, w) ∷ m) = if j == k then (k, v) ∷ m else (j, w) ∷ put k v m

  unfoldable pub del : String → Dict V → Dict V
  del k [] = []
  del k ((j, v) ∷ m) = let rest = del k m in if j == k then rest else (j, v) ∷ rest

  unfoldable pub has : String → Dict V → Bool
  unfolding get
  has k m = elim (get k m) [ none ↦ false | some _ ↦ true ]

  pub get-empty : (k : String) → get k [] ≡ none
  unfolding get
  get-empty k = refl

  pub get-put :
      (k j : String) (v : V) (m : Dict V) → get j (put k v m) ≡ (if k == j then some v else get j m)
  unfolding get put
  get-put k j v [] = refl
  get-put k j v ((i, w) ∷ m) = ground (arith, eq_iff k j, eq_iff i k, eq_iff i j, get-put k j v m)

  pub get-put_self : (k : String) (v : V) (m : Dict V) → get k (put k v m) ≡ some v
  get-put_self k v m = rw (get-put, (eq_iff k k).1 refl)

  pub get-del : (k j : String) (m : Dict V) → get j (del k m) ≡ (if k == j then none else get j m)
  unfolding get del
  get-del k j [] = ground arith
  get-del k j ((i, w) ∷ m) = ground (arith, get-del k j m, eq_iff i k, eq_iff i j, eq_iff k j)

  -- Σ f v over the entries.
  abbrev pub total : (V → ℕ) → Dict V → ℕ
  total f [] = 0
  total f ((k, v) ∷ m) = f v + total f m

  -- What the entry of a key adds to `total f`.
  abbrev pub share : (V → ℕ) → Option V → ℕ
  share f none = 0
  share f (some v) = f v

  pub total-put :
      (f : V → ℕ) (k : String) (v : V) (m : Dict V)
      → total f (put k v m) + share f (get k m) ≡ total f m + f v
  unfolding get put
  total-put f k v [] = omega arith
  total-put f k v ((j, w) ∷ m) = ground (arith, total-put f k v m)

pub ruleset dict_laws = (get-empty, get-put, get-del)

-- No key stands twice.
abbrev pub IsUnique {ℓ} : {V : Type ℓ} → Dict V → Type ℓ
IsUnique [] = Unit
IsUnique ((k, v) ∷ m) = (get k m ≡ none) × IsUnique m

module _ {ℓ} {V : Type ℓ} where
  pub put-IsUnique : (k : String) (v : V) (m : Dict V) → IsUnique m → IsUnique (put k v m)
  unfolding put
  put-IsUnique k v [] u = (get-empty k, tt)
  put-IsUnique k v ((j, w) ∷ m) u = elim (Bool-cases (j == k)) [
    | inl same ↦ rw same (rw ((eq_iff j k).0 same) at u.0, u.1)
    | inr other ↦
        rw other
          (get-put k j v m ∙ ground (arith, eq_iff k j, eq_iff j k, u.0), put-IsUnique k v m u.1)
  ]

-- A key that is not there after another was noted is neither that one nor an older one.
pub has-put-false :
    (k j : String) (seen : Dict Bool)
    → has j (put k true seen) ≡ false
    → (j ≢ k) × (has j seen ≡ false)
unfolding has
has-put-false k j seen h = elim (Bool-cases (str_eq k j)) [
  | inl same ↦ absurd (cc (rw (has, get-put k j true seen, same) at h))
  | inr differs ↦ (
    (λ e. absurd (cc ((eq_iff k j).1 (sym e), differs))),
    rw (has, get-put k j true seen, differs) at h,
  )
]

pub has-put_self : (k : String) (seen : Dict Bool) → has k (put k true seen) ≡ true
unfolding has
has-put_self k seen = rw (has, get-put_self k true seen) refl

pub has-put_other :
    (k j : String) (seen : Dict Bool) → has j seen ≡ true → has j (put k true seen) ≡ true
unfolding has
has-put_other k j seen h = elim (Bool-cases (str_eq k j)) [
  | inl same ↦ rw (has, get-put k j true seen, same) refl
  | inr differs ↦ rw (has, get-put k j true seen, differs) h
]
