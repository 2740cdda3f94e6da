-- ===== src/Subscribe/Unique.antt =====
-- clashimport.go, uniqueName: the name that a proxy is imported under, and that the search ends.
use singboxhub.Prelude.{
  ℕ, zero, suc, ◌≤◌, ◌<◌, ◌≡◌, ◌≢◌, refl, inl, inr, String, Bool, true, false, Option, none, some,
  [], ◌∷◌, arith, eq_iff, if◌then◌else◌, Bool-cases, length,
}
use singboxhub.Prelude.Dict.{Dict, has, get, del, get-del}
use singboxhub.Prelude.Itoa.{itoa, itoa_inj}
use Prim.Native.String.{◌++◌ as ◌++ˢ◌}
use text.Mathlib.TextLemmas.{append_cancel_left}

unfoldable pub candidate : String → ℕ → String
candidate name i = name ++ˢ " #" ++ˢ itoa i

-- The `for` loop from i, with the number of rounds it may take.
unfoldable pub find_name : ℕ → ℕ → String → Dict Bool → Option String
unfolding candidate
find_name zero i name seen = none
find_name (suc f) i name seen =
    let rest = find_name f (suc i) name seen in
    if has (candidate name i) seen then rest else some (candidate name i)

abbrev or_name : Option String → String → String
or_name none name = name
or_name (some s) name = s

-- The loop finds a name within one round more than there are names seen, so `or_name` never falls back.
unfoldable pub unique_name : String → Dict Bool → String
unfolding find_name
unique_name name seen =
    if has name seen then or_name (find_name (suc (length seen)) 2 name seen) name else name

candidate_inj : (name : String) (i j : ℕ) → candidate name i ≡ candidate name j → i ≡ j
unfolding candidate
candidate_inj name i j e = itoa_inj i j (
    append_cancel_left " #" (itoa i) (itoa j)
      (append_cancel_left name (" #" ++ˢ itoa i) (" #" ++ˢ itoa j) e))

length-del : (k : String) (m : Dict Bool) → length (del k m) ≤ length m
unfolding del
length-del k [] = omega arith
length-del k ((j, b) ∷ m) = ground (arith, length-del k m)

del_shrinks : (k : String) (m : Dict Bool) → has k m ≡ true → length (del k m) < length m
unfolding del has get
del_shrinks k [] h = absurd (cc h)
del_shrinks k ((j, b) ∷ m) h = ground (arith, length-del k m, del_shrinks k m)

has-del_other : (k j : String) (m : Dict Bool) → k ≢ j → has j m ≡ true → has j (del k m) ≡ true
unfolding has
has-del_other k j m differs h =
    let stays : get j (del k m) ≡ get j m = ground (arith, get-del k j m, eq_iff k j) in
    rw (has, stays) h

-- With more rounds than entries of `left`, which holds every later candidate that is seen, the loop
-- finds a name that is not seen.
find_name-left :
    (f i : ℕ) (name : String) (seen left : Dict Bool)
    → length left < f
    → ((j : ℕ) → i ≤ j → has (candidate name j) seen ≡ true → has (candidate name j) left ≡ true)
    → (s : String) × (find_name f i name seen ≡ some s) × (has s seen ≡ false)
unfolding find_name
find_name-left zero i name seen left h sub = absurd (omega arith)
find_name-left (suc f) i name seen left h sub = elim (Bool-cases (has (candidate name i) seen)) [
  | inl taken ↦
      rw (taken, find_name)
        (find_name-left f (suc i) name seen (del (candidate name i) left)
          (omega (arith, del_shrinks (candidate name i) left (sub i (omega arith) taken)))
          (λ j. λ later. λ seen_j.
            has-del_other (candidate name i) (candidate name j) left
              (λ e. absurd (omega (arith, candidate_inj name i j e))) (sub j (omega arith) seen_j)))
  | inr free ↦ rw (free, find_name) (candidate name i, refl, free)
]

-- With one round more than there are names seen, the search of uniqueName ends, and what it ends with
-- is not among them.
pub find_name_lem :
    (f i : ℕ) (name : String) (seen : Dict Bool)
    → length seen < f
    → (s : String) × (find_name f i name seen ≡ some s) × (has s seen ≡ false)
find_name_lem f i name seen h = find_name-left f i name seen seen h (λ j. λ later. λ e. e)

-- The name that uniqueName gives is not among the names seen, and is the proxy's own where that is not.
pub unique_name_lem :
    (name : String) (seen : Dict Bool)
    → (has (unique_name name seen) seen ≡ false)
      × (has name seen ≡ false → unique_name name seen ≡ name)
unfolding unique_name
unique_name_lem name seen =
    let (s, found, fresh) = find_name_lem (suc (length seen)) 2 name seen (omega arith) in
    elim (Bool-cases (has name seen)) [
      | inl taken ↦ (rw (taken, unique_name, found) fresh, λ e. absurd (cc (e, taken)))
      | inr free ↦ (rw (free, unique_name) free, λ e. rw (free, unique_name) refl)
    ]
