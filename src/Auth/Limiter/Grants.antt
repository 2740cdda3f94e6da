-- ===== src/Auth/Limiter/Grants.antt =====
-- ratelimit.go: how many events a window grants, and what waiting and collecting change.
use Prim.Native.Nat.{min}
use singboxhub.Prelude.{
  ℕ, suc, ◌+◌, ◌-◌, ◌<◌, max, String, ◌≡◌, refl, ◌∙◌, Bool, true, false, some, List, [], ◌∷◌, arith,
  leb, str_eq, eq_iff, if◌then◌else◌, All, Bool-cases, inl, inr,
}
use singboxhub.Prelude.Dict.{get, put, get-put}
use singboxhub.Auth.Limiter.{Window, Limiter, is_over, allow}

-- Events of any keys in turn, each with its time.
abbrev pub Calls : Type 0
Calls = List (String × ℕ)

abbrev if_key : String → String → Bool → ℕ
if_key k j granted = if str_eq j k then (if granted then 1 else 0) else 0

-- How many events of key `k` are allowed.
pub granted : String → Calls → Limiter → ℕ
granted k [] l = 0
granted k ((j, t) ∷ calls) l = let (ok, l') = allow j t l in if_key k j ok + granted k calls l'

abbrev pub calls_of : String → Calls → ℕ
calls_of k [] = 0
calls_of k ((j, t) ∷ calls) = if_key k j true + calls_of k calls

-- Every event of key `k` falls into the window that began at `start`.
abbrev pub Within : String → ℕ → ℕ → Calls → Type 0
Within k start per calls = All (λ c. c.0 ≡ k → c.1 - start < per) calls

-- An event of another key leaves the window of `k` and the settings alone.
allow_ne :
    (j k : String) (t : ℕ) (l : Limiter)
    → str_eq j k ≡ false
    → (get k (allow j t l).1.entries ≡ get k l.entries)
      × ((allow j t l).1.limit ≡ l.limit)
      × ((allow j t l).1.per ≡ l.per)
unfolding allow
allow_ne j k t l h = elim (Bool-cases (is_over l.per t (get j l.entries))) [
  | inl over ↦ rw over (rw (get-put, h), refl, refl)
  | inr open_ ↦ rw open_ (rw (get-put, h), refl, refl)
]

str_eq_refl : (k : String) → str_eq k k ≡ true
str_eq_refl k = (eq_iff k k).1 refl

allow_within :
    (k : String) (t : ℕ) (l : Limiter) (w : Window)
    → get k l.entries ≡ some w
    → t - w.start < l.per
    → allow k t l ≡ (
      leb (w.count + 1) l.limit,
      record l { entries = put k (record { count = w.count + 1; start = w.start }) l.entries },
    )
unfolding allow is_over
allow_within k t l w e h = rw e (rw (not_yet (t - w.start) l.per h))
  where
    not_yet : (a b : ℕ) → a < b → leb b a ≡ false
    not_yet a b h = ground arith

abbrev next : Limiter → Window → String → Limiter
next l w k = record l {
  entries = put k (record { count = w.count + 1; start = w.start }) l.entries;
}

-- While a window with `w.count` events lasts, whatever the other keys do, exactly as many further
-- events of its key are allowed as the limit leaves room for, or all of them if there are fewer.
pub granted-Within :
    (k : String) (calls : Calls) (l : Limiter) (w : Window)
    → get k l.entries ≡ some w
    → Within k w.start l.per calls
    → granted k calls l ≡ min (calls_of k calls) (l.limit - w.count)
unfolding granted
granted-Within k [] l w e h = omega arith
granted-Within k ((j, t) ∷ calls) l w e h = elim (Bool-cases (str_eq j k)) [
  | inl same ↦
      let is_k = (eq_iff j k).0 same in
      rw (same, is_k)
        (rw (allow_within k t l w e (h.0 is_k)) (
          room (leb (w.count + 1) l.limit) refl (
            granted-Within k calls (next l w k) (record { count = w.count + 1; start = w.start })
              (rw (get-put, str_eq_refl)) h.1)))
  | inr other ↦
      let (g, lim, per) = allow_ne j k t l other in
      let ih = granted-Within k calls (allow j t l).1 w (g ∙ e) (rw per h.1) in
      rw other (omega (arith, ih, lim))
]
  where
    room :
        (b : Bool)
        → leb (w.count + 1) l.limit ≡ b
        → granted k calls (next l w k) ≡ min (calls_of k calls) (l.limit - (w.count + 1))
        → (if b then 1 else 0) + granted k calls (next l w k)
          ≡ min (1 + calls_of k calls) (l.limit - w.count)
    room b e ih = ground arith

-- From the first event of a window on, its key is granted the smaller of the number of its events and
-- the limit, or one event if the limit is zero.
pub granted_from_start :
    (k : String) (t : ℕ) (calls : Calls) (l : Limiter)
    → is_over l.per t (get k l.entries) ≡ true
    → Within k t l.per calls
    → granted k ((k, t) ∷ calls) l ≡ min (suc (calls_of k calls)) (max l.limit 1)
unfolding granted allow
granted_from_start k t calls l over h =
    rw (str_eq_refl, over)
      (omega (
        arith,
        granted-Within k calls
            (record l { entries = put k (record { count = 1; start = t }) l.entries })
            (record { count = 1; start = t }) (rw (get-put, str_eq_refl)) h,
      ))
