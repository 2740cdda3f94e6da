-- ===== src/Auth/Limiter/Waiting.antt =====
-- ratelimit.go: what waiting for `RetryAfter` and what `GC` change.
use singboxhub.Prelude.{
  ℕ, ◌+◌, ◌-◌, ◌≤◌, String, ◌≡◌, refl, ap, ◌∙◌, Bool, true, false, Option, none, some, [], ◌∷◌,
  arith, str_eq, eq_iff, if◌then◌else◌, Bool-cases, inl, inr,
}
use singboxhub.Prelude.Dict.{Dict, get, get-put_self, IsUnique}
use singboxhub.Auth.Limiter.{Window, Limiter, is_over, allow, retry_after, drop_over, gc}

-- The window of a key, if it has one, began in the past.
abbrev pub IsPast : ℕ → Option Window → Type 0
IsPast now none = Unit
IsPast now (some w) = w.start ≤ now

over_after :
    (per now : ℕ) (w : Option Window)
    → IsPast now w
    → is_over per (now + elim w [ none ↦ 0 | some w ↦ per - (now - w.start) ]) w ≡ true
unfolding is_over
over_after per now none h = refl
over_after per now (some w) h = ground arith

-- An event that comes after its key's window began and then waits for as long as `RetryAfter`
-- says is allowed.
pub allow_after_retry :
    (key : String) (now : ℕ) (l : Limiter)
    → IsPast now (get key l.entries)
    → (allow key (now + retry_after key now l) l).0 ≡ true
unfolding allow retry_after
allow_after_retry key now l h = rw (over_after l.per now (get key l.entries) h)

abbrev kept : ℕ → ℕ → Option Window → Option Window
kept per now none = none
kept per now (some w) = if is_over per now (some w) then none else some w

get-drop_over :
    (per now : ℕ) (k : String) (m : Dict Window)
    → IsUnique m
    → get k (drop_over per now m) ≡ kept per now (get k m)
unfolding get drop_over
get-drop_over per now k [] u = refl
get-drop_over per now k ((j, w) ∷ m) u = elim (Bool-cases (str_eq j k)) [
  | inl same ↦
      let ih =
        get-drop_over per now k m u.1 ∙ ap (kept per now) (rw ((eq_iff j k).0 same) at u.0) in
      rw same (first (is_over per now (some w)) same ih)
  | inr other ↦ rw other (later (is_over per now (some w)) other ∙ get-drop_over per now k m u.1)
]
  where
    first :
        (b : Bool)
        → str_eq j k ≡ true
        → get k (drop_over per now m) ≡ none
        → get k (if b then drop_over per now m else (j, w) ∷ drop_over per now m)
          ≡ (if b then none else some w)
    first true e ih = ih
    first false e ih = rw e

    later :
        (b : Bool)
        → str_eq j k ≡ false
        → get k (if b then drop_over per now m else (j, w) ∷ drop_over per now m)
          ≡ get k (drop_over per now m)
    later true e = refl
    later false e = rw e

-- A window that was over is over at any later time.
over_later :
    (per now later : ℕ) (w : Option Window)
    → now ≤ later
    → (is_over per later (kept per now w) ≡ is_over per later w)
      × ((is_over per later w ≡ false) → kept per now w ≡ w)
unfolding is_over
over_later per now later none h = (refl, λ _. refl)
over_later per now later (some w) h = (ground arith, λ e. ground arith)

-- Collecting stale windows changes no later answer, if no key stands twice: an event at that
-- time or after is allowed or refused as without it, and leaves its key with the same window.
pub allow-gc :
    (key : String) (now later : ℕ) (l : Limiter)
    → IsUnique l.entries
    → now ≤ later
    → ((allow key later (gc now l)).0 ≡ (allow key later l).0)
      × (get key (allow key later (gc now l)).1.entries ≡ get key (allow key later l).1.entries)
unfolding allow gc
allow-gc key now later l u h =
    let (same, open_) = over_later l.per now later (get key l.entries) h in
    rw (get-drop_over l.per now key l.entries u, same)
      (elim (Bool-cases (is_over l.per later (get key l.entries))) [
        | inl over ↦ rw over (refl, rw (get-put_self, get-put_self))
        | inr running ↦ rw (running, open_ running) (refl, rw (get-put_self, get-put_self))
      ])
