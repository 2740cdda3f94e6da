-- ===== src/Auth/Limiter.antt =====
-- backend/internal/auth/ratelimit.go: a fixed window for each key. Times are nanoseconds of the
-- monotonic clock, so no time lies before the start of a window; `now` is an argument.
pub mod Grants
pub mod Waiting
use singboxhub.Prelude.{
  ℕ, ◌+◌, ◌-◌, String, Bool, true, false, Option, none, some, List, [], ◌∷◌, leb, ltb,
  if◌then◌else◌,
}
use singboxhub.Prelude.Dict.{Dict, get, put}

pub record Window : Type 0 where
  pub count : ℕ
  pub start : ℕ

pub record Limiter : Type 0 where
  pub entries : Dict Window
  pub limit : ℕ
  pub per : ℕ

abbrev pub new_limiter : ℕ → ℕ → Limiter
new_limiter limit per = record { entries = []; limit = limit; per = per }

-- No window, or one that is over.
pub is_over : ℕ → ℕ → Option Window → Bool
is_over per now none = true
is_over per now (some w) = leb per (now - w.start)

abbrev pub count_of : Option Window → ℕ
count_of none = 0
count_of (some w) = w.count

abbrev pub start_of : Option Window → ℕ
start_of none = 0
start_of (some w) = w.start

unfoldable pub allow : String → ℕ → Limiter → Bool × Limiter
unfolding is_over
allow key now l =
    let w = get key l.entries in
    if is_over l.per now w
    then (true, record l { entries = put key (record { count = 1; start = now }) l.entries })
    else (
      leb (count_of w + 1) l.limit,
      record l {
        entries = put key (record { count = count_of w + 1; start = start_of w }) l.entries;
      },
    )

pub retry_after : String → ℕ → Limiter → ℕ
retry_after key now l = elim (get key l.entries) [ none ↦ 0 | some w ↦ l.per - (now - w.start) ]

pub drop_over : ℕ → ℕ → Dict Window → Dict Window
unfolding is_over
drop_over per now [] = []
drop_over per now ((k, w) ∷ m) =
    let rest = drop_over per now m in if is_over per now (some w) then rest else (k, w) ∷ rest

pub gc : ℕ → Limiter → Limiter
unfolding drop_over
gc now l = record l { entries = drop_over l.per now l.entries }
