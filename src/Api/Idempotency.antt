-- ===== src/Api/Idempotency.antt =====
-- backend/internal/api/helpers.go, `idempotencyStore`: POST requests are deduplicated by their key. Times
-- are nanoseconds; `time.Since` is 0 for an entry that was created later than now.
mod Tests
pub mod Once
use singboxhub.Prelude.{
  ℕ, ◌-◌, String, Bool, true, false, not, Option, none, some, List, [], ◌∷◌, ltb, if◌then◌else◌,
}
use singboxhub.Prelude.Dict.{Dict, get, put}

pub record IdemEntry : Type 0 where
  pub created : ℕ
  pub status : ℕ
  pub location : String
  pub body : List ℕ
  pub user_id : ℕ
  pub op_hash : String

pub record IdempotencyStore : Type 0 where
  pub ttl : ℕ
  pub entries : Dict IdemEntry

-- `time.Since(e.created) > s.ttl`
abbrev pub is_stale : ℕ → ℕ → IdemEntry → Bool
is_stale ttl now e = ltb ttl (now - e.created)

unfoldable pub get_entry : String → ℕ → IdempotencyStore → Option IdemEntry
get_entry key now s = elim (get key s.entries) [
  | none ↦ none
  | some e ↦ if is_stale s.ttl now e then none else some e
]

-- The opportunistic collection of both writers.
pub drop_stale : ℕ → ℕ → Dict IdemEntry → Dict IdemEntry
drop_stale ttl now [] = []
drop_stale ttl now ((k, e) ∷ m) =
    let rest = drop_stale ttl now m in if is_stale ttl now e then rest else (k, e) ∷ rest

unfoldable pub put_entry : String → IdemEntry → ℕ → IdempotencyStore → IdempotencyStore
unfolding drop_stale
put_entry key e now s = record s { entries = put key e (drop_stale s.ttl now s.entries) }

-- The entry that stands, whether it stood before, and the store.
pub put_if_absent : String → IdemEntry → ℕ → IdempotencyStore → IdemEntry × Bool × IdempotencyStore
unfolding drop_stale
put_if_absent key e now s =
    let kept = drop_stale s.ttl now s.entries in
    elim (get key kept) [
      | some existing ↦ (existing, true, record s { entries = kept })
      | none ↦ (e, false, record s { entries = put key e kept })
    ]

-- Requests in the order in which they take the lock: a key, what it would store, and the time.
abbrev pub Requests : Type 0
Requests = List (String × IdemEntry × ℕ)

pub run : Requests → IdempotencyStore → IdempotencyStore
unfolding put_if_absent
run [] s = s
run ((key, e, now) ∷ rest) s = run rest (put_if_absent key e now s).2
