-- ===== src/Api/Idempotency/Once.antt =====
-- helpers.go, `putIfAbsent`: one entry for each key while it lasts.
use singboxhub.Prelude.{ℕ, String, ◌≡◌, some}
use singboxhub.Prelude.Dict.{Dict, get, IsUnique}
use singboxhub.Api.Idempotency.{IdemEntry, IdempotencyStore}

-- The store keeps `e` under `key`, and no key stands twice.
abbrev Holds : String → IdemEntry → ℕ → IdempotencyStore → Type 0
Holds key e ttl s = IsUnique s.entries × (get key s.entries ≡ some e) × (s.ttl ≡ ttl)
