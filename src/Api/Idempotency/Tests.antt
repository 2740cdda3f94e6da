-- ===== src/Api/Idempotency/Tests.antt =====
-- Two requests with one key, and one with another between them, for the theorem about helpers.go.
use singboxhub.Prelude.{ℕ, String, [], ◌∷◌}
use singboxhub.Api.Idempotency.{IdemEntry, IdempotencyStore, put_if_absent, run}

abbrev entry : ℕ → String → IdemEntry
entry now location = record {
  created = now;
  status = 201;
  location = location;
  body = [];
  user_id = 1;
  op_hash = "";
}

abbrev store : IdempotencyStore
store = record { ttl = 100; entries = ("old", entry 1 "/nodes/0") ∷ [] }

abbrev after : IdempotencyStore
after =
    run (("b", entry 60 "/nodes/2", 60) ∷ []) (put_if_absent "a" (entry 50 "/nodes/1") 50 store).2
