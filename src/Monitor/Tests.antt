-- ===== src/Monitor/Tests.antt =====
-- A node that answers too slowly for the third time, and one that was disabled, for the theorems about
-- icmp.go.
use singboxhub.Prelude.{◌≡◌, refl, true, false, some, [], ◌∷◌}
use singboxhub.Prelude.Int.{pos}
use singboxhub.Prelude.Dict.{get, IsUnique}
use singboxhub.Monitor.{Node, Settings, reply, World, State, is_bad, check_all_nodes, run_rounds}
use singboxhub.Monitor.Rounds.{check_all_nodes-get, run_rounds-disabled}

abbrev slow : Node
slow = record {
  source = "sub:1";
  outbound_enc = "x";
  enabled = true;
  latency_ms = pos 2500;
  latency_fail_count = 2;
}

abbrev off : Node
off = record slow { enabled = false; latency_fail_count = 3 }

abbrev settings : Settings
settings = record { threshold_ms = 2000; consecutive = 3 }

abbrev world : World
world = record { permitted = true; probe = λ _. reply 2600 }

abbrev state : State
state = record { monitor = record { icmp_disabled = false }; table = ("a", slow) ∷ ("b", off) ∷ [] }

state-IsUnique : IsUnique state.table
unfolding get
state-IsUnique = (refl, (refl, tt))

check_all_nodes-get_example :
    get "a" (check_all_nodes settings world state).table
    ≡ some (record slow { latency_ms = pos 2600; latency_fail_count = 3; enabled = false })
unfolding get is_bad
check_all_nodes-get_example = check_all_nodes-get settings world state "a" state-IsUnique

-- Not even a quick answer brings it back.
run_rounds-disabled_example :
    get "b"
      (run_rounds
        ((settings, world) ∷ (settings, record world { probe = λ _. reply 10 }) ∷ [])
        state).table
    ≡ some off
unfolding get
run_rounds-disabled_example =
    run_rounds-disabled
      ((settings, world) ∷ (settings, record world { probe = λ _. reply 10 }) ∷ []) state "b" off
      state-IsUnique refl refl
