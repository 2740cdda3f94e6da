-- ===== src/Hub/Tests.antt =====
-- A reload with a worker that stays, one that is out of date and one that is missing, for the theorem
-- about hub.go.
use singboxhub.Prelude.{String, ◌≡◌, refl, true, Bool, some, [], ◌∷◌}
use singboxhub.Prelude.Dict.{Dict, get, IsUnique}
use singboxhub.Hub.{NodeRow, Hub, reload, start_worker}
use singboxhub.Hub.Reload.{reload-get}

abbrev node : String → NodeRow
node secret = record { enabled = true; api_url = "http://a"; api_secret_enc = secret }

abbrev nodes : Dict NodeRow
nodes = ("kept", node "s1") ∷ ("changed", node "s2") ∷ ("added", node "s3") ∷ []

abbrev hub : Hub
hub = record {
  workers =
      ("kept", start_worker 2 "kept" (node "s1"))
      ∷ ("changed", start_worker 2 "changed" (node "old"))
      ∷ ("gone", start_worker 2 "gone" (node "s4"))
      ∷ [];
  writes = [];
}

abbrev decrypts : String → Bool
decrypts _ = true

nodes-IsUnique : IsUnique nodes
unfolding get
nodes-IsUnique = (refl, (refl, (refl, tt)))

workers-IsUnique : IsUnique hub.workers
unfolding get
workers-IsUnique = (refl, (refl, (refl, tt)))

reload-get_example :
    get "changed" (reload true decrypts 100 2 nodes hub).workers
    ≡ some (start_worker 2 "changed" (node "s2"))
unfolding get
reload-get_example = reload-get decrypts 100 2 nodes hub "changed" nodes-IsUnique workers-IsUnique
