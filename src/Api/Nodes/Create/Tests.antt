-- ===== src/Api/Nodes/Create/Tests.antt =====
-- A node of its own, created twice under one key.
use singboxhub.Prelude.{◌≡◌, ◌≢◌, refl, String, true, none, some, [], ◌∷◌, leb→le}
use singboxhub.Prelude.Itoa.{itoa}
use singboxhub.Prelude.Dict.{get, put, has}
use singboxhub.Store.Nodes.{create_node, name_index}
use singboxhub.Api.Idempotency.{IdemEntry, get_entry}
use singboxhub.Api.Nodes.Input.{
  Input, name_length, api_secret_missing, trim_space, trim_slashes, validate_node_input,
}
use singboxhub.Api.Nodes.Create.{
  World, State, created, replayed, idem_key, respond, handle_create_node,
}
use singboxhub.Api.Nodes.Create.Repeat.{handle_create_node-repeat}

-- Encryption keeps the text, no configuration can be fetched, and all is JSON.
abbrev world : World
world = record {
  seal = λ s. some s;
  fetch = λ url. λ key. none;
  is_json = λ s. true;
  body = λ id. λ n. λ stats. [];
  importing = record {
    encrypt = λ k. λ s. some s;
    decrypt = λ s. some s;
    fresh_id = λ k. "x";
    clock = λ k. 0;
  };
}

abbrev input : Input
input = record {
  name = "tokyo";
  api_url = "http://10.0.0.2:9090/";
  api_secret = "s";
  outbound_json = none;
  config_url = "";
  kce_key = "";
  tags = [];
  enabled = none;
  remark = "";
}

abbrev empty : State
empty = record { table = []; idem = record { ttl = 600; entries = [] } }

abbrev answer : IdemEntry
answer = record {
  created = 50;
  status = 201;
  location = "/nodes/n1";
  body = [];
  user_id = 1;
  op_hash = "";
}

created_first : (handle_create_node world 50 1 "k" "n1" input empty).0 ≡ created answer
unfolding handle_create_node validate_node_input trim_space trim_slashes create_node name_index
    respond get_entry get has put idem_key itoa
created_first = refl

some_key : ◌≢◌ {A = String} "k" ""
some_key h = absurd (cc h)

handle_create_node-repeat_example :
    let s = (handle_create_node world 50 1 "k" "n1" input empty).1 in
    handle_create_node world 90 1 "k" "n2" (record input { name = "osaka" }) s
    ≡ (replayed answer, s)
handle_create_node-repeat_example =
    handle_create_node-repeat world 50 90 1 "k" "n1" "n2" input (record input { name = "osaka" })
      empty answer some_key created_first (leb→le 40 600 refl)

-- All that is wrong is reported.
two_errors :
    validate_node_input world.is_json (record input { name = "  "; api_secret = "" })
    ≡ name_length ∷ api_secret_missing ∷ []
unfolding validate_node_input trim_space trim_slashes
two_errors = refl
