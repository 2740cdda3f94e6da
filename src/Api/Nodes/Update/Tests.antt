-- ===== src/Api/Nodes/Update/Tests.antt =====
-- A node is renamed, and the ETag that was used is stale.
use singboxhub.Prelude.{ℕ, ◌≡◌, refl, String, true, none, some, [], ◌∷◌, arith}
use singboxhub.Prelude.Int.{pos}
use singboxhub.Prelude.Itoa.{itoa}
use singboxhub.Prelude.Dict.{get, put, has, del}
use singboxhub.Store.Nodes.{Node, Table, update_node, name_index}
use singboxhub.Api.Nodes.Input.{trim_space}
use singboxhub.Api.Nodes.Create.{World}
use singboxhub.Api.Nodes.Patch.{absent, value, NodePatch, apply_node_patch, patch_config_url}
use singboxhub.Api.Nodes.Update.{node_etag, updated, precondition_failed, handle_update_node}
use singboxhub.Api.Nodes.Update.Stale.{handle_update_node-stale}

abbrev world : World
world = record {
  seal = λ s. some s;
  fetch = λ url. λ key. none;
  is_json = λ s. true;
  body = λ id. λ n. λ stats. [];
  importing = record {
    encrypt = λ k. λ s. some s;
    decrypt = λ s. some s;
    fresh_id = λ k. "x";
    clock = λ k. 0;
  };
}

abbrev row : String → ℕ → Node
row name updated_at = record {
  name = name;
  api_url = "http://10.0.0.2:9090";
  api_secret_enc = "s";
  outbound_enc = "";
  source = "";
  config_url = "";
  kce_key_enc = "";
  tags = [];
  enabled = true;
  remark = "";
  mode = "";
  latency_ms = pos 0;
  latency_checked_at = 0;
  latency_fail_count = 0;
  created_at = 1;
  updated_at = updated_at;
  last_online = 0;
}

abbrev nodes : Table
nodes = ("a", row "tokyo" 5) ∷ []

abbrev rename : String → NodePatch
rename name = record {
  config_url = absent;
  kce_key = absent;
  name = value name;
  api_url = absent;
  api_secret = absent;
  outbound_json = absent;
  tags = absent;
  enabled = absent;
  remark = absent;
}

renamed :
    (handle_update_node world 9 "a" (node_etag 5) (some (rename " osaka ")) nodes).0
    ≡ updated (some (row "osaka" 9)) none
unfolding handle_update_node apply_node_patch patch_config_url update_node name_index node_etag itoa
    get put has del trim_space
renamed = refl

handle_update_node-stale_example :
    let t' = (handle_update_node world 9 "a" (node_etag 5) (some (rename " osaka ")) nodes).1 in
    handle_update_node world 9 "a" (node_etag 5) (some (rename "kyoto")) t'
    ≡ (precondition_failed, t')
handle_update_node-stale_example =
    handle_update_node-stale world 9 9 5 "a" (rename " osaka ") (some (rename "kyoto")) nodes
      (some (row "osaka" 9)) none refl (λ e. omega arith) renamed

-- Within one second the old ETag still holds, and the second update overwrites the first.
lost_update :
    (handle_update_node world 5 "a"
      (node_etag 5)
      (some (rename "kyoto"))
      (handle_update_node world 5 "a" (node_etag 5) (some (rename "osaka")) nodes).1).0
    ≡ updated (some (row "kyoto" 5)) none
unfolding handle_update_node apply_node_patch patch_config_url update_node name_index node_etag itoa
    get put has del trim_space
lost_update = refl
