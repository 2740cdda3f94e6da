-- ===== src/Api/Nodes/Tests.antt =====
-- An anchor with one imported child beside a node of its own, and imports that succeed and fail.
use singboxhub.Prelude.{
  ℕ, sym, All, ◌≡◌, ◌≢◌, refl, String, true, false, none, some, List, [], ◌∷◌, ltb, if◌then◌else◌,
  str_eq, eq_iff,
}
use singboxhub.Prelude.Int.{pos}
use singboxhub.Prelude.Itoa.{itoa}
use singboxhub.Prelude.Dict.{get, put, del, has, IsUnique}
use singboxhub.Store.Nodes.{
  Node, Table, ok, create_node, name_index, update_node, delete_node, list_nodes,
  list_nodes_by_source,
}
use singboxhub.Store.Nodes.Names.{HasUniqueNames, Reached, empty, created, Reached-HasUniqueNames}
use singboxhub.Subscribe.Unique.{unique_name, find_name, candidate}
use singboxhub.Api.Nodes.{
  Proxy, World, ImportStats, Outcome, failed, synced, sync_children, sync_proxies, sync_proxy,
  update_child, create_child, remove_stale, rollback_created_nodes, unique_node_name, mode_of,
  by_name, import_proxies_for_node, handle_delete_node, node_source,
}
use singboxhub.Api.Nodes.Children.{HasChild}
use singboxhub.Api.Nodes.Complete.{others, import_proxies_for_node_complete}
use singboxhub.Api.Nodes.Deleted.{left_after, handle_delete_node-rows}
use singboxhub.Api.Nodes.Imported.{
  table_of, import_proxies_for_node-other, import_proxies_for_node-failed,
}

abbrev row : String → String → Node
row name source = record {
  name = name;
  api_url = "http://10.0.0.2:9090";
  api_secret_enc = "s";
  outbound_enc = "";
  source = source;
  config_url = "";
  kce_key_enc = "";
  tags = [];
  enabled = true;
  remark = "";
  mode = "rule";
  latency_ms = pos 0;
  latency_checked_at = 0;
  latency_fail_count = 0;
  created_at = 1;
  updated_at = 1;
  last_online = 0;
}

abbrev nodes : Table
nodes = ("a", row "anchor" "") ∷ ("c", row "hk" "node:a") ∷ ("m", row "manual" "") ∷ []

nodes-IsUnique : IsUnique nodes
unfolding get
nodes-IsUnique = (refl, (refl, (refl, tt)))

differs : (a b : String) → str_eq a b ≡ false → a ≢ b
differs a b e same = absurd (cc ((eq_iff a b).1 same, e))

anchor_foreign : (row "anchor" "").source ≢ node_source "a"
unfolding node_source
anchor_foreign = differs "" "node:a" refl

handle_delete_node-rows_example :
    (t' : Table) × (handle_delete_node "a" nodes ≡ ok t')
    × (get "c" t' ≡ left_after "a" "c" (get "c" nodes))
unfolding get
handle_delete_node-rows_example =
    handle_delete_node-rows "a" "c" (row "anchor" "") nodes nodes-IsUnique refl anchor_foreign

reached : Reached nodes
unfolding create_node name_index get put has
reached =
    created 1 "m" (row "manual" "")
      (created 1 "c" (row "hk" "node:a") (created 1 "a" (row "anchor" "") empty))

Reached-HasUniqueNames_example : ◌≡◌ {A = String} "c" "c"
unfolding get
Reached-HasUniqueNames_example =
    Reached-HasUniqueNames nodes reached "c" "c" (row "hk" "node:a") (row "hk" "node:a") refl refl
      refl

named : HasUniqueNames nodes
named = Reached-HasUniqueNames nodes reached

-- The third proxy cannot be encrypted.
abbrev world : World
world = record {
  encrypt = λ k s. if ltb k 2 then some s else none;
  decrypt = λ s. some s;
  fresh_id = λ k. "x";
  clock = λ k. 5;
}

fresh : (k : ℕ) → get (world.fresh_id k) nodes ≡ none
unfolding get
fresh k = refl

-- The second proxy has the name of the manual node.
abbrev proxies : List Proxy
proxies =
    record { name = "hk"; outbound = "1" }
    ∷ record { name = "manual"; outbound = "2" }
    ∷ record { name = "us"; outbound = "3" }
    ∷ []

import_proxies_for_node-other_example :
    get "m"
      (table_of (import_proxies_for_node world "a" (row "anchor" "") false proxies 0 [] nodes))
    ≡ some (row "manual" "")
unfolding get node_source
import_proxies_for_node-other_example =
    import_proxies_for_node-other world "a" (row "anchor" "") (row "anchor" "") [] nodes fresh
      nodes-IsUnique named refl false proxies 0 "m" (row "manual" "") (differs "a" "m" refl) refl
      (differs "" "node:a" refl)

abbrev outcome : Outcome
outcome = import_proxies_for_node world "a" (row "anchor" "") false proxies 0 [] nodes

manual_kept : get "m" (table_of outcome) ≡ some (row "manual" "")
unfolding get node_source
manual_kept =
    import_proxies_for_node-other world "a" (row "anchor" "") (row "anchor" "") [] nodes fresh
      nodes-IsUnique named refl false proxies 0 "m" (row "manual" "") (differs "a" "m" refl) refl
      (differs "" "node:a" refl)

outcome_failed : outcome ≡ failed (table_of outcome)
unfolding import_proxies_for_node sync_children sync_proxies sync_proxy update_child create_child
    remove_stale rollback_created_nodes unique_node_name unique_name find_name candidate mode_of
    by_name node_source create_node update_node delete_node list_nodes_by_source list_nodes
    name_index get put del has itoa
outcome_failed = refl

import_proxies_for_node-failed_example : get "x" (table_of outcome) ≡ none
unfolding get
import_proxies_for_node-failed_example =
    import_proxies_for_node-failed world "a" (row "anchor" "") (row "anchor" "") [] nodes fresh
      nodes-IsUnique named refl false proxies 0 (table_of outcome) "x" outcome_failed refl

abbrev open_world : World
open_world = record {
  encrypt = λ k s. some s;
  decrypt = λ s. some s;
  fresh_id = λ k. "x";
  clock = λ k. 5;
}

opens : (k : ℕ) (x e : String) → open_world.encrypt k x ≡ some e → open_world.decrypt e ≡ some x
opens k x e h = sym h

abbrev two : List Proxy
two = record { name = "hk"; outbound = "1" } ∷ record { name = "manual"; outbound = "2" } ∷ []

abbrev done : Outcome
done = import_proxies_for_node open_world "a" (row "anchor" "") false two 0 [] nodes

abbrev done_stats : ImportStats
done_stats = record { found = 2; imported = 1; updated = 1; removed = 0; skipped = 0 }

done-synced : done ≡ synced done_stats (table_of done)
unfolding import_proxies_for_node sync_children sync_proxies sync_proxy update_child create_child
    remove_stale rollback_created_nodes unique_node_name unique_name find_name candidate mode_of
    by_name node_source create_node update_node delete_node list_nodes_by_source list_nodes
    name_index get put del has itoa
done-synced = refl

import_proxies_for_node_complete_example :
    All (HasChild open_world "a" [] (table_of done)) (others false two)
unfolding get
import_proxies_for_node_complete_example =
    import_proxies_for_node_complete open_world "a" [] opens (row "anchor" "") (row "anchor" "")
      nodes (λ k. refl) nodes-IsUnique refl 0 done_stats (table_of done) false two
      ((differs "manual" "hk" refl, tt), (tt, tt)) done-synced
