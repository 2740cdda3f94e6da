-- ===== src/Api/Nodes.antt =====
-- backend/internal/api/nodes.go: importing the proxies of an anchor's configuration, and deleting an
-- anchor. A proxy is a name and the JSON text of its outbound, as the parser of
-- backend/internal/subscribe gives them; encryption, the clock and the random ids are parameters, each
-- numbered by the proxy that asks. Of the errors, those of encryption and of the table's constraints
-- are modelled.
pub mod Deleted
pub mod Good
pub mod Sync
pub mod Synced
pub mod Imported
pub mod Placed
pub mod Children
pub mod Complete
pub mod Listing
pub mod Input
pub mod Create
pub mod Patch
pub mod Update
mod Tests
use singboxhub.Prelude.{
  ℕ, zero, suc, ◌+◌, String, Bool, true, false, not, ◌&&◌, Option, none, some, List, [], ◌∷◌,
  str_eq, if◌then◌else◌, length,
}
use singboxhub.Prelude.Int.{pos}
use singboxhub.Prelude.Dict.{Dict, get, put, has}
use Prim.Native.String.{◌++◌}
use mathlib.Core.List.{◌++◌ as ◌++ᴸ◌}
use singboxhub.Store.Nodes.{
  Node, Table, Result, ok, fail, name_index, create_node, update_node, delete_node,
  list_nodes_by_source, or_same,
}
use singboxhub.Subscribe.Unique.{unique_name}

pub record Proxy : Type 0 where
  pub name : String
  pub outbound : String

pub record World : Type 0 where
  pub encrypt : ℕ → String → Option String
  pub decrypt : String → Option String
  pub fresh_id : ℕ → String
  pub clock : ℕ → ℕ

pub record ImportStats : Type 0 where
  pub found : ℕ
  pub imported : ℕ
  pub updated : ℕ
  pub removed : ℕ
  pub skipped : ℕ

-- The locals of the loops, and the table.
pub record Run : Type 0 where
  pub table : Table
  pub created : List String
  pub seen : Dict Bool
  pub imported : ℕ
  pub updated : ℕ

pub node_source : String → String
node_source anchor_id = "node:" ++ anchor_id

-- The loop is that of `uniqueName`, over the names of the table.
pub unique_node_name : String → Table → String
unfolding unique_name
unique_node_name base t = unique_name base (name_index t)

abbrev or_rule : Option String → String
or_rule none = "rule"
or_rule (some mode) = if str_eq mode "" then "rule" else mode

pub mode_of : Dict String → String → String
mode_of modes name = or_rule (get name modes)

-- The rows by name, each with its id.
pub by_name : Table → Dict (String × Node)
by_name [] = []
by_name ((id, n) ∷ t) = put n.name (id, n) (by_name t)

abbrev same_text : Option String → String → Bool
same_text none s = false
same_text (some p) s = str_eq p s

-- A row that was imported before.
abbrev pub after_update : Run → Result → Option Run
after_update st (fail why) = none
after_update st (ok t) = some (record st { table = t; updated = st.updated + 1 })

pub update_child : World → ℕ → String → Proxy → String → String → Node → Run → Option Run
unfolding update_node
update_child w k enc proxy mode id cur st =
    if same_text (w.decrypt cur.outbound_enc) proxy.outbound && str_eq cur.mode mode
    then some st
    else after_update st
        (update_node (w.clock k) id (record cur { outbound_enc = enc; mode = mode }) st.table)

abbrev pub child_node : Node → String → String → String → String → Node
child_node anchor anchor_id name enc mode = record {
  name = name;
  api_url = "";
  api_secret_enc = "";
  outbound_enc = enc;
  source = node_source anchor_id;
  config_url = "";
  kce_key_enc = "";
  tags = anchor.tags;
  enabled = anchor.enabled;
  remark = "";
  mode = mode;
  latency_ms = pos 0;
  latency_checked_at = 0;
  latency_fail_count = 0;
  created_at = 0;
  updated_at = 0;
  last_online = 0;
}

abbrev pub after_create : String → Run → Result → Option Run
after_create id st (fail why) = none
after_create id st (ok t) =
    some (record st { table = t; created = st.created ++ᴸ (id ∷ []); imported = st.imported + 1 })

pub create_child : World → ℕ → String → Node → String → Proxy → String → Run → Option Run
unfolding create_node unique_node_name
create_child w k anchor_id anchor enc proxy mode st = after_create (w.fresh_id k) st (
    create_node (w.clock k) (w.fresh_id k)
      (child_node anchor anchor_id (unique_node_name proxy.name st.table) enc mode) st.table)

-- What an import works on besides the table.
pub record Plan : Type 0 where
  pub anchor_id : String
  pub anchor : Node
  pub previous : Dict (String × Node)
  pub modes : Dict String

abbrev pub place_child :
    World → Plan → ℕ → Proxy → Run → String → Option (String × Node) → Option Run
place_child w plan k proxy st enc (some (id, cur)) =
    update_child w k enc proxy (mode_of plan.modes proxy.name) id cur st
place_child w plan k proxy st enc none =
    create_child w k plan.anchor_id plan.anchor enc proxy (mode_of plan.modes proxy.name) st

abbrev pub encrypted : World → Plan → ℕ → Proxy → Run → Option String → Option Run
encrypted w plan k proxy st none = none
encrypted w plan k proxy st (some enc) =
    place_child w plan k proxy st enc (get proxy.name plan.previous)

abbrev pub note_seen : Proxy → Run → Run
note_seen proxy st = record st { seen = put proxy.name true st.seen }

-- One round of the loop over the proxies.
pub sync_proxy : World → Plan → ℕ → Proxy → Run → Option Run
unfolding update_child create_child mode_of
sync_proxy w plan k proxy st =
    encrypted w plan k proxy (note_seen proxy st) (w.encrypt k proxy.outbound)

-- `rollbackCreatedNodes`: an error is logged, and the next id follows.
pub rollback_created_nodes : List String → Table → Table
unfolding delete_node
rollback_created_nodes [] t = t
rollback_created_nodes (id ∷ ids) t = rollback_created_nodes ids (or_same t (delete_node id t))

pub data Outcome : Type 0 where
  failed : Table → Outcome
  synced : ImportStats → Table → Outcome

abbrev pub roll_back : Run → Outcome
roll_back st = failed (rollback_created_nodes st.created st.table)

-- After a statement of the last loop: go on with the table that it leaves.
abbrev pub after_delete : Run → Result → (Table → Outcome) → Outcome
after_delete st (fail why) go_on = roll_back st
after_delete st (ok t) go_on = go_on t

-- The loop over the previous children. Go leaves its order open.
pub remove_stale : Dict (String × Node) → ℕ → ImportStats → Run → Outcome
unfolding delete_node rollback_created_nodes
remove_stale [] removed stats st =
    synced (record stats { imported = st.imported; updated = st.updated; removed = removed })
      st.table
remove_stale ((name, (id, cur)) ∷ prev) removed stats st =
    let kept = remove_stale prev removed stats st in
    if has name st.seen
    then kept
    else after_delete st (delete_node id st.table)
        (λ t. remove_stale prev (removed + 1) stats (record st { table = t }))

-- After a round of the loop over the proxies: roll back, or go on.
abbrev pub after_sync : Run → Option Run → (Run → Outcome) → Outcome
after_sync st none go_on = roll_back st
after_sync st (some st') go_on = go_on st'

-- The loop over the proxies from the k-th, and the loop that follows it.
pub sync_proxies : World → Plan → ImportStats → ℕ → List Proxy → Run → Outcome
unfolding sync_proxy remove_stale rollback_created_nodes
sync_proxies w plan stats k [] st = remove_stale plan.previous 0 stats st
sync_proxies w plan stats k (proxy ∷ ps) st =
    after_sync st (sync_proxy w plan k proxy st) (λ st'. sync_proxies w plan stats (suc k) ps st')

abbrev start : Table → Run
start t = record { table = t; created = []; seen = []; imported = 0; updated = 0 }

-- The children of the anchor, and the loops over the proxies left.
pub sync_children :
    World → String → Node → Dict String → ImportStats → ℕ → List Proxy → Table → Outcome
unfolding sync_proxies by_name list_nodes_by_source node_source
sync_children w anchor_id anchor modes stats k ps t =
    let previous = by_name (list_nodes_by_source (node_source anchor_id) t) in
    sync_proxies w
      (record { anchor_id = anchor_id; anchor = anchor; previous = previous; modes = modes }) stats
      k ps (start t)

abbrev pub after_anchor : Table → Result → (Table → Outcome) → Outcome
after_anchor t (fail why) go_on = failed t
after_anchor t (ok t') go_on = go_on t'

abbrev pub take_first_proxy :
    World → String → Node → Option String → Table → (Node → Table → Outcome) → Outcome
take_first_proxy w anchor_id anchor none t go_on = failed t
take_first_proxy w anchor_id anchor (some enc) t go_on =
    let filled = record anchor { outbound_enc = enc } in
    after_anchor t (update_node (w.clock 0) anchor_id filled t) (go_on filled)

-- `importProxiesForNode` on a configuration that was fetched and parsed: `skips` proxies were
-- dropped, the others are `proxies`.
pub import_proxies_for_node :
    World → String → Node → Bool → List Proxy → ℕ → Dict String → Table → Outcome
unfolding sync_children update_node
import_proxies_for_node w anchor_id anchor take_first [] skips modes t =
    synced (record { found = 0; imported = 0; updated = 0; removed = 0; skipped = skips }) t
import_proxies_for_node w anchor_id anchor take_first (first ∷ rest) skips modes t =
    let stats : ImportStats = record {
      found = length (first ∷ rest);
      imported = 0;
      updated = 0;
      removed = 0;
      skipped = skips;
    } in
    if take_first
    then take_first_proxy w anchor_id anchor (w.encrypt 0 first.outbound) t
        (λ filled. λ t'. sync_children w anchor_id filled modes stats 1 rest t')
    else sync_children w anchor_id anchor modes stats 0 (first ∷ rest) t

-- The loop of handleDeleteNode over the children: an error is logged, and the next child follows.
pub delete_children : Table → Table → Table
unfolding delete_node
delete_children [] t = t
delete_children ((id, n) ∷ children) t = delete_children children (or_same t (delete_node id t))

-- `handleDeleteNode` after the node was found; the reload of the hub follows.
pub handle_delete_node : String → Table → Result
unfolding delete_children node_source list_nodes_by_source delete_node
handle_delete_node id t =
    delete_node id (delete_children (list_nodes_by_source (node_source id) t) t)
