-- ===== src/Api/Nodes/Update.antt =====
-- backend/internal/api/nodes.go, handleUpdateNode: PATCH /nodes/{node_id} over the nodes table and the import.
-- The reload of the hub, which follows an update, is Hub's.
pub mod Stale
mod Tests
use singboxhub.Prelude.{
  ℕ, String, Bool, true, false, not, ◌&&◌, ◌||◌, Option, none, some, str_eq, if◌then◌else◌,
}
use Prim.Native.String.{◌++◌}
use singboxhub.Prelude.Itoa.{itoa}
use singboxhub.Prelude.Dict.{get}
use singboxhub.Store.Nodes.{
  Node, Table, NodeError, not_found, unique_violation, Result, ok, fail, update_node,
}
use singboxhub.Api.Nodes.{ImportStats, Outcome, failed, synced, import_proxies_for_node}
use singboxhub.Api.Nodes.Create.{World, Source}
use singboxhub.Api.Nodes.Patch.{
  Field, absent, null, bad, value, NodePatch, apply_node_patch, patch_config_url, is_present,
}

pub node_etag : ℕ → String
unfolding itoa
node_etag updated_at = "\"node-v1-" ++ (itoa updated_at ++ "\"")

-- `updated` holds the row that is read back, of which the answer is made.
pub data Answer : Type 0 where
  missing precondition_required precondition_failed bad_body invalid internal conflict upstream :
      Answer
  updated : Option Node → Option ImportStats → Answer

abbrev key_text : Field String → String
key_text (value v) = v
key_text _ = ""

abbrev pub imports : NodePatch → Bool
imports p = is_present p.config_url || is_present p.kce_key

abbrev pub after_import : String → Table → Outcome → Answer × Table
after_import id t (failed t') = (upstream, t')
after_import id t (synced stats t') = (updated (get id t') (some stats), t')

abbrev pub import_source :
    World → String → NodePatch → Node → Table → Option Source → Answer × Table
import_source w id p n t none = (upstream, t)
import_source w id p n t (some source) = after_import id t (
    import_proxies_for_node w.importing id n (not (is_present p.outbound_json)) source.proxies
      source.skips source.modes t)

abbrev pub after_update : World → ℕ → String → NodePatch → Node → Table → Result → Answer × Table
after_update w now id p n t (fail not_found) = (missing, t)
after_update w now id p n t (fail unique_violation) = (conflict, t)
after_update w now id p n t (ok t') =
    if imports p && not (str_eq n.config_url "")
    then import_source w id p (record n { updated_at = now }) t'
        (w.fetch n.config_url (key_text p.kce_key))
    else (updated (get id t') none, t')

abbrev pub store_patched : World → ℕ → String → NodePatch → Table → Option Node → Answer × Table
store_patched w now id p t none = (invalid, t)
store_patched w now id p t (some n) = after_update w now id p n t (update_node now id n t)

abbrev pub with_key : World → ℕ → String → NodePatch → Node → Table → Option String → Answer × Table
with_key w now id p n t none = (internal, t)
with_key w now id p n t (some enc) =
    store_patched w now id p t (apply_node_patch w.seal p (record n { kce_key_enc = enc }))

-- A null key is the empty key.
abbrev pub patch_key : World → ℕ → String → NodePatch → Table → Field String → Node → Answer × Table
patch_key w now id p t absent n = store_patched w now id p t (apply_node_patch w.seal p n)
patch_key w now id p t null n = with_key w now id p n t (w.seal "")
patch_key w now id p t bad n = (invalid, t)
patch_key w now id p t (value v) n = with_key w now id p n t (w.seal v)

abbrev pub patch_node : World → ℕ → String → NodePatch → Table → Option Node → Answer × Table
patch_node w now id p t none = (invalid, t)
patch_node w now id p t (some n) = patch_key w now id p t p.kce_key n

abbrev pub patch_body : World → ℕ → String → Node → Table → Option NodePatch → Answer × Table
patch_body w now id n t none = (bad_body, t)
patch_body w now id n t (some p) = patch_node w now id p t (patch_config_url p.config_url n)

abbrev pub update_found :
    World → ℕ → String → String → Option NodePatch → Table → Option Node → Answer × Table
update_found w now id if_match body t none = (missing, t)
update_found w now id if_match body t (some n) =
    if str_eq if_match ""
    then (precondition_required, t)
    else if str_eq if_match (node_etag n.updated_at)
    then patch_body w now id n t body
    else (precondition_failed, t)

-- `body` is `none` where it is no JSON object.
pub handle_update_node : World → ℕ → String → String → Option NodePatch → Table → Answer × Table
unfolding node_etag apply_node_patch patch_config_url update_node
handle_update_node w now id if_match body t = update_found w now id if_match body t (get id t)
