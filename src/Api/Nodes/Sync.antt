-- ===== src/Api/Nodes/Sync.antt =====
-- nodes.go, importProxiesForNode: one round of the loop over the proxies.
use singboxhub.Prelude.{
  ℕ, ◌+◌, ◌≡◌, refl, String, Bool, true, false, Option, none, some, str_eq, if◌then◌else◌, ◌&&◌,
}
use singboxhub.Prelude.Dict.{get}
use singboxhub.Store.Nodes.{Node, Table, Result, ok, fail, create_node, update_node}
use singboxhub.Store.Nodes.Names.{
  HasUniqueNames, create_node-HasUniqueNames, update_node-HasUniqueNames,
}
use singboxhub.Store.Nodes.Rows.{
  OkHolds, or_same-OkHolds, IsSameBut, IsOfSource, create_node-IsSameBut, update_node-IsSameBut,
}
use singboxhub.Api.Nodes.{
  Proxy, World, Run, Plan, node_source, mode_of, same_text, after_update, update_child, child_node,
  after_create, create_child, unique_node_name, place_child, encrypted, note_seen, sync_proxy,
}
use singboxhub.Api.Nodes.Good.{
  IsGood, IsGoodOption, ArePrevious, get-All, own_row-IsGood, new_row-IsGood,
}

module _ (source : String) (t0 : Table) where
  after_update-IsGood :
      (id : String) (n : Node) (st : Run) (r : Result)
      → IsOfSource source t0 (id, n)
      → OkHolds (IsSameBut id st.table) r
      → OkHolds HasUniqueNames r
      → IsGood source t0 st
      → IsGoodOption source t0 (after_update st r)
  after_update-IsGood id n st (fail why) own same u g = tt
  after_update-IsGood id n st (ok t) own same u g =
      own_row-IsGood source t0 id n st t (st.updated + 1) own same u g

  update_child-IsGood :
      (w : World) (k : ℕ) (enc : String) (proxy : Proxy) (mode id : String) (cur : Node) (st : Run)
      → IsOfSource source t0 (id, cur)
      → IsGood source t0 st
      → IsGoodOption source t0 (update_child w k enc proxy mode id cur st)
  unfolding update_child
  update_child-IsGood w k enc proxy mode id cur st own g =
      at_test (same_text (w.decrypt cur.outbound_enc) proxy.outbound && str_eq cur.mode mode)
    where
      row : Node
      row = record cur { outbound_enc = enc; mode = mode }

      at_test :
          (b : Bool)
          → IsGoodOption source t0
              (if b then some st else after_update st (update_node (w.clock k) id row st.table))
      at_test true = g
      at_test false =
          after_update-IsGood id cur st (update_node (w.clock k) id row st.table) own
            (update_node-IsSameBut (w.clock k) id row st.table)
            (or_same-OkHolds HasUniqueNames st.table (update_node (w.clock k) id row st.table)
              (update_node-HasUniqueNames (w.clock k) id row st.table g.named))
            g

  after_create-IsGood :
      (id : String) (st : Run) (r : Result)
      → get id t0 ≡ none
      → OkHolds (IsSameBut id st.table) r
      → OkHolds HasUniqueNames r
      → IsGood source t0 st
      → IsGoodOption source t0 (after_create id st r)
  after_create-IsGood id st (fail why) fresh same u g = tt
  after_create-IsGood id st (ok t) fresh same u g = new_row-IsGood source t0 id st t fresh same u g

module _ (w : World) (plan : Plan) (t0 : Table) (fresh : (k : ℕ) → get (w.fresh_id k) t0 ≡ none)
    (previous : ArePrevious (node_source plan.anchor_id) t0 plan.previous) where
  create_child-IsGood :
      (k : ℕ) (enc : String) (proxy : Proxy) (mode : String) (st : Run)
      → IsGood (node_source plan.anchor_id) t0 st
      → IsGoodOption
          (node_source plan.anchor_id)
          t0
          (create_child w k plan.anchor_id plan.anchor enc proxy mode st)
  unfolding create_child
  create_child-IsGood k enc proxy mode st g =
      let child =
        child_node plan.anchor plan.anchor_id (unique_node_name proxy.name st.table) enc mode in
      let r = create_node (w.clock k) (w.fresh_id k) child st.table in
      after_create-IsGood (node_source plan.anchor_id) t0 (w.fresh_id k) st r (fresh k)
        (create_node-IsSameBut (w.clock k) (w.fresh_id k) child st.table)
        (or_same-OkHolds HasUniqueNames st.table r
          (create_node-HasUniqueNames (w.clock k) (w.fresh_id k) child st.table g.named))
        g

  note_seen-IsGood :
      (proxy : Proxy) (st : Run)
      → IsGood (node_source plan.anchor_id) t0 st
      → IsGood (node_source plan.anchor_id) t0 (note_seen proxy st)
  note_seen-IsGood proxy st g = record {
    keeps = g.keeps;
    named = g.named;
    are_new = g.are_new;
    are_noted = g.are_noted;
  }

  pub sync_proxy-IsGood :
      (k : ℕ) (proxy : Proxy) (st : Run)
      → IsGood (node_source plan.anchor_id) t0 st
      → IsGoodOption (node_source plan.anchor_id) t0 (sync_proxy w plan k proxy st)
  unfolding sync_proxy
  sync_proxy-IsGood k proxy st g = at_enc (w.encrypt k proxy.outbound)
    where
      noted : IsGood (node_source plan.anchor_id) t0 (note_seen proxy st)
      noted = note_seen-IsGood proxy st g

      at_previous :
          (enc : String) (o : Option (String × Node))
          → get proxy.name plan.previous ≡ o
          → IsGoodOption
              (node_source plan.anchor_id)
              t0
              (place_child w plan k proxy (note_seen proxy st) enc o)
      at_previous enc none e =
          create_child-IsGood k enc proxy (mode_of plan.modes proxy.name) (note_seen proxy st) noted
      at_previous enc (some (id, cur)) e =
          update_child-IsGood (node_source plan.anchor_id) t0 w k enc proxy
            (mode_of plan.modes proxy.name) id cur (note_seen proxy st)
            (get-All (IsOfSource (node_source plan.anchor_id) t0) proxy.name (id, cur) plan.previous
              previous e)
            noted

      at_enc :
          (o : Option String)
          → IsGoodOption
              (node_source plan.anchor_id)
              t0
              (encrypted w plan k proxy (note_seen proxy st) o)
      at_enc none = tt
      at_enc (some enc) = at_previous enc (get proxy.name plan.previous) refl
