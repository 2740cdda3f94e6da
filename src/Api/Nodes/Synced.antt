-- ===== src/Api/Nodes/Synced.antt =====
-- nodes.go, importProxiesForNode: the loops over the proxies and over the previous children.
use singboxhub.Prelude.{
  ℕ, suc, ◌+◌, ◌≡◌, inr, String, Bool, true, false, Option, none, some, List, [], ◌∷◌, str_eq,
  if◌then◌else◌, All,
}
use singboxhub.Prelude.Dict.{Dict, get, put, has, IsUnique}
use singboxhub.Store.Nodes.{Node, Table, Result, ok, fail, delete_node, list_nodes_by_source}
use singboxhub.Store.Nodes.Names.{HasUniqueNames, delete_node-HasUniqueNames}
use singboxhub.Store.Nodes.Rows.{
  OkHolds, or_same-OkHolds, IsSameBut, IsOfSource, delete_node-IsSameBut, list_nodes_by_source-All,
}
use singboxhub.Api.Nodes.{
  Proxy, World, ImportStats, Run, Plan, Outcome, node_source, by_name, sync_proxy, after_delete,
  remove_stale, after_sync, sync_proxies, start, sync_children,
}
use singboxhub.Api.Nodes.Good.{
  IsGood, IsGoodOption, IsSafe, ArePrevious, roll_back-IsSafe, own_row-IsGood,
}
use singboxhub.Api.Nodes.Sync.{sync_proxy-IsGood}

remove_stale-IsSafe :
    (source : String) (t0 : Table) (prev : Dict (String × Node)) (removed : ℕ) (stats : ImportStats)
    (st : Run)
    → ArePrevious source t0 prev
    → IsGood source t0 st
    → IsSafe source t0 (remove_stale prev removed stats st)
unfolding remove_stale
remove_stale-IsSafe source t0 [] removed stats st own g = (g.keeps, g.named)
remove_stale-IsSafe source t0 ((name, (id, cur)) ∷ prev) removed stats st own g =
    at_seen (has name st.seen) (remove_stale-IsSafe source t0 prev removed stats st own.1 g) (λ t.
      λ g'.
        remove_stale-IsSafe source t0 prev (removed + 1) stats (record st { table = t }) own.1 g')
  where
    at_result :
        (r : Result)
        → OkHolds (IsSameBut id st.table) r
        → OkHolds HasUniqueNames r
        → ((t : Table)
            → IsGood source t0 (record st { table = t })
            → IsSafe source t0 (remove_stale prev (removed + 1) stats (record st { table = t })))
        → IsSafe source t0 (
            after_delete st r
              (λ t. remove_stale prev (removed + 1) stats (record st { table = t })))
    at_result (fail why) same u rest = roll_back-IsSafe source t0 st g
    at_result (ok t) same u rest =
        rest t (own_row-IsGood source t0 id cur st t st.updated own.0 same u g)

    at_seen :
        (b : Bool)
        → IsSafe source t0 (remove_stale prev removed stats st)
        → ((t : Table)
            → IsGood source t0 (record st { table = t })
            → IsSafe source t0 (remove_stale prev (removed + 1) stats (record st { table = t })))
        → IsSafe source t0 (
            if b
            then remove_stale prev removed stats st
            else after_delete st
                (delete_node id st.table)
                (λ t. remove_stale prev (removed + 1) stats (record st { table = t })))
    at_seen true kept rest = kept
    at_seen false kept rest =
        at_result (delete_node id st.table) (delete_node-IsSameBut id st.table)
          (or_same-OkHolds HasUniqueNames st.table (delete_node id st.table)
            (delete_node-HasUniqueNames id st.table g.named))
          rest

module _ (w : World) (plan : Plan) (t0 : Table) (fresh : (k : ℕ) → get (w.fresh_id k) t0 ≡ none)
    (previous : ArePrevious (node_source plan.anchor_id) t0 plan.previous) where
  after_sync-IsSafe :
      (st : Run) (o : Option Run) (go_on : Run → Outcome)
      → IsGood (node_source plan.anchor_id) t0 st
      → IsGoodOption (node_source plan.anchor_id) t0 o
      → ((st' : Run)
          → IsGood (node_source plan.anchor_id) t0 st'
          → IsSafe (node_source plan.anchor_id) t0 (go_on st'))
      → IsSafe (node_source plan.anchor_id) t0 (after_sync st o go_on)
  after_sync-IsSafe st none go_on g h rest = roll_back-IsSafe (node_source plan.anchor_id) t0 st g
  after_sync-IsSafe st (some st') go_on g h rest = rest st' h

  sync_proxies-IsSafe :
      (stats : ImportStats) (k : ℕ) (ps : List Proxy) (st : Run)
      → IsGood (node_source plan.anchor_id) t0 st
      → IsSafe (node_source plan.anchor_id) t0 (sync_proxies w plan stats k ps st)
  unfolding sync_proxies
  sync_proxies-IsSafe stats k [] st g =
      remove_stale-IsSafe (node_source plan.anchor_id) t0 plan.previous 0 stats st previous g
  sync_proxies-IsSafe stats k (proxy ∷ ps) st g =
      after_sync-IsSafe st (sync_proxy w plan k proxy st)
        (λ st'. sync_proxies w plan stats (suc k) ps st') g
        (sync_proxy-IsGood w plan t0 fresh previous k proxy st g)
        (λ st'. λ g'. sync_proxies-IsSafe stats (suc k) ps st' g')

put-ArePrevious :
    (source : String) (t0 : Table) (k : String) (row : String × Node) (d : Dict (String × Node))
    → IsOfSource source t0 row
    → ArePrevious source t0 d
    → ArePrevious source t0 (put k row d)
unfolding put
put-ArePrevious source t0 k row [] own h = (own, tt)
put-ArePrevious source t0 k row ((j, r) ∷ d) own h =
    at_test (str_eq j k) (put-ArePrevious source t0 k row d own h.1)
  where
    at_test :
        (b : Bool)
        → ArePrevious source t0 (put k row d)
        → ArePrevious source t0 (if b then (k, row) ∷ d else (j, r) ∷ put k row d)
    at_test true rest = (own, h.1)
    at_test false rest = (h.0, rest)

pub by_name-ArePrevious :
    (source : String) (t0 rows : Table)
    → All (IsOfSource source t0) rows
    → ArePrevious source t0 (by_name rows)
unfolding by_name
by_name-ArePrevious source t0 [] h = tt
by_name-ArePrevious source t0 ((id, n) ∷ rows) h =
    put-ArePrevious source t0 n.name (id, n) (by_name rows) h.0
      (by_name-ArePrevious source t0 rows h.1)

pub sync_children-IsSafe :
    (w : World) (anchor_id : String) (anchor : Node) (modes : Dict String) (stats : ImportStats)
    (k : ℕ) (ps : List Proxy) (t : Table)
    → ((i : ℕ) → get (w.fresh_id i) t ≡ none)
    → IsUnique t
    → HasUniqueNames t
    → IsSafe (node_source anchor_id) t (sync_children w anchor_id anchor modes stats k ps t)
unfolding sync_children
sync_children-IsSafe w anchor_id anchor modes stats k ps t fresh u named =
    let source = node_source anchor_id in
    let plan : Plan = record {
      anchor_id = anchor_id;
      anchor = anchor;
      previous = by_name (list_nodes_by_source source t);
      modes = modes;
    } in
    sync_proxies-IsSafe w plan t fresh
      (by_name-ArePrevious source t (list_nodes_by_source source t)
        (list_nodes_by_source-All source t u))
      stats k ps (start t)
      (record {
        keeps = (λ i. λ n. λ e. λ other. e);
        named = named;
        are_new = tt;
        are_noted = (λ i. λ e. inr e);
      })
