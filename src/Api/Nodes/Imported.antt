-- ===== src/Api/Nodes/Imported.antt =====
-- nodes.go, importProxiesForNode as a whole: the rows that it does not touch, and what is left of it
-- when it fails.
use singboxhub.Prelude.{
  ℕ, ◌≡◌, ◌≢◌, refl, ap, ◌∙◌, String, Bool, true, false, Option, none, some, List, [], ◌∷◌,
  if◌then◌else◌,
}
use mathlib.Core.Path.{subst}
use singboxhub.Prelude.Dict.{Dict, get, put, del, has, IsUnique, put-IsUnique}
use singboxhub.Store.Nodes.{
  Node, Table, Result, ok, fail, not_found, unique_violation, name_index, updated_row, update_node,
}
use singboxhub.Store.Nodes.Names.{HasUniqueNames, update_node-HasUniqueNames}
use singboxhub.Store.Nodes.Rows.{OkHolds, or_same-OkHolds, IsSameBut, update_node-IsSameBut}
use singboxhub.Api.Nodes.{
  Proxy, World, ImportStats, Outcome, failed, synced, node_source, sync_children, after_anchor,
  take_first_proxy, import_proxies_for_node,
}
use singboxhub.Api.Nodes.Synced.{sync_children-IsSafe}
use singboxhub.Api.Nodes.Good.{IsSafe}

-- The rows of other sources, the anchor's own aside.
abbrev pub KeepsRows : String → Table → Table → Type 0
KeepsRows anchor_id t t' =
    (i : String) (n : Node)
    → anchor_id ≢ i
    → get i t ≡ some n
    → n.source ≢ node_source anchor_id
    → get i t' ≡ some n

-- These rows are kept and names stay unique; after a failure no row is new.
abbrev pub IsSafeImport : String → Table → Outcome → Type 0
IsSafeImport anchor_id t (failed t') =
    KeepsRows anchor_id t t' × HasUniqueNames t' × ((i : String) → get i t ≡ none → get i t' ≡ none)
IsSafeImport anchor_id t (synced stats t') = KeepsRows anchor_id t t' × HasUniqueNames t'

IsSafe-import :
    (anchor_id : String) (row : Node) (t t1 : Table) (o : Outcome)
    → get anchor_id t ≡ some row
    → IsSameBut anchor_id t t1
    → IsSafe (node_source anchor_id) t1 o
    → IsSafeImport anchor_id t o
IsSafe-import anchor_id row t t1 (failed t') e same h = (
  (λ i. λ n. λ differs. λ found. λ other. h.0 i n (same i differs ∙ found) other),
  h.1,
  λ i. λ missing. h.2 i (same i (λ e'. absurd (cc (ap (λ x. get x t) e', e, missing))) ∙ missing),
)
IsSafe-import anchor_id row t t1 (synced stats t') e same h =
    ((λ i. λ n. λ differs. λ found. λ other. h.0 i n (same i differs ∙ found) other), h.1)

pub update_node-IsUnique :
    (now : ℕ) (id : String) (n : Node) (t : Table)
    → IsUnique t
    → OkHolds (λ t'. IsUnique t') (update_node now id n t)
unfolding update_node
update_node-IsUnique now id n t u = at_row (get id t) (has n.name (name_index (del id t)))
  where
    at_row :
        (o : Option Node) (b : Bool)
        → OkHolds
            (λ t'. IsUnique t')
            (elim o [
              | none ↦ fail not_found
              | some row ↦
                  if b then fail unique_violation else ok (put id (updated_row now n row) t)
            ])
    at_row none b = tt
    at_row (some row) true = tt
    at_row (some row) false = put-IsUnique id (updated_row now n row) t u

abbrev pub table_of : Outcome → Table
table_of (failed t) = t
table_of (synced stats t) = t

common :
    (anchor_id : String) (t : Table) (o : Outcome)
    → IsSafeImport anchor_id t o
    → KeepsRows anchor_id t (table_of o) × HasUniqueNames (table_of o)
common anchor_id t (failed t') h = (h.0, h.1)
common anchor_id t (synced stats t') h = h

module _ (w : World) (anchor_id : String) (anchor row : Node) (modes : Dict String) (t : Table)
    (fresh : (i : ℕ) → get (w.fresh_id i) t ≡ none) (u : IsUnique t) (named : HasUniqueNames t)
    (found : get anchor_id t ≡ some row) where
  unchanged : IsSafeImport anchor_id t (failed t)
  unchanged = ((λ i. λ n. λ differs. λ e. λ other. e), named, λ i. λ missing. missing)

  after_anchor-IsSafe :
      (filled : Node) (stats : ImportStats) (ps : List Proxy) (r : Result)
      → OkHolds (IsSameBut anchor_id t) r
      → OkHolds (λ t'. IsUnique t') r
      → OkHolds HasUniqueNames r
      → IsSafeImport anchor_id t
          (after_anchor t r (λ t'. sync_children w anchor_id filled modes stats 1 ps t'))
  after_anchor-IsSafe filled stats ps (fail why) same u' named' = unchanged
  after_anchor-IsSafe filled stats ps (ok t') same u' named' =
      IsSafe-import anchor_id row t t' (sync_children w anchor_id filled modes stats 1 ps t') found
        same
        (sync_children-IsSafe w anchor_id filled modes stats 1 ps t'
          (λ i.
            same (w.fresh_id i) (λ e. absurd (cc (ap (λ x. get x t) e, fresh i, found))) ∙ fresh i)
          u' named')

  take_first_proxy-IsSafe :
      (stats : ImportStats) (ps : List Proxy) (o : Option String)
      → IsSafeImport anchor_id t (
          take_first_proxy w anchor_id anchor o t
            (λ filled. λ t'. sync_children w anchor_id filled modes stats 1 ps t'))
  take_first_proxy-IsSafe stats ps none = unchanged
  take_first_proxy-IsSafe stats ps (some enc) =
      let filled : Node = record anchor { outbound_enc = enc } in
      let r = update_node (w.clock 0) anchor_id filled t in
      after_anchor-IsSafe filled stats ps r (update_node-IsSameBut (w.clock 0) anchor_id filled t)
        (update_node-IsUnique (w.clock 0) anchor_id filled t u)
        (or_same-OkHolds HasUniqueNames t r
          (update_node-HasUniqueNames (w.clock 0) anchor_id filled t named))

  import_proxies_for_node-IsSafe :
      (take_first : Bool) (proxies : List Proxy) (skips : ℕ)
      → IsSafeImport anchor_id t
          (import_proxies_for_node w anchor_id anchor take_first proxies skips modes t)
  unfolding import_proxies_for_node
  import_proxies_for_node-IsSafe take_first [] skips =
      ((λ i. λ n. λ differs. λ e. λ other. e), named)
  import_proxies_for_node-IsSafe true (first ∷ rest) skips =
      take_first_proxy-IsSafe _ rest (w.encrypt 0 first.outbound)
  import_proxies_for_node-IsSafe false (first ∷ rest) skips =
      IsSafe-import anchor_id row t t (sync_children w anchor_id anchor modes _ 0 (first ∷ rest) t)
        found (λ j. λ differs. refl)
        (sync_children-IsSafe w anchor_id anchor modes _ 0 (first ∷ rest) t fresh u named)

  -- An import for an anchor that stands in a table of unique ids and names, where the ids drawn are
  -- new, keeps every row that is neither the anchor nor imported from it, whether it fails or not.
  pub import_proxies_for_node-other :
      (take_first : Bool) (proxies : List Proxy) (skips : ℕ) (i : String) (n : Node)
      → anchor_id ≢ i
      → get i t ≡ some n
      → n.source ≢ node_source anchor_id
      → get i
          (table_of (import_proxies_for_node w anchor_id anchor take_first proxies skips modes t))
        ≡ some n
  import_proxies_for_node-other take_first proxies skips i n differs e other =
      (common anchor_id t
          (import_proxies_for_node w anchor_id anchor take_first proxies skips modes t)
          (import_proxies_for_node-IsSafe take_first proxies skips)).0
        i n differs e other

  -- After an import for an anchor that stands in a table of unique ids and names, where the ids drawn
  -- are new, two rows with one name are one row, whether the import fails or not.
  pub import_proxies_for_node-names :
      (take_first : Bool) (proxies : List Proxy) (skips : ℕ) (i j : String) (m n : Node)
      → get i
          (table_of (import_proxies_for_node w anchor_id anchor take_first proxies skips modes t))
        ≡ some m
      → get j
          (table_of (import_proxies_for_node w anchor_id anchor take_first proxies skips modes t))
        ≡ some n
      → m.name ≡ n.name
      → i ≡ j
  import_proxies_for_node-names take_first proxies skips i j m n e e' same =
      (common anchor_id t
          (import_proxies_for_node w anchor_id anchor take_first proxies skips modes t)
          (import_proxies_for_node-IsSafe take_first proxies skips)).1
        i j m n e e' same

  -- An import for an anchor that stands in a table of unique ids and names, where the ids drawn are
  -- new, leaves no row that was not there before when it fails.
  pub import_proxies_for_node-failed :
      (take_first : Bool) (proxies : List Proxy) (skips : ℕ) (t' : Table) (i : String)
      → import_proxies_for_node w anchor_id anchor take_first proxies skips modes t ≡ failed t'
      → get i t ≡ none
      → get i t' ≡ none
  import_proxies_for_node-failed take_first proxies skips t' i e missing =
      (subst (IsSafeImport anchor_id t) e
          (import_proxies_for_node-IsSafe take_first proxies skips)).2
        i missing
