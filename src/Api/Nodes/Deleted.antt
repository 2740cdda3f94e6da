-- ===== src/Api/Nodes/Deleted.antt =====
-- nodes.go, handleDeleteNode and rollbackCreatedNodes: which rows are gone.
use singboxhub.Prelude.{
  ◌≡◌, ◌≢◌, refl, ap, ◌∙◌, sym, ◌⊎◌, inl, inr, String, Bool, true, false, Option, none, some, List,
  [], ◌∷◌, arith, str_eq, eq_iff, if◌then◌else◌, Bool-cases, Option-cases, All, Any,
}
use singboxhub.Prelude.Dict.{get, del, has, get-del, IsUnique}
use singboxhub.Store.Nodes.{
  Node, Table, ok, fail, not_found, delete_node, list_nodes_by_source, or_same,
}
use singboxhub.Store.Nodes.Rows.{IsOfSource, list_nodes_by_source-All, list_nodes_by_source-Any}
use singboxhub.Api.Nodes.{rollback_created_nodes, delete_children, node_source, handle_delete_node}

-- Deleting a row, where an error is only logged.
pub get-delete_node :
    (id i : String) (t : Table)
    → get i (or_same t (delete_node id t)) ≡ (if str_eq id i then none else get i t)
unfolding delete_node has
get-delete_node id i t = at_row (Option-cases (get id t))
  where
    missing : str_eq id i ≡ true → get id t ≡ none → get i t ≡ none
    missing same e = ap (λ x. get x t) (sym ((eq_iff id i).0 same)) ∙ e

    at_row :
        (get id t ≡ none) ⊎ ((n : Node) × (get id t ≡ some n))
        → get i (or_same t (if has id t then ok (del id t) else fail not_found))
          ≡ (if str_eq id i then none else get i t)
    at_row (inl e) =
        rw (has, e)
          (elim (Bool-cases (str_eq id i)) [
            | inl same ↦ rw same (missing same e)
            | inr differs ↦ rw differs refl
          ])
    at_row (inr (n, e)) = rw (has, e) (get-del id i t)

get-delete_node_missing :
    (id i : String) (t : Table) → get i t ≡ none → get i (or_same t (delete_node id t)) ≡ none
get-delete_node_missing id i t e = get-delete_node id i t ∙ ground (arith, e)

pub rollback_created_nodes-none :
    (ids : List String) (i : String) (t : Table)
    → Any (λ id. id ≡ i) ids ⊎ (get i t ≡ none)
    → get i (rollback_created_nodes ids t) ≡ none
unfolding rollback_created_nodes
rollback_created_nodes-none [] i t (inl h) = elim h [ ]
rollback_created_nodes-none [] i t (inr e) = e
rollback_created_nodes-none (id ∷ ids) i t (inl (inl same)) =
    rollback_created_nodes-none ids i (or_same t (delete_node id t))
      (inr (get-delete_node id i t ∙ rw ((eq_iff id i).1 same) refl))
rollback_created_nodes-none (id ∷ ids) i t (inl (inr h)) =
    rollback_created_nodes-none ids i (or_same t (delete_node id t)) (inl h)
rollback_created_nodes-none (id ∷ ids) i t (inr e) =
    rollback_created_nodes-none ids i (or_same t (delete_node id t))
      (inr (get-delete_node_missing id i t e))

pub get-delete_node_other :
    (id i : String) (t : Table) → id ≢ i → get i (or_same t (delete_node id t)) ≡ get i t
get-delete_node_other id i t differs = get-delete_node id i t ∙ ground (arith, eq_iff id i, differs)

pub rollback_created_nodes-other :
    (ids : List String) (i : String) (t : Table)
    → All (λ id. id ≢ i) ids
    → get i (rollback_created_nodes ids t) ≡ get i t
unfolding rollback_created_nodes
rollback_created_nodes-other [] i t h = refl
rollback_created_nodes-other (id ∷ ids) i t h =
    rollback_created_nodes-other ids i (or_same t (delete_node id t)) h.1
    ∙ get-delete_node_other id i t h.0

delete_children-none :
    (children : Table) (i : String) (t : Table)
    → Any (λ r. r.0 ≡ i) children ⊎ (get i t ≡ none)
    → get i (delete_children children t) ≡ none
unfolding delete_children
delete_children-none [] i t (inl h) = elim h [ ]
delete_children-none [] i t (inr e) = e
delete_children-none ((id, n) ∷ children) i t (inl (inl same)) =
    delete_children-none children i (or_same t (delete_node id t))
      (inr (get-delete_node id i t ∙ rw ((eq_iff id i).1 same) refl))
delete_children-none ((id, n) ∷ children) i t (inl (inr h)) =
    delete_children-none children i (or_same t (delete_node id t)) (inl h)
delete_children-none ((id, n) ∷ children) i t (inr e) =
    delete_children-none children i (or_same t (delete_node id t))
      (inr (get-delete_node_missing id i t e))

delete_children-other :
    (children : Table) (i : String) (t : Table)
    → All (λ r. r.0 ≢ i) children
    → get i (delete_children children t) ≡ get i t
unfolding delete_children
delete_children-other [] i t h = refl
delete_children-other ((id, n) ∷ children) i t h =
    delete_children-other children i (or_same t (delete_node id t)) h.1
    ∙ get-delete_node_other id i t h.0

-- A row of another source is none of those that a query for the source lists.
pub not_listed :
    (source : String) (i : String) (n : Node) (t rows : Table)
    → get i t ≡ some n
    → n.source ≢ source
    → All (IsOfSource source t) rows
    → All (λ r. r.0 ≢ i) rows
not_listed source i n t [] e other h = tt
not_listed source i n t (r ∷ rows) e other h = (
  (λ same. other (cc (ap (λ x. get x t) same, h.0.0, h.0.1, e))),
  not_listed source i n t rows e other h.1,
)

abbrev unless_of : String → Option Node → Option Node
unless_of source none = none
unless_of source (some n) = if str_eq n.source source then none else some n

-- What is left of a row after its anchor was deleted.
abbrev pub left_after : String → String → Option Node → Option Node
left_after id i row = if str_eq id i then none else unless_of (node_source id) row

get-delete_children :
    (id i : String) (t : Table)
    → IsUnique t
    → get i (delete_children (list_nodes_by_source (node_source id) t) t)
      ≡ unless_of (node_source id) (get i t)
get-delete_children id i t u = at_row (get i t) refl
  where
    source : String
    source = node_source id

    at_row :
        (o : Option Node)
        → get i t ≡ o
        → get i (delete_children (list_nodes_by_source (node_source id) t) t)
          ≡ unless_of (node_source id) o
    at_row none e = delete_children-none (list_nodes_by_source (node_source id) t) i t (inr e)
    at_row (some n) e = elim (Bool-cases (str_eq n.source (node_source id))) [
      | inl same ↦ rw same (
          delete_children-none (list_nodes_by_source (node_source id) t) i t (
            inl (
              list_nodes_by_source-Any (node_source id) i n t e
                ((eq_iff n.source (node_source id)).0 same))))
      | inr differs ↦ rw differs (
          delete_children-other (list_nodes_by_source (node_source id) t) i t (
            not_listed (node_source id) i n t (list_nodes_by_source (node_source id) t) e
              (λ h. absurd (cc (differs, (eq_iff n.source (node_source id)).1 h)))
              (list_nodes_by_source-All (node_source id) t u))
          ∙ e)
    ]

-- Deleting a node that stands in a table of unique ids and was not imported from itself succeeds: its
-- row and those imported from it are gone, and every other row is as before.
pub handle_delete_node-rows :
    (id i : String) (anchor : Node) (t : Table)
    → IsUnique t
    → get id t ≡ some anchor
    → anchor.source ≢ node_source id
    → (t' : Table) × (handle_delete_node id t ≡ ok t') × (get i t' ≡ left_after id i (get i t))
unfolding handle_delete_node delete_node has
handle_delete_node-rows id i anchor t u e other =
    let left = delete_children (list_nodes_by_source (node_source id) t) t in
    let stays : get id left ≡ some anchor =
      get-delete_children id id t u ∙ rw e (kept (str_eq anchor.source (node_source id)) refl) in
    (
      del id left,
      rw (has, stays) refl,
      get-del id i left ∙ ap (λ o. if str_eq id i then none else o) (get-delete_children id i t u),
    )
  where
    kept :
        (b : Bool)
        → str_eq anchor.source (node_source id) ≡ b
        → (if b then none else some anchor) ≡ some anchor
    kept true same = absurd (other ((eq_iff anchor.source (node_source id)).0 same))
    kept false differs = refl
