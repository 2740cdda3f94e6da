-- ===== src/Api/Subscription/Exportable.antt =====
-- subscription.go: which nodes a profile is made of.
use singboxhub.Prelude.{
  ◌≡◌, ◌≢◌, refl, ◌⊎◌, inl, inr, String, true, false, not, ◌||◌, Option, none, some, List, [], ◌∷◌,
  str_eq, eq_iff, if◌then◌else◌, Bool-cases, All,
}
use singboxhub.Prelude.Dict.{get, IsUnique}
use singboxhub.Store.Nodes.{Node, Table, list_nodes}
use singboxhub.Store.Nodes.Rows.{entries, list_nodes-All}
use singboxhub.Subscribe.Value.{
  Value, null, boolean, int, float, text, array, object, other, lookup, store,
}
use singboxhub.Subscribe.Fields.{lookup-store_same}
use singboxhub.Subscribe.Parse.{Node as ExportNode}
use singboxhub.Api.Subscription.{
  World, rename_outbound_tag, exported, export_rows, exportable_nodes,
}

-- The tag of an outbound that is an object.
abbrev pub tag_of : Option Value → Option Value
tag_of (some (object m)) = lookup "tag" m
tag_of _ = none

-- The node stands in the table, is enabled and has an outbound; the tag of what is exported, if any, is
-- the node's name.
abbrev pub IsExportOf : World → Table → ExportNode → Type 0
IsExportOf w t m =
    (id : String) × (n : Node) × (get id t ≡ some n)
    × (n.enabled ≡ true)
    × (n.outbound_enc ≢ "")
    × (m.name ≡ n.name)
    × ((tag_of m.outbound ≡ none) ⊎ (tag_of m.outbound ≡ some (text n.name)))

tag_of-rename_outbound_tag :
    (raw : Option Value) (name : String)
    → (tag_of (rename_outbound_tag raw name) ≡ none)
      ⊎ (tag_of (rename_outbound_tag raw name) ≡ some (text name))
unfolding rename_outbound_tag lookup
tag_of-rename_outbound_tag none name = inl refl
tag_of-rename_outbound_tag (some (object m)) name = at_tag (lookup "tag" m) refl
  where
    at_tag :
        (o : Option Value)
        → lookup "tag" m ≡ o
        → (tag_of (elim o [
          | none ↦ some (object m)
          | some _ ↦ some (object (store "tag" (text name) m))
        ])
            ≡ none)
          ⊎ (tag_of (elim o [
            | none ↦ some (object m)
            | some _ ↦ some (object (store "tag" (text name) m))
          ])
              ≡ some (text name))
    at_tag none e = inl e
    at_tag (some v) e = inr (lookup-store_same "tag" (text name) m)
tag_of-rename_outbound_tag (some null) name = inl refl
tag_of-rename_outbound_tag (some (boolean b)) name = inl refl
tag_of-rename_outbound_tag (some (int n)) name = inl refl
tag_of-rename_outbound_tag (some (float w t)) name = inl refl
tag_of-rename_outbound_tag (some (text s)) name = inl refl
tag_of-rename_outbound_tag (some (array vs)) name = inl refl
tag_of-rename_outbound_tag (some other) name = inl refl

exported-All :
    (w : World) (t : Table) (id : String) (n : Node) (rest : List ExportNode) (o : Option String)
    → get id t ≡ some n
    → n.enabled ≡ true
    → n.outbound_enc ≢ ""
    → All (IsExportOf w t) rest
    → All (IsExportOf w t) (exported w n.name o rest)
exported-All w t id n rest none row on outbound h = h
exported-All w t id n rest (some plain) row on outbound h =
    ((id, n, row, on, outbound, refl, tag_of-rename_outbound_tag (w.decode plain) n.name), h)

export_rows-All :
    (w : World) (t rows : Table)
    → All (λ r. get r.0 t ≡ some r.1) rows
    → All (IsExportOf w t) (export_rows w rows)
unfolding export_rows
export_rows-All w t [] h = tt
export_rows-All w t ((id, n) ∷ rows) h =
    at_tests (Bool-cases n.enabled) (Bool-cases (str_eq n.outbound_enc "")) (export_rows w rows)
      (export_rows-All w t rows h.1)
  where
    at_tests :
        (n.enabled ≡ true) ⊎ (n.enabled ≡ false)
        → (str_eq n.outbound_enc "" ≡ true) ⊎ (str_eq n.outbound_enc "" ≡ false)
        → (rest : List ExportNode) → All (IsExportOf w t) rest
        → All (IsExportOf w t) (
            if not n.enabled || str_eq n.outbound_enc ""
            then rest
            else exported w n.name (w.decrypt n.outbound_enc) rest)
    at_tests (inr off) b rest g = rw off g
    at_tests (inl on) (inl missing) rest g = rw (on, missing) g
    at_tests (inl on) (inr some_outbound) rest g =
        rw (on, some_outbound)
          (exported-All w t id n rest (w.decrypt n.outbound_enc) h.0 on
            (λ e. absurd (cc (some_outbound, (eq_iff n.outbound_enc "").1 e))) g)

-- Every node of a profile is an enabled row of the nodes table that has an outbound, under the row's
-- name; the tag of its outbound, if it has one, is that name.
pub exportable_nodes-All :
    (w : World) (t : Table) → IsUnique t → All (IsExportOf w t) (exportable_nodes w t)
unfolding exportable_nodes
exportable_nodes-All w t u =
    export_rows-All w t (list_nodes t) (list_nodes-All (λ r. get r.0 t ≡ some r.1) t (entries t u))
