-- ===== src/Store/Nodes/Rows.antt =====
-- nodes.go: which rows a statement changes, and which rows a query lists.
use singboxhub.Prelude.{
  ℕ, ◌≡◌, ◌≢◌, refl, ap, ◌∙◌, ◌⊎◌, inl, inr, String, Bool, true, false, Option, none, some, [], ◌∷◌,
  arith, str_eq, eq_iff, if◌then◌else◌, Bool-cases, All, Any,
}
use singboxhub.Prelude.TextOrder.{is_before}
use singboxhub.Prelude.Dict.{get, put, del, has, get-put, get-del, IsUnique}
use singboxhub.Store.Nodes.{
  Node, Table, not_found, unique_violation, Result, ok, fail, name_index, create_node, update_node,
  delete_node, updated_row, or_same, insert_row, list_nodes, with_source, list_nodes_by_source,
}

-- A property of the table of a result that is not an error.
abbrev pub OkHolds : (Table → Type 0) → Result → Type 0
OkHolds P (fail why) = Unit
OkHolds P (ok t) = P t

pub or_same-OkHolds : (P : Table → Type 0) (t : Table) (r : Result) → P (or_same t r) → OkHolds P r
or_same-OkHolds P t (fail why) h = tt
or_same-OkHolds P t (ok t') h = h

-- Every row but one is as before.
abbrev pub IsSameBut : String → Table → Table → Type 0
IsSameBut id t t' = (j : String) → id ≢ j → get j t' ≡ get j t

pub get-put_other : (id j : String) (n : Node) (t : Table) → id ≢ j → get j (put id n t) ≡ get j t
get-put_other id j n t differs = ground (arith, get-put id j n t, eq_iff id j, differs)

pub get-del_other : (id j : String) (t : Table) → id ≢ j → get j (del id t) ≡ get j t
get-del_other id j t differs = ground (arith, get-del id j t, eq_iff id j, differs)

pub create_node-IsSameBut :
    (now : ℕ) (id : String) (n : Node) (t : Table)
    → OkHolds (IsSameBut id t) (create_node now id n t)
unfolding create_node
create_node-IsSameBut now id n t = at_tests (has id t) (has n.name (name_index t))
  where
    row : Node
    row = record n { created_at = now; updated_at = now; last_online = 0 }

    at_tests :
        (b b' : Bool)
        → OkHolds (IsSameBut id t) (
            if b
            then fail unique_violation
            else if b'
            then fail unique_violation
            else ok (put id row t))
    at_tests true b' = tt
    at_tests false true = tt
    at_tests false false = λ j. λ differs. get-put_other id j row t differs

pub update_node-IsSameBut :
    (now : ℕ) (id : String) (n : Node) (t : Table)
    → OkHolds (IsSameBut id t) (update_node now id n t)
unfolding update_node
update_node-IsSameBut now id n t = at_row (get id t) (has n.name (name_index (del id t)))
  where
    at_row :
        (o : Option Node) (b : Bool)
        → OkHolds (IsSameBut id t) (elim o [
          | none ↦ fail not_found
          | some row ↦ if b then fail unique_violation else ok (put id (updated_row now n row) t)
        ])
    at_row none b = tt
    at_row (some row) true = tt
    at_row (some row) false = λ j. λ differs. get-put_other id j (updated_row now n row) t differs

pub delete_node-IsSameBut : (id : String) (t : Table) → OkHolds (IsSameBut id t) (delete_node id t)
unfolding delete_node
delete_node-IsSameBut id t = at_test (has id t)
  where
    at_test : (b : Bool) → OkHolds (IsSameBut id t) (if b then ok (del id t) else fail not_found)
    at_test true = λ j. λ differs. get-del_other id j t differs
    at_test false = tt

-- The rows of a query for a source stand in the table under that source.
abbrev pub IsOfSource : String → Table → String × Node → Type 0
IsOfSource source t r = (get r.0 t ≡ some r.1) × (r.1.source ≡ source)

pub insert_row-All :
    (P : String × Node → Type 0) (r : String × Node) (t : Table)
    → P r
    → All P t
    → All P (insert_row r t)
insert_row-All P r [] p h = (p, tt)
insert_row-All P r (s ∷ t) p h = at_test (is_before r.1.name s.1.name) (insert_row-All P r t p h.1)
  where
    at_test :
        (b : Bool) → All P (insert_row r t) → All P (if b then r ∷ s ∷ t else s ∷ insert_row r t)
    at_test true rest = (p, h)
    at_test false rest = (h.0, rest)

pub list_nodes-All : (P : String × Node → Type 0) (t : Table) → All P t → All P (list_nodes t)
unfolding list_nodes
list_nodes-All P [] h = tt
list_nodes-All P (r ∷ t) h = insert_row-All P r (list_nodes t) h.0 (list_nodes-All P t h.1)

with_source-All :
    (source : String) (t t' : Table)
    → All (λ r. get r.0 t' ≡ some r.1) t
    → All (IsOfSource source t') (with_source source t)
with_source-All source [] t' h = tt
with_source-All source (r ∷ t) t' h =
    at_test (Bool-cases (str_eq r.1.source source)) (with_source-All source t t' h.1)
  where
    at_test :
        (str_eq r.1.source source ≡ true) ⊎ (str_eq r.1.source source ≡ false)
        → All (IsOfSource source t') (with_source source t)
        → All (IsOfSource source t') (with_source source (r ∷ t))
    at_test (inl same) rest = rw same ((h.0, (eq_iff r.1.source source).0 same), rest)
    at_test (inr differs) rest = rw differs rest

entries-weaken :
    (k : String) (n : Node) (t t' : Table)
    → get k t ≡ none
    → All (λ r. get r.0 t ≡ some r.1) t'
    → All (λ r. get r.0 ((k, n) ∷ t) ≡ some r.1) t'
unfolding get
entries-weaken k n t [] free h = tt
entries-weaken k n t (r ∷ rs) free h = (
  elim (Bool-cases (str_eq k r.0)) [
    | inl same ↦ absurd (cc (h.0, free, ap (λ x. get x t) ((eq_iff k r.0).0 same)))
    | inr differs ↦ rw differs h.0
  ],
  entries-weaken k n t rs free h.1,
)

pub entries : (t : Table) → IsUnique t → All (λ r. get r.0 t ≡ some r.1) t
unfolding get
entries [] u = tt
entries ((k, n) ∷ t) u = (rw ((eq_iff k k).1 refl) refl, entries-weaken k n t t u.0 (entries t u.1))

-- A query for a source lists rows of the table that have it.
pub list_nodes_by_source-All :
    (source : String) (t : Table)
    → IsUnique t
    → All (IsOfSource source t) (list_nodes_by_source source t)
unfolding list_nodes_by_source
list_nodes_by_source-All source t u =
    list_nodes-All (IsOfSource source t) (with_source source t)
      (with_source-All source t t (entries t u))

insert_row-Any :
    (i : String) (r : String × Node) (t : Table)
    → (r.0 ≡ i) ⊎ Any (λ s. s.0 ≡ i) t
    → Any (λ s. s.0 ≡ i) (insert_row r t)
insert_row-Any i r [] h = h
insert_row-Any i r (s ∷ t) h = at_test (is_before r.1.name s.1.name) h (insert_row-Any i r t)
  where
    at_test :
        (b : Bool)
        → (r.0 ≡ i) ⊎ Any (λ s'. s'.0 ≡ i) (s ∷ t)
        → ((r.0 ≡ i) ⊎ Any (λ s'. s'.0 ≡ i) t → Any (λ s'. s'.0 ≡ i) (insert_row r t))
        → Any (λ s'. s'.0 ≡ i) (if b then r ∷ s ∷ t else s ∷ insert_row r t)
    at_test true h' rest = h'
    at_test false (inl e) rest = inr (rest (inl e))
    at_test false (inr (inl e)) rest = inl e
    at_test false (inr (inr e)) rest = inr (rest (inr e))

list_nodes-Any : (i : String) (t : Table) → Any (λ s. s.0 ≡ i) t → Any (λ s. s.0 ≡ i) (list_nodes t)
unfolding list_nodes
list_nodes-Any i [] h = h
list_nodes-Any i (r ∷ t) (inl e) = insert_row-Any i r (list_nodes t) (inl e)
list_nodes-Any i (r ∷ t) (inr e) = insert_row-Any i r (list_nodes t) (inr (list_nodes-Any i t e))

with_source-Any :
    (source i : String) (n : Node) (t : Table)
    → get i t ≡ some n
    → n.source ≡ source
    → Any (λ s. s.0 ≡ i) (with_source source t)
unfolding get
with_source-Any source i n [] e h = absurd (cc e)
with_source-Any source i n (r ∷ t) e h =
    at_tests (Bool-cases (str_eq r.0 i)) (Bool-cases (str_eq r.1.source source))
      (λ e'. with_source-Any source i n t e' h)
  where
    at_tests :
        (str_eq r.0 i ≡ true) ⊎ (str_eq r.0 i ≡ false)
        → (str_eq r.1.source source ≡ true) ⊎ (str_eq r.1.source source ≡ false)
        → (get i t ≡ some n → Any (λ s. s.0 ≡ i) (with_source source t))
        → Any (λ s. s.0 ≡ i) (with_source source (r ∷ t))
    at_tests (inl same) (inl of_source) rest = rw of_source (inl ((eq_iff r.0 i).0 same))
    at_tests (inl same) (inr other) rest =
        let found : r.1 ≡ n = cc (rw same at e) in
        absurd (cc (other, (eq_iff r.1.source source).1 (ap (λ m. m.source) found ∙ h)))
    at_tests (inr differs) (inl of_source) rest = rw of_source (inr (rest (rw differs at e)))
    at_tests (inr differs) (inr other) rest = rw other (rest (rw differs at e))

-- A query for a source lists the id of every row that has it.
pub list_nodes_by_source-Any :
    (source i : String) (n : Node) (t : Table)
    → get i t ≡ some n
    → n.source ≡ source
    → Any (λ s. s.0 ≡ i) (list_nodes_by_source source t)
unfolding list_nodes_by_source
list_nodes_by_source-Any source i n t e h =
    list_nodes-Any i (with_source source t) (with_source-Any source i n t e h)
