-- ===== src/Store/Nodes/Names.antt =====
-- nodes.go: the statements keep the names of the rows unique, and change no row but their own.
use singboxhub.Prelude.{
  ℕ, ◌≡◌, ◌≢◌, refl, ap, ◌∙◌, sym, inl, inr, ◌⊎◌, String, Bool, true, false, Option, none, some, [],
  ◌∷◌, arith, str_eq, eq_iff, if◌then◌else◌, Bool-cases,
}
use singboxhub.Prelude.Dict.{get, put, del, has, get-put, get-del}
use singboxhub.Store.Nodes.{
  Node, Table, ok, fail, name_index, create_node, update_node, delete_node, updated_row,
  set_last_online, or_same, not_found, unique_violation,
}

-- Two rows under one name are one row.
abbrev pub HasUniqueNames : Table → Type 0
HasUniqueNames t =
    (i j : String) (m n : Node) → get i t ≡ some m → get j t ≡ some n → m.name ≡ n.name → i ≡ j

has-name_index :
    (i : String) (n : Node) (t : Table) → get i t ≡ some n → has n.name (name_index t) ≡ true
unfolding name_index get has
has-name_index i n [] e = absurd (cc e)
has-name_index i n ((j, m) ∷ t) e = elim (Bool-cases (str_eq m.name n.name)) [
  | inl named ↦ rw (named, has) refl
  | inr other ↦
      rw (other, has)
        (elim (Bool-cases (str_eq j i)) [
          | inl same ↦
              absurd (cc (other, (eq_iff m.name n.name).1 (ap (λ o. name_or o) (rw same at e))))
          | inr differs ↦ has-name_index i n t (rw differs at e)
        ])
]
  where
    name_or : Option Node → String
    name_or none = ""
    name_or (some k) = k.name

-- The rows after a statement on one row.
get-put_cases :
    (id i : String) (n m : Node) (t : Table)
    → get i (put id n t) ≡ some m
    → ((id ≡ i) × (n ≡ m)) ⊎ ((id ≢ i) × (get i t ≡ some m))
get-put_cases id i n m t e = elim (Bool-cases (str_eq id i)) [
  | inl same ↦ inl ((eq_iff id i).0 same, cc (rw (get-put id i n t, same) at e))
  | inr differs ↦
      inr ((λ h. absurd (cc (differs, (eq_iff id i).1 h))), rw (get-put id i n t, differs) at e)
]

get-del_other : (id i : String) (t : Table) → id ≢ i → get i (del id t) ≡ get i t
get-del_other id i t differs = ground (arith, get-del id i t, eq_iff id i, differs)

-- A row under a name that is free keeps the names unique.
pub put-HasUniqueNames :
    (id : String) (n : Node) (t : Table)
    → has n.name (name_index (del id t)) ≡ false
    → HasUniqueNames t
    → HasUniqueNames (put id n t)
put-HasUniqueNames id n t free u i j m m' e e' same =
    at_rows (get-put_cases id i n m t e) (get-put_cases id j n m' t e')
  where
    taken : (k : String) (row : Node) → id ≢ k → get k t ≡ some row → row.name ≢ n.name
    taken k row differs h named =
        let found = has-name_index k row (del id t) (get-del_other id k t differs ∙ h) in
        cc (found, free, ap (λ x. has x (name_index (del id t))) named)

    at_rows :
        ((id ≡ i) × (n ≡ m)) ⊎ ((id ≢ i) × (get i t ≡ some m))
        → ((id ≡ j) × (n ≡ m')) ⊎ ((id ≢ j) × (get j t ≡ some m'))
        → i ≡ j
    at_rows (inl a) (inl b) = sym a.0 ∙ b.0
    at_rows (inl a) (inr b) = absurd (taken j m' b.0 b.1 (sym same ∙ ap (λ r. r.name) (sym a.1)))
    at_rows (inr a) (inl b) = absurd (taken i m a.0 a.1 (same ∙ ap (λ r. r.name) (sym b.1)))
    at_rows (inr a) (inr b) = u i j m m' a.1 b.1 same

del-HasUniqueNames : (id : String) (t : Table) → HasUniqueNames t → HasUniqueNames (del id t)
del-HasUniqueNames id t u i j m n e e' same = u i j m n (kept i m e) (kept j n e') same
  where
    kept : (k : String) (row : Node) → get k (del id t) ≡ some row → get k t ≡ some row
    kept k row h = ground (arith, get-del id k t, h)

-- A free name is free among the other rows.
has-name_index-del :
    (x id : String) (t : Table)
    → has x (name_index t) ≡ false
    → has x (name_index (del id t)) ≡ false
unfolding name_index del has get
has-name_index-del x id [] h = refl
has-name_index-del x id ((j, m) ∷ t) h = elim (Bool-cases (str_eq m.name x)) [
  | inl named ↦ absurd (cc (rw (has, named) at h))
  | inr other ↦
      let rest = has-name_index-del x id t (rw (has, other) at h) in
      elim (Bool-cases (str_eq j id)) [
        | inl same ↦ rw same rest
        | inr differs ↦ rw (differs, has, other) rest
      ]
]

-- A row that keeps its name keeps the names unique.
put_same_name-HasUniqueNames :
    (id : String) (row n : Node) (t : Table)
    → get id t ≡ some row
    → n.name ≡ row.name
    → HasUniqueNames t
    → HasUniqueNames (put id n t)
put_same_name-HasUniqueNames id row n t found kept u i j m m' e e' same =
    at_rows (get-put_cases id i n m t e) (get-put_cases id j n m' t e')
  where
    at_rows :
        ((id ≡ i) × (n ≡ m)) ⊎ ((id ≢ i) × (get i t ≡ some m))
        → ((id ≡ j) × (n ≡ m')) ⊎ ((id ≢ j) × (get j t ≡ some m'))
        → i ≡ j
    at_rows (inl a) (inl b) = sym a.0 ∙ b.0
    at_rows (inl a) (inr b) =
        sym a.0 ∙ u id j row m' found b.1 (sym kept ∙ ap (λ r. r.name) a.1 ∙ same)
    at_rows (inr a) (inl b) =
        u i id m row a.1 found (same ∙ ap (λ r. r.name) (sym b.1) ∙ kept) ∙ b.0
    at_rows (inr a) (inr b) = u i j m m' a.1 b.1 same

pub create_node-HasUniqueNames :
    (now : ℕ) (id : String) (n : Node) (t : Table)
    → HasUniqueNames t
    → HasUniqueNames (or_same t (create_node now id n t))
unfolding create_node
create_node-HasUniqueNames now id n t u = at_tests (has id t) (has n.name (name_index t)) refl
  where
    row : Node
    row = record n { created_at = now; updated_at = now; last_online = 0 }

    at_tests :
        (b b' : Bool)
        → has n.name (name_index t) ≡ b'
        → HasUniqueNames (
            or_same t (
              if b
              then fail unique_violation
              else if b'
              then fail unique_violation
              else ok (put id row t)))
    at_tests true b' e = u
    at_tests false true e = u
    at_tests false false e = put-HasUniqueNames id row t (has-name_index-del n.name id t e) u

pub update_node-HasUniqueNames :
    (now : ℕ) (id : String) (n : Node) (t : Table)
    → HasUniqueNames t
    → HasUniqueNames (or_same t (update_node now id n t))
unfolding update_node
update_node-HasUniqueNames now id n t u =
    at_row (get id t) (has n.name (name_index (del id t))) refl
  where
    at_row :
        (o : Option Node) (b : Bool)
        → has n.name (name_index (del id t)) ≡ b
        → HasUniqueNames (
            or_same t (elim o [
              | none ↦ fail not_found
              | some row ↦
                  if b then fail unique_violation else ok (put id (updated_row now n row) t)
            ]))
    at_row none b e = u
    at_row (some row) true e = u
    at_row (some row) false e = put-HasUniqueNames id (updated_row now n row) t e u

pub delete_node-HasUniqueNames :
    (id : String) (t : Table) → HasUniqueNames t → HasUniqueNames (or_same t (delete_node id t))
unfolding delete_node
delete_node-HasUniqueNames id t u = at_test (has id t)
  where
    at_test : (b : Bool) → HasUniqueNames (or_same t (if b then ok (del id t) else fail not_found))
    at_test true = del-HasUniqueNames id t u
    at_test false = u

set_last_online-HasUniqueNames :
    (id : String) (ts : ℕ) (t : Table) → HasUniqueNames t → HasUniqueNames (set_last_online id ts t)
unfolding set_last_online
set_last_online-HasUniqueNames id ts t u = at_row (get id t) refl
  where
    at_row :
        (o : Option Node)
        → get id t ≡ o
        → HasUniqueNames
            (elim o [ none ↦ t | some row ↦ put id (record row { last_online = ts }) t ])
    at_row none e = u
    at_row (some row) e =
        put_same_name-HasUniqueNames id row (record row { last_online = ts }) t e refl u

-- The tables that the statements lead to from the empty one, a failed statement changing nothing.
pub data Reached : Table → Type 0 where
  empty : Reached []
  created :
      (now : ℕ) (id : String) (n : Node) {t : Table}
      → Reached t
      → Reached (or_same t (create_node now id n t))
  updated :
      (now : ℕ) (id : String) (n : Node) {t : Table}
      → Reached t
      → Reached (or_same t (update_node now id n t))
  deleted : (id : String) {t : Table} → Reached t → Reached (or_same t (delete_node id t))
  seen_online : (id : String) (ts : ℕ) {t : Table} → Reached t → Reached (set_last_online id ts t)

-- In every table that creating, updating and deleting nodes and noting them online lead to from the
-- empty one, two rows with one name are one row.
pub Reached-HasUniqueNames :
    (t : Table)
    → Reached t
    → (i j : String) (m n : Node) → get i t ≡ some m
    → get j t ≡ some n
    → m.name ≡ n.name
    → i ≡ j
unfolding get
Reached-HasUniqueNames t empty = λ i. λ j. λ m. λ n. λ e. λ e'. λ same. absurd (cc e)
Reached-HasUniqueNames t (created now id n {t = t'} r) =
    create_node-HasUniqueNames now id n t' (Reached-HasUniqueNames t' r)
Reached-HasUniqueNames t (updated now id n {t = t'} r) =
    update_node-HasUniqueNames now id n t' (Reached-HasUniqueNames t' r)
Reached-HasUniqueNames t (deleted id {t = t'} r) =
    delete_node-HasUniqueNames id t' (Reached-HasUniqueNames t' r)
Reached-HasUniqueNames t (seen_online id ts {t = t'} r) =
    set_last_online-HasUniqueNames id ts t' (Reached-HasUniqueNames t' r)
