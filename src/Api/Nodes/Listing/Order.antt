-- ===== src/Api/Nodes/Listing/Order.antt =====
-- nodes.go, handleListNodes: what stands after a name in rows that are ordered by name.
use singboxhub.Prelude.{
  ◌≡◌, ◌≢◌, refl, ap, ◌⊎◌, inl, inr, String, Bool, true, false, none, some, [], ◌∷◌, ◌++◌, str_eq,
  eq_iff, if◌then◌else◌, Bool-cases, All,
}
use singboxhub.Prelude.Dict.{get, IsUnique}
use singboxhub.Prelude.TextOrder.{is_before, is_before_irrefl, is_before_trans, is_before_total}
use singboxhub.Store.Nodes.{Node, Table, list_nodes, insert_row}
use singboxhub.Store.Nodes.Names.{HasUniqueNames}
use singboxhub.Store.Nodes.Rows.{entries, insert_row-All, list_nodes-All}
use singboxhub.Api.Nodes.Listing.{Query, passes}
use singboxhub.Api.Nodes.Listing.Walk.{select, is_listed, last_name}

-- In the order of the names, no two alike.
abbrev pub IsAsc : Table → Type 0
IsAsc [] = Unit
IsAsc (row ∷ rows) = All (λ s. is_before row.1.name s.1.name ≡ true) rows × IsAsc rows

-- No two rows have one name.
abbrev IsApart : Table → Type 0
IsApart [] = Unit
IsApart (row ∷ rows) = All (λ s. row.1.name ≢ s.1.name) rows × IsApart rows

select-all :
    (p : String × Node → Bool) (rows : Table) → All (λ s. p s ≡ true) rows → select p rows ≡ rows
select-all p [] h = refl
select-all p (row ∷ rows) h = rw h.0 (ap (◌∷◌ row) (select-all p rows h.1))

pub select-All :
    (P : String × Node → Type 0) (p : String × Node → Bool) (rows : Table)
    → All P rows
    → All P (select p rows)
select-All P p [] h = tt
select-All P p (row ∷ rows) h = at_test (p row) (select-All P p rows h.1)
  where
    at_test :
        (b : Bool)
        → All P (select p rows)
        → All P (if b then row ∷ select p rows else select p rows)
    at_test true rest = (h.0, rest)
    at_test false rest = rest

pub select-IsAsc : (p : String × Node → Bool) (rows : Table) → IsAsc rows → IsAsc (select p rows)
select-IsAsc p [] h = tt
select-IsAsc p (row ∷ rows) h =
    at_test (p row) (select-All (λ s. is_before row.1.name s.1.name ≡ true) p rows h.0)
      (select-IsAsc p rows h.1)
  where
    at_test :
        (b : Bool)
        → All (λ s. is_before row.1.name s.1.name ≡ true) (select p rows)
        → IsAsc (select p rows)
        → IsAsc (if b then row ∷ select p rows else select p rows)
    at_test true first rest = (first, rest)
    at_test false first rest = rest

All-middle :
    (P : String × Node → Type 0) (x : String × Node) (pre rest : Table)
    → All P (pre ++ x ∷ rest)
    → P x
All-middle P x [] rest h = h.0
All-middle P x (y ∷ pre) rest h = All-middle P x pre rest h.1

select_after :
    (x : String × Node) (pre rest : Table)
    → IsAsc (pre ++ x ∷ rest)
    → select (λ s. is_before x.1.name s.1.name) (pre ++ x ∷ rest) ≡ rest
select_after x [] rest h =
    rw (is_before_irrefl x.1.name) (select-all (λ s. is_before x.1.name s.1.name) rest h.0)
select_after x (y ∷ pre) rest h = elim (Bool-cases (is_before x.1.name y.1.name)) [
  | inl above ↦ absurd (
      cc (
        is_before_irrefl x.1.name,
        is_before_trans x.1.name y.1.name x.1.name above
            (All-middle (λ s. is_before y.1.name s.1.name ≡ true) x pre rest h.0),
      ))
  | inr below ↦ rw below (select_after x pre rest h.1)
]

pub move_over : (x : String × Node) (pre rest : Table) → pre ++ x ∷ rest ≡ (pre ++ (x ∷ [])) ++ rest
move_over x [] rest = refl
move_over x (y ∷ pre) rest = ap (◌∷◌ y) (move_over x pre rest)

-- What stands after the last row of a page.
pub select_after_page :
    (items : Table) (x : String × Node) (pre rest : Table)
    → IsAsc (pre ++ x ∷ (items ++ rest))
    → select (λ s. is_before (last_name x.1.name items) s.1.name) (pre ++ x ∷ (items ++ rest))
      ≡ rest
select_after_page [] x pre rest h = select_after x pre rest h
select_after_page (y ∷ items) x pre rest h = rw (move_over x pre (y ∷ (items ++ rest))) (
    select_after_page items y (pre ++ (x ∷ [])) rest
      (rw (move_over x pre (y ∷ (items ++ rest))) at h))

-- The cursor and the filters commute.
pub select-is_listed :
    (r : Query) (after : String) (rows : Table)
    → str_eq after "" ≡ false
    → select (is_listed r after) rows
      ≡ select (λ s. is_before after s.1.name) (select (λ s. passes r s.1) rows)
select-is_listed r after [] h = refl
select-is_listed r after (row ∷ rows) h =
    at_tests (Bool-cases (is_before after row.1.name)) (Bool-cases (passes r row.1))
      (select-is_listed r after rows h)
  where
    at_tests :
        (is_before after row.1.name ≡ true) ⊎ (is_before after row.1.name ≡ false)
        → (passes r row.1 ≡ true) ⊎ (passes r row.1 ≡ false)
        → (select (is_listed r after) rows
            ≡ select (λ s. is_before after s.1.name) (select (λ s. passes r s.1) rows))
        → select (is_listed r after) (row ∷ rows)
          ≡ select (λ s. is_before after s.1.name) (select (λ s. passes r s.1) (row ∷ rows))
    at_tests (inl above) (inl ok) rest = rw (h, above, ok) (rw above (ap (◌∷◌ row) rest))
    at_tests (inl above) (inr fails) rest = rw (h, above, fails) rest
    at_tests (inr below) (inl ok) rest = rw (h, below, ok) (rw below rest)
    at_tests (inr below) (inr fails) rest = rw (h, below, fails) rest

insert_row-IsAsc :
    (r : String × Node) (t : Table)
    → All (λ s. r.1.name ≢ s.1.name) t
    → IsAsc t
    → IsAsc (insert_row r t)
insert_row-IsAsc r [] d h = (tt, tt)
insert_row-IsAsc r (s ∷ t) d h = elim (Bool-cases (is_before r.1.name s.1.name)) [
  | inl first ↦ rw first ((first, above first t h.0), h)
  | inr later ↦
      let before : is_before s.1.name r.1.name ≡ true =
        (elim (Bool-cases (is_before s.1.name r.1.name)) [
          | inl below ↦ below
          | inr neither ↦ absurd (d.0 (is_before_total r.1.name s.1.name later neither))
        ]) in
      rw later (
        insert_row-All (λ x. is_before s.1.name x.1.name ≡ true) r t before h.0,
        insert_row-IsAsc r t d.1 h.1,
      )
]
  where
    above :
        is_before r.1.name s.1.name ≡ true
        → (rest : Table) → All (λ x. is_before s.1.name x.1.name ≡ true) rest
        → All (λ x. is_before r.1.name x.1.name ≡ true) rest
    above first [] g = tt
    above first (x ∷ rest) g =
        (is_before_trans r.1.name s.1.name x.1.name first g.0, above first rest g.1)

list_apart : (t : Table) → IsApart t → IsAsc (list_nodes t)
unfolding list_nodes
list_apart [] h = tt
list_apart (r ∷ t) h =
    insert_row-IsAsc r (list_nodes t) (list_nodes-All (λ s. r.1.name ≢ s.1.name) t h.0)
      (list_apart t h.1)

differ_all :
    (i : String) (n : Node) (t rest : Table)
    → HasUniqueNames ((i, n) ∷ t)
    → get i t ≡ none
    → All (λ s. get s.0 t ≡ some s.1) rest
    → All (λ s. get s.0 ((i, n) ∷ t) ≡ some s.1) rest
    → All (λ s. n.name ≢ s.1.name) rest
unfolding get
differ_all i n t [] u free h k = tt
differ_all i n t (s ∷ rest) u free h k = (
  (λ same.
      absurd (
        cc
          (free, h.0, ap (λ x. get x t) (u i s.0 n s.1 (rw ((eq_iff i i).1 refl) refl) k.0 same)))),
  differ_all i n t rest u free h.1 k.1,
)

tail-HasUniqueNames :
    (i : String) (n : Node) (t : Table)
    → get i t ≡ none
    → HasUniqueNames ((i, n) ∷ t)
    → HasUniqueNames t
unfolding get
tail-HasUniqueNames i n t free u j k m m' e e' same =
    u j k m m' (behind j m e) (behind k m' e') same
  where
    behind : (x : String) (row : Node) → get x t ≡ some row → get x ((i, n) ∷ t) ≡ some row
    behind x row h = elim (Bool-cases (str_eq i x)) [
      | inl at_head ↦ absurd (cc (h, free, ap (λ y. get y t) ((eq_iff i x).0 at_head)))
      | inr later ↦ rw later h
    ]

rows-IsApart : (t : Table) → IsUnique t → HasUniqueNames t → IsApart t
rows-IsApart [] u h = tt
rows-IsApart ((i, n) ∷ t) u h = (
  differ_all i n t t h u.0 (entries t u.1) (entries ((i, n) ∷ t) u).1,
  rows-IsApart t u.1 (tail-HasUniqueNames i n t u.0 h),
)

-- The listing of a table with unique ids and names is strictly ascending.
pub list_nodes-IsAsc : (t : Table) → IsUnique t → HasUniqueNames t → IsAsc (list_nodes t)
list_nodes-IsAsc t u h = list_apart t (rows-IsApart t u h)
