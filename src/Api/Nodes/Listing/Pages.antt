-- ===== src/Api/Nodes/Listing/Pages.antt =====
-- nodes.go, handleListNodes: the pages of a listing are the rows that the query selects, in their order.
use singboxhub.Prelude.{
  ℕ, zero, suc, ◌<◌, ◌≤◌, ◌≡◌, ◌≢◌, refl, sym, ap, ◌∙◌, ◌⊎◌, inl, inr, String, Bool, true, false,
  not, ◌&&◌, Option, none, some, [], ◌∷◌, ◌++◌, arith, leb, leb→le, ◌==◌, str_eq, eq_iff,
  if◌then◌else◌, Bool-cases, All, length, length-append,
}
use Prim.Native.Char.{code}
use mathlib.Core.Path.{subst}
use singboxhub.Prelude.Dict.{IsUnique}
use singboxhub.Prelude.Bytes.{bytes_of}
use singboxhub.Prelude.TextOrder.{is_before}
use singboxhub.Store.Nodes.{Node, Table, list_nodes, insert_row}
use singboxhub.Store.Nodes.Names.{HasUniqueNames}
use singboxhub.Store.Nodes.Rows.{list_nodes-All}
use singboxhub.Api.Nodes.Listing.{
  Codec, Query, passes, split_units, decode_cursor, encode_cursor, parse_positive_int, within_page,
  atoi_positive, next_cursor, after_name, handle_list_nodes,
}
use singboxhub.Api.Nodes.Listing.Walk.{
  select, is_listed, take_page, take_page-IsPage, IsPage, collect_lem, last_name, after_page, walk,
}
use singboxhub.Api.Nodes.Listing.Order.{
  IsAsc, select-All, select-IsAsc, select_after_page, select-is_listed, list_nodes-IsAsc,
}

-- The text has no unit separator, U+001F.
abbrev pub is_unit_free : String → Bool
is_unit_free String.[] = true
is_unit_free (String.◌∷◌ c s) = not (code c == 31) && is_unit_free s

split_units_lem : (s : String) → is_unit_free s ≡ true → split_units s ≡ s ∷ []
unfolding split_units
split_units_lem String.[] h = refl
split_units_lem (String.◌∷◌ c s) h =
    let (other, rest) = parts (code c == 31) (is_unit_free s) h in
    rw other (rw (split_units_lem s rest) refl)
  where
    parts : (a b : Bool) → (not a && b) ≡ true → (a ≡ false) × (b ≡ true)
    parts false b e = (refl, e)
    parts true b e = absurd (cc e)

-- A name that stands in a cursor as it is.
abbrev pub IsCursorName : String × Node → Type 0
IsCursorName row = (row.1.name ≢ "") × (is_unit_free row.1.name ≡ true)

-- Base64: what is decoded is what was encoded, and only the empty text gives the empty text.
abbrev pub IsLawful : Codec → Type 0
IsLawful b =
    ((s : String) → b.decode (b.encode s) ≡ some s) × ((s : String) → s ≢ "" → b.encode s ≢ "")

nonempty_test : (s : String) → s ≢ "" → str_eq s "" ≡ false
nonempty_test s h = elim (Bool-cases (str_eq s "")) [
  | inl empty ↦ absurd (h ((eq_iff s "").0 empty))
  | inr other ↦ other
]

-- The cursor for a name leads to the name.
cursor_lem :
    (b : Codec) (s : String)
    → IsLawful b
    → s ≢ ""
    → is_unit_free s ≡ true
    → after_name (encode_cursor b s) (decode_cursor b (encode_cursor b s)) ≡ some s
unfolding decode_cursor encode_cursor
cursor_lem b s law present free =
    let shown : str_eq (b.encode s) "" ≡ false = nonempty_test (b.encode s) (law.1 s present) in
    rw (shown, law.0 s, split_units_lem s free) (rw shown refl)

last_name_lem :
    (x : String × Node) (items : Table)
    → IsCursorName x
    → All IsCursorName items
    → (last_name x.1.name items ≢ "") × (is_unit_free (last_name x.1.name items) ≡ true)
last_name_lem x [] h k = h
last_name_lem x (y ∷ items) h k = last_name_lem y items k.0 k.1

All-parts : (P : String × Node → Type 0) (xs ys : Table) → All P (xs ++ ys) → All P xs × All P ys
All-parts P [] ys h = (tt, h)
All-parts P (x ∷ xs) ys h = let (a, b) = All-parts P xs ys h.1 in ((h.0, a), b)

append_assoc : (xs ys zs : Table) → xs ++ (ys ++ zs) ≡ (xs ++ ys) ++ zs
append_assoc [] ys zs = refl
append_assoc (x ∷ xs) ys zs = ap (◌∷◌ x) (append_assoc xs ys zs)

page_size_lem : (max : ℕ) (o : Option ℕ) (n : ℕ) → within_page max o ≡ some n → 1 ≤ n
page_size_lem max none n e = absurd (cc e)
page_size_lem max (some m) n e = at_test (Bool-cases (leb 1 m && leb m max))
  where
    at_test : ((leb 1 m && leb m max) ≡ true) ⊎ ((leb 1 m && leb m max) ≡ false) → 1 ≤ n
    at_test (inl within) = ground (arith, within, rw within at e)
    at_test (inr beyond) = absurd (cc (rw beyond at e))

parse_positive_int_lem :
    (raw : String) (def max n : ℕ) → 1 ≤ def → parse_positive_int raw def max ≡ some n → 1 ≤ n
unfolding parse_positive_int
parse_positive_int_lem raw def max n h e = elim (Bool-cases (str_eq raw "")) [
  | inl empty ↦ let same : def ≡ n = cc (rw empty at e) in omega arith
  | inr other ↦ page_size_lem max (atoi_positive (bytes_of raw)) n (rw other at e)
]

module _ (b : Codec) (r : Query) (t : Table) (size : ℕ) (law : IsLawful b)
    (sized : parse_positive_int r.page_size 20 100 ≡ some size) (some_size : 1 ≤ size) where
  selected : Table
  selected = select (λ s. passes r s.1) (list_nodes t)

  -- The answer for a cursor.
  answer_lem :
      (cursor after : String)
      → after_name cursor (decode_cursor b cursor) ≡ some after
      → handle_list_nodes b (record r { cursor = cursor }) t
        ≡ next_cursor b (take_page size (select (is_listed r after) (list_nodes t)) 0 "")
  unfolding handle_list_nodes passes
  answer_lem cursor after e = rw sized (
      rw e (
        ap (next_cursor b)
          (collect_lem (record r { cursor = cursor }) after size (list_nodes t) 0 "")))

  -- One page and what follows it, when the walk from the next cursor gives the rest.
  page_lem :
      (x : String × Node) (rows : Table) (p : Table × String) (go_on : String → Option Table)
      → All IsCursorName (x ∷ rows)
      → IsPage rows x.1.name p.0 p.1
      → ((g : String × Node) (rest : Table)
          → rows ≡ p.0 ++ g ∷ rest
          → p.1 ≡ last_name x.1.name p.0
          → go_on (encode_cursor b p.1) ≡ some (g ∷ rest))
      → after_page (next_cursor b (x ∷ p.0, p.1)) go_on ≡ some (x ∷ rows)
  page_lem x rows p go_on safe (inl (e, n)) follow = rw n (ap (λ xs. some (x ∷ xs)) e)
  page_lem x rows p go_on safe (inr (g, rest, e, n)) follow =
      let (in_page, left) =
        All-parts IsCursorName p.0 (g ∷ rest) (subst (All IsCursorName) e safe.1) in
      let shown : str_eq p.1 "" ≡ false =
        nonempty_test p.1 (subst (λ s. s ≢ "") (sym n) (last_name_lem x p.0 safe.0 in_page).0) in
      rw shown (rw (follow g rest e n) (ap (λ xs. some (x ∷ xs)) (sym e)))

  -- The walk from a cursor gives the rows after it, where k pages are enough.
  abbrev Walks : ℕ → Type 0
  Walks k =
      (pre rows : Table) (cursor after : String)
      → length rows < k
      → IsAsc selected
      → selected ≡ pre ++ rows
      → rows ≡ select (is_listed r after) (list_nodes t)
      → All IsCursorName rows
      → after_name cursor (decode_cursor b cursor) ≡ some after
      → walk b r k cursor t ≡ some rows

  module _ (x : String × Node) (pre : Table) (asc : IsAsc selected) where
    rest_after :
        (next : String) (items left : Table)
        → next ≡ last_name x.1.name items
        → next ≢ ""
        → selected ≡ pre ++ x ∷ (items ++ left)
        → select (is_listed r next) (list_nodes t) ≡ left
    unfolding selected
    rest_after next items left n present split =
        select-is_listed r next (list_nodes t) (nonempty_test next present)
        ∙ ap (select (λ s. is_before next s.1.name)) split
        ∙ ap (λ a. select (λ s. is_before a s.1.name) (pre ++ x ∷ (items ++ left))) n
        ∙ select_after_page items x pre left (subst IsAsc split asc)

    following :
        (k : ℕ) (rows : Table)
        → Walks k
        → length rows < k
        → selected ≡ pre ++ x ∷ rows
        → All IsCursorName (x ∷ rows)
        → (g : String × Node) (rest items : Table) (next : String) → rows ≡ items ++ g ∷ rest
        → next ≡ last_name x.1.name items
        → walk b r k (encode_cursor b next) t ≡ some (g ∷ rest)
    following k rows walks h e safe g rest items next parts n =
        let split : selected ≡ pre ++ x ∷ (items ++ g ∷ rest) =
          e ∙ ap (λ ys. pre ++ x ∷ ys) parts in
        let (in_page, left) =
          All-parts IsCursorName items (g ∷ rest) (subst (All IsCursorName) parts safe.1) in
        let (present, free) = last_name_lem x items safe.0 in_page in
        let present' : next ≢ "" = subst (λ s. s ≢ "") (sym n) present in
        walks (pre ++ x ∷ items) (g ∷ rest) (encode_cursor b next) next
          (omega (arith, ap length parts, length-append items (g ∷ rest), h)) asc
          (split ∙ append_assoc pre (x ∷ items) (g ∷ rest))
          (sym (rest_after next items (g ∷ rest) n present' split)) left
          (cursor_lem b next law present' (subst (λ s. is_unit_free s ≡ true) (sym n) free))

  walk_lem : (k : ℕ) → Walks k
  unfolding walk
  walk_lem zero pre rows cursor after h asc e l safe c = absurd (omega arith)
  walk_lem (suc k) pre [] cursor after h asc e l safe c =
      rw (answer_lem cursor after c) (rw (sym l) refl)
  walk_lem (suc k) pre (x ∷ rows) cursor after h asc e l safe c =
      let p : Table × String = take_page size rows 1 x.1.name in
      rw (answer_lem cursor after c) (
        rw (sym l) (
          rw room (
            page_lem x rows p (λ c'. walk b r k c' t) safe (take_page-IsPage size rows 1 x.1.name)
              (λ g. λ rest. λ parts. λ n.
                following x pre asc k rows (walk_lem k) (omega arith) e safe g rest p.0 p.1 parts
                  n))))
    where
      room : leb size 0 ≡ false
      room = ground (arith, some_size)

length-select : (p : String × Node → Bool) (rows : Table) → length (select p rows) ≤ length rows
length-select p [] = omega arith
length-select p (row ∷ rows) = at_test (p row) (length-select p rows)
  where
    at_test :
        (c : Bool)
        → length (select p rows) ≤ length rows
        → length (if c then row ∷ select p rows else select p rows) ≤ suc (length rows)
    at_test true h = omega arith
    at_test false h = omega arith

length-insert_row : (row : String × Node) (t : Table) → length (insert_row row t) ≡ suc (length t)
length-insert_row row [] = refl
length-insert_row row (s ∷ t) = at_test (is_before row.1.name s.1.name) (length-insert_row row t)
  where
    at_test :
        (c : Bool)
        → length (insert_row row t) ≡ suc (length t)
        → length (if c then row ∷ s ∷ t else s ∷ insert_row row t) ≡ suc (suc (length t))
    at_test true e = refl
    at_test false e = ap suc e

length-list_nodes : (t : Table) → length (list_nodes t) ≡ length t
unfolding list_nodes
length-list_nodes [] = refl
length-list_nodes (row ∷ t) = length-insert_row row (list_nodes t) ∙ ap suc (length-list_nodes t)

-- A client that follows the cursors of GET /nodes, with a page size that the code takes, needs no more
-- pages than one per row and one, and gets every row that the query selects once, in the order of the
-- names; where ids and names are unique, no name is empty or has a unit separator, and Base64
-- decodes what it encoded.
pub handle_list_nodes-walk :
    (b : Codec) (r : Query) (t : Table) (size : ℕ)
    → IsLawful b
    → parse_positive_int r.page_size 20 100 ≡ some size
    → IsUnique t
    → HasUniqueNames t
    → All IsCursorName t
    → walk b r (suc (length t)) "" t ≡ some (select (λ s. passes r s.1) (list_nodes t))
unfolding selected decode_cursor
handle_list_nodes-walk b r t size law sized u named safe =
    let ps : String × Node → Bool = λ s. passes r s.1 in
    walk_lem b r t size law sized
      (parse_positive_int_lem r.page_size 20 100 size (leb→le 1 20 refl) sized) (suc (length t)) []
      (select ps (list_nodes t)) "" ""
      (omega (arith, length-select ps (list_nodes t), length-list_nodes t))
      (select-IsAsc ps (list_nodes t) (list_nodes-IsAsc t u named)) refl refl
      (select-All IsCursorName ps (list_nodes t) (list_nodes-All IsCursorName t safe)) refl
