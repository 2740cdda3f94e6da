-- ===== src/Api/Nodes/Listing/Walk.antt =====
-- nodes.go, handleListNodes: a client that follows the cursors.
use singboxhub.Prelude.{
  ℕ, zero, suc, ◌≡◌, refl, ap, ◌⊎◌, inl, inr, String, Bool, true, false, not, ◌&&◌, Option, none,
  some, [], ◌∷◌, ◌++◌, leb, if◌then◌else◌, Bool-cases,
}
use singboxhub.Store.Nodes.{Node, Table}
use singboxhub.Api.Nodes.Listing.{
  Codec, Query, passes, is_skipped, collect, ListAnswer, invalid_page_size, invalid_cursor, page,
  handle_list_nodes,
}

-- The rows that the query selects.
abbrev pub select : (String × Node → Bool) → Table → Table
select p [] = []
select p (row ∷ rows) = let rest = select p rows in if p row then row ∷ rest else rest

-- The rows of one page, the rows left, and the name of the last row of the page.
abbrev pub take_page : ℕ → Table → ℕ → String → Table × String
take_page size [] count last = ([], "")
take_page size (row ∷ rows) count last =
    let (items, next) = take_page size rows (suc count) row.1.name in
    if leb size count then ([], last) else (row ∷ items, next)

abbrev pub is_listed : Query → String → String × Node → Bool
is_listed r after row = not (is_skipped after row.1) && passes r row.1

pub collect_lem :
    (r : Query) (after : String) (size : ℕ) (rows : Table) (count : ℕ) (last : String)
    → collect r after size rows count last
      ≡ take_page size (select (is_listed r after) rows) count last
unfolding collect
collect_lem r after size [] count last = refl
collect_lem r after size (row ∷ rows) count last =
    at_tests (Bool-cases (is_skipped after row.1)) (Bool-cases (passes r row.1))
      (collect_lem r after size rows)
  where
    at_tests :
        (is_skipped after row.1 ≡ true) ⊎ (is_skipped after row.1 ≡ false)
        → (passes r row.1 ≡ true) ⊎ (passes r row.1 ≡ false)
        → ((c : ℕ) (l : String)
            → collect r after size rows c l ≡ take_page size (select (is_listed r after) rows) c l)
        → collect r after size (row ∷ rows) count last
          ≡ take_page size (select (is_listed r after) (row ∷ rows)) count last
    at_tests (inl skipped) b rest = rw skipped (rest count last)
    at_tests (inr kept) (inr fails) rest = rw (kept, fails) (rest count last)
    at_tests (inr kept) (inl ok) rest = rw (kept, ok) (rw (rest (suc count) row.1.name) refl)

abbrev pub last_name : String → Table → String
last_name last [] = last
last_name last (row ∷ rows) = last_name row.1.name rows

-- A page ends the rows, or leaves some.
abbrev pub IsPage : Table → String → Table → String → Type 0
IsPage rows last items next =
    ((items ≡ rows) × (next ≡ ""))
    ⊎ ((g : String × Node) × (rest : Table) × (rows ≡ items ++ g ∷ rest)
        × (next ≡ last_name last items))

pub take_page-IsPage :
    (size : ℕ) (rows : Table) (count : ℕ) (last : String)
    → IsPage rows last (take_page size rows count last).0 (take_page size rows count last).1
take_page-IsPage size [] count last = inl (refl, refl)
take_page-IsPage size (row ∷ rows) count last =
    at_test (leb size count) (take_page size rows (suc count) row.1.name)
      (take_page-IsPage size rows (suc count) row.1.name)
  where
    page_of : Bool → Table × String → Table × String
    page_of full p = if full then ([], last) else (row ∷ p.0, p.1)

    at_test :
        (full : Bool) (p : Table × String)
        → IsPage rows row.1.name p.0 p.1
        → IsPage (row ∷ rows) last (page_of full p).0 (page_of full p).1
    at_test true p h = inr (row, rows, refl, refl)
    at_test false p (inl (e, n)) = inl (ap (◌∷◌ row) e, n)
    at_test false p (inr (g, rest, e, n)) = inr (g, rest, ap (◌∷◌ row) e, n)

abbrev pub joined : Table → Option Table → Option Table
joined items none = none
joined items (some rest) = some (items ++ rest)

abbrev pub after_page : ListAnswer → (String → Option Table) → Option Table
after_page invalid_page_size go_on = none
after_page invalid_cursor go_on = none
after_page (page items none) go_on = some items
after_page (page items (some cursor)) go_on = joined items (go_on cursor)

-- A client that asks for pages, each with the cursor of the page before; `none` on an error or after
-- too many.
unfoldable pub walk : Codec → Query → ℕ → String → Table → Option Table
walk b r zero cursor t = none
walk b r (suc k) cursor t =
    after_page (handle_list_nodes b (record r { cursor = cursor }) t) (λ c. walk b r k c t)
