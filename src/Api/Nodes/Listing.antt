-- ===== src/Api/Nodes/Listing.antt =====
-- backend/internal/api/nodes.go and helpers.go: GET /nodes, a page of the nodes by name with a cursor. Base64
-- is a parameter. Letters are folded as for ASCII text. An item is the row that it is made of.
pub mod Walk
pub mod Order
pub mod Pages
mod Tests
use singboxhub.Prelude.{
  ℕ, suc, ◌+◌, String, Bool, true, false, not, ◌&&◌, ◌||◌, Option, none, some, List, [], ◌∷◌, leb,
  ◌==◌, str_eq, if◌then◌else◌,
}
use Prim.Native.Char.{Char, code}
use singboxhub.Prelude.Bytes.{bytes_of, to_lower, contains}
use singboxhub.Prelude.Decimal.{parse_decimal}
use singboxhub.Prelude.TextOrder.{is_before}
use singboxhub.Store.Nodes.{Node, Table, list_nodes}

pub record Codec : Type 0 where
  pub encode : String → String
  pub decode : String → Option String

abbrev push_char : Char → List String → List String
push_char c [] = (String.◌∷◌ c "") ∷ []
push_char c (p ∷ ps) = (String.◌∷◌ c p) ∷ ps

-- `strings.Split(s, "\x1f")`
pub split_units : String → List String
split_units String.[] = "" ∷ []
split_units (String.◌∷◌ c s) =
    let rest = split_units s in if code c == 31 then "" ∷ rest else push_char c rest

abbrev pub split_decoded : Option String → Option (List String)
split_decoded none = none
split_decoded (some raw) = some (split_units raw)

pub decode_cursor : Codec → String → Option (List String)
unfolding split_units
decode_cursor b cursor = if str_eq cursor "" then some [] else split_decoded (b.decode cursor)

-- `encodeCursor` of one part.
pub encode_cursor : Codec → String → String
encode_cursor b part = b.encode part

-- `strconv.Atoi` where the number is at least 1; a minus sign leads to a number below it.
abbrev atoi_positive : List ℕ → Option ℕ
atoi_positive [] = none
atoi_positive (c ∷ cs) = if c == b'+' then parse_decimal cs else parse_decimal (c ∷ cs)

abbrev within_page : ℕ → Option ℕ → Option ℕ
within_page max none = none
within_page max (some n) = if leb 1 n && leb n max then some n else none

pub parse_positive_int : String → ℕ → ℕ → Option ℕ
parse_positive_int raw def max =
    if str_eq raw "" then some def else within_page max (atoi_positive (bytes_of raw))

pub record Query : Type 0 where
  pub page_size : String
  pub q : String
  pub tag : String
  pub enabled : String
  pub cursor : String

pub contains_tag : List String → String → Bool
contains_tag [] want = false
contains_tag (t ∷ tags) want = if str_eq t want then true else contains_tag tags want

abbrev same_bool : Bool → Bool → Bool
same_bool true b = b
same_bool false b = not b

-- The node passes the filters of the query.
pub passes : Query → Node → Bool
unfolding contains_tag
passes r n =
    (str_eq r.q "" || contains (to_lower (bytes_of n.name)) (to_lower (bytes_of r.q)))
    && ((str_eq r.tag "" || contains_tag n.tags r.tag)
        && (str_eq r.enabled "" || same_bool (str_eq r.enabled "true") n.enabled))

-- `afterName != "" && n.Name <= afterName`
abbrev pub is_skipped : String → Node → Bool
is_skipped after n = not (str_eq after "") && not (is_before after n.name)

-- The loop over the nodes: the items and the cursor's name, "" after the last page.
pub collect : Query → String → ℕ → Table → ℕ → String → Table × String
unfolding passes
collect r after size [] count last = ([], "")
collect r after size (row ∷ rows) count last =
    let skipped = collect r after size rows count last in
    let (items, next) = collect r after size rows (suc count) row.1.name in
    if is_skipped after row.1 || not (passes r row.1)
    then skipped
    else if leb size count
    then ([], last)
    else (row ∷ items, next)

pub data ListAnswer : Type 0 where
  invalid_page_size invalid_cursor : ListAnswer
  page : Table → Option String → ListAnswer

abbrev pub next_cursor : Codec → Table × String → ListAnswer
next_cursor b (items, next) =
    page items (if str_eq next "" then none else some (encode_cursor b next))

-- `afterName`: no cursor stands for the start.
abbrev pub after_name : String → Option (List String) → Option String
after_name cursor none = none
after_name cursor (some []) = if str_eq cursor "" then some "" else none
after_name cursor (some (p ∷ [])) = if str_eq cursor "" then some "" else some p
after_name cursor (some (p ∷ (p' ∷ ps))) = if str_eq cursor "" then some "" else none

abbrev pub list_after : Codec → Query → ℕ → Table → Option String → ListAnswer
list_after b r size t none = invalid_cursor
list_after b r size t (some after) = next_cursor b (collect r after size (list_nodes t) 0 "")

abbrev pub list_sized : Codec → Query → Table → Option ℕ → ListAnswer
list_sized b r t none = invalid_page_size
list_sized b r t (some size) =
    list_after b r size t (after_name r.cursor (decode_cursor b r.cursor))

pub handle_list_nodes : Codec → Query → Table → ListAnswer
unfolding parse_positive_int collect decode_cursor
handle_list_nodes b r t = list_sized b r t (parse_positive_int r.page_size 20 100)
