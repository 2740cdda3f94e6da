-- ===== src/Store/Nodes.antt =====
-- backend/internal/store/nodes.go: the nodes table, with the constraints of store.go's schema (the id is
-- the key, the name is unique). A row stands under its id. Tags are a list here; the column joins
-- them by commas. Of the errors of the database, the two that the code tells apart are modelled.
pub mod Names
pub mod Rows
use singboxhub.Prelude.{
  ℕ, String, Bool, true, false, not, Option, none, some, List, [], ◌∷◌, str_eq, if◌then◌else◌,
}
use singboxhub.Prelude.Int.{ℤ}
use singboxhub.Prelude.TextOrder.{is_before}
use singboxhub.Prelude.Dict.{Dict, get, put, del, has}

pub record Node : Type 0 where
  pub name : String
  pub api_url : String
  pub api_secret_enc : String
  pub outbound_enc : String
  pub source : String
  pub config_url : String
  pub kce_key_enc : String
  pub tags : List String
  pub enabled : Bool
  pub remark : String
  pub mode : String
  pub latency_ms : ℤ
  pub latency_checked_at : ℕ
  pub latency_fail_count : ℕ
  pub created_at : ℕ
  pub updated_at : ℕ
  pub last_online : ℕ

abbrev pub Table : Type 0
Table = Dict Node

pub data NodeError : Type 0 where
  not_found unique_violation : NodeError

pub data Result : Type 0 where
  fail : NodeError → Result
  ok : Table → Result

-- The table of a result, the old one after an error.
abbrev pub or_same : Table → Result → Table
or_same t (fail why) = t
or_same t (ok t') = t'

-- The index of the UNIQUE column.
unfoldable pub name_index : Table → Dict Bool
name_index [] = []
name_index ((id, n) ∷ t) = (n.name, true) ∷ name_index t

-- A row that is new is online never, whatever the struct holds.
unfoldable pub create_node : ℕ → String → Node → Table → Result
unfolding name_index
create_node now id n t =
    if has id t
    then fail unique_violation
    else if has n.name (name_index t)
    then fail unique_violation
    else ok (put id (record n { created_at = now; updated_at = now; last_online = 0 }) t)

pub get_node : String → Table → Option Node
get_node id t = get id t

pub get_node_by_name : String → Table → Option (String × Node)
get_node_by_name name [] = none
get_node_by_name name ((id, n) ∷ t) =
    if str_eq n.name name then some (id, n) else get_node_by_name name t

-- The columns that the statement sets; the others stay as they are in the row.
abbrev pub updated_row : ℕ → Node → Node → Node
updated_row now n row = record n {
  updated_at = now;
  created_at = row.created_at;
  last_online = row.last_online;
}

unfoldable pub update_node : ℕ → String → Node → Table → Result
unfolding name_index
update_node now id n t = elim (get id t) [
  | none ↦ fail not_found
  | some row ↦
      if has n.name (name_index (del id t))
      then fail unique_violation
      else ok (put id (updated_row now n row) t)
]

unfoldable pub delete_node : String → Table → Result
delete_node id t = if has id t then ok (del id t) else fail not_found

-- A row that is missing stays missing, without an error.
pub set_last_online : String → ℕ → Table → Table
set_last_online id ts t = elim (get id t) [
  | none ↦ t
  | some row ↦ put id (record row { last_online = ts }) t
]

abbrev pub insert_row : String × Node → Table → Table
insert_row r [] = r ∷ []
insert_row r (s ∷ t) = if is_before r.1.name s.1.name then r ∷ s ∷ t else s ∷ insert_row r t

-- `ORDER BY name`, by the bytes of the names.
unfoldable pub list_nodes : Table → Table
list_nodes [] = []
list_nodes (r ∷ t) = insert_row r (list_nodes t)

abbrev pub with_source : String → Table → Table
with_source source [] = []
with_source source (r ∷ t) =
    let rest = with_source source t in if str_eq r.1.source source then r ∷ rest else rest

unfoldable pub list_nodes_by_source : String → Table → Table
unfolding list_nodes
list_nodes_by_source source t = list_nodes (with_source source t)
