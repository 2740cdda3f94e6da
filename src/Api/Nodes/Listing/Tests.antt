-- ===== src/Api/Nodes/Listing/Tests.antt =====
-- Three nodes, listed one to a page.
use singboxhub.Prelude.{◌≡◌, ◌≢◌, refl, String, true, false, some, [], ◌∷◌, All, str_eq, eq_iff}
use singboxhub.Prelude.Int.{pos}
use singboxhub.Prelude.Bytes.{to_lower, contains, has_prefix}
use singboxhub.Prelude.Decimal.{parse_decimal}
use singboxhub.Prelude.Dict.{get, put, has, IsUnique}
use singboxhub.Store.Nodes.{Node, Table, create_node, name_index, list_nodes}
use singboxhub.Store.Nodes.Names.{Reached, empty, created, Reached-HasUniqueNames}
use singboxhub.Api.Nodes.Listing.{
  Codec, Query, passes, parse_positive_int, collect, decode_cursor, encode_cursor,
  handle_list_nodes, page, invalid_page_size,
}
use singboxhub.Api.Nodes.Listing.Walk.{select, walk}
use singboxhub.Api.Nodes.Listing.Pages.{IsCursorName, IsLawful, handle_list_nodes-walk}

abbrev row : String → Node
row name = record {
  name = name;
  api_url = "http://10.0.0.2:9090";
  api_secret_enc = "s";
  outbound_enc = "";
  source = "";
  config_url = "";
  kce_key_enc = "";
  tags = [];
  enabled = true;
  remark = "";
  mode = "rule";
  latency_ms = pos 0;
  latency_checked_at = 0;
  latency_fail_count = 0;
  created_at = 1;
  updated_at = 1;
  last_online = 0;
}

abbrev nodes : Table
nodes = ("c", row "tokyo") ∷ ("a", row "london") ∷ ("b", row "sydney") ∷ []

reached : Reached nodes
unfolding create_node name_index get put has
reached =
    created 1 "b" (row "sydney") (created 1 "a" (row "london") (created 1 "c" (row "tokyo") empty))

nodes-IsUnique : IsUnique nodes
unfolding get
nodes-IsUnique = (refl, (refl, (refl, tt)))

abbrev identity : Codec
identity = record { encode = λ s. s; decode = λ s. some s }

identity-IsLawful : IsLawful identity
identity-IsLawful = ((λ s. refl), (λ s. λ h. h))

nonempty : (s : String) → str_eq s "" ≡ false → s ≢ ""
nonempty s e h = absurd (cc ((eq_iff s "").1 h, e))

nodes-AreCursorNames : All IsCursorName nodes
nodes-AreCursorNames = (
  (nonempty "tokyo" refl, refl),
  ((nonempty "london" refl, refl), ((nonempty "sydney" refl, refl), tt)),
)

abbrev query : Query
query = record { page_size = "1"; q = "O"; tag = ""; enabled = "true"; cursor = "" }

one_per_page : parse_positive_int "1" 20 100 ≡ some 1
unfolding parse_positive_int parse_decimal
one_per_page = refl

handle_list_nodes-walk_example :
    walk identity query 4 "" nodes ≡ some (select (λ s. passes query s.1) (list_nodes nodes))
handle_list_nodes-walk_example =
    handle_list_nodes-walk identity query nodes 1 identity-IsLawful one_per_page nodes-IsUnique
      (Reached-HasUniqueNames nodes reached) nodes-AreCursorNames

-- Two names have an o, in the order of the names.
two_selected :
    select (λ s. passes query s.1) (list_nodes nodes)
    ≡ ("a", row "london") ∷ ("c", row "tokyo") ∷ []
unfolding passes list_nodes contains has_prefix to_lower
two_selected = refl

first_page :
    handle_list_nodes identity query nodes ≡ page (("a", row "london") ∷ []) (some "london")
unfolding handle_list_nodes parse_positive_int parse_decimal decode_cursor encode_cursor collect
    passes list_nodes contains has_prefix to_lower
first_page = refl

page_size_over :
    handle_list_nodes identity (record query { page_size = "101" }) nodes ≡ invalid_page_size
unfolding handle_list_nodes parse_positive_int parse_decimal
page_size_over = refl
