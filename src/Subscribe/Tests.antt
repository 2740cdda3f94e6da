-- ===== src/Subscribe/Tests.antt =====
-- A Clash document with one proxy of each behaviour, and its nodes.
use singboxhub.Prelude.{
  ℕ, ◌+◌, ◌≡◌, ◌<◌, refl, String, Bool, true, false, none, some, List, [], ◌∷◌, arith, All, Any,
  length, ◌%◌, leb→le,
}
use singboxhub.Prelude.Int.{pos}
use singboxhub.Prelude.Dict.{Dict, get, has, put}
use singboxhub.Subscribe.Value.{
  int, float, text, array, object, Items, nil, item, Fields, end, field, lookup, store, as_int,
  as_string, as_bool, as_string_slice, strings_of, get_map_val, json, format_int, nearest_ℤ,
  nearest, excess,
}
use singboxhub.Subscribe.Parse.{Node, ok}
use singboxhub.Subscribe.Unique.{candidate, find_name, find_name_lem, unique_name}
use singboxhub.Subscribe.Outbound.{
  Kind, str, kind_of, singbox_type, protocol_fields, tls_object, apply_clash_tls, transport_object,
  apply_clash_transport, base_outbound, clash_to_outbound,
}
use singboxhub.Subscribe.Import.{
  imported, import_proxy, parse_proxies, group_name_to_mode, extract_modes, ParsedSource, ClashDoc,
  parse_clash_config,
}
use singboxhub.Subscribe.Names.{IsDistinct, parse_clash_config-IsDistinct}
use singboxhub.Subscribe.RoundTrip.{clash_proxy-import_proxy}
use singboxhub.Prelude.Itoa.{itoa}
use singboxhub.Prelude.Bytes.{bytes_of, eq_bytes, has_suffix, to_lower}
use singboxhub.Subscribe.Kept.{IsExact}
use singboxhub.Subscribe.Imported.{type_of}
use singboxhub.Subscribe.RoundTrip.{IsSameProxy}
use singboxhub.Subscribe.Export.{
  clash_proxy, clash_profile, generate_clash, singbox_config, generate_singbox,
}
use singboxhub.Subscribe.Uri.{Codec, share_uri}
use singboxhub.Subscribe.Shared.{is_ok, is_shareable, share_uri-import_proxy}
use singboxhub.Subscribe.Addresses.{IsProbed, parse_clash_config-AreProbed}
use singboxhub.Subscribe.Generated.{generate-parse_clash_config}
use singboxhub.Kce.{Bytes, Xof, encrypt}
use singboxhub.Http.Ssrf.{
  v4, is_private_ip, any_private, Net, Url, is_private_hostname, validate_resolved_ips,
  validate_outbound_url,
}
use singboxhub.Subscribe.Fetch.{
  answered, fetched, refused, key_required, fetch_config_source, fetch_config_source-encrypt,
}

abbrev ss_proxy : Fields
ss_proxy = field "name" (text "hk") (
    field "type" (text "ss") (
      field "server" (text "hk.example.com") (
        field "port" (int (pos 8388))
          (field "cipher" (text "aes-128-gcm") (field "password" (text "secret") end)))))

abbrev ss_node : Node
ss_node = record {
  name = "hk";
  outbound = some (
      object (
        field "type" (text "shadowsocks") (
          field "tag" (text "hk") (
            field "server" (text "hk.example.com") (
              field "server_port" (float (pos 8388) "8388")
                (field "method" (text "aes-128-gcm") (field "password" (text "secret") end)))))));
}

import_proxy-ss : import_proxy ss_proxy [] ≡ imported ss_node
unfolding import_proxy clash_to_outbound kind_of protocol_fields apply_clash_tls tls_object
    apply_clash_transport transport_object base_outbound singbox_type unique_name find_name
    candidate json lookup store as_string as_int as_bool get_map_val nearest_ℤ nearest excess
    format_int itoa has get
import_proxy-ss = refl

small_int : IsExact (as_int (lookup "alterId" ss_proxy))
unfolding lookup as_int
small_int = omega arith

clash_proxy-import_proxy_example :
    (kind : Kind) × (m : Fields) × (str ss_proxy "type" ≡ type_of kind)
    × (clash_proxy ss_node ≡ ok m)
    × IsSameProxy "hk" kind ss_proxy m
clash_proxy-import_proxy_example =
    clash_proxy-import_proxy ss_proxy [] ss_node import_proxy-ss small_int

abbrev identity : Codec
identity = record {
  raw_url_base64 = λ s. s;
  std_base64 = λ s. s;
  query_escape = λ s. s;
  encode = λ q. "";
  marshal = λ m. "";
}

share_uri-import_proxy_example :
    (kind : Kind) × (str ss_proxy "type" ≡ type_of kind)
    × (is_ok (share_uri identity ss_node) ≡ is_shareable kind ss_proxy)
share_uri-import_proxy_example =
    share_uri-import_proxy identity ss_proxy [] ss_node import_proxy-ss small_int

abbrev two_seen : Dict Bool
two_seen = ("hk", true) ∷ ("hk #2", true) ∷ []

find_name_lem_example :
    (s : String) × (find_name 3 2 "hk" two_seen ≡ some s) × (has s two_seen ≡ false)
find_name_lem_example = find_name_lem 3 2 "hk" two_seen (omega arith)

find_name-hk : find_name 3 2 "hk" two_seen ≡ some "hk #3"
unfolding find_name candidate itoa has get
find_name-hk = refl

-- The second proxy has the name of the first, the third has no server.
parse_clash_config-IsDistinct_example :
    (s : ParsedSource) × (parse_clash_config
        (some (record { proxies = ss_proxy ∷ ss_proxy ∷ end ∷ []; proxy_groups = [] }))
      ≡ ok s)
    × IsDistinct s.nodes
    × (length s.nodes + length s.skips ≡ 3)
parse_clash_config-IsDistinct_example =
    parse_clash_config-IsDistinct ss_proxy (ss_proxy ∷ end ∷ []) []

abbrev global_group : Fields
global_group = field "name" (text "GLOBAL") (field "proxies" (array (item (text "hk") nil)) end)

abbrev ss_doc : ClashDoc
ss_doc = record { proxies = ss_proxy ∷ end ∷ []; proxy_groups = global_group ∷ [] }

abbrev ss_source : ParsedSource
ss_source = record { nodes = ss_node ∷ []; skips = "<unnamed>" ∷ []; modes = ("hk", "global") ∷ [] }

parse_clash_config-ss : parse_clash_config (some ss_doc) ≡ ok ss_source
unfolding parse_clash_config parse_proxies extract_modes group_name_to_mode as_string_slice
    strings_of import_proxy clash_to_outbound kind_of protocol_fields apply_clash_tls tls_object
    apply_clash_transport transport_object base_outbound singbox_type unique_name find_name
    candidate json lookup store as_string as_int as_bool get_map_val nearest_ℤ nearest excess
    format_int itoa has get put
parse_clash_config-ss = refl

parse_clash_config-AreProbed_example : All (λ n. Any (IsProbed n) ss_doc.proxies) ss_source.nodes
parse_clash_config-AreProbed_example =
    parse_clash_config-AreProbed ss_doc ss_source parse_clash_config-ss

generate-parse_clash_config_example :
    ((proxies : List Fields) × (generate_clash ss_source.nodes
        ≡ ok (clash_profile ("hk" ∷ []) proxies)))
    × ((outbounds : Items) × (generate_singbox ss_source.nodes
          ≡ ok (singbox_config ("hk" ∷ []) outbounds)))
generate-parse_clash_config_example =
    generate-parse_clash_config ss_doc ss_source ss_node [] parse_clash_config-ss refl

abbrev xof : Xof
xof input i = i % 256

xof_byte : (input : Bytes) (i : ℕ) → xof input i < 256
xof_byte input i = omega arith

abbrev no_net : Net
no_net = record {
  parse_ip = λ _. some (v4 93 184 216 34);
  lookup_ip = λ _ _. none;
  dial = λ _. none;
}

abbrev url : Url
url = record {
  scheme = bytes_of "https";
  has_user = false;
  host = bytes_of "sub.example";
  hostname = bytes_of "sub.example";
  raw_query = [];
}

url_passes : validate_outbound_url no_net 0 (some url) ≡ none
unfolding validate_outbound_url validate_resolved_ips is_private_hostname is_private_ip eq_bytes
    has_suffix to_lower any_private
url_passes = refl

abbrev sixteen : Bytes
sixteen = 1 ∷ 2 ∷ 3 ∷ 4 ∷ 5 ∷ 6 ∷ 7 ∷ 8 ∷ 9 ∷ 10 ∷ 11 ∷ 12 ∷ 13 ∷ 14 ∷ 15 ∷ 16 ∷ []

abbrev eight : Bytes
eight = 1 ∷ 2 ∷ 3 ∷ 4 ∷ 5 ∷ 6 ∷ 7 ∷ 8 ∷ []

fetch_config_source-encrypt_example :
    (blob : Bytes) × (encrypt xof sixteen eight (104 ∷ 105 ∷ []) (107 ∷ []) ≡ some blob)
    × (fetch_config_source xof no_net 0 0 (some url) (answered 200 (some blob)) (107 ∷ [])
        ≡ fetched (104 ∷ 105 ∷ []))
    × (fetch_config_source xof no_net 0 0 (some url) (answered 200 (some blob)) []
        ≡ refused key_required)
fetch_config_source-encrypt_example =
    fetch_config_source-encrypt xof xof_byte no_net 0 0 (some url) sixteen eight (104 ∷ 105 ∷ [])
      (107 ∷ []) url_passes url_passes refl refl (leb→le 105 256 refl, (leb→le 106 256 refl, tt))
      (leb→le 2 4194304 refl) (λ e. cc e)
