-- ===== src/Subscribe/Outbound.antt =====
-- clashimport.go, clashToOutbound and what it calls: one Clash proxy turned into a sing-box outbound. A proxy map that the code changes
-- (tls and servername of hysteria2 and tuic) is passed on with the outbound; nothing reads it later.
use singboxhub.Prelude.{
  String, Bool, true, false, not, ◌&&◌, ◌||◌, Option, none, some, List, [], ◌∷◌, str_eq,
  if◌then◌else◌,
}
use singboxhub.Prelude.Int.{ℤ, pos, leb_ℤ, ltb_ℤ}
use singboxhub.Subscribe.Value.{
  Value, boolean, int, text, array, object, Items, nil, item, Fields, end, lookup, store, is_empty,
  as_string, as_int, as_bool, get_map_val, as_string_slice, or_default_str,
}
use singboxhub.Subscribe.Parse.{no_server_port, plugin, unsupported, Result, fail, ok}

-- The cases of the `switch` on the type of a proxy.
pub data Kind : Type 0 where
  ss vmess vless trojan hysteria2 tuic : Kind

unfoldable pub kind_of : String → Option Kind
kind_of typ =
    if str_eq typ "ss"
    then some ss
    else if str_eq typ "vmess"
    then some vmess
    else if str_eq typ "vless"
    then some vless
    else if str_eq typ "trojan"
    then some trojan
    else if str_eq typ "hysteria2"
    then some hysteria2
    else if str_eq typ "tuic"
    then some tuic
    else none

-- `p[key]` read as a text.
abbrev pub str : Fields → String → String
str p key = as_string (lookup key p)

abbrev pub store_text : String → String → Fields → Fields
store_text key s m = store key (text s) m

abbrev pub store_unless : Bool → String → Value → Fields → Fields
store_unless b key v m = if b then m else store key v m

-- `if s != "" { m[key] = s }`
abbrev pub store_some : String → String → Fields → Fields
store_some key s m = store_unless (str_eq s "") key (text s) m

abbrev pub store_if : Bool → String → Value → Fields → Fields
store_if b key v m = if b then store key v m else m

-- A `[]string`
abbrev pub texts : List String → Items
texts [] = nil
texts (s ∷ rest) = item (text s) (texts rest)

abbrev pub is_nil : List String → Bool
is_nil [] = true
is_nil (_ ∷ _) = false

unfoldable pub singbox_type : String → String
singbox_type t = if str_eq t "ss" then "shadowsocks" else t

-- `p["tls"] = true`, and the sni as the server name.
pub implicit_tls : Fields → Fields
implicit_tls p = store_some "servername" (str p "sni") (store "tls" (boolean true) p)

unfoldable pub salamander : Fields → Fields → Fields
salamander p ob =
    store_if (str_eq (str p "obfs") "salamander") "obfs"
      (object (store_text "type" "salamander" (store_text "password" (str p "obfs-password") end)))
      ob

-- The cases of the `switch`, on the outbound so far.
unfoldable pub protocol_fields : Kind → Fields → Fields → Result (Fields × Fields)
unfolding implicit_tls salamander
protocol_fields ss p ob =
    if not (str_eq (str p "plugin") "")
    then fail (plugin (str p "plugin"))
    else ok (store_text "password" (str p "password") (store_text "method" (str p "cipher") ob), p)
protocol_fields vmess p ob = ok (
  store_text "security" (or_default_str (str p "cipher") "auto")
      (store "alter_id" (int (as_int (lookup "alterId" p))) (store_text "uuid" (str p "uuid") ob)),
  p,
)
protocol_fields vless p ob =
    ok (store_some "flow" (str p "flow") (store_text "uuid" (str p "uuid") ob), p)
protocol_fields trojan p ob = ok (store_text "password" (str p "password") ob, p)
protocol_fields hysteria2 p ob =
    ok (salamander (implicit_tls p) (store_text "password" (str p "password") ob), implicit_tls p)
protocol_fields tuic p ob = ok (
  store_some "congestion_control" (str p "congestion-controller")
      (store_some "password" (str p "password") (store_text "uuid" (str p "uuid") ob)),
  implicit_tls p,
)

pub reality_object : Fields → Fields
reality_object reality =
    store_text "short_id" (str reality "short-id")
      (store_text "public_key" (str reality "public-key") (store "enabled" (boolean true) end))

unfoldable pub tls_object : Fields → Fields → Fields
unfolding reality_object
tls_object reality p =
    let alpn = as_string_slice (lookup "alpn" p) in
    let fingerprint = str p "client-fingerprint" in
    let tls = store_some "server_name" (str p "servername") (store "enabled" (boolean true) end) in
    let checked = store_if (as_bool (lookup "skip-cert-verify" p)) "insecure" (boolean true) tls in
    let protocols = store_if (not (is_nil alpn)) "alpn" (array (texts alpn)) checked in
    let keyed =
      store_if (not (is_empty reality)) "reality" (object (reality_object reality)) protocols in
    store_if (not (str_eq fingerprint "")) "utls"
      (object (store_text "fingerprint" fingerprint (store "enabled" (boolean true) end))) keyed

unfoldable pub apply_clash_tls : Fields → Fields → Fields
unfolding tls_object
apply_clash_tls ob p =
    let reality = get_map_val p "reality-opts" in
    if not (as_bool (lookup "tls" p)) && is_empty reality
    then ob
    else store "tls" (object (tls_object reality p)) ob

pub ws_object : Fields → Fields
ws_object p =
    let opts = get_map_val p "ws-opts" in
    let headers = get_map_val opts "headers" in
    let early = as_int (lookup "max-early-data" opts) in
    let tr = store_some "path" (str opts "path") (store_text "type" "ws" end) in
    let headed = store_if (not (is_empty headers)) "headers" (object headers) tr in
    store_some "early_data_header_name" (str opts "early-data-header-name")
      (store_if (ltb_ℤ (pos 0) early) "max_early_data" (int early) headed)

pub grpc_object : Fields → Fields
grpc_object p =
    store_some "service_name" (str (get_map_val p "grpc-opts") "grpc-service-name")
      (store_text "type" "grpc" end)

-- `switch path := opts["path"].(type)`
abbrev pub http_path : Option Value → Fields → Fields
http_path (some (text s)) tr = store_text "path" s tr
http_path (some (array (item v vs))) tr = store_text "path" (as_string (some v)) tr
http_path _ tr = tr

pub http_object : Bool → Fields → Fields
http_object is_h2 p =
    let opts = if is_h2 then get_map_val p "h2-opts" else get_map_val p "http-opts" in
    let headers = get_map_val opts "headers" in
    let hosts = as_string_slice (lookup "host" opts) in
    let tr = http_path (lookup "path" opts) (store_text "type" "http" end) in
    if not (is_nil hosts)
    then store "host" (array (texts hosts)) tr
    else store_if (not (is_empty headers)) "headers" (object headers) tr

-- The transport object that a network asks for.
unfoldable pub transport_object : String → Fields → Option Fields
unfolding ws_object grpc_object http_object
transport_object network p =
    if str_eq network "ws"
    then some (ws_object p)
    else if str_eq network "grpc"
    then some (grpc_object p)
    else if str_eq network "http" || str_eq network "h2"
    then some (http_object (str_eq network "h2") p)
    else none

abbrev pub store_transport : Option Fields → Fields → Fields
store_transport none ob = ob
store_transport (some tr) ob = store "transport" (object tr) ob

unfoldable pub apply_clash_transport : Fields → Fields → Fields
unfolding transport_object
apply_clash_transport ob p = store_transport (transport_object (str p "network") p) ob

-- The outbound before the `switch`.
unfoldable pub base_outbound : String → String → Fields → Fields
unfolding singbox_type
base_outbound typ tag p = store "server_port" (int (as_int (lookup "port" p))) (
    store_text "server" (str p "server")
      (store_text "tag" tag (store_text "type" (singbox_type typ) end)))

abbrev pub finish : Result (Fields × Fields) → Result Fields
finish (fail why) = fail why
finish (ok (ob, p)) = ok (apply_clash_transport (apply_clash_tls ob p) p)

abbrev pub convert : String → Option Kind → Fields → Fields → Result Fields
convert typ none p ob = fail (unsupported typ)
convert typ (some kind) p ob = finish (protocol_fields kind p ob)

-- `server == "" || port <= 0 || port > 65535`
abbrev pub bad_address : String → ℤ → Bool
bad_address server port = str_eq server "" || (leb_ℤ port (pos 0) || ltb_ℤ (pos 65535) port)

unfoldable pub clash_to_outbound : Fields → String → Result Fields
unfolding kind_of protocol_fields apply_clash_tls apply_clash_transport base_outbound
clash_to_outbound p tag =
    let typ = str p "type" in
    if bad_address (str p "server") (as_int (lookup "port" p))
    then fail no_server_port
    else convert typ (kind_of typ) p (base_outbound typ tag p)
