-- ===== src/Subscribe/Parse.antt =====
-- parse.go and outbound_server.go: the normalised view of a sing-box outbound. Its JSON text is
-- represented by the value that `json.Unmarshal` makes of it, `none` for a text that is not JSON.
use singboxhub.Prelude.{
  ◌≡◌, String, Bool, false, ◌||◌, Option, none, some, List, [], str_eq, if◌then◌else◌,
}
use singboxhub.Prelude.Int.{ℤ, pos, leb_ℤ}
use singboxhub.Subscribe.Value.{
  Value, null, object, Fields, end, get_str, get_int, get_bool, get_map, get_str_slice,
}

pub record Node : Type 0 where
  pub name : String
  pub outbound : Option Value

-- Why a conversion fails.
pub data Failure : Type 0 where
  not_clash not_json no_type no_server_port missing_credentials no_proxies no_nodes : Failure
  plugin unsupported : String → Failure

pub data Result {ℓ} (A : Type ℓ) : Type ℓ where
  fail : Failure → Result A
  ok : A → Result A

pub record Outbound : Type 0 where
  pub kind : String
  pub tag : String
  pub server : String
  pub server_port : ℤ
  pub uuid : String
  pub password : String
  pub method : String
  pub security : String
  pub alter_id : ℤ
  pub flow : String
  pub tls_enabled : Bool
  pub server_name : String
  pub insecure : Bool
  pub alpn : List String
  pub transport : String
  pub path : String
  pub host : String
  pub service_name : String
  pub congestion : String
  pub obfs : String

-- `json.Unmarshal` into a map: null leaves it nil, another value is an error.
abbrev pub unmarshal : Option Value → Option Fields
unmarshal (some (object m)) = some m
unmarshal (some null) = some end
unmarshal _ = none

-- The fields that the outbound itself holds.
unfoldable pub top_fields : Fields → Outbound
top_fields m = record {
  kind = get_str m "type";
  tag = get_str m "tag";
  server = get_str m "server";
  server_port = get_int m "server_port";
  uuid = get_str m "uuid";
  password = get_str m "password";
  method = get_str m "method";
  security = get_str m "security";
  alter_id = get_int m "alter_id";
  flow = get_str m "flow";
  tls_enabled = false;
  server_name = "";
  insecure = false;
  alpn = [];
  transport = "";
  path = "";
  host = "";
  service_name = "";
  congestion = get_str m "congestion_control";
  obfs = "";
}

unfoldable pub with_tls : Option Fields → Outbound → Outbound
with_tls none o = o
with_tls (some tls) o = record o {
  tls_enabled = get_bool tls "enabled";
  server_name = get_str tls "server_name";
  insecure = get_bool tls "insecure";
  alpn = get_str_slice tls "alpn";
}

abbrev pub host_of : Option Fields → String
host_of none = ""
host_of (some headers) = get_str headers "Host"

unfoldable pub with_transport : Option Fields → Outbound → Outbound
with_transport none o = o
with_transport (some tr) o = record o {
  transport = get_str tr "type";
  path = get_str tr "path";
  service_name = get_str tr "service_name";
  host = host_of (get_map tr "headers");
}

unfoldable pub with_obfs : Option Fields → Outbound → Outbound
with_obfs none o = o
with_obfs (some obfs) o = record o { obfs = get_str obfs "type" }

unfoldable pub parse_fields : Fields → Result Outbound
unfolding top_fields with_tls with_transport with_obfs
parse_fields m =
    if str_eq (get_str m "type") ""
    then fail no_type
    else ok (
        with_obfs (get_map m "obfs")
          (with_transport (get_map m "transport") (with_tls (get_map m "tls") (top_fields m))))

abbrev pub parse_decoded : Option Fields → Result Outbound
parse_decoded none = fail not_json
parse_decoded (some m) = parse_fields m

unfoldable pub parse_outbound : Option Value → Result Outbound
unfolding parse_fields
parse_outbound raw = parse_decoded (unmarshal raw)

-- `o.Server == "" || o.ServerPort <= 0`
abbrev pub lacks_server : Outbound → Bool
lacks_server o = str_eq o.server "" || leb_ℤ o.server_port (pos 0)

abbrev pub server_of : Result Outbound → Result (String × ℤ)
server_of (fail why) = fail why
server_of (ok o) = if lacks_server o then fail no_server_port else ok (o.server, o.server_port)

unfoldable pub parse_outbound_server : Option Value → Result (String × ℤ)
unfolding parse_outbound
parse_outbound_server raw = server_of (parse_outbound raw)

pub ok_inj {ℓ} : {A : Type ℓ} (a b : A) → ok a ≡ ok b → a ≡ b
ok_inj a b e = cc e
