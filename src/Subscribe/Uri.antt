-- ===== src/Subscribe/Uri.antt =====
-- uri.go, and ShareURI and GenerateBase64 of generate.go. What encoding/base64, net/url and
-- encoding/json make of a text, of query values and of an object is a parameter.
use singboxhub.Prelude.{
  String, Bool, ◌||◌, Option, none, some, List, [], ◌∷◌, str_eq, if◌then◌else◌,
}
use singboxhub.Prelude.Dict.{Dict, put}
use Prim.Native.String.{◌++◌}
use singboxhub.Subscribe.Value.{int, Fields, end, store, format_int, or_default_str}
use singboxhub.Subscribe.Parse.{
  Node, Outbound, missing_credentials, no_nodes, unsupported, Result, fail, ok, parse_outbound,
}
use singboxhub.Subscribe.Outbound.{
  Kind, ss, vmess, vless, trojan, hysteria2, tuic, store_text, is_nil,
}
use singboxhub.Subscribe.Export.{exported_kind}

pub record Codec : Type 0 where
  pub raw_url_base64 : String → String
  pub std_base64 : String → String
  pub query_escape : String → String
  pub encode : Dict String → String
  pub marshal : Fields → String

-- `strings.Join`
pub join : String → List String → String
join sep [] = ""
join sep (s ∷ []) = s
join sep (s ∷ t ∷ ts) = s ++ sep ++ join sep (t ∷ ts)

-- `if s != "" { q.Set(key, s) }`
abbrev set_some : String → String → Dict String → Dict String
set_some key s q = if str_eq s "" then q else put key s q

abbrev set_if : Bool → String → String → Dict String → Dict String
set_if b key s q = if b then put key s q else q

abbrev set_alpn : Outbound → Dict String → Dict String
set_alpn o q = if is_nil o.alpn then q else put "alpn" (join "," o.alpn) q

pub transport_name : String → String
transport_name t = if str_eq t "" then "tcp" else t

pub bool_to_flag : Bool → String
bool_to_flag b = if b then "tls" else ""

pub add_tls_params : Outbound → Dict String → Dict String
add_tls_params o q = set_alpn o (
    set_if o.insecure "allowInsecure" "1"
      (set_some "sni" o.server_name (put "security" (if o.tls_enabled then "tls" else "none") q)))

pub add_transport_params : Outbound → Dict String → Dict String
unfolding transport_name
add_transport_params o q =
    if str_eq o.transport ""
    then q
    else set_some "serviceName" o.service_name (
        set_some "path" o.path (set_some "host" o.host (put "type" (transport_name o.transport) q)))

module _ (codec : Codec) where
  -- scheme://userinfo@server:port?query#name
  abbrev address : Outbound → String
  address o = "@" ++ o.server ++ ":" ++ format_int o.server_port

  abbrev query_and_name : Dict String → String → String
  query_and_name q name = "?" ++ codec.encode q ++ "#" ++ codec.query_escape name

  unfoldable pub ss_uri : Outbound → String → Result String
  ss_uri o name =
      if str_eq o.server "" || str_eq o.method ""
      then fail missing_credentials
      else ok (
          "ss://"
          ++ codec.raw_url_base64 (o.method ++ ":" ++ o.password)
          ++ address o
          ++ "#"
          ++ codec.query_escape name)

  abbrev vmess_payload : Outbound → String → Fields
  vmess_payload o name = store_text "alpn" (join "," o.alpn) (
      store_text "sni" o.server_name (
        store_text "tls" (bool_to_flag o.tls_enabled) (
          store_text "path" o.path (
            store_text "host" o.host (
              store_text "net" (transport_name o.transport) (
                store_text "scy" (or_default_str o.security "auto") (
                  store "aid" (int o.alter_id) (
                    store_text "id" o.uuid (
                      store "port" (int o.server_port) (
                        store_text "add" o.server
                          (store_text "ps" name (store_text "v" "2" end))))))))))))

  unfoldable pub vmess_uri : Outbound → String → Result String
  vmess_uri o name =
      if str_eq o.server "" || str_eq o.uuid ""
      then fail missing_credentials
      else ok ("vmess://" ++ codec.std_base64 (codec.marshal (vmess_payload o name)))

  unfoldable pub vless_uri : Outbound → String → Result String
  unfolding add_tls_params add_transport_params
  vless_uri o name =
      let q =
        add_transport_params o
          (add_tls_params o (set_some "flow" o.flow (put "encryption" "none" []))) in
      if str_eq o.server "" || str_eq o.uuid ""
      then fail missing_credentials
      else ok ("vless://" ++ o.uuid ++ address o ++ query_and_name q name)

  unfoldable pub trojan_uri : Outbound → String → Result String
  unfolding add_tls_params add_transport_params
  trojan_uri o name =
      let q = add_transport_params o (add_tls_params o []) in
      if str_eq o.server "" || str_eq o.password ""
      then fail missing_credentials
      else ok ("trojan://" ++ codec.query_escape o.password ++ address o ++ query_and_name q name)

  unfoldable pub hysteria2_uri : Outbound → String → Result String
  hysteria2_uri o name =
      let q = set_alpn o (
        set_some "obfs" o.obfs
          (set_if o.insecure "insecure" "1" (set_some "sni" o.server_name []))) in
      if str_eq o.server ""
      then fail missing_credentials
      else ok
          ("hysteria2://" ++ codec.query_escape o.password ++ address o ++ query_and_name q name)

  unfoldable pub tuic_uri : Outbound → String → Result String
  tuic_uri o name =
      let q = set_if o.insecure "allow_insecure" "1" (
        set_some "sni" o.server_name
          (set_alpn o (set_some "congestion_control" o.congestion []))) in
      let auth = if str_eq o.password "" then o.uuid else o.uuid ++ ":" ++ o.password in
      if str_eq o.server "" || str_eq o.uuid ""
      then fail missing_credentials
      else ok ("tuic://" ++ auth ++ address o ++ query_and_name q name)

  abbrev pub uri_of_kind : Option Kind → Outbound → String → Result String
  uri_of_kind none o name = fail (unsupported o.kind)
  uri_of_kind (some ss) o name = ss_uri o name
  uri_of_kind (some vmess) o name = vmess_uri o name
  uri_of_kind (some vless) o name = vless_uri o name
  uri_of_kind (some trojan) o name = trojan_uri o name
  uri_of_kind (some hysteria2) o name = hysteria2_uri o name
  uri_of_kind (some tuic) o name = tuic_uri o name

  abbrev pub uri_of_outbound : String → Result Outbound → Result String
  uri_of_outbound name (fail why) = fail why
  uri_of_outbound name (ok o) = uri_of_kind (exported_kind o.kind) o name

  unfoldable pub share_uri : Node → Result String
  unfolding ss_uri vmess_uri vless_uri trojan_uri hysteria2_uri tuic_uri exported_kind
  share_uri n = uri_of_outbound n.name (parse_outbound n.outbound)

  abbrev pub add_uri : Result String → List String → List String
  add_uri (fail why) uris = uris
  add_uri (ok uri) uris = if str_eq uri "" then uris else uri ∷ uris

  pub share_uris : List Node → List String
  unfolding share_uri
  share_uris [] = []
  share_uris (n ∷ ns) = add_uri (share_uri n) (share_uris ns)

  pub generate_base64 : List Node → Result String
  unfolding share_uris
  generate_base64 nodes =
      let uris = share_uris nodes in
      if is_nil uris then fail no_nodes else ok (codec.std_base64 (join "\n" uris))
