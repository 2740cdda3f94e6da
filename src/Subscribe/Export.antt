-- ===== src/Subscribe/Export.antt =====
-- clash.go and generate.go: the client profiles that a list of nodes gives, as the documents that
-- `yaml.Marshal` and `json.MarshalIndent` then render.
use singboxhub.Prelude.{
  String, true, false, not, ◌||◌, Option, none, some, List, [], ◌∷◌, str_eq, if◌then◌else◌,
}
use singboxhub.Subscribe.Value.{
  Value, boolean, int, text, array, object, Items, nil, item, Fields, end, store, or_default_str,
}
use singboxhub.Subscribe.Parse.{
  Node, Outbound, no_server_port, no_nodes, unsupported, Result, fail, ok, parse_outbound,
  lacks_server,
}
use singboxhub.Subscribe.Outbound.{
  Kind, ss, vmess, vless, trojan, hysteria2, tuic, store_text, store_some, store_if, texts, is_nil,
}

-- The cases of the exporters' `switch` on the type of an outbound.
unfoldable pub exported_kind : String → Option Kind
exported_kind kind =
    if str_eq kind "shadowsocks" || str_eq kind "ss"
    then some ss
    else if str_eq kind "vmess"
    then some vmess
    else if str_eq kind "vless"
    then some vless
    else if str_eq kind "trojan"
    then some trojan
    else if str_eq kind "hysteria2"
    then some hysteria2
    else if str_eq kind "tuic"
    then some tuic
    else none

unfoldable pub clash_credentials : Kind → Outbound → Fields → Fields
clash_credentials ss o base =
    store_text "password" o.password (store_text "cipher" o.method (store_text "type" "ss" base))
clash_credentials vmess o base =
    store_text "cipher" (or_default_str o.security "auto")
      (store "alterId" (int o.alter_id) (store_text "uuid" o.uuid (store_text "type" "vmess" base)))
clash_credentials vless o base =
    store_some "flow" o.flow (store_text "uuid" o.uuid (store_text "type" "vless" base))
clash_credentials trojan o base = store_text "password" o.password (store_text "type" "trojan" base)
clash_credentials hysteria2 o base =
    store_text "password" o.password (store_text "type" "hysteria2" base)
clash_credentials tuic o base =
    store_some "congestion-controller" o.congestion
      (store_some "password" o.password (store_text "uuid" o.uuid (store_text "type" "tuic" base)))

unfoldable pub clash_tls : Outbound → Fields → Fields
clash_tls o base =
    let switched = store_if o.tls_enabled "tls" (boolean true) base in
    let named = store_some "servername" o.server_name switched in
    let checked = store_if o.insecure "skip-cert-verify" (boolean true) named in
    store_if (not (is_nil o.alpn)) "alpn" (array (texts o.alpn)) checked

abbrev pub host_header : String → Fields → Fields
host_header host opts =
    store_if (not (str_eq host "")) "headers" (object (store_text "Host" host end)) opts

abbrev pub http_opts : Outbound → Fields
http_opts o =
    let opts = store_if (not (str_eq o.path "")) "path" (array (item (text o.path) nil)) end in
    host_header o.host opts

unfoldable pub clash_transport : Outbound → Fields → Fields
clash_transport o base =
    if str_eq o.transport "ws"
    then store "ws-opts" (object (host_header o.host (store_some "path" o.path end)))
        (store_text "network" "ws" base)
    else if str_eq o.transport "grpc"
    then store_if (not (str_eq o.service_name "")) "grpc-opts"
        (object (store_text "grpc-service-name" o.service_name end))
        (store_text "network" "grpc" base)
    else if str_eq o.transport "http"
    then store_if (not (str_eq o.path "") || not (str_eq o.host "")) "http-opts"
        (object (http_opts o)) (store_text "network" "http" base)
    else base

-- The proxy map before the `switch`.
unfoldable pub clash_base : String → Outbound → Fields
clash_base name o =
    store "port" (int o.server_port) (store_text "server" o.server (store_text "name" name end))

abbrev pub clash_kind : String → Option Kind → Outbound → Result Fields
clash_kind name none o = fail (unsupported o.kind)
clash_kind name (some kind) o =
    ok (clash_transport o (clash_tls o (clash_credentials kind o (clash_base name o))))

abbrev pub clash_outbound : String → Result Outbound → Result Fields
clash_outbound name (fail why) = fail why
clash_outbound name (ok o) =
    if lacks_server o then fail no_server_port else clash_kind name (exported_kind o.kind) o

unfoldable pub clash_proxy : Node → Result Fields
unfolding exported_kind clash_credentials clash_tls clash_transport clash_base
clash_proxy n = clash_outbound n.name (parse_outbound n.outbound)

-- A node whose conversion fails is left out.
abbrev pub add_proxy :
    String → Result Fields → List String × List Fields → List String × List Fields
add_proxy name (fail why) acc = acc
add_proxy name (ok proxy) (names, proxies) = (name ∷ names, proxy ∷ proxies)

unfoldable pub clash_proxies : List Node → List String × List Fields
unfolding clash_proxy
clash_proxies [] = ([], [])
clash_proxies (n ∷ ns) = add_proxy n.name (clash_proxy n) (clash_proxies ns)

abbrev pub selector_tag : String
selector_tag = "PROXY"

abbrev objects : List Fields → Items
objects [] = nil
objects (m ∷ ms) = item (object m) (objects ms)

abbrev pub clash_profile : List String → List Fields → Fields
clash_profile names proxies =
    let group =
      store "proxies" (array (texts names))
        (store_text "type" "select" (store_text "name" selector_tag end)) in
    store "rules" (array (texts ("MATCH,PROXY" ∷ []))) (
      store "proxy-groups" (array (objects (group ∷ [])))
        (store "proxies" (array (objects proxies)) end))

unfoldable pub generate_clash : List Node → Result Fields
unfolding clash_proxies
generate_clash nodes =
    let (names, proxies) = clash_proxies nodes in
    if is_nil names then fail no_nodes else ok (clash_profile names proxies)

-- `json.Valid`, and the outbound as it stands.
abbrev pub add_valid : String → Option Value → List String × Items → List String × Items
add_valid name none acc = acc
add_valid name (some v) (names, outbounds) = (name ∷ names, item v outbounds)

unfoldable pub valid_outbounds : List Node → List String × Items
valid_outbounds [] = ([], nil)
valid_outbounds (n ∷ ns) = add_valid n.name n.outbound (valid_outbounds ns)

abbrev pub selector : List String → Fields
selector names = store "interrupt_exist_connections" (boolean false) (
    store "outbounds" (array (texts names))
      (store_text "tag" selector_tag (store_text "type" "selector" end)))

abbrev pub singbox_config : List String → Items → Fields
singbox_config names outbounds = store "route" (object (store_text "final" selector_tag end)) (
    store "outbounds" (array (item (object (selector names)) outbounds))
      (store "log" (object (store_text "level" "warn" end)) end))

unfoldable pub generate_singbox : List Node → Result Fields
unfolding valid_outbounds
generate_singbox nodes =
    let (names, outbounds) = valid_outbounds nodes in
    if is_nil names then fail no_nodes else ok (singbox_config names outbounds)
