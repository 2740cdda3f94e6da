-- ===== src/Subscribe/RoundTrip.antt =====
-- clashimport.go against clash.go: a Clash proxy that was imported and is exported again.
use singboxhub.Prelude.{
  ◌≡◌, refl, ap, ◌∙◌, sym, String, Bool, true, false, some, str_eq, if◌then◌else◌, Bool-cases, inl,
  inr,
}
use mathlib.Core.Path.{subst}
use singboxhub.Prelude.Dict.{Dict}
use singboxhub.Subscribe.Value.{Fields, lookup, as_int, or_default_str}
use singboxhub.Subscribe.Parse.{Node, Outbound, ok, parse_outbound, top_fields}
use singboxhub.Subscribe.Unique.{unique_name}
use singboxhub.Subscribe.Outbound.{
  Kind, ss, vmess, vless, trojan, hysteria2, tuic, str, singbox_type,
}
use singboxhub.Subscribe.Import.{imported, import_proxy}
use singboxhub.Subscribe.Export.{exported_kind, clash_outbound, clash_proxy}
use singboxhub.Subscribe.Inversion.{IsImport, import_proxy-IsImport}
use singboxhub.Subscribe.Kept.{top, IsExact}
use singboxhub.Subscribe.View.{port_of, view}
use singboxhub.Subscribe.Imported.{
  type_of, kind_of_lem, bad_address_lem, view_lem, import-parsed, import-server, import-view,
  type-written,
}
use singboxhub.Subscribe.Exported.{HasCredentials, IsExported, profile, profile-IsExported}

-- The credentials of a proxy of each kind are those of another; a vmess cipher that is missing is
-- `auto`.
abbrev pub SameCredentials : Kind → Fields → Fields → Type 0
SameCredentials ss p m = (str m "cipher" ≡ str p "cipher") × (str m "password" ≡ str p "password")
SameCredentials vmess p m =
    (str m "uuid" ≡ str p "uuid")
    × (as_int (lookup "alterId" m) ≡ as_int (lookup "alterId" p))
    × (str m "cipher" ≡ or_default_str (str p "cipher") "auto")
SameCredentials vless p m = (str m "uuid" ≡ str p "uuid") × (str m "flow" ≡ str p "flow")
SameCredentials trojan p m = str m "password" ≡ str p "password"
SameCredentials hysteria2 p m = str m "password" ≡ str p "password"
SameCredentials tuic p m =
    (str m "uuid" ≡ str p "uuid")
    × (str m "password" ≡ str p "password")
    × (str m "congestion-controller" ≡ str p "congestion-controller")

-- `m` is `p` under the name `name`, as far as its type, address and credentials go.
abbrev pub IsSameProxy : String → Kind → Fields → Fields → Type 0
IsSameProxy name kind p m =
    (str m "name" ≡ name)
    × (str m "type" ≡ str p "type")
    × (str m "server" ≡ str p "server")
    × (as_int (lookup "port" m) ≡ as_int (lookup "port" p))
    × SameCredentials kind p m

or_default_str_idem : (c d : String) → or_default_str (or_default_str c d) d ≡ or_default_str c d
unfolding or_default_str
or_default_str_idem c d = elim (Bool-cases (str_eq c "")) [
  | inl missing ↦ rw (missing, or_default_str) (at_default (str_eq d ""))
  | inr given ↦ rw (given, or_default_str) (rw given refl)
]
  where
    at_default : (b : Bool) → (if b then d else d) ≡ d
    at_default true = refl
    at_default false = refl

HasCredentials-Same :
    (kind : Kind) (p : Fields) (tag : String) (m : Fields)
    → HasCredentials kind (view kind p tag) m
    → SameCredentials kind p m
HasCredentials-Same ss p tag m h = h
HasCredentials-Same vmess p tag m h = (h.0, h.1, h.2 ∙ or_default_str_idem (str p "cipher") "auto")
HasCredentials-Same vless p tag m h = h
HasCredentials-Same trojan p tag m h = h
HasCredentials-Same hysteria2 p tag m h = h
HasCredentials-Same tuic p tag m h = h

exported_kind_lem : (kind : Kind) → exported_kind (singbox_type (type_of kind)) ≡ some kind
unfolding exported_kind singbox_type
exported_kind_lem ss = refl
exported_kind_lem vmess = refl
exported_kind_lem vless = refl
exported_kind_lem trojan = refl
exported_kind_lem hysteria2 = refl
exported_kind_lem tuic = refl

-- The exporters know the type of an imported outbound.
pub exported-kind :
    (p : Fields) (tag : String) (n : Node) (i : IsImport p tag n) (o : Outbound)
    → top o ≡ top (top_fields i.written)
    → exported_kind o.kind ≡ some i.kind
unfolding top_fields
exported-kind p tag n i o same =
    ap exported_kind (ap (λ t. t.0) same ∙ type-written p tag n i) ∙ exported_kind_lem i.kind

-- An imported node is exported, whatever its credentials.
pub clash_proxy-profile :
    (p : Fields) (tag : String) (n : Node) (i : IsImport p tag n) (o : Outbound)
    → parse_outbound n.outbound ≡ ok o
    → top o ≡ top (top_fields i.written)
    → clash_proxy n ≡ ok (profile n.name o i.kind)
unfolding clash_proxy profile top_fields
clash_proxy-profile p tag n i o parsed same =
    let (named, low, port) = bad_address_lem (str p "server") (port_of p) i.has_address in
    let (server, number) = import-server p tag n i in
    let known = exported-kind p tag n i o same in
    let served : o.server ≡ str p "server" = ap (λ t. t.2) same ∙ server in
    let numbered : o.server_port ≡ port_of p = ap (λ t. t.3) same ∙ number in
    ap (clash_outbound n.name) parsed ∙ rw (served, numbered, named, low, known) refl

-- A Clash proxy that is imported as a node, and whose alterId is below 2 ^ 53 in size, is exported to
-- Clash again under the node's name, with its type, server, port and credentials.
pub clash_proxy-import_proxy :
    (p : Fields) (seen : Dict Bool) (n : Node)
    → import_proxy p seen ≡ imported n
    → IsExact (as_int (lookup "alterId" p))
    → (kind : Kind) × (m : Fields) × (str p "type" ≡ type_of kind)
      × (clash_proxy n ≡ ok m)
      × IsSameProxy n.name kind p m
clash_proxy-import_proxy p seen n e alter =
    let tag = unique_name (str p "name") seen in
    let i = import_proxy-IsImport p seen n e in
    let (o, parsed, same) = import-parsed p tag n i in
    let viewed : top o ≡ view i.kind p tag = same ∙ import-view p tag n i alter in
    let v = view_lem p tag n i i.kind in
    let typed = kind_of_lem (str p "type") i.kind i.is_kind in
    let h =
      subst (λ t. IsExported i.kind n.name t (profile n.name o i.kind)) viewed
        (profile-IsExported n.name o i.kind) in
    (
      i.kind,
      profile n.name o i.kind,
      typed,
      clash_proxy-profile p tag n i o parsed same,
      (h.0, h.1 ∙ sym typed, h.2 ∙ v.1, h.3 ∙ v.2, HasCredentials-Same i.kind p tag _ h.4),
    )
