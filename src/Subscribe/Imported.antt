-- ===== src/Subscribe/Imported.antt =====
-- clashimport.go against parse.go: an imported node reads back as what its proxy says.
use singboxhub.Prelude.{
  ◌≡◌, ◌≤◌, refl, ap, ◌∙◌, String, Bool, true, false, ◌||◌, some, str_eq, eq_iff, arith,
}
use singboxhub.Prelude.Int.{ℤ, pos, negsuc, leb_ℤ, ltb_ℤ}
use singboxhub.Subscribe.Value.{
  Fields, lookup, as_int, text_or_empty, get_str, get_int, json_fields,
}
use singboxhub.Subscribe.Fields.{text_or_empty-json, json?}
use singboxhub.Subscribe.Parse.{
  Node, Outbound, ok, top_fields, parse_outbound, parse_decoded, unmarshal, parse_outbound_server,
  server_of,
}
use singboxhub.Subscribe.Outbound.{
  Kind, ss, vmess, vless, trojan, hysteria2, tuic, kind_of, str, singbox_type, bad_address,
  apply_clash_tls, apply_clash_transport,
}
use singboxhub.Subscribe.Inversion.{IsImport}
use singboxhub.Subscribe.Kept.{top, IsExact, lookup-written, parse_fields_lem}
use singboxhub.Subscribe.View.{port_of, HasView, view, base, protocol_fields-HasView}

-- 1 to 65535
abbrev pub IsPort : ℤ → Type 0
IsPort (pos n) = (1 ≤ n) × (n ≤ 65535)
IsPort (negsuc n) = ⊥

or_false : (a b : Bool) → (a || b) ≡ false → (a ≡ false) × (b ≡ false)
or_false false false e = (refl, refl)
or_false false true e = absurd (cc e)
or_false true b e = absurd (cc e)

pub bad_address_lem :
    (server : String) (port : ℤ)
    → bad_address server port ≡ false
    → (str_eq server "" ≡ false) × (leb_ℤ port (pos 0) ≡ false) × IsPort port
bad_address_lem server (pos n) e =
    let (named, rest) = or_false (str_eq server "") _ e in
    let (low, high) = or_false (leb_ℤ (pos n) (pos 0)) (ltb_ℤ (pos 65535) (pos n)) rest in
    (named, low, (ground (arith, low), ground (arith, high)))
bad_address_lem server (negsuc n) e =
    let (named, rest) = or_false (str_eq server "") _ e in
    let (low, high) = or_false (leb_ℤ (negsuc n) (pos 0)) (ltb_ℤ (pos 65535) (negsuc n)) rest in
    absurd (ground (arith, low))

IsPort-IsExact : (port : ℤ) → IsPort port → IsExact port
IsPort-IsExact (pos n) h = omega (arith, h.1)
IsPort-IsExact (negsuc n) h = elim h [ ]

-- The name of a case.
abbrev pub type_of : Kind → String
type_of ss = "ss"
type_of vmess = "vmess"
type_of vless = "vless"
type_of trojan = "trojan"
type_of hysteria2 = "hysteria2"
type_of tuic = "tuic"

pub kind_of_lem : (typ : String) (kind : Kind) → kind_of typ ≡ some kind → typ ≡ type_of kind
unfolding kind_of
kind_of_lem typ kind e = ground (
  arith,
  type_of,
  eq_iff typ "ss",
  eq_iff typ "vmess",
  eq_iff typ "vless",
  eq_iff typ "trojan",
  eq_iff typ "hysteria2",
  eq_iff typ "tuic",
)

module _ (ob p d : Fields)
    (w : json_fields (apply_clash_transport (apply_clash_tls ob p) p) ≡ some d) where
  get_str-written :
      (j : String)
      → str_eq "tls" j ≡ false
      → str_eq "transport" j ≡ false
      → get_str d j ≡ get_str ob j
  unfolding get_str
  get_str-written j e e' =
      ap text_or_empty (lookup-written j ob p d w e e') ∙ text_or_empty-json (lookup j ob)

  get_int-written :
      (j : String)
      → str_eq "tls" j ≡ false
      → str_eq "transport" j ≡ false
      → as_int (json? (lookup j ob)) ≡ as_int (lookup j ob)
      → get_int d j ≡ get_int ob j
  unfolding get_int
  get_int-written j e e' kept = ap as_int (lookup-written j ob p d w e e') ∙ kept

  top-written :
      as_int (json? (lookup "server_port" ob)) ≡ as_int (lookup "server_port" ob)
      → as_int (json? (lookup "alter_id" ob)) ≡ as_int (lookup "alter_id" ob)
      → top (top_fields d) ≡ top (top_fields ob)
  unfolding top_fields
  top-written port alter =
      rw
        (
          get_int-written "server_port" refl refl port,
          get_int-written "alter_id" refl refl alter,
          get_str-written "type" refl refl,
          get_str-written "tag" refl refl,
          get_str-written "server" refl refl,
          get_str-written "uuid" refl refl,
          get_str-written "password" refl refl,
          get_str-written "method" refl refl,
          get_str-written "security" refl refl,
          get_str-written "flow" refl refl,
          get_str-written "congestion_control" refl refl,
        )
        refl

module _ (p : Fields) (tag : String) (n : Node) (i : IsImport p tag n) where
  has_view : HasView i.kind p tag i.fields
  unfolding base
  has_view =
      protocol_fields-HasView p tag
        (IsPort-IsExact (port_of p) (bad_address_lem (str p "server") (port_of p) i.has_address).2)
        i.kind i.fields i.changed i.has_fields

  pub view_lem :
      (kind : Kind)
      → ((view kind p tag).0 ≡ singbox_type (str p "type"))
        × ((view kind p tag).2 ≡ str p "server")
        × ((view kind p tag).3 ≡ port_of p)
  view_lem ss = (refl, refl, refl)
  view_lem vmess = (refl, refl, refl)
  view_lem vless = (refl, refl, refl)
  view_lem trojan = (refl, refl, refl)
  view_lem hysteria2 = (refl, refl, refl)
  view_lem tuic = (refl, refl, refl)

  pub type-written : get_str i.written "type" ≡ singbox_type (type_of i.kind)
  unfolding top_fields
  type-written =
      get_str-written i.fields i.changed i.written i.is_written "type" refl refl
      ∙ ap (λ t. t.0) has_view.0
      ∙ (view_lem i.kind).0
      ∙ ap singbox_type (kind_of_lem (str p "type") i.kind i.is_kind)

  is_typed : (kind : Kind) → str_eq (singbox_type (type_of kind)) "" ≡ false
  unfolding singbox_type
  is_typed ss = refl
  is_typed vmess = refl
  is_typed vless = refl
  is_typed trojan = refl
  is_typed hysteria2 = refl
  is_typed tuic = refl

  -- The outbound of an imported node parses.
  pub import-parsed :
      (o : Outbound) × (parse_outbound n.outbound ≡ ok o) × (top o ≡ top (top_fields i.written))
  unfolding parse_outbound
  import-parsed =
      let (o, parsed, same) =
        parse_fields_lem i.written (ap (λ t. str_eq t "") type-written ∙ is_typed i.kind) in
      (o, ap (λ raw. parse_decoded (unmarshal raw)) i.holds ∙ parsed, same)

  -- Its own fields are those that the proxy gives.
  pub import-view :
      IsExact (as_int (lookup "alterId" p)) → top (top_fields i.written) ≡ view i.kind p tag
  import-view alter =
      top-written i.fields i.changed i.written i.is_written has_view.1 (has_view.2 alter)
      ∙ has_view.0

  pub import-server :
      (get_str i.written "server" ≡ str p "server") × (get_int i.written "server_port" ≡ port_of p)
  unfolding top_fields
  import-server = (
    get_str-written i.fields i.changed i.written i.is_written "server" refl refl
        ∙ ap (λ t. t.2) has_view.0
        ∙ (view_lem i.kind).1,
    get_int-written i.fields i.changed i.written i.is_written "server_port" refl refl has_view.1
        ∙ ap (λ t. t.3) has_view.0
        ∙ (view_lem i.kind).2,
  )

  -- The address that a probe reads is the proxy's.
  pub import-address :
      (parse_outbound_server n.outbound ≡ ok (str p "server", port_of p)) × IsPort (port_of p)
  unfolding parse_outbound_server top_fields
  import-address =
      let (o, parsed, same) = import-parsed in
      let (named, low, port) = bad_address_lem (str p "server") (port_of p) i.has_address in
      let server : o.server ≡ str p "server" = ap (λ t. t.2) same ∙ import-server.0 in
      let number : o.server_port ≡ port_of p = ap (λ t. t.3) same ∙ import-server.1 in
      (ap server_of parsed ∙ rw (server, number, named, low) refl, port)
