-- ===== src/Subscribe/View.antt =====
-- The normalised view of the outbound that a Clash proxy is converted to, field by field.
use singboxhub.Prelude.{
  ◌≡◌, refl, ap, ◌∙◌, sym, String, Bool, true, false, str_eq, eq_iff, not, if◌then◌else◌,
}
use mathlib.Core.Path.{subst}
use singboxhub.Prelude.Int.{ℤ, pos}
use singboxhub.Subscribe.Value.{
  Value, Fields, text, lookup, store, as_int, get_str, get_int, or_default_str,
}
use singboxhub.Subscribe.Fields.{json?}
use singboxhub.Subscribe.Parse.{Result, fail, ok, plugin, top_fields}
use singboxhub.Subscribe.Outbound.{
  Kind, ss, vmess, vless, trojan, hysteria2, tuic, str, store_if, store_unless, store_text,
  salamander, implicit_tls, singbox_type, base_outbound, protocol_fields,
}
use singboxhub.Subscribe.Kept.{Top, top, IsExact, as_int-json}

abbrev pub port_of : Fields → ℤ
port_of p = as_int (lookup "port" p)

abbrev view_with : Fields → String → String → String → String → String → ℤ → String → String → Top
view_with p tag uuid password method security alter_id flow congestion = (
  singbox_type (str p "type"),
  tag,
  str p "server",
  port_of p,
  uuid,
  password,
  method,
  security,
  alter_id,
  flow,
  congestion,
)

-- What a proxy of each kind says of itself.
abbrev pub view : Kind → Fields → String → Top
view ss p tag = view_with p tag "" (str p "password") (str p "cipher") "" (pos 0) "" ""
view vmess p tag =
    view_with p tag (str p "uuid") "" "" (or_default_str (str p "cipher") "auto")
      (as_int (lookup "alterId" p)) "" ""
view vless p tag = view_with p tag (str p "uuid") "" "" "" (pos 0) (str p "flow") ""
view trojan p tag = view_with p tag "" (str p "password") "" "" (pos 0) "" ""
view hysteria2 p tag = view_with p tag "" (str p "password") "" "" (pos 0) "" ""
view tuic p tag =
    view_with p tag (str p "uuid") (str p "password") "" "" (pos 0) ""
      (str p "congestion-controller")

-- The view of the outbound, and that JSON keeps its two numbers, the second where it is exact.
abbrev pub HasView : Kind → Fields → String → Fields → Type 0
HasView kind p tag ob =
    (top (top_fields ob) ≡ view kind p tag)
    × (as_int (json? (lookup "server_port" ob)) ≡ as_int (lookup "server_port" ob))
    × (IsExact (as_int (lookup "alterId" p))
        → as_int (json? (lookup "alter_id" ob)) ≡ as_int (lookup "alter_id" ob))

module _ (p : Fields) (tag : String) (port : IsExact (port_of p)) where
  unfoldable pub base : Fields
  base = base_outbound (str p "type") tag p

  -- A text that is stored only where it is not empty reads the same either way.
  flow_HasView :
      (b : Bool)
      → str_eq (str p "flow") "" ≡ b
      → HasView vless p tag
          (store_unless b "flow" (text (str p "flow")) (store_text "uuid" (str p "uuid") base))
  unfolding base base_outbound top_fields get_str get_int lookup store
  flow_HasView true e = (
    ap (λ f. view_with p tag (str p "uuid") "" "" "" (pos 0) f "")
        (sym ((eq_iff (str p "flow") "").0 e)),
    as_int-json (port_of p) port,
    λ a. refl,
  )
  flow_HasView false e = (refl, as_int-json (port_of p) port, λ a. refl)

  obfs_HasView :
      (b : Bool) (v : Value)
      → HasView hysteria2 p tag
          (store_if b "obfs" v (store_text "password" (str p "password") base))
  unfolding base base_outbound top_fields get_str get_int lookup store
  obfs_HasView true v = (refl, as_int-json (port_of p) port, λ a. refl)
  obfs_HasView false v = (refl, as_int-json (port_of p) port, λ a. refl)

  tuic_HasView :
      (b b' : Bool)
      → str_eq (str p "password") "" ≡ b
      → str_eq (str p "congestion-controller") "" ≡ b'
      → HasView tuic p tag (
          store_unless b' "congestion_control" (text (str p "congestion-controller")) (
            store_unless b "password"
              (text (str p "password"))
              (store_text "uuid" (str p "uuid") base)))
  unfolding base base_outbound top_fields get_str get_int lookup store
  tuic_HasView true true e e' = (
    ap (λ w. view_with p tag (str p "uuid") w "" "" (pos 0) "" "")
          (sym ((eq_iff (str p "password") "").0 e))
        ∙ ap (λ c. view_with p tag (str p "uuid") (str p "password") "" "" (pos 0) "" c)
            (sym ((eq_iff (str p "congestion-controller") "").0 e')),
    as_int-json (port_of p) port,
    λ a. refl,
  )
  tuic_HasView true false e e' = (
    ap (λ w. view_with p tag (str p "uuid") w "" "" (pos 0) "" (str p "congestion-controller"))
        (sym ((eq_iff (str p "password") "").0 e)),
    as_int-json (port_of p) port,
    λ a. refl,
  )
  tuic_HasView false true e e' = (
    ap (λ c. view_with p tag (str p "uuid") (str p "password") "" "" (pos 0) "" c)
        (sym ((eq_iff (str p "congestion-controller") "").0 e')),
    as_int-json (port_of p) port,
    λ a. refl,
  )
  tuic_HasView false false e e' = (refl, as_int-json (port_of p) port, λ a. refl)

  ok_HasView :
      (kind : Kind) {built fields changed changed' : Fields}
      → HasView kind p tag built
      → ◌≡◌ {A = Result (Fields × Fields)} (ok (built, changed')) (ok (fields, changed))
      → HasView kind p tag fields
  ok_HasView kind {built} {fields} h e =
      let same : built ≡ fields = cc e in subst (HasView kind p tag) same h

  ss_HasView :
      (b : Bool) (fields changed : Fields)
      → if◌then◌else◌ {A = Result (Fields × Fields)} (not b) (fail (plugin (str p "plugin"))) (
          ok (
            store_text "password" (str p "password") (store_text "method" (str p "cipher") base),
            p,
          ))
        ≡ ok (fields, changed)
      → HasView ss p tag fields
  unfolding base base_outbound top_fields get_str get_int lookup store
  ss_HasView false fields changed e = absurd (cc e)
  ss_HasView true fields changed e = ok_HasView ss (refl, as_int-json (port_of p) port, λ a. refl) e

  pub protocol_fields-HasView :
      (kind : Kind) (fields changed : Fields)
      → protocol_fields kind p base ≡ ok (fields, changed)
      → HasView kind p tag fields
  unfolding protocol_fields base base_outbound top_fields get_str get_int lookup store salamander
  protocol_fields-HasView ss fields changed e =
      ss_HasView (str_eq (str p "plugin") "") fields changed e
  protocol_fields-HasView vmess fields changed e =
      ok_HasView vmess
        (refl, as_int-json (port_of p) port, as_int-json (as_int (lookup "alterId" p))) e
  protocol_fields-HasView vless fields changed e =
      ok_HasView vless (flow_HasView (str_eq (str p "flow") "") refl) e
  protocol_fields-HasView trojan fields changed e =
      ok_HasView trojan (refl, as_int-json (port_of p) port, λ a. refl) e
  protocol_fields-HasView hysteria2 fields changed e =
      ok_HasView hysteria2 (obfs_HasView (str_eq (str (implicit_tls p) "obfs") "salamander") _) e
  protocol_fields-HasView tuic fields changed e =
      ok_HasView tuic
        (tuic_HasView (str_eq (str p "password") "") (str_eq (str p "congestion-controller") "")
          refl refl)
        e
