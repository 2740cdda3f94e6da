-- ===== src/Subscribe/Shared.antt =====
-- uri.go on the nodes of a Clash document: which of them have a share link.
use singboxhub.Prelude.{
  ◌≡◌, refl, ap, ◌∙◌, String, Bool, true, false, not, ◌||◌, some, str_eq, if◌then◌else◌,
}
use singboxhub.Prelude.Dict.{Dict}
use singboxhub.Subscribe.Value.{Fields, lookup, as_int}
use singboxhub.Subscribe.Parse.{Node, Outbound, missing_credentials, Result, ok, fail}
use singboxhub.Subscribe.Unique.{unique_name}
use singboxhub.Subscribe.Outbound.{Kind, ss, vmess, vless, trojan, hysteria2, tuic, str}
use singboxhub.Subscribe.Import.{imported, import_proxy}
use singboxhub.Subscribe.Inversion.{import_proxy-IsImport}
use singboxhub.Subscribe.Kept.{Top, top, IsExact}
use singboxhub.Subscribe.View.{view, port_of}
use singboxhub.Subscribe.Imported.{
  bad_address_lem, type_of, kind_of_lem, view_lem, import-parsed, import-view,
}
use singboxhub.Subscribe.RoundTrip.{exported-kind}
use singboxhub.Subscribe.Uri.{
  Codec, ss_uri, vmess_uri, vless_uri, trojan_uri, hysteria2_uri, tuic_uri, uri_of_kind,
  uri_of_outbound, share_uri,
}

-- A proxy of the kind gives what its link needs.
abbrev pub is_shareable : Kind → Fields → Bool
is_shareable ss p = not (str_eq (str p "cipher") "")
is_shareable vmess p = not (str_eq (str p "uuid") "")
is_shareable vless p = not (str_eq (str p "uuid") "")
is_shareable trojan p = not (str_eq (str p "password") "")
is_shareable hysteria2 p = true
is_shareable tuic p = not (str_eq (str p "uuid") "")

abbrev pub is_ok {ℓ} : {A : Type ℓ} → Result A → Bool
is_ok (fail why) = false
is_ok (ok a) = true

-- The field of an outbound that a link of the kind needs besides the server.
abbrev needed : Kind → Top → Bool
needed ss t = not (str_eq t.6 "")
needed vmess t = not (str_eq t.4 "")
needed vless t = not (str_eq t.4 "")
needed trojan t = not (str_eq t.5 "")
needed hysteria2 t = true
needed tuic t = not (str_eq t.4 "")

is_ok-guard :
    (b b' : Bool) (s : String)
    → b ≡ false
    → is_ok (if b || b' then fail missing_credentials else ok s) ≡ not b'
is_ok-guard true b' s e = absurd (cc e)
is_ok-guard false true s e = refl
is_ok-guard false false s e = refl

module _ (codec : Codec) (o : Outbound) (name : String) (served : str_eq o.server "" ≡ false) where
  uri_of_kind-needed :
      (kind : Kind) → is_ok (uri_of_kind codec (some kind) o name) ≡ needed kind (top o)
  unfolding ss_uri vmess_uri vless_uri trojan_uri hysteria2_uri tuic_uri
  uri_of_kind-needed ss = is_ok-guard _ (str_eq o.method "") _ served
  uri_of_kind-needed vmess = is_ok-guard _ (str_eq o.uuid "") _ served
  uri_of_kind-needed vless = is_ok-guard _ (str_eq o.uuid "") _ served
  uri_of_kind-needed trojan = is_ok-guard _ (str_eq o.password "") _ served
  uri_of_kind-needed hysteria2 = rw (served, hysteria2_uri) refl
  uri_of_kind-needed tuic = is_ok-guard _ (str_eq o.uuid "") _ served

needed-view :
    (kind : Kind) (p : Fields) (tag : String) → needed kind (view kind p tag) ≡ is_shareable kind p
needed-view ss p tag = refl
needed-view vmess p tag = refl
needed-view vless p tag = refl
needed-view trojan p tag = refl
needed-view hysteria2 p tag = refl
needed-view tuic p tag = refl

-- A Clash proxy that is imported as a node, and whose alterId is below 2 ^ 53 in size, has a share link
-- exactly where it gives what its type needs: a cipher for ss, a uuid for vmess, vless and tuic, a
-- password for trojan, nothing more for hysteria2.
pub share_uri-import_proxy :
    (codec : Codec) (p : Fields) (seen : Dict Bool) (n : Node)
    → import_proxy p seen ≡ imported n
    → IsExact (as_int (lookup "alterId" p))
    → (kind : Kind) × (str p "type" ≡ type_of kind)
      × (is_ok (share_uri codec n) ≡ is_shareable kind p)
unfolding share_uri
share_uri-import_proxy codec p seen n e alter =
    let tag = unique_name (str p "name") seen in
    let i = import_proxy-IsImport p seen n e in
    let (o, parsed, same) = import-parsed p tag n i in
    let (named, low, port) = bad_address_lem (str p "server") (port_of p) i.has_address in
    let viewed : top o ≡ view i.kind p tag = same ∙ import-view p tag n i alter in
    let served : o.server ≡ str p "server" = ap (λ t. t.2) viewed ∙ (view_lem p tag n i i.kind).1 in
    (
      i.kind,
      kind_of_lem (str p "type") i.kind i.is_kind,
      ap (λ r. is_ok (uri_of_outbound codec n.name r)) parsed
          ∙ ap (λ k. is_ok (uri_of_kind codec k o n.name)) (exported-kind p tag n i o same)
          ∙ uri_of_kind-needed codec o n.name (ap (λ s. str_eq s "") served ∙ named) i.kind
          ∙ ap (needed i.kind) viewed
          ∙ needed-view i.kind p tag,
    )
