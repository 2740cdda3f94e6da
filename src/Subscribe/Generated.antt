-- ===== src/Subscribe/Generated.antt =====
-- generate.go on the nodes of a Clash document: both profiles list every one of them.
use singboxhub.Prelude.{
  ◌≡◌, refl, ap, ◌∙◌, String, Bool, some, List, [], ◌∷◌, All, map, if◌then◌else◌,
}
use mathlib.Core.Path.{subst}
use singboxhub.Prelude.Dict.{Dict}
use singboxhub.Subscribe.Value.{Value, Fields, Items}
use singboxhub.Subscribe.Parse.{Node, Result, ok, fail, no_nodes, ok_inj}
use singboxhub.Subscribe.Unique.{unique_name}
use singboxhub.Subscribe.Outbound.{str, is_nil}
use singboxhub.Subscribe.Import.{
  Imported, skipped, imported, mark_seen, add_imported, import_proxy, parse_proxies, parse_nonempty,
  ParsedSource, ClashDoc, parse_clash_config,
}
use singboxhub.Subscribe.Export.{
  add_proxy, add_valid, clash_proxy, clash_proxies, clash_profile, generate_clash, valid_outbounds,
  singbox_config, generate_singbox,
}
use singboxhub.Subscribe.Inversion.{IsImport, import_proxy-IsImport}
use singboxhub.Subscribe.Imported.{import-parsed}
use singboxhub.Subscribe.RoundTrip.{clash_proxy-profile}

abbrev pub node_names : List Node → List String
node_names ns = map (λ n. n.name) ns

-- Both exporters take the node.
abbrev IsExportable : Node → Type 0
IsExportable n = ((m : Fields) × (clash_proxy n ≡ ok m)) × ((v : Value) × (n.outbound ≡ some v))

import-IsExportable : (p : Fields) (tag : String) (n : Node) → IsImport p tag n → IsExportable n
import-IsExportable p tag n i =
    let (o, parsed, same) = import-parsed p tag n i in
    ((_, clash_proxy-profile p tag n i o parsed same), (_, i.holds))

add_imported-IsExportable :
    (p : Fields) (seen : Dict Bool) (i : Imported) (acc : List Node × List String)
    → import_proxy p seen ≡ i
    → All IsExportable acc.0
    → All IsExportable (add_imported i acc).0
add_imported-IsExportable p seen (skipped name) (nodes, skips) e h = h
add_imported-IsExportable p seen (imported n) (nodes, skips) e h = (
  import-IsExportable p (unique_name (str p "name") seen) n (import_proxy-IsImport p seen n e),
  h,
)

parse_proxies-IsExportable :
    (ps : List Fields) (seen : Dict Bool) → All IsExportable (parse_proxies ps seen).0
unfolding parse_proxies
parse_proxies-IsExportable [] seen = tt
parse_proxies-IsExportable (p ∷ ps) seen =
    add_imported-IsExportable p seen (import_proxy p seen)
      (parse_proxies ps (mark_seen (import_proxy p seen) seen)) refl
      (parse_proxies-IsExportable ps (mark_seen (import_proxy p seen) seen))

clash_proxies-names : (ns : List Node) → All IsExportable ns → (clash_proxies ns).0 ≡ node_names ns
unfolding clash_proxies
clash_proxies-names [] h = refl
clash_proxies-names (n ∷ ns) h =
    ap (λ r. (add_proxy n.name r (clash_proxies ns)).0) h.0.0.1
    ∙ ap (λ names. n.name ∷ names) (clash_proxies-names ns h.1)

valid_outbounds-names :
    (ns : List Node) → All IsExportable ns → (valid_outbounds ns).0 ≡ node_names ns
unfolding valid_outbounds
valid_outbounds-names [] h = refl
valid_outbounds-names (n ∷ ns) h =
    ap (λ v. (add_valid n.name v (valid_outbounds ns)).0) h.0.1.1
    ∙ ap (λ names. n.name ∷ names) (valid_outbounds-names ns h.1)

-- The document that a builder makes of the names, where there is one.
abbrev from_names : (List String → Fields) → List String → Result Fields
from_names build names = if is_nil names then fail no_nodes else ok (build names)

from_names_lem :
    (build : List String → Fields) (names : List String) (ms : List Node) (n : Node)
    (ns : List Node)
    → names ≡ node_names ms
    → ms ≡ n ∷ ns
    → from_names build names ≡ ok (build (node_names ms))
from_names_lem build names ms n ns e same =
    ap (from_names build) e
    ∙ ap (λ b. if b then fail no_nodes else ok (build (node_names ms)))
        (ap (λ l. is_nil (node_names l)) same)

-- Where a Clash document gives at least one node, the Clash profile and the sing-box configuration of
-- its nodes are both generated, and each lists the name of every node in order.
pub generate-parse_clash_config :
    (doc : ClashDoc) (s : ParsedSource) (n : Node) (ns : List Node)
    → parse_clash_config (some doc) ≡ ok s
    → s.nodes ≡ n ∷ ns
    → ((proxies : List Fields) × (generate_clash s.nodes
          ≡ ok (clash_profile (node_names s.nodes) proxies)))
      × ((outbounds : Items) × (generate_singbox s.nodes
            ≡ ok (singbox_config (node_names s.nodes) outbounds)))
unfolding parse_clash_config generate_clash generate_singbox
generate-parse_clash_config doc s n ns e some_node = at_proxies doc.proxies e
  where
    generated :
        (ms : List Node)
        → ms ≡ n ∷ ns
        → All IsExportable ms
        → ((proxies : List Fields) × (generate_clash ms
              ≡ ok (clash_profile (node_names ms) proxies)))
          × ((outbounds : Items) × (generate_singbox ms
                ≡ ok (singbox_config (node_names ms) outbounds)))
    generated ms same h = (
      (
        (clash_proxies ms).1,
        from_names_lem (λ names. clash_profile names (clash_proxies ms).1) (clash_proxies ms).0 ms n
            ns (clash_proxies-names ms h) same,
      ),
      (
        (valid_outbounds ms).1,
        from_names_lem (λ names. singbox_config names (valid_outbounds ms).1) (valid_outbounds ms).0
            ms n ns (valid_outbounds-names ms h) same,
      ),
    )

    at_proxies :
        (ps : List Fields)
        → parse_nonempty ps doc.proxy_groups ≡ ok s
        → ((proxies : List Fields) × (generate_clash s.nodes
              ≡ ok (clash_profile (node_names s.nodes) proxies)))
          × ((outbounds : Items) × (generate_singbox s.nodes
                ≡ ok (singbox_config (node_names s.nodes) outbounds)))
    at_proxies [] e' = absurd (cc e')
    at_proxies (p ∷ ps) e' =
        let same : (parse_proxies (p ∷ ps) []).0 ≡ s.nodes = ap (λ t. t.nodes) (ok_inj _ _ e') in
        generated s.nodes some_node
          (subst (λ ms. All IsExportable ms) same (parse_proxies-IsExportable (p ∷ ps) []))
