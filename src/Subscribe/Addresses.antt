-- ===== src/Subscribe/Addresses.antt =====
-- clashimport.go and outbound_server.go: the address that a latency probe reads of an imported node.
use singboxhub.Prelude.{◌≡◌, refl, inl, inr, ap, Bool, some, List, [], ◌∷◌, String, All, Any}
use mathlib.Core.Path.{subst}
use singboxhub.Prelude.Dict.{Dict}
use singboxhub.Subscribe.Value.{Fields}
use singboxhub.Subscribe.Parse.{Node, ok, ok_inj, parse_outbound_server}
use singboxhub.Subscribe.Unique.{unique_name}
use singboxhub.Subscribe.Outbound.{str}
use singboxhub.Subscribe.Import.{
  Imported, skipped, imported, mark_seen, add_imported, import_proxy, parse_proxies, ParsedSource,
  ClashDoc, parse_clash_config, parse_nonempty,
}
use singboxhub.Subscribe.Inversion.{import_proxy-IsImport}
use singboxhub.Subscribe.View.{port_of}
use singboxhub.Subscribe.Imported.{IsPort, import-address}

-- The probe finds the proxy's server and port, which is from 1 to 65535.
abbrev pub IsProbed : Node → Fields → Type 0
IsProbed n p =
    (parse_outbound_server n.outbound ≡ ok (str p "server", port_of p)) × IsPort (port_of p)

abbrev AreProbed : List Fields → List Node → Type 0
AreProbed ps = All (λ n. Any (IsProbed n) ps)

AreProbed-later :
    (p : Fields) (ps : List Fields) (ns : List Node) → AreProbed ps ns → AreProbed (p ∷ ps) ns
AreProbed-later p ps [] h = tt
AreProbed-later p ps (n ∷ ns) h = (inr h.0, AreProbed-later p ps ns h.1)

add_imported-AreProbed :
    (p : Fields) (ps : List Fields) (seen : Dict Bool) (i : Imported)
    (acc : List Node × List String)
    → import_proxy p seen ≡ i
    → AreProbed ps acc.0
    → AreProbed (p ∷ ps) (add_imported i acc).0
add_imported-AreProbed p ps seen (skipped name) (nodes, skips) e h = AreProbed-later p ps nodes h
add_imported-AreProbed p ps seen (imported n) (nodes, skips) e h = (
  inl (import-address p (unique_name (str p "name") seen) n (import_proxy-IsImport p seen n e)),
  AreProbed-later p ps nodes h,
)

parse_proxies-AreProbed :
    (ps : List Fields) (seen : Dict Bool) → AreProbed ps (parse_proxies ps seen).0
unfolding parse_proxies
parse_proxies-AreProbed [] seen = tt
parse_proxies-AreProbed (p ∷ ps) seen =
    add_imported-AreProbed p ps seen (import_proxy p seen)
      (parse_proxies ps (mark_seen (import_proxy p seen) seen)) refl
      (parse_proxies-AreProbed ps (mark_seen (import_proxy p seen) seen))

-- The latency probe of every node of a Clash document dials the server and the port, from 1 to 65535,
-- of one of its proxies.
pub parse_clash_config-AreProbed :
    (doc : ClashDoc) (s : ParsedSource)
    → parse_clash_config (some doc) ≡ ok s
    → All (λ n. Any (IsProbed n) doc.proxies) s.nodes
unfolding parse_clash_config
parse_clash_config-AreProbed doc s e = at_proxies doc.proxies e
  where
    at_proxies :
        (ps : List Fields)
        → parse_nonempty ps doc.proxy_groups ≡ ok s
        → All (λ n. Any (IsProbed n) ps) s.nodes
    at_proxies [] e' = absurd (cc e')
    at_proxies (p ∷ ps) e' =
        let same : (parse_proxies (p ∷ ps) []).0 ≡ s.nodes = ap (λ t. t.nodes) (ok_inj _ _ e') in
        subst (AreProbed (p ∷ ps)) same (parse_proxies-AreProbed (p ∷ ps) [])
