-- ===== src/Subscribe/Names.antt =====
-- clashimport.go: the names of the nodes that a Clash document gives, and the proxies that it skips.
use singboxhub.Prelude.{
  suc, ◌+◌, ◌≡◌, ◌≢◌, refl, String, Bool, true, false, Option, none, some, List, [], ◌∷◌, arith,
  str_eq, if◌then◌else◌, length, All,
}
use singboxhub.Prelude.Dict.{Dict, has, put, has-put-false}
use singboxhub.Subscribe.Value.{Value, object, Fields, json}
use singboxhub.Subscribe.Parse.{Node, Result, fail, ok}
use singboxhub.Subscribe.Unique.{unique_name, unique_name_lem}
use singboxhub.Subscribe.Outbound.{str, clash_to_outbound}
use singboxhub.Subscribe.Import.{
  Imported, skipped, imported, mark_seen, add_imported, marshalled, converted, import_proxy,
  parse_proxies, ParsedSource, parse_clash_config,
}

-- No two nodes share a name.
abbrev pub IsDistinct : List Node → Type 0
IsDistinct [] = Unit
IsDistinct (n ∷ ns) = All (λ m. m.name ≢ n.name) ns × IsDistinct ns

abbrev IsFreshNode : Dict Bool → Imported → Type 0
IsFreshNode seen (skipped name) = Unit
IsFreshNode seen (imported n) = has n.name seen ≡ false

import_proxy-IsFresh : (p : Fields) (seen : Dict Bool) → IsFreshNode seen (import_proxy p seen)
unfolding import_proxy
import_proxy-IsFresh p seen = at_name (str_eq (str p "name") "")
  where
    at_json :
        (o : Option Value)
        → IsFreshNode seen (marshalled (str p "name") (unique_name (str p "name") seen) o)
    at_json none = tt
    at_json (some v) = (unique_name_lem (str p "name") seen).0

    at_outbound :
        (r : Result Fields)
        → IsFreshNode seen (converted (str p "name") (unique_name (str p "name") seen) r)
    at_outbound (fail why) = tt
    at_outbound (ok ob) = at_json (json (object ob))

    at_name :
        (b : Bool)
        → IsFreshNode seen (
            if b
            then skipped "<unnamed>"
            else converted
                (str p "name")
                (unique_name (str p "name") seen)
                (clash_to_outbound p (unique_name (str p "name") seen)))
    at_name true = tt
    at_name false = at_outbound (clash_to_outbound p (unique_name (str p "name") seen))

abbrev AreFresh : Dict Bool → List Node → Type 0
AreFresh seen = All (λ n. has n.name seen ≡ false)

AreFresh-put :
    (k : String) (seen : Dict Bool) (ns : List Node)
    → AreFresh (put k true seen) ns
    → AreFresh seen ns × All (λ n. n.name ≢ k) ns
AreFresh-put k seen [] h = (tt, tt)
AreFresh-put k seen (n ∷ ns) h =
    let (differs, fresh) = has-put-false k n.name seen h.0 in
    let rest = AreFresh-put k seen ns h.1 in ((fresh, rest.0), (differs, rest.1))

add_imported-IsDistinct :
    (i : Imported) (seen : Dict Bool) (acc : List Node × List String)
    → IsFreshNode seen i
    → AreFresh (mark_seen i seen) acc.0 × IsDistinct acc.0
    → AreFresh seen (add_imported i acc).0 × IsDistinct (add_imported i acc).0
add_imported-IsDistinct (skipped name) seen (nodes, skips) fresh h = h
add_imported-IsDistinct (imported n) seen (nodes, skips) fresh h =
    let (older, others) = AreFresh-put n.name seen nodes h.0 in ((fresh, older), (others, h.1))

parse_proxies-IsDistinct :
    (ps : List Fields) (seen : Dict Bool)
    → AreFresh seen (parse_proxies ps seen).0 × IsDistinct (parse_proxies ps seen).0
unfolding parse_proxies
parse_proxies-IsDistinct [] seen = (tt, tt)
parse_proxies-IsDistinct (p ∷ ps) seen =
    let i = import_proxy p seen in
    add_imported-IsDistinct i seen (parse_proxies ps (mark_seen i seen))
      (import_proxy-IsFresh p seen) (parse_proxies-IsDistinct ps (mark_seen i seen))

length-add_imported :
    (i : Imported) (acc : List Node × List String)
    → length (add_imported i acc).0 + length (add_imported i acc).1
      ≡ suc (length acc.0 + length acc.1)
length-add_imported (skipped name) (nodes, skips) = omega arith
length-add_imported (imported n) (nodes, skips) = omega arith

length-parse_proxies :
    (ps : List Fields) (seen : Dict Bool)
    → length (parse_proxies ps seen).0 + length (parse_proxies ps seen).1 ≡ length ps
unfolding parse_proxies
length-parse_proxies [] seen = refl
length-parse_proxies (p ∷ ps) seen =
    let i = import_proxy p seen in
    omega (
      arith,
      length-add_imported i (parse_proxies ps (mark_seen i seen)),
      length-parse_proxies ps (mark_seen i seen),
    )

-- A document with a proxy is read: no two of its nodes share a name, and each proxy is a node or is
-- reported as skipped.
pub parse_clash_config-IsDistinct :
    (p : Fields) (ps groups : List Fields)
    → (s : ParsedSource) × (parse_clash_config
          (some (record { proxies = p ∷ ps; proxy_groups = groups }))
        ≡ ok s)
      × IsDistinct s.nodes
      × (length s.nodes + length s.skips ≡ suc (length ps))
unfolding parse_clash_config
parse_clash_config-IsDistinct p ps groups =
    (_, refl, (parse_proxies-IsDistinct (p ∷ ps) []).1, length-parse_proxies (p ∷ ps) [])
