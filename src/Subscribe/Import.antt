-- ===== src/Subscribe/Import.antt =====
-- clashimport.go, ParseClashConfig and extractModes: a decoded Clash document turned into panel nodes.
use singboxhub.Prelude.{
  String, Bool, true, ◌||◌, Option, none, some, List, [], ◌∷◌, str_eq, if◌then◌else◌,
}
use singboxhub.Prelude.Dict.{Dict, put}
use singboxhub.Subscribe.Value.{Value, object, Fields, lookup, as_string_slice, json}
use singboxhub.Subscribe.Parse.{Node, not_clash, no_proxies, Result, fail, ok}
use singboxhub.Subscribe.Outbound.{str, clash_to_outbound}
use singboxhub.Subscribe.Unique.{unique_name}

-- What one proxy becomes.
pub data Imported : Type 0 where
  skipped : String → Imported
  imported : Node → Imported

abbrev pub marshalled : String → String → Option Value → Imported
marshalled name unique none = skipped name
marshalled name unique (some v) = imported (record { name = unique; outbound = some v })

abbrev pub converted : String → String → Result Fields → Imported
converted name unique (fail why) = skipped name
converted name unique (ok ob) = marshalled name unique (json (object ob))

unfoldable pub import_proxy : Fields → Dict Bool → Imported
unfolding clash_to_outbound
import_proxy p seen =
    let name = str p "name" in
    let unique = unique_name name seen in
    if str_eq name ""
    then skipped "<unnamed>"
    else converted name unique (clash_to_outbound p unique)

abbrev pub mark_seen : Imported → Dict Bool → Dict Bool
mark_seen (skipped name) seen = seen
mark_seen (imported n) seen = put n.name true seen

pub record ParsedSource : Type 0 where
  pub nodes : List Node
  pub skips : List String
  pub modes : Dict String

abbrev pub add_imported : Imported → List Node × List String → List Node × List String
add_imported (skipped name) (nodes, skips) = (nodes, name ∷ skips)
add_imported (imported n) (nodes, skips) = (n ∷ nodes, skips)

-- The loop over the proxies.
unfoldable pub parse_proxies : List Fields → Dict Bool → List Node × List String
unfolding import_proxy
parse_proxies [] seen = ([], [])
parse_proxies (p ∷ ps) seen =
    add_imported (import_proxy p seen) (parse_proxies ps (mark_seen (import_proxy p seen) seen))

unfoldable pub group_name_to_mode : String → String
group_name_to_mode name =
    if str_eq name "GLOBAL" || (str_eq name "全局" || str_eq name "Global")
    then "global"
    else if str_eq name "DIRECT" || (str_eq name "直连" || str_eq name "Direct")
    then "direct"
    else ""

abbrev pub set_modes : String → List String → Dict String → Dict String
set_modes mode [] modes = modes
set_modes mode (name ∷ names) modes =
    set_modes mode names (if str_eq name "" then modes else put name mode modes)

abbrev pub group_modes : Fields → Dict String → Dict String
group_modes g modes =
    let mode = group_name_to_mode (str g "name") in
    if str_eq (str g "name") ""
    then modes
    else if str_eq mode ""
    then modes
    else set_modes mode (as_string_slice (lookup "proxies" g)) modes

unfoldable pub extract_modes : List Fields → Dict String → Dict String
unfolding group_name_to_mode
extract_modes [] modes = modes
extract_modes (g ∷ gs) modes = extract_modes gs (group_modes g modes)

-- The two keys of a Clash document that the code reads.
pub record ClashDoc : Type 0 where
  pub proxies : List Fields
  pub proxy_groups : List Fields

abbrev pub parse_nonempty : List Fields → List Fields → Result ParsedSource
parse_nonempty [] groups = fail no_proxies
parse_nonempty (p ∷ ps) groups =
    let (nodes, skips) = parse_proxies (p ∷ ps) [] in
    ok (record { nodes = nodes; skips = skips; modes = extract_modes groups [] })

-- `none` is a payload that `yaml.Unmarshal` refuses.
unfoldable pub parse_clash_config : Option ClashDoc → Result ParsedSource
parse_clash_config none = fail not_clash
parse_clash_config (some doc) = parse_nonempty doc.proxies doc.proxy_groups
