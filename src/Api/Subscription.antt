-- ===== src/Api/Subscription.antt =====
-- backend/internal/api/subscription.go: the public address of a subscription, over the token table, the
-- nodes table, the rate limiter and the generators. A client's address, the clock, decryption and the
-- decoding of JSON are arguments.
pub mod Served
pub mod Reset
pub mod Exportable
mod Tests
use singboxhub.Prelude.{
  ℕ, String, Bool, true, false, not, ◌&&◌, ◌||◌, Option, none, some, List, [], ◌∷◌, str_eq,
  if◌then◌else◌,
}
use Prim.Native.String.{◌++◌}
use singboxhub.Auth.Limiter.{Limiter, allow}
use singboxhub.Store.Nodes.{Node, Table, list_nodes}
use singboxhub.Store.Subscriptions.{
  Subscription, Subscriptions, get_subscription, set_subscription_token, find_subscription_user,
  find_row,
}
use singboxhub.Subscribe.Value.{Value, text, object, Fields, lookup, store}
use singboxhub.Subscribe.Parse.{Node as ExportNode, Result, fail, ok, unmarshal}
use singboxhub.Subscribe.Export.{generate_clash, generate_singbox}
use singboxhub.Subscribe.Uri.{Codec, generate_base64}

pub record World : Type 0 where
  pub decrypt : String → Option String
  pub decode : String → Option Value
  pub codec : Codec

-- The outbound under the panel's name, where it has a tag. Writing and reading it again keeps a decoded
-- document.
abbrev pub renamed : Option Value → String → Option Fields → Option Value
renamed raw name none = raw
renamed raw name (some m) = elim (lookup "tag" m) [
  | none ↦ raw
  | some _ ↦ some (object (store "tag" (text name) m))
]

pub rename_outbound_tag : Option Value → String → Option Value
rename_outbound_tag raw name = renamed raw name (unmarshal raw)

abbrev pub exported : World → String → Option String → List ExportNode → List ExportNode
exported w name none rest = rest
exported w name (some plain) rest =
    record { name = name; outbound = rename_outbound_tag (w.decode plain) name } ∷ rest

-- The loop over the nodes.
pub export_rows : World → Table → List ExportNode
unfolding rename_outbound_tag
export_rows w [] = []
export_rows w ((id, n) ∷ rows) =
    let rest = export_rows w rows in
    if not n.enabled || str_eq n.outbound_enc ""
    then rest
    else exported w n.name (w.decrypt n.outbound_enc) rest

pub exportable_nodes : World → Table → List ExportNode
unfolding export_rows
exportable_nodes w t = export_rows w (list_nodes t)

pub data Content : Type 0 where
  rate_limited no_subscription bad_format no_nodes_configured : Content
  singbox_profile clash_profile : Fields → Content
  base64_profile : String → Content

abbrev content_of {ℓ} : {A : Type ℓ} → (A → Content) → Result A → Content
content_of profile (fail why) = no_nodes_configured
content_of profile (ok body) = profile body

abbrev or_singbox : String → String
or_singbox format = if str_eq format "" then "singbox" else format

pub generate : World → String → List ExportNode → Content
generate w format nodes =
    if str_eq format "singbox"
    then content_of singbox_profile (generate_singbox nodes)
    else if str_eq format "clash"
    then content_of clash_profile (generate_clash nodes)
    else if str_eq format "base64"
    then content_of base64_profile (generate_base64 w.codec nodes)
    else bad_format

-- `sub.Token == "" || !constantTimeEqual(token, sub.Token)`
abbrev pub is_owner : String → Option Subscription → Bool
is_owner token none = false
is_owner token (some sub) = not (str_eq sub.token "") && str_eq token sub.token

pub serve_owner : World → String → Table → Bool → Content
unfolding generate exportable_nodes
serve_owner w format t owner =
    if owner then generate w (or_singbox format) (exportable_nodes w t) else no_subscription

-- The rest of the handler for the user that the token was found for.
abbrev pub serve_user :
    World → ℕ → String → String → Table → Subscriptions → Option ℕ → Content × Subscriptions
serve_user w now token format t subs none = (no_subscription, subs)
serve_user w now token format t subs (some user) =
    let (sub, subs') = get_subscription now user subs in
    (serve_owner w format t (is_owner token sub), subs')

abbrev pub serve :
    World → ℕ → String → String → Table → Subscriptions → Bool → Content × Subscriptions
serve w now token format t subs allowed =
    if allowed
    then serve_user w now token format t subs (find_subscription_user token subs)
    else (rate_limited, subs)

-- `now` is the limiter's clock, `seconds` the table's.
pub handle_subscription_content :
    World
    → ℕ
    → ℕ
    → String
    → String
    → String
    → Table
    → Limiter
    → Subscriptions
    → Content × Limiter × Subscriptions
unfolding serve_owner
handle_subscription_content w now seconds client token format t limiter subs =
    let (allowed, limiter') = allow ("sub:" ++ client) now limiter in
    let (content, subs') = serve w seconds token format t subs allowed in (content, limiter', subs')

-- The view of a subscription; `sub_url` is the address for a token.
pub record SubscriptionView : Type 0 where
  pub enabled : Bool
  pub token : Option String
  pub url : Option String

abbrev view_of : (String → String) → Option Subscription → Option SubscriptionView
view_of sub_url none = none
view_of sub_url (some sub) =
    if str_eq sub.token ""
    then some (record { enabled = false; token = none; url = none })
    else some (record { enabled = true; token = some sub.token; url = some (sub_url sub.token) })

pub handle_get_subscription :
    (String → String) → ℕ → ℕ → Subscriptions → Option SubscriptionView × Subscriptions
handle_get_subscription sub_url now user subs =
    let (sub, subs') = get_subscription now user subs in (view_of sub_url sub, subs')

-- `fresh` is the random token.
pub handle_reset_subscription_token : ℕ → ℕ → String → Subscriptions → Subscriptions
handle_reset_subscription_token now user fresh subs = set_subscription_token now user fresh subs

pub handle_delete_subscription : ℕ → ℕ → Subscriptions → Subscriptions
handle_delete_subscription now user subs = set_subscription_token now user "" subs
