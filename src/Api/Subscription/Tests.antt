-- ===== src/Api/Subscription/Tests.antt =====
-- Two nodes, of which one is exported, and two users, of which one has a subscription.
use singboxhub.Prelude.{
  ℕ, ◌≡◌, ◌≢◌, sym, ◌∙◌, inl, inr, refl, Bool-cases, String, Bool, true, false, ◌==◌, ==_iff, some,
  [], ◌∷◌, All, str_eq, eq_iff,
}
use singboxhub.Prelude.Int.{pos}
use singboxhub.Prelude.Dict.{get, IsUnique}
use singboxhub.Auth.Limiter.{new_limiter, allow}
use singboxhub.Store.Nodes.{Node, Table, list_nodes}
use singboxhub.Store.Subscriptions.{
  Subscription, Subscriptions, find_row, get_subscription, set_subscription_token,
  find_subscription_user, get_reset_cooldown_info, set_reset_now,
}
use singboxhub.Subscribe.Value.{text, object, end, field, lookup, store}
use singboxhub.Api.Subscription.{
  World, no_subscription, bad_format, generate, or_singbox, rename_outbound_tag, export_rows,
  exportable_nodes, serve_owner, handle_subscription_content,
}
use singboxhub.Api.Subscription.Served.{is_served, set_subscription_token-revokes, some_token}
use singboxhub.Api.Subscription.Reset.{IsFree, set_subscription_token-serves}
use singboxhub.Api.Subscription.Exportable.{IsExportOf, exportable_nodes-All}

abbrev row : String → Bool → String → Node
row name enabled outbound = record {
  name = name;
  api_url = "http://10.0.0.2:9090";
  api_secret_enc = "s";
  outbound_enc = outbound;
  source = "";
  config_url = "";
  kce_key_enc = "";
  tags = [];
  enabled = enabled;
  remark = "";
  mode = "rule";
  latency_ms = pos 0;
  latency_checked_at = 0;
  latency_fail_count = 0;
  created_at = 1;
  updated_at = 1;
  last_online = 0;
}

abbrev nodes : Table
nodes = ("a", row "tokyo" true "x") ∷ ("b", row "off" false "x") ∷ ("c", row "plain" true "") ∷ []

nodes-IsUnique : IsUnique nodes
unfolding get
nodes-IsUnique = (refl, (refl, (refl, tt)))

-- Every stored outbound is the same document.
abbrev world : World
world = record {
  decrypt = λ s. some s;
  decode = λ s. some (object (field "type" (text "shadowsocks") (field "tag" (text "hk") end)));
  codec = record {
    raw_url_base64 = λ s. s;
    std_base64 = λ s. s;
    query_escape = λ s. s;
    encode = λ q. "";
    marshal = λ m. "";
  };
}

exportable_nodes-All_example : All (IsExportOf world nodes) (exportable_nodes world nodes)
exportable_nodes-All_example = exportable_nodes-All world nodes nodes-IsUnique

-- One node is exported, under its name in the panel.
exported_node :
    exportable_nodes world nodes
    ≡ record {
      name = "tokyo";
      outbound = some (object (field "type" (text "shadowsocks") (field "tag" (text "tokyo") end)));
    }
      ∷ []
unfolding exportable_nodes export_rows list_nodes rename_outbound_tag lookup store
exported_node = refl

abbrev holder : ℕ → String → Subscription
holder user token = record { user_id = user; token = token; updated_at = 5; last_reset_at = 0 }

abbrev subscriptions : Subscriptions
subscriptions = holder 1 "" ∷ holder 2 "old" ∷ []

differs : (a b : String) → str_eq a b ≡ false → a ≢ b
differs a b e same = absurd (cc ((eq_iff a b).1 same, e))

sole_holder :
    (j : ℕ) (s : Subscription) → find_row j subscriptions ≡ some s → s.token ≡ "old" → j ≡ 2
unfolding find_row
sole_holder j s e held = elim (Bool-cases (2 == j)) [
  | inl second ↦ sym ((==_iff 2 j).0 second)
  | inr other ↦ elim (Bool-cases (1 == j)) [
    | inl first ↦
        absurd (differs "" "old" refl (sym (some_token (holder 1 "") s (rw first at e)) ∙ held))
    | inr neither ↦ absurd (cc (rw (neither, other) at e))
  ]
]

-- The token was taken back.
set_subscription_token-revokes_example :
    is_served
      (handle_subscription_content world 100 100 "10.0.0.9" "old" "" nodes
        (new_limiter 10 60)
        (set_subscription_token 100 2 "" subscriptions)).0
    ≡ false
set_subscription_token-revokes_example =
    set_subscription_token-revokes world 100 100 2 "10.0.0.9" "old" "" "" nodes (new_limiter 10 60)
      subscriptions sole_holder (differs "" "old" refl)

new-IsFree : IsFree "new" 2 subscriptions
new-IsFree = ((λ e. absurd (differs "" "new" refl e)), ((λ e. refl), tt))

set_subscription_token-serves_example :
    (handle_subscription_content world 100 100 "10.0.0.9" "new" "clash" nodes
      (new_limiter 10 60)
      (set_subscription_token 100 2 "new" subscriptions)).0
    ≡ generate world (or_singbox "clash") (exportable_nodes world nodes)
unfolding allow get
set_subscription_token-serves_example =
    set_subscription_token-serves world 100 100 100 2 "10.0.0.9" "new" "clash" nodes
      (new_limiter 10 60) subscriptions (differs "new" "" refl) new-IsFree refl

-- Before, it was served.
served_before :
    (handle_subscription_content world 100 100 "10.0.0.9" "old" "?" nodes
      (new_limiter 10 60)
      subscriptions).0
    ≡ bad_format
unfolding handle_subscription_content allow serve_owner generate find_subscription_user
    get_subscription find_row get
served_before = refl

new_row_has_no_token :
    (handle_subscription_content world 100 100 "10.0.0.9" "" "" nodes (new_limiter 10 60) []).0
    ≡ no_subscription
unfolding handle_subscription_content find_subscription_user allow get
new_row_has_no_token = refl

cooldown_of_reset : get_reset_cooldown_info 10 2 (set_reset_now 90 2 subscriptions) ≡ (90, 10)
unfolding get_reset_cooldown_info set_reset_now find_row
cooldown_of_reset = refl
