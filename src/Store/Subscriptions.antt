-- ===== src/Store/Subscriptions.antt =====
-- backend/internal/store/misc.go: the subscription token of each user. A row of the table is a record;
-- the user id is the key.
use singboxhub.Prelude.{
  ℕ, String, not, ◌&&◌, Option, none, some, List, [], ◌∷◌, ◌==◌, str_eq, if◌then◌else◌,
}

pub record Subscription : Type 0 where
  pub user_id : ℕ
  pub token : String
  pub updated_at : ℕ
  pub last_reset_at : ℕ

abbrev pub Subscriptions : Type 0
Subscriptions = List Subscription

-- The row of a user.
unfoldable pub find_row : ℕ → Subscriptions → Option Subscription
find_row user [] = none
find_row user (s ∷ subs) = if s.user_id == user then some s else find_row user subs

abbrev pub empty_row : ℕ → ℕ → String → Subscription
empty_row now user token = record {
  user_id = user;
  token = token;
  updated_at = now;
  last_reset_at = 0;
}

abbrev pub insert_missing : ℕ → ℕ → Subscriptions → Subscriptions
insert_missing now user [] = empty_row now user "" ∷ []
insert_missing now user (s ∷ subs) =
    if s.user_id == user then s ∷ subs else s ∷ insert_missing now user subs

-- An empty row is inserted on first use.
unfoldable pub get_subscription : ℕ → ℕ → Subscriptions → Option Subscription × Subscriptions
unfolding find_row
get_subscription now user subs =
    (find_row user (insert_missing now user subs), insert_missing now user subs)

unfoldable pub set_subscription_token : ℕ → ℕ → String → Subscriptions → Subscriptions
set_subscription_token now user token [] = empty_row now user token ∷ []
set_subscription_token now user token (s ∷ subs) =
    if s.user_id == user
    then record s { token = token; updated_at = now } ∷ subs
    else s ∷ set_subscription_token now user token subs

-- `none` is the id 0 that stands for no user.
unfoldable pub find_subscription_user : String → Subscriptions → Option ℕ
find_subscription_user token [] = none
find_subscription_user token (s ∷ subs) =
    if str_eq s.token token && not (str_eq s.token "")
    then some s.user_id
    else find_subscription_user token subs

abbrev reset_of : Option Subscription → ℕ → ℕ × ℕ
reset_of none cooldown = (0, 10)
reset_of (some s) cooldown = (s.last_reset_at, cooldown)

-- The time of the last reset and the cooldown of the settings row.
unfoldable pub get_reset_cooldown_info : ℕ → ℕ → Subscriptions → ℕ × ℕ
unfolding find_row
get_reset_cooldown_info cooldown user subs = reset_of (find_row user subs) cooldown

unfoldable pub set_reset_now : ℕ → ℕ → Subscriptions → Subscriptions
set_reset_now now user [] = []
set_reset_now now user (s ∷ subs) =
    let rest = set_reset_now now user subs in
    if s.user_id == user then record s { last_reset_at = now } ∷ rest else s ∷ rest
