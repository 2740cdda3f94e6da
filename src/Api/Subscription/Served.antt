-- ===== src/Api/Subscription/Served.antt =====
-- subscription.go: who is served, and that a token that was reset or revoked serves nobody.
use singboxhub.Prelude.{
  ℕ, ◌≡◌, ◌≢◌, refl, ap, ◌∙◌, sym, ◌⊎◌, inl, inr, String, Bool, true, false, not, ◌&&◌, Option,
  none, some, [], ◌∷◌, ◌==◌, ==_iff, str_eq, eq_iff, Bool-cases,
}
use Prim.Native.String.{◌++◌}
use singboxhub.Auth.Limiter.{Limiter, allow}
use singboxhub.Store.Nodes.{Table}
use singboxhub.Store.Subscriptions.{
  Subscription, Subscriptions, find_row, get_subscription, set_subscription_token,
  find_subscription_user, insert_missing, empty_row,
}
use singboxhub.Api.Subscription.{
  World, Content, singbox_profile, clash_profile, base64_profile, is_owner, serve_owner, serve_user,
  serve, handle_subscription_content,
}

-- A profile was sent.
abbrev pub is_served : Content → Bool
is_served (singbox_profile m) = true
is_served (clash_profile m) = true
is_served (base64_profile s) = true
is_served _ = false

-- The user's row of the table has this token, which is not empty.
abbrev pub HoldsToken : String → Subscriptions → ℕ → Type 0
HoldsToken token subs user =
    (row : Subscription) × (find_row user subs ≡ some row) × (row.token ≡ token) × (token ≢ "")

-- A row that was inserted has no token, so it owns none.
insert_missing-row :
    (now user : ℕ) (token : String) (subs : Subscriptions)
    → is_owner token (find_row user (insert_missing now user subs)) ≡ true
    → is_owner token (find_row user subs) ≡ true
unfolding find_row
insert_missing-row now user token [] h = absurd (cc (rw ((==_iff user user).1 refl) at h))
insert_missing-row now user token (s ∷ subs) h = elim (Bool-cases (s.user_id == user)) [
  | inl same ↦ rw same (rw (same, same) at h)
  | inr differs ↦ rw differs (insert_missing-row now user token subs (rw (differs, differs) at h))
]

owner_holds :
    (token : String) (user : ℕ) (subs : Subscriptions) (o : Option Subscription)
    → find_row user subs ≡ o
    → is_owner token o ≡ true
    → HoldsToken token subs user
owner_holds token user subs none e h = absurd (cc h)
owner_holds token user subs (some row) e h =
    let (some_token, same) = both (str_eq row.token "") (str_eq token row.token) h in
    let equal = (eq_iff token row.token).0 same in
    (
      row,
      e,
      sym equal,
      λ missing. absurd (cc (some_token, (eq_iff row.token "").1 (sym equal ∙ missing))),
    )
  where
    both : (a b : Bool) → (not a && b) ≡ true → (a ≡ false) × (b ≡ true)
    both false b e' = (refl, e')
    both true b e' = absurd (cc e')

serve_owner-served :
    (w : World) (format : String) (t : Table) (b : Bool)
    → is_served (serve_owner w format t b) ≡ true
    → b ≡ true
unfolding serve_owner
serve_owner-served w format t true h = refl
serve_owner-served w format t false h = absurd (cc h)

serve_user-served :
    (w : World) (now : ℕ) (token format : String) (t : Table) (subs : Subscriptions)
    (found : Option ℕ)
    → is_served (serve_user w now token format t subs found).0 ≡ true
    → (user : ℕ) × HoldsToken token subs user
unfolding get_subscription
serve_user-served w now token format t subs none h = absurd (cc h)
serve_user-served w now token format t subs (some user) h = (
  user,
  owner_holds token user subs (find_row user subs) refl (
      insert_missing-row now user token subs (
        serve_owner-served w format t
          (is_owner token (find_row user (insert_missing now user subs))) h)),
)

-- A profile is sent only for a token that is not empty and stands in the row of some user.
pub handle_subscription_content-served :
    (w : World) (now seconds : ℕ) (client token format : String) (t : Table) (limiter : Limiter)
    (subs : Subscriptions)
    → is_served (handle_subscription_content w now seconds client token format t limiter subs).0
      ≡ true
    → (user : ℕ) × HoldsToken token subs user
unfolding handle_subscription_content
handle_subscription_content-served w now seconds client token format t limiter subs h =
    at_limit (allow ("sub:" ++ client) now limiter).0 h
  where
    at_limit :
        (allowed : Bool)
        → is_served (serve w seconds token format t subs allowed).0 ≡ true
        → (user : ℕ) × HoldsToken token subs user
    at_limit true h' =
        serve_user-served w seconds token format t subs (find_subscription_user token subs) h'
    at_limit false h' = absurd (cc h')

pub some_token : (a row : Subscription) → some a ≡ some row → row.token ≡ a.token
some_token a row e = ap token_of (sym e)
  where
    token_of : Option Subscription → String
    token_of none = ""
    token_of (some s) = s.token

find_row-set :
    (now user j : ℕ) (token : String) (subs : Subscriptions) (row : Subscription)
    → find_row j (set_subscription_token now user token subs) ≡ some row
    → ((j ≡ user) × (row.token ≡ token)) ⊎ ((j ≢ user) × (find_row j subs ≡ some row))
unfolding find_row set_subscription_token
find_row-set now user j token [] row e = elim (Bool-cases (user == j)) [
  | inl same ↦
      inl (sym ((==_iff user j).0 same), some_token (empty_row now user token) row (rw same at e))
  | inr differs ↦ absurd (cc (rw differs at e))
]
find_row-set now user j token (s ∷ subs) row e =
    at_tests (Bool-cases (s.user_id == user)) (Bool-cases (s.user_id == j))
      (find_row-set now user j token subs row)
  where
    at_tests :
        ((s.user_id == user) ≡ true) ⊎ ((s.user_id == user) ≡ false)
        → ((s.user_id == j) ≡ true) ⊎ ((s.user_id == j) ≡ false)
        → (find_row j (set_subscription_token now user token subs) ≡ some row
            → ((j ≡ user) × (row.token ≡ token)) ⊎ ((j ≢ user) × (find_row j subs ≡ some row)))
        → ((j ≡ user) × (row.token ≡ token)) ⊎ ((j ≢ user) × (find_row j (s ∷ subs) ≡ some row))
    at_tests (inl a) (inl b) rest = inl (
      sym ((==_iff s.user_id j).0 b) ∙ (==_iff s.user_id user).0 a,
      some_token (record s { token = token; updated_at = now }) row (rw (a, b) at e),
    )
    at_tests (inl a) (inr b) rest = inr (
      (λ h. absurd (cc (b, (==_iff s.user_id j).1 ((==_iff s.user_id user).0 a ∙ sym h)))),
      rw b (rw (a, b) at e),
    )
    at_tests (inr a) (inl b) rest = inr (
      (λ h. absurd (cc (a, (==_iff s.user_id user).1 ((==_iff s.user_id j).0 b ∙ h)))),
      rw b (rw (a, b) at e),
    )
    at_tests (inr a) (inr b) rest = rw b (rest (rw (a, b) at e))

-- After the one user who holds a token was given another, or the empty one, nobody is served a profile
-- for the old token.
pub set_subscription_token-revokes :
    (w : World) (now seconds user : ℕ) (client old new format : String) (t : Table)
    (limiter : Limiter) (subs : Subscriptions)
    → ((j : ℕ) (row : Subscription) → find_row j subs ≡ some row → row.token ≡ old → j ≡ user)
    → new ≢ old
    → is_served
        (handle_subscription_content w now seconds client old format t limiter
          (set_subscription_token seconds user new subs)).0
      ≡ false
set_subscription_token-revokes w now seconds user client old new format t limiter subs sole
      differs =
    elim (Bool-cases answered) [
      | inr refused ↦ refused
      | inl served ↦
          let (j, (row, found, held, some_old)) =
            handle_subscription_content-served w now seconds client old format t limiter
              (set_subscription_token seconds user new subs) served in
          absurd (at_row j row held (find_row-set seconds user j new subs row found))
    ]
  where
    answered : Bool
    answered =
        is_served
          (handle_subscription_content w now seconds client old format t limiter
            (set_subscription_token seconds user new subs)).0

    at_row :
        (j : ℕ) (row : Subscription)
        → row.token ≡ old
        → ((j ≡ user) × (row.token ≡ new)) ⊎ ((j ≢ user) × (find_row j subs ≡ some row))
        → ⊥
    at_row j row held (inl (same, renewed)) = differs (sym renewed ∙ held)
    at_row j row held (inr (other, found)) = other (sole j row found held)
