-- ===== src/Api/Subscription/Reset.antt =====
-- subscription.go: after a reset the new token is served.
use singboxhub.Prelude.{
  ℕ, ◌≡◌, ◌≢◌, refl, ap, ◌⊎◌, inl, inr, String, true, false, not, ◌&&◌, some, [], ◌∷◌, ◌==◌, ==_iff,
  str_eq, eq_iff, Bool-cases, All,
}
use Prim.Native.String.{◌++◌}
use singboxhub.Auth.Limiter.{Limiter, allow}
use singboxhub.Store.Nodes.{Table}
use singboxhub.Store.Subscriptions.{
  Subscriptions, find_row, get_subscription, set_subscription_token, find_subscription_user,
  insert_missing,
}
use singboxhub.Api.Subscription.{
  World, is_owner, serve_owner, generate, exportable_nodes, or_singbox, handle_subscription_content,
}

is_token : (token : String) → token ≢ "" → (str_eq token token && not (str_eq token "")) ≡ true
is_token token present = elim (Bool-cases (str_eq token "")) [
  | inl empty ↦ absurd (present ((eq_iff token "").0 empty))
  | inr nonempty ↦ rw ((eq_iff token token).1 refl, nonempty) refl
]

owns_token : (token : String) → token ≢ "" → (not (str_eq token "") && str_eq token token) ≡ true
owns_token token present = elim (Bool-cases (str_eq token "")) [
  | inl empty ↦ absurd (present ((eq_iff token "").0 empty))
  | inr nonempty ↦ rw (nonempty, (eq_iff token token).1 refl) refl
]

-- Only rows of this user may have the token.
abbrev pub IsFree : String → ℕ → Subscriptions → Type 0
IsFree token user subs = All (λ s. s.token ≡ token → s.user_id ≡ user) subs

find_subscription_user-set :
    (now user : ℕ) (token : String) (subs : Subscriptions)
    → token ≢ ""
    → IsFree token user subs
    → find_subscription_user token (set_subscription_token now user token subs) ≡ some user
unfolding find_subscription_user set_subscription_token
find_subscription_user-set now user token [] present free = rw (is_token token present) refl
find_subscription_user-set now user token (s ∷ subs) present free =
    at_tests (Bool-cases (s.user_id == user)) (Bool-cases (str_eq s.token token))
      (find_subscription_user-set now user token subs present free.1)
  where
    at_tests :
        ((s.user_id == user) ≡ true) ⊎ ((s.user_id == user) ≡ false)
        → (str_eq s.token token ≡ true) ⊎ (str_eq s.token token ≡ false)
        → find_subscription_user token (set_subscription_token now user token subs) ≡ some user
        → find_subscription_user token (set_subscription_token now user token (s ∷ subs))
          ≡ some user
    at_tests (inl mine) b rest =
        rw mine (rw (is_token token present) (ap some ((==_iff s.user_id user).0 mine)))
    at_tests (inr other) (inl same) rest =
        absurd (cc (other, (==_iff s.user_id user).1 (free.0 ((eq_iff s.token token).0 same))))
    at_tests (inr other) (inr differs) rest = rw other (rw differs rest)

find_row_of_set :
    (now later user : ℕ) (token : String) (subs : Subscriptions)
    → token ≢ ""
    → is_owner token
        (find_row user (insert_missing later user (set_subscription_token now user token subs)))
      ≡ true
unfolding find_row set_subscription_token
find_row_of_set now later user token [] present =
    let itself : (user == user) ≡ true = (==_iff user user).1 refl in
    rw itself (rw itself (owns_token token present))
find_row_of_set now later user token (s ∷ subs) present = elim (Bool-cases (s.user_id == user)) [
  | inl mine ↦ rw mine (rw mine (rw mine (owns_token token present)))
  | inr other ↦ rw other (rw other (rw other (find_row_of_set now later user token subs present)))
]

-- After a reset the new token, if it is not empty and no other user has it, is answered with a profile of
-- the nodes table as long as the limiter allows the client.
pub set_subscription_token-serves :
    (w : World) (now seconds later user : ℕ) (client token format : String) (t : Table)
    (limiter : Limiter) (subs : Subscriptions)
    → token ≢ ""
    → IsFree token user subs
    → (allow ("sub:" ++ client) now limiter).0 ≡ true
    → (handle_subscription_content w now later client token format t limiter
        (set_subscription_token seconds user token subs)).0
      ≡ generate w (or_singbox format) (exportable_nodes w t)
unfolding handle_subscription_content serve_owner get_subscription
set_subscription_token-serves w now seconds later user client token format t limiter subs present
      free allowed =
    rw allowed (
      rw (find_subscription_user-set seconds user token subs present free)
        (rw (find_row_of_set seconds later user token subs present) refl))
