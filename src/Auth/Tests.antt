-- ===== src/Auth/Tests.antt =====
-- A limiter of two events a minute, and an account with a session, for the theorems about
-- ratelimit.go, jwt.go and store/auth.go.
use singboxhub.Prelude.{
  ◌+◌, String, ◌≡◌, ◌≢◌, ◌⊎◌, refl, true, false, ◌&&◌, none, some, List, [], ◌∷◌, arith, ltb,
  ltb→lt, lt→ltb, leb→le, str_eq, eq_iff, if◌then◌else◌,
}
use singboxhub.Prelude.Dict.{get}
use singboxhub.Prelude.Decimal.{parse_decimal}
use singboxhub.Auth.Limiter.{Limiter, allow, retry_after}
use singboxhub.Auth.Limiter.Waiting.{allow_after_retry}
use singboxhub.Auth.Session.Tables.{
  User, Token, Db, ok, find_user, find_token, insert_token, insert_refresh_token, revoke_where,
  replace_refresh_token, update_user, update_where, delete_user, delete_where, remove_user,
}
use singboxhub.Auth.Session.Manager.{
  Claims, Jwt, done, failed, invalid_token, token_revoked, Lifetimes, Pair, make_claims,
  claims_user_id, new_pair, issue, verify, verify_access, verify_refresh, check_claims, rotate,
  rotate_claims, claim_type_access, claim_type_refresh,
}
use singboxhub.Auth.Session.Rows.{IsKeyed}
use singboxhub.Auth.Session.Revoked.{Op, IsDead, apply, run, apply-IsDead}
use singboxhub.Auth.Session.Lifecycle.{rotate_once}
use singboxhub.Auth.Session.Issued.{issue_grants}
use singboxhub.Auth.Session.Account.{update_user_ends_sessions}

-- One event of "a" at time 10, two allowed in each window of 60.
abbrev limiter : Limiter
limiter = record { entries = ("a", record { count = 1; start = 10 }) ∷ []; limit = 2; per = 60 }

allow_after_retry_example : (allow "a" (20 + retry_after "a" 20 limiter) limiter).0 ≡ true
unfolding get
allow_after_retry_example = allow_after_retry "a" 20 limiter (leb→le 10 20 refl)

distinct : (a b : String) → str_eq a b ≡ false → a ≢ b
distinct a b other e = cc (other, (eq_iff a b).1 e)

-- A token is its claims.
abbrev plain_jwt : Jwt
plain_jwt = record {
  Signed = Claims;
  sign = λ c. c;
  parse = λ now c. if str_eq c.issuer "sing-hub" && ltb now c.expires_at then some c else none;
  parse-sign = λ now c issued fresh. rw (issued, lt→ltb now c.expires_at fresh) refl;
}

abbrev ada : User
ada = record { id = 1; username = "ada"; password_hash = "h"; role = "admin"; created_at = 0 }

abbrev session_1 : Token
session_1 = record { jti = "s1"; user_id = 1; expires_at = 1000; revoked = false }

abbrev session_2 : Token
session_2 = record { jti = "s2"; user_id = 1; expires_at = 1010; revoked = false }

abbrev db : Db
db = record { users = ada ∷ []; tokens = session_1 ∷ [] }

abbrev lifetimes : Lifetimes
lifetimes = record { access_ttl = 900; refresh_ttl = 1000 }

abbrev refresh_1 : Claims
refresh_1 = record {
  typ = "refresh";
  username = "ada";
  role = "admin";
  subject = b'1' ∷ [];
  expires_at = 1000;
  issuer = "sing-hub";
  jti = "s1";
}

-- After the exchange of session 1 for session 2.
abbrev rotated : Db
rotated = record { users = ada ∷ []; tokens = record session_1 { revoked = true } ∷ session_2 ∷ [] }

abbrev pair_2 : Pair plain_jwt
pair_2 = new_pair plain_jwt lifetimes "s2" 10 1 "ada" "admin"

abbrev later_statements : List Op
later_statements = Op.insert "s3" 1 2000 ∷ Op.expire 500 ∷ Op.revoke "s2" ∷ []

db-IsKeyed : IsKeyed db.tokens
unfolding find_token
db-IsKeyed = (refl, tt)

rotate_1 : rotate plain_jwt lifetimes "s2" 10 refresh_1 db ≡ done (pair_2, rotated)
unfolding rotate verify check_claims rotate_claims replace_refresh_token claims_user_id
    parse_decimal insert_refresh_token insert_token find_user find_token revoke_where
rotate_1 = refl

rotate_once_example :
    (verify_access plain_jwt 20 refresh_1 (run later_statements rotated) ≡ failed invalid_token)
    × ((rotate plain_jwt lifetimes "s4" 20 refresh_1 (run later_statements rotated)
          ≡ failed invalid_token)
        ⊎ (rotate plain_jwt lifetimes "s4" 20 refresh_1 (run later_statements rotated)
            ≡ failed token_revoked))
rotate_once_example =
    rotate_once plain_jwt lifetimes "s2" 10 refresh_1 refresh_1 db (pair_2, rotated)
      later_statements "s4" 20 refresh_1 refresh_1 db-IsKeyed refl rotate_1
      (distinct "s3" "s1" refl, (tt, (tt, tt))) refl refl

rotated-IsDead : IsDead "s1" rotated
unfolding find_token
rotated-IsDead = record { keyed = (refl, (refl, tt)); dead = refl }

apply-IsDead_example : IsDead "s1" (apply (Op.insert "s3" 1 2000) rotated)
apply-IsDead_example =
    apply-IsDead "s1" (Op.insert "s3" 1 2000) rotated (distinct "s3" "s1" refl) rotated-IsDead

abbrev empty_db : Db
empty_db = record { users = ada ∷ []; tokens = [] }

abbrev pair_1 : Pair plain_jwt
pair_1 = new_pair plain_jwt lifetimes "s1" 0 1 "ada" "admin"

issue_1 : issue plain_jwt lifetimes "s1" 0 1 "ada" "admin" empty_db ≡ done (pair_1, db)
unfolding issue new_pair insert_refresh_token insert_token find_user find_token
issue_1 = refl

issue_grants_example :
    (verify_access plain_jwt 5 pair_1.access_token db
      ≡ done (make_claims claim_type_access 1 "ada" "admin" 900 "s1"))
    × (verify_refresh plain_jwt 5 pair_1.refresh_token
        ≡ done (make_claims claim_type_refresh 1 "ada" "admin" 1000 "s1"))
    × (verify_access plain_jwt 5 pair_1.refresh_token db ≡ failed invalid_token)
    × (verify_refresh plain_jwt 5 pair_1.access_token ≡ failed invalid_token)
issue_grants_example =
    issue_grants plain_jwt lifetimes "s1" 0 1 "ada" "admin" empty_db pair_1 db 5 issue_1
      (distinct "s1" "" refl) (λ e. omega arith) (ltb→lt 5 900 refl) (ltb→lt 5 1000 refl)

abbrev renamed : Db
renamed = record {
  users = record ada { username = "eve" } ∷ [];
  tokens = record session_1 { revoked = true } ∷ [];
}

update_1 : update_user 1 (some "eve") none db ≡ ok renamed
unfolding update_user find_user update_where revoke_where
update_1 = refl

find_1 : find_token "s1" db.tokens ≡ some session_1
unfolding find_token
find_1 = refl

update_user_ends_sessions_example :
    (verify_access plain_jwt 20 refresh_1 renamed ≡ failed invalid_token)
    × ((rotate plain_jwt lifetimes "s4" 20 refresh_1 renamed ≡ failed invalid_token)
        ⊎ (rotate plain_jwt lifetimes "s4" 20 refresh_1 renamed ≡ failed token_revoked))
update_user_ends_sessions_example =
    update_user_ends_sessions plain_jwt 1 (some "eve") none db renamed session_1 lifetimes "s4" 20
      refresh_1 refresh_1 db-IsKeyed update_1 refl refl find_1 refl

delete_1 : delete_user 1 db ≡ ok (record { users = []; tokens = [] })
unfolding delete_user find_user remove_user delete_where
delete_1 = refl
