-- ===== src/Auth/Session/Manager.antt =====
-- backend/internal/auth/jwt.go: `Issue`, `VerifyAccess`, `VerifyRefresh`, `Rotate` and `Revoke`.
use singboxhub.Prelude.{
  ℕ, ◌+◌, ◌<◌, String, ◌≡◌, not, ◌||◌, Option, none, some, List, leb, ◌==◌, str_eq, if◌then◌else◌,
}
use singboxhub.Prelude.Decimal.{print_decimal, parse_decimal}
use singboxhub.Auth.Session.Tables.{
  Db, Token, User, Result, ok, StoreError, not_found, insert_refresh_token, get_refresh_token,
  revoke_refresh_token, replace_refresh_token,
}
use singboxhub.Auth.Session.Tables

-- The subject is decimal text, as bytes. `IssuedAt` is never read and is left out.
pub record Claims : Type 0 where
  pub typ : String
  pub username : String
  pub role : String
  pub subject : List ℕ
  pub expires_at : ℕ
  pub issuer : String
  pub jti : String

-- The JWT library with the signing key. `sign` is HS256; `parse` at a time checks the signature, the
-- method, the issuer "sing-hub" and that the token has not expired. Documented: a signed token parses
-- back to its claims as long as it has that issuer and has not expired.
pub record Jwt : Type 1 where
  pub Signed : Type 0
  pub sign : Claims → Signed
  pub parse : ℕ → Signed → Option Claims
  pub parse-sign :
      (now : ℕ) (c : Claims)
      → c.issuer ≡ "sing-hub"
      → now < c.expires_at
      → parse now (sign c) ≡ some c

pub data SessionError : Type 0 where
  invalid_token token_revoked : SessionError
  store_failed : StoreError → SessionError

pub data Outcome {ℓ} (A : Type ℓ) : Type ℓ where
  done : A → Outcome A
  failed : SessionError → Outcome A

pub record Lifetimes : Type 0 where
  pub access_ttl : ℕ
  pub refresh_ttl : ℕ

abbrev pub claim_type_access : String
claim_type_access = "access"

abbrev pub claim_type_refresh : String
claim_type_refresh = "refresh"

-- A text that is no number reads as 0.
unfoldable pub claims_user_id : Claims → ℕ
claims_user_id c = elim (parse_decimal c.subject) [ none ↦ 0 | some n ↦ n ]

unfoldable pub make_claims : String → ℕ → String → String → ℕ → String → Claims
make_claims typ user_id username role exp jti = record {
  typ = typ;
  username = username;
  role = role;
  subject = print_decimal user_id;
  expires_at = exp;
  issuer = "sing-hub";
  jti = jti;
}

module _ (jwt : Jwt) where
  pub record Pair : Type 0 where
    pub access_token : jwt.Signed
    pub refresh_token : jwt.Signed
    pub access_expires_at : ℕ
    pub refresh_expires_at : ℕ

  -- `jti` is what `newJTI` drew.
  unfoldable pub new_pair : Lifetimes → String → ℕ → ℕ → String → String → Pair
  unfolding make_claims
  new_pair m jti now user_id username role =
      let access_exp = now + m.access_ttl in
      let refresh_exp = now + m.refresh_ttl in
      record {
        access_token =
            jwt.sign (make_claims claim_type_access user_id username role access_exp jti);
        refresh_token =
            jwt.sign (make_claims claim_type_refresh user_id username role refresh_exp jti);
        access_expires_at = access_exp;
        refresh_expires_at = refresh_exp;
      }

  unfoldable pub issue : Lifetimes → String → ℕ → ℕ → String → String → Db → Outcome (Pair × Db)
  unfolding new_pair
  issue m jti now user_id username role db =
      let pair = new_pair m jti now user_id username role in
      elim (insert_refresh_token jti user_id pair.refresh_expires_at db) [
        | ok db' ↦ done (pair, db')
        | Tables.err e ↦ failed (store_failed e)
      ]

  -- The tests on the claims that the library parsed.
  unfoldable pub check_claims : String → Claims → Outcome Claims
  unfolding claims_user_id
  check_claims want_type c =
      if not (str_eq c.typ want_type) || str_eq c.jti "" || claims_user_id c == 0
      then failed invalid_token
      else done c

  unfoldable pub verify : ℕ → jwt.Signed → String → Outcome Claims
  unfolding check_claims
  verify now token want_type = elim (jwt.parse now token) [
    | none ↦ failed invalid_token
    | some c ↦ check_claims want_type c
  ]

  -- What `VerifyAccess` asks of the table.
  unfoldable pub check_live : ℕ → Claims → Db → Outcome Claims
  check_live now c db = elim (get_refresh_token c.jti db) [
    | Tables.err e ↦ failed invalid_token
    | ok (revoked, expires_at) ↦
        if revoked || leb expires_at now then failed invalid_token else done c
  ]

  unfoldable pub verify_access : ℕ → jwt.Signed → Db → Outcome Claims
  unfolding verify check_live
  verify_access now token db = elim (verify now token claim_type_access) [
    | failed e ↦ failed e
    | done c ↦ check_live now c db
  ]

  unfoldable pub verify_refresh : ℕ → jwt.Signed → Outcome Claims
  unfolding verify
  verify_refresh now token = verify now token claim_type_refresh

  -- `Rotate` after the token is verified.
  unfoldable pub rotate_claims : Lifetimes → String → ℕ → Claims → Db → Outcome (Pair × Db)
  unfolding new_pair claims_user_id
  rotate_claims m jti now c db =
      let pair = new_pair m jti now (claims_user_id c) c.username c.role in
      elim (replace_refresh_token c.jti jti (claims_user_id c) pair.refresh_expires_at now db) [
        | Tables.err e ↦ failed (store_failed e)
        | ok (replaced, db') ↦ if replaced then done (pair, db') else failed token_revoked
      ]

  unfoldable pub rotate : Lifetimes → String → ℕ → jwt.Signed → Db → Outcome (Pair × Db)
  unfolding verify rotate_claims
  rotate m jti now token db = elim (verify now token claim_type_refresh) [
    | failed e ↦ failed e
    | done c ↦ rotate_claims m jti now c db
  ]

abbrev pub revoke : String → Db → Db
revoke = revoke_refresh_token
