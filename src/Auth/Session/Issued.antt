-- ===== src/Auth/Session/Issued.antt =====
-- What a fresh pair of tokens is good for, and how a change of the account ends its sessions.
use mathlib.Core.Bool.{false≢true}
use singboxhub.Prelude.{
  ℕ, ◌+◌, ◌<◌, String, ◌≡◌, ◌≢◌, refl, sym, ap, ◌∙◌, true, false, some, arith, leb, ◌==◌, str_eq,
  eq_iff, Bool-cases, inl, inr,
}
use singboxhub.Prelude.Decimal.{parse_decimal-print_decimal}
use singboxhub.Auth.Session.Tables
use singboxhub.Auth.Session.Tables.{
  Db, Token, User, Result, ok, find_token, find_user, has_id, is_some, name_taken, update_where,
  remove_user, revoke_where, delete_where, count_where, has_jti, of_user, is_replaceable,
  insert_refresh_token, get_refresh_token, replace_refresh_token, update_user, delete_user,
}
use singboxhub.Auth.Session.Rows.{find_token-concat, insert_cases, new_token, with_token}
use singboxhub.Auth.Session.Manager.{
  Jwt, Claims, Lifetimes, Pair, done, failed, invalid_token, claim_type_access, claim_type_refresh,
  claims_user_id, make_claims, new_pair, issue, check_claims, verify, check_live, verify_access,
  verify_refresh,
}

claims_user_id-make_claims :
    (typ : String) (user_id : ℕ) (username role : String) (exp : ℕ) (jti : String)
    → claims_user_id (make_claims typ user_id username role exp jti) ≡ user_id
unfolding claims_user_id make_claims
claims_user_id-make_claims typ user_id username role exp jti =
    rw (parse_decimal-print_decimal user_id, claims_user_id)

str_eq_refl : (s : String) → str_eq s s ≡ true
str_eq_refl s = (eq_iff s s).1 refl

str_ne : (s t : String) → s ≢ t → str_eq s t ≡ false
str_ne s t h = elim (Bool-cases (str_eq s t)) [ inl e ↦ absurd (h ((eq_iff s t).0 e)) | inr e ↦ e ]

nat_ne : (n : ℕ) → n ≢ 0 → (n == 0) ≡ false
nat_ne n h = ground arith

module _ (jwt : Jwt) where
  -- A token that the panel signed verifies as its own type.
  verify_signed :
      (now : ℕ) (typ : String) (user_id : ℕ) (username role : String) (exp : ℕ) (jti : String)
      → jti ≢ ""
      → user_id ≢ 0
      → now < exp
      → verify jwt now (jwt.sign (make_claims typ user_id username role exp jti)) typ
        ≡ done (make_claims typ user_id username role exp jti)
  unfolding verify check_claims make_claims
  verify_signed now typ user_id username role exp jti hj hu ht =
      rw (jwt.parse-sign now (make_claims typ user_id username role exp jti) refl ht, verify)
        (rw claims_user_id-make_claims (rw (str_eq_refl typ, str_ne jti "" hj, nat_ne user_id hu)))

  -- As another type it is refused.
  verify_other_type :
      (now : ℕ) (typ want : String) (user_id : ℕ) (username role : String) (exp : ℕ) (jti : String)
      → typ ≢ want
      → now < exp
      → verify jwt now (jwt.sign (make_claims typ user_id username role exp jti)) want
        ≡ failed invalid_token
  unfolding verify check_claims make_claims
  verify_other_type now typ want user_id username role exp jti ne ht =
      rw (jwt.parse-sign now (make_claims typ user_id username role exp jti) refl ht, verify)
        (rw (str_ne typ want ne))

  -- A row that is live in the table.
  record IsLive (now : ℕ) (jti : String) (db : Db) : Type 0 where
    row : Token
    found : find_token jti db.tokens ≡ some row
    open_ : row.revoked ≡ false
    unexpired : now < row.expires_at

  check_live-done :
      (now : ℕ) (c : Claims) (db : Db) → IsLive now c.jti db → check_live jwt now c db ≡ done c
  unfolding check_live get_refresh_token
  check_live-done now c db l =
      rw (l.found, check_live, get_refresh_token)
        (rw l.open_ (rw (not_over now l.row.expires_at l.unexpired)))
    where
      not_over : (now e : ℕ) → now < e → leb e now ≡ false
      not_over now e h = ground arith

  -- The session that an insert registered is live until it expires.
  inserted-IsLive :
      (now : ℕ) (jti : String) (user_id exp : ℕ) (db db' : Db)
      → insert_refresh_token jti user_id exp db ≡ ok db'
      → now < exp
      → IsLive now jti db'
  inserted-IsLive now jti user_id exp db db' h t = elim (insert_cases jti user_id exp db) [
    | inl e ↦ absurd (cc (h, e))
    | inr (free, e) ↦
        let same : with_token (new_token jti user_id exp) db ≡ db' =
          ok-injective _ db' (sym e ∙ h) in
        rw (← same) (record {
          row = new_token jti user_id exp;
          found = rw (find_token-concat, free, str_eq_refl);
          open_ = refl;
          unexpired = t;
        })
  ]
    where
      ok-injective : (a b : Db) → ok a ≡ ok b → a ≡ b
      ok-injective a b e = cc

  -- A pair that `Issue` returns, for a user id that is not 0 and a jti that is not empty, works
  -- until either of its tokens expires: the access token is accepted with the user's id, name
  -- and role, the refresh token verifies as a refresh token, and neither is taken for the other.
  pub issue_grants :
      (m : Lifetimes) (jti : String) (now : ℕ) (user_id : ℕ) (username role : String) (db : Db)
      (pair : Pair jwt) (db' : Db) (later : ℕ)
      → issue jwt m jti now user_id username role db ≡ done (pair, db')
      → jti ≢ ""
      → user_id ≢ 0
      → later < now + m.access_ttl
      → later < now + m.refresh_ttl
      → (verify_access jwt later pair.access_token db'
          ≡ done (make_claims claim_type_access user_id username role (now + m.access_ttl) jti))
        × (verify_refresh jwt later pair.refresh_token
            ≡ done (make_claims claim_type_refresh user_id username role (now + m.refresh_ttl) jti))
        × (verify_access jwt later pair.refresh_token db' ≡ failed invalid_token)
        × (verify_refresh jwt later pair.access_token ≡ failed invalid_token)
  unfolding issue new_pair verify_access verify_refresh
  issue_grants m jti now user_id username role db pair db' later h hj hu ha hr =
      pick (insert_refresh_token jti user_id (now + m.refresh_ttl) db) refl
    where
      access : Claims
      access = make_claims claim_type_access user_id username role (now + m.access_ttl) jti

      fresh : Pair jwt
      fresh = new_pair jwt m jti now user_id username role

      done-injective : (a b : Pair jwt × Db) → done a ≡ done b → a ≡ b
      done-injective a b e = cc

      access_ne_refresh : claim_type_access ≢ claim_type_refresh
      access_ne_refresh e = false≢true ((eq_iff "access" "refresh").1 e)

      pick :
          (r : Result Db)
          → insert_refresh_token jti user_id (now + m.refresh_ttl) db ≡ r
          → (verify_access jwt later pair.access_token db'
              ≡ done (make_claims claim_type_access user_id username role (now + m.access_ttl) jti))
            × (verify_refresh jwt later pair.refresh_token
                ≡ done (
                    make_claims claim_type_refresh user_id username role (now + m.refresh_ttl) jti))
            × (verify_access jwt later pair.refresh_token db' ≡ failed invalid_token)
            × (verify_refresh jwt later pair.access_token ≡ failed invalid_token)
      pick (Tables.err e) q = absurd (cc (rw (q, issue) at h))
      pick (ok x) q =
          let same = done-injective (fresh, x) (pair, db') (rw (q, issue) at h) in
          let p : fresh ≡ pair = ap (λ r. r.0) same in
          let d : x ≡ db' = ap (λ r. r.1) same in
          let live = inserted-IsLive later jti user_id (now + m.refresh_ttl) db x q hr in
          rw (← p, ← d)
            (
              rw
                  (
                    verify_signed later claim_type_access user_id username role (now + m.access_ttl)
                        jti hj hu ha,
                    verify_access,
                  )
                  (check_live-done later access x (unfold make_claims in live)),
              verify_signed later claim_type_refresh user_id username role (now + m.refresh_ttl) jti
                  hj hu hr,
              rw (
                verify_other_type later claim_type_refresh claim_type_access user_id username role
                    (now + m.refresh_ttl) jti (λ e. access_ne_refresh (sym e)) hr,
                verify_access,
              ),
              verify_other_type later claim_type_access claim_type_refresh user_id username role
                  (now + m.access_ttl) jti access_ne_refresh ha,
            )
