-- ===== src/Auth/Session/Lifecycle.antt =====
-- The life of a session: issued, accepted, replaced once, ended.
use singboxhub.Prelude.{
  ℕ, ◌+◌, String, ◌≡◌, refl, sym, ap, ◌∙◌, Bool, true, false, not, ◌||◌, Option, none, some, List,
  arith, ◌==◌, str_eq, if◌then◌else◌, All, Bool-cases, inl, inr, ◌⊎◌,
}
use singboxhub.Auth.Session.Tables.{
  Db, Token, find_token, revoke_where, count_where, is_replaceable, get_refresh_token,
  replace_refresh_token,
}
use singboxhub.Auth.Session.Rows.{
  IsKeyed, one_if, find_token-concat, find_token-revoke_where, Replaces, replace_cases, new_token,
  with_token, IsKeyed-concat, IsKeyed-revoke_where, count_where-one_if,
}
use singboxhub.Auth.Session.Manager.{
  Jwt, Claims, Lifetimes, Pair, done, failed, invalid_token, token_revoked, claim_type_access,
  claim_type_refresh, claims_user_id, new_pair, check_claims, verify, check_live, verify_access,
  rotate_claims, rotate,
}
use singboxhub.Auth.Session.Revoked.{Op, run, IsFresh, IsDeadRow, IsDead, run-IsDead}

module _ (jwt : Jwt) where
  check_live_dead :
      (now : ℕ) (c : Claims) (db : Db)
      → IsDeadRow (find_token c.jti db.tokens)
      → check_live jwt now c db ≡ failed invalid_token
  unfolding check_live get_refresh_token
  check_live_dead now c db d = pick (find_token c.jti db.tokens) refl d
    where
      pick :
          (o : Option Token)
          → find_token c.jti db.tokens ≡ o
          → IsDeadRow o
          → check_live jwt now c db ≡ failed invalid_token
      pick none e d = rw (e, check_live, get_refresh_token)
      pick (some t) e d = rw (e, check_live, get_refresh_token) (rw d)

  rotate_claims_dead :
      (m : Lifetimes) (new : String) (now : ℕ) (c : Claims) (db : Db)
      → IsKeyed db.tokens
      → IsDeadRow (find_token c.jti db.tokens)
      → rotate_claims jwt m new now c db ≡ failed token_revoked
  unfolding rotate_claims replace_refresh_token
  rotate_claims_dead m new now c db k d =
      let p = is_replaceable c.jti (claims_user_id c) now in
      let none_fits : count_where p db.tokens ≡ 0 =
        count_where-one_if c.jti (claims_user_id c) now db.tokens k
        ∙ dead_row (find_token c.jti db.tokens) d in
      rw (none_fits, rotate_claims, replace_refresh_token)
    where
      dead_row :
          (o : Option Token)
          → IsDeadRow o
          → one_if (is_replaceable c.jti (claims_user_id c) now) o ≡ 0
      dead_row none d = refl
      dead_row (some t) d = ground arith

  -- A token that parses is refused once its session is dead, that is has no row or a revoked
  -- one: as an access token it is invalid, and as a refresh token it is either invalid or
  -- revoked.
  pub dead_session_refused :
      (m : Lifetimes) (new : String) (now : ℕ) (token : jwt.Signed) (c : Claims) (db : Db)
      → jwt.parse now token ≡ some c
      → IsDead c.jti db
      → (verify_access jwt now token db ≡ failed invalid_token)
        × ((rotate jwt m new now token db ≡ failed invalid_token)
            ⊎ (rotate jwt m new now token db ≡ failed token_revoked))
  unfolding verify_access rotate verify check_claims
  dead_session_refused m new now token c db parsed d =
      rw (parsed, verify_access, rotate, verify)
        (
          as_access
              (not (str_eq c.typ claim_type_access) || str_eq c.jti "" || claims_user_id c == 0),
          as_refresh
              (not (str_eq c.typ claim_type_refresh) || str_eq c.jti "" || claims_user_id c == 0),
        )
    where
      as_access :
          (b : Bool)
          → elim (if b then failed invalid_token else done c) [
            | failed e ↦ failed e
            | done c ↦ check_live jwt now c db
          ]
            ≡ failed invalid_token
      as_access true = refl
      as_access false = check_live_dead now c db d.dead

      as_refresh :
          (b : Bool)
          → (elim (if b then failed invalid_token else done c) [
            | failed e ↦ failed e
            | done c ↦ rotate_claims jwt m new now c db
          ]
              ≡ failed invalid_token)
            ⊎ (elim (if b then failed invalid_token else done c) [
              | failed e ↦ failed e
              | done c ↦ rotate_claims jwt m new now c db
            ]
                ≡ failed token_revoked)
      as_refresh true = inl refl
      as_refresh false = inr (rotate_claims_dead m new now c db d.keyed d.dead)

  -- What a successful rotation did.
  record Rotated (m : Lifetimes) (new : String) (now : ℕ) (c : Claims) (db : Db) (r : Pair jwt × Db)
      : Type 0 where
    replaces : Replaces c.jti new (claims_user_id c) (now + m.refresh_ttl) now db
    pair_is : r.0 ≡ new_pair jwt m new now (claims_user_id c) c.username c.role
    db_is :
        r.1
        ≡ with_token (new_token new (claims_user_id c) (now + m.refresh_ttl)) (record db {
          tokens = revoke_where (is_replaceable c.jti (claims_user_id c) now) db.tokens;
        })

  rotate_claims-Rotated :
      (m : Lifetimes) (new : String) (now : ℕ) (c : Claims) (db : Db) (r : Pair jwt × Db)
      → IsKeyed db.tokens
      → rotate_claims jwt m new now c db ≡ done r
      → Rotated m new now c db r
  unfolding rotate_claims new_pair
  rotate_claims-Rotated m new now c db r k h =
      elim (replace_cases c.jti new (claims_user_id c) (now + m.refresh_ttl) now db k) [
        | inl e ↦ absurd (cc (rw (e, rotate_claims) at h))
        | inr (inl e) ↦ absurd (cc (rw (e, rotate_claims) at h))
        | inr (inr s) ↦
            let both = rw (s.result, rotate_claims) at h in
            record {
              replaces = s;
              pair_is = ap (λ r. r.0) (sym (done-injective _ r both));
              db_is = ap (λ r. r.1) (sym (done-injective _ r both));
            }
      ]
    where
      done-injective : (a b : Pair jwt × Db) → done a ≡ done b → a ≡ b
      done-injective a b e = cc

  rotate-claims :
      (m : Lifetimes) (new : String) (now : ℕ) (token : jwt.Signed) (c : Claims) (db : Db)
      (r : Pair jwt × Db)
      → jwt.parse now token ≡ some c
      → rotate jwt m new now token db ≡ done r
      → (rotate_claims jwt m new now c db ≡ done r)
        × ((not (str_eq c.typ claim_type_refresh) || str_eq c.jti "" || claims_user_id c == 0)
            ≡ false)
  unfolding rotate verify check_claims
  rotate-claims m new now token c db r parsed h =
      elim (Bool-cases
        (not (str_eq c.typ claim_type_refresh) || str_eq c.jti "" || claims_user_id c == 0)) [
          | inl bad ↦ absurd (cc (rw (parsed, rotate, verify, bad) at h))
          | inr good ↦ (rw (parsed, rotate, verify, good) at h, good)
        ]

  Rotated-IsDead :
      {m : Lifetimes} {new : String} {now : ℕ} {c : Claims} {db : Db} {r : Pair jwt × Db}
      → IsKeyed db.tokens
      → Rotated m new now c db r
      → IsDead c.jti r.1
  Rotated-IsDead {m} {new} {now} {c} {db} {r} k s =
      let p = is_replaceable c.jti (claims_user_id c) now in
      rw s.db_is (record {
        keyed =
            IsKeyed-concat (revoke_where p db.tokens)
              (new_token new (claims_user_id c) (now + m.refresh_ttl))
              (IsKeyed-revoke_where p db.tokens k) s.replaces.free;
        dead =
            rw (find_token-concat, find_token-revoke_where)
              (rw s.replaces.found (rw s.replaces.fits refl));
      })

  -- A refresh token can be exchanged once. After a successful exchange over rows with distinct
  -- jtis, whatever statements run on the tables, in any order, if no later session is registered
  -- under the same jti: at any later time neither access nor refresh tokens of that session are
  -- accepted.
  pub rotate_once :
      (m : Lifetimes) (new : String) (now : ℕ) (token : jwt.Signed) (c : Claims) (db : Db)
      (r : Pair jwt × Db) (ops : List Op) (new' : String) (later : ℕ) (token' : jwt.Signed)
      (c' : Claims)
      → IsKeyed db.tokens
      → jwt.parse now token ≡ some c
      → rotate jwt m new now token db ≡ done r
      → All (IsFresh c.jti) ops
      → jwt.parse later token' ≡ some c'
      → c'.jti ≡ c.jti
      → (verify_access jwt later token' (run ops r.1) ≡ failed invalid_token)
        × ((rotate jwt m new' later token' (run ops r.1) ≡ failed invalid_token)
            ⊎ (rotate jwt m new' later token' (run ops r.1) ≡ failed token_revoked))
  rotate_once m new now token c db r ops new' later token' c' k parsed h f parsed' same =
      let (rotated, _) = rotate-claims m new now token c db r parsed h in
      let s = rotate_claims-Rotated m new now c db r k rotated in
      let d = run-IsDead c.jti ops r.1 f (Rotated-IsDead k s) in
      dead_session_refused m new' later token' c' (run ops r.1) parsed' (rw (← same) at d)
