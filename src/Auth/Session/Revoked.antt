-- ===== src/Auth/Session/Revoked.antt =====
-- What a revoked session can never do again, whatever happens to the tables afterwards.
use singboxhub.Prelude.{
  ℕ, String, ◌≡◌, ◌≢◌, refl, Bool, true, false, not, ◌&&◌, ◌||◌, Option, none, some, List, [], ◌∷◌,
  arith, ltb, ◌==◌, str_eq, eq_iff, if◌then◌else◌, All, Bool-cases, inl, inr,
}
use singboxhub.Auth.Session.Tables
use singboxhub.Auth.Session.Tables.{
  Db, Token, User, Result, ok, find_token, find_user, has_id, is_some, name_taken, update_where,
  remove_user, revoke_where, delete_where, count_where, has_jti, of_user, is_replaceable,
  create_user, insert_token, insert_refresh_token, get_refresh_token, revoke_refresh_token,
  replace_refresh_token, revoke_all_refresh_tokens, delete_expired_tokens, update_user, delete_user,
}
use singboxhub.Auth.Session.Rows.{
  IsKeyed, or_else, revoked_if, unless, find_token-concat, find_token-revoke_where,
  find_token-delete_where, insert_cases, new_token, IsKeyed-concat, IsKeyed-revoke_where,
  IsKeyed-delete_where,
}

-- The statements on the two tables, in any order: each is atomic, so concurrent requests are some
-- sequence of these. One that fails changes nothing.
pub data Op : Type 0 where
  create : String → String → String → ℕ → Op
  insert : String → ℕ → ℕ → Op
  revoke : String → Op
  replace : String → String → ℕ → ℕ → ℕ → Op
  revoke_all : ℕ → Op
  expire : ℕ → Op
  update : ℕ → Option String → Option String → Op
  remove : ℕ → Op

abbrev pub or_same : Db → Result Db → Db
or_same db (ok db') = db'
or_same db (Tables.err e) = db

abbrev pub second {ℓ} : {A : Type ℓ} → Db → Result (A × Db) → Db
second db (ok (a, db')) = db'
second db (Tables.err e) = db

pub apply : Op → Db → Db
apply (create name hash role now) db = second db (create_user name hash role now db)
apply (insert jti user_id exp) db = or_same db (insert_refresh_token jti user_id exp db)
apply (revoke jti) db = revoke_refresh_token jti db
apply (replace old new user_id exp now) db =
    second db (replace_refresh_token old new user_id exp now db)
apply (revoke_all user_id) db = revoke_all_refresh_tokens user_id db
apply (expire now) db = delete_expired_tokens now db
apply (update id name hash) db = or_same db (update_user id name hash db)
apply (remove id) db = or_same db (delete_user id db)

unfoldable pub run : List Op → Db → Db
unfolding apply
run [] db = db
run (op ∷ ops) db = run ops (apply op db)

-- The session has no row, or a revoked one.
abbrev pub IsDeadRow : Option Token → Type 0
IsDeadRow none = Unit
IsDeadRow (some t) = t.revoked ≡ true

-- The rows have distinct jtis, and the session `jti` is dead.
pub record IsDead (jti : String) (db : Db) : Type 0 where
  pub keyed : IsKeyed db.tokens
  pub dead : IsDeadRow (find_token jti db.tokens)

-- The statement registers no new session under `jti`: new ones are drawn from 128 random bits.
abbrev pub IsFresh : String → Op → Type 0
IsFresh jti (insert new _ _) = new ≢ jti
IsFresh jti (replace _ new _ _ _) = new ≢ jti
IsFresh jti _ = Unit

IsDeadRow-revoked_if :
    (p : Token → Bool) (o : Option Token) → IsDeadRow o → IsDeadRow (revoked_if p o)
IsDeadRow-revoked_if p none h = tt
IsDeadRow-revoked_if p (some t) h = ground arith

IsDeadRow-unless : (p : Token → Bool) (o : Option Token) → IsDeadRow o → IsDeadRow (unless p o)
IsDeadRow-unless p none h = tt
IsDeadRow-unless p (some t) h = pick (p t)
  where
    pick : (b : Bool) → IsDeadRow (if b then none else some t)
    pick true = tt
    pick false = h

module _ (jti : String) where
  IsDead-revoke_where :
      (p : Token → Bool) (us : List User) (db : Db)
      → IsDead jti db
      → IsDead jti (record { users = us; tokens = revoke_where p db.tokens })
  IsDead-revoke_where p us db d = record {
    keyed = IsKeyed-revoke_where p db.tokens d.keyed;
    dead = rw find_token-revoke_where (IsDeadRow-revoked_if p (find_token jti db.tokens) d.dead);
  }

  IsDead-delete_where :
      (p : Token → Bool) (us : List User) (db : Db)
      → IsDead jti db
      → IsDead jti (record { users = us; tokens = delete_where p db.tokens })
  IsDead-delete_where p us db d = record {
    keyed = IsKeyed-delete_where p db.tokens d.keyed;
    dead =
        rw (find_token-delete_where jti p db.tokens d.keyed)
          (IsDeadRow-unless p (find_token jti db.tokens) d.dead);
  }

  IsDead-insert :
      (new : String) (user_id exp : ℕ) (db : Db)
      → new ≢ jti
      → IsDead jti db
      → IsDead jti (or_same db (insert_refresh_token new user_id exp db))
  IsDead-insert new user_id exp db ne d = elim (insert_cases new user_id exp db) [
    | inl e ↦ rw e d
    | inr (free, e) ↦ rw e (record {
      keyed = IsKeyed-concat db.tokens (new_token new user_id exp) d.keyed free;
      dead =
          rw find_token-concat (still_dead (find_token jti db.tokens) (str_eq new jti) refl d.dead);
    })
  ]
    where
      still_dead :
          (o : Option Token) (b : Bool)
          → str_eq new jti ≡ b
          → IsDeadRow o
          → IsDeadRow (or_else o (if b then some (new_token new user_id exp) else none))
      still_dead (some t) b e h = h
      still_dead none true e h = absurd (ne ((eq_iff new jti).0 e))
      still_dead none false e h = tt

  IsDead-replace :
      (old new : String) (user_id exp now : ℕ) (db : Db)
      → new ≢ jti
      → IsDead jti db
      → IsDead jti (second db (replace_refresh_token old new user_id exp now db))
  unfolding replace_refresh_token
  IsDead-replace old new user_id exp now db ne d =
      let p = is_replaceable old user_id now in
      let db' : Db = record db { tokens = revoke_where p db.tokens } in
      elim (Bool-cases (count_where p db.tokens == 0)) [
        | inl nothing ↦ rw nothing d
        | inr something ↦ rw something (
            either (insert_refresh_token new user_id exp db')
              (IsDead-insert new user_id exp db' ne (IsDead-revoke_where p db.users db d)))
      ]
    where
      either :
          (r : Result Db)
          → IsDead jti (
              or_same
                (record db { tokens = revoke_where (is_replaceable old user_id now) db.tokens })
                r)
          → IsDead jti
              (second db (elim r [ ok db' ↦ ok (true, db') | Tables.err e ↦ Tables.err e ]))
      either (ok x) h = h
      either (Tables.err e) h = d

  -- Every statement that registers no session under its jti keeps a dead session dead, and the
  -- jtis of the rows distinct.
  pub apply-IsDead : (op : Op) (db : Db) → IsFresh jti op → IsDead jti db → IsDead jti (apply op db)
  unfolding apply create_user revoke_refresh_token revoke_all_refresh_tokens delete_expired_tokens
      update_user delete_user
  apply-IsDead (create name hash role now) db f d =
      elim (Bool-cases (is_some (find_user (λ u. str_eq u.username name) db.users))) [
        | inl taken ↦ rw taken d
        | inr free ↦ rw free (record { keyed = d.keyed; dead = d.dead })
      ]
  apply-IsDead (insert new user_id exp) db f d = IsDead-insert new user_id exp db f d
  apply-IsDead (revoke j) db f d = IsDead-revoke_where (has_jti j) db.users db d
  apply-IsDead (replace old new user_id exp now) db f d =
      IsDead-replace old new user_id exp now db f d
  apply-IsDead (revoke_all user_id) db f d =
      IsDead-revoke_where (λ t. of_user user_id t && not t.revoked) db.users db d
  apply-IsDead (expire now) db f d = IsDead-delete_where (λ t. ltb t.expires_at now) db.users db d
  apply-IsDead (update id name hash) db f d =
      pick (is_some (find_user (has_id id) db.users)) (name_taken id name db.users)
        (is_some name || is_some hash)
    where
      us : List User
      us = update_where id name hash db.users

      pick :
          (a b c : Bool)
          → IsDead jti (
              or_same db (
                if not a
                then Tables.err Tables.not_found
                else if b
                then Tables.err Tables.sql_error
                else ok (record {
                  users = us;
                  tokens = if c then revoke_where (of_user id) db.tokens else db.tokens;
                })))
      pick false b c = d
      pick true true c = d
      pick true false true = IsDead-revoke_where (of_user id) us db d
      pick true false false = record { keyed = d.keyed; dead = d.dead }
  apply-IsDead (remove id) db f d = pick (is_some (find_user (has_id id) db.users))
    where
      pick :
          (a : Bool)
          → IsDead jti (
              or_same db (
                if a
                then ok (record {
                  users = remove_user id db.users;
                  tokens = delete_where (of_user id) db.tokens;
                })
                else Tables.err Tables.not_found))
      pick true = IsDead-delete_where (of_user id) (remove_user id db.users) db d
      pick false = d

  pub run-IsDead :
      (ops : List Op) (db : Db) → All (IsFresh jti) ops → IsDead jti db → IsDead jti (run ops db)
  unfolding run
  run-IsDead [] db f d = d
  run-IsDead (op ∷ ops) db f d = run-IsDead ops (apply op db) f.1 (apply-IsDead op db f.0 d)
