-- ===== src/Auth/Session/Account.antt =====
-- A change of an account's name or password ends all of its sessions, and deleting it too; the
-- sessions of others are left alone.
use singboxhub.Prelude.{
  ℕ, String, ◌≡◌, sym, ap, Bool, true, false, not, ◌||◌, Option, none, some, arith, ◌==◌,
  if◌then◌else◌, ◌⊎◌,
}
use singboxhub.Auth.Session.Tables
use singboxhub.Auth.Session.Tables.{
  Db, Token, User, Result, ok, find_token, find_user, has_id, is_some, name_taken, update_where,
  remove_user, revoke_where, delete_where, of_user, get_refresh_token, update_user, delete_user,
}
use singboxhub.Auth.Session.Rows.{
  IsKeyed, find_token-revoke_where, find_token-delete_where, IsKeyed-revoke_where,
}
use singboxhub.Auth.Session.Manager.{
  Jwt, Claims, failed, invalid_token, verify_access, rotate, Lifetimes, token_revoked,
}
use singboxhub.Auth.Session.Lifecycle.{dead_session_refused}

ok-injective : (a b : Db) → ok a ≡ ok b → a ≡ b
ok-injective a b e = cc

-- The tokens that a successful update leaves.
update_user-tokens :
    (id : ℕ) (name hash : Option String) (db db' : Db)
    → update_user id name hash db ≡ ok db'
    → db'.tokens
      ≡ (if is_some name || is_some hash then revoke_where (of_user id) db.tokens else db.tokens)
unfolding update_user
update_user-tokens id name hash db db' h =
    pick (is_some (find_user (has_id id) db.users)) (name_taken id name db.users) h
  where
    after : Db
    after = record {
      users = update_where id name hash db.users;
      tokens =
          if is_some name || is_some hash then revoke_where (of_user id) db.tokens else db.tokens;
    }

    pick :
        (a b : Bool)
        → (if not a
            then Tables.err Tables.not_found
            else if b
            then Tables.err Tables.sql_error
            else ok after)
          ≡ ok db'
        → db'.tokens ≡ after.tokens
    pick false b e = cc
    pick true true e = cc
    pick true false e = ap (λ d. d.tokens) (sym (ok-injective after db' e))

-- After a successful change of the name or the password every row keeps its session's owner and
-- expiry; those of the account are revoked and all others are as before.
pub update_user-find_token :
    (id : ℕ) (name hash : Option String) (db db' : Db) (jti : String) (t : Token)
    → update_user id name hash db ≡ ok db'
    → (is_some name || is_some hash) ≡ true
    → find_token jti db.tokens ≡ some t
    → find_token jti db'.tokens ≡ some (if t.user_id == id then record t { revoked = true } else t)
update_user-find_token id name hash db db' jti t h changed found =
    rw (update_user-tokens id name hash db db' h, changed) (rw (find_token-revoke_where, found))

delete_user-tokens :
    (id : ℕ) (db db' : Db)
    → delete_user id db ≡ ok db'
    → db'.tokens ≡ delete_where (of_user id) db.tokens
unfolding delete_user
delete_user-tokens id db db' h = pick (is_some (find_user (has_id id) db.users)) h
  where
    after : Db
    after = record { users = remove_user id db.users; tokens = delete_where (of_user id) db.tokens }

    pick :
        (a : Bool)
        → (if a then ok after else Tables.err Tables.not_found) ≡ ok db'
        → db'.tokens ≡ delete_where (of_user id) db.tokens
    pick false e = cc
    pick true e = ap (λ d. d.tokens) (sym (ok-injective after db' e))

-- Deleting an account, over rows with distinct jtis, deletes the rows of its sessions and leaves
-- all others as before.
pub delete_user-find_token :
    (id : ℕ) (db db' : Db) (jti : String) (t : Token)
    → IsKeyed db.tokens
    → delete_user id db ≡ ok db'
    → find_token jti db.tokens ≡ some t
    → find_token jti db'.tokens ≡ (if t.user_id == id then none else some t)
delete_user-find_token id db db' jti t k h found =
    rw (delete_user-tokens id db db' h)
      (rw (find_token-delete_where jti (of_user id) db.tokens k, found))

-- After a successful change of an account's name or password, over rows with distinct jtis, no
-- token of a session that belongs to the account is accepted: not as an access token, and not
-- for a new pair.
pub update_user_ends_sessions :
    (jwt : Jwt) (id : ℕ) (name hash : Option String) (db db' : Db) (t : Token) (m : Lifetimes)
    (new : String) (now : ℕ) (token : jwt.Signed) (c : Claims)
    → IsKeyed db.tokens
    → update_user id name hash db ≡ ok db'
    → (is_some name || is_some hash) ≡ true
    → jwt.parse now token ≡ some c
    → find_token c.jti db.tokens ≡ some t
    → t.user_id ≡ id
    → (verify_access jwt now token db' ≡ failed invalid_token)
      × ((rotate jwt m new now token db' ≡ failed invalid_token)
          ⊎ (rotate jwt m new now token db' ≡ failed token_revoked))
update_user_ends_sessions jwt id name hash db db' t m new now token c k h changed parsed found
      owner =
    let after = update_user-find_token id name hash db db' c.jti t h changed found in
    dead_session_refused jwt m new now token c db' parsed (record {
      keyed =
          rw (update_user-tokens id name hash db db' h, changed)
            (IsKeyed-revoke_where (of_user id) db.tokens k);
      dead = rw after (ground (arith, owner));
    })
