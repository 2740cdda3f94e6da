-- ===== src/Auth/Session/Tables.antt =====
-- backend/internal/store/auth.go: the tables `users` and `refresh_tokens`. Each method is one SQL
-- statement or one transaction, so it happens as a whole or, where it fails, not at all.
use singboxhub.Prelude.{
  ℕ, suc, ◌+◌, String, Bool, true, false, not, ◌&&◌, ◌||◌, Option, none, some, List, [], ◌∷◌, ◌++◌,
  ltb, ◌==◌, str_eq, if◌then◌else◌, max,
}

pub record User : Type 0 where
  pub id : ℕ
  pub username : String
  pub password_hash : String
  pub role : String
  pub created_at : ℕ

pub record Token : Type 0 where
  pub jti : String
  pub user_id : ℕ
  pub expires_at : ℕ
  pub revoked : Bool

pub record Db : Type 0 where
  pub users : List User
  pub tokens : List Token

-- `sql_error` is a failed statement: a violated key or reference.
pub data StoreError : Type 0 where
  not_found sql_error : StoreError

pub data Result {ℓ} (A : Type ℓ) : Type ℓ where
  ok : A → Result A
  err : StoreError → Result A

unfoldable pub find_user : (User → Bool) → List User → Option User
find_user p [] = none
find_user p (u ∷ us) = if p u then some u else find_user p us

unfoldable pub find_token : String → List Token → Option Token
find_token jti [] = none
find_token jti (t ∷ ts) = if str_eq t.jti jti then some t else find_token jti ts

abbrev pub is_some {ℓ} : {A : Type ℓ} → Option A → Bool
is_some none = false
is_some (some a) = true

abbrev pub has_id : ℕ → User → Bool
has_id id u = u.id == id

abbrev pub has_name : String → User → Bool
has_name name u = str_eq u.username name

pub get_user_by_username : String → Db → Result User
unfolding find_user
get_user_by_username name db = elim (find_user (has_name name) db.users) [
  | none ↦ err not_found
  | some u ↦ ok u
]

pub get_user_by_id : ℕ → Db → Result User
unfolding find_user
get_user_by_id id db = elim (find_user (has_id id) db.users) [
  | none ↦ err not_found
  | some u ↦ ok u
]

-- SQLite's `INTEGER PRIMARY KEY`: one more than the largest id in the table.
abbrev pub max_id : List User → ℕ
max_id [] = 0
max_id (u ∷ us) = max u.id (max_id us)

-- `createUser`; the name is UNIQUE.
unfoldable pub create_user : String → String → String → ℕ → Db → Result (ℕ × Db)
unfolding find_user
create_user username password_hash role now db =
    let id = suc (max_id db.users) in
    if is_some (find_user (has_name username) db.users)
    then err sql_error
    else ok (
      id,
      record db {
        users =
            db.users
            ++ (record {
              id = id;
              username = username;
              password_hash = password_hash;
              role = role;
              created_at = now;
            }
                ∷ []);
      },
    )

-- `jti` is the primary key and `user_id` a reference.
unfoldable pub insert_token : Token → Db → Result Db
unfolding find_user find_token
insert_token t db =
    if is_some (find_token t.jti db.tokens) || not (is_some (find_user (has_id t.user_id) db.users))
    then err sql_error
    else ok (record db { tokens = db.tokens ++ (t ∷ []) })

unfoldable pub insert_refresh_token : String → ℕ → ℕ → Db → Result Db
unfolding insert_token
insert_refresh_token jti user_id expires_at =
    insert_token (record { jti = jti; user_id = user_id; expires_at = expires_at; revoked = false })

unfoldable pub get_refresh_token : String → Db → Result (Bool × ℕ)
unfolding find_token
get_refresh_token jti db = elim (find_token jti db.tokens) [
  | none ↦ err not_found
  | some t ↦ ok (t.revoked, t.expires_at)
]

-- UPDATE refresh_tokens SET revoked = 1 WHERE …
unfoldable pub revoke_where : (Token → Bool) → List Token → List Token
revoke_where p [] = []
revoke_where p (t ∷ ts) = (if p t then record t { revoked = true } else t) ∷ revoke_where p ts

-- The rows that such a statement affects.
abbrev pub count_where : (Token → Bool) → List Token → ℕ
count_where p [] = 0
count_where p (t ∷ ts) = (if p t then 1 else 0) + count_where p ts

abbrev pub has_jti : String → Token → Bool
has_jti jti t = str_eq t.jti jti

abbrev pub of_user : ℕ → Token → Bool
of_user user_id t = t.user_id == user_id

unfoldable pub revoke_refresh_token : String → Db → Db
unfolding revoke_where
revoke_refresh_token jti db = record db { tokens = revoke_where (has_jti jti) db.tokens }

abbrev pub is_replaceable : String → ℕ → ℕ → Token → Bool
is_replaceable jti user_id now t =
    has_jti jti t && of_user user_id t && not t.revoked && ltb now t.expires_at

-- One transaction: an insert that fails takes the update back.
unfoldable pub replace_refresh_token : String → String → ℕ → ℕ → ℕ → Db → Result (Bool × Db)
unfolding revoke_where insert_refresh_token
replace_refresh_token old_jti new_jti user_id expires_at now db =
    let p = is_replaceable old_jti user_id now in
    if count_where p db.tokens == 0
    then ok (false, db)
    else elim (insert_refresh_token new_jti user_id expires_at
        (record db { tokens = revoke_where p db.tokens })) [
          | ok db' ↦ ok (true, db')
          | err e ↦ err e
        ]

unfoldable pub revoke_all_refresh_tokens : ℕ → Db → Db
unfolding revoke_where
revoke_all_refresh_tokens user_id db = record db {
  tokens = revoke_where (λ t. of_user user_id t && not t.revoked) db.tokens;
}

unfoldable pub delete_where : (Token → Bool) → List Token → List Token
delete_where p [] = []
delete_where p (t ∷ ts) = let rest = delete_where p ts in if p t then rest else t ∷ rest

unfoldable pub delete_expired_tokens : ℕ → Db → Db
unfolding delete_where
delete_expired_tokens now db = record db {
  tokens = delete_where (λ t. ltb t.expires_at now) db.tokens;
}

abbrev pub coalesce : Option String → String → String
coalesce none old = old
coalesce (some new) old = new

unfoldable pub update_where : ℕ → Option String → Option String → List User → List User
update_where id username password_hash [] = []
update_where id username password_hash (u ∷ us) =
    (if u.id == id
      then record u {
        username = coalesce username u.username;
        password_hash = coalesce password_hash u.password_hash;
      }
      else u)
    ∷ update_where id username password_hash us

-- Another account has the new name: the UNIQUE constraint of the update.
abbrev pub name_taken : ℕ → Option String → List User → Bool
name_taken id none us = false
name_taken id (some name) [] = false
name_taken id (some name) (u ∷ us) =
    (str_eq u.username name && not (u.id == id)) || name_taken id (some name) us

unfoldable pub update_user : ℕ → Option String → Option String → Db → Result Db
unfolding find_user update_where revoke_where
update_user id username password_hash db =
    if not (is_some (find_user (has_id id) db.users))
    then err not_found
    else if name_taken id username db.users
    then err sql_error
    else ok (record {
      users = update_where id username password_hash db.users;
      tokens =
          if is_some username || is_some password_hash
          then revoke_where (of_user id) db.tokens
          else db.tokens;
    })

unfoldable pub remove_user : ℕ → List User → List User
remove_user id [] = []
remove_user id (u ∷ us) = let rest = remove_user id us in if u.id == id then rest else u ∷ rest

-- The foreign key deletes the tokens of the account with it.
unfoldable pub delete_user : ℕ → Db → Result Db
unfolding find_user remove_user delete_where
delete_user id db =
    if is_some (find_user (has_id id) db.users)
    then ok
        (record { users = remove_user id db.users; tokens = delete_where (of_user id) db.tokens })
    else err not_found
