-- ===== src/Auth/Session/Rows.antt =====
-- Lemmas on the rows of `refresh_tokens`: the primary key, and what the statements leave.
use mathlib.Core.Bool.{false≢true}
use native.Mathlib.Nat.{zero-add}
use singboxhub.Prelude.{
  ℕ, ◌+◌, String, ◌≡◌, refl, sym, ap, ◌∙◌, Bool, true, false, Option, none, some, List, [], ◌∷◌,
  ◌++◌, arith, ◌==◌, str_eq, eq_iff, if◌then◌else◌, Bool-cases, inl, inr, ◌⊎◌,
}
use singboxhub.Auth.Session.Tables.{
  Db, Token, ok, err, sql_error, find_user, has_id, is_some, insert_token, insert_refresh_token,
  replace_refresh_token, find_token, revoke_where, delete_where, count_where, is_replaceable,
}

-- No two rows have the same jti: the primary key.
abbrev pub IsKeyed : List Token → Type 0
IsKeyed [] = Unit
IsKeyed (t ∷ ts) = (find_token t.jti ts ≡ none) × IsKeyed ts

abbrev pub or_else : Option Token → Option Token → Option Token
or_else none y = y
or_else (some t) y = some t

abbrev pub this_one : String → Token → Option Token
this_one jti t = if str_eq t.jti jti then some t else none

pub find_token-concat :
    (jti : String) (ts : List Token) (t : Token)
    → find_token jti (ts ++ t ∷ []) ≡ or_else (find_token jti ts) (this_one jti t)
unfolding find_token
find_token-concat jti [] t = refl
find_token-concat jti (s ∷ ts) t = ground (arith, find_token-concat jti ts t)

abbrev pub revoked_if : (Token → Bool) → Option Token → Option Token
revoked_if p none = none
revoked_if p (some t) = some (if p t then record t { revoked = true } else t)

pub find_token-revoke_where :
    (jti : String) (p : Token → Bool) (ts : List Token)
    → find_token jti (revoke_where p ts) ≡ revoked_if p (find_token jti ts)
unfolding find_token revoke_where
find_token-revoke_where jti p [] = refl
find_token-revoke_where jti p (t ∷ ts) = ground (arith, find_token-revoke_where jti p ts)

abbrev pub unless : (Token → Bool) → Option Token → Option Token
unless p none = none
unless p (some t) = if p t then none else some t

pub find_token-delete_where :
    (jti : String) (p : Token → Bool) (ts : List Token)
    → IsKeyed ts
    → find_token jti (delete_where p ts) ≡ unless p (find_token jti ts)
unfolding find_token delete_where
find_token-delete_where jti p [] k = refl
find_token-delete_where jti p (t ∷ ts) k =
    ground (arith, find_token-delete_where jti p ts k.1, eq_iff t.jti jti, k.0)

pub IsKeyed-concat :
    (ts : List Token) (t : Token) → IsKeyed ts → find_token t.jti ts ≡ none → IsKeyed (ts ++ t ∷ [])
unfolding find_token
IsKeyed-concat [] t k h = (refl, tt)
IsKeyed-concat (s ∷ ts) t k h = elim (Bool-cases (str_eq s.jti t.jti)) [
  | inl same ↦ absurd (cc (rw same at h))
  | inr other ↦ (
    find_token-concat s.jti ts t ∙ ground (arith, k.0, eq_iff s.jti t.jti, eq_iff t.jti s.jti),
    IsKeyed-concat ts t k.1 (rw other at h),
  )
]

pub IsKeyed-revoke_where :
    (p : Token → Bool) (ts : List Token) → IsKeyed ts → IsKeyed (revoke_where p ts)
unfolding revoke_where
IsKeyed-revoke_where p [] k = tt
IsKeyed-revoke_where p (t ∷ ts) k = (same_key (p t), IsKeyed-revoke_where p ts k.1)
  where
    same_key :
        (b : Bool)
        → find_token (if b then record t { revoked = true } else t).jti (revoke_where p ts) ≡ none
    same_key true = find_token-revoke_where t.jti p ts ∙ ap (revoked_if p) k.0
    same_key false = find_token-revoke_where t.jti p ts ∙ ap (revoked_if p) k.0

pub IsKeyed-delete_where :
    (p : Token → Bool) (ts : List Token) → IsKeyed ts → IsKeyed (delete_where p ts)
unfolding delete_where
IsKeyed-delete_where p [] k = tt
IsKeyed-delete_where p (t ∷ ts) k = pick (p t) (IsKeyed-delete_where p ts k.1)
  where
    pick :
        (b : Bool)
        → IsKeyed (delete_where p ts)
        → IsKeyed (if b then delete_where p ts else t ∷ delete_where p ts)
    pick true rest = rest
    pick false rest = (find_token-delete_where t.jti p ts k.1 ∙ ap (unless p) k.0, rest)

abbrev pub one_if : (Token → Bool) → Option Token → ℕ
one_if p none = 0
one_if p (some t) = if p t then 1 else 0

-- A statement on one jti affects the row of that jti, if it fits, and no other.
pub count_where-one_if :
    (jti : String) (user_id now : ℕ) (ts : List Token)
    → IsKeyed ts
    → count_where (is_replaceable jti user_id now) ts
      ≡ one_if (is_replaceable jti user_id now) (find_token jti ts)
unfolding find_token
count_where-one_if jti u now [] k = refl
count_where-one_if jti u now (t ∷ ts) k = elim (Bool-cases (str_eq t.jti jti)) [
  | inl same ↦
      let z : count_where (is_replaceable jti u now) ts ≡ 0 =
        count_where-one_if jti u now ts k.1
        ∙ ap (one_if (is_replaceable jti u now)) (rw ((eq_iff t.jti jti).0 same) at k.0) in
      rw (same, z, same) (plus_zero _)
  | inr other ↦ rw other (zero-add _ ∙ count_where-one_if jti u now ts k.1)
]
  where
    plus_zero : (n : ℕ) → n + 0 ≡ n
    plus_zero n = omega arith

abbrev pub new_token : String → ℕ → ℕ → Token
new_token jti user_id exp = record {
  jti = jti;
  user_id = user_id;
  expires_at = exp;
  revoked = false;
}

abbrev pub with_token : Token → Db → Db
with_token t db = record db { tokens = db.tokens ++ t ∷ [] }

-- An insert fails, or its jti was free and its row is the last.
pub insert_cases :
    (jti : String) (user_id exp : ℕ) (db : Db)
    → (insert_refresh_token jti user_id exp db ≡ err sql_error)
      ⊎ ((find_token jti db.tokens ≡ none)
          × (insert_refresh_token jti user_id exp db
              ≡ ok (with_token (new_token jti user_id exp) db)))
unfolding insert_refresh_token insert_token
insert_cases jti user_id exp db = pick (find_token jti db.tokens) refl
  where
    pick :
        (o : Option Token)
        → find_token jti db.tokens ≡ o
        → (insert_refresh_token jti user_id exp db ≡ err sql_error)
          ⊎ ((find_token jti db.tokens ≡ none)
              × (insert_refresh_token jti user_id exp db
                  ≡ ok (with_token (new_token jti user_id exp) db)))
    pick (some t) e = inl (rw (e, is_some))
    pick none e = elim (Bool-cases (is_some (find_user (has_id user_id) db.users))) [
      | inl present ↦ inr (e, rw (e, present, is_some))
      | inr missing ↦ inl (rw (e, missing, is_some))
    ]

-- What `ReplaceRefreshToken` does: nothing, an error, or one session out and one in.
pub record Replaces (old new : String) (user_id exp now : ℕ) (db : Db) : Type 0 where
  pub row : Token
  pub found : find_token old db.tokens ≡ some row
  pub fits : is_replaceable old user_id now row ≡ true
  pub free : find_token new (revoke_where (is_replaceable old user_id now) db.tokens) ≡ none
  pub result :
      replace_refresh_token old new user_id exp now db
      ≡ ok (
        true,
        with_token
            (new_token new user_id exp)
            (record db { tokens = revoke_where (is_replaceable old user_id now) db.tokens }),
      )

one_if_found :
    (p : Token → Bool) (o : Option Token)
    → (one_if p o == 0) ≡ false
    → (t : Token) × (o ≡ some t) × (p t ≡ true)
one_if_found p none h = cc
one_if_found p (some t) h = elim (Bool-cases (p t)) [
  | inl e ↦ (t, refl, e)
  | inr e ↦ absurd (false≢true (sym (rw e at h)))
]

pub replace_cases :
    (old new : String) (user_id exp now : ℕ) (db : Db)
    → IsKeyed db.tokens
    → (replace_refresh_token old new user_id exp now db ≡ ok (false, db))
      ⊎ (replace_refresh_token old new user_id exp now db ≡ err sql_error)
      ⊎ Replaces old new user_id exp now db
unfolding replace_refresh_token
replace_cases old new user_id exp now db k =
    let p = is_replaceable old user_id now in
    let db' : Db = record db { tokens = revoke_where p db.tokens } in
    elim (Bool-cases (count_where p db.tokens == 0)) [
      | inl nothing ↦ inl (rw nothing)
      | inr some_row ↦ inr (elim (insert_cases new user_id exp db') [
        | inl e ↦ inl (rw (some_row, e, replace_refresh_token))
        | inr (free, e) ↦
            let (row, found, fits) =
              one_if_found p (find_token old db.tokens)
                (rw (count_where-one_if old user_id now db.tokens k) at some_row) in
            inr (record {
              row = row;
              found = found;
              fits = fits;
              free = free;
              result = rw (some_row, e, replace_refresh_token);
            })
      ])
    ]
