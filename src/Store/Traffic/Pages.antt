-- ===== src/Store/Traffic/Pages.antt =====
-- traffic.go, `QueryRollup`: pages of rollups by a keyset cursor.
use singboxhub.Prelude.{
  ℕ, ◌<◌, String, ◌≡◌, ◌≢◌, refl, sym, ap, ◌∙◌, Bool, true, false, ◌&&◌, List, [], ◌∷◌, ◌++◌, arith,
  ltb, eq_iff, if◌then◌else◌, Bool-cases, inl, inr, All, take,
}
use singboxhub.Store.Traffic.{
  RollupRow, same_bucket, merge_row, upsert_row, in_range, select, place_desc, order_desc,
  query_rollup,
}

-- No two rows have the same node, interval and bucket: the primary key.
abbrev pub IsKeyed : List RollupRow → Type 0
IsKeyed [] = Unit
IsKeyed (r ∷ rs) = All (λ s. same_bucket r s ≡ false) rs × IsKeyed rs

All-upsert_row :
    (r m : RollupRow) (rs : List RollupRow)
    → same_bucket r m ≡ false
    → All (λ s. same_bucket r s ≡ false) rs
    → All (λ s. same_bucket r s ≡ false) (upsert_row m rs)
unfolding upsert_row merge_row
All-upsert_row r m [] h k = (h, tt)
All-upsert_row r m (s ∷ rs) h k = elim (Bool-cases (same_bucket s m)) [
  | inl same ↦ rw same (k.0, k.1)
  | inr other ↦ rw other (k.0, All-upsert_row r m rs h k.1)
]

-- An upsert keeps the primary key.
pub upsert_row-IsKeyed :
    (m : RollupRow) (table : List RollupRow) → IsKeyed table → IsKeyed (upsert_row m table)
unfolding upsert_row merge_row
upsert_row-IsKeyed m [] k = (tt, tt)
upsert_row-IsKeyed m (r ∷ rs) k = elim (Bool-cases (same_bucket r m)) [
  | inl same ↦ rw same (k.0, k.1)
  | inr other ↦ rw other (All-upsert_row r m rs other k.0, upsert_row-IsKeyed m rs k.1)
]

-- Newest first, no two alike.
abbrev IsDesc : List RollupRow → Type 0
IsDesc [] = Unit
IsDesc (r ∷ rs) = All (λ s. s.bucket_start < r.bucket_start) rs × IsDesc rs

All-place_desc :
    (b : ℕ) (r : RollupRow) (rs : List RollupRow)
    → r.bucket_start < b
    → All (λ s. s.bucket_start < b) rs
    → All (λ s. s.bucket_start < b) (place_desc r rs)
unfolding place_desc
All-place_desc b r [] h k = (h, tt)
All-place_desc b r (s ∷ rs) h k = elim (Bool-cases (ltb r.bucket_start s.bucket_start)) [
  | inl e ↦ rw e (k.0, All-place_desc b r rs h k.1)
  | inr e ↦ rw e (h, k)
]

All-below :
    (a b : ℕ) (rs : List RollupRow)
    → a < b
    → All (λ s. s.bucket_start < a) rs
    → All (λ s. s.bucket_start < b) rs
All-below a b [] h k = tt
All-below a b (r ∷ rs) h k = (omega arith, All-below a b rs h k.1)

place_desc-IsDesc :
    (r : RollupRow) (rs : List RollupRow)
    → All (λ s. s.bucket_start ≢ r.bucket_start) rs
    → IsDesc rs
    → IsDesc (place_desc r rs)
unfolding place_desc
place_desc-IsDesc r [] h d = (tt, tt)
place_desc-IsDesc r (s ∷ rs) h d = elim (Bool-cases (ltb r.bucket_start s.bucket_start)) [
  | inl e ↦
      rw e (All-place_desc s.bucket_start r rs (ground arith) d.0, place_desc-IsDesc r rs h.1 d.1)
  | inr e ↦
      let below : s.bucket_start < r.bucket_start = ground (arith, h.0) in
      rw e ((below, All-below s.bucket_start r.bucket_start rs below d.0), d)
]

All-place_desc_ne :
    (b : ℕ) (r : RollupRow) (rs : List RollupRow)
    → r.bucket_start ≢ b
    → All (λ s. s.bucket_start ≢ b) rs
    → All (λ s. s.bucket_start ≢ b) (place_desc r rs)
unfolding place_desc
All-place_desc_ne b r [] h k = (h, tt)
All-place_desc_ne b r (s ∷ rs) h k = elim (Bool-cases (ltb r.bucket_start s.bucket_start)) [
  | inl e ↦ rw e (k.0, All-place_desc_ne b r rs h k.1)
  | inr e ↦ rw e (h, k)
]

All-order_desc_ne :
    (b : ℕ) (rs : List RollupRow)
    → All (λ s. s.bucket_start ≢ b) rs
    → All (λ s. s.bucket_start ≢ b) (order_desc rs)
unfolding order_desc
All-order_desc_ne b [] h = tt
All-order_desc_ne b (r ∷ rs) h =
    All-place_desc_ne b r (order_desc rs) h.0 (All-order_desc_ne b rs h.1)

-- The selected rows have distinct buckets, since they share node and interval.
abbrev AreDistinct : List RollupRow → Type 0
AreDistinct [] = Unit
AreDistinct (r ∷ rs) = All (λ s. s.bucket_start ≢ r.bucket_start) rs × AreDistinct rs

order_desc-IsDesc : (rs : List RollupRow) → AreDistinct rs → IsDesc (order_desc rs)
unfolding order_desc
order_desc-IsDesc [] d = tt
order_desc-IsDesc (r ∷ rs) d =
    place_desc-IsDesc r (order_desc rs) (All-order_desc_ne r.bucket_start rs d.0)
      (order_desc-IsDesc rs d.1)

module _ (node_id interval : String) (from to : ℕ) where
  distinct_buckets :
      (r s : RollupRow)
      → in_range node_id interval from to r ≡ true
      → in_range node_id interval from to s ≡ true
      → same_bucket r s ≡ false
      → s.bucket_start ≢ r.bucket_start
  distinct_buckets r s p q h e = ground (
    arith,
    eq_iff r.node_id node_id,
    eq_iff s.node_id node_id,
    eq_iff r.interval interval,
    eq_iff s.interval interval,
    eq_iff r.node_id s.node_id,
    eq_iff r.interval s.interval,
  )

  All-select_ne :
      (r : RollupRow) (rs : List RollupRow)
      → in_range node_id interval from to r ≡ true
      → All (λ s. same_bucket r s ≡ false) rs
      → All (λ s. s.bucket_start ≢ r.bucket_start) (select (in_range node_id interval from to) rs)
  unfolding select
  All-select_ne r [] p k = tt
  All-select_ne r (s ∷ rs) p k = elim (Bool-cases (in_range node_id interval from to s)) [
    | inl e ↦ rw e (distinct_buckets r s p e k.0, All-select_ne r rs p k.1)
    | inr e ↦ rw e (All-select_ne r rs p k.1)
  ]

  select-AreDistinct :
      (rs : List RollupRow)
      → IsKeyed rs
      → AreDistinct (select (in_range node_id interval from to) rs)
  unfolding select
  select-AreDistinct [] k = tt
  select-AreDistinct (r ∷ rs) k = elim (Bool-cases (in_range node_id interval from to r)) [
    | inl e ↦ rw e (All-select_ne r rs e k.0, select-AreDistinct rs k.1)
    | inr e ↦ rw e (select-AreDistinct rs k.1)
  ]

abbrev before : ℕ → RollupRow → Bool
before b r = ltb r.bucket_start b

select-place_desc :
    (b : ℕ) (r : RollupRow) (rs : List RollupRow)
    → select (before b) (place_desc r rs)
      ≡ (if before b r then place_desc r (select (before b) rs) else select (before b) rs)
unfolding select place_desc
select-place_desc b r [] = refl
select-place_desc b r (s ∷ rs) = elim (Bool-cases (ltb r.bucket_start s.bucket_start)) [
  | inl e ↦ rw e (passes (before b r) (before b s) e (select-place_desc b r rs))
  | inr e ↦ rw e (stops (before b r) (before b s) refl refl e)
]
  where
    passes :
        (p q : Bool)
        → ltb r.bucket_start s.bucket_start ≡ true
        → select (before b) (place_desc r rs)
          ≡ (if p then place_desc r (select (before b) rs) else select (before b) rs)
        → (if q
            then s ∷ select (before b) (place_desc r rs)
            else select (before b) (place_desc r rs))
          ≡ (if p
              then place_desc r (if q then s ∷ select (before b) rs else select (before b) rs)
              else if q
              then s ∷ select (before b) rs
              else select (before b) rs)
    passes true true e ih = rw e (ap (◌∷◌ s) ih)
    passes true false e ih = ih
    passes false true e ih = ap (◌∷◌ s) ih
    passes false false e ih = ih

    stops :
        (p q : Bool)
        → before b r ≡ p
        → before b s ≡ q
        → ltb r.bucket_start s.bucket_start ≡ false
        → (if p
            then r ∷ (if q then s ∷ select (before b) rs else select (before b) rs)
            else if q
            then s ∷ select (before b) rs
            else select (before b) rs)
          ≡ (if p
              then place_desc r (if q then s ∷ select (before b) rs else select (before b) rs)
              else if q
              then s ∷ select (before b) rs
              else select (before b) rs)
    stops true true hp hq e = rw e
    stops true false hp hq e = absurd (out hp hq e)
      where
        out :
            ltb r.bucket_start b ≡ true
            → ltb s.bucket_start b ≡ false
            → ltb r.bucket_start s.bucket_start ≡ false
            → ⊥
        out p q e = ground arith
    stops false q hp hq e = refl

order_desc-select :
    (b : ℕ) (q : RollupRow → Bool) (rs : List RollupRow)
    → order_desc (select (λ r. q r && ltb r.bucket_start b) rs)
      ≡ select (before b) (order_desc (select q rs))
unfolding order_desc select
order_desc-select b q [] = refl
order_desc-select b q (r ∷ rs) = step (q r) (order_desc-select b q rs)
  where
    step :
        (x : Bool)
        → order_desc (select (λ r. q r && ltb r.bucket_start b) rs)
          ≡ select (before b) (order_desc (select q rs))
        → order_desc (
            if x && before b r
            then r ∷ select (λ r. q r && ltb r.bucket_start b) rs
            else select (λ r. q r && ltb r.bucket_start b) rs)
          ≡ select (before b) (order_desc (if x then r ∷ select q rs else select q rs))
    step false ih = ih
    step true ih = keep (before b r) ih ∙ sym (select-place_desc b r (order_desc (select q rs)))
      where
        keep :
            (y : Bool)
            → order_desc (select (λ r. q r && ltb r.bucket_start b) rs)
              ≡ select (before b) (order_desc (select q rs))
            → order_desc (
                if y
                then r ∷ select (λ r. q r && ltb r.bucket_start b) rs
                else select (λ r. q r && ltb r.bucket_start b) rs)
              ≡ (if y
                  then place_desc r (select (before b) (order_desc (select q rs)))
                  else select (before b) (order_desc (select q rs)))
        keep true ih = ap (place_desc r) ih
        keep false ih = ih

select-All :
    (b : ℕ) (rs : List RollupRow) → All (λ s. s.bucket_start < b) rs → select (before b) rs ≡ rs
unfolding select
select-All b [] h = refl
select-All b (r ∷ rs) h =
    let e : before b r ≡ true = ground arith in rw e (ap (◌∷◌ r) (select-All b rs h.1))

select_after :
    (xs ys : List RollupRow) (t : RollupRow)
    → IsDesc (xs ++ t ∷ ys)
    → select (before t.bucket_start) (xs ++ t ∷ ys) ≡ ys
unfolding select
select_after [] ys t d =
    let e : before t.bucket_start t ≡ false = ground arith in
    rw e (select-All t.bucket_start ys d.0)
select_after (x ∷ xs) ys t d =
    let below : t.bucket_start < x.bucket_start = last_below x xs ys t d.0 in
    let e : before t.bucket_start x ≡ false = ground arith in rw e (select_after xs ys t d.1)
  where
    last_below :
        (x : RollupRow) (xs ys : List RollupRow) (t : RollupRow)
        → All (λ s. s.bucket_start < x.bucket_start) (xs ++ t ∷ ys)
        → t.bucket_start < x.bucket_start
    last_below x [] ys t h = h.0
    last_below x (y ∷ xs) ys t h = last_below x xs ys t h.1

-- In a table that keeps its primary key, take the rows that a query selects, ordered newest
-- first. The first page is their beginning; and the page after a row of theirs whose bucket is
-- not 0, asked for by its bucket as the cursor, consists of the rows that follow it: no row is
-- skipped or shown twice from page to page.
pub query_rollup-pages :
    (node_id interval : String) (from to limit : ℕ) (table xs ys : List RollupRow) (t : RollupRow)
    → IsKeyed table
    → order_desc (select (in_range node_id interval from to) table) ≡ xs ++ t ∷ ys
    → 0 < t.bucket_start
    → (query_rollup node_id interval from to 0 limit table ≡ take limit (xs ++ t ∷ ys))
      × (query_rollup node_id interval from to t.bucket_start limit table ≡ take limit ys)
unfolding query_rollup
query_rollup-pages node_id interval from to limit table xs ys t k all h =
    let q = in_range node_id interval from to in
    let started : ltb 0 t.bucket_start ≡ true = ground arith in
    let desc =
      order_desc-IsDesc (select q table) (select-AreDistinct node_id interval from to table k) in
    (
      ap (take limit) all,
      rw started (
          ap (take limit) (
            order_desc-select t.bucket_start q table
            ∙ ap (select (before t.bucket_start)) all
            ∙ select_after xs ys t (rw all at desc))),
    )
