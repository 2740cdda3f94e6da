-- ===== src/Store/Traffic/Totals.antt =====
-- traffic.go: what the upserts do to totals and peaks.
use singboxhub.Prelude.{
  ℕ, String, ◌≡◌, refl, ap, ◌∙◌, Bool, true, false, some, List, [], ◌∷◌, arith, eq_iff,
  if◌then◌else◌, Bool-cases, inl, inr,
}
use singboxhub.Prelude.Int.{ℤ, pos, ◌+ℤ◌, int_laws, +ℤ_assoc, +ℤ_comm}
use singboxhub.Store.Traffic.{
  RollupRow, same_bucket, merge_row, upsert_row, upsert_rollups, in_range, sum_where, sum_range,
  sum_all, is_minute_of,
}

-- A test and a value that a merge respects: the test reads only the key, and values add up.
record Additive (p : RollupRow → Bool) (f : RollupRow → ℤ) : Type 0 where
  by_key : (old new : RollupRow) → same_bucket old new ≡ true → p (merge_row old new) ≡ p old
  by_key' : (old new : RollupRow) → same_bucket old new ≡ true → p new ≡ p old
  adds : (old new : RollupRow) → f (merge_row old new) ≡ f old +ℤ f new

abbrev counted : (RollupRow → Bool) → (RollupRow → ℤ) → RollupRow → ℤ
counted p f r = if p r then f r else pos 0

merge_counts :
    (b : Bool) (x y s : ℤ)
    → (if b then x +ℤ y else pos 0) +ℤ s ≡ (if b then x else pos 0) +ℤ s +ℤ (if b then y else pos 0)
merge_counts true x y s = omega int_laws
merge_counts false x y s = omega int_laws

sum_where-upsert_row :
    (p : RollupRow → Bool) (f : RollupRow → ℤ)
    → Additive p f
    → (m : RollupRow) (table : List RollupRow)
    → sum_where p f (upsert_row m table) ≡ sum_where p f table +ℤ counted p f m
unfolding upsert_row
sum_where-upsert_row p f a m [] = +ℤ_comm (counted p f m) (pos 0)
sum_where-upsert_row p f a m (r ∷ rs) = elim (Bool-cases (same_bucket r m)) [
  | inl same ↦ rw same (
      rw (a.by_key r m same, a.by_key' r m same, a.adds r m)
        (merge_counts (p r) (f r) (f m) (sum_where p f rs)))
  | inr other ↦ rw other (
      ap (λ s. counted p f r +ℤ s) (sum_where-upsert_row p f a m rs)
      ∙ regroup (counted p f r) (sum_where p f rs) (counted p f m))
]
  where
    regroup : (x s y : ℤ) → x +ℤ (s +ℤ y) ≡ x +ℤ s +ℤ y
    regroup x s y = omega int_laws

sum_where-upsert_rollups :
    (p : RollupRow → Bool) (f : RollupRow → ℤ)
    → Additive p f
    → (known : String → Bool) (ms table table' : List RollupRow)
    → upsert_rollups known ms table ≡ some table'
    → sum_where p f table' ≡ sum_where p f table +ℤ sum_where p f ms
unfolding upsert_rollups
sum_where-upsert_rollups p f a known [] table table' h =
    let e : table ≡ table' = some-injective table table' h in
    rw e (plus_zero (sum_where p f table'))
  where
    plus_zero : (x : ℤ) → x ≡ x +ℤ pos 0
    plus_zero x = omega int_laws

    some-injective : (a b : List RollupRow) → some a ≡ some b → a ≡ b
    some-injective a b e = cc
sum_where-upsert_rollups p f a known (m ∷ ms) table table' h = elim (Bool-cases (known m.node_id)) [
  | inl there ↦
      sum_where-upsert_rollups p f a known ms (upsert_row m table) table' (rw there at h)
      ∙ ap (λ s. s +ℤ sum_where p f ms) (sum_where-upsert_row p f a m table)
      ∙ +ℤ_assoc (sum_where p f table) (counted p f m) (sum_where p f ms)
  | inr missing ↦ absurd (cc (rw missing at h))
]

module _ (node_id : String) where
  minute-Additive :
      (f : RollupRow → ℤ)
      → ((old new : RollupRow) → f (merge_row old new) ≡ f old +ℤ f new)
      → Additive (is_minute_of node_id) f
  unfolding merge_row
  minute-Additive f adds = record {
    by_key = λ old new e. refl;
    by_key' = λ old new e.
        ground (arith, eq_iff old.node_id new.node_id, eq_iff old.interval new.interval, e);
    adds = adds;
  }

  range-Additive :
      (from to : ℕ) (f : RollupRow → ℤ)
      → ((old new : RollupRow) → f (merge_row old new) ≡ f old +ℤ f new)
      → Additive (in_range node_id "minute" from to) f
  unfolding merge_row
  range-Additive from to f adds = record {
    by_key = λ old new e. refl;
    by_key' = λ old new e.
        ground (arith, eq_iff old.node_id new.node_id, eq_iff old.interval new.interval, e);
    adds = adds;
  }

-- A batch that is stored adds to the totals of each node, over all time and over every range of
-- buckets, exactly the bytes of its own minute rows for that node and range: nothing is lost or
-- counted twice when rows fall into buckets that exist.
pub upsert_rollups-sums :
    (known : String → Bool) (ms table table' : List RollupRow) (node_id : String) (from to : ℕ)
    → upsert_rollups known ms table ≡ some table'
    → ((sum_all node_id table').0 ≡ (sum_all node_id table).0 +ℤ (sum_all node_id ms).0)
      × ((sum_all node_id table').1 ≡ (sum_all node_id table).1 +ℤ (sum_all node_id ms).1)
      × ((sum_range node_id from to table').0
          ≡ (sum_range node_id from to table).0 +ℤ (sum_range node_id from to ms).0)
      × ((sum_range node_id from to table').1
          ≡ (sum_range node_id from to table).1 +ℤ (sum_range node_id from to ms).1)
unfolding sum_all sum_range merge_row
upsert_rollups-sums known ms table table' node_id from to h = (
  sum_where-upsert_rollups _ _ (minute-Additive node_id (λ r. r.up_bytes) (λ old new. refl)) known
      ms table table' h,
  sum_where-upsert_rollups _ _ (minute-Additive node_id (λ r. r.down_bytes) (λ old new. refl)) known
      ms table table' h,
  sum_where-upsert_rollups _ _ (range-Additive node_id from to (λ r. r.up_bytes) (λ old new. refl))
      known ms table table' h,
  sum_where-upsert_rollups _ _
      (range-Additive node_id from to (λ r. r.down_bytes) (λ old new. refl)) known ms table table'
      h,
)
