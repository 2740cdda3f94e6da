-- ===== src/Store/Traffic/Prune.antt =====
-- traffic.go, `PruneTraffic`: what the hourly clean-up leaves alone.
use singboxhub.Prelude.{
  ℕ, ◌-◌, ◌*◌, ◌≤◌, String, ◌≡◌, refl, ap, Bool, true, false, ◌&&◌, not, List, [], ◌∷◌, arith, ltb,
  str_eq, eq_iff, if◌then◌else◌, Bool-cases, inl, inr,
}
use singboxhub.Store.Traffic.{
  RollupRow, in_range, select, query_rollup, query_rollup_asc, is_expired, prune_rollups, day,
}

-- The days for which an interval's rows are kept.
abbrev pub kept_days : String → ℕ → ℕ
kept_days interval retention_days = if str_eq interval "day" then 365 else retention_days

recent_stays :
    (now retention_days : ℕ) (node_id interval : String) (from to : ℕ) (r : RollupRow)
    → now - kept_days interval retention_days * day ≤ from
    → in_range node_id interval from to r ≡ true
    → is_expired now retention_days r ≡ false
unfolding is_expired
recent_stays now retention_days node_id interval from to r h e =
    elim (Bool-cases (str_eq interval "day")) [
      | inl daily ↦ ground (
        arith,
        eq_iff r.interval interval,
        eq_iff interval "day",
        eq_iff r.interval "day",
        eq_iff r.interval "hour",
        eq_iff r.interval "minute",
        eq_iff "day" "hour",
        eq_iff "day" "minute",
        rw daily at h,
      )
      | inr other ↦ ground (
        arith,
        eq_iff r.interval interval,
        eq_iff interval "day",
        eq_iff r.interval "day",
        rw other at h,
      )
    ]

select-prune :
    (now retention_days : ℕ) (q : RollupRow → Bool)
    → ((r : RollupRow) → q r ≡ true → is_expired now retention_days r ≡ false)
    → (table : List RollupRow) → select q (prune_rollups now retention_days table) ≡ select q table
unfolding select prune_rollups
select-prune now n q h [] = refl
select-prune now n q h (r ∷ rs) =
    step (q r) (is_expired now n r) refl refl (select-prune now n q h rs)
  where
    step :
        (x y : Bool)
        → q r ≡ x
        → is_expired now n r ≡ y
        → select q (prune_rollups now n rs) ≡ select q rs
        → select q (if not y then r ∷ prune_rollups now n rs else prune_rollups now n rs)
          ≡ (if x then r ∷ select q rs else select q rs)
    step true true hx hy ih = absurd (cc (h r hx, hy))
    step false true hx hy ih = ih
    step true false hx hy ih = rw hx (ap (◌∷◌ r) ih)
    step false false hx hy ih = rw hx ih

-- Pruning changes no answer about a range that lies within what is kept: `retentionDays` for minute and
-- hour rows, 365 days for day rows. Both query orders give the same rows as before.
pub prune_rollups-query :
    (now retention_days : ℕ) (node_id interval : String) (from to after_ts limit : ℕ)
    (table : List RollupRow)
    → now - kept_days interval retention_days * day ≤ from
    → (query_rollup node_id interval from to after_ts limit (prune_rollups now retention_days table)
        ≡ query_rollup node_id interval from to after_ts limit table)
      × (query_rollup_asc node_id interval from to limit (prune_rollups now retention_days table)
          ≡ query_rollup_asc node_id interval from to limit table)
unfolding query_rollup query_rollup_asc
prune_rollups-query now n node_id interval from to after_ts limit table h =
    let stays = λ (r : RollupRow). recent_stays now n node_id interval from to r h in
    let plain = select-prune now n (in_range node_id interval from to) stays table in
    let after =
      select-prune now n (λ r. in_range node_id interval from to r && ltb r.bucket_start after_ts)
        (λ r e. stays r (first_true _ _ e)) table in
    (rw (after, plain), rw plain)
  where
    first_true : (a b : Bool) → a && b ≡ true → a ≡ true
    first_true a b e = ground arith
