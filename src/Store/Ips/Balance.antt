-- ===== src/Store/Ips/Balance.antt =====
-- ips.go: what the two tables say of the same traffic.
use singboxhub.Prelude.{
  String, ◌≡◌, refl, ap, Bool, ◌||◌, List, [], ◌∷◌, ltb, str_eq, if◌then◌else◌, Bool-cases, inl,
  inr, length,
}
use singboxhub.Prelude.Int.{ℤ, pos, ◌+ℤ◌}
use singboxhub.Store.Ips.{
  IpStat, IpTables, is_stat_of, is_daily_of, clear_active_rows, clear_active_ips, distinct_ips,
  count_online_ips,
}

-- The sum of a column over the rows that a test selects.
abbrev pub sum_if : {A : Type 0} → (A → Bool) → (A → ℤ) → List A → ℤ
sum_if p f [] = pos 0
sum_if p f (r ∷ rs) = (if p r then f r else pos 0) +ℤ sum_if p f rs

-- For every node and address, the bytes of its days add up to its total.
abbrev pub IsBalanced : IpTables → Type 0
IsBalanced t =
    (node_id ip : String)
    → (sum_if (is_stat_of node_id ip) (λ r. r.upload_bytes) t.stats
        ≡ sum_if (is_daily_of node_id ip) (λ r. r.up_bytes) t.daily)
      × (sum_if (is_stat_of node_id ip) (λ r. r.download_bytes) t.stats
          ≡ sum_if (is_daily_of node_id ip) (λ r. r.down_bytes) t.daily)

sum_if-clear_active_rows :
    (node_id ip cleared : String) (f : IpStat → ℤ) (rs : List IpStat)
    → ((r : IpStat) → f (record r { active_connections = 0 }) ≡ f r)
    → sum_if (is_stat_of node_id ip) f (clear_active_rows cleared rs)
      ≡ sum_if (is_stat_of node_id ip) f rs
unfolding clear_active_rows
sum_if-clear_active_rows node_id ip cleared f [] keeps = refl
sum_if-clear_active_rows node_id ip cleared f (r ∷ rs) keeps =
    let rest = sum_if-clear_active_rows node_id ip cleared f rs keeps in
    elim (Bool-cases (str_eq cleared "" || str_eq r.node_id cleared)) [
      | inl a ↦ rw (a, rest, keeps r) refl
      | inr a ↦ rw (a, rest) refl
    ]

none_active :
    (rs : List IpStat)
    → distinct_ips (λ r. ltb 0 r.active_connections) (clear_active_rows "" rs) ≡ []
unfolding distinct_ips clear_active_rows
none_active [] = refl
none_active (r ∷ rs) = rw (none_active rs) refl

-- Clearing the runtime state of a node, or of all of them for the empty id, changes no address's
-- byte totals; after all are cleared no address counts as online.
pub clear_active_ips_lem :
    (t : IpTables) (cleared node_id ip : String)
    → let t' = clear_active_ips cleared t in
      (sum_if (is_stat_of node_id ip) (λ r. r.upload_bytes) t'.stats
        ≡ sum_if (is_stat_of node_id ip) (λ r. r.upload_bytes) t.stats)
      × (sum_if (is_stat_of node_id ip) (λ r. r.download_bytes) t'.stats
          ≡ sum_if (is_stat_of node_id ip) (λ r. r.download_bytes) t.stats)
      × (count_online_ips (clear_active_ips "" t) ≡ 0)
unfolding clear_active_ips count_online_ips
clear_active_ips_lem t cleared node_id ip = (
  sum_if-clear_active_rows node_id ip cleared (λ r. r.upload_bytes) t.stats (λ r. refl),
  sum_if-clear_active_rows node_id ip cleared (λ r. r.download_bytes) t.stats (λ r. refl),
  ap length (none_active t.stats),
)
