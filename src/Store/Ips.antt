-- ===== src/Store/Ips.antt =====
-- backend/internal/store/ips.go: `ip_stats` and `ip_daily`, as lists of rows in no promised order.
-- Byte values are integers of any size, as in the database; times are unix seconds, not negative.
pub mod Balance
pub mod Cursor
mod Tests
use singboxhub.Prelude.{
  ℕ, zero, suc, ◌+◌, ◌-◌, ◌%◌, String, Bool, true, false, not, ◌&&◌, ◌||◌, Option, none, some, List,
  [], ◌∷◌, ltb, ◌==◌, str_eq, if◌then◌else◌, length,
}
use singboxhub.Prelude.Int.{ℤ, pos, ◌+ℤ◌}

pub record IpDelta : Type 0 where
  pub node_id : String
  pub source_ip : String
  pub up_delta : ℤ
  pub down_delta : ℤ
  pub conn_count : ℕ
  pub active : ℕ
  pub seen_at : ℕ

-- A row of `ip_stats`.
pub record IpStat : Type 0 where
  pub node_id : String
  pub source_ip : String
  pub upload_bytes : ℤ
  pub download_bytes : ℤ
  pub connections_total : ℕ
  pub active_connections : ℕ
  pub first_seen_at : ℕ
  pub last_seen_at : ℕ

-- A row of `ip_daily`.
pub record IpDaily : Type 0 where
  pub node_id : String
  pub source_ip : String
  pub day : ℕ
  pub up_bytes : ℤ
  pub down_bytes : ℤ

pub record IpTables : Type 0 where
  pub stats : List IpStat
  pub daily : List IpDaily

-- Truncates a time to its day.
pub day_start : ℕ → ℕ
day_start ts = ts - ts % 86400

abbrev pub new_stat : IpDelta → IpStat
new_stat d = record {
  node_id = d.node_id;
  source_ip = d.source_ip;
  upload_bytes = d.up_delta;
  download_bytes = d.down_delta;
  connections_total = d.conn_count;
  active_connections = d.active;
  first_seen_at = d.seen_at;
  last_seen_at = d.seen_at;
}

-- ON CONFLICT(node_id, source_ip) DO UPDATE
pub merge_stat : IpStat → IpDelta → IpStat
merge_stat old d = record old {
  upload_bytes = old.upload_bytes +ℤ d.up_delta;
  download_bytes = old.download_bytes +ℤ d.down_delta;
  connections_total = old.connections_total + d.conn_count;
  active_connections = d.active;
  last_seen_at = d.seen_at;
}

abbrev pub is_stat_of : String → String → IpStat → Bool
is_stat_of node_id ip r = str_eq r.node_id node_id && str_eq r.source_ip ip

-- INSERT … ON CONFLICT … DO UPDATE: the first row that the key finds is merged, or a row is added.
pub upsert_by : {A : Type 0} → (A → Bool) → (A → A) → A → List A → List A
upsert_by hit merge new [] = new ∷ []
upsert_by hit merge new (r ∷ rs) = if hit r then merge r ∷ rs else r ∷ upsert_by hit merge new rs

pub upsert_stat : IpDelta → List IpStat → List IpStat
unfolding merge_stat upsert_by
upsert_stat d = upsert_by (is_stat_of d.node_id d.source_ip) (λ r. merge_stat r d) (new_stat d)

abbrev pub is_daily_of : String → String → IpDaily → Bool
is_daily_of node_id ip r = str_eq r.node_id node_id && str_eq r.source_ip ip

abbrev pub new_daily : IpDelta → ℕ → IpDaily
new_daily d day = record {
  node_id = d.node_id;
  source_ip = d.source_ip;
  day = day;
  up_bytes = d.up_delta;
  down_bytes = d.down_delta;
}

-- ON CONFLICT(node_id, source_ip, day) DO UPDATE
pub merge_daily : IpDaily → IpDelta → IpDaily
merge_daily old d = record old {
  up_bytes = old.up_bytes +ℤ d.up_delta;
  down_bytes = old.down_bytes +ℤ d.down_delta;
}

pub upsert_daily : IpDelta → ℕ → List IpDaily → List IpDaily
unfolding merge_daily upsert_by
upsert_daily d day =
    upsert_by (λ r. is_daily_of d.node_id d.source_ip r && r.day == day) (λ r. merge_daily r d)
      (new_daily d day)

-- `UpsertIPStats`, one transaction: `none` is an error (a node that the foreign key does not find), and leaves
-- both tables as they were.
pub upsert_ip_stats : (String → Bool) → List IpDelta → IpTables → Option IpTables
unfolding upsert_stat upsert_daily day_start
upsert_ip_stats known [] t = some t
upsert_ip_stats known (d ∷ ds) t =
    if known d.node_id
    then upsert_ip_stats known ds (record {
      stats = upsert_stat d t.stats;
      daily = upsert_daily d (day_start d.seen_at) t.daily;
    })
    else none

-- UPDATE ip_stats SET active_connections = 0, of one node, or of all for the empty id.
pub clear_active_rows : String → List IpStat → List IpStat
clear_active_rows node_id [] = []
clear_active_rows node_id (r ∷ rs) =
    let rest = clear_active_rows node_id rs in
    if str_eq node_id "" || str_eq r.node_id node_id
    then record r { active_connections = 0 } ∷ rest
    else r ∷ rest

-- `ClearActiveIPs`
pub clear_active_ips : String → IpTables → IpTables
unfolding clear_active_rows
clear_active_ips node_id t = record t { stats = clear_active_rows node_id t.stats }

abbrev pub is_in : String → List String → Bool
is_in x [] = false
is_in x (y ∷ ys) = str_eq x y || is_in x ys

-- COUNT(DISTINCT source_ip), of the rows that a test selects.
pub distinct_ips : (IpStat → Bool) → List IpStat → List String
distinct_ips p [] = []
distinct_ips p (r ∷ rs) =
    let rest = distinct_ips p rs in
    if p r && not (is_in r.source_ip rest) then r.source_ip ∷ rest else rest

pub count_distinct_ips : IpTables → ℕ
unfolding distinct_ips
count_distinct_ips t = length (distinct_ips (λ r. true) t.stats)

pub count_online_ips : IpTables → ℕ
unfolding distinct_ips
count_online_ips t = length (distinct_ips (λ r. ltb 0 r.active_connections) t.stats)

-- `splitCursor`: value and ip on the two sides of the last bar.
pub split_cursor : List ℕ → Option (List ℕ × List ℕ)
split_cursor [] = none
split_cursor (c ∷ cs) = elim (split_cursor cs) [
  | some (value, ip) ↦ some (c ∷ value, ip)
  | none ↦ if c == b'|' then some ([], cs) else none
]
