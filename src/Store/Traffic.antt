-- ===== src/Store/Traffic.antt =====
-- backend/internal/store/traffic.go: `traffic_samples` and `traffic_rollup`. A table is a list of rows
-- in no promised order. Byte values are integers of any size: SQLite and PostgreSQL do not wrap. Times
-- are unix seconds, not negative, and `known` says which nodes the foreign key finds.
pub mod Totals
pub mod Pages
pub mod Prune
use mathlib.Core.List.{filter}
use singboxhub.Prelude.{
  ℕ, ◌+◌, ◌-◌, ◌*◌, String, Bool, true, false, not, ◌&&◌, ◌||◌, Option, none, some, List, [], ◌∷◌,
  ltb, leb, ◌==◌, str_eq, if◌then◌else◌, take,
}
use singboxhub.Prelude.Int.{ℤ, pos, ◌+ℤ◌, max_ℤ}

pub record TrafficSample : Type 0 where
  pub node_id : String
  pub ts : ℕ
  pub up_bytes : ℤ
  pub down_bytes : ℤ
  pub peak_up_bps : ℤ
  pub peak_down_bps : ℤ
  pub max_connections : ℤ

pub record RollupRow : Type 0 where
  pub node_id : String
  pub interval : String
  pub bucket_start : ℕ
  pub up_bytes : ℤ
  pub down_bytes : ℤ
  pub peak_up_bps : ℤ
  pub peak_down_bps : ℤ
  pub max_connections : ℤ

-- PRIMARY KEY (node_id, ts), and ON CONFLICT … DO UPDATE.
abbrev pub same_sample : TrafficSample → TrafficSample → Bool
same_sample a b = str_eq a.node_id b.node_id && a.ts == b.ts

pub merge_sample : TrafficSample → TrafficSample → TrafficSample
merge_sample old new = record old {
  up_bytes = old.up_bytes +ℤ new.up_bytes;
  down_bytes = old.down_bytes +ℤ new.down_bytes;
  peak_up_bps = max_ℤ old.peak_up_bps new.peak_up_bps;
  peak_down_bps = max_ℤ old.peak_down_bps new.peak_down_bps;
  max_connections = max_ℤ old.max_connections new.max_connections;
}

pub upsert_sample : TrafficSample → List TrafficSample → List TrafficSample
unfolding merge_sample
upsert_sample m [] = m ∷ []
upsert_sample m (r ∷ rs) = if same_sample r m then merge_sample r m ∷ rs else r ∷ upsert_sample m rs

-- One transaction: `none` is an error, and leaves the table as it was.
pub insert_traffic_samples :
    (String → Bool) → List TrafficSample → List TrafficSample → Option (List TrafficSample)
unfolding upsert_sample
insert_traffic_samples known [] table = some table
insert_traffic_samples known (m ∷ ms) table =
    if known m.node_id then insert_traffic_samples known ms (upsert_sample m table) else none

-- PRIMARY KEY (node_id, interval, bucket_start).
abbrev pub same_bucket : RollupRow → RollupRow → Bool
same_bucket a b =
    str_eq a.node_id b.node_id && (str_eq a.interval b.interval && a.bucket_start == b.bucket_start)

unfoldable pub merge_row : RollupRow → RollupRow → RollupRow
merge_row old new = record old {
  up_bytes = old.up_bytes +ℤ new.up_bytes;
  down_bytes = old.down_bytes +ℤ new.down_bytes;
  peak_up_bps = max_ℤ old.peak_up_bps new.peak_up_bps;
  peak_down_bps = max_ℤ old.peak_down_bps new.peak_down_bps;
  max_connections = max_ℤ old.max_connections new.max_connections;
}

unfoldable pub upsert_row : RollupRow → List RollupRow → List RollupRow
unfolding merge_row
upsert_row m [] = m ∷ []
upsert_row m (r ∷ rs) = if same_bucket r m then merge_row r m ∷ rs else r ∷ upsert_row m rs

unfoldable pub upsert_rollups :
    (String → Bool) → List RollupRow → List RollupRow → Option (List RollupRow)
unfolding upsert_row
upsert_rollups known [] table = some table
upsert_rollups known (m ∷ ms) table =
    if known m.node_id then upsert_rollups known ms (upsert_row m table) else none

-- WHERE node_id = ? AND interval = ? AND bucket_start >= ? AND bucket_start <= ?
abbrev pub in_range : String → String → ℕ → ℕ → RollupRow → Bool
in_range node_id interval from to r =
    str_eq r.node_id node_id
    && (str_eq r.interval interval && (leb from r.bucket_start && leb r.bucket_start to))

unfoldable pub select : (RollupRow → Bool) → List RollupRow → List RollupRow
select p [] = []
select p (r ∷ rs) = let rest = select p rs in if p r then r ∷ rest else rest

-- ORDER BY bucket_start DESC, and ASC.
unfoldable pub place_desc : RollupRow → List RollupRow → List RollupRow
place_desc r [] = r ∷ []
place_desc r (s ∷ ss) =
    if ltb r.bucket_start s.bucket_start then s ∷ place_desc r ss else r ∷ s ∷ ss

unfoldable pub order_desc : List RollupRow → List RollupRow
unfolding place_desc
order_desc [] = []
order_desc (r ∷ rs) = place_desc r (order_desc rs)

pub place_asc : RollupRow → List RollupRow → List RollupRow
place_asc r [] = r ∷ []
place_asc r (s ∷ ss) = if ltb s.bucket_start r.bucket_start then s ∷ place_asc r ss else r ∷ s ∷ ss

pub order_asc : List RollupRow → List RollupRow
unfolding place_asc
order_asc [] = []
order_asc (r ∷ rs) = place_asc r (order_asc rs)

pub query_rollup : String → String → ℕ → ℕ → ℕ → ℕ → List RollupRow → List RollupRow
unfolding order_desc select
query_rollup node_id interval from to after_ts limit table =
    if ltb 0 after_ts
    then take limit (
        order_desc
          (select (λ r. in_range node_id interval from to r && ltb r.bucket_start after_ts) table))
    else take limit (order_desc (select (in_range node_id interval from to) table))

pub query_rollup_asc : String → String → ℕ → ℕ → ℕ → List RollupRow → List RollupRow
unfolding order_asc select
query_rollup_asc node_id interval from to limit table =
    take limit (order_asc (select (in_range node_id interval from to) table))

-- COALESCE(SUM(…), 0) of the rows that a test selects.
abbrev pub sum_where : (RollupRow → Bool) → (RollupRow → ℤ) → List RollupRow → ℤ
sum_where p f [] = pos 0
sum_where p f (r ∷ rs) = (if p r then f r else pos 0) +ℤ sum_where p f rs

pub sum_range : String → ℕ → ℕ → List RollupRow → ℤ × ℤ
sum_range node_id from to table =
    let p = in_range node_id "minute" from to in
    (sum_where p (λ r. r.up_bytes) table, sum_where p (λ r. r.down_bytes) table)

abbrev pub is_minute_of : String → RollupRow → Bool
is_minute_of node_id r = str_eq r.node_id node_id && str_eq r.interval "minute"

pub sum_all : String → List RollupRow → ℤ × ℤ
sum_all node_id table = (
  sum_where (is_minute_of node_id) (λ r. r.up_bytes) table,
  sum_where (is_minute_of node_id) (λ r. r.down_bytes) table,
)

abbrev pub day : ℕ
day = 86400

-- The rows that the three DELETE statements on `traffic_rollup` remove.
pub is_expired : ℕ → ℕ → RollupRow → Bool
is_expired now retention_days r =
    (str_eq r.interval "minute" && ltb r.bucket_start (now - retention_days * day))
    || ((str_eq r.interval "hour" && ltb r.bucket_start (now - retention_days * day))
        || (str_eq r.interval "day" && ltb r.bucket_start (now - 365 * day)))

pub prune_rollups : ℕ → ℕ → List RollupRow → List RollupRow
unfolding is_expired select
prune_rollups now retention_days table = select (λ r. not (is_expired now retention_days r)) table

pub prune_samples : ℕ → List TrafficSample → List TrafficSample
prune_samples now [] = []
prune_samples now (m ∷ ms) =
    let rest = prune_samples now ms in if ltb m.ts (now - 3 * day) then rest else m ∷ rest
