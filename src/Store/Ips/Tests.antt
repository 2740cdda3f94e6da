-- ===== src/Store/Ips/Tests.antt =====
-- Two tables of one address over two days, for the theorems about ips.go.
use singboxhub.Prelude.{ℕ, [], ◌∷◌}
use singboxhub.Prelude.Int.{pos}
use singboxhub.Store.Ips.{IpDelta, IpStat, IpDaily, IpTables}

abbrev delta_at : ℕ → ℕ → IpDelta
delta_at seen up = record {
  node_id = "n1";
  source_ip = "10.0.0.1";
  up_delta = pos up;
  down_delta = pos 1;
  conn_count = 1;
  active = 2;
  seen_at = seen;
}

abbrev empty_tables : IpTables
empty_tables = record { stats = []; daily = [] }

abbrev stat : IpStat
stat = record {
  node_id = "n1";
  source_ip = "10.0.0.1";
  upload_bytes = pos 12;
  download_bytes = pos 2;
  connections_total = 2;
  active_connections = 2;
  first_seen_at = 86399;
  last_seen_at = 86500;
}

abbrev daily_row : ℕ → ℕ → IpDaily
daily_row day up = record {
  node_id = "n1";
  source_ip = "10.0.0.1";
  day = day;
  up_bytes = pos up;
  down_bytes = pos 1;
}

abbrev two_days : IpTables
two_days = record { stats = stat ∷ []; daily = daily_row 0 5 ∷ daily_row 86400 7 ∷ [] }
