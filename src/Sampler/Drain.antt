-- ===== src/Sampler/Drain.antt =====
-- worker.go: what a flush reports (`Drain`, `rollup`, `mergeActiveIPs`).
use singboxhub.Prelude.{
  ℕ, ◌-◌, ◌%◌, String, Bool, true, false, ◌&&◌, Option, none, some, List, [], ◌∷◌, ◌==◌,
  if◌then◌else◌,
}
use singboxhub.Prelude.Dict.{Dict, get, put}
use singboxhub.Sampler.{
  RollupRow, IpDelta, Batch, Worker, IpAccum, active_connections, count_or_zero, accum_or_zero,
}

unfoldable pub rollup : Worker → String → ℕ → RollupRow
rollup w interval start = record {
  node_id = w.node_id;
  interval = interval;
  bucket_start = start;
  up_bytes = w.sum_up;
  down_bytes = w.sum_down;
  peak_up_bps = w.peak_up;
  peak_down_bps = w.peak_down;
  max_connections = w.max_conn;
}

-- `mergeActiveIPs`: the accumulators, and a nil for each other active address.
unfoldable pub wrap_accums : Dict IpAccum → Dict (Option IpAccum)
wrap_accums [] = []
wrap_accums ((ip, a) ∷ rest) = (ip, some a) ∷ wrap_accums rest

unfoldable pub add_if_absent : String → Dict (Option IpAccum) → Dict (Option IpAccum)
add_if_absent ip out = elim (get ip out) [ none ↦ put ip none out | some a ↦ out ]

unfoldable pub add_active : Dict ℕ → Dict (Option IpAccum) → Dict (Option IpAccum)
add_active [] out = out
add_active ((ip, n) ∷ rest) out = add_active rest (add_if_absent ip out)

unfoldable pub merge_active_ips : Worker → Dict (Option IpAccum)
unfolding wrap_accums add_active
merge_active_ips w = add_active w.per_ip_active (wrap_accums w.ip_acc)

unfoldable pub ip_delta : Worker → ℕ → String → Option IpAccum → IpDelta
ip_delta w now ip acc =
    let a = accum_or_zero acc in
    record {
      node_id = w.node_id;
      source_ip = ip;
      up_delta = a.up;
      down_delta = a.down;
      conn_count = a.conn_count;
      active = count_or_zero (get ip w.per_ip_active);
      seen_at = now;
    }

unfoldable pub ip_deltas : Worker → ℕ → Dict (Option IpAccum) → List IpDelta
unfolding ip_delta
ip_deltas w now [] = []
ip_deltas w now ((ip, acc) ∷ rest) = ip_delta w now ip acc ∷ ip_deltas w now rest

abbrev is_empty {ℓ} : {A : Type ℓ} → List A → Bool
is_empty [] = true
is_empty (x ∷ xs) = false

-- Nothing to report: the early return of `Drain`.
unfoldable pub is_idle : Worker → Bool
is_idle w = w.sum_up == 0 && w.sum_down == 0 && is_empty w.ip_acc && is_empty w.per_ip_active

abbrev pub no_batch : Batch
no_batch = record { samples = []; rollups = []; deltas = [] }

unfoldable pub full_batch : Worker → ℕ → Batch
unfolding rollup merge_active_ips ip_deltas
full_batch w now = record {
  samples =
      record {
        node_id = w.node_id;
        ts = now;
        up_bytes = w.sum_up;
        down_bytes = w.sum_down;
        peak_up_bps = w.peak_up;
        peak_down_bps = w.peak_down;
        max_connections = w.max_conn;
      }
      ∷ [];
  rollups =
      rollup w "minute" (now - now % 60)
      ∷ rollup w "hour" (now - now % 3600)
      ∷ rollup w "day" (now - now % 86400)
      ∷ [];
  deltas = ip_deltas w now (merge_active_ips w);
}

unfoldable pub drain : ℕ → Worker → Batch × Worker
unfolding is_idle full_batch active_connections
drain now w = if is_idle w then (no_batch, w) else (
  full_batch w now,
  record w {
    sum_up = 0;
    sum_down = 0;
    peak_up = 0;
    peak_down = 0;
    max_conn = active_connections w;
    ip_acc = [];
  },
)
