-- ===== src/Sampler/Flush.antt =====
-- worker.go, `Drain`: what a flush reports and what it leaves.
use singboxhub.Prelude.{
  ℕ, ◌+◌, ◌-◌, ◌%◌, ◌≤◌, ◌<◌, String, ◌≡◌, refl, ap, ◌∙◌, false, ◌||◌, Option, none, some, List, [],
  ◌∷◌, arith, str_eq, eq_iff, if◌then◌else◌, Bool-cases, inl, inr,
}
use singboxhub.Prelude.Dict.{Dict, get, put, has, get-put, IsUnique, put-IsUnique}
use singboxhub.Sampler.{Worker, IpAccum, IpDelta, RollupRow, accum_or_zero, count_or_zero}
use singboxhub.Sampler.Drain.{
  wrap_accums, add_active, add_if_absent, merge_active_ips, ip_delta, ip_deltas, full_batch, drain,
  is_idle, rollup,
}

-- The deltas of a flush that speak of address `j`.
abbrev pub deltas_for : String → List IpDelta → List IpDelta
deltas_for j [] = []
deltas_for j (d ∷ ds) =
    let rest = deltas_for j ds in if str_eq d.source_ip j then d ∷ rest else rest

abbrev one_delta : Worker → ℕ → String → Option (Option IpAccum) → List IpDelta
one_delta w now j none = []
one_delta w now j (some acc) = ip_delta w now j acc ∷ []

deltas_for-ip_deltas :
    (w : Worker) (now : ℕ) (j : String) (m : Dict (Option IpAccum))
    → IsUnique m
    → deltas_for j (ip_deltas w now m) ≡ one_delta w now j (get j m)
unfolding ip_deltas ip_delta get
deltas_for-ip_deltas w now j [] u = refl
deltas_for-ip_deltas w now j ((ip, acc) ∷ m) u = elim (Bool-cases (str_eq ip j)) [
  | inl same ↦
      rw (same, (eq_iff ip j).0 same)
        (ap (◌∷◌ (ip_delta w now j acc)) (
          deltas_for-ip_deltas w now j m u.1
          ∙ ap (one_delta w now j) (rw ((eq_iff ip j).0 same) at u.0)))
  | inr other ↦ rw other (deltas_for-ip_deltas w now j m u.1)
]

abbrev wrapped : Option IpAccum → Option (Option IpAccum)
wrapped none = none
wrapped (some a) = some (some a)

get-wrap_accums : (j : String) (acc : Dict IpAccum) → get j (wrap_accums acc) ≡ wrapped (get j acc)
unfolding wrap_accums get
get-wrap_accums j [] = refl
get-wrap_accums j ((ip, a) ∷ acc) = ground (arith, get-wrap_accums j acc)

wrap_accums-IsUnique : (acc : Dict IpAccum) → IsUnique acc → IsUnique (wrap_accums acc)
unfolding wrap_accums
wrap_accums-IsUnique [] u = tt
wrap_accums-IsUnique ((ip, a) ∷ acc) u =
    (get-wrap_accums ip acc ∙ ap wrapped u.0, wrap_accums-IsUnique acc u.1)

abbrev or_active : Option (Option IpAccum) → Option ℕ → Option (Option IpAccum)
or_active (some a) n = some a
or_active none none = none
or_active none (some n) = some none

get-add_if_absent :
    (ip j : String) (out : Dict (Option IpAccum))
    → get j (add_if_absent ip out)
      ≡ (if str_eq ip j then or_active (get ip out) (some 0) else get j out)
unfolding add_if_absent
get-add_if_absent ip j out = ground (arith, get-put ip j none out, eq_iff ip j)

add_if_absent-IsUnique :
    (ip : String) (out : Dict (Option IpAccum)) → IsUnique out → IsUnique (add_if_absent ip out)
unfolding add_if_absent
add_if_absent-IsUnique ip out u = keep (get ip out)
  where
    keep :
        (o : Option (Option IpAccum)) → IsUnique (elim o [ none ↦ put ip none out | some a ↦ out ])
    keep none = put-IsUnique ip none out u
    keep (some a) = u

get-add_active :
    (j : String) (active : Dict ℕ) (out : Dict (Option IpAccum))
    → get j (add_active active out) ≡ or_active (get j out) (get j active)
unfolding add_active get
get-add_active j [] out = ground arith
get-add_active j ((ip, n) ∷ active) out =
    get-add_active j active (add_if_absent ip out)
    ∙ ground (arith, get-add_if_absent ip j out, eq_iff ip j)

add_active-IsUnique :
    (active : Dict ℕ) (out : Dict (Option IpAccum))
    → IsUnique out
    → IsUnique (add_active active out)
unfolding add_active
add_active-IsUnique [] out u = u
add_active-IsUnique ((ip, n) ∷ active) out u =
    add_active-IsUnique active (add_if_absent ip out) (add_if_absent-IsUnique ip out u)

get-merge_active_ips :
    (w : Worker) (j : String)
    → get j (merge_active_ips w) ≡ or_active (wrapped (get j w.ip_acc)) (get j w.per_ip_active)
unfolding merge_active_ips
get-merge_active_ips w j = rw (get-add_active, get-wrap_accums)

-- The one report of an address that is in the accumulators or active.
abbrev pub report_of : Worker → ℕ → String → IpDelta
report_of w now j =
    let a = accum_or_zero (get j w.ip_acc) in
    record {
      node_id = w.node_id;
      source_ip = j;
      up_delta = a.up;
      down_delta = a.down;
      conn_count = a.conn_count;
      active = count_or_zero (get j w.per_ip_active);
      seen_at = now;
    }

one_delta-report_of :
    (w : Worker) (now : ℕ) (j : String) (a : Option IpAccum) (n : Option ℕ)
    → get j w.ip_acc ≡ a
    → get j w.per_ip_active ≡ n
    → one_delta w now j (or_active (wrapped a) n)
      ≡ (if has j w.ip_acc || has j w.per_ip_active then report_of w now j ∷ [] else [])
unfolding ip_delta has
one_delta-report_of w now j none none p q = rw (p, q, has)
one_delta-report_of w now j none (some n) p q = rw (p, q, has)
one_delta-report_of w now j (some a) n p q = rw (p, has)

-- A flush of a worker whose accumulators have distinct addresses reports each address that has
-- an accumulator or an active connection exactly once, with its accumulated bytes, its new
-- connections and its number of active connections, and reports no other address.
pub full_batch-deltas :
    (w : Worker) (now : ℕ) (j : String)
    → IsUnique w.ip_acc
    → deltas_for j (full_batch w now).deltas
      ≡ (if has j w.ip_acc || has j w.per_ip_active then report_of w now j ∷ [] else [])
unfolding full_batch merge_active_ips
full_batch-deltas w now j u =
    deltas_for-ip_deltas w now j (merge_active_ips w)
      (add_active-IsUnique w.per_ip_active _ (wrap_accums-IsUnique w.ip_acc u))
    ∙ ap (one_delta w now j) (get-merge_active_ips w j)
    ∙ one_delta-report_of w now j _ _ refl refl

-- The row covers the bucket of length `len` that holds `now`, with the totals of the worker.
pub record Covers (w : Worker) (now len : ℕ) (row : RollupRow) : Type 0 where
  pub starts : row.bucket_start ≤ now
  pub ends : now < row.bucket_start + len
  pub aligned : row.bucket_start % len ≡ 0
  pub node_is : row.node_id ≡ w.node_id
  pub up_is : row.up_bytes ≡ w.sum_up
  pub down_is : row.down_bytes ≡ w.sum_down
  pub peak_up_is : row.peak_up_bps ≡ w.peak_up
  pub peak_down_is : row.peak_down_bps ≡ w.peak_down
  pub max_is : row.max_connections ≡ w.max_conn

-- The rollups of a batch are one minute, one hour and one day row in this order.
abbrev pub AreRollups : Worker → ℕ → List RollupRow → Type 0
AreRollups w now (m ∷ h ∷ d ∷ []) =
    ((m.interval ≡ "minute") × Covers w now 60 m)
    × ((h.interval ≡ "hour") × Covers w now 3600 h)
    × ((d.interval ≡ "day") × Covers w now 86400 d)
AreRollups w now _ = ⊥

covers :
    (w : Worker) (now len : ℕ) (interval : String)
    → now < now - now % len + len
    → (now - now % len) % len ≡ 0
    → Covers w now len (rollup w interval (now - now % len))
unfolding rollup
covers w now len interval end even = record {
  starts = omega arith;
  ends = end;
  aligned = even;
  node_is = refl;
  up_is = refl;
  down_is = refl;
  peak_up_is = refl;
  peak_down_is = refl;
  max_is = refl;
}

-- A flush of a worker that has something to report gives one minute, one hour and one day row with
-- the totals of the worker, each for the aligned bucket that holds the time of the flush.
pub drain-rollups :
    (w : Worker) (now : ℕ) → is_idle w ≡ false → AreRollups w now (drain now w).0.rollups
unfolding drain full_batch rollup
drain-rollups w now h = rw h (
  (refl, covers w now 60 "minute" (omega arith) (omega arith)),
  (refl, covers w now 3600 "hour" (omega arith) (omega arith)),
  (refl, covers w now 86400 "day" (omega arith) (omega arith)),
)
