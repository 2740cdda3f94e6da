-- ===== src/Sampler/Ledger.antt =====
-- worker.go: the accounting of each address over any run of frames, flushes and reconnects.
use mathlib.Core.Path.{fun_ext}
use singboxhub.Prelude.{
  ℕ, ◌+◌, ◌%◌, String, ◌≡◌, refl, ◌||◌, Option, none, List, [], ◌∷◌, ◌++◌, arith, if◌then◌else◌,
  All, sum_by, sum_by-append, Bool-cases, inl, inr,
}
use singboxhub.Prelude.Word.{two64}
use singboxhub.Prelude.Dict.{has, get-empty}
use singboxhub.Sampler.{
  Worker, ConnMark, IpAccum, IpDelta, Batch, accumulate_traffic, mark_online, mark_offline,
  set_mode, no_accum,
}
use singboxhub.Sampler.Drain.{drain, is_idle}
use singboxhub.Sampler.Account.{
  accum_at, charged_up, charged_down, charged_new, marks, apply_snapshot-Adds, note_all-accum_at,
}
use singboxhub.Sampler.Marks.{mark_of, apply_snapshot-mark_of}
use singboxhub.Sampler.Flush.{deltas_for, full_batch-deltas, report_of}
use singboxhub.Sampler.Events.{Event, traffic, frame, online, offline, flush, mode, step, run}
use singboxhub.Sampler.Sound.{IsSound, IsSane, step-IsSound}

-- What one event charges to address `j`, given the marks before it, and the marks after it.
abbrev pub charge_up : String → (String → Option ConnMark) → Event → ℕ
charge_up j seen (frame conns) = charged_up j seen conns
charge_up j seen _ = 0

abbrev pub charge_down : String → (String → Option ConnMark) → Event → ℕ
charge_down j seen (frame conns) = charged_down j seen conns
charge_down j seen _ = 0

abbrev pub charge_new : String → (String → Option ConnMark) → Event → ℕ
charge_new j seen (frame conns) = charged_new j seen conns
charge_new j seen _ = 0

abbrev marks_after : Event → (String → Option ConnMark) → String → Option ConnMark
marks_after (frame conns) seen = λ id. mark_of id conns none
marks_after _ seen = seen

-- Σ over the frames of a run, each against the marks of the frame before it.
abbrev pub charges :
    (String → (String → Option ConnMark) → Event → ℕ)
    → String
    → (String → Option ConnMark)
    → List Event
    → ℕ
charges f j seen [] = 0
charges f j seen (e ∷ es) = f j seen e + charges f j (marks_after e seen) es

-- What the flushes reported of address `j`.
abbrev pub reported : (IpDelta → ℕ) → String → List Batch → ℕ
reported f j = sum_by (λ b. sum_by f (deltas_for j b.deltas))

-- `b` and `w` hold what `v` held of address `j`, and what one event charges to it.
record KeepsIp (j : String) (v : Worker) (e : Event) (b : List Batch) (w : Worker) : Type 0 where
  up_is :
      (reported (λ d. d.up_delta) j b + (accum_at j w.ip_acc).up) % two64
      ≡ ((accum_at j v.ip_acc).up + charge_up j (marks v.last_seen) e) % two64
  down_is :
      (reported (λ d. d.down_delta) j b + (accum_at j w.ip_acc).down) % two64
      ≡ ((accum_at j v.ip_acc).down + charge_down j (marks v.last_seen) e) % two64
  count_is :
      reported (λ d. d.conn_count) j b + (accum_at j w.ip_acc).conn_count
      ≡ (accum_at j v.ip_acc).conn_count + charge_new j (marks v.last_seen) e
  marks_are : marks w.last_seen ≡ marks_after e (marks v.last_seen)

reported-append :
    (f : IpDelta → ℕ) (j : String) (xs ys : List Batch)
    → reported f j (xs ++ ys) ≡ reported f j xs + reported f j ys
reported-append f j xs ys = sum_by-append (λ b. sum_by f (deltas_for j b.deltas)) xs ys

-- A step that neither reports nor changes accumulators and marks.
KeepsIp-same :
    (j : String) (v w : Worker) (e : Event)
    → accum_at j w.ip_acc ≡ accum_at j v.ip_acc
    → marks w.last_seen ≡ marks_after e (marks v.last_seen)
    → charge_up j (marks v.last_seen) e ≡ 0
    → charge_down j (marks v.last_seen) e ≡ 0
    → charge_new j (marks v.last_seen) e ≡ 0
    → KeepsIp j v e [] w
KeepsIp-same j v w e a m u d n = record {
  up_is = rw (a, u) (omega arith);
  down_is = rw (a, d) (omega arith);
  count_is = rw (a, n) (omega arith);
  marks_are = m;
}

-- The reports of a flush are what the accumulator held.
report-is-accum :
    (f : IpDelta → ℕ) (g : IpAccum → ℕ) (j : String) (now : ℕ) (w : Worker)
    → f (report_of w now j) ≡ g (accum_at j w.ip_acc)
    → g no_accum ≡ 0
    → sum_by f (if has j w.ip_acc || has j w.per_ip_active then report_of w now j ∷ [] else [])
      ≡ g (accum_at j w.ip_acc)
unfolding has
report-is-accum f g j now w e z = ground arith

flush-KeepsIp :
    (j : String) (now : ℕ) (w : Worker)
    → IsSound w
    → KeepsIp j w (flush now) (step (flush now) w).0 (step (flush now) w).1
unfolding step drain
flush-KeepsIp j now w s = elim (Bool-cases (is_idle w)) [
  | inl idle ↦ rw idle (record {
    up_is = omega arith;
    down_is = omega arith;
    count_is = omega arith;
    marks_are = refl;
  })
  | inr busy ↦
      let only = full_batch-deltas w now j s.unique in
      rw busy (record {
        up_is =
            rw (only, get-empty)
              (rw (report-is-accum (λ d. d.up_delta) (λ a. a.up) j now w refl refl) (omega arith));
        down_is =
            rw (only, get-empty)
              (rw (report-is-accum (λ d. d.down_delta) (λ a. a.down) j now w refl refl)
                (omega arith));
        count_is =
            rw (only, get-empty)
              (rw (report-is-accum (λ d. d.conn_count) (λ a. a.conn_count) j now w refl refl)
                (omega arith));
        marks_are = refl;
      })
]

step-KeepsIp :
    (j : String) (e : Event) (w : Worker)
    → IsSane e
    → IsSound w
    → KeepsIp j w e (step e w).0 (step e w).1
unfolding step accumulate_traffic mark_online mark_offline set_mode
step-KeepsIp j (frame conns) w h s =
    let a = apply_snapshot-Adds j w conns s.counted h (s.words j) in
    record {
      up_is = omega (arith, a.up_is);
      down_is = omega (arith, a.down_is);
      count_is = omega (arith, a.conn_count_is);
      marks_are = fun_ext (λ id. apply_snapshot-mark_of id w conns);
    }
step-KeepsIp j (flush now) w h s = flush-KeepsIp j now w s
step-KeepsIp j (offline error) w h s =
    KeepsIp-same j w _ (offline error) (note_all-accum_at j w.per_ip_active w.ip_acc) refl refl refl
      refl
step-KeepsIp j (traffic msg) w h s = KeepsIp-same j w _ (traffic msg) refl refl refl refl refl
step-KeepsIp j (online v m mem now) w h s =
    KeepsIp-same j w _ (online v m mem now) refl refl refl refl refl
step-KeepsIp j (mode m) w h s = KeepsIp-same j w _ (mode m) refl refl refl refl refl

-- Over any run from a sound worker whose frames have no negative counter, the bytes of address `j`
-- that the flushes reported and that are still held are, modulo 2 ^ 64, those held at first and the
-- growth of its connections from frame to frame; new connections are counted the same way, exactly.
pub run_conserves_ip :
    (j : String) (es : List Event) (w : Worker)
    → All IsSane es
    → IsSound w
    → ((reported (λ d. d.up_delta) j (run es w).0 + (accum_at j (run es w).1.ip_acc).up) % two64
        ≡ ((accum_at j w.ip_acc).up + charges charge_up j (marks w.last_seen) es) % two64)
      × ((reported (λ d. d.down_delta) j (run es w).0 + (accum_at j (run es w).1.ip_acc).down)
            % two64
          ≡ ((accum_at j w.ip_acc).down + charges charge_down j (marks w.last_seen) es) % two64)
      × (reported (λ d. d.conn_count) j (run es w).0 + (accum_at j (run es w).1.ip_acc).conn_count
          ≡ (accum_at j w.ip_acc).conn_count + charges charge_new j (marks w.last_seen) es)
unfolding run
run_conserves_ip j [] w h s = omega arith
run_conserves_ip j (e ∷ es) w h s =
    let k = step-KeepsIp j e w h.0 s in
    let ih = run_conserves_ip j es (step e w).1 h.1 (step-IsSound e w h.0 s) in
    let ih' = rw k.marks_are at ih in
    let now = (step e w).0 in
    let later = (run es (step e w).1).0 in
    (
      omega (arith, reported-append (λ d. d.up_delta) j now later, k.up_is, ih'.0),
      omega (arith, reported-append (λ d. d.down_delta) j now later, k.down_is, ih'.1),
      omega (arith, reported-append (λ d. d.conn_count) j now later, k.count_is, ih'.2),
    )
