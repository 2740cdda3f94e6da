-- ===== src/Sampler/Events.antt =====
-- worker.go: any order of frames, flushes and connection changes. The worker's methods each hold its
-- lock, so an interleaving of its goroutines is a sequence of these events.
use singboxhub.Prelude.{
  ℕ, ◌+◌, ◌%◌, String, ◌≡◌, Option, List, [], ◌∷◌, ◌++◌, arith, sum_by, sum_by-append,
}
use singboxhub.Prelude.Word.{two64}
use singboxhub.Sampler.{
  Worker, Connection, TrafficMessage, TrafficSample, Batch, accumulate_traffic, apply_snapshot,
  mark_online, mark_offline, set_mode,
}
use singboxhub.Sampler.Drain.{drain, full_batch}

pub data Event : Type 0 where
  traffic : TrafficMessage → Event
  frame : List Connection → Event
  online : String → String → Option ℕ → ℕ → Event
  offline : Option String → Event
  flush : ℕ → Event
  mode : String → Event

-- One event: what it reports, and the worker after it.
unfoldable pub step : Event → Worker → List Batch × Worker
step (traffic msg) w = ([], accumulate_traffic msg w)
step (frame conns) w = ([], apply_snapshot conns w)
step (online version m mem now) w = ([], mark_online version m mem now w)
step (offline error) w = ([], mark_offline error w)
step (flush now) w = let (b, w') = drain now w in (b ∷ [], w')
step (mode m) w = ([], set_mode m w)

unfoldable pub run : List Event → Worker → List Batch × Worker
unfolding step
run [] w = ([], w)
run (e ∷ es) w = let (now, w') = step e w in let (later, w'') = run es w' in (now ++ later, w'')

abbrev sample_up : List TrafficSample → ℕ
sample_up = sum_by (λ s. s.up_bytes)

abbrev sample_down : List TrafficSample → ℕ
sample_down = sum_by (λ s. s.down_bytes)

-- The bytes of the samples that were reported.
abbrev pub reported_up : List Batch → ℕ
reported_up = sum_by (λ b. sample_up b.samples)

abbrev pub reported_down : List Batch → ℕ
reported_down = sum_by (λ b. sample_down b.samples)

-- The bytes of the traffic frames that were read.
abbrev up_of : Event → ℕ
up_of (traffic msg) = msg.up
up_of _ = 0

abbrev down_of : Event → ℕ
down_of (traffic msg) = msg.down
down_of _ = 0

abbrev pub read_up : List Event → ℕ
read_up = sum_by up_of

abbrev pub read_down : List Event → ℕ
read_down = sum_by down_of

-- `b` and `w` hold what `v` held and the bytes of one event.
record Keeps (v : Worker) (up down : ℕ) (b : List Batch) (w : Worker) : Type 0 where
  up_is : (reported_up b + w.sum_up) % two64 ≡ (v.sum_up + up) % two64
  down_is : (reported_down b + w.sum_down) % two64 ≡ (v.sum_down + down) % two64

step-Keeps : (e : Event) (w : Worker) → Keeps w (up_of e) (down_of e) (step e w).0 (step e w).1
unfolding step accumulate_traffic apply_snapshot mark_online mark_offline set_mode drain full_batch
step-Keeps (traffic msg) w = omega arith
step-Keeps (flush now) w = ground arith
step-Keeps _ w = omega arith

-- Whatever the order of frames, flushes and reconnects, the bytes of the samples reported and of
-- those still held are, modulo 2 ^ 64, the bytes held at first and those of the traffic frames read.
pub run_conserves_traffic :
    (es : List Event) (w : Worker)
    → ((reported_up (run es w).0 + (run es w).1.sum_up) % two64 ≡ (w.sum_up + read_up es) % two64)
      × ((reported_down (run es w).0 + (run es w).1.sum_down) % two64
          ≡ (w.sum_down + read_down es) % two64)
unfolding run
run_conserves_traffic [] w = omega arith
run_conserves_traffic (e ∷ es) w =
    let s = step-Keeps e w in
    let ih = run_conserves_traffic es (step e w).1 in
    omega (
      arith,
      sum_by-append {0} (λ (b : Batch). sample_up b.samples) (step e w).0 (run es (step e w).1).0,
      sum_by-append {0} (λ (b : Batch). sample_down b.samples) (step e w).0 (run es (step e w).1).0,
      s.up_is,
      s.down_is,
    )
