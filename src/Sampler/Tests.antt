-- ===== src/Sampler/Tests.antt =====
-- A worker over a short run of events, for the theorems about worker.go.
use singboxhub.Prelude.{
  ℕ, ◌+◌, ◌%◌, ◌<◌, ◌≡◌, refl, true, false, none, some, List, [], ◌∷◌, arith, All, ltb, ltb→lt,
}
use singboxhub.Prelude.Word.{two63, two64}
use singboxhub.Prelude.Dict.{get}
use singboxhub.Sampler.{Worker, new_worker, Connection}
use singboxhub.Sampler.Drain.{is_idle}
use singboxhub.Sampler.Account.{accum_at, marks, IsCounted, AreCounted}
use singboxhub.Sampler.Events.{
  Event, traffic, frame, online, offline, flush, run, reported_up, reported_down, read_up,
  read_down, run_conserves_traffic,
}
use singboxhub.Sampler.Sound.{IsSound, IsSane}
use singboxhub.Sampler.Ledger.{
  charge_up, charge_down, charge_new, charges, reported, run_conserves_ip,
}

abbrev first_sight : Connection
first_sight = record { id = "c1"; upload = 100; download = 2000; source_ip = "10.0.0.1" }

abbrev grown : Connection
grown = record { id = "c1"; upload = 150; download = 2600; source_ip = "10.0.0.1" }

abbrev other_address : Connection
other_address = record { id = "c2"; upload = 7; download = 9; source_ip = "10.0.0.2" }

abbrev frame_1 : List Connection
frame_1 = first_sight ∷ []

abbrev frame_2 : List Connection
frame_2 = grown ∷ other_address ∷ []

abbrev events : List Event
events =
    online "1.8" "rule" (some 4096) 90
    ∷ traffic (record { up = 30; down = 500 })
    ∷ frame frame_1
    ∷ flush 100
    ∷ frame frame_2
    ∷ traffic (record { up = 5; down = 80 })
    ∷ offline none
    ∷ flush 160
    ∷ []

abbrev at_start : Worker
at_start = new_worker "node"

-- After the first frame: one connection from 10.0.0.1 with a mark.
abbrev busy : Worker
busy = record at_start {
  sum_up = 30;
  sum_down = 500;
  last_seen = ("c1", record { up = 100; down = 2000; ip = "10.0.0.1" }) ∷ [];
  per_ip_active = ("10.0.0.1", 1) ∷ [];
  ip_acc = ("10.0.0.1", record { up = 100; down = 2000; conn_count = 1 }) ∷ [];
}

run_conserves_traffic_example :
    ((reported_up (run events at_start).0 + (run events at_start).1.sum_up) % two64
      ≡ (0 + read_up events) % two64)
    × ((reported_down (run events at_start).0 + (run events at_start).1.sum_down) % two64
        ≡ (0 + read_down events) % two64)
run_conserves_traffic_example = run_conserves_traffic events at_start

below : (n : ℕ) → (h : ltb n two63 ≡ true) → n < two63
below n h = ltb→lt n two63 h

at_start-AreCounted : AreCounted []
unfolding get
at_start-AreCounted = record { at_id = λ id. tt }

at_start-IsSound : IsSound at_start
unfolding get
at_start-IsSound = record {
  unique = tt;
  counted = at_start-AreCounted;
  words = λ j. (omega arith, omega arith);
}

frame_1-IsCounted : All IsCounted frame_1
frame_1-IsCounted = ((below 100 refl, below 2000 refl), tt)

frame_2-IsCounted : All IsCounted frame_2
frame_2-IsCounted = ((below 150 refl, below 2600 refl), ((below 7 refl, below 9 refl), tt))

events-IsSane : All IsSane events
events-IsSane = (tt, (tt, (frame_1-IsCounted, (tt, (frame_2-IsCounted, (tt, (tt, (tt, tt))))))))

run_conserves_ip_example :
    ((reported (λ d. d.up_delta) "10.0.0.1" (run events at_start).0
          + (accum_at "10.0.0.1" (run events at_start).1.ip_acc).up)
        % two64
      ≡ ((accum_at "10.0.0.1" []).up + charges charge_up "10.0.0.1" (marks []) events) % two64)
    × ((reported (λ d. d.down_delta) "10.0.0.1" (run events at_start).0
            + (accum_at "10.0.0.1" (run events at_start).1.ip_acc).down)
          % two64
        ≡ ((accum_at "10.0.0.1" []).down + charges charge_down "10.0.0.1" (marks []) events)
          % two64)
    × (reported (λ d. d.conn_count) "10.0.0.1" (run events at_start).0
          + (accum_at "10.0.0.1" (run events at_start).1.ip_acc).conn_count
        ≡ (accum_at "10.0.0.1" []).conn_count + charges charge_new "10.0.0.1" (marks []) events)
run_conserves_ip_example =
    run_conserves_ip "10.0.0.1" events at_start events-IsSane at_start-IsSound

busy_not_idle : is_idle busy ≡ false
unfolding is_idle
busy_not_idle = refl
