-- ===== src/Sampler.antt =====
-- backend/internal/sampler/worker.go: the live state of one node, its per-source-IP accumulators,
-- and the batch that a flush drains.
pub mod Drain
pub mod Events
pub mod Account
pub mod Marks
pub mod Flush
pub mod Sound
pub mod Ledger
mod Tests
use mathlib.Core.List.{flat_map}
use singboxhub.Prelude.{
  ℕ, ◌+◌, ◌-◌, ◌%◌, String, ◌≡◌, Bool, true, false, ◌&&◌, ◌||◌, Option, none, some, List, [], ◌∷◌,
  map, ltb, ◌==◌, str_eq, if◌then◌else◌, length, not,
}
use singboxhub.Prelude.Word.{add64, sub64, is_neg, is_pos, slt}
use singboxhub.Prelude.Dict.{Dict, get, put, total}

-- hub.go. `active_connections` is filled by `snapshot`; byte values are int64 patterns.
pub record LiveStatus : Type 0 where
  pub online : Bool
  pub version : String
  pub mode : String
  pub up_bps : ℕ
  pub down_bps : ℕ
  pub memory_bytes : ℕ
  pub has_memory : Bool
  pub active_connections : ℕ
  pub last_error : String
  pub last_online_at : ℕ

pub record ConnMark : Type 0 where
  pub up : ℕ
  pub down : ℕ
  pub ip : String

pub record IpAccum : Type 0 where
  pub up : ℕ
  pub down : ℕ
  pub conn_count : ℕ

-- The fields of `clash.Connection` that the worker reads.
pub record Connection : Type 0 where
  pub id : String
  pub upload : ℕ
  pub download : ℕ
  pub source_ip : String

pub record TrafficMessage : Type 0 where
  pub up : ℕ
  pub down : ℕ

-- The sampling state; the client, the logger and the goroutine handles are left out.
pub record Worker : Type 0 where
  pub node_id : String
  pub state : LiveStatus
  pub per_ip_active : Dict ℕ
  pub last_seen : Dict ConnMark
  pub ip_acc : Dict IpAccum
  pub sum_up : ℕ
  pub sum_down : ℕ
  pub peak_up : ℕ
  pub peak_down : ℕ
  pub max_conn : ℕ

pub record TrafficSample : Type 0 where
  pub node_id : String
  pub ts : ℕ
  pub up_bytes : ℕ
  pub down_bytes : ℕ
  pub peak_up_bps : ℕ
  pub peak_down_bps : ℕ
  pub max_connections : ℕ

pub record RollupRow : Type 0 where
  pub node_id : String
  pub interval : String
  pub bucket_start : ℕ
  pub up_bytes : ℕ
  pub down_bytes : ℕ
  pub peak_up_bps : ℕ
  pub peak_down_bps : ℕ
  pub max_connections : ℕ

pub record IpDelta : Type 0 where
  pub node_id : String
  pub source_ip : String
  pub up_delta : ℕ
  pub down_delta : ℕ
  pub conn_count : ℕ
  pub active : ℕ
  pub seen_at : ℕ

-- The three results of `Drain`.
pub record Batch : Type 0 where
  pub samples : List TrafficSample
  pub rollups : List RollupRow
  pub deltas : List IpDelta

abbrev pub no_status : LiveStatus
no_status = record {
  online = false;
  version = "";
  mode = "";
  up_bps = 0;
  down_bps = 0;
  memory_bytes = 0;
  has_memory = false;
  active_connections = 0;
  last_error = "";
  last_online_at = 0;
}

abbrev pub new_worker : String → Worker
new_worker id = record {
  node_id = id;
  state = no_status;
  per_ip_active = [];
  last_seen = [];
  ip_acc = [];
  sum_up = 0;
  sum_down = 0;
  peak_up = 0;
  peak_down = 0;
  max_conn = 0;
}

abbrev pub no_accum : IpAccum
no_accum = record { up = 0; down = 0; conn_count = 0 }

-- A missing key reads as the zero value.
abbrev pub count_or_zero : Option ℕ → ℕ
count_or_zero none = 0
count_or_zero (some n) = n

abbrev pub accum_or_zero : Option IpAccum → IpAccum
accum_or_zero none = no_accum
accum_or_zero (some a) = a

pub active_connections : Worker → ℕ
active_connections w = total (λ n. n) w.per_ip_active

pub snapshot : Worker → LiveStatus
unfolding active_connections
snapshot w = record w.state { active_connections = active_connections w }

pub set_mode : String → Worker → Worker
set_mode mode w = record w { state = record w.state { mode = mode } }

pub accumulate_traffic : TrafficMessage → Worker → Worker
accumulate_traffic msg w = record w {
  state = record w.state { up_bps = msg.up; down_bps = msg.down };
  sum_up = add64 w.sum_up msg.up;
  sum_down = add64 w.sum_down msg.down;
  peak_up = if slt w.peak_up msg.up then msg.up else w.peak_up;
  peak_down = if slt w.peak_down msg.down then msg.down else w.peak_down;
}

-- `accFor` as what it does to the map: an absent entry is created.
pub acc_for : String → Dict IpAccum → Dict IpAccum
acc_for ip acc = elim (get ip acc) [ none ↦ put ip no_accum acc | some a ↦ acc ]

-- The writes through the pointer that `accFor` returns.
pub add_to : String → ℕ → ℕ → ℕ → Dict IpAccum → Dict IpAccum
unfolding acc_for
add_to ip up down conns acc =
    let m = acc_for ip acc in
    let a = accum_or_zero (get ip m) in
    put ip
      (record { up = add64 a.up up; down = add64 a.down down; conn_count = a.conn_count + conns }) m

-- `dUp`, `dDown`: a counter that fell was reset, and counts from zero.
pub delta : ℕ → ℕ → ℕ
delta now last = let d = sub64 now last in if is_neg d then now else d

-- One connection against its mark in the previous frame.
pub account : Option ConnMark → Connection → Dict IpAccum → Dict IpAccum
unfolding add_to delta
account none c acc = add_to c.source_ip c.upload c.download 1 acc
account (some last) c acc =
    let d_up = delta c.upload last.up in
    let d_down = delta c.download last.down in
    if is_pos d_up || is_pos d_down then add_to c.source_ip d_up d_down 0 acc else acc

-- The loop variables of `applySnapshot`.
pub record Frame : Type 0 where
  pub cur : Dict ConnMark
  pub per_ip : Dict ℕ
  pub acc : Dict IpAccum

pub see : Dict ConnMark → Connection → Frame → Frame
unfolding account
see seen c f = if str_eq c.source_ip "" then f else record {
  cur = put c.id (record { up = c.upload; down = c.download; ip = c.source_ip }) f.cur;
  per_ip = put c.source_ip (count_or_zero (get c.source_ip f.per_ip) + 1) f.per_ip;
  acc = account (get c.id seen) c f.acc;
}

pub see_all : Dict ConnMark → List Connection → Frame → Frame
unfolding see
see_all seen [] f = f
see_all seen (c ∷ cs) f = see_all seen cs (see seen c f)

-- Addresses whose number of connections changed get an entry.
pub note_changes : Dict ℕ → Dict ℕ → Dict IpAccum → Dict IpAccum
unfolding acc_for
note_changes [] now acc = acc
note_changes ((ip, count) ∷ before) now acc =
    note_changes before now (if count_or_zero (get ip now) == count then acc else acc_for ip acc)

pub apply_snapshot : List Connection → Worker → Worker
unfolding see_all note_changes
apply_snapshot conns w =
    let f = see_all w.last_seen conns (record { cur = []; per_ip = []; acc = w.ip_acc }) in
    record w {
      ip_acc = note_changes w.per_ip_active f.per_ip f.acc;
      last_seen = f.cur;
      per_ip_active = f.per_ip;
      max_conn = if ltb w.max_conn (length conns) then length conns else w.max_conn;
    }

-- `mem` is the `Inuse` of a memory frame, when one was read.
pub mark_online : String → String → Option ℕ → ℕ → Worker → Worker
mark_online version mode mem now w =
    let st = record w.state {
      online = true;
      version = version;
      mode = mode;
      last_error = "";
      last_online_at = now;
    } in
    record w {
      state = elim mem [
        | none ↦ st
        | some inuse ↦ record st { memory_bytes = inuse; has_memory = true }
      ];
    }

-- Every address that was active gets an entry.
pub note_all : Dict ℕ → Dict IpAccum → Dict IpAccum
unfolding acc_for
note_all [] acc = acc
note_all ((ip, n) ∷ rest) acc = note_all rest (acc_for ip acc)

pub mark_offline : Option String → Worker → Worker
unfolding note_all
mark_offline error w = record w {
  state = record w.state {
    online = false;
    up_bps = 0;
    down_bps = 0;
    last_error = elim error [ none ↦ w.state.last_error | some e ↦ e ];
  };
  ip_acc = note_all w.per_ip_active w.ip_acc;
  per_ip_active = [];
}
