-- ===== src/Monitor.antt =====
-- backend/internal/monitor/icmp.go: one round over the imported nodes, with the statements of
-- backend/internal/store/latency.go that it uses. The nodes table is a map by id. What a ping meets
-- (decryption, DNS, the raw socket, the reply) is an argument.
pub mod Round
pub mod Unique
pub mod Rounds
mod Tests
use singboxhub.Prelude.{
  ℕ, ◌+◌, String, Bool, true, false, not, ◌&&◌, ◌||◌, Option, none, some, List, [], ◌∷◌, leb, ltb,
  ◌==◌, str_eq, if◌then◌else◌,
}
use singboxhub.Prelude.Int.{ℤ, pos, negsuc, pos_part, neg_part, ltb_ℤ, leb_ℤ}
use singboxhub.Prelude.Dict.{Dict, get, put}

-- The columns that the monitor reads or writes; an update of the row keeps the others.
pub record Node : Type 0 where
  pub source : String
  pub outbound_enc : String
  pub enabled : Bool
  pub latency_ms : ℤ
  pub latency_fail_count : ℕ

pub record Settings : Type 0 where
  pub threshold_ms : ℕ
  pub consecutive : ℕ

-- What the probe of one stored outbound meets: no server in it, an unresolved name, no reply, or a
-- reply after some milliseconds.
pub data Probe : Type 0 where
  no_server unresolved no_reply : Probe
  reply : ℕ → Probe

-- Whether the process may open raw sockets, and the probes.
pub record World : Type 0 where
  pub permitted : Bool
  pub probe : String → Probe

pub record Monitor : Type 0 where
  pub icmp_disabled : Bool

-- `latency = -1`
abbrev pub failure : ℤ
failure = negsuc 0

abbrev pub reply_ms : Probe → ℤ
reply_ms (reply ms) = pos ms
reply_ms _ = failure

-- The rest of `ping` after the name was resolved; a socket that cannot be opened turns pinging off
-- for good.
pub exchange : World → ℤ → Monitor → ℤ × Monitor
exchange world ms m =
    if m.icmp_disabled
    then (failure, m)
    else if not world.permitted
    then (failure, record { icmp_disabled = true })
    else (ms, m)

-- `ping`, every error as -1, the way its caller reads it. The code looks at `icmpDisabled` before it
-- resolves the name; both give -1 and change nothing, so an unresolved name may come first here.
pub ping : World → Probe → Monitor → ℤ × Monitor
unfolding exchange
ping world unresolved m = (failure, m)
ping world p m = exchange world (reply_ms p) m

pub is_bad : Settings → ℤ → Bool
is_bad s latency = ltb_ℤ latency (pos 0) || leb_ℤ (pos s.threshold_ms) latency

pub next_fail_count : Settings → ℤ → ℕ → ℕ
unfolding is_bad
next_fail_count s latency count = if is_bad s latency then count + 1 else 0

-- `UpdateNodeLatency`; a missing row is left missing.
pub update_node_latency : String → ℤ → ℕ → Dict Node → Dict Node
update_node_latency id latency count table = elim (get id table) [
  | none ↦ table
  | some n ↦ put id (record n { latency_ms = latency; latency_fail_count = count }) table
]

-- `GetNode`, then `UpdateNode` with the flag changed.
pub set_enabled : String → Bool → Dict Node → Dict Node
set_enabled id flag table = elim (get id table) [
  | none ↦ table
  | some n ↦ put id (record n { enabled = flag }) table
]

pub record State : Type 0 where
  pub monitor : Monitor
  pub table : Dict Node

-- `newFailCount >= settings.ICMPAutoDisableConsecutive && n.Enabled`
pub auto_disable : Settings → String → Node → ℕ → Dict Node → Dict Node
unfolding set_enabled
auto_disable s id n count table =
    if leb s.consecutive count && n.enabled then set_enabled id false table else table

-- `latency >= 0 && latency < threshold && !n.Enabled && newFailCount == 0`
pub auto_enable : Settings → String → Node → ℤ → ℕ → Dict Node → Dict Node
unfolding set_enabled
auto_enable s id n latency count table =
    if leb_ℤ (pos 0) latency
      && (ltb_ℤ latency (pos s.threshold_ms) && (not n.enabled && count == 0))
    then set_enabled id true table
    else table

-- The end of the loop body, on the row `n` as the round read it.
pub apply_latency : Settings → String → Node → ℤ → Dict Node → Dict Node
unfolding next_fail_count update_node_latency auto_disable auto_enable
apply_latency s id n latency table =
    let count = next_fail_count s latency n.latency_fail_count in
    auto_enable s id n latency count
      (auto_disable s id n count (update_node_latency id latency count table))

pub check_node : Settings → World → String → Node → State → State
unfolding ping apply_latency
check_node s world id n st = elim (world.probe n.outbound_enc) [
  | no_server ↦ st
  | p ↦
      let (latency, m) = ping world p st.monitor in
      record { monitor = m; table = apply_latency s id n latency st.table }
]

-- WHERE enabled = 1 AND source != '' AND outbound_enc != ''
abbrev pub is_monitored : Node → Bool
is_monitored n = n.enabled && (not (str_eq n.source "") && not (str_eq n.outbound_enc ""))

pub list_monitored : Dict Node → Dict Node
list_monitored [] = []
list_monitored ((id, n) ∷ table) =
    let rest = list_monitored table in if is_monitored n then (id, n) ∷ rest else rest

pub check_each : Settings → World → Dict Node → State → State
unfolding check_node
check_each s world [] st = st
check_each s world ((id, n) ∷ nodes) st = check_each s world nodes (check_node s world id n st)

-- `checkAllNodes`
pub check_all_nodes : Settings → World → State → State
unfolding list_monitored check_each
check_all_nodes s world st = check_each s world (list_monitored st.table) st

-- `monitorLoop`: the settings are read again before each round.
pub run_rounds : List (Settings × World) → State → State
unfolding check_all_nodes
run_rounds [] st = st
run_rounds ((s, world) ∷ rounds) st = run_rounds rounds (check_all_nodes s world st)
