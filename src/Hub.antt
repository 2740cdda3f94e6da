-- ===== src/Hub.antt =====
-- backend/internal/sampler/hub.go: the set of workers, and how a reload brings it in line with the
-- nodes. The database answers every query; what it is told is kept as a list, in order. Go leaves the order
-- of a map's iteration open; here it is the order of the list.
pub mod Sync
pub mod Reload
mod Tests
use singboxhub.Prelude.{
  ℕ, ◌+◌, String, Bool, true, false, not, ◌&&◌, ◌||◌, Option, none, some, List, [], ◌∷◌, ◌++◌, ◌==◌,
  str_eq, if◌then◌else◌,
}
use singboxhub.Prelude.Word.{add64}
use singboxhub.Prelude.Dict.{Dict, get, put, has}
use singboxhub.Sampler.{Worker, Batch, LiveStatus, new_worker, snapshot, set_mode, mark_offline}
use singboxhub.Sampler.Drain.{drain}

-- The columns of a node that the hub reads.
pub record NodeRow : Type 0 where
  pub enabled : Bool
  pub api_url : String
  pub api_secret_enc : String

-- A worker with what its goroutine was started with.
pub record Running : Type 0 where
  pub api_url : String
  pub api_secret_enc : String
  pub conn_interval : ℕ
  pub worker : Worker

-- What the hub tells the store.
pub data Write : Type 0 where
  last_online : String → ℕ → Write
  flushed : Batch → Write
  active_cleared : String → Write

pub record Hub : Type 0 where
  pub workers : Dict Running
  pub writes : List Write

abbrev pub is_empty {ℓ} : {A : Type ℓ} → List A → Bool
is_empty [] = true
is_empty (x ∷ xs) = false

-- `flushWorker`: the worker after the drain, and the writes.
pub flush_worker : ℕ → Worker → Worker × List Write
flush_worker now w =
    let (batch, w') = drain now w in
    let online = if (snapshot w').online then last_online w.node_id now ∷ [] else [] in
    let rows = if is_empty batch.samples && is_empty batch.deltas then [] else flushed batch ∷ [] in
    (w', online ++ rows)

-- `Stop` of a running worker waits for its goroutine, which marks the node offline.
abbrev pub stop_worker : Worker → Worker
stop_worker w = mark_offline none w

-- The nodes that are to be sampled.
abbrev pub is_desired : NodeRow → Bool
is_desired n = n.enabled && not (str_eq n.api_url "")

pub desired_nodes : Dict NodeRow → Dict NodeRow
desired_nodes [] = []
desired_nodes ((id, n) ∷ nodes) =
    let rest = desired_nodes nodes in if is_desired n then (id, n) ∷ rest else rest

-- What the first loop makes of one worker: none if it is dropped.
pub sync_worker :
    ℕ → ℕ → Dict NodeRow → Dict NodeRow → String → Running → Option Running × List Write
unfolding flush_worker
sync_worker now interval nodes desired id r =
    let dropped =
      (if has id nodes then (flush_worker now (stop_worker r.worker)).1 else [])
      ++ active_cleared id ∷ [] in
    elim (get id desired) [
      | none ↦ (none, dropped)
      | some want ↦
          if not (str_eq want.api_url r.api_url)
            || not (str_eq want.api_secret_enc r.api_secret_enc)
          then (none, dropped)
          else if not (r.conn_interval == interval)
          then (
            some (record r {
              conn_interval = interval;
              worker = (flush_worker now (stop_worker r.worker)).0;
            }),
            (flush_worker now (stop_worker r.worker)).1,
          )
          else (some r, [])
    ]

abbrev pub cons_if : String → Option Running → Dict Running → Dict Running
cons_if id none rest = rest
cons_if id (some r) rest = (id, r) ∷ rest

pub sync_workers : ℕ → ℕ → Dict NodeRow → Dict NodeRow → Dict Running → Dict Running × List Write
unfolding sync_worker
sync_workers now interval nodes desired [] = ([], [])
sync_workers now interval nodes desired ((id, r) ∷ rs) =
    let (o, ws) = sync_worker now interval nodes desired id r in
    let (rest, ws') = sync_workers now interval nodes desired rs in (cons_if id o rest, ws ++ ws')

abbrev pub start_worker : ℕ → String → NodeRow → Running
start_worker interval id n = record {
  api_url = n.api_url;
  api_secret_enc = n.api_secret_enc;
  conn_interval = interval;
  worker = new_worker id;
}

-- The second loop; `decrypts` says which stored secrets the key opens.
pub start_one : (String → Bool) → ℕ → String → NodeRow → Dict Running → Dict Running
start_one decrypts interval id n workers =
    if has id workers || not (decrypts n.api_secret_enc)
    then workers
    else put id (start_worker interval id n) workers

pub start_missing : (String → Bool) → ℕ → Dict NodeRow → Dict Running → Dict Running
unfolding start_one
start_missing decrypts interval [] workers = workers
start_missing decrypts interval ((id, n) ∷ desired) workers =
    start_missing decrypts interval desired (start_one decrypts interval id n workers)

-- `Reload` of a hub that runs; one that was stopped or never started does nothing.
pub reload : Bool → (String → Bool) → ℕ → ℕ → Dict NodeRow → Hub → Hub
unfolding desired_nodes sync_workers start_missing
reload false decrypts now interval nodes hub = hub
reload true decrypts now interval nodes hub =
    let desired = desired_nodes nodes in
    let (kept, writes) = sync_workers now interval nodes desired hub.workers in
    record { workers = start_missing decrypts interval desired kept; writes = hub.writes ++ writes }

-- `Status` and `SetNodeMode`
pub status : String → Hub → Option LiveStatus
status id hub = elim (get id hub.workers) [ none ↦ none | some r ↦ some (snapshot r.worker) ]

pub set_node_mode : String → String → Hub → Hub
set_node_mode id mode hub = elim (get id hub.workers) [
  | none ↦ hub
  | some r ↦ record hub {
    workers = put id (record r { worker = set_mode mode r.worker }) hub.workers;
  }
]

pub record Rates : Type 0 where
  pub up_bps : ℕ
  pub down_bps : ℕ
  pub online_count : ℕ
  pub total_workers : ℕ

abbrev pub add_rates : LiveStatus → Rates → Rates
add_rates st sum =
    if st.online
    then record {
      up_bps = add64 sum.up_bps st.up_bps;
      down_bps = add64 sum.down_bps st.down_bps;
      online_count = sum.online_count + 1;
      total_workers = sum.total_workers + 1;
    }
    else record sum { total_workers = sum.total_workers + 1 }

pub aggregate_from : Dict Running → Rates → Rates
aggregate_from [] sum = sum
aggregate_from ((id, r) ∷ rs) sum = aggregate_from rs (add_rates (snapshot r.worker) sum)

pub aggregate : Hub → Rates
unfolding aggregate_from
aggregate hub =
    aggregate_from hub.workers
      (record { up_bps = 0; down_bps = 0; online_count = 0; total_workers = 0 })

-- `flushOnce`
pub flush_all : ℕ → Dict Running → Dict Running × List Write
unfolding flush_worker
flush_all now [] = ([], [])
flush_all now ((id, r) ∷ rs) =
    let (w, ws) = flush_worker now r.worker in
    let (rest, ws') = flush_all now rs in ((id, record r { worker = w }) ∷ rest, ws ++ ws')

pub flush_once : ℕ → Hub → Hub
unfolding flush_all
flush_once now hub =
    let (workers, writes) = flush_all now hub.workers in
    record { workers = workers; writes = hub.writes ++ writes }

-- The loop of `Stop`: every worker is stopped, drained and removed.
pub stop_all : ℕ → Dict Running → List Write
unfolding flush_worker
stop_all now [] = []
stop_all now ((id, r) ∷ rs) = (flush_worker now (stop_worker r.worker)).1 ++ stop_all now rs

pub stop : ℕ → Hub → Hub
unfolding stop_all
stop now hub = record {
  workers = [];
  writes = hub.writes ++ (stop_all now hub.workers ++ active_cleared "" ∷ []);
}
