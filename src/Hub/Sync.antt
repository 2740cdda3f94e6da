-- ===== src/Hub/Sync.antt =====
-- hub.go, the first loop of `Reload`: which workers stay.
use singboxhub.Prelude.{
  ℕ, String, ◌≡◌, refl, ap, ◌∙◌, Bool, true, false, ◌&&◌, Option, none, some, [], ◌∷◌, ◌==◌, str_eq,
  eq_iff, if◌then◌else◌, Bool-cases, inl, inr,
}
use singboxhub.Prelude.Dict.{Dict, get, IsUnique}
use singboxhub.Hub.{NodeRow, Running, flush_worker, stop_worker, sync_worker, sync_workers, cons_if}

-- A worker that survives: it talks to the node's current address with its current secret.
abbrev pub is_current : NodeRow → Running → Bool
is_current n r = str_eq n.api_url r.api_url && str_eq n.api_secret_enc r.api_secret_enc

-- The worker of a desired node afterwards, from the one before.
abbrev pub kept : ℕ → ℕ → Running → Running
kept now interval r =
    if r.conn_interval == interval
    then r
    else record r { conn_interval = interval; worker = (flush_worker now (stop_worker r.worker)).0 }

-- What is left of a worker by the first loop.
abbrev pub synced : ℕ → ℕ → Option Running → Option NodeRow → Option Running
synced now interval none want = none
synced now interval (some r) none = none
synced now interval (some r) (some n) = if is_current n r then some (kept now interval r) else none

sync_worker_lem :
    (now interval : ℕ) (nodes desired : Dict NodeRow) (id : String) (r : Running)
    → (sync_worker now interval nodes desired id r).0
      ≡ synced now interval (some r) (get id desired)
unfolding sync_worker
sync_worker_lem now interval nodes desired id r = at (get id desired) refl
  where
    at :
        (o : Option NodeRow)
        → get id desired ≡ o
        → (sync_worker now interval nodes desired id r).0 ≡ synced now interval (some r) o
    at none e = rw (e, sync_worker) refl
    at (some n) e =
        rw (e, sync_worker)
          (elim (Bool-cases (str_eq n.api_url r.api_url)) [
            | inr a ↦ rw a refl
            | inl a ↦ elim (Bool-cases (str_eq n.api_secret_enc r.api_secret_enc)) [
              | inr b ↦ rw (a, b) refl
              | inl b ↦ elim (Bool-cases (r.conn_interval == interval)) [
                | inl c ↦ rw (a, b, c) refl
                | inr c ↦ rw (a, b, c) refl
              ]
            ]
          ])

abbrev over : Bool → Option Running → Option Running → Option Running
over b none rest = rest
over b (some r) rest = if b then some r else rest

get-cons_if :
    (i id : String) (o : Option Running) (rest : Dict Running)
    → get id (cons_if i o rest) ≡ over (str_eq i id) o (get id rest)
unfolding get
get-cons_if i id none rest = refl
get-cons_if i id (some r) rest = refl

over-synced :
    (now interval : ℕ) (b : Bool) (r : Running) (want wanted : Option NodeRow)
    (tail : Option Running)
    → (b ≡ true → (want ≡ wanted) × (tail ≡ none))
    → over b (synced now interval (some r) want) (synced now interval tail wanted)
      ≡ synced now interval (if b then some r else tail) wanted
over-synced now interval true r want wanted tail h =
    ap (λ t. over true (synced now interval (some r) want) (synced now interval t wanted))
      (h refl).1
    ∙ ap (λ w. over true (synced now interval (some r) w) none) (h refl).0
    ∙ pick (synced now interval (some r) wanted)
  where
    pick : (o : Option Running) → over true o none ≡ o
    pick none = refl
    pick (some r') = refl
over-synced now interval false r want wanted tail h =
    ignore (synced now interval (some r) want) (synced now interval tail wanted)
  where
    ignore : (o x : Option Running) → over false o x ≡ x
    ignore none x = refl
    ignore (some r') x = refl

pub get-sync_workers :
    (now interval : ℕ) (nodes desired : Dict NodeRow) (rs : Dict Running) (id : String)
    → IsUnique rs
    → get id (sync_workers now interval nodes desired rs).0
      ≡ synced now interval (get id rs) (get id desired)
unfolding sync_workers get
get-sync_workers now interval nodes desired [] id u = refl
get-sync_workers now interval nodes desired ((i, r) ∷ rs) id u =
    get-cons_if i id (sync_worker now interval nodes desired i r).0
      (sync_workers now interval nodes desired rs).0
    ∙ ap (λ o. over (str_eq i id) o (get id (sync_workers now interval nodes desired rs).0))
        (sync_worker_lem now interval nodes desired i r)
    ∙ ap (λ o. over (str_eq i id) (synced now interval (some r) (get i desired)) o)
        (get-sync_workers now interval nodes desired rs id u.1)
    ∙ over-synced now interval (str_eq i id) r (get i desired) (get id desired) (get id rs)
        (λ same. let e = (eq_iff i id).0 same in (rw e refl, rw e at u.0))
