-- ===== src/Hub/Reload.antt =====
-- hub.go, `Reload`: which workers run afterwards.
use singboxhub.Prelude.{
  ℕ, String, ◌≡◌, refl, ap, ◌∙◌, ◌⊎◌, Bool, true, false, Option, none, some, [], ◌∷◌, arith, str_eq,
  eq_iff, if◌then◌else◌, Bool-cases, inl, inr,
}
use singboxhub.Prelude.Dict.{Dict, get, has, get-put, IsUnique}
use singboxhub.Hub.{
  NodeRow, Running, Hub, is_desired, desired_nodes, sync_workers, start_worker, start_one,
  start_missing, reload,
}
use singboxhub.Hub.Sync.{is_current, kept, synced, get-sync_workers}

abbrev pub fresh : (String → Bool) → ℕ → String → NodeRow → Option Running
fresh decrypts interval id n =
    if decrypts n.api_secret_enc then some (start_worker interval id n) else none

abbrev pub reloaded :
    (String → Bool) → ℕ → ℕ → String → Option NodeRow → Option Running → Option Running
reloaded decrypts now interval id none old = none
reloaded decrypts now interval id (some n) none =
    if is_desired n then fresh decrypts interval id n else none
reloaded decrypts now interval id (some n) (some r) =
    if is_desired n
    then (if is_current n r then some (kept now interval r) else fresh decrypts interval id n)
    else none

get-desired_nodes :
    (nodes : Dict NodeRow) (id : String)
    → IsUnique nodes
    → get id (desired_nodes nodes)
      ≡ (elim (get id nodes) [ none ↦ none | some n ↦ if is_desired n then some n else none ])
unfolding get desired_nodes
get-desired_nodes [] id u = refl
get-desired_nodes ((i, n) ∷ nodes) id u =
    ground (arith, get-desired_nodes nodes id u.1, eq_iff i id, u.0)

desired_nodes-IsUnique : (nodes : Dict NodeRow) → IsUnique nodes → IsUnique (desired_nodes nodes)
unfolding desired_nodes
desired_nodes-IsUnique [] u = tt
desired_nodes-IsUnique ((i, n) ∷ nodes) u = elim (Bool-cases (is_desired n)) [
  | inl a ↦ rw a (get-desired_nodes nodes i u.1 ∙ rw u.0, desired_nodes-IsUnique nodes u.1)
  | inr a ↦ rw a (desired_nodes-IsUnique nodes u.1)
]

abbrev or_else : Option Running → Option Running → Option Running
or_else none o = o
or_else (some r) o = some r

get-start_one :
    (decrypts : String → Bool) (interval : ℕ) (i id : String) (n : NodeRow) (workers : Dict Running)
    → get id (start_one decrypts interval i n workers)
      ≡ or_else (get id workers) (if str_eq i id then fresh decrypts interval i n else none)
unfolding start_one has
get-start_one decrypts interval i id n workers =
    at (get i workers) refl (Bool-cases (decrypts n.api_secret_enc)) (Bool-cases (str_eq i id))
  where
    stay : (o : Option Running) → o ≡ or_else o none
    stay none = refl
    stay (some r) = refl

    at :
        (o : Option Running)
        → get i workers ≡ o
        → (decrypts n.api_secret_enc ≡ true) ⊎ (decrypts n.api_secret_enc ≡ false)
        → (str_eq i id ≡ true) ⊎ (str_eq i id ≡ false)
        → get id (start_one decrypts interval i n workers)
          ≡ or_else (get id workers) (if str_eq i id then fresh decrypts interval i n else none)
    at (some r) e d (inl same) =
        rw (e, start_one, has, same) (rw (rw ((eq_iff i id).0 same) at e) refl)
    at (some r) e d (inr other) = rw (e, start_one, has, other) (stay (get id workers))
    at none e (inl d) (inl same) =
        rw (e, start_one, has, d, same)
          (get-put i id (start_worker interval i n) workers
            ∙ rw (same, rw ((eq_iff i id).0 same) at e) refl)
    at none e (inl d) (inr other) =
        rw (e, start_one, has, d, other)
          (get-put i id (start_worker interval i n) workers ∙ rw other (stay (get id workers)))
    at none e (inr d) (inl same) = rw (e, start_one, has, d, same) (stay (get id workers))
    at none e (inr d) (inr other) = rw (e, start_one, has, d, other) (stay (get id workers))

started : (String → Bool) → ℕ → String → Option NodeRow → Option Running
started decrypts interval id none = none
started decrypts interval id (some n) = fresh decrypts interval id n

or_else_step :
    (b : Bool) (old a rest : Option Running)
    → (b ≡ true → rest ≡ none)
    → or_else (or_else old (if b then a else none)) rest ≡ or_else old (if b then a else rest)
or_else_step b (some r) a rest h = refl
or_else_step false none a rest h = refl
or_else_step true none none rest h = h refl
or_else_step true none (some r) rest h = refl

get-start_missing :
    (decrypts : String → Bool) (interval : ℕ) (desired : Dict NodeRow) (workers : Dict Running)
    (id : String)
    → IsUnique desired
    → get id (start_missing decrypts interval desired workers)
      ≡ or_else (get id workers) (started decrypts interval id (get id desired))
unfolding start_missing get started
get-start_missing decrypts interval [] workers id u = stay (get id workers)
  where
    stay : (o : Option Running) → o ≡ or_else o none
    stay none = refl
    stay (some r) = refl
get-start_missing decrypts interval ((i, n) ∷ desired) workers id u =
    get-start_missing decrypts interval desired (start_one decrypts interval i n workers) id u.1
    ∙ ap (λ o. or_else o (started decrypts interval id (get id desired)))
        (get-start_one decrypts interval i id n workers)
    ∙ or_else_step (str_eq i id) (get id workers) (fresh decrypts interval i n)
        (started decrypts interval id (get id desired))
        (λ same. rw (rw ((eq_iff i id).0 same) at u.0) refl)
    ∙ elim (Bool-cases (str_eq i id)) [
      | inl same ↦
          rw same (
            ap (λ k. or_else (get id workers) (fresh decrypts interval k n)) ((eq_iff i id).0 same))
      | inr other ↦ rw other refl
    ]

-- A reload of a running hub, when no node and no worker stands twice, leaves for each id exactly: no worker, if
-- the node is missing, disabled or has no API address; the worker that was there, with its counters, if it has
-- the node's current address and secret (stopped, flushed and started again if the interval changed); and a new worker
-- if there was none or it was out of date, unless the secret cannot be decrypted.
pub reload-get :
    (decrypts : String → Bool) (now interval : ℕ) (nodes : Dict NodeRow) (hub : Hub) (id : String)
    → IsUnique nodes
    → IsUnique hub.workers
    → get id (reload true decrypts now interval nodes hub).workers
      ≡ reloaded decrypts now interval id (get id nodes) (get id hub.workers)
unfolding reload started
reload-get decrypts now interval nodes hub id u v =
    get-start_missing decrypts interval (desired_nodes nodes)
      (sync_workers now interval nodes (desired_nodes nodes) hub.workers).0 id
      (desired_nodes-IsUnique nodes u)
    ∙ rw
        (
          get-sync_workers now interval nodes (desired_nodes nodes) hub.workers id v,
          get-desired_nodes nodes id u,
        )
        (whole (get id nodes) (get id hub.workers))
  where
    whole :
        (o : Option NodeRow) (old : Option Running)
        → or_else
            (synced now interval old
              (elim o [ none ↦ none | some n ↦ if is_desired n then some n else none ]))
            (started decrypts interval id
              (elim o [ none ↦ none | some n ↦ if is_desired n then some n else none ]))
          ≡ reloaded decrypts now interval id o old
    whole none none = refl
    whole none (some r) = refl
    whole (some n) none = elim (Bool-cases (is_desired n)) [ inl a ↦ rw a refl | inr a ↦ rw a refl ]
    whole (some n) (some r) = elim (Bool-cases (is_desired n)) [
      | inr a ↦ rw a refl
      | inl a ↦ rw a (elim (Bool-cases (is_current n r)) [ inl b ↦ rw b refl | inr b ↦ rw b refl ])
    ]
