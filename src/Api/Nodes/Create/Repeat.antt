-- ===== src/Api/Nodes/Create/Repeat.antt =====
-- nodes.go, handleCreateNode: a request that is repeated under its idempotency key.
use singboxhub.Prelude.{
  ℕ, ◌-◌, ◌≤◌, ◌≡◌, ◌≢◌, refl, ap, String, Bool, true, false, Option, none, some, List, [], ◌∷◌,
  arith, str_eq, eq_iff, if◌then◌else◌, Bool-cases, inl, inr,
}
use mathlib.Core.Path.{subst}
use singboxhub.Prelude.Dict.{get, get-put_self}
use singboxhub.Store.Nodes.{Node, Result, ok, fail, create_node}
use singboxhub.Api.Idempotency.{IdemEntry, IdempotencyStore, get_entry, put_entry, is_stale}
use singboxhub.Api.Nodes.{ImportStats, Outcome, failed, synced, import_proxies_for_node}
use singboxhub.Api.Nodes.Input.{Input, FieldErr, validate_node_input}
use singboxhub.Api.Nodes.Create.{
  World, Source, Answer, replayed, invalid, internal, conflict, upstream, created, State, idem_key,
  respond, after_import, import_source, after_create, sealed, create_valid, handle_create_node,
  replay,
}

module _ (now user : ℕ) (key : String) (st : State) where
  -- A node that was created stands under the key; any other answer leaves the idempotency store, and
  -- a refusal the tables as well.
  abbrev pub IsNoted : Answer × State → Type 0
  IsNoted (created entry, s) =
      (get (idem_key user key) s.idem.entries ≡ some entry)
      × (entry.created ≡ now)
      × (s.idem.ttl ≡ st.idem.ttl)
  IsNoted (upstream, s) = s.idem ≡ st.idem
  IsNoted (replayed entry, s) = s ≡ st
  IsNoted (invalid errs, s) = s ≡ st
  IsNoted (internal, s) = s ≡ st
  IsNoted (conflict, s) = s ≡ st

  module _ (w : World) (keyed : str_eq key "" ≡ false) where
    respond-IsNoted :
        (id : String) (n : Node) (stats : Option ImportStats) (s : State)
        → s.idem ≡ st.idem
        → IsNoted (respond w now user key id n stats s)
    unfolding respond put_entry
    respond-IsNoted id n stats s same =
        rw keyed (get-put_self (idem_key user key) _ _, refl, ap (λ i. i.ttl) same)

    after_import-IsNoted :
        (id : String) (n : Node) (s : State) (o : Outcome)
        → s.idem ≡ st.idem
        → IsNoted (after_import w now user key id n s o)
    after_import-IsNoted id n s (failed t) same = same
    after_import-IsNoted id n s (synced stats t) same =
        respond-IsNoted id n (some stats) (record s { table = t }) same

    import_source-IsNoted :
        (id : String) (n : Node) (s : State) (o : Option Source)
        → s.idem ≡ st.idem
        → IsNoted (import_source w now user key id n s o)
    import_source-IsNoted id n s none same = same
    import_source-IsNoted id n s (some source) same =
        after_import-IsNoted id n s
          (import_proxies_for_node w.importing id n (str_eq n.outbound_enc "") source.proxies
            source.skips source.modes s.table)
          same

    after_create-IsNoted :
        (id : String) (n : Node) (kce_key : String) (r : Result)
        → IsNoted (after_create w now user key id n kce_key st r)
    after_create-IsNoted id n kce_key (fail why) = refl
    after_create-IsNoted id n kce_key (ok t) = at_test (str_eq n.config_url "")
      where
        at_test :
            (b : Bool)
            → IsNoted (
                if b
                then respond w now user key id n none (record st { table = t })
                else import_source w now user key id
                    (record n { created_at = now; updated_at = now })
                    (record st { table = t })
                    (w.fetch n.config_url kce_key))
        at_test true = respond-IsNoted id n none (record st { table = t }) refl
        at_test false =
            import_source-IsNoted id (record n { created_at = now; updated_at = now })
              (record st { table = t }) (w.fetch n.config_url kce_key) refl

    sealed-IsNoted :
        (go_on : String → String → String → Answer × State) (a b c : Option String)
        → ((x y z : String) → IsNoted (go_on x y z))
        → IsNoted (sealed st go_on a b c)
    sealed-IsNoted go_on (some x) (some y) (some z) h = h x y z
    sealed-IsNoted go_on (some x) (some y) none h = refl
    sealed-IsNoted go_on (some x) none c h = refl
    sealed-IsNoted go_on none b c h = refl

    create_valid-IsNoted :
        (id : String) (input : Input) (errs : List FieldErr)
        → IsNoted (create_valid w now user key id input st errs)
    create_valid-IsNoted id input (e ∷ errs) = refl
    create_valid-IsNoted id input [] =
        sealed-IsNoted _ _ _ _
          (λ a. λ b. λ c. after_create-IsNoted id _ input.kce_key (create_node now id _ st.table))

    handle_create_node-IsNoted :
        (id : String) (input : Input) → IsNoted (handle_create_node w now user key id input st)
    unfolding handle_create_node
    handle_create_node-IsNoted id input =
        rw keyed (at_entry (get_entry (idem_key user key) now st.idem))
      where
        fresh : Answer × State
        fresh = create_valid w now user key id input st (validate_node_input w.is_json input)

        at_entry : (o : Option IdemEntry) → IsNoted (replay o st fresh)
        at_entry none = create_valid-IsNoted id input (validate_node_input w.is_json input)
        at_entry (some entry) = refl

subst-IsNoted :
    (now user : ℕ) (key : String) (st s : State) (a : Answer) (entry : IdemEntry)
    → IsNoted now user key st (a, s)
    → a ≡ created entry
    → IsNoted now user key st (created entry, s)
subst-IsNoted now user key st s a entry h e = subst (λ x. IsNoted now user key st (x, s)) e h

get_entry_lem :
    (key : String) (now : ℕ) (entry : IdemEntry) (s : IdempotencyStore)
    → get key s.entries ≡ some entry
    → is_stale s.ttl now entry ≡ false
    → get_entry key now s ≡ some entry
unfolding get_entry
get_entry_lem key now entry s found live = rw (found, get_entry) (rw live refl)

replay_lem :
    (w : World) (later user : ℕ) (key id : String) (input : Input) (s : State) (entry : IdemEntry)
    → str_eq key "" ≡ false
    → get (idem_key user key) s.idem.entries ≡ some entry
    → is_stale s.idem.ttl later entry ≡ false
    → handle_create_node w later user key id input s ≡ (replayed entry, s)
unfolding handle_create_node
replay_lem w later user key id input s entry keyed found live = rw keyed (
    ap
      (λ o.
        replay o s (create_valid w later user key id input s (validate_node_input w.is_json input)))
      (get_entry_lem (idem_key user key) later entry s.idem found live))

-- A request that created a node, repeated under its key by the same user within the store's time, is
-- answered as before, whatever its body, and changes nothing.
pub handle_create_node-repeat :
    (w : World) (now later user : ℕ) (key id id' : String) (input input' : Input) (st : State)
    (entry : IdemEntry)
    → key ≢ ""
    → (handle_create_node w now user key id input st).0 ≡ created entry
    → later - now ≤ st.idem.ttl
    → let s = (handle_create_node w now user key id input st).1 in
      handle_create_node w later user key id' input' s ≡ (replayed entry, s)
handle_create_node-repeat w now later user key id id' input input' st entry present e within =
    let s = (handle_create_node w now user key id input st).1 in
    let (found, at_now, same) =
      subst-IsNoted now user key st s (handle_create_node w now user key id input st).0 entry
        (handle_create_node-IsNoted now user key st w keyed id input) e in
    replay_lem w later user key id' input' s entry keyed found
      (rw (same, at_now) (ground (arith, within)))
  where
    keyed : str_eq key "" ≡ false
    keyed = elim (Bool-cases (str_eq key "")) [
      | inl empty ↦ absurd (present ((eq_iff key "").0 empty))
      | inr other ↦ other
    ]
