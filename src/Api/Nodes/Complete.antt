-- ===== src/Api/Nodes/Complete.antt =====
-- nodes.go, importProxiesForNode: an import that succeeds is complete.
use singboxhub.Prelude.{
  ℕ, suc, ◌≡◌, ◌≢◌, refl, ap, ◌∙◌, sym, String, Bool, true, false, Option, none, some, List, [],
  ◌∷◌, if◌then◌else◌, str_eq, eq_iff, All, arith,
}
use mathlib.Core.Path.{subst}
use singboxhub.Prelude.Dict.{Dict, get, put, has, get-put, has-put_self, has-put_other, IsUnique}
use singboxhub.Store.Nodes.{Node, Table, Result, ok, fail, update_node, list_nodes_by_source}
use singboxhub.Store.Nodes.Rows.{
  OkHolds, IsSameBut, IsOfSource, update_node-IsSameBut, list_nodes_by_source-All,
}
use singboxhub.Api.Nodes.{
  Proxy, World, ImportStats, Run, Plan, Outcome, synced, node_source, by_name, sync_proxy,
  roll_back, after_sync, sync_proxies, start, sync_children, after_anchor, take_first_proxy,
  import_proxies_for_node,
}
use singboxhub.Api.Nodes.Good.{ArePrevious, get-All}
use singboxhub.Api.Nodes.Synced.{by_name-ArePrevious}
use singboxhub.Api.Nodes.Imported.{update_node-IsUnique}
use singboxhub.Api.Nodes.Placed.{IsPlaced, AreUnreached, IsRound, sync_proxy-IsRound}
use singboxhub.Api.Nodes.Children.{
  AreNamed, HasChild, OutcomeHas, AreDistinct, stays, unreached_after, remove_stale-keeps,
}

unseen_after :
    (q : Proxy) (seen : Dict Bool) (ps : List Proxy)
    → All (λ r. r.name ≢ q.name) ps
    → All (λ r. has r.name seen ≡ false) ps
    → All (λ r. has r.name (put q.name true seen) ≡ false) ps
unfolding has
unseen_after q seen [] h u = tt
unseen_after q seen (r ∷ ps) h u =
    (rw (has, get-put q.name r.name true seen, apart r h.0) u.0, unseen_after q seen ps h.1 u.1)
  where
    apart : (r' : Proxy) → r'.name ≢ q.name → str_eq q.name r'.name ≡ false
    apart r' differs = ground (arith, eq_iff q.name r'.name, differs)

module _ (w : World) (plan : Plan) (t0 : Table) (stats : ImportStats)
    (opens : (k : ℕ) (x e : String) → w.encrypt k x ≡ some e → w.decrypt e ≡ some x)
    (fresh : (k : ℕ) → get (w.fresh_id k) t0 ≡ none)
    (previous : ArePrevious (node_source plan.anchor_id) t0 plan.previous)
    (named : AreNamed plan.previous) where
  all_failed :
      (st : Run) (ps : List Proxy) → All (OutcomeHas w plan.anchor_id plan.modes (roll_back st)) ps
  all_failed st [] = tt
  all_failed st (p ∷ ps) = (tt, all_failed st ps)

  -- A child that is there stays to the end.
  sync_proxies-keeps :
      (k : ℕ) (ps : List Proxy) (st : Run) (p : Proxy)
      → AreDistinct ps
      → All (λ q. has q.name st.seen ≡ false) ps
      → AreUnreached w plan t0 st
      → All (λ q. q.name ≢ p.name) ps
      → has p.name st.seen ≡ true
      → IsPlaced w plan t0 p st.table
      → OutcomeHas w plan.anchor_id plan.modes (sync_proxies w plan stats k ps st) p
  unfolding sync_proxies
  sync_proxies-keeps k [] st p d u before others seen placed =
      remove_stale-keeps w plan t0 previous named p plan.previous 0 stats st previous named seen
        placed
  sync_proxies-keeps k (q ∷ ps) st p d u before others seen placed =
      at_round (sync_proxy w plan k q st)
        (sync_proxy-IsRound w plan t0 opens fresh previous k q st u.0 before)
        (λ st'. sync_proxies-keeps (suc k) ps st' p d.1)
    where
      at_round :
          (o : Option Run)
          → IsRound w plan t0 q st o
          → ((st' : Run)
              → All (λ r. has r.name st'.seen ≡ false) ps
              → AreUnreached w plan t0 st'
              → All (λ r. r.name ≢ p.name) ps
              → has p.name st'.seen ≡ true
              → IsPlaced w plan t0 p st'.table
              → OutcomeHas w plan.anchor_id plan.modes (sync_proxies w plan stats (suc k) ps st') p)
          → OutcomeHas w plan.anchor_id plan.modes
              (after_sync st o (λ st'. sync_proxies w plan stats (suc k) ps st'))
              p
      at_round none round rest = tt
      at_round (some st') (x, touched, same, here, noted) rest =
          rest st'
            (subst (λ s. All (λ r. has r.name s ≡ false) ps) (sym noted)
              (unseen_after q st.seen ps d.0 u.1))
            (unreached_after w plan t0 previous named q st st' (x, touched, same, here, noted)
              before)
            others.1 (ap (λ s. has p.name s) noted ∙ has-put_other q.name p.name st.seen seen)
            (stays w plan t0 previous named p q st st' (λ e. others.0 (sym e))
              (x, touched, same, here, noted) placed)

  sync_proxies-All :
      (k : ℕ) (ps : List Proxy) (st : Run)
      → AreDistinct ps
      → All (λ q. has q.name st.seen ≡ false) ps
      → AreUnreached w plan t0 st
      → All (OutcomeHas w plan.anchor_id plan.modes (sync_proxies w plan stats k ps st)) ps
  unfolding sync_proxies
  sync_proxies-All k [] st d u before = tt
  sync_proxies-All k (q ∷ ps) st d u before =
      at_round (sync_proxy w plan k q st)
        (sync_proxy-IsRound w plan t0 opens fresh previous k q st u.0 before)
        (λ st'. sync_proxies-All (suc k) ps st' d.1)
    where
      at_round :
          (o : Option Run)
          → IsRound w plan t0 q st o
          → ((st' : Run)
              → All (λ r. has r.name st'.seen ≡ false) ps
              → AreUnreached w plan t0 st'
              → All
                  (OutcomeHas w plan.anchor_id plan.modes
                    (sync_proxies w plan stats (suc k) ps st'))
                  ps)
          → All
              (OutcomeHas w plan.anchor_id plan.modes
                (after_sync st o (λ st'. sync_proxies w plan stats (suc k) ps st')))
              (q ∷ ps)
      at_round none round rest = all_failed st (q ∷ ps)
      at_round (some st') (x, touched, same, here, noted) rest =
          let unseen =
            subst (λ s. All (λ r. has r.name s ≡ false) ps) (sym noted)
              (unseen_after q st.seen ps d.0 u.1) in
          let later =
            unreached_after w plan t0 previous named q st st' (x, touched, same, here, noted)
              before in
          (
            sync_proxies-keeps (suc k) ps st' q d.1 unseen later d.0
                (ap (λ s. has q.name s) noted ∙ has-put_self q.name st.seen) here,
            rest st' unseen later,
          )

put-AreNamed :
    (id : String) (n : Node) (d : Dict (String × Node))
    → AreNamed d
    → AreNamed (put n.name (id, n) d)
unfolding put
put-AreNamed id n [] h = (refl, tt)
put-AreNamed id n ((j, r) ∷ d) h = at_test (str_eq j n.name) (put-AreNamed id n d h.1)
  where
    at_test :
        (b : Bool)
        → AreNamed (put n.name (id, n) d)
        → AreNamed (if b then (n.name, (id, n)) ∷ d else (j, r) ∷ put n.name (id, n) d)
    at_test true rest = (refl, h.1)
    at_test false rest = (h.0, rest)

by_name-AreNamed : (rows : Table) → AreNamed (by_name rows)
unfolding by_name
by_name-AreNamed [] = tt
by_name-AreNamed ((id, n) ∷ rows) = put-AreNamed id n (by_name rows) (by_name-AreNamed rows)

all_unseen : (ps : List Proxy) → All (λ (q : Proxy). has {V = Bool} q.name [] ≡ false) ps
unfolding has get
all_unseen [] = tt
all_unseen (p ∷ ps) = (refl, all_unseen ps)

-- The proxies that children are made of.
abbrev pub others : Bool → List Proxy → List Proxy
others take_first [] = []
others true (p ∷ ps) = ps
others false (p ∷ ps) = p ∷ ps

module _ (w : World) (anchor_id : String) (modes : Dict String)
    (opens : (k : ℕ) (x e : String) → w.encrypt k x ≡ some e → w.decrypt e ≡ some x) where
  sync_children-All :
      (anchor : Node) (stats : ImportStats) (k : ℕ) (ps : List Proxy) (t : Table)
      → ((i : ℕ) → get (w.fresh_id i) t ≡ none)
      → IsUnique t
      → AreDistinct ps
      → All (OutcomeHas w anchor_id modes (sync_children w anchor_id anchor modes stats k ps t)) ps
  unfolding sync_children
  sync_children-All anchor stats k ps t fresh u d =
      let source = node_source anchor_id in
      let rows = list_nodes_by_source source t in
      let own = by_name-ArePrevious source t rows (list_nodes_by_source-All source t u) in
      let plan : Plan = record {
        anchor_id = anchor_id;
        anchor = anchor;
        previous = by_name rows;
        modes = modes;
      } in
      sync_proxies-All w plan t stats opens fresh own (by_name-AreNamed rows) k ps (start t) d
        (all_unseen ps)
        (λ name. λ id. λ cur.
          λ e. λ unseen. (get-All (IsOfSource source t) name (id, cur) (by_name rows) own e).0)

  outcome-All :
      (o : Outcome) (stats : ImportStats) (t' : Table) (ps : List Proxy)
      → All (OutcomeHas w anchor_id modes o) ps
      → o ≡ synced stats t'
      → All (HasChild w anchor_id modes t') ps
  outcome-All o stats t' ps h e = subst (λ o'. All (OutcomeHas w anchor_id modes o') ps) e h

  module _ (anchor row : Node) (t : Table) (fresh : (i : ℕ) → get (w.fresh_id i) t ≡ none)
      (u : IsUnique t) (found : get anchor_id t ≡ some row) (skips : ℕ) (stats : ImportStats)
      (t' : Table) where
    after_anchor-All :
        (filled : Node) (stats' : ImportStats) (ps : List Proxy) (r : Result)
        → AreDistinct ps
        → OkHolds (IsSameBut anchor_id t) r
        → OkHolds (λ t1. IsUnique t1) r
        → after_anchor t r (λ t1. sync_children w anchor_id filled modes stats' 1 ps t1)
          ≡ synced stats t'
        → All (HasChild w anchor_id modes t') ps
    after_anchor-All filled stats' ps (fail why) d same u' e = absurd (cc e)
    after_anchor-All filled stats' ps (ok t1) d same u' e =
        outcome-All (sync_children w anchor_id filled modes stats' 1 ps t1) stats t' ps
          (sync_children-All filled stats' 1 ps t1
            (λ i.
              same (w.fresh_id i) (λ h. absurd (cc (ap (λ x. get x t) h, fresh i, found)))
              ∙ fresh i)
            u' d)
          e

    take_first_proxy-All :
        (stats' : ImportStats) (ps : List Proxy) (o : Option String)
        → AreDistinct ps
        → take_first_proxy w anchor_id anchor o t
            (λ filled. λ t1. sync_children w anchor_id filled modes stats' 1 ps t1)
          ≡ synced stats t'
        → All (HasChild w anchor_id modes t') ps
    take_first_proxy-All stats' ps none d e = absurd (cc e)
    take_first_proxy-All stats' ps (some enc) d e =
        let filled : Node = record anchor { outbound_enc = enc } in
        after_anchor-All filled stats' ps (update_node (w.clock 0) anchor_id filled t) d
          (update_node-IsSameBut (w.clock 0) anchor_id filled t)
          (update_node-IsUnique (w.clock 0) anchor_id filled t u) e

    -- When an import succeeds for an anchor in a table of unique ids, where the proxies have different
    -- names, the ids drawn are new and decryption undoes encryption, then every proxy, without the
    -- first where that fills the anchor, has a row imported from the anchor, which holds its outbound
    -- and its mode.
    pub import_proxies_for_node_complete :
        (take_first : Bool) (proxies : List Proxy)
        → AreDistinct proxies
        → import_proxies_for_node w anchor_id anchor take_first proxies skips modes t
          ≡ synced stats t'
        → All (HasChild w anchor_id modes t') (others take_first proxies)
    unfolding import_proxies_for_node
    import_proxies_for_node_complete take_first [] d e = tt
    import_proxies_for_node_complete true (first ∷ rest) d e =
        take_first_proxy-All _ rest (w.encrypt 0 first.outbound) d.1 e
    import_proxies_for_node_complete false (first ∷ rest) d e =
        outcome-All (sync_children w anchor_id anchor modes _ 0 (first ∷ rest) t) stats t'
          (first ∷ rest) (sync_children-All anchor _ 0 (first ∷ rest) t fresh u d) e
