-- ===== src/Api/Nodes/Children.antt =====
-- nodes.go, importProxiesForNode: after an import that succeeds every proxy has its child.
use singboxhub.Prelude.{
  ℕ, ◌+◌, ◌≡◌, ◌≢◌, refl, ap, ◌∙◌, sym, inl, inr, String, Bool, true, false, Option, none, some,
  List, [], ◌∷◌, str_eq, eq_iff, if◌then◌else◌, Bool-cases, All,
}
use singboxhub.Prelude.Dict.{Dict, get, has, has-put-false}
use singboxhub.Store.Nodes.{Node, Table, Result, ok, fail, delete_node}
use singboxhub.Store.Nodes.Rows.{OkHolds, IsSameBut, IsOfSource, delete_node-IsSameBut}
use singboxhub.Api.Nodes.{
  Proxy, World, ImportStats, Run, Plan, Outcome, failed, synced, node_source, mode_of, after_delete,
  remove_stale,
}
use singboxhub.Api.Nodes.Good.{ArePrevious, get-All}
use singboxhub.Api.Nodes.Placed.{IsChildOf, OwnsId, IsPlaced, IsTouched, AreUnreached, IsRound}

-- The keys of the previous children are their names.
abbrev pub AreNamed : Dict (String × Node) → Type 0
AreNamed = All (λ e. e.1.1.name ≡ e.0)

get-AreNamed :
    (name id : String) (cur : Node) (d : Dict (String × Node))
    → AreNamed d
    → get name d ≡ some (id, cur)
    → cur.name ≡ name
unfolding get
get-AreNamed name id cur [] h e = absurd (cc e)
get-AreNamed name id cur ((j, r) ∷ d) h e = elim (Bool-cases (str_eq j name)) [
  | inl same ↦ cc (h.0, (eq_iff j name).0 same, inj (rw same at e))
  | inr differs ↦ get-AreNamed name id cur d h.1 (rw differs at e)
]
  where
    inj : some r ≡ some (id, cur) → r.1.name ≡ cur.name
    inj e' = ap (λ o. name_of o) e'
      where
        name_of : Option (String × Node) → String
        name_of none = ""
        name_of (some x) = x.1.name

-- The child of a proxy in a table.
abbrev pub HasChild : World → String → Dict String → Table → Proxy → Type 0
HasChild w anchor_id modes t p =
    (id : String) × (n : Node) × (get id t ≡ some n)
    × IsChildOf w (node_source anchor_id) (mode_of modes p.name) p n

abbrev pub OutcomeHas : World → String → Dict String → Outcome → Proxy → Type 0
OutcomeHas w anchor_id modes (failed t) p = Unit
OutcomeHas w anchor_id modes (synced stats t) p = HasChild w anchor_id modes t p

-- No two proxies share a name.
abbrev pub AreDistinct : List Proxy → Type 0
AreDistinct [] = Unit
AreDistinct (p ∷ ps) = All (λ q. q.name ≢ p.name) ps × AreDistinct ps

module _ (w : World) (plan : Plan) (t0 : Table) where
  module _ (previous : ArePrevious (node_source plan.anchor_id) t0 plan.previous)
      (named : AreNamed plan.previous) where
    -- Two previous children under one id are one.
    same_previous :
        (k j x : String) (m n : Node)
        → get k plan.previous ≡ some (x, m)
        → (cur : Node) × (get x t0 ≡ some cur) × (cur.name ≡ j)
        → k ≡ j
    same_previous k j x m n e (cur, found, called) =
        let own =
          get-All (IsOfSource (node_source plan.anchor_id) t0) k (x, m) plan.previous previous e in
        let one : m ≡ cur = cc (own.0, found) in
        sym (get-AreNamed k x m plan.previous named e) ∙ ap (λ r. r.name) one ∙ called

    in_t0 :
        (j y : String) (cur : Node)
        → get j plan.previous ≡ some (y, cur)
        → (get y t0 ≡ some cur) × (cur.name ≡ j)
    in_t0 j y cur e = (
      (get-All (IsOfSource (node_source plan.anchor_id) t0) j (y, cur) plan.previous previous e).0,
      get-AreNamed j y cur plan.previous named e,
    )

    apart :
        (p q : Proxy) (x y : String) (t : Table) (n : Node)
        → IsTouched w plan t0 q x t
        → OwnsId w plan t0 p y
        → get y t ≡ some n
        → p.name ≢ q.name
        → x ≢ y
    apart p q x y t n (inr (new, missing)) own e differs same =
        absurd (cc (missing, e, ap (λ i. get i t) same))
    apart p q x y t n (inl (cur, was)) (inr new) e differs same =
        absurd (cc ((in_t0 q.name x cur was).0, new, ap (λ i. get i t0) same))
    apart p q x y t n (inl (cur, was)) (inl (cur', was')) e differs same =
        let (found, called) = in_t0 p.name y cur' was' in
        differs (
          sym (
            same_previous q.name p.name x cur cur was
              (cur', ap (λ i. get i t0) same ∙ found, called)))

    -- A round for another proxy leaves a child where it is.
    pub stays :
        (p q : Proxy) (st st' : Run)
        → p.name ≢ q.name
        → IsRound w plan t0 q st (some st')
        → IsPlaced w plan t0 p st.table
        → IsPlaced w plan t0 p st'.table
    stays p q st st' differs (x, touched, same, here, noted) (y, n, e, child, own) =
        (y, n, same y (apart p q x y st.table n touched own e differs) ∙ e, child, own)

    pub unreached_after :
        (q : Proxy) (st st' : Run)
        → IsRound w plan t0 q st (some st')
        → AreUnreached w plan t0 st
        → AreUnreached w plan t0 st'
    unreached_after q st st' (x, touched, same, here, noted) before name id cur e unseen =
        let (other, older) =
          has-put-false q.name name st.seen (ap (λ s. has name s) (sym noted) ∙ unseen) in
        let found = before name id cur e older in
        let p : Proxy = record { name = name; outbound = "" } in
        same id (apart p q x id st.table cur touched (inl (cur, e)) found other) ∙ found

    pub remove_stale-keeps :
        (p : Proxy) (prev : Dict (String × Node)) (removed : ℕ) (stats : ImportStats) (st : Run)
        → ArePrevious (node_source plan.anchor_id) t0 prev
        → AreNamed prev
        → has p.name st.seen ≡ true
        → IsPlaced w plan t0 p st.table
        → OutcomeHas w plan.anchor_id plan.modes (remove_stale prev removed stats st) p
    unfolding remove_stale
    remove_stale-keeps p [] removed stats st own called seen (y, n, e, child, owned) =
        (y, n, e, child)
    remove_stale-keeps p ((name, (id, cur)) ∷ prev) removed stats st own called seen placed =
        at_seen (has name st.seen) refl
          (remove_stale-keeps p prev removed stats st own.1 called.1 seen placed)
          (λ t. λ placed'.
            remove_stale-keeps p prev (removed + 1) stats (record st { table = t }) own.1 called.1
              seen placed')
      where
        go_on : Table → Outcome
        go_on t = remove_stale prev (removed + 1) stats (record st { table = t })

        unlike : (y : String) → has name st.seen ≡ false → OwnsId w plan t0 p y → id ≢ y
        unlike y unseen (inr new) same = absurd (cc (own.0.0, new, ap (λ i. get i t0) same))
        unlike y unseen (inl (cur', was)) same =
            let k =
              same_previous p.name name y cur' cur was
                (cur, ap (λ i. get i t0) (sym same) ∙ own.0.0, called.0) in
            absurd (cc (unseen, seen, ap (λ s. has s st.seen) k))

        at_result :
            (r : Result)
            → has name st.seen ≡ false
            → OkHolds (IsSameBut id st.table) r
            → IsPlaced w plan t0 p st.table
            → ((t : Table)
                → IsPlaced w plan t0 p t
                → OutcomeHas w plan.anchor_id plan.modes (go_on t) p)
            → OutcomeHas w plan.anchor_id plan.modes (after_delete st r go_on) p
        at_result (fail why) unseen same placed' rest = tt
        at_result (ok t) unseen same (y, n, e, child, owned) rest =
            rest t (y, n, same y (unlike y unseen owned) ∙ e, child, owned)

        at_seen :
            (b : Bool)
            → has name st.seen ≡ b
            → OutcomeHas w plan.anchor_id plan.modes (remove_stale prev removed stats st) p
            → ((t : Table)
                → IsPlaced w plan t0 p t
                → OutcomeHas w plan.anchor_id plan.modes (go_on t) p)
            → OutcomeHas w plan.anchor_id plan.modes
                (if b
                  then remove_stale prev removed stats st
                  else after_delete st (delete_node id st.table) go_on)
                p
        at_seen true h kept rest = kept
        at_seen false h kept rest =
            at_result (delete_node id st.table) h (delete_node-IsSameBut id st.table) placed rest
