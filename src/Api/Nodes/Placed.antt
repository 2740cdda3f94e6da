-- ===== src/Api/Nodes/Placed.antt =====
-- nodes.go, importProxiesForNode: where one round of the loop puts its proxy, and what it leaves to the
-- other rounds.
use singboxhub.Prelude.{
  ℕ, ◌≡◌, refl, ap, ◌⊎◌, inl, inr, String, Bool, true, false, Option, none, some, str_eq, eq_iff,
  if◌then◌else◌, ◌&&◌,
}
use singboxhub.Prelude.Dict.{get, put, del, has, get-put_self}
use singboxhub.Store.Nodes.{
  Node, Table, Result, ok, fail, not_found, unique_violation, name_index, create_node, update_node,
  updated_row,
}
use singboxhub.Store.Nodes.Rows.{
  OkHolds, IsSameBut, IsOfSource, create_node-IsSameBut, update_node-IsSameBut,
}
use singboxhub.Api.Nodes.{
  Proxy, World, Run, Plan, node_source, mode_of, same_text, after_update, update_child, child_node,
  after_create, create_child, unique_node_name, place_child, encrypted, note_seen, sync_proxy,
}
use singboxhub.Api.Nodes.Good.{ArePrevious, get-All}

-- The row that an update leaves.
update_node-row :
    (now : ℕ) (id : String) (n : Node) (t : Table)
    → OkHolds
        (λ t'. (row : Node) × (get id t' ≡ some (updated_row now n row)))
        (update_node now id n t)
unfolding update_node
update_node-row now id n t = at_row (get id t) (has n.name (name_index (del id t)))
  where
    at_row :
        (o : Option Node) (b : Bool)
        → OkHolds
            (λ t'. (row : Node) × (get id t' ≡ some (updated_row now n row)))
            (elim o [
              | none ↦ fail not_found
              | some row ↦
                  if b then fail unique_violation else ok (put id (updated_row now n row) t)
            ])
    at_row none b = tt
    at_row (some row) true = tt
    at_row (some row) false = (row, get-put_self id (updated_row now n row) t)

abbrev new_row : ℕ → Node → Node
new_row now n = record n { created_at = now; updated_at = now; last_online = 0 }

-- The row that an insertion leaves, where there was none.
create_node-row :
    (now : ℕ) (id : String) (n : Node) (t : Table)
    → OkHolds
        (λ t'. (get id t ≡ none) × (get id t' ≡ some (new_row now n)))
        (create_node now id n t)
unfolding create_node has
create_node-row now id n t = at_row (get id t) (has n.name (name_index t)) refl
  where
    at_row :
        (o : Option Node) (b : Bool)
        → get id t ≡ o
        → OkHolds
            (λ t'. (get id t ≡ none) × (get id t' ≡ some (new_row now n)))
            (if (elim o [ none ↦ false | some _ ↦ true ])
              then fail unique_violation
              else if b
              then fail unique_violation
              else ok (put id (new_row now n) t))
    at_row (some row) b e = tt
    at_row none true e = tt
    at_row none false e = (e, get-put_self id (new_row now n) t)

-- The row is the child of a proxy.
pub record IsChildOf (w : World) (source mode : String) (p : Proxy) (n : Node) : Type 0 where
  pub of_anchor : n.source ≡ source
  pub opens : w.decrypt n.outbound_enc ≡ some p.outbound
  pub in_mode : n.mode ≡ mode

module _ (w : World) (plan : Plan) (t0 : Table) where
  -- The row stands under the id of the previous child of that name, or under a new id.
  abbrev pub OwnsId : Proxy → String → Type 0
  OwnsId p id = ((cur : Node) × (get p.name plan.previous ≡ some (id, cur))) ⊎ (get id t0 ≡ none)

  abbrev pub IsPlaced : Proxy → Table → Type 0
  IsPlaced p t =
      (id : String) × (n : Node) × (get id t ≡ some n)
      × IsChildOf w (node_source plan.anchor_id) (mode_of plan.modes p.name) p n
      × OwnsId p id

  -- The only row that a round for `q` changes.
  abbrev pub IsTouched : Proxy → String → Table → Type 0
  IsTouched q x t =
      ((cur : Node) × (get q.name plan.previous ≡ some (x, cur)))
      ⊎ ((get x t0 ≡ none) × (get x t ≡ none))

  -- The previous children that no round has reached are as they were.
  abbrev pub AreUnreached : Run → Type 0
  AreUnreached st =
      (name id : String) (cur : Node)
      → get name plan.previous ≡ some (id, cur)
      → has name st.seen ≡ false
      → get id st.table ≡ some cur

  abbrev pub IsRound : Proxy → Run → Option Run → Type 0
  IsRound q st none = Unit
  IsRound q st (some st') =
      (x : String) × IsTouched q x st.table
      × IsSameBut x st.table st'.table
      × IsPlaced q st'.table
      × (st'.seen ≡ put q.name true st.seen)

  module _ (opens : (k : ℕ) (x e : String) → w.encrypt k x ≡ some e → w.decrypt e ≡ some x)
      (fresh : (k : ℕ) → get (w.fresh_id k) t0 ≡ none)
      (previous : ArePrevious (node_source plan.anchor_id) t0 plan.previous) where
    same_text_sound : (o : Option String) (s : String) → same_text o s ≡ true → o ≡ some s
    same_text_sound none s e = absurd (cc e)
    same_text_sound (some p) s e = ap some ((eq_iff p s).0 e)

    and_true : (a b : Bool) → (a && b) ≡ true → (a ≡ true) × (b ≡ true)
    and_true true b e = (refl, e)
    and_true false b e = absurd (cc e)

    update_child-IsRound :
        (k : ℕ) (enc : String) (q : Proxy) (id : String) (cur : Node) (st : Run)
        → get q.name plan.previous ≡ some (id, cur)
        → get id st.table ≡ some cur
        → w.decrypt enc ≡ some q.outbound
        → IsRound q st (update_child w k enc q (mode_of plan.modes q.name) id cur (note_seen q st))
    unfolding update_child
    update_child-IsRound k enc q id cur st e stands opened =
        at_test (same_text (w.decrypt cur.outbound_enc) q.outbound && str_eq cur.mode mode) refl
      where
        mode : String
        mode = mode_of plan.modes q.name

        row : Node
        row = record cur { outbound_enc = enc; mode = mode }

        own : IsOfSource (node_source plan.anchor_id) t0 (id, cur)
        own =
            get-All (IsOfSource (node_source plan.anchor_id) t0) q.name (id, cur) plan.previous
              previous e

        at_result :
            (r : Result)
            → OkHolds (IsSameBut id st.table) r
            → OkHolds (λ t'. (old : Node) × (get id t' ≡ some (updated_row (w.clock k) row old))) r
            → IsRound q st (after_update (note_seen q st) r)
        at_result (fail why) same left = tt
        at_result (ok t) same (old, left) = (
          id,
          inl (cur, e),
          same,
          (
            id,
            updated_row (w.clock k) row old,
            left,
            record { of_anchor = own.1; opens = opened; in_mode = refl },
            inl (cur, e),
          ),
          refl,
        )

        at_test :
            (b : Bool)
            → (same_text (w.decrypt cur.outbound_enc) q.outbound && str_eq cur.mode mode) ≡ b
            → IsRound q st (
                if b
                then some (note_seen q st)
                else after_update (note_seen q st) (update_node (w.clock k) id row st.table))
        at_test true h =
            let (opened', moded) =
              and_true (same_text (w.decrypt cur.outbound_enc) q.outbound) (str_eq cur.mode mode)
                h in
            (
              id,
              inl (cur, e),
              (λ j. λ differs. refl),
              (
                id,
                cur,
                stands,
                record {
                  of_anchor = own.1;
                  opens = same_text_sound (w.decrypt cur.outbound_enc) q.outbound opened';
                  in_mode = (eq_iff cur.mode mode).0 moded;
                },
                inl (cur, e),
              ),
              refl,
            )
        at_test false h =
            at_result (update_node (w.clock k) id row st.table)
              (update_node-IsSameBut (w.clock k) id row st.table)
              (update_node-row (w.clock k) id row st.table)

    create_child-IsRound :
        (k : ℕ) (enc : String) (q : Proxy) (st : Run)
        → w.decrypt enc ≡ some q.outbound
        → IsRound q st (
            create_child w k plan.anchor_id plan.anchor enc q
              (mode_of plan.modes q.name)
              (note_seen q st))
    unfolding create_child
    create_child-IsRound k enc q st opened =
        at_result (create_node (w.clock k) id child st.table)
          (create_node-IsSameBut (w.clock k) id child st.table)
          (create_node-row (w.clock k) id child st.table)
      where
        id : String
        id = w.fresh_id k

        child : Node
        child =
            child_node plan.anchor plan.anchor_id (unique_node_name q.name st.table) enc
              (mode_of plan.modes q.name)

        at_result :
            (r : Result)
            → OkHolds (IsSameBut id st.table) r
            → OkHolds
                (λ t'. (get id st.table ≡ none) × (get id t' ≡ some (new_row (w.clock k) child)))
                r
            → IsRound q st (after_create id (note_seen q st) r)
        at_result (fail why) same left = tt
        at_result (ok t) same (missing, left) = (
          id,
          inr (fresh k, missing),
          same,
          (
            id,
            new_row (w.clock k) child,
            left,
            record { of_anchor = refl; opens = opened; in_mode = refl },
            inr (fresh k),
          ),
          refl,
        )

    -- A round changes one row, and leaves the child of its proxy.
    pub sync_proxy-IsRound :
        (k : ℕ) (q : Proxy) (st : Run)
        → has q.name st.seen ≡ false
        → AreUnreached st
        → IsRound q st (sync_proxy w plan k q st)
    unfolding sync_proxy
    sync_proxy-IsRound k q st unseen unreached = at_enc (w.encrypt k q.outbound) refl
      where
        at_previous :
            (enc : String) (o : Option (String × Node))
            → get q.name plan.previous ≡ o
            → w.decrypt enc ≡ some q.outbound
            → IsRound q st (place_child w plan k q (note_seen q st) enc o)
        at_previous enc none e opened = create_child-IsRound k enc q st opened
        at_previous enc (some (id, cur)) e opened =
            update_child-IsRound k enc q id cur st e (unreached q.name id cur e unseen) opened

        at_enc :
            (o : Option String)
            → w.encrypt k q.outbound ≡ o
            → IsRound q st (encrypted w plan k q (note_seen q st) o)
        at_enc none e = tt
        at_enc (some enc) e =
            at_previous enc (get q.name plan.previous) refl (opens k q.outbound enc e)
