-- ===== src/Monitor/Rounds.antt =====
-- icmp.go, `checkAllNodes` and `monitorLoop`: what rounds do to each node.
use singboxhub.Prelude.{
  String, ◌≡◌, refl, sym, ap, ◌∙◌, true, false, not, ◌&&◌, Option, none, some, List, [], ◌∷◌, arith,
  str_eq, eq_iff, if◌then◌else◌, Bool-cases, inl, inr,
}
use singboxhub.Prelude.Dict.{Dict, get, IsUnique}
use singboxhub.Monitor.{
  Node, Settings, World, Monitor, State, check_node, is_monitored, list_monitored, check_each,
  check_all_nodes, run_rounds,
}
use singboxhub.Monitor.Round.{checked, get-check_node, checked-check_node, str_eq_refl, first_true}
use singboxhub.Monitor.Unique.{check_node-IsUnique}

-- What the nodes of a round's list become, and what stays of the others.
abbrev visited : Settings → World → Monitor → Option Node → Option Node → Option Node
visited s world m none old = old
visited s world m (some n) old = some (checked s world m n)

get-check_each :
    (s : Settings) (world : World) (nodes : Dict Node) (st : State) (j : String)
    → IsUnique nodes
    → ((i : String) (n : Node)
        → get i nodes ≡ some n
        → (get i st.table ≡ some n) × (n.enabled ≡ true))
    → get j (check_each s world nodes st).table
      ≡ visited s world st.monitor (get j nodes) (get j st.table)
unfolding check_each get
get-check_each s world [] st j u h = refl
get-check_each s world ((id, n) ∷ nodes) st j u h =
    let own : get id ((id, n) ∷ nodes) ≡ some n = rw (str_eq_refl id) refl in
    let here = h id n own in
    let st' = check_node s world id n st in
    let apart : (i : String) (m : Node) → get i nodes ≡ some m → str_eq id i ≡ false = λ i m g.
      elim (Bool-cases (str_eq id i)) [
        | inl same ↦ absurd (cc (rw ((eq_iff id i).0 same) at u.0, g))
        | inr other ↦ other
      ] in
    get-check_each s world nodes st' j u.1 (λ i m g.
      let old = h i m (rw (apart i m g) g) in
      (get-check_node s world id i n st here.0 here.1 ∙ rw (apart i m g) old.0, old.1))
    ∙ elim (Bool-cases (str_eq id j)) [
      | inl same ↦
          let none_left : get j nodes ≡ none = rw ((eq_iff id j).0 same) at u.0 in
          rw (same, none_left) (get-check_node s world id j n st here.0 here.1 ∙ rw same refl)
      | inr other ↦
          rw (other, get-check_node s world id j n st here.0 here.1, other) (kept (get j nodes))
    ]
  where
    kept :
        (o : Option Node)
        → visited s world (check_node s world id n st).monitor o (get j st.table)
          ≡ visited s world st.monitor o (get j st.table)
    kept none = refl
    kept (some m) = ap some (checked-check_node s world id n m st)

-- What a round's query gives for an id.
abbrev picked : Option Node → Option Node
picked none = none
picked (some n) = if is_monitored n then some n else none

get-list_monitored :
    (table : Dict Node) (j : String)
    → IsUnique table
    → get j (list_monitored table) ≡ picked (get j table)
unfolding get list_monitored
get-list_monitored [] j u = refl
get-list_monitored ((id, n) ∷ table) j u =
    ground (arith, get-list_monitored table j u.1, eq_iff id j, u.0)

list_monitored-IsUnique : (table : Dict Node) → IsUnique table → IsUnique (list_monitored table)
unfolding list_monitored
list_monitored-IsUnique [] u = tt
list_monitored-IsUnique ((id, n) ∷ table) u = elim (Bool-cases (is_monitored n)) [
  | inl a ↦ rw a (get-list_monitored table id u.1 ∙ rw u.0, list_monitored-IsUnique table u.1)
  | inr a ↦ rw a (list_monitored-IsUnique table u.1)
]

-- One round over a table without repeated ids changes each node by itself, whatever the order of
-- the round: an enabled imported node is judged by its own probe (its latency is recorded, its count
-- of failures goes up or back to 0, and it is disabled exactly when the count reaches the
-- configured number), and every other node, a missing one included, is left as it was.
pub check_all_nodes-get :
    (s : Settings) (world : World) (st : State) (id : String)
    → IsUnique st.table
    → get id (check_all_nodes s world st).table ≡ (elim (get id st.table) [
      | none ↦ none
      | some n ↦ some (if is_monitored n then checked s world st.monitor n else n)
    ])
unfolding check_all_nodes
check_all_nodes-get s world st id u =
    get-check_each s world (list_monitored st.table) st id (list_monitored-IsUnique st.table u)
      (λ i m g. from_list i m (get i st.table) refl (sym (get-list_monitored st.table i u) ∙ g))
    ∙ rw (get-list_monitored st.table id u) (whole (get id st.table))
  where
    from_list :
        (i : String) (m : Node) (o : Option Node)
        → get i st.table ≡ o
        → picked o ≡ some m
        → (get i st.table ≡ some m) × (m.enabled ≡ true)
    from_list i m none e g = absurd (cc g)
    from_list i m (some n) e g = elim (Bool-cases (is_monitored n)) [
      | inl a ↦
          let same : n ≡ m = cc (rw a at g) in
          (
            e ∙ ap some same,
            rw same at (
                first_true n.enabled (not (str_eq n.source "") && not (str_eq n.outbound_enc ""))
                  a),
          )
      | inr a ↦ absurd (cc (rw a at g))
    ]

    whole :
        (o : Option Node)
        → visited s world st.monitor (picked o) o ≡ (elim o [
          | none ↦ none
          | some n ↦ some (if is_monitored n then checked s world st.monitor n else n)
        ])
    whole none = refl
    whole (some n) = elim (Bool-cases (is_monitored n)) [ inl a ↦ rw a refl | inr a ↦ rw a refl ]

check_each-IsUnique :
    (s : Settings) (world : World) (nodes : Dict Node) (st : State)
    → IsUnique st.table
    → IsUnique (check_each s world nodes st).table
unfolding check_each
check_each-IsUnique s world [] st u = u
check_each-IsUnique s world ((id, n) ∷ nodes) st u =
    check_each-IsUnique s world nodes (check_node s world id n st)
      (check_node-IsUnique s world id n st u)

-- A node that is disabled is left as it is by any number of rounds, whatever their settings
-- and whatever their probes meet, when no id stands twice in the table: monitoring never enables a node again.
pub run_rounds-disabled :
    (rounds : List (Settings × World)) (st : State) (id : String) (n : Node)
    → IsUnique st.table
    → get id st.table ≡ some n
    → n.enabled ≡ false
    → get id (run_rounds rounds st).table ≡ some n
unfolding run_rounds check_all_nodes
run_rounds-disabled [] st id n u e off = e
run_rounds-disabled ((s, world) ∷ rounds) st id n u e off =
    run_rounds-disabled rounds (check_all_nodes s world st) id n
      (check_each-IsUnique s world (list_monitored st.table) st u)
      (check_all_nodes-get s world st id u ∙ rw (e, off) refl) off
