-- ===== src/Monitor/Unique.antt =====
-- icmp.go: a round leaves no id twice in the table.
use singboxhub.Prelude.{
  ℕ, String, ◌≡◌, refl, Bool, true, false, ◌&&◌, Option, none, some, leb, if◌then◌else◌,
}
use singboxhub.Prelude.Int.{ℤ}
use singboxhub.Prelude.Dict.{Dict, get, IsUnique, put-IsUnique}
use singboxhub.Monitor.{
  Node, Settings, Probe, no_server, unresolved, no_reply, reply, World, State, ping,
  next_fail_count, update_node_latency, set_enabled, auto_disable, auto_enable, apply_latency,
  check_node,
}

update_node_latency-IsUnique :
    (id : String) (latency : ℤ) (count : ℕ) (table : Dict Node)
    → IsUnique table
    → IsUnique (update_node_latency id latency count table)
unfolding update_node_latency
update_node_latency-IsUnique id latency count table u = at_row (get id table) refl
  where
    at_row :
        (o : Option Node) → get id table ≡ o → IsUnique (update_node_latency id latency count table)
    at_row none e = rw (e, update_node_latency) u
    at_row (some n) e = rw (e, update_node_latency) (put-IsUnique id _ table u)

set_enabled-IsUnique :
    (id : String) (flag : Bool) (table : Dict Node)
    → IsUnique table
    → IsUnique (set_enabled id flag table)
unfolding set_enabled
set_enabled-IsUnique id flag table u = at_row (get id table) refl
  where
    at_row : (o : Option Node) → get id table ≡ o → IsUnique (set_enabled id flag table)
    at_row none e = rw (e, set_enabled) u
    at_row (some n) e = rw (e, set_enabled) (put-IsUnique id _ table u)

if-IsUnique :
    (b : Bool) (t t' : Dict Node) → IsUnique t → IsUnique t' → IsUnique (if b then t else t')
if-IsUnique true t t' u u' = u
if-IsUnique false t t' u u' = u'

apply_latency-IsUnique :
    (s : Settings) (id : String) (n : Node) (latency : ℤ) (table : Dict Node)
    → IsUnique table
    → IsUnique (apply_latency s id n latency table)
unfolding apply_latency auto_disable auto_enable
apply_latency-IsUnique s id n latency table u =
    let count = next_fail_count s latency n.latency_fail_count in
    let updated = update_node_latency-IsUnique id latency count table u in
    let off =
      if-IsUnique (leb s.consecutive count && n.enabled) _ _
        (set_enabled-IsUnique id false _ updated) updated in
    if-IsUnique _ _ _ (set_enabled-IsUnique id true _ off) off

pub check_node-IsUnique :
    (s : Settings) (world : World) (id : String) (n : Node) (st : State)
    → IsUnique st.table
    → IsUnique (check_node s world id n st).table
unfolding check_node
check_node-IsUnique s world id n st u = at_probe (world.probe n.outbound_enc) refl
  where
    at_probe :
        (p : Probe) → world.probe n.outbound_enc ≡ p → IsUnique (check_node s world id n st).table
    at_probe no_server e = rw (e, check_node) u
    at_probe unresolved e =
        rw (e, check_node)
          (apply_latency-IsUnique s id n (ping world unresolved st.monitor).0 st.table u)
    at_probe no_reply e =
        rw (e, check_node)
          (apply_latency-IsUnique s id n (ping world no_reply st.monitor).0 st.table u)
    at_probe (reply ms) e =
        rw (e, check_node)
          (apply_latency-IsUnique s id n (ping world (reply ms) st.monitor).0 st.table u)
