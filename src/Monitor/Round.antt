-- ===== src/Monitor/Round.antt =====
-- icmp.go: what one check of one node does to the table.
use singboxhub.Prelude.{
  ℕ, ◌+◌, String, ◌≡◌, refl, ap, ◌∙◌, Bool, true, false, not, ◌&&◌, ◌||◌, some, leb, ◌==◌, str_eq,
  eq_iff, if◌then◌else◌, Bool-cases, inl, inr,
}
use singboxhub.Prelude.Int.{ℤ, pos, ltb_ℤ, leb_ℤ}
use singboxhub.Prelude.Dict.{Dict, get, get-put}
use singboxhub.Monitor.{
  Node, Settings, Probe, no_server, unresolved, no_reply, reply, World, Monitor, State, failure,
  reply_ms, exchange, ping, is_bad, next_fail_count, update_node_latency, set_enabled, auto_disable,
  auto_enable, apply_latency, check_node,
}

-- The latency that a round records for a probe: a failure if pinging is off or not permitted.
abbrev pub measured : Monitor → World → Probe → ℤ
measured m world p = if m.icmp_disabled || not world.permitted then failure else reply_ms p

-- The row after its latency was recorded. A node that a round reads is enabled, so only the first
-- of the two switches can act.
abbrev pub judged : Settings → ℤ → Node → Node
judged s latency n =
    let count = if is_bad s latency then n.latency_fail_count + 1 else 0 in
    record n {
      latency_ms = latency;
      latency_fail_count = count;
      enabled = not (leb s.consecutive count);
    }

-- What a round does to a node that it visits; an outbound without a server is passed over.
abbrev checked_probe : Settings → World → Monitor → Node → Probe → Node
checked_probe s world m n no_server = n
checked_probe s world m n p = judged s (measured m world p) n

abbrev pub checked : Settings → World → Monitor → Node → Node
checked s world m n = checked_probe s world m n (world.probe n.outbound_enc)

get-update_node_latency :
    (id j : String) (latency : ℤ) (count : ℕ) (table : Dict Node) (n : Node)
    → get id table ≡ some n
    → get j (update_node_latency id latency count table) ≡ (
        if str_eq id j
        then some (record n { latency_ms = latency; latency_fail_count = count })
        else get j table)
unfolding update_node_latency
get-update_node_latency id j latency count table n e = rw (e, update_node_latency) (rw get-put)

get-set_enabled :
    (id j : String) (flag : Bool) (table : Dict Node) (n : Node)
    → get id table ≡ some n
    → get j (set_enabled id flag table)
      ≡ (if str_eq id j then some (record n { enabled = flag }) else get j table)
unfolding set_enabled
get-set_enabled id j flag table n e = rw (e, set_enabled) (rw get-put)

pub str_eq_refl : (s : String) → str_eq s s ≡ true
str_eq_refl s = (eq_iff s s).1 refl

get-set_enabled_after :
    (id j : String) (flag : Bool) (before after : Dict Node) (n : Node)
    → ((i : String) → get i after ≡ (if str_eq id i then some n else get i before))
    → get j (set_enabled id flag after)
      ≡ (if str_eq id j then some (record n { enabled = flag }) else get j before)
get-set_enabled_after id j flag before after n e =
    let own : get id after ≡ some n = e id ∙ rw (str_eq_refl id) in
    get-set_enabled id j flag after n own
    ∙ elim (Bool-cases (str_eq id j)) [ inl a ↦ rw a | inr a ↦ rw (a, e j, a) refl ]

shut : (a b : Bool) → (a && (b && false)) ≡ false
shut true true = refl
shut true false = refl
shut false b = refl

auto_enable_enabled :
    (s : Settings) (id : String) (n : Node) (latency : ℤ) (count : ℕ) (table : Dict Node)
    → n.enabled ≡ true
    → auto_enable s id n latency count table ≡ table
unfolding auto_enable
auto_enable_enabled s id n latency count table on =
    let closed : (leb_ℤ (pos 0) latency
          && (ltb_ℤ latency (pos s.threshold_ms) && (not n.enabled && count == 0)))
        ≡ false =
      rw on (shut (leb_ℤ (pos 0) latency) (ltb_ℤ latency (pos s.threshold_ms))) in
    rw closed refl

get-auto_disable :
    (s : Settings) (id j : String) (n m : Node) (count : ℕ) (before after : Dict Node)
    → n.enabled ≡ true
    → m.enabled ≡ true
    → ((i : String) → get i after ≡ (if str_eq id i then some m else get i before))
    → get j (auto_disable s id n count after) ≡ (
        if str_eq id j
        then some (record m { enabled = not (leb s.consecutive count) })
        else get j before)
unfolding auto_disable
get-auto_disable s id j n m count before after on mon e =
    rw on (elim (Bool-cases (leb s.consecutive count)) [
      | inl a ↦ rw a (get-set_enabled_after id j false before after m e)
      | inr a ↦ rw a (
          e j ∙ ap (λ b. if str_eq id j then some (record m { enabled = b }) else get j before) mon)
    ])

get-apply_latency :
    (s : Settings) (id j : String) (n : Node) (latency : ℤ) (table : Dict Node)
    → get id table ≡ some n
    → n.enabled ≡ true
    → get j (apply_latency s id n latency table)
      ≡ (if str_eq id j then some (judged s latency n) else get j table)
unfolding apply_latency next_fail_count
get-apply_latency s id j n latency table e on =
    let count = next_fail_count s latency n.latency_fail_count in
    rw
      (auto_enable_enabled s id n latency count
        (auto_disable s id n count (update_node_latency id latency count table)) on)
      (get-auto_disable s id j n (record n { latency_ms = latency; latency_fail_count = count })
        count table (update_node_latency id latency count table) on on
        (λ i. get-update_node_latency id i latency count table n e))

pub first_true : (a b : Bool) → (a && b) ≡ true → a ≡ true
first_true true b e = refl
first_true false b e = absurd (cc e)

exchange_lem :
    (world : World) (ms : ℤ) (m : Monitor)
    → (exchange world ms m).0 ≡ (if m.icmp_disabled || not world.permitted then failure else ms)
unfolding exchange
exchange_lem world ms m = elim (Bool-cases m.icmp_disabled) [
  | inl off ↦ rw (off, exchange) refl
  | inr on ↦ elim (Bool-cases world.permitted) [
    | inl may ↦ rw (on, exchange, may) refl
    | inr not_may ↦ rw (on, exchange, not_may) refl
  ]
]

exchange-measured :
    (world : World) (ms : ℤ) (m : Monitor) (p : Probe)
    → measured (exchange world ms m).1 world p ≡ measured m world p
unfolding exchange
exchange-measured world ms m p = elim (Bool-cases m.icmp_disabled) [
  | inl off ↦ rw (off, exchange) refl
  | inr on ↦ elim (Bool-cases world.permitted) [
    | inl may ↦ rw (on, exchange, may) refl
    | inr not_may ↦ rw (on, exchange, not_may) refl
  ]
]

ping_lem : (world : World) (p : Probe) (m : Monitor) → (ping world p m).0 ≡ measured m world p
unfolding ping
ping_lem world unresolved m = elim (Bool-cases (m.icmp_disabled || not world.permitted)) [
  | inl a ↦ rw a refl
  | inr a ↦ rw a refl
]
ping_lem world no_server m = exchange_lem world failure m
ping_lem world no_reply m = exchange_lem world failure m
ping_lem world (reply ms) m = exchange_lem world (pos ms) m

ping-measured :
    (world : World) (p q : Probe) (m : Monitor)
    → measured (ping world p m).1 world q ≡ measured m world q
unfolding ping
ping-measured world unresolved q m = refl
ping-measured world no_server q m = exchange-measured world failure m q
ping-measured world no_reply q m = exchange-measured world failure m q
ping-measured world (reply ms) q m = exchange-measured world (pos ms) m q

pub get-check_node :
    (s : Settings) (world : World) (id j : String) (n : Node) (st : State)
    → get id st.table ≡ some n
    → n.enabled ≡ true
    → get j (check_node s world id n st).table
      ≡ (if str_eq id j then some (checked s world st.monitor n) else get j st.table)
unfolding check_node
get-check_node s world id j n st e on = at_probe (world.probe n.outbound_enc) refl
  where
    same : (b : Bool) → str_eq id j ≡ b → get j st.table ≡ (if b then some n else get j st.table)
    same true q = rw ((eq_iff id j).0 q) at e
    same false q = refl

    recorded :
        (p : Probe)
        → get j (apply_latency s id n (ping world p st.monitor).0 st.table) ≡ (
            if str_eq id j then some (judged s (measured st.monitor world p) n) else get j st.table)
    recorded p =
        rw (ping_lem world p st.monitor)
          (get-apply_latency s id j n (measured st.monitor world p) st.table e on)

    at_probe :
        (p : Probe)
        → world.probe n.outbound_enc ≡ p
        → get j (check_node s world id n st).table
          ≡ (if str_eq id j then some (checked s world st.monitor n) else get j st.table)
    at_probe no_server q = rw (q, check_node) (same (str_eq id j) refl)
    at_probe unresolved q = rw (q, check_node) (recorded unresolved)
    at_probe no_reply q = rw (q, check_node) (recorded no_reply)
    at_probe (reply ms) q = rw (q, check_node) (recorded (reply ms))

check_node-measured :
    (s : Settings) (world : World) (id : String) (n : Node) (st : State) (q : Probe)
    → measured (check_node s world id n st).monitor world q ≡ measured st.monitor world q
unfolding check_node
check_node-measured s world id n st q = at_probe (world.probe n.outbound_enc) refl
  where
    at_probe :
        (p : Probe)
        → world.probe n.outbound_enc ≡ p
        → measured (check_node s world id n st).monitor world q ≡ measured st.monitor world q
    at_probe no_server e = rw (e, check_node) refl
    at_probe unresolved e = rw (e, check_node) (ping-measured world unresolved q st.monitor)
    at_probe no_reply e = rw (e, check_node) (ping-measured world no_reply q st.monitor)
    at_probe (reply ms) e = rw (e, check_node) (ping-measured world (reply ms) q st.monitor)

pub checked-check_node :
    (s : Settings) (world : World) (id : String) (n m : Node) (st : State)
    → checked s world (check_node s world id n st).monitor m ≡ checked s world st.monitor m
checked-check_node s world id n m st = at_probe (world.probe m.outbound_enc)
  where
    at_probe :
        (p : Probe)
        → checked_probe s world (check_node s world id n st).monitor m p
          ≡ checked_probe s world st.monitor m p
    at_probe no_server = refl
    at_probe unresolved = ap (λ ms. judged s ms m) (check_node-measured s world id n st unresolved)
    at_probe no_reply = ap (λ ms. judged s ms m) (check_node-measured s world id n st no_reply)
    at_probe (reply ms) = ap (λ x. judged s x m) (check_node-measured s world id n st (reply ms))
