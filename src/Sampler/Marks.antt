-- ===== src/Sampler/Marks.antt =====
-- worker.go, `applySnapshot`: what a frame leaves behind. The marks of its connections, the number
-- of connections of each address, and an entry for each address whose number changed.
use singboxhub.Prelude.{
  ℕ, ◌+◌, String, ◌≡◌, ◌≢◌, refl, ap, ◌∙◌, Bool, true, false, Option, none, some, List, [], ◌∷◌,
  arith, ◌==◌, str_eq, eq_iff, if◌then◌else◌, All, sum_by, Bool-cases, ◌⊎◌, inl, inr,
}
use native.Mathlib.Nat.{zero-add}
use singboxhub.Prelude.Dict.{get-empty, Dict, get, has, get-put, total, total-put}
use singboxhub.Sampler.{
  Worker, Connection, ConnMark, IpAccum, Frame, acc_for, see, see_all, note_changes, note_all,
  apply_snapshot, count_or_zero, active_connections, mark_offline,
}
use singboxhub.Sampler.Account.{if_from, IsCounted, IsCountedMark, AreCounted, get-acc_for}

-- The mark that a frame leaves for a connection: that of its last entry with a source address.
abbrev pub mark_of : String → List Connection → Option ConnMark → Option ConnMark
mark_of id [] found = found
mark_of id (c ∷ cs) found = mark_of id cs (
    if str_eq c.source_ip ""
    then found
    else if str_eq c.id id
    then some (record { up = c.upload; down = c.download; ip = c.source_ip })
    else found)

see_all-mark_of :
    (id : String) (seen : Dict ConnMark) (cs : List Connection) (f : Frame)
    → get id (see_all seen cs f).cur ≡ mark_of id cs (get id f.cur)
unfolding see_all see
see_all-mark_of id seen [] f = refl
see_all-mark_of id seen (c ∷ cs) f =
    see_all-mark_of id seen cs (see seen c f)
    ∙ ap (mark_of id cs) (step (Bool-cases (str_eq c.source_ip "")))
  where
    step :
        (str_eq c.source_ip "" ≡ true) ⊎ (str_eq c.source_ip "" ≡ false)
        → get id (see seen c f).cur ≡ (
            if str_eq c.source_ip ""
            then get id f.cur
            else if str_eq c.id id
            then some (record { up = c.upload; down = c.download; ip = c.source_ip })
            else get id f.cur)
    step (inl e) = rw e
    step (inr e) = rw e (get-put c.id id _ f.cur)

mark_of-IsCounted :
    (id : String) (cs : List Connection) (found : Option ConnMark)
    → All IsCounted cs
    → IsCountedMark found
    → IsCountedMark (mark_of id cs found)
mark_of-IsCounted id [] found h k = k
mark_of-IsCounted id (c ∷ cs) found h k =
    mark_of-IsCounted id cs _ h.1 (pick (str_eq c.source_ip "") (str_eq c.id id))
  where
    pick :
        (a b : Bool)
        → IsCountedMark (
            if a
            then found
            else if b
            then some (record { up = c.upload; down = c.download; ip = c.source_ip })
            else found)
    pick true b = k
    pick false true = h.0
    pick false false = k

-- After a frame the marks are exactly those of its connections, and are not negative again.
pub apply_snapshot-AreCounted :
    (w : Worker) (conns : List Connection)
    → All IsCounted conns
    → AreCounted (apply_snapshot conns w).last_seen
unfolding apply_snapshot get
apply_snapshot-AreCounted w conns h = record {
  at_id = λ id. rw see_all-mark_of (mark_of-IsCounted id conns none h tt);
}

-- The mark of each connection after a frame is that of its last entry in the frame, whatever the
-- marks before it were: connections that are gone are forgotten.
pub apply_snapshot-mark_of :
    (id : String) (w : Worker) (conns : List Connection)
    → get id (apply_snapshot conns w).last_seen ≡ mark_of id conns none
unfolding apply_snapshot get
apply_snapshot-mark_of id w conns = see_all-mark_of id w.last_seen conns _

-- The connections of a frame that come from address `j`, and those that come from anywhere.
abbrev pub from_count : String → List Connection → ℕ
from_count j = sum_by (λ c. if_from j c 1)

abbrev pub sourced_count : List Connection → ℕ
sourced_count = sum_by (λ c. if str_eq c.source_ip "" then 0 else 1)

see_all-from_count :
    (j : String) (seen : Dict ConnMark) (cs : List Connection) (f : Frame)
    → count_or_zero (get j (see_all seen cs f).per_ip)
      ≡ count_or_zero (get j f.per_ip) + from_count j cs
unfolding see_all see
see_all-from_count j seen [] f = omega arith
see_all-from_count j seen (c ∷ cs) f = ground (
  arith,
  see_all-from_count j seen cs (see seen c f),
  eq_iff c.source_ip j,
  get-put c.source_ip j (count_or_zero (get c.source_ip f.per_ip) + 1) f.per_ip,
)

total-see :
    (seen : Dict ConnMark) (c : Connection) (f : Frame)
    → total (λ n. n) (see seen c f).per_ip
      ≡ total (λ n. n) f.per_ip + (if str_eq c.source_ip "" then 0 else 1)
unfolding see
total-see seen c f =
    ground (
      arith,
      total-put (λ n. n) c.source_ip (count_or_zero (get c.source_ip f.per_ip) + 1) f.per_ip,
    )

total-see_all :
    (seen : Dict ConnMark) (cs : List Connection) (f : Frame)
    → total (λ n. n) (see_all seen cs f).per_ip ≡ total (λ n. n) f.per_ip + sourced_count cs
unfolding see_all
total-see_all seen [] f = omega arith
total-see_all seen (c ∷ cs) f =
    omega (arith, total-see seen c f, total-see_all seen cs (see seen c f))

abbrev blank : Worker → Frame
blank w = record { cur = []; per_ip = []; acc = w.ip_acc }

-- After a frame the count of each address is the number of the frame's connections from it, and
-- the total is the number of its connections that have a source address.
pub apply_snapshot-active :
    (w : Worker) (conns : List Connection)
    → ((j : String)
        → count_or_zero (get j (apply_snapshot conns w).per_ip_active) ≡ from_count j conns)
      × (active_connections (apply_snapshot conns w) ≡ sourced_count conns)
unfolding apply_snapshot active_connections get
apply_snapshot-active w conns = (
  λ j. see_all-from_count j w.last_seen conns (blank w) ∙ zero-add (from_count j conns),
  total-see_all w.last_seen conns (blank w) ∙ zero-add (sourced_count conns),
)

has-acc_for_self : (ip : String) (acc : Dict IpAccum) → has ip (acc_for ip acc) ≡ true
unfolding has
has-acc_for_self ip acc = ground (arith, get-acc_for ip ip acc, eq_iff ip ip)

has-acc_for :
    (ip j : String) (acc : Dict IpAccum) → has j acc ≡ true → has j (acc_for ip acc) ≡ true
unfolding has
has-acc_for ip j acc h = ground (arith, get-acc_for ip j acc, eq_iff ip j)

has-note_changes_kept :
    (j : String) (before now : Dict ℕ) (acc : Dict IpAccum)
    → has j acc ≡ true
    → has j (note_changes before now acc) ≡ true
unfolding note_changes
has-note_changes_kept j [] now acc h = h
has-note_changes_kept j ((ip, n) ∷ before) now acc h =
    has-note_changes_kept j before now _ (step (count_or_zero (get ip now) == n))
  where
    step : (b : Bool) → has j (if b then acc else acc_for ip acc) ≡ true
    step true = h
    step false = has-acc_for ip j acc h

has-note_changes :
    (j : String) (n : ℕ) (before now : Dict ℕ) (acc : Dict IpAccum)
    → get j before ≡ some n
    → count_or_zero (get j now) ≢ n
    → has j (note_changes before now acc) ≡ true
unfolding note_changes get
has-note_changes j n [] now acc h d = cc
has-note_changes j n ((ip, m) ∷ before) now acc h d = elim (Bool-cases (str_eq ip j)) [
  | inl same ↦
      has-note_changes_kept j before now _ (ground (arith, eq_iff ip j, has-acc_for_self j acc))
  | inr other ↦ has-note_changes j n before now _ (rw other at h) d
]

-- An address whose number of connections changes with a frame has an entry in the accumulators,
-- so the next flush reports it, even if it moved no bytes.
pub apply_snapshot_notes_change :
    (j : String) (n : ℕ) (w : Worker) (conns : List Connection)
    → get j w.per_ip_active ≡ some n
    → from_count j conns ≢ n
    → has j (apply_snapshot conns w).ip_acc ≡ true
unfolding apply_snapshot
apply_snapshot_notes_change j n w conns h d =
    has-note_changes j n w.per_ip_active _ _ h
      (rw (see_all-from_count j w.last_seen conns (blank w), get-empty, zero-add) d)

has-note_all_kept :
    (j : String) (before : Dict ℕ) (acc : Dict IpAccum)
    → has j acc ≡ true
    → has j (note_all before acc) ≡ true
unfolding note_all
has-note_all_kept j [] acc h = h
has-note_all_kept j ((ip, n) ∷ before) acc h =
    has-note_all_kept j before (acc_for ip acc) (has-acc_for ip j acc h)

has-note_all :
    (j : String) (n : ℕ) (before : Dict ℕ) (acc : Dict IpAccum)
    → get j before ≡ some n
    → has j (note_all before acc) ≡ true
unfolding note_all get
has-note_all j n [] acc h = cc
has-note_all j n ((ip, m) ∷ before) acc h = elim (Bool-cases (str_eq ip j)) [
  | inl same ↦ has-note_all_kept j before _ (ground (arith, eq_iff ip j, has-acc_for_self j acc))
  | inr other ↦ has-note_all j n before (acc_for ip acc) (rw other at h)
]

-- When the node goes offline every address that was active has an entry, none is active any more,
-- and the live rates are zero.
pub mark_offline_lem :
    (error : Option String) (w : Worker)
    → ((j : String) (n : ℕ)
        → get j w.per_ip_active ≡ some n
        → has j (mark_offline error w).ip_acc ≡ true)
      × (active_connections (mark_offline error w) ≡ 0)
      × ((mark_offline error w).state.up_bps ≡ 0)
      × ((mark_offline error w).state.down_bps ≡ 0)
unfolding mark_offline active_connections
mark_offline_lem error w = (λ j n h. has-note_all j n w.per_ip_active w.ip_acc h, refl, refl, refl)
