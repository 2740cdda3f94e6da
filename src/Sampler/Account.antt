-- ===== src/Sampler/Account.antt =====
-- worker.go, `applySnapshot`: what one frame of connections adds to each address, against a
-- description in plain numbers.
use singboxhub.Prelude.{
  ℕ, zero, ◌+◌, ◌-◌, ◌<◌, String, ◌≡◌, refl, Bool, true, false, Option, none, some, List, [], ◌∷◌,
  arith, ltb, ◌==◌, str_eq, eq_iff, if◌then◌else◌, All, ◌∙◌, Bool-cases, ◌||◌, inl, inr, sum_by,
}
use singboxhub.Prelude.Word.{is_pos, two63, two64, add64}
use singboxhub.Prelude.Dict.{Dict, get, get-put}
use singboxhub.Sampler.{
  Worker, Connection, ConnMark, IpAccum, Frame, acc_for, add_to, account, see, see_all, delta,
  note_changes, note_all, apply_snapshot, no_accum, accum_or_zero, count_or_zero,
}

-- The accumulator of an address, zero if it has none.
abbrev pub accum_at : String → Dict IpAccum → IpAccum
accum_at ip acc = accum_or_zero (get ip acc)

-- Bytes since the last sight: all of them at the first sight or after a reset.
abbrev pub growth : Option ℕ → ℕ → ℕ
growth none now = now
growth (some last) now = if ltb now last then now else now - last

abbrev pub up_mark : Option ConnMark → Option ℕ
up_mark none = none
up_mark (some m) = some m.up

abbrev pub down_mark : Option ConnMark → Option ℕ
down_mark none = none
down_mark (some m) = some m.down

abbrev pub one_if_new : Option ConnMark → ℕ
one_if_new none = 1
one_if_new (some m) = 0

-- The value that a connection adds to address `ip`: none if it came from elsewhere or has no source.
abbrev pub if_from : String → Connection → ℕ → ℕ
if_from ip c n = if str_eq c.source_ip "" then 0 else if str_eq c.source_ip ip then n else 0

-- What the marks of the last frame say of each connection id.
abbrev pub marks : Dict ConnMark → String → Option ConnMark
marks seen id = get id seen

abbrev pub charged_up : String → (String → Option ConnMark) → List Connection → ℕ
charged_up ip seen = sum_by (λ c. if_from ip c (growth (up_mark (seen c.id)) c.upload))

abbrev pub charged_down : String → (String → Option ConnMark) → List Connection → ℕ
charged_down ip seen = sum_by (λ c. if_from ip c (growth (down_mark (seen c.id)) c.download))

abbrev pub charged_new : String → (String → Option ConnMark) → List Connection → ℕ
charged_new ip seen = sum_by (λ c. if_from ip c (one_if_new (seen c.id)))

-- Counters that are not negative as int64.
abbrev pub IsCounted : Connection → Type 0
IsCounted c = (c.upload < two63) × (c.download < two63)

abbrev pub IsCountedMark : Option ConnMark → Type 0
IsCountedMark none = Unit
IsCountedMark (some m) = (m.up < two63) × (m.down < two63)

-- The marks of the last frame are not negative.
pub record AreCounted (seen : Dict ConnMark) : Type 0 where
  pub at_id : (id : String) → IsCountedMark (get id seen)

pub get-acc_for :
    (ip j : String) (acc : Dict IpAccum)
    → get j (acc_for ip acc) ≡ (if str_eq ip j then some (accum_at ip acc) else get j acc)
unfolding acc_for
get-acc_for ip j acc = ground (arith, get-put ip j no_accum acc, eq_iff ip j)

pub accum_at-acc_for :
    (ip j : String) (acc : Dict IpAccum) → accum_at j (acc_for ip acc) ≡ accum_at j acc
accum_at-acc_for ip j acc = ground (arith, get-acc_for ip j acc, eq_iff ip j)

pub get-add_to :
    (ip j : String) (up down n : ℕ) (acc : Dict IpAccum)
    → get j (add_to ip up down n acc) ≡ (
        if str_eq ip j
        then some (record {
          up = add64 (accum_at ip acc).up up;
          down = add64 (accum_at ip acc).down down;
          conn_count = (accum_at ip acc).conn_count + n;
        })
        else get j acc)
unfolding add_to
get-add_to ip j up down n acc = elim (Bool-cases (str_eq ip j)) [
  | inl same ↦ rw (get-put, same) (rw accum_at-acc_for)
  | inr other ↦ rw (get-put, other) (rw (get-acc_for, other))
]

pub delta-growth :
    (now last : ℕ) → now < two63 → last < two63 → delta now last ≡ growth (some last) now
unfolding delta
delta-growth now last h k = ground arith

abbrev pub IsWord : IpAccum → Type 0
IsWord a = (a.up < two64) × (a.down < two64)

-- `b` is `a` with this much added.
pub record Adds (a : IpAccum) (up down n : ℕ) (b : IpAccum) : Type 0 where
  pub up_is : b.up ≡ add64 a.up up
  pub down_is : b.down ≡ add64 a.down down
  pub conn_count_is : b.conn_count ≡ a.conn_count + n

Adds-nothing : (a : IpAccum) → IsWord a → Adds a 0 0 0 a
Adds-nothing a w = omega arith

if_same : (b : Bool) → (if b then (zero) else zero) ≡ zero
if_same true = refl
if_same false = refl

-- `n` if the connection comes from address `j`.
abbrev at_ip : String → Connection → ℕ → ℕ
at_ip j c n = if str_eq c.source_ip j then n else 0

add_to-Adds :
    (j : String) (c : Connection) (up down n : ℕ) (acc : Dict IpAccum)
    → IsWord (accum_at j acc)
    → Adds
        (accum_at j acc)
        (at_ip j c up)
        (at_ip j c down)
        (at_ip j c n)
        (accum_at j (add_to c.source_ip up down n acc))
add_to-Adds j c up down n acc w = elim (Bool-cases (str_eq c.source_ip j)) [
  | inl same ↦
      rw (get-add_to, same)
        (rw ((eq_iff c.source_ip j).0 same)
          (record { up_is = refl; down_is = refl; conn_count_is = refl }))
  | inr other ↦ rw (get-add_to, other) (Adds-nothing (accum_at j acc) w)
]

growth-lt : (last now : ℕ) → now < two63 → growth (some last) now < two63
growth-lt last now h = ground arith

not_pos : (n : ℕ) → n < two63 → is_pos n ≡ false → n ≡ 0
not_pos n h e = ground arith

either_false : (a b : Bool) → (a || b) ≡ false → (a ≡ false) × (b ≡ false)
either_false a b h = ground arith

-- One connection adds its growth to the address it comes from, and nothing elsewhere.
account-Adds :
    (j : String) (mark : Option ConnMark) (c : Connection) (acc : Dict IpAccum)
    → IsCounted c
    → IsCountedMark mark
    → IsWord (accum_at j acc)
    → Adds
        (accum_at j acc)
        (at_ip j c (growth (up_mark mark) c.upload))
        (at_ip j c (growth (down_mark mark) c.download))
        (at_ip j c (one_if_new mark))
        (accum_at j (account mark c acc))
unfolding account
account-Adds j none c acc h k w = add_to-Adds j c c.upload c.download 1 acc w
account-Adds j (some m) c acc h k w =
    rw (delta-growth c.upload m.up h.0 k.0, delta-growth c.download m.down h.1 k.1)
      (settle (growth (some m.up) c.upload) (growth (some m.down) c.download)
        (growth-lt m.up c.upload h.0) (growth-lt m.down c.download h.1))
  where
    settle :
        (u d : ℕ)
        → u < two63
        → d < two63
        → Adds
            (accum_at j acc)
            (at_ip j c u)
            (at_ip j c d)
            (at_ip j c 0)
            (accum_at j (if is_pos u || is_pos d then add_to c.source_ip u d 0 acc else acc))
    settle u d lu ld = elim (Bool-cases (is_pos u || is_pos d)) [
      | inl moved ↦ rw moved (add_to-Adds j c u d 0 acc w)
      | inr still ↦
          let (nu, nd) = either_false (is_pos u) (is_pos d) still in
          rw (still, not_pos u lu nu, not_pos d ld nd) (at_zero (Adds-nothing (accum_at j acc) w))
    ]
      where
        at_zero :
            Adds (accum_at j acc) 0 0 0 (accum_at j acc)
            → Adds (accum_at j acc) (at_ip j c 0) (at_ip j c 0) (at_ip j c 0) (accum_at j acc)
        at_zero a = rw (if_same (str_eq c.source_ip j)) a

Adds-trans :
    {a b c : IpAccum} {u d n u' d' n' : ℕ}
    → Adds a u d n b
    → Adds b u' d' n' c
    → Adds a (u + u') (d + d') (n + n') c
Adds-trans h k = omega arith

pub Adds-IsWord : {a b : IpAccum} {u d n : ℕ} → Adds a u d n b → IsWord b
Adds-IsWord h = omega arith

see-Adds :
    (j : String) (seen : Dict ConnMark) (c : Connection) (f : Frame)
    → AreCounted seen
    → IsCounted c
    → IsWord (accum_at j f.acc)
    → Adds
        (accum_at j f.acc)
        (if_from j c (growth (up_mark (get c.id seen)) c.upload))
        (if_from j c (growth (down_mark (get c.id seen)) c.download))
        (if_from j c (one_if_new (get c.id seen)))
        (accum_at j (see seen c f).acc)
unfolding see
see-Adds j seen c f s h w = elim (Bool-cases (str_eq c.source_ip "")) [
  | inl anonymous ↦ rw anonymous (Adds-nothing (accum_at j f.acc) w)
  | inr named ↦ rw named (account-Adds j (get c.id seen) c f.acc h (s.at_id c.id) w)
]

see_all-Adds :
    (j : String) (seen : Dict ConnMark) (cs : List Connection) (f : Frame)
    → AreCounted seen
    → All IsCounted cs
    → IsWord (accum_at j f.acc)
    → Adds
        (accum_at j f.acc)
        (charged_up j (marks seen) cs)
        (charged_down j (marks seen) cs)
        (charged_new j (marks seen) cs)
        (accum_at j (see_all seen cs f).acc)
unfolding see_all
see_all-Adds j seen [] f s h w = Adds-nothing (accum_at j f.acc) w
see_all-Adds j seen (c ∷ cs) f s h w =
    let one = see-Adds j seen c f s h.0 w in
    Adds-trans one (see_all-Adds j seen cs (see seen c f) s h.1 (Adds-IsWord one))

note_changes-accum_at :
    (j : String) (before now : Dict ℕ) (acc : Dict IpAccum)
    → accum_at j (note_changes before now acc) ≡ accum_at j acc
unfolding note_changes
note_changes-accum_at j [] now acc = refl
note_changes-accum_at j ((ip, n) ∷ before) now acc =
    note_changes-accum_at j before now
      (if count_or_zero (get ip now) == n then acc else acc_for ip acc)
    ∙ ground (arith, accum_at-acc_for ip j acc)

pub note_all-accum_at :
    (j : String) (before : Dict ℕ) (acc : Dict IpAccum)
    → accum_at j (note_all before acc) ≡ accum_at j acc
unfolding note_all
note_all-accum_at j [] acc = refl
note_all-accum_at j ((ip, n) ∷ before) acc =
    note_all-accum_at j before (acc_for ip acc) ∙ accum_at-acc_for ip j acc

-- One frame adds to the accumulator of each address, modulo 2 ^ 64, the growth of exactly the
-- connections that come from it, and to its connection count the connections not seen in the
-- previous frame, if no counter of the frame or of the previous one is negative.
pub apply_snapshot-Adds :
    (j : String) (w : Worker) (conns : List Connection)
    → AreCounted w.last_seen
    → All IsCounted conns
    → IsWord (accum_at j w.ip_acc)
    → Adds
        (accum_at j w.ip_acc)
        (charged_up j (marks w.last_seen) conns)
        (charged_down j (marks w.last_seen) conns)
        (charged_new j (marks w.last_seen) conns)
        (accum_at j (apply_snapshot conns w).ip_acc)
unfolding apply_snapshot
apply_snapshot-Adds j w conns s h k =
    rw note_changes-accum_at
      (see_all-Adds j w.last_seen conns (record { cur = []; per_ip = []; acc = w.ip_acc }) s h k)
