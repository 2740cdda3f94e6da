-- ===== src/Sampler/Sound.antt =====
-- worker.go: the invariant of a worker, and the accounting of each address over any run of events.
use singboxhub.Prelude.{
  ℕ, String, Bool, true, false, ◌||◌, Option, none, some, List, [], ◌∷◌, arith, ◌==◌, str_eq,
  if◌then◌else◌, All, Bool-cases, inl, inr,
}
use singboxhub.Prelude.Word.{is_pos}
use singboxhub.Prelude.Dict.{Dict, get, put, IsUnique, put-IsUnique, get-empty}
use singboxhub.Sampler.{
  Worker, Connection, ConnMark, IpAccum, Frame, accumulate_traffic, apply_snapshot, mark_online,
  mark_offline, set_mode, acc_for, add_to, delta, account, see, see_all, note_changes, note_all,
  no_accum, count_or_zero,
}
use singboxhub.Sampler.Drain.{drain, is_idle}
use singboxhub.Sampler.Account.{
  accum_at, IsCounted, AreCounted, IsWord, Adds-IsWord, apply_snapshot-Adds, note_all-accum_at,
}
use singboxhub.Sampler.Marks.{apply_snapshot-AreCounted}
use singboxhub.Sampler.Events.{Event, traffic, frame, online, offline, flush, mode, step}

acc_for-IsUnique : (ip : String) (acc : Dict IpAccum) → IsUnique acc → IsUnique (acc_for ip acc)
unfolding acc_for
acc_for-IsUnique ip acc u = keep (get ip acc)
  where
    keep : (o : Option IpAccum) → IsUnique (elim o [ none ↦ put ip no_accum acc | some a ↦ acc ])
    keep none = put-IsUnique ip no_accum acc u
    keep (some a) = u

if-IsUnique :
    (b : Bool) (m m' : Dict IpAccum) → IsUnique m → IsUnique m' → IsUnique (if b then m else m')
if-IsUnique true m m' h h' = h
if-IsUnique false m m' h h' = h'

add_to-IsUnique :
    (ip : String) (up down n : ℕ) (acc : Dict IpAccum)
    → IsUnique acc
    → IsUnique (add_to ip up down n acc)
unfolding add_to
add_to-IsUnique ip up down n acc u = put-IsUnique ip _ (acc_for ip acc) (acc_for-IsUnique ip acc u)

account-IsUnique :
    (mark : Option ConnMark) (c : Connection) (acc : Dict IpAccum)
    → IsUnique acc
    → IsUnique (account mark c acc)
unfolding account
account-IsUnique none c acc u = add_to-IsUnique c.source_ip c.upload c.download 1 acc u
account-IsUnique (some m) c acc u =
    if-IsUnique (is_pos (delta c.upload m.up) || is_pos (delta c.download m.down)) _ acc
      (add_to-IsUnique c.source_ip (delta c.upload m.up) (delta c.download m.down) 0 acc u) u

see_all-IsUnique :
    (seen : Dict ConnMark) (cs : List Connection) (f : Frame)
    → IsUnique f.acc
    → IsUnique (see_all seen cs f).acc
unfolding see_all see
see_all-IsUnique seen [] f u = u
see_all-IsUnique seen (c ∷ cs) f u =
    see_all-IsUnique seen cs (see seen c f) (elim (Bool-cases (str_eq c.source_ip "")) [
      | inl e ↦ rw e u
      | inr e ↦ rw e (account-IsUnique (get c.id seen) c f.acc u)
    ])

note_changes-IsUnique :
    (before now : Dict ℕ) (acc : Dict IpAccum)
    → IsUnique acc
    → IsUnique (note_changes before now acc)
unfolding note_changes
note_changes-IsUnique [] now acc u = u
note_changes-IsUnique ((ip, n) ∷ before) now acc u =
    note_changes-IsUnique before now _
      (if-IsUnique (count_or_zero (get ip now) == n) acc _ u (acc_for-IsUnique ip acc u))

note_all-IsUnique :
    (before : Dict ℕ) (acc : Dict IpAccum) → IsUnique acc → IsUnique (note_all before acc)
unfolding note_all
note_all-IsUnique [] acc u = u
note_all-IsUnique ((ip, n) ∷ before) acc u =
    note_all-IsUnique before (acc_for ip acc) (acc_for-IsUnique ip acc u)

-- One accumulator for each address, its bytes int64 patterns, and no negative mark.
pub record IsSound (w : Worker) : Type 0 where
  pub unique : IsUnique w.ip_acc
  pub counted : AreCounted w.last_seen
  pub words : (j : String) → IsWord (accum_at j w.ip_acc)

-- The counters of a frame are not negative; nothing is asked of other events.
abbrev pub IsSane : Event → Type 0
IsSane (frame conns) = All IsCounted conns
IsSane _ = Unit

drain-IsSound : (now : ℕ) (w : Worker) → IsSound w → IsSound (drain now w).1
unfolding drain
drain-IsSound now w s = elim (Bool-cases (is_idle w)) [
  | inl idle ↦ rw idle s
  | inr busy ↦ rw busy (record {
    unique = tt;
    counted = record { at_id = s.counted.at_id };
    words = λ j. rw get-empty (omega arith, omega arith);
  })
]

pub step-IsSound : (e : Event) (w : Worker) → IsSane e → IsSound w → IsSound (step e w).1
unfolding step accumulate_traffic mark_online mark_offline set_mode
step-IsSound (frame conns) w h s = record {
  unique =
      unfold apply_snapshot in
      note_changes-IsUnique w.per_ip_active _ _ (see_all-IsUnique w.last_seen conns _ s.unique);
  counted = apply_snapshot-AreCounted w conns h;
  words = λ j. Adds-IsWord (apply_snapshot-Adds j w conns s.counted h (s.words j));
}
step-IsSound (flush now) w h s = drain-IsSound now w s
step-IsSound (offline error) w h s = record {
  unique = note_all-IsUnique w.per_ip_active w.ip_acc s.unique;
  counted = record { at_id = s.counted.at_id };
  words = λ j. rw note_all-accum_at (s.words j);
}
step-IsSound (traffic msg) w h s = record {
  unique = s.unique;
  counted = record { at_id = s.counted.at_id };
  words = s.words;
}
step-IsSound (online v m mem now) w h s = record {
  unique = s.unique;
  counted = record { at_id = s.counted.at_id };
  words = s.words;
}
step-IsSound (mode m) w h s = record {
  unique = s.unique;
  counted = record { at_id = s.counted.at_id };
  words = s.words;
}
