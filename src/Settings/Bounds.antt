-- ===== src/Settings/Bounds.antt =====
-- settings.go, `handleUpdateSettings`: the bounds that the sampler and the clean-up rely on.
use singboxhub.Prelude.{
  ℕ, ◌≡◌, refl, Bool, true, false, not, ◌&&◌, Option, none, some, List, [], ◌==◌, if◌then◌else◌,
  Bool-cases, inl, inr,
}
use singboxhub.Prelude.Int.{ℤ, pos, ltb_ℤ}
use singboxhub.Prelude.Bytes.{eq_bytes}
use singboxhub.Settings.{
  Settings, Json, json_null, json_bool, json_number, json_string, json_other, Patch,
  is_integer_within, is_string_or_null, when_present, is_valid_patch, number_or, apply_patch,
  settings_etag, update_settings, Response, precondition_required, precondition_failed, invalid,
  respond, is_number, handle_update_settings,
}

abbrev pub IsWithin : ℕ → ℕ → ℤ → Type 0
IsWithin low high n = (ltb_ℤ n (pos low) ≡ false) × (ltb_ℤ (pos high) n ≡ false)

-- Sampling every 2 to 60 seconds, history for 1 to 365 days.
abbrev pub IsBounded : Settings → Type 0
IsBounded st = IsWithin 2 60 st.sampler_interval_seconds × IsWithin 1 365 st.retention_days

both : (a b : Bool) → (a && b) ≡ true → (a ≡ true) × (b ≡ true)
both true b e = (refl, e)
both false b e = absurd (cc e)

not-true : (a : Bool) → not a ≡ true → a ≡ false
not-true true e = absurd (cc e)
not-true false e = refl

not-false : (a : Bool) → not a ≡ false → a ≡ true
not-false true e = refl
not-false false e = absurd (cc e)

number_or-IsWithin :
    (low high : ℕ) (old : ℤ) (v : Option Json)
    → IsWithin low high old
    → when_present (is_integer_within low high) v ≡ true
    → IsWithin low high (number_or old v)
number_or-IsWithin low high old none h e = h
number_or-IsWithin low high old (some (json_number n fraction)) h e =
    let (a, b) = both (not (ltb_ℤ n (pos low))) (not (ltb_ℤ (pos high) n) && not fraction) e in
    let (b, c) = both (not (ltb_ℤ (pos high) n)) (not fraction) b in
    (not-true (ltb_ℤ n (pos low)) a, not-true (ltb_ℤ (pos high) n) b)
number_or-IsWithin low high old (some json_null) h e = absurd (cc e)
number_or-IsWithin low high old (some (json_bool b)) h e = absurd (cc e)
number_or-IsWithin low high old (some (json_string s)) h e = absurd (cc e)
number_or-IsWithin low high old (some json_other) h e = absurd (cc e)

apply_patch-IsBounded :
    (p : Patch) (st : Settings)
    → IsBounded st
    → is_valid_patch p ≡ true
    → IsBounded (apply_patch p st)
unfolding apply_patch is_valid_patch
apply_patch-IsBounded p st h e =
    let (sampler, rest) =
      both (when_present (is_integer_within 2 60) p.sampler_interval_seconds) _ e in
    let (retention, rest) = both (when_present (is_integer_within 1 365) p.retention_days) _ rest in
    (
      number_or-IsWithin 2 60 st.sampler_interval_seconds p.sampler_interval_seconds h.0 sampler,
      number_or-IsWithin 1 365 st.retention_days p.retention_days h.1 retention,
    )

update_settings-IsBounded :
    (now : ℕ) (st row : Settings)
    → IsBounded st
    → IsBounded row
    → IsBounded (respond (update_settings now st row)).1
unfolding update_settings
update_settings-IsBounded now st row hs hr = elim (Bool-cases (row.revision == st.revision)) [
  | inl a ↦ rw (a, update_settings) hs
  | inr a ↦ rw (a, update_settings) hr
]

guards-IsBounded :
    (a b c d e : Bool) (row : Settings) (rest : Response × Settings)
    → IsBounded row
    → (c ≡ false → IsBounded rest.1)
    → IsBounded
        (if a
          then (precondition_required, row)
          else if b
          then (precondition_failed, row)
          else if c
          then (invalid, row)
          else if d
          then (invalid, row)
          else if e
          then (invalid, row)
          else rest).1
guards-IsBounded true b c d e row rest hr h = hr
guards-IsBounded false true c d e row rest hr h = hr
guards-IsBounded false false true d e row rest hr h = hr
guards-IsBounded false false false true e row rest hr h = hr
guards-IsBounded false false false false true row rest hr h = hr
guards-IsBounded false false false false false row rest hr h = h refl

-- Whatever a request sends, the row that PATCH /settings leaves has a sampling interval of 2 to 60 seconds and keeps history
-- for 1 to 365 days, if the row it read and the row it writes to had.
pub handle_update_settings-IsBounded :
    (now : ℕ) (if_match : List ℕ) (p : Patch) (st row : Settings)
    → IsBounded st
    → IsBounded row
    → IsBounded (handle_update_settings now if_match p st row).1
unfolding handle_update_settings
handle_update_settings-IsBounded now if_match p st row hs hr =
    guards-IsBounded (eq_bytes if_match []) (not (eq_bytes if_match (settings_etag st.revision)))
      (not (is_valid_patch p)) (not (when_present is_string_or_null p.brand_name))
      (not (when_present is_number p.reset_cooldown_minutes)) row
      (respond (update_settings now (apply_patch p st) row)) hr
      (λ c.
        update_settings-IsBounded now (apply_patch p st) row
          (apply_patch-IsBounded p st hs (not-false (is_valid_patch p) c)) hr)
