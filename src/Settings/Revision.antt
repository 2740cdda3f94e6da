-- ===== src/Settings/Revision.antt =====
-- misc.go, `UpdateSettings`: no write is lost.
use singboxhub.Prelude.{
  ℕ, ◌≤◌, ◌<◌, ◌≡◌, refl, ap, ◌∙◌, true, false, some, List, [], ◌∷◌, ◌++◌, ◌≢◌, sym, arith, ◌==◌,
  Bool-cases, inl, inr,
}
use singboxhub.Prelude.Bytes.{bytes_of, eq_bytes, eq_bytes_sound}
use singboxhub.Prelude.Decimal.{print_decimal, parse_decimal, parse_decimal-print_decimal}
use singboxhub.Settings.{
  Patch, precondition_failed, settings_etag, handle_update_settings, Settings, conflict,
  update_settings, update_settings_logo, update_settings_favicon, Write, save, save_logo,
  save_favicon, write, write_all,
}

write_revision : (w : Write) (row : Settings) → row.revision ≤ (write w row).revision
unfolding write update_settings update_settings_logo update_settings_favicon
write_revision (save now st) row = elim (Bool-cases (row.revision == st.revision)) [
  | inl a ↦ rw (write, a) (omega arith)
  | inr a ↦ rw (write, a) (omega arith)
]
write_revision (save_logo now image) row = omega arith
write_revision (save_favicon now image) row = omega arith

write_all_revision : (ws : List Write) (row : Settings) → row.revision ≤ (write_all ws row).revision
unfolding write_all
write_all_revision [] row = omega arith
write_all_revision (w ∷ ws) row =
    omega (arith, write_revision w row, write_all_revision ws (write w row))

-- Once a save at the current revision was written, every later save that starts from that same revision is refused
-- and changes nothing, whatever other saves and image changes came between: two requests that read the same
-- settings cannot both succeed.
pub update_settings_once :
    (now later : ℕ) (first second row : Settings) (between : List Write)
    → first.revision ≡ row.revision
    → second.revision ≡ row.revision
    → let row' = write_all between (update_settings now first row).1 in
      update_settings later second row' ≡ (conflict, row')
unfolding update_settings
update_settings_once now later first second row between hf hs =
    let row' = write_all between (update_settings now first row).1 in
    let same : (row.revision == first.revision) ≡ true = ground (arith, hf) in
    let after : row.revision < (update_settings now first row).1.revision =
      rw (update_settings, same) (omega arith) in
    let newer : (row'.revision == second.revision) ≡ false =
      ground (arith, write_all_revision between (update_settings now first row).1, after, hs) in
    rw newer refl

append_injective : (c : ℕ) (xs ys : List ℕ) → xs ++ c ∷ [] ≡ ys ++ c ∷ [] → xs ≡ ys
append_injective c [] [] e = refl
append_injective c [] (y ∷ []) e = absurd (cc e)
append_injective c [] (y ∷ z ∷ ys) e = absurd (cc e)
append_injective c (x ∷ []) [] e = absurd (cc e)
append_injective c (x ∷ z ∷ xs) [] e = absurd (cc e)
append_injective c (x ∷ xs) (y ∷ ys) e =
    let tails : xs ++ c ∷ [] ≡ ys ++ c ∷ [] = cc e in cc (e, append_injective c xs ys tails)

settings_etag-injective : (a b : ℕ) → settings_etag a ≡ settings_etag b → a ≡ b
unfolding settings_etag
settings_etag-injective a b e =
    let tails : print_decimal a ++ bytes_of "\"" ≡ print_decimal b ++ bytes_of "\"" = cc e in
    let same = append_injective 34 (print_decimal a) (print_decimal b) tails in
    let read : some a ≡ some b =
      sym (parse_decimal-print_decimal a) ∙ ap parse_decimal same ∙ parse_decimal-print_decimal b in
    cc read

-- A request whose If-Match is the ETag of another revision than the one that the handler reads is
-- refused with 412 whatever its body, and changes nothing.
pub handle_update_settings-stale :
    (now read : ℕ) (p : Patch) (st row : Settings)
    → read ≢ st.revision
    → handle_update_settings now (settings_etag read) p st row ≡ (precondition_failed, row)
unfolding handle_update_settings settings_etag eq_bytes
handle_update_settings-stale now read p st row h =
    elim (Bool-cases (eq_bytes (settings_etag read) (settings_etag st.revision))) [
      | inl a ↦ absurd (h (settings_etag-injective read st.revision (eq_bytes_sound _ _ a)))
      | inr a ↦ rw (handle_update_settings, a) refl
    ]
