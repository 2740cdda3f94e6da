-- ===== src/Store/Ips/Cursor.antt =====
-- ips.go, `splitCursor`: the cursor of a page of `ListIPStats` read back.
use singboxhub.Prelude.{ℕ, ◌≡◌, refl, false, none, some, List, [], ◌∷◌, ◌++◌, All, ◌==◌}
use singboxhub.Store.Ips.{split_cursor}

no_bar : (ip : List ℕ) → All (λ c. (c == b'|') ≡ false) ip → split_cursor ip ≡ none
unfolding split_cursor
no_bar [] h = refl
no_bar (c ∷ cs) h = rw (no_bar cs h.1, split_cursor, h.0) refl

-- A value and an address without a bar, joined by a bar, are what `splitCursor` gives back, whatever
-- the value.
pub split_cursor-join :
    (value ip : List ℕ)
    → All (λ c. (c == b'|') ≡ false) ip
    → split_cursor (value ++ b'|' ∷ ip) ≡ some (value, ip)
unfolding split_cursor
split_cursor-join [] ip h = rw (no_bar ip h, split_cursor) refl
split_cursor-join (c ∷ value) ip h = rw (split_cursor-join value ip h, split_cursor) refl
