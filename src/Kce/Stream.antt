-- ===== src/Kce/Stream.antt =====
-- kce.go, `xorStream`: the blocks against one pass over the bytes, and that it undoes itself.
use Prim.Native.Nat.{bit_xor, min}
use singboxhub.Prelude.{
  ℕ, zero, suc, ◌+◌, ◌≤◌, ◌<◌, ◌≡◌, refl, ap, ◌∙◌, Bool, true, false, [], ◌∷◌, ◌++◌, arith, ◌==◌,
  ==_iff, if◌then◌else◌, Bool-cases, inl, inr, length, take, drop, length-drop, All,
}
use mathlib.Core.Path.{ap₂}
use native.Mathlib.Nat.{add-zero}
use singboxhub.Kce.{Bytes, Xof, squeeze, xor_block, xor_blocks, xor_stream, block_bytes}

-- Combining with a byte twice gives the byte back: one row of the table of all bytes, and the table.
cancels_in_row : ℕ → ℕ → Bool
cancels_in_row a zero = true
cancels_in_row a (suc m) = if bit_xor (bit_xor a m) m == a then cancels_in_row a m else false

cancels_in_rows : ℕ → Bool
unfolding cancels_in_row
cancels_in_rows zero = true
cancels_in_rows (suc n) = if cancels_in_row n 256 then cancels_in_rows n else false

whole_table : cancels_in_rows 256 ≡ true
unfolding cancels_in_rows
whole_table = refl

row_sound : (m a b : ℕ) → b < m → cancels_in_row a m ≡ true → bit_xor (bit_xor a b) b ≡ a
unfolding cancels_in_row
row_sound zero a b k e = absurd (omega arith)
row_sound (suc m) a b k e = elim (Bool-cases (bit_xor (bit_xor a m) m == a)) [
  | inr other ↦ absurd (cc (rw other at e))
  | inl same ↦ elim (Bool-cases (b == m)) [
    | inl here ↦ rw ((==_iff b m).0 here) ((==_iff _ a).0 same)
    | inr further ↦ row_sound m a b (ground (arith, further)) (rw same at e)
  ]
]

rows_sound : (n a : ℕ) → a < n → cancels_in_rows n ≡ true → cancels_in_row a 256 ≡ true
unfolding cancels_in_rows
rows_sound zero a h e = absurd (omega arith)
rows_sound (suc n) a h e = elim (Bool-cases (cancels_in_row n 256)) [
  | inr other ↦ absurd (cc (rw other at e))
  | inl same ↦ elim (Bool-cases (a == n)) [
    | inl here ↦ rw ((==_iff a n).0 here) same
    | inr further ↦ rows_sound n a (ground (arith, further)) (rw same at e)
  ]
]

pub bit_xor_twice : (a b : ℕ) → a < 256 → b < 256 → bit_xor (bit_xor a b) b ≡ a
bit_xor_twice a b h k = row_sound 256 a b k (rows_sound 256 a h whole_table)

-- The same stream with no blocks: byte `i` of the output belongs to byte `i` of the data.
abbrev pub xor_from : Xof → Bytes → ℕ → Bytes → Bytes
xor_from shake seed at [] = []
xor_from shake seed at (d ∷ ds) = bit_xor d (shake seed at) ∷ xor_from shake seed (suc at) ds

module _ (shake : Xof) where
  xor_block-squeeze :
      (seed : Bytes) (at n : ℕ) (ds : Bytes)
      → n ≤ length ds
      → xor_block (take n ds) (squeeze shake seed at n) ++ xor_from shake seed (at + n) (drop n ds)
        ≡ xor_from shake seed at ds
  unfolding xor_block squeeze
  xor_block-squeeze seed at zero [] h = refl
  xor_block-squeeze seed at zero (d ∷ ds) h = rw add-zero
  xor_block-squeeze seed at (suc n) [] h = absurd (omega arith)
  xor_block-squeeze seed at (suc n) (d ∷ ds) h =
      ap (◌∷◌ (bit_xor d (shake seed at)))
        (rw add_suc_left (xor_block-squeeze seed (suc at) n ds (omega arith)))
    where
      add_suc_left : at + suc n ≡ suc at + n
      add_suc_left = omega arith

  xor_blocks-xor_from :
      (fuel : ℕ) (seed : Bytes) (start : ℕ) (ds : Bytes)
      → length ds ≤ fuel
      → xor_blocks shake fuel seed start ds ≡ xor_from shake seed start ds
  unfolding xor_blocks
  xor_blocks-xor_from zero seed start [] h = refl
  xor_blocks-xor_from zero seed start (d ∷ ds) h = absurd (omega arith)
  xor_blocks-xor_from (suc fuel) seed start [] h = refl
  xor_blocks-xor_from (suc fuel) seed start (d ∷ ds) h =
      let n = min block_bytes (length (d ∷ ds)) in
      ap (λ rest. xor_block (take n (d ∷ ds)) (squeeze shake seed start n) ++ rest)
        (xor_blocks-xor_from fuel seed (start + n) (drop n (d ∷ ds))
          (omega (arith, length-drop n (d ∷ ds))))
      ∙ xor_block-squeeze seed start n (d ∷ ds) (omega arith)

  -- The block loop, with the length of the data as its number of rounds, combines each byte of the
  -- data with the byte of the key stream at the same place.
  pub xor_stream-xor_from :
      (key iv bytes : Bytes) → xor_stream shake key iv bytes ≡ xor_from shake (key ++ iv) 0 bytes
  unfolding xor_stream
  xor_stream-xor_from key iv bytes =
      xor_blocks-xor_from (length bytes) (key ++ iv) 0 bytes (omega arith)

abbrev pub IsByte : ℕ → Type 0
IsByte b = b < 256

module _ (shake : Xof) (shake_byte : (input : Bytes) (i : ℕ) → shake input i < 256) where
  xor_from_twice :
      (seed : Bytes) (at : ℕ) (ds : Bytes)
      → All IsByte ds
      → xor_from shake seed at (xor_from shake seed at ds) ≡ ds
  xor_from_twice seed at [] h = refl
  xor_from_twice seed at (d ∷ ds) h =
      ap₂ ◌∷◌ (bit_xor_twice d (shake seed at) h.0 (shake_byte seed at))
        (xor_from_twice seed (suc at) ds h.1)

  pub xor_stream_twice :
      (key iv ds : Bytes)
      → All IsByte ds
      → xor_stream shake key iv (xor_stream shake key iv ds) ≡ ds
  xor_stream_twice key iv ds h = simp xor_stream-xor_from (xor_from_twice (key ++ iv) 0 ds h)

length-xor_from :
    (shake : Xof) (seed : Bytes) (at : ℕ) (ds : Bytes)
    → length (xor_from shake seed at ds) ≡ length ds
length-xor_from shake seed at [] = refl
length-xor_from shake seed at (d ∷ ds) = ap suc (length-xor_from shake seed (suc at) ds)

pub length-xor_stream :
    (shake : Xof) (key iv ds : Bytes) → length (xor_stream shake key iv ds) ≡ length ds
length-xor_stream shake key iv ds =
    ap (λ (xs : Bytes). length xs) (xor_stream-xor_from shake key iv ds)
    ∙ length-xor_from shake (key ++ iv) 0 ds
