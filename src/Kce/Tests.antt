-- ===== src/Kce/Tests.antt =====
-- A small envelope under a stand-in for SHAKE-256, for the theorems about kce.go.
use singboxhub.Prelude.{
  ℕ, ◌+◌, ◌*◌, ◌%◌, ◌≡◌, ◌<◌, refl, Bool, true, ◌&&◌, Bool-cases, inl, inr, some, [], ◌∷◌, arith,
  length, All, ltb, ltb→lt, leb→le,
}
use singboxhub.Kce.{
  Bytes, Xof, is_blob, put_uint32, uint32, squeeze, derive_key, tag, xor_block, xor_blocks,
  xor_stream, encrypt, open_envelope, decrypt, max_plaintext_len,
}
use singboxhub.Kce.Stream.{IsByte}
use singboxhub.Kce.RoundTrip.{envelope, decrypt-encrypt}
use singboxhub.Kce.Accepts.{decrypt_accepts_envelopes}

abbrev xof : Xof
xof input at = (length input * 7 + at * 13) % 256

abbrev salt : Bytes
salt = 1 ∷ 2 ∷ 3 ∷ 4 ∷ 5 ∷ 6 ∷ 7 ∷ 8 ∷ 9 ∷ 10 ∷ 11 ∷ 12 ∷ 13 ∷ 14 ∷ 15 ∷ 16 ∷ []

abbrev iv : Bytes
iv = 21 ∷ 22 ∷ 23 ∷ 24 ∷ 25 ∷ 26 ∷ 27 ∷ 28 ∷ []

abbrev plaintext : Bytes
plaintext = b'h' ∷ b'i' ∷ []

abbrev secret : Bytes
secret = b'k' ∷ b'e' ∷ b'y' ∷ []

-- The envelope of the plaintext.
abbrev blob : Bytes
blob =
    75 ∷ 67 ∷ 69 ∷ 49 ∷ 0 ∷ 1 ∷ 2 ∷ 3 ∷ 4 ∷ 5 ∷ 6 ∷ 7 ∷ 8 ∷ 9 ∷ 10 ∷ 11 ∷ 12 ∷ 13 ∷ 14 ∷ 15 ∷ 16
    ∷ 21 ∷ 22 ∷ 23 ∷ 24 ∷ 25 ∷ 26 ∷ 27 ∷ 28 ∷ 0 ∷ 0 ∷ 0 ∷ 2 ∷ 112 ∷ 76 ∷ 66 ∷ 79 ∷ 92 ∷ 105 ∷ 118
    ∷ 131 ∷ 144 ∷ 157 ∷ 170 ∷ 183 ∷ 196 ∷ 209 ∷ 222 ∷ 235 ∷ 248 ∷ 5 ∷ []

abbrev are_bytes : Bytes → Bool
are_bytes [] = true
are_bytes (x ∷ xs) = ltb x 256 && are_bytes xs

are_bytes_lem : (xs : Bytes) → are_bytes xs ≡ true → All IsByte xs
are_bytes_lem [] e = tt
are_bytes_lem (x ∷ xs) e = elim (Bool-cases (ltb x 256)) [
  | inl small ↦ (ltb→lt x 256 small, are_bytes_lem xs (rw small at e))
  | inr large ↦ absurd (cc (rw large at e))
]

xof_byte : (input : Bytes) (at : ℕ) → xof input at < 256
xof_byte input at = omega arith

decrypt-encrypt_example :
    (out : Bytes) × (encrypt xof salt iv plaintext secret ≡ some out)
    × (decrypt xof out secret ≡ some plaintext)
decrypt-encrypt_example =
    decrypt-encrypt xof xof_byte salt iv plaintext secret refl refl (are_bytes_lem plaintext refl)
      (leb→le 2 max_plaintext_len refl) (λ e. cc e)

decrypt-blob : decrypt xof blob secret ≡ some plaintext
unfolding decrypt open_envelope derive_key tag squeeze put_uint32 uint32 is_blob xor_stream
    xor_blocks xor_block
decrypt-blob = refl

decrypt_accepts_envelopes_example :
    (salt' : Bytes) × (iv' : Bytes) × (length salt' ≡ 16)
    × (length iv' ≡ 8)
    × (blob
        ≡ envelope xof salt' iv'
            (xor_stream xof (derive_key xof secret salt') iv' plaintext)
            secret)
decrypt_accepts_envelopes_example =
    decrypt_accepts_envelopes xof xof_byte blob secret plaintext (are_bytes_lem blob refl)
      decrypt-blob
