-- ===== src/Kce/RoundTrip.antt =====
-- kce.go: `Decrypt` undoes `Encrypt`, and accepts nothing but envelopes.
use singboxhub.Prelude.{
  ℕ, ◌+◌, ◌*◌, ◌/◌, ◌%◌, ◌≤◌, ◌<◌, ◌≡◌, ◌≢◌, refl, ap, ◌∙◌, true, false, not, ◌||◌, Option, none,
  some, [], ◌∷◌, ◌++◌, arith, ltb, ◌==◌, if◌then◌else◌, length, take, drop, length-append,
  take-append, drop-append, drop_add, All,
}
use singboxhub.Kce.{
  Bytes, Xof, magic, same_bytes, is_blob, put_uint32, uint32, derive_key, tag, squeeze, xor_stream,
  encrypt, open_envelope, decrypt, max_plaintext_len,
}
use singboxhub.Kce.Stream.{IsByte, xor_stream_twice, length-xor_stream}

take_prefix : (n : ℕ) (xs ys : Bytes) → length xs ≡ n → take n (xs ++ ys) ≡ xs
take_prefix n xs ys e = rw (← e) (take-append xs ys)

drop_prefix : (n : ℕ) (xs ys : Bytes) → length xs ≡ n → drop n (xs ++ ys) ≡ ys
drop_prefix n xs ys e = rw (← e) (drop-append xs ys)

pub same_bytes_refl : (xs : Bytes) → same_bytes xs xs ≡ true
same_bytes_refl [] = refl
same_bytes_refl (x ∷ xs) = ground (arith, same_bytes_refl xs)

pub same_bytes_sound : (xs ys : Bytes) → same_bytes xs ys ≡ true → xs ≡ ys
same_bytes_sound [] [] h = refl
same_bytes_sound [] (y ∷ ys) h = cc
same_bytes_sound (x ∷ xs) [] h = cc
same_bytes_sound (x ∷ xs) (y ∷ ys) h = ground (arith, same_bytes_sound xs ys)

lengths_agree :
    (l n r : ℕ) (x : Option Bytes)
    → l ≡ 33 + r
    → (if ltb l 49 || false then none else if not (l == 33 + n + 16) then none else x)
      ≡ (if r == n + 16 then x else none)
lengths_agree l n r x e = ground arith

-- The first 33 bytes, and what follows them.
abbrev pub framed : Bytes → Bytes → Bytes → Bytes → Bytes
framed salt iv len rest = magic ++ (0 ∷ (salt ++ (iv ++ (len ++ rest))))

module _ (shake : Xof) where
  -- An envelope for any ciphertext.
  abbrev pub envelope : Bytes → Bytes → Bytes → Bytes → Bytes
  envelope salt iv ct key_material =
      magic
      ++ (0
          ∷ (salt
              ++ (iv
                  ++ (put_uint32 (length ct)
                      ++ (ct ++ tag shake (derive_key shake key_material salt) iv ct)))))

  pub decrypt-framed :
      (salt iv : Bytes) (a b c d : ℕ) (rest key_material : Bytes)
      → length salt ≡ 16
      → length iv ≡ 8
      → decrypt shake (framed salt iv (a ∷ b ∷ c ∷ d ∷ []) rest) key_material ≡ (
          let n = uint32 (a ∷ b ∷ c ∷ d ∷ []) in
          if length rest == n + 16
          then open_envelope shake salt iv (take n rest) (drop n rest) key_material
          else none)
  unfolding decrypt is_blob uint32
  decrypt-framed salt iv a b c d rest key_material ls li =
      let n = uint32 (a ∷ b ∷ c ∷ d ∷ []) in
      let tail = iv ++ (a ∷ b ∷ c ∷ d ∷ rest) in
      let blob = framed salt iv (a ∷ b ∷ c ∷ d ∷ []) rest in
      let at16 = drop_prefix 16 salt tail ls in
      let at24 : drop 24 (salt ++ tail) ≡ a ∷ b ∷ c ∷ d ∷ rest =
        drop_add 16 8 (salt ++ tail) ∙ ap (drop 8) at16 ∙ drop_prefix 8 iv _ li in
      let at28 : drop 28 (salt ++ tail) ≡ rest = drop_add 24 4 (salt ++ tail) ∙ ap (drop 4) at24 in
      let past : drop (33 + n) blob ≡ drop n rest = drop_add 33 n blob ∙ ap (drop n) at28 in
      let size : length blob ≡ 33 + length rest =
        omega (arith, length-append salt tail, length-append iv (a ∷ b ∷ c ∷ d ∷ rest)) in
      rw (take_prefix 16 salt tail ls, at16, take_prefix 8 iv _ li, at24, at28)
        (rw past (lengths_agree (length blob) n (length rest) _ size))

-- A 32-bit length survives its encoding.
uint32-put_uint32 :
    (n : ℕ)
    → n < 4294967296
    → n / 16777216 % 256 * 16777216 + n / 65536 % 256 * 65536 + n / 256 % 256 * 256 + n % 256 ≡ n
uint32-put_uint32 n h = omega arith

module _ (shake : Xof) where
  pub length-tag : (key iv ct : Bytes) → length (tag shake key iv ct) ≡ 16
  unfolding tag squeeze
  length-tag key iv ct = refl

  -- An envelope with the tag of its own parts opens to the ciphertext combined with the key stream.
  pub decrypt-envelope :
      (salt iv ct key_material : Bytes)
      → length salt ≡ 16
      → length iv ≡ 8
      → length ct < 4294967296
      → decrypt shake (envelope shake salt iv ct key_material) key_material
        ≡ some (xor_stream shake (derive_key shake key_material salt) iv ct)
  unfolding put_uint32 uint32 open_envelope
  decrypt-envelope salt iv ct key_material ls li lc =
      let t = tag shake (derive_key shake key_material salt) iv ct in
      let n = length ct in
      decrypt-framed shake salt iv (n / 16777216 % 256) (n / 65536 % 256) (n / 256 % 256) (n % 256)
        (ct ++ t) key_material ls li
      ∙ rw
          (
            uint32-put_uint32 n lc,
            take_prefix n ct t refl,
            drop_prefix n ct t refl,
            same_bytes_refl t,
          )
          (both (length (ct ++ t)) n _ (
            omega
              (arith, length-append ct t, length-tag (derive_key shake key_material salt) iv ct)))
    where
      both : (l n : ℕ) (x : Bytes) → l ≡ n + 16 → (if l == n + 16 then some x else none) ≡ some x
      both l n x e = ground arith

pub encrypt-envelope :
    (shake : Xof) (salt iv plaintext key_material : Bytes)
    → key_material ≢ []
    → length plaintext ≤ max_plaintext_len
    → encrypt shake salt iv plaintext key_material
      ≡ some (
          envelope shake salt iv
            (xor_stream shake (derive_key shake key_material salt) iv plaintext)
            key_material)
unfolding encrypt
encrypt-envelope shake salt iv plaintext key_material ne small =
    rw (keyed key_material ne, fits (length plaintext) small)
  where
    keyed : (k : Bytes) → k ≢ [] → (length k == 0) ≡ false
    keyed [] h = absurd (h refl)
    keyed (x ∷ xs) h = ground arith

    fits : (n : ℕ) → n ≤ max_plaintext_len → ltb max_plaintext_len n ≡ false
    fits n h = ground arith

module _ (shake : Xof) (shake_byte : (input : Bytes) (i : ℕ) → shake input i < 256) where
  -- With a key that is not empty and at most 4 MiB of plaintext, whatever salt and iv are drawn,
  -- encryption succeeds and decryption with the same key gives the plaintext back.
  pub decrypt-encrypt :
      (salt iv plaintext key_material : Bytes)
      → length salt ≡ 16
      → length iv ≡ 8
      → All IsByte plaintext
      → length plaintext ≤ max_plaintext_len
      → key_material ≢ []
      → (blob : Bytes) × (encrypt shake salt iv plaintext key_material ≡ some blob)
        × (decrypt shake blob key_material ≡ some plaintext)
  decrypt-encrypt salt iv plaintext key_material ls li lp small ne =
      let key = derive_key shake key_material salt in
      let ct = xor_stream shake key iv plaintext in
      (
        envelope shake salt iv ct key_material,
        encrypt-envelope shake salt iv plaintext key_material ne small,
        decrypt-envelope shake salt iv ct key_material ls li
              (omega (arith, length-xor_stream shake key iv plaintext))
            ∙ ap some (xor_stream_twice shake shake_byte key iv plaintext lp),
      )
