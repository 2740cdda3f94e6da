-- ===== src/Kce/Accepts.antt =====
-- kce.go: what `Decrypt` accepts.
use singboxhub.Prelude.{
  ℕ, zero, suc, ◌+◌, ◌-◌, ◌*◌, ◌/◌, ◌%◌, ◌≤◌, ◌<◌, ◌≡◌, refl, sym, ap, ◌∙◌, Bool, true, ◌||◌,
  Option, none, some, [], ◌∷◌, ◌++◌, arith, ltb, ◌==◌, if◌then◌else◌, length, take, drop, get_or,
  length-drop, length-take, take-append-drop, drop_add, All, Bool-cases, inl, inr,
}
use singboxhub.Kce.{
  Bytes, Xof, magic, same_bytes, is_blob, put_uint32, uint32, derive_key, tag, xor_stream,
  open_envelope, decrypt,
}
use singboxhub.Kce.Stream.{IsByte, xor_stream_twice}
use singboxhub.Kce.RoundTrip.{envelope, framed, decrypt-framed, same_bytes_sound}

All-drop : (n : ℕ) (xs : Bytes) → All IsByte xs → All IsByte (drop n xs)
All-drop zero xs h = h
All-drop (suc n) [] h = tt
All-drop (suc n) (x ∷ xs) h = All-drop n xs h.1

All-take : (n : ℕ) (xs : Bytes) → All IsByte xs → All IsByte (take n xs)
All-take zero xs h = tt
All-take (suc n) [] h = tt
All-take (suc n) (x ∷ xs) h = (h.0, All-take n xs h.1)

-- A list of at least 33 bytes with the magic and the version is framed.
framed_parts :
    (blob : Bytes)
    → take 4 blob ≡ magic
    → get_or blob 4 0 ≡ 0
    → 5 ≤ length blob
    → blob ≡ magic ++ (0 ∷ drop 5 blob)
framed_parts (k ∷ c ∷ e ∷ o ∷ v ∷ rest) m z l =
    let hs : k ∷ c ∷ e ∷ o ∷ [] ≡ magic = m in
    ap (λ front. front ++ (v ∷ rest)) hs ∙ ap (λ x. magic ++ (x ∷ rest)) z
framed_parts _ m z l = absurd (omega arith)

pieces :
    (xs : Bytes) → xs ≡ take 16 xs ++ (take 8 (drop 16 xs) ++ (take 4 (drop 24 xs) ++ drop 28 xs))
pieces xs =
    sym (take-append-drop 16 xs)
    ∙ ap (λ r. take 16 xs ++ r)
        (sym (take-append-drop 8 (drop 16 xs))
          ∙ ap (λ r. take 8 (drop 16 xs) ++ r)
              (sym (drop_add 16 8 xs)
                ∙ sym (take-append-drop 4 (drop 24 xs))
                ∙ ap (λ r. take 4 (drop 24 xs) ++ r) (sym (drop_add 24 4 xs))))

four :
    (xs : Bytes)
    → 4 ≤ length xs
    → (a : ℕ) × (b : ℕ) × (c : ℕ) × (d : ℕ) × (take 4 xs ≡ a ∷ b ∷ c ∷ d ∷ [])
four (a ∷ b ∷ c ∷ d ∷ xs) h = (a, b, c, d, refl)
four _ h = absurd (omega arith)

same_length : (n : ℕ) (b : Bool) → n < 49 → ltb n 49 || b ≡ true
same_length n b h = ground arith

-- The framing tests that a blob has passed.
passed :
    (shake : Xof) (blob key_material plaintext : Bytes)
    → decrypt shake blob key_material ≡ some plaintext
    → (49 ≤ length blob) × (take 4 blob ≡ magic) × (get_or blob 4 0 ≡ 0)
unfolding decrypt is_blob
passed shake blob key_material plaintext h = elim (Bool-cases (same_bytes (take 4 blob) magic)) [
  | inl same ↦ (ground arith, same_bytes_sound (take 4 blob) magic same, ground arith)
  | inr other ↦ absurd (refused (length blob) _ (rw other at h))
]
  where
    refused :
        (n : ℕ) (x : Option Bytes) → (if ltb n 49 || true then none else x) ≡ some plaintext → ⊥
    refused n x e = ground arith

-- The tag test that the parts have passed.
opened :
    (shake : Xof) (salt iv ct got key_material plaintext : Bytes)
    → open_envelope shake salt iv ct got key_material ≡ some plaintext
    → (tag shake (derive_key shake key_material salt) iv ct ≡ got)
      × (xor_stream shake (derive_key shake key_material salt) iv ct ≡ plaintext)
unfolding open_envelope
opened shake salt iv ct got key_material plaintext h =
    elim (Bool-cases (same_bytes (tag shake (derive_key shake key_material salt) iv ct) got)) [
      | inl same ↦ (same_bytes_sound _ got same, ground arith)
      | inr other ↦ absurd (cc (rw other at h))
    ]

sized :
    (r n : ℕ) (x : Option Bytes) (p : Bytes)
    → (if r == n + 16 then x else none) ≡ some p
    → (r ≡ n + 16) × (x ≡ some p)
sized r n x p h = ground arith

put_uint32-uint32 :
    (a b c d : ℕ)
    → a < 256
    → b < 256
    → c < 256
    → d < 256
    → put_uint32 (a * 16777216 + b * 65536 + c * 256 + d) ≡ a ∷ b ∷ c ∷ d ∷ []
unfolding put_uint32
put_uint32-uint32 a b c d ha hb hc hd =
    let n = a * 16777216 + b * 65536 + c * 256 + d in
    let ea : n / 16777216 % 256 ≡ a = omega arith in
    let eb : n / 65536 % 256 ≡ b = omega arith in
    let ec : n / 256 % 256 ≡ c = omega arith in
    let ed : n % 256 ≡ d = omega arith in rw (ea, eb, ec, ed)

rebuilt :
    (blob : Bytes) (a b c d : ℕ)
    → blob ≡ magic ++ (0 ∷ drop 5 blob)
    → take 4 (drop 24 (drop 5 blob)) ≡ a ∷ b ∷ c ∷ d ∷ []
    → blob
      ≡ framed
          (take 16 (drop 5 blob))
          (take 8 (drop 16 (drop 5 blob)))
          (a ∷ b ∷ c ∷ d ∷ [])
          (drop 28 (drop 5 blob))
rebuilt blob a b c d whole four_is =
    whole
    ∙ ap (λ r. magic ++ (0 ∷ r)) (pieces (drop 5 blob))
    ∙ ap
        (λ u.
          framed (take 16 (drop 5 blob)) (take 8 (drop 16 (drop 5 blob))) u (drop 28 (drop 5 blob)))
        four_is

bytes_of_four :
    (xs : Bytes) (a b c d : ℕ)
    → All IsByte xs
    → xs ≡ a ∷ b ∷ c ∷ d ∷ []
    → (a < 256) × (b < 256) × (c < 256) × (d < 256)
bytes_of_four xs a b c d h e =
    let k : All IsByte (a ∷ b ∷ c ∷ d ∷ []) = rw e at h in (k.0, k.1.0, k.1.1.0, k.1.1.1.0)

module _ (shake : Xof) (shake_byte : (input : Bytes) (i : ℕ) → shake input i < 256) where
  -- Whatever `Decrypt` accepts is an envelope of its result: for some salt of 16 bytes, iv of 8 bytes
  -- and ciphertext, the blob is the header, the parts and the tag of exactly these, and the result is
  -- the ciphertext combined with the key stream. So no other framing, length, trailing byte or tag
  -- is accepted.
  pub decrypt_accepts_envelopes :
      (blob key_material plaintext : Bytes)
      → All IsByte blob
      → decrypt shake blob key_material ≡ some plaintext
      → (salt : Bytes) × (iv : Bytes) × (length salt ≡ 16)
        × (length iv ≡ 8)
        × (blob
            ≡ envelope shake salt iv
                (xor_stream shake (derive_key shake key_material salt) iv plaintext)
                key_material)
  unfolding uint32
  decrypt_accepts_envelopes blob key_material plaintext bytes h =
      let (long, m, z) = passed shake blob key_material plaintext h in
      let whole = framed_parts blob m z (omega arith) in
      let tail = drop 5 blob in
      let size : length tail ≡ length blob - 5 = length-drop 5 blob in
      let salt = take 16 tail in
      let iv = take 8 (drop 16 tail) in
      let rest = drop 28 tail in
      let (a, b, c, d, four_is) = four (drop 24 tail) (omega (arith, length-drop 24 tail)) in
      let ls : length salt ≡ 16 = length-take 16 tail (omega arith) in
      let li : length iv ≡ 8 = length-take 8 (drop 16 tail) (omega (arith, length-drop 16 tail)) in
      let shape = rebuilt blob a b c d whole four_is in
      let byte =
        bytes_of_four (take 4 (drop 24 tail)) a b c d
          (All-take 4 (drop 24 tail) (All-drop 24 tail (All-drop 5 blob bytes))) four_is in
      let n = a * 16777216 + b * 65536 + c * 256 + d in
      let read : decrypt shake (framed salt iv (a ∷ b ∷ c ∷ d ∷ []) rest) key_material
          ≡ some plaintext =
        ap (λ x. decrypt shake x key_material) (sym shape) ∙ h in
      let (exact, open_) =
        sized (length rest) n (open_envelope shake salt iv (take n rest) (drop n rest) key_material)
          plaintext (sym (decrypt-framed shake salt iv a b c d rest key_material ls li) ∙ read) in
      let ct = take n rest in
      let (tagged, plain) = opened shake salt iv ct (drop n rest) key_material plaintext open_ in
      let lc : length ct ≡ n = length-take n rest (omega arith) in
      let key = derive_key shake key_material salt in
      let back : ct ≡ xor_stream shake key iv plaintext =
        sym (
          xor_stream_twice shake shake_byte key iv ct
            (All-take n rest (All-drop 28 tail (All-drop 5 blob bytes))))
        ∙ ap (xor_stream shake key iv) plain in
      let sealed : blob ≡ envelope shake salt iv ct key_material =
        shape
        ∙ ap (λ u. framed salt iv u rest)
            (sym (ap put_uint32 lc ∙ put_uint32-uint32 a b c d byte.0 byte.1 byte.2 byte.3))
        ∙ ap (λ r. framed salt iv (put_uint32 (length ct)) r)
            (sym (take-append-drop n rest) ∙ ap (λ r. ct ++ r) (sym tagged)) in
      (salt, iv, ls, li, sealed ∙ ap (λ x. envelope shake salt iv x key_material) back)
