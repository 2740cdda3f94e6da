-- ===== src/Kce.antt =====
-- backend/internal/kce/kce.go: the KCE1 envelope. SHAKE-256 is a parameter: an input's output is the
-- unbounded byte stream that reads of the sponge take from in turn. Bytes are numbers below 256.
pub mod Stream
pub mod RoundTrip
pub mod Accepts
mod Tests
use singboxhub.Prelude.{
  ℕ, zero, suc, ◌+◌, ◌-◌, ◌*◌, ◌/◌, ◌%◌, ◌<◌, Bool, true, false, not, ◌&&◌, ◌||◌, Option, none,
  some, List, [], ◌∷◌, ◌++◌, ltb, ◌==◌, if◌then◌else◌, length, take, drop, get_or,
}
use Prim.Native.Nat.{bit_xor, min}

abbrev pub Bytes : Type 0
Bytes = List ℕ

-- `shake input i` is byte `i` of the output.
abbrev pub Xof : Type 0
Xof = Bytes → ℕ → ℕ

abbrev pub magic : Bytes
magic = b'K' ∷ b'C' ∷ b'E' ∷ b'1' ∷ []

abbrev pub salt_bytes : ℕ
salt_bytes = 16

abbrev pub iv_bytes : ℕ
iv_bytes = 8

abbrev pub tag_bytes : ℕ
tag_bytes = 16

abbrev pub key_bytes : ℕ
key_bytes = 32

abbrev pub block_bytes : ℕ
block_bytes = 64

-- len(magic) + 1 + saltBytes + ivBytes + 4
abbrev pub header_len : ℕ
header_len = 33

abbrev pub max_plaintext_len : ℕ
max_plaintext_len = 4194304

abbrev pub same_bytes : Bytes → Bytes → Bool
same_bytes [] [] = true
same_bytes (x ∷ xs) (y ∷ ys) = x == y && same_bytes xs ys
same_bytes _ _ = false

unfoldable pub is_blob : Bytes → Bool
is_blob blob = same_bytes (take 4 blob) magic

-- binary.BigEndian.AppendUint32 and Uint32; bytes beyond the end read as 0, which `decrypt` excludes.
unfoldable pub put_uint32 : ℕ → Bytes
put_uint32 n = n / 16777216 % 256 ∷ n / 65536 % 256 ∷ n / 256 % 256 ∷ n % 256 ∷ []

pub uint32 : Bytes → ℕ
uint32 (a ∷ b ∷ c ∷ d ∷ rest) = a * 16777216 + b * 65536 + c * 256 + d
uint32 _ = 0

module _ (shake : Xof) where
  -- `h.Read` of `n` bytes when `at` bytes were read before.
  pub squeeze : Bytes → ℕ → ℕ → Bytes
  squeeze input at zero = []
  squeeze input at (suc n) = shake input at ∷ squeeze input (suc at) n

  pub derive_key : Bytes → Bytes → Bytes
  unfolding squeeze
  derive_key key_material salt = squeeze (key_material ++ salt) 0 key_bytes

  pub tag : Bytes → Bytes → Bytes → Bytes
  unfolding squeeze put_uint32
  tag key iv ct = squeeze (key ++ (iv ++ (put_uint32 (length ct) ++ ct))) 0 tag_bytes

-- The inner loop: `out[start+i] = data[start+i] ^ block[i]`.
pub xor_block : Bytes → Bytes → Bytes
xor_block (d ∷ ds) (b ∷ bs) = bit_xor d b ∷ xor_block ds bs
xor_block _ _ = []

module _ (shake : Xof) where
  -- The loop over blocks, on the data left and the number of bytes read; `fuel` bounds the rounds.
  pub xor_blocks : ℕ → Bytes → ℕ → Bytes → Bytes
  unfolding squeeze xor_block
  xor_blocks zero seed start bytes = []
  xor_blocks (suc fuel) seed start [] = []
  xor_blocks (suc fuel) seed start (d ∷ ds) =
      let n = min block_bytes (length (d ∷ ds)) in
      xor_block (take n (d ∷ ds)) (squeeze shake seed start n)
      ++ xor_blocks fuel seed (start + n) (drop n (d ∷ ds))

  pub xor_stream : Bytes → Bytes → Bytes → Bytes
  unfolding xor_blocks
  xor_stream key iv bytes = xor_blocks (length bytes) (key ++ iv) 0 bytes

  -- `none` is an error; `salt` and `iv` are what `randomBytes` returned.
  pub encrypt : Bytes → Bytes → Bytes → Bytes → Option Bytes
  encrypt salt iv plaintext key_material =
      if length key_material == 0
      then none
      else if ltb max_plaintext_len (length plaintext)
      then none
      else let key = derive_key shake key_material salt in
        let ct = xor_stream key iv plaintext in
        some
          (magic ++ (0 ∷ (salt ++ (iv ++ (put_uint32 (length ct) ++ (ct ++ tag shake key iv ct))))))

  -- What follows the framing checks, on the parts of the blob.
  pub open_envelope : Bytes → Bytes → Bytes → Bytes → Bytes → Option Bytes
  open_envelope salt iv ct got key_material =
      let key = derive_key shake key_material salt in
      if same_bytes (tag shake key iv ct) got then some (xor_stream key iv ct) else none

  pub decrypt : Bytes → Bytes → Option Bytes
  unfolding is_blob uint32
  decrypt blob key_material =
      if ltb (length blob) (header_len + tag_bytes) || not (is_blob blob)
      then none
      else if not (get_or blob 4 0 == 0)
      then none
      else let salt = take salt_bytes (drop 5 blob) in
        let iv = take iv_bytes (drop 21 blob) in
        let ct_len = uint32 (drop 29 blob) in
        if not (length blob == 33 + ct_len + tag_bytes)
        then none
        else open_envelope salt iv (take ct_len (drop 33 blob)) (drop (33 + ct_len) blob)
            key_material
