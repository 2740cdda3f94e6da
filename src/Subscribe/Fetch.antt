-- ===== src/Subscribe/Fetch.antt =====
-- clashimport.go, FetchConfigSource: the payload of a subscription address. What the request meets is
-- an argument; `SafeDo` validates the address a second time before it sends anything.
use singboxhub.Prelude.{
  ℕ, ◌+◌, ◌≤◌, ◌<◌, ◌≡◌, ◌≢◌, refl, ap, ◌∙◌, true, false, Option, none, some, [], ◌∷◌, ◌++◌, arith,
  ltb, ◌==◌, if◌then◌else◌, length, length-append, All,
}
use singboxhub.Kce.{
  Bytes, Xof, is_blob, encrypt, decrypt, derive_key, tag, xor_stream, put_uint32, max_plaintext_len,
}
use singboxhub.Kce.RoundTrip.{envelope, encrypt-envelope, decrypt-encrypt, length-tag}
use singboxhub.Kce.Stream.{IsByte, length-xor_stream}
use singboxhub.Http.Ssrf.{Net, Url, SsrfError, validate_outbound_url}

-- 8 << 20
abbrev pub fetch_size_limit : ℕ
fetch_size_limit = 8388608

pub data FetchError : Type 0 where
  unsafe_url request_failed read_failed too_large key_required undecryptable : FetchError
  bad_status : ℕ → FetchError

pub data Fetched : Type 0 where
  refused : FetchError → Fetched
  fetched : Bytes → Fetched

-- What the request gives: an error of the client, or a status and the body, which may break off.
pub data Response : Type 0 where
  failed : Response
  answered : ℕ → Option Bytes → Response

abbrev or_undecryptable : Option Bytes → Fetched
or_undecryptable none = refused undecryptable
or_undecryptable (some plain) = fetched plain

module _ (shake : Xof) where
  -- A body that was read whole, or up to one byte beyond the limit.
  pub open_payload : Bytes → Bytes → Fetched
  open_payload body key_material =
      if ltb fetch_size_limit (length body)
      then refused too_large
      else if is_blob body
      then if length key_material == 0
        then refused key_required
        else or_undecryptable (decrypt shake body key_material)
      else fetched body

  abbrev read_response : Response → Bytes → Fetched
  read_response failed key_material = refused request_failed
  read_response (answered status none) key_material =
      if status == 200 then refused read_failed else refused (bad_status status)
  read_response (answered status (some body)) key_material =
      if status == 200 then open_payload body key_material else refused (bad_status status)

  abbrev sent : Option SsrfError → Response → Bytes → Fetched
  sent (some _) response key_material = refused request_failed
  sent none response key_material = read_response response key_material

  abbrev validated : Option SsrfError → Option SsrfError → Response → Bytes → Fetched
  validated (some _) again response key_material = refused unsafe_url
  validated none again response key_material = sent again response key_material

  -- `now` and `later` number the two validations.
  pub fetch_config_source : Net → ℕ → ℕ → Option Url → Response → Bytes → Fetched
  unfolding open_payload
  fetch_config_source net now later url response key_material =
      validated (validate_outbound_url net now url) (validate_outbound_url net later url) response
        key_material

length-envelope :
    (shake : Xof) (salt iv ct key_material : Bytes)
    → length salt ≡ 16
    → length iv ≡ 8
    → length (envelope shake salt iv ct key_material) ≡ 49 + length ct
unfolding put_uint32
length-envelope shake salt iv ct key_material ls li =
    let t = tag shake (derive_key shake key_material salt) iv ct in
    let sized = put_uint32 (length ct) in
    omega (
      arith,
      length-append salt (iv ++ (sized ++ (ct ++ t))),
      length-append iv (sized ++ (ct ++ t)),
      length-append ct t,
      length-tag shake (derive_key shake key_material salt) iv ct,
      ls,
      li,
    )

is_blob-envelope :
    (shake : Xof) (salt iv ct key_material : Bytes)
    → is_blob (envelope shake salt iv ct key_material) ≡ true
unfolding is_blob
is_blob-envelope shake salt iv ct key_material = refl

-- A payload that was encrypted with a key, from at most 4 MiB, and that an address which passes both
-- validations answers with status 200, is fetched as the plaintext with that key and refused without one.
pub fetch_config_source-encrypt :
    (shake : Xof) (shake_byte : (input : Bytes) (i : ℕ) → shake input i < 256) (net : Net)
    (now later : ℕ) (url : Option Url) (salt iv plaintext key_material : Bytes)
    → validate_outbound_url net now url ≡ none
    → validate_outbound_url net later url ≡ none
    → length salt ≡ 16
    → length iv ≡ 8
    → All IsByte plaintext
    → length plaintext ≤ max_plaintext_len
    → key_material ≢ []
    → (blob : Bytes) × (encrypt shake salt iv plaintext key_material ≡ some blob)
      × (fetch_config_source shake net now later url (answered 200 (some blob)) key_material
          ≡ fetched plaintext)
      × (fetch_config_source shake net now later url (answered 200 (some blob)) []
          ≡ refused key_required)
unfolding fetch_config_source
fetch_config_source-encrypt shake shake_byte net now later url salt iv plaintext key_material v v'
      ls li bytes small ne =
    let (blob, made, opened) =
      decrypt-encrypt shake shake_byte salt iv plaintext key_material ls li bytes small ne in
    let ct = xor_stream shake (derive_key shake key_material salt) iv plaintext in
    let framed : blob ≡ envelope shake salt iv ct key_material =
      cc (made, encrypt-envelope shake salt iv plaintext key_material ne small) in
    let fits : ltb fetch_size_limit (length blob) ≡ false =
      fits_limit (length blob)
        (ap length framed ∙ length-envelope shake salt iv ct key_material ls li)
        (length-xor_stream shake (derive_key shake key_material salt) iv plaintext) small in
    let known : is_blob blob ≡ true =
      ap is_blob framed ∙ is_blob-envelope shake salt iv ct key_material in
    (
      blob,
      made,
      rw (v, v', open_payload, fits, known, is_keyed key_material ne, opened) refl,
      rw (v, v', open_payload, fits, known) refl,
    )
  where
    fits_limit :
        (n : ℕ) {m k : ℕ}
        → n ≡ 49 + m
        → m ≡ k
        → k ≤ max_plaintext_len
        → ltb fetch_size_limit n ≡ false
    fits_limit n e e' h = ground arith

    is_keyed : (k : Bytes) → k ≢ [] → (length k == 0) ≡ false
    is_keyed [] h = absurd (h refl)
    is_keyed (x ∷ xs) h = ground arith
