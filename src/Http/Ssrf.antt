-- ===== src/Http/Ssrf.antt =====
-- backend/internal/httpx/ssrf.go: which addresses the panel dials on behalf of a user.
pub mod Ranges
mod Tests
pub mod Dial
pub mod Accepted
use singboxhub.Prelude.{
  ℕ, ◌+◌, ◌*◌, ◌%◌, ◌≤◌, ◌<◌, ◌⊎◌, inl, inr, String, Bool, true, false, not, ◌&&◌, ◌||◌, Option,
  none, some, List, [], ◌∷◌, leb, ltb, ◌==◌, if◌then◌else◌,
}
use singboxhub.Prelude.Bytes.{bytes_of, eq_bytes, has_suffix, to_lower}

-- `net.IP`: an IPv4 address, be it 4 bytes or mapped into IPv6 (`To4` gives it), or the first two and
-- the other fourteen bytes of another IPv6 address.
pub data Ip : Type 0 where
  v4 : ℕ → ℕ → ℕ → ℕ → Ip
  v6 : ℕ → ℕ → List ℕ → Ip

-- Bytes 2 to 15 of ::1
abbrev pub loopback_rest : List ℕ
loopback_rest = 0 ∷ 0 ∷ 0 ∷ 0 ∷ 0 ∷ 0 ∷ 0 ∷ 0 ∷ 0 ∷ 0 ∷ 0 ∷ 0 ∷ 0 ∷ 1 ∷ []

pub is_loopback : Ip → Bool
is_loopback (v4 a b c d) = a == 127
is_loopback (v6 a b rest) = a == 0 && (b == 0 && eq_bytes rest loopback_rest)

-- 169.254.0.0/16 and fe80::/10
pub is_link_local_unicast : Ip → Bool
is_link_local_unicast (v4 a b c d) = a == 169 && b == 254
is_link_local_unicast (v6 a b rest) = a == 254 && (leb 128 b && ltb b 192)

-- 224.0.0.0/24 and ff?2::/16
pub is_link_local_multicast : Ip → Bool
is_link_local_multicast (v4 a b c d) = a == 224 && (b == 0 && c == 0)
is_link_local_multicast (v6 a b rest) = a == 255 && b % 16 == 2

-- RFC 1918 and fc00::/7
pub is_private : Ip → Bool
is_private (v4 a b c d) =
    a == 10 || ((a == 172 && (leb 16 b && ltb b 32)) || (a == 192 && b == 168))
is_private (v6 a b rest) = a == 252 || a == 253

-- `ip.Equal`, with an IPv4 address.
abbrev pub is_v4 : ℕ → ℕ → ℕ → ℕ → Ip → Bool
is_v4 p q r s (v4 a b c d) = a == p && (b == q && (c == r && d == s))
is_v4 p q r s (v6 _ _ _) = false

abbrev pub is_metadata : Ip → Bool
is_metadata (v4 a b c d) = a == 169 && b == 254
is_metadata (v6 _ _ _) = false

unfoldable pub is_private_ip : Ip → Bool
unfolding is_loopback is_link_local_unicast is_link_local_multicast is_private
is_private_ip ip =
    if is_loopback ip
    then true
    else if is_link_local_unicast ip || is_link_local_multicast ip
    then true
    else if is_private ip
    then true
    else if is_metadata ip
    then true
    else is_v4 192 0 2 0 ip || (is_v4 198 51 100 0 ip || is_v4 203 0 113 0 ip)

-- The `Detail` of an error, by its cause.
pub data SsrfError : Type 0 where
  not_a_url userinfo bad_query bad_scheme no_hostname private_hostname private_ip unresolved :
      SsrfError
  private_resolved bad_address bad_port no_public_address too_many_redirects : SsrfError
  dial_failed : ℕ → SsrfError

-- What the network answers. DNS may change its mind: the answers are numbered by the call.
pub record Net : Type 0 where
  pub parse_ip : List ℕ → Option Ip
  pub lookup_ip : ℕ → List ℕ → Option (List Ip)
  -- `none`: connected
  pub dial : Ip → Option ℕ

unfoldable pub is_private_hostname : List ℕ → Bool
unfolding eq_bytes has_suffix to_lower
is_private_hostname hostname =
    let h = to_lower hostname in
    if eq_bytes h (bytes_of "localhost")
      || (eq_bytes h (bytes_of "127.0.0.1") || eq_bytes h (bytes_of "::1"))
    then true
    else if eq_bytes h (bytes_of "169.254.169.254")
        || eq_bytes h (bytes_of "metadata.google.internal")
    then true
    else has_suffix h (bytes_of ".internal") || has_suffix h (bytes_of ".local")

unfoldable pub any_private : List Ip → Bool
unfolding is_private_ip
any_private [] = false
any_private (ip ∷ ips) = is_private_ip ip || any_private ips

-- The lookup that this makes, if any, is the call number `now`.
unfoldable pub validate_resolved_ips : Net → ℕ → List ℕ → Option SsrfError
unfolding any_private is_private_ip
validate_resolved_ips net now hostname = elim (net.parse_ip hostname) [
  | some ip ↦ if is_private_ip ip then some private_ip else none
  | none ↦ elim (net.lookup_ip now hostname) [
    | none ↦ some unresolved
    | some [] ↦ some unresolved
    | some (ip ∷ ips) ↦ if any_private (ip ∷ ips) then some private_resolved else none
  ]
]

-- What `url.Parse` finds in a text.
pub record Url : Type 0 where
  pub scheme : List ℕ
  pub has_user : Bool
  pub host : List ℕ
  pub hostname : List ℕ
  pub raw_query : List ℕ

-- `strings.Contains` and `strings.ContainsAny`, of single bytes
abbrev pub contains : ℕ → List ℕ → Bool
contains c [] = false
contains c (x ∷ xs) = x == c || contains c xs

unfoldable pub validate_outbound_url : Net → ℕ → Option Url → Option SsrfError
unfolding is_private_hostname validate_resolved_ips eq_bytes
validate_outbound_url net now none = some not_a_url
validate_outbound_url net now (some u) =
    if u.has_user || (not (eq_bytes u.host u.hostname) && contains b'@' u.host)
    then some userinfo
    else if not (eq_bytes u.raw_query []) && (contains 13 u.raw_query || contains 10 u.raw_query)
    then some bad_query
    else if not (eq_bytes u.scheme (bytes_of "http")) && not (eq_bytes u.scheme (bytes_of "https"))
    then some bad_scheme
    else if eq_bytes u.hostname []
    then some no_hostname
    else if is_private_hostname u.hostname
    then some private_hostname
    else validate_resolved_ips net now u.hostname

-- `CheckRedirect` of `SafeHTTPClient`
pub check_redirect : Net → ℕ → ℕ → Option Url → Option SsrfError
unfolding validate_outbound_url
check_redirect net now via u =
    if leb 5 via then some too_many_redirects else validate_outbound_url net now u

-- The outcome of a dial and the addresses that were contacted, in order.
pub record Dialled : Type 0 where
  pub result : SsrfError ⊎ Ip
  pub contacted : List Ip

-- One address: whether it is private, what dialling it gives, what the loop does next if it is
-- skipped, and if it fails.
pub dial_one : Bool → Option ℕ → Ip → Dialled → (ℕ → Dialled) → Dialled
dial_one true answer ip skipped failed = skipped
dial_one false none ip skipped failed = record { result = inr ip; contacted = ip ∷ [] }
dial_one false (some e) ip skipped failed = record {
  result = (failed e).result;
  contacted = ip ∷ (failed e).contacted;
}

pub dial_each : Net → SsrfError → List Ip → Dialled
unfolding is_private_ip dial_one
dial_each net last [] = record { result = inl last; contacted = [] }
dial_each net last (ip ∷ ips) =
    dial_one (is_private_ip ip) (net.dial ip) ip (dial_each net last ips)
      (λ e. dial_each net (dial_failed e) ips)

-- `safeDialContext` after `SplitHostPort` gave `host` (`none`: it failed).
pub safe_dial_context : Net → ℕ → Option (List ℕ) → Dialled
unfolding validate_resolved_ips dial_each
safe_dial_context net now none = record { result = inl bad_address; contacted = [] }
safe_dial_context net now (some host) = elim (validate_resolved_ips net now host) [
  | some e ↦ record { result = inl e; contacted = [] }
  | none ↦ elim (net.lookup_ip (now + 1) host) [
    | none ↦ record { result = inl unresolved; contacted = [] }
    | some ips ↦ dial_each net no_public_address ips
  ]
]

-- `ValidateTCPAddress`, the brackets already trimmed.
pub validate_tcp_address : Net → ℕ → List ℕ → ℕ → Option SsrfError
unfolding validate_resolved_ips
validate_tcp_address net now host port =
    if ltb port 1 || ltb 65535 port then some bad_port else validate_resolved_ips net now host
