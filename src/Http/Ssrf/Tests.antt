-- ===== src/Http/Ssrf/Tests.antt =====
-- A name that DNS moves from a public to an internal address between the check and the dial, for the
-- theorems about ssrf.go.
use singboxhub.Prelude.{
  ℕ, ◌≡◌, ◌≢◌, ◌⊎◌, refl, false, Option, none, some, List, [], ◌∷◌, All, ltb→lt, ◌==◌,
  if◌then◌else◌,
}
use singboxhub.Prelude.Bytes.{bytes_of, eq_bytes, has_suffix, to_lower}
use singboxhub.Http.Ssrf.{
  Ip, v4, v6, is_private_ip, any_private, Net, Url, is_private_hostname, validate_resolved_ips,
  validate_outbound_url, safe_dial_context,
}
use singboxhub.Http.Ssrf.Dial.{IsPublic, safe_dial_context-IsPublic}
use singboxhub.Http.Ssrf.Accepted.{resolved, validate_outbound_url-accepted}
use singboxhub.Http.Ssrf.Ranges.{address, is_refused, is_private_ip-ranges}

abbrev public_ip : Ip
public_ip = v4 93 184 216 34

abbrev busy_ip : Ip
busy_ip = v4 93 184 216 35

abbrev host : List ℕ
host = bytes_of "geo.example"

abbrev refuses : Ip → Option ℕ
refuses (v4 a b c d) = if d == 35 then some 111 else none
refuses (v6 a b rest) = none

-- The check sees a public address; the dial sees an internal one, one that refuses, and the first.
abbrev rebinding : Net
rebinding = record {
  parse_ip = λ _. none;
  lookup_ip = λ now _.
      if now == 0 then some (public_ip ∷ []) else some (v4 10 0 0 7 ∷ busy_ip ∷ public_ip ∷ []);
  dial = λ ip. refuses ip;
}

safe_dial_context-IsPublic_example :
    All IsPublic (safe_dial_context rebinding 0 (some host)).contacted
safe_dial_context-IsPublic_example = safe_dial_context-IsPublic rebinding 0 (some host)

host_passes : validate_resolved_ips rebinding 0 host ≡ none
unfolding validate_resolved_ips any_private
host_passes = refl

abbrev url : Url
url = record {
  scheme = bytes_of "https";
  has_user = false;
  host = bytes_of "geo.example";
  hostname = bytes_of "geo.example";
  raw_query = bytes_of "fields=city";
}

url_passes : validate_outbound_url rebinding 0 (some url) ≡ none
unfolding validate_outbound_url validate_resolved_ips any_private is_private_hostname eq_bytes
    has_suffix to_lower
url_passes = refl

validate_outbound_url-accepted_example :
    (false ≡ false)
    × ((bytes_of "https" ≡ bytes_of "http") ⊎ (bytes_of "https" ≡ bytes_of "https"))
    × (host ≢ [])
    × (is_private_hostname host ≡ false)
    × (resolved rebinding 0 host ≢ [])
    × All IsPublic (resolved rebinding 0 host)
validate_outbound_url-accepted_example = validate_outbound_url-accepted rebinding 0 url url_passes

is_private_ip-ranges_example :
    is_private_ip (v4 172 31 255 255) ≡ is_refused (address 172 31 255 255)
is_private_ip-ranges_example =
    is_private_ip-ranges 172 31 255 255 (ltb→lt 172 256 refl) (ltb→lt 31 256 refl)
      (ltb→lt 255 256 refl) (ltb→lt 255 256 refl)
