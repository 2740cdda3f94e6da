-- ===== src/Http/Ssrf/Accepted.antt =====
-- ssrf.go, `ValidateOutboundURL`: what holds of a URL that it lets through.
use singboxhub.Prelude.{
  ℕ, ◌≡◌, ◌≢◌, ◌↔◌, ◌⊎◌, refl, inl, inr, Bool, true, false, not, ◌&&◌, ◌||◌, Option, none, some,
  List, [], ◌∷◌, All, if◌then◌else◌, Bool-cases,
}
use singboxhub.Prelude.Bytes.{bytes_of, eq_bytes, eq_bytes_sound}
use singboxhub.Http.Ssrf.{
  Ip, is_private_ip, SsrfError, Net, Url, unresolved, private_ip, private_resolved, userinfo,
  bad_query, bad_scheme, no_hostname, private_hostname, is_private_hostname, any_private,
  validate_resolved_ips, validate_outbound_url,
}
use singboxhub.Http.Ssrf.Dial.{IsPublic}

-- What a host stands for at call `now`: itself, if it is an address, or the answer of DNS.
abbrev pub resolved : Net → ℕ → List ℕ → List Ip
resolved net now host = elim (net.parse_ip host) [
  | some ip ↦ ip ∷ []
  | none ↦ elim (net.lookup_ip now host) [ none ↦ [] | some ips ↦ ips ]
]

any_private-IsPublic : (ips : List Ip) → any_private ips ≡ false → All IsPublic ips
unfolding any_private
any_private-IsPublic [] e = tt
any_private-IsPublic (ip ∷ ips) e = elim (Bool-cases (is_private_ip ip)) [
  | inl p ↦ absurd (cc (rw p at e))
  | inr p ↦ (p, any_private-IsPublic ips (rw p at e))
]

IsPublic-any_private : (ips : List Ip) → All IsPublic ips → any_private ips ≡ false
unfolding any_private
IsPublic-any_private [] h = refl
IsPublic-any_private (ip ∷ ips) h = rw h.0 (IsPublic-any_private ips h.1)

if_none : {A : Type 0} (b : Bool) (a : A) → (if b then some a else none) ≡ none → b ≡ false
if_none true a e = absurd (cc e)
if_none false a e = refl

-- A host passes `validateResolvedIPs` exactly when it stands for at least one address and all of its
-- addresses are public.
pub validate_resolved_ips_iff :
    (net : Net) (now : ℕ) (host : List ℕ)
    → (validate_resolved_ips net now host ≡ none)
      ↔ (resolved net now host ≢ [] × All IsPublic (resolved net now host))
unfolding validate_resolved_ips
validate_resolved_ips_iff net now host = at (net.parse_ip host) (net.lookup_ip now host)
  where
    at :
        (o : Option Ip) (ips : Option (List Ip))
        → ((elim o as (λ _. Option SsrfError) [
          | some ip ↦ if is_private_ip ip then some private_ip else none
          | none ↦ elim ips as (λ _. Option SsrfError) [
            | none ↦ some unresolved
            | some [] ↦ some unresolved
            | some (ip ∷ ips) ↦ if any_private (ip ∷ ips) then some private_resolved else none
          ]
        ])
            ≡ none)
          ↔ ((elim o as (λ _. List Ip) [
            | some ip ↦ ip ∷ []
            | none ↦ elim ips as (λ _. List Ip) [ none ↦ [] | some ips ↦ ips ]
          ])
                ≢ []
              × All IsPublic (elim o as (λ _. List Ip) [
                | some ip ↦ ip ∷ []
                | none ↦ elim ips as (λ _. List Ip) [ none ↦ [] | some ips ↦ ips ]
              ]))
    at (some ip) ips =
        ((λ e. ((λ n. cc n), (if_none (is_private_ip ip) private_ip e, tt))), λ h. rw h.1.0 refl)
    at none none = ((λ e. absurd (cc e)), λ h. absurd (h.0 refl))
    at none (some []) = ((λ e. absurd (cc e)), λ h. absurd (h.0 refl))
    at none (some (ip ∷ ips)) = (
      (λ e. (
        (λ n. cc n),
        any_private-IsPublic (ip ∷ ips) (if_none (any_private (ip ∷ ips)) private_resolved e),
      )),
      λ h. rw (IsPublic-any_private (ip ∷ ips) h.1) refl,
    )

passes :
    {A : Type 0} (b : Bool) (a : A) (o : Option A)
    → (if b then some a else o) ≡ none
    → (b ≡ false) × (o ≡ none)
passes true a o e = absurd (cc e)
passes false a o e = (refl, e)

or_false : (a b : Bool) → (a || b) ≡ false → a ≡ false
or_false true b e = absurd (cc e)
or_false false b e = refl

one_of : (x y z : List ℕ) → (not (eq_bytes x y) && not (eq_bytes x z)) ≡ false → (x ≡ y) ⊎ (x ≡ z)
one_of x y z e = elim (Bool-cases (eq_bytes x y)) [
  | inl a ↦ inl (eq_bytes_sound x y a)
  | inr a ↦ elim (Bool-cases (eq_bytes x z)) [
    | inl b ↦ inr (eq_bytes_sound x z b)
    | inr b ↦ absurd (cc (rw (a, b) at e))
  ]
]

not_empty : (x : List ℕ) → eq_bytes x [] ≡ false → x ≢ []
unfolding eq_bytes
not_empty [] e n = cc e
not_empty (c ∷ x) e n = cc n

-- A URL that `ValidateOutboundURL` accepts carries no user information, has scheme http or https, names a host that
-- is not an internal name, and stands, when it is checked, for at least one address and for public ones only.
pub validate_outbound_url-accepted :
    (net : Net) (now : ℕ) (u : Url)
    → validate_outbound_url net now (some u) ≡ none
    → (u.has_user ≡ false)
      × ((u.scheme ≡ bytes_of "http") ⊎ (u.scheme ≡ bytes_of "https"))
      × (u.hostname ≢ [])
      × (is_private_hostname u.hostname ≡ false)
      × (resolved net now u.hostname ≢ [])
      × All IsPublic (resolved net now u.hostname)
unfolding validate_outbound_url
validate_outbound_url-accepted net now u e0 =
    let (user, e1) = passes _ userinfo _ e0 in
    let (query, e2) = passes _ bad_query _ e1 in
    let (scheme, e3) = passes _ bad_scheme _ e2 in
    let (empty, e4) = passes _ no_hostname _ e3 in
    let (name, e5) = passes _ private_hostname _ e4 in
    let ips = (validate_resolved_ips_iff net now u.hostname).0 e5 in
    (
      or_false u.has_user _ user,
      one_of u.scheme (bytes_of "http") (bytes_of "https") scheme,
      not_empty u.hostname empty,
      name,
      ips.0,
      ips.1,
    )
