-- ===== src/Http/Ssrf/Dial.antt =====
-- ssrf.go, `safeDialContext`: every address that is contacted is public, whatever DNS answers.
use singboxhub.Prelude.{
  ℕ, ◌+◌, ◌≡◌, refl, inl, inr, Bool, true, false, Option, none, some, List, [], ◌∷◌, All,
  if◌then◌else◌,
}
use singboxhub.Http.Ssrf.{
  Ip, is_private_ip, SsrfError, unresolved, no_public_address, dial_failed, Net, Dialled, dial_one,
  dial_each, validate_resolved_ips, safe_dial_context,
}

abbrev pub IsPublic : Ip → Type 0
IsPublic ip = is_private_ip ip ≡ false

-- The first public address of an answer that accepts a connection.
abbrev pub first_open : Net → List Ip → Option Ip
first_open net [] = none
first_open net (ip ∷ ips) =
    let rest = first_open net ips in
    if is_private_ip ip then rest else elim (net.dial ip) [ none ↦ some ip | some _ ↦ rest ]

abbrev pub connected : Dialled → Option Ip
connected d = elim d.result [ inl _ ↦ none | inr ip ↦ some ip ]

dial_one-IsPublic :
    (b : Bool) (o : Option ℕ) (ip : Ip) (skipped : Dialled) (failed : ℕ → Dialled)
    → is_private_ip ip ≡ b
    → All IsPublic skipped.contacted
    → ((e : ℕ) → All IsPublic (failed e).contacted)
    → All IsPublic (dial_one b o ip skipped failed).contacted
unfolding dial_one
dial_one-IsPublic true o ip skipped failed p skip fail = skip
dial_one-IsPublic false none ip skipped failed p skip fail = (p, tt)
dial_one-IsPublic false (some e) ip skipped failed p skip fail = (p, fail e)

dial_each-IsPublic :
    (net : Net) (last : SsrfError) (ips : List Ip) → All IsPublic (dial_each net last ips).contacted
unfolding dial_each
dial_each-IsPublic net last [] = tt
dial_each-IsPublic net last (ip ∷ ips) =
    dial_one-IsPublic (is_private_ip ip) (net.dial ip) ip (dial_each net last ips)
      (λ e. dial_each net (dial_failed e) ips) refl (dial_each-IsPublic net last ips)
      (λ e. dial_each-IsPublic net (dial_failed e) ips)

connected-dial_one :
    (b : Bool) (o : Option ℕ) (ip : Ip) (skipped : Dialled) (failed : ℕ → Dialled)
    (rest : Option Ip)
    → connected skipped ≡ rest
    → ((e : ℕ) → connected (failed e) ≡ rest)
    → connected (dial_one b o ip skipped failed)
      ≡ (if b then rest else elim o [ none ↦ some ip | some _ ↦ rest ])
unfolding dial_one
connected-dial_one true o ip skipped failed rest skip fail = skip
connected-dial_one false none ip skipped failed rest skip fail = refl
connected-dial_one false (some e) ip skipped failed rest skip fail = fail e

connected-dial_each :
    (net : Net) (last : SsrfError) (ips : List Ip)
    → connected (dial_each net last ips) ≡ first_open net ips
unfolding dial_each
connected-dial_each net last [] = refl
connected-dial_each net last (ip ∷ ips) =
    connected-dial_one (is_private_ip ip) (net.dial ip) ip (dial_each net last ips)
      (λ e. dial_each net (dial_failed e) ips) (first_open net ips)
      (connected-dial_each net last ips) (λ e. connected-dial_each net (dial_failed e) ips)

-- Whatever DNS answers to the check and then to the dial, every address that `safeDialContext`
-- contacts is public.
pub safe_dial_context-IsPublic :
    (net : Net) (now : ℕ) (address : Option (List ℕ))
    → All IsPublic (safe_dial_context net now address).contacted
unfolding safe_dial_context
safe_dial_context-IsPublic net now none = tt
safe_dial_context-IsPublic net now (some host) =
    at (validate_resolved_ips net now host) (net.lookup_ip (now + 1) host)
  where
    at :
        (e : Option SsrfError) (ips : Option (List Ip))
        → All IsPublic
            (elim e as (λ _. Dialled) [
              | some e ↦ record { result = inl e; contacted = [] }
              | none ↦ elim ips as (λ _. Dialled) [
                | none ↦ record { result = inl unresolved; contacted = [] }
                | some ips ↦ dial_each net no_public_address ips
              ]
            ]).contacted
    at (some e) ips = tt
    at none none = tt
    at none (some ips) = dial_each-IsPublic net no_public_address ips

-- When the check passes and the dial's own lookup answers, the connection made is to the
-- first public address of that answer that accepts one, and there is none when no such address does.
pub safe_dial_context-connected :
    (net : Net) (now : ℕ) (host : List ℕ) (ips : List Ip)
    → validate_resolved_ips net now host ≡ none
    → net.lookup_ip (now + 1) host ≡ some ips
    → connected (safe_dial_context net now (some host)) ≡ first_open net ips
unfolding safe_dial_context
safe_dial_context-connected net now host ips v l =
    rw (v, l, safe_dial_context) (connected-dial_each net no_public_address ips)
