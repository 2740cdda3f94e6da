-- ===== src/Subscribe/Exported.antt =====
-- clash.go: the fields of an outbound in the proxy map that clashProxy gives.
use singboxhub.Prelude.{
  ◌≡◌, refl, ap, ◌∙◌, sym, String, Bool, true, false, not, ◌&&◌, ◌||◌, str_eq, if◌then◌else◌,
  eq_iff,
}
use singboxhub.Subscribe.Value.{
  Value, object, Fields, end, text, array, boolean, lookup, store, as_int, as_string,
  or_default_str,
}
use singboxhub.Subscribe.Parse.{Outbound}
use singboxhub.Subscribe.Outbound.{
  Kind, ss, vmess, vless, trojan, hysteria2, tuic, str, store_if, store_some, store_unless,
  store_text, is_nil, texts,
}
use singboxhub.Subscribe.Export.{
  clash_credentials, clash_tls, clash_transport, clash_base, host_header, http_opts,
}
use singboxhub.Subscribe.Kept.{Top, top, lookup-store_if, lookup-store_some}
use singboxhub.Subscribe.Fields.{lookup-store_other}
use singboxhub.Subscribe.Imported.{type_of}

-- The keys that the exporter writes after the credentials.
abbrev IsOwnKey : String → Type 0
IsOwnKey j =
    (str_eq "tls" j ≡ false)
    × (str_eq "servername" j ≡ false)
    × (str_eq "skip-cert-verify" j ≡ false)
    × (str_eq "alpn" j ≡ false)
    × (str_eq "network" j ≡ false)
    × (str_eq "ws-opts" j ≡ false)
    × (str_eq "grpc-opts" j ≡ false)
    × (str_eq "http-opts" j ≡ false)

-- The same as a test, for literal keys.
abbrev is_own : String → Bool
is_own j =
    not (str_eq "tls" j)
    && (not (str_eq "servername" j)
        && (not (str_eq "skip-cert-verify" j)
            && (not (str_eq "alpn" j)
                && (not (str_eq "network" j)
                    && (not (str_eq "ws-opts" j)
                        && (not (str_eq "grpc-opts" j) && not (str_eq "http-opts" j)))))))

and_not : (a b : Bool) → (not a && b) ≡ true → (a ≡ false) × (b ≡ true)
and_not false b e = (refl, e)
and_not true b e = absurd (cc e)

not_holds : (a : Bool) → not a ≡ true → a ≡ false
not_holds false e = refl
not_holds true e = absurd (cc e)

is_own-IsOwnKey : (j : String) → is_own j ≡ true → IsOwnKey j
is_own-IsOwnKey j e =
    let (tls, e1) = and_not (str_eq "tls" j) _ e in
    let (sni, e2) = and_not (str_eq "servername" j) _ e1 in
    let (skip, e3) = and_not (str_eq "skip-cert-verify" j) _ e2 in
    let (alpn, e4) = and_not (str_eq "alpn" j) _ e3 in
    let (network, e5) = and_not (str_eq "network" j) _ e4 in
    let (ws, e6) = and_not (str_eq "ws-opts" j) _ e5 in
    let (grpc, e7) = and_not (str_eq "grpc-opts" j) _ e6 in
    (tls, sni, skip, alpn, network, ws, grpc, not_holds (str_eq "http-opts" j) e7)

lookup-clash_tls :
    (j : String) (o : Outbound) (m : Fields) → IsOwnKey j → lookup j (clash_tls o m) ≡ lookup j m
unfolding clash_tls
lookup-clash_tls j o m h =
    lookup-store_if j (not (is_nil o.alpn)) "alpn" (array (texts o.alpn)) _ h.3
    ∙ lookup-store_if j o.insecure "skip-cert-verify" (boolean true) _ h.2
    ∙ lookup-store_some j "servername" o.server_name _ h.1
    ∙ lookup-store_if j o.tls_enabled "tls" (boolean true) m h.0

lookup-clash_transport :
    (j : String) (o : Outbound) (m : Fields)
    → IsOwnKey j
    → lookup j (clash_transport o m) ≡ lookup j m
unfolding clash_transport
lookup-clash_transport j o m h =
    at_transport (str_eq o.transport "ws") (str_eq o.transport "grpc") (str_eq o.transport "http")
  where
    under_network : (t : String) → lookup j (store_text "network" t m) ≡ lookup j m
    under_network t = lookup-store_other "network" j (text t) m h.4

    ws : Value
    ws = object (host_header o.host (store_some "path" o.path end))

    grpc : Value
    grpc = object (store_text "grpc-service-name" o.service_name end)

    at_transport :
        (b b' b'' : Bool)
        → lookup j (
            if b
            then store "ws-opts" ws (store_text "network" "ws" m)
            else if b'
            then store_if
                (not (str_eq o.service_name ""))
                "grpc-opts"
                grpc
                (store_text "network" "grpc" m)
            else if b''
            then store_if
                (not (str_eq o.path "") || not (str_eq o.host ""))
                "http-opts"
                (object (http_opts o))
                (store_text "network" "http" m)
            else m)
          ≡ lookup j m
    at_transport true b' b'' =
        lookup-store_other "ws-opts" j ws (store_text "network" "ws" m) h.5 ∙ under_network "ws"
    at_transport false true b'' =
        lookup-store_if j (not (str_eq o.service_name "")) "grpc-opts" grpc _ h.6
        ∙ under_network "grpc"
    at_transport false false true =
        lookup-store_if j (not (str_eq o.path "") || not (str_eq o.host "")) "http-opts"
          (object (http_opts o)) _ h.7
        ∙ under_network "http"
    at_transport false false false = refl

-- A proxy map that carries the fields `t` of an outbound, under the exporter's keys.
abbrev pub HasCredentials : Kind → Top → Fields → Type 0
HasCredentials ss t m = (str m "cipher" ≡ t.6) × (str m "password" ≡ t.5)
HasCredentials vmess t m =
    (str m "uuid" ≡ t.4)
    × (as_int (lookup "alterId" m) ≡ t.8)
    × (str m "cipher" ≡ or_default_str t.7 "auto")
HasCredentials vless t m = (str m "uuid" ≡ t.4) × (str m "flow" ≡ t.9)
HasCredentials trojan t m = str m "password" ≡ t.5
HasCredentials hysteria2 t m = str m "password" ≡ t.5
HasCredentials tuic t m =
    (str m "uuid" ≡ t.4) × (str m "password" ≡ t.5) × (str m "congestion-controller" ≡ t.10)

abbrev pub IsExported : Kind → String → Top → Fields → Type 0
IsExported kind name t m =
    (str m "name" ≡ name)
    × (str m "type" ≡ type_of kind)
    × (str m "server" ≡ t.2)
    × (as_int (lookup "port" m) ≡ t.3)
    × HasCredentials kind t m

module _ (name : String) (o : Outbound) where
  vless_IsExported :
      (b : Bool)
      → str_eq o.flow "" ≡ b
      → IsExported vless name (top o) (
          store_unless b "flow"
            (text o.flow)
            (store_text "uuid" o.uuid (store_text "type" "vless" (clash_base name o))))
  unfolding clash_base lookup store as_string as_int
  vless_IsExported true e = (refl, refl, refl, refl, (refl, sym ((eq_iff o.flow "").0 e)))
  vless_IsExported false e = (refl, refl, refl, refl, (refl, refl))

  tuic_IsExported :
      (b b' : Bool)
      → str_eq o.password "" ≡ b
      → str_eq o.congestion "" ≡ b'
      → IsExported tuic name (top o) (
          store_unless b' "congestion-controller" (text o.congestion) (
            store_unless b "password"
              (text o.password)
              (store_text "uuid" o.uuid (store_text "type" "tuic" (clash_base name o)))))
  unfolding clash_base lookup store as_string as_int
  tuic_IsExported true true e e' = (
    refl,
    refl,
    refl,
    refl,
    (refl, sym ((eq_iff o.password "").0 e), sym ((eq_iff o.congestion "").0 e')),
  )
  tuic_IsExported true false e e' =
      (refl, refl, refl, refl, (refl, sym ((eq_iff o.password "").0 e), refl))
  tuic_IsExported false true e e' =
      (refl, refl, refl, refl, (refl, refl, sym ((eq_iff o.congestion "").0 e')))
  tuic_IsExported false false e e' = (refl, refl, refl, refl, (refl, refl, refl))

  clash_credentials-IsExported :
      (kind : Kind) → IsExported kind name (top o) (clash_credentials kind o (clash_base name o))
  unfolding clash_credentials clash_base lookup store as_string as_int
  clash_credentials-IsExported ss = (refl, refl, refl, refl, (refl, refl))
  clash_credentials-IsExported vmess = (refl, refl, refl, refl, (refl, refl, refl))
  clash_credentials-IsExported vless = vless_IsExported (str_eq o.flow "") refl
  clash_credentials-IsExported trojan = (refl, refl, refl, refl, refl)
  clash_credentials-IsExported hysteria2 = (refl, refl, refl, refl, refl)
  clash_credentials-IsExported tuic =
      tuic_IsExported (str_eq o.password "") (str_eq o.congestion "") refl refl

  unfoldable pub profile : Kind → Fields
  profile kind = clash_transport o (clash_tls o (clash_credentials kind o (clash_base name o)))

  lookup-profile :
      (kind : Kind) (j : String)
      → is_own j ≡ true
      → lookup j (profile kind) ≡ lookup j (clash_credentials kind o (clash_base name o))
  unfolding profile
  lookup-profile kind j e =
      let own = is_own-IsOwnKey j e in
      lookup-clash_transport j o (clash_tls o (clash_credentials kind o (clash_base name o))) own
      ∙ lookup-clash_tls j o (clash_credentials kind o (clash_base name o)) own

  str-profile :
      (kind : Kind) (j : String)
      → is_own j ≡ true
      → str (profile kind) j ≡ str (clash_credentials kind o (clash_base name o)) j
  str-profile kind j e = ap as_string (lookup-profile kind j e)

  -- Each credential stands in the profile as in the part that holds it.
  profile-HasCredentials :
      (kind : Kind)
      → HasCredentials kind (top o) (clash_credentials kind o (clash_base name o))
      → HasCredentials kind (top o) (profile kind)
  profile-HasCredentials ss h =
      (str-profile ss "cipher" refl ∙ h.0, str-profile ss "password" refl ∙ h.1)
  profile-HasCredentials vmess h = (
    str-profile vmess "uuid" refl ∙ h.0,
    ap as_int (lookup-profile vmess "alterId" refl) ∙ h.1,
    str-profile vmess "cipher" refl ∙ h.2,
  )
  profile-HasCredentials vless h =
      (str-profile vless "uuid" refl ∙ h.0, str-profile vless "flow" refl ∙ h.1)
  profile-HasCredentials trojan h = str-profile trojan "password" refl ∙ h
  profile-HasCredentials hysteria2 h = str-profile hysteria2 "password" refl ∙ h
  profile-HasCredentials tuic h = (
    str-profile tuic "uuid" refl ∙ h.0,
    str-profile tuic "password" refl ∙ h.1,
    str-profile tuic "congestion-controller" refl ∙ h.2,
  )

  pub profile-IsExported : (kind : Kind) → IsExported kind name (top o) (profile kind)
  profile-IsExported kind =
      let h = clash_credentials-IsExported kind in
      (
        str-profile kind "name" refl ∙ h.0,
        str-profile kind "type" refl ∙ h.1,
        str-profile kind "server" refl ∙ h.2,
        ap as_int (lookup-profile kind "port" refl) ∙ h.3,
        profile-HasCredentials kind h.4,
      )
