-- ===== src/Http/Ssrf/Ranges.antt =====
-- ssrf.go, `IsPrivateIP`: the IPv4 blocks that it refuses.
use singboxhub.Prelude.{
  ℕ, ◌+◌, ◌*◌, ◌<◌, ◌≡◌, refl, ◌∙◌, Bool, true, false, ◌&&◌, ◌||◌, arith, leb, ltb, ◌==◌,
  if◌then◌else◌,
}
use singboxhub.Http.Ssrf.{
  v4, is_private_ip, is_loopback, is_link_local_unicast, is_link_local_multicast, is_private, is_v4,
}

-- An IPv4 address as one number of 32 bits.
abbrev pub address : ℕ → ℕ → ℕ → ℕ → ℕ
address a b c d = a * 16777216 + (b * 65536 + (c * 256 + d))

-- Whether an address lies in the block of `size` addresses from `first` on.
abbrev pub is_within : ℕ → ℕ → ℕ → Bool
is_within first size n = leb first n && ltb n (first + size)

-- 127.0.0.0/8, 169.254.0.0/16, 224.0.0.0/24, 10.0.0.0/8, 172.16.0.0/12, 192.168.0.0/16, and the
-- three single addresses 192.0.2.0, 198.51.100.0 and 203.0.113.0.
abbrev pub is_refused : ℕ → Bool
is_refused n =
    is_within (address 127 0 0 0) 16777216 n
    || (is_within (address 169 254 0 0) 65536 n
        || (is_within (address 224 0 0 0) 256 n
            || (is_within (address 10 0 0 0) 16777216 n
                || (is_within (address 172 16 0 0) 1048576 n
                    || (is_within (address 192 168 0 0) 65536 n
                        || (is_within (address 192 0 2 0) 1 n
                            || (is_within (address 198 51 100 0) 1 n
                                || is_within (address 203 0 113 0) 1 n)))))))

module _ (a b c d : ℕ) (ha : a < 256) (hb : b < 256) (hc : c < 256) (hd : d < 256) where
  slash_8 : (p : ℕ) → (a == p) ≡ is_within (address p 0 0 0) 16777216 (address a b c d)
  slash_8 p = ground arith

  slash_16 :
      (p q : ℕ) → q < 256 → (a == p && b == q) ≡ is_within (address p q 0 0) 65536 (address a b c d)
  slash_16 p q hq = ground arith

  slash_24 : (a == 224 && (b == 0 && c == 0)) ≡ is_within (address 224 0 0 0) 256 (address a b c d)
  slash_24 = ground arith

  slash_12 :
      (a == 172 && (leb 16 b && ltb b 32))
      ≡ is_within (address 172 16 0 0) 1048576 (address a b c d)
  slash_12 = ground arith

  slash_32 :
      (p q r s : ℕ)
      → q < 256
      → r < 256
      → s < 256
      → (a == p && (b == q && (c == r && d == s))) ≡ is_within (address p q r s) 1 (address a b c d)
  slash_32 p q r s hq hr hs = ground arith

-- The order of the tests, and the one made twice, do not matter.
chain :
    (l u m p q r x y z : Bool)
    → (if l
        then true
        else if u || m
        then true
        else if p || (q || r)
        then true
        else if u
        then true
        else x || (y || z))
      ≡ (l || (u || (m || (p || (q || (r || (x || (y || z))))))))
chain true u m p q r x y z = refl
chain false true m p q r x y z = refl
chain false false true p q r x y z = refl
chain false false false true q r x y z = refl
chain false false false false true r x y z = refl
chain false false false false false true x y z = refl
chain false false false false false false x y z = refl

-- The IPv4 addresses that `IsPrivateIP` refuses are exactly those of the listed blocks.
pub is_private_ip-ranges :
    (a b c d : ℕ)
    → a < 256
    → b < 256
    → c < 256
    → d < 256
    → is_private_ip (v4 a b c d) ≡ is_refused (address a b c d)
unfolding is_private_ip is_loopback is_link_local_unicast is_link_local_multicast is_private
is_private_ip-ranges a b c d ha hb hc hd =
    chain (a == 127) (a == 169 && b == 254) (a == 224 && (b == 0 && c == 0)) (a == 10)
      (a == 172 && (leb 16 b && ltb b 32)) (a == 192 && b == 168) (is_v4 192 0 2 0 (v4 a b c d))
      (is_v4 198 51 100 0 (v4 a b c d)) (is_v4 203 0 113 0 (v4 a b c d))
    ∙ cc (
      slash_8 a b c d ha hb hc hd 127,
      slash_16 a b c d ha hb hc hd 169 254 (omega arith),
      slash_24 a b c d ha hb hc hd,
      slash_8 a b c d ha hb hc hd 10,
      slash_12 a b c d ha hb hc hd,
      slash_16 a b c d ha hb hc hd 192 168 (omega arith),
      slash_32 a b c d ha hb hc hd 192 0 2 0 (omega arith) (omega arith) (omega arith),
      slash_32 a b c d ha hb hc hd 198 51 100 0 (omega arith) (omega arith) (omega arith),
      slash_32 a b c d ha hb hc hd 203 0 113 0 (omega arith) (omega arith) (omega arith),
    )
