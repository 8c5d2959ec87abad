-- ===== src/Policy/Deny.antt =====
-- The deny set against the address blocks that the source names, and the IPv6 forms that stand in
-- for an IPv4 address (src/policy.rs).
use lur.Base.{
  ℕ, sym, ◌+◌, ◌*◌, ◌/◌, ◌^◌, ◌≡◌, ◌<◌, refl, inl, inr, Bool, Bool-cases, true, false, ◌&&◌, ◌||◌,
  List, [], ◌∷◌, leb, ◌==◌, arith,
}
use lur.Policy.Address.{
  Ipv4Addr, Ipv6Addr, v4, v6, is_private_v4, is_private_v6, is_private_ip, embedded_ipv4,
  of_segments, clear_low, is_loopback_v6, is_unspecified,
}

pub record IsOctets (x : Ipv4Addr) : Type 0 where
  pub a : x.a < 256
  pub b : x.b < 256
  pub c : x.c < 256
  pub d : x.d < 256

-- The address as a number of 32 bits.
abbrev pub to_u32 : Ipv4Addr → ℕ
to_u32 x = x.a * 2 ^ 24 + x.b * 2 ^ 16 + x.c * 2 ^ 8 + x.d

-- An address block: the first address, and how many low bits are free.
abbrev pub within : ℕ × ℕ → Ipv4Addr → Bool
within (net, free) x = to_u32 x / 2 ^ free == net / 2 ^ free

abbrev pub address : ℕ → ℕ → ℕ → ℕ
address a b c = a * 2 ^ 24 + b * 2 ^ 16 + c * 2 ^ 8

-- The blocks that the comments of the source list: 127/8, 10/8, 172.16/12, 192.168/16, 169.254/16,
-- 0/8, 100.64/10, 192.0.0/24, 198.18/15, 224/4 and 240/4.
abbrev pub deny_set : List (ℕ × ℕ)
deny_set =
    (address 127 0 0, 24)
    ∷ (address 10 0 0, 24)
    ∷ (address 172 16 0, 20)
    ∷ (address 192 168 0, 16)
    ∷ (address 169 254 0, 16)
    ∷ (0, 24)
    ∷ (address 100 64 0, 22)
    ∷ (address 192 0 0, 8)
    ∷ (address 198 18 0, 17)
    ∷ (address 224 0 0, 28)
    ∷ (address 240 0 0, 28)
    ∷ []

abbrev pub in_any : List (ℕ × ℕ) → Ipv4Addr → Bool
in_any [] x = false
in_any (n ∷ ns) x = within n x || in_any ns x

module _ (x : Ipv4Addr) (h : IsOctets x) where
  in_8 : (n : ℕ) → within (address n 0 0, 24) x ≡ (x.a == n)
  in_8 n = ground (arith, h.a, h.b, h.c, h.d)

  in_16 : (n m : ℕ) → m < 256 → within (address n m 0, 16) x ≡ (x.a == n && x.b == m)
  in_16 n m small = ground (arith, h.a, h.b, h.c, h.d)

  in_24 : within (address 192 0 0, 8) x ≡ (x.a == 192 && (x.b == 0 && x.c == 0))
  in_24 = ground (arith, h.a, h.b, h.c, h.d)

  in_172 : within (address 172 16 0, 20) x ≡ (x.a == 172 && (leb 16 x.b && leb x.b 31))
  in_172 = ground (arith, h.a, h.b, h.c, h.d)

  in_100 : within (address 100 64 0, 22) x ≡ (x.a == 100 && clear_low 6 x.b == 64)
  in_100 = ground (arith, h.a, h.b, h.c, h.d)

  in_198 : within (address 198 18 0, 17) x ≡ (x.a == 198 && clear_low 1 x.b == 18)
  in_198 = ground (arith, h.a, h.b, h.c, h.d)

  in_224 : within (address 224 0 0, 28) x ≡ (leb 224 x.a && leb x.a 239)
  in_224 = ground (arith, h.a, h.b, h.c, h.d)

  in_240 : within (address 240 0 0, 28) x ≡ leb 240 x.a
  in_240 = ground (arith, h.a, h.b, h.c, h.d)

-- The order of the tests.
regroup :
    (a b c d e f g i j k l : Bool)
    → (a || ((b || (c || d)) || (e || (f || (g || (i || (j || (k || l))))))))
      ≡ (a || (b || (c || (d || (e || (f || (g || (i || (j || (k || (l || false)))))))))))
regroup a b c d e f g i j k l = ground arith

-- `is_private_v4` denies exactly the addresses of the eleven blocks.
pub is_private_v4-in_any : (x : Ipv4Addr) → IsOctets x → is_private_v4 x ≡ in_any deny_set x
unfolding is_private_v4
is_private_v4-in_any x h =
    rw
      (
        in_8 x h 127,
        in_8 x h 10,
        in_172 x h,
        in_16 x h 192 168 (omega arith),
        in_16 x h 169 254 (omega arith),
        in_8 x h 0,
        in_100 x h,
        in_24 x h,
        in_198 x h,
        in_224 x h,
        in_240 x h,
      )
      (regroup (x.a == 127) (x.a == 10) (x.a == 172 && (leb 16 x.b && leb x.b 31))
        (x.a == 192 && x.b == 168) (x.a == 169 && x.b == 254) (x.a == 0)
        (x.a == 100 && clear_low 6 x.b == 64) (x.a == 192 && (x.b == 0 && x.c == 0))
        (x.a == 198 && clear_low 1 x.b == 18) (leb 224 x.a && leb x.a 239) (leb 240 x.a))

-- The IPv6 address of a form that embeds an IPv4 address; 6to4 has a rest of its own.
pub data Form : Type 0 where
  mapped compatible nat64 : Form
  six_to_four : (ℕ → ℕ) → Form

abbrev pub embed : Form → Ipv4Addr → Ipv6Addr
embed mapped x = record {
  s0 = 0;
  s1 = 0;
  s2 = 0;
  s3 = 0;
  s4 = 0;
  s5 = 0xffff;
  s6 = x.a * 256 + x.b;
  s7 = x.c * 256 + x.d;
}
embed compatible x = record {
  s0 = 0;
  s1 = 0;
  s2 = 0;
  s3 = 0;
  s4 = 0;
  s5 = 0;
  s6 = x.a * 256 + x.b;
  s7 = x.c * 256 + x.d;
}
embed nat64 x = record {
  s0 = 0x64;
  s1 = 0xff9b;
  s2 = 0;
  s3 = 0;
  s4 = 0;
  s5 = 0;
  s6 = x.a * 256 + x.b;
  s7 = x.c * 256 + x.d;
}
embed (six_to_four r) x = record {
  s0 = 0x2002;
  s1 = x.a * 256 + x.b;
  s2 = x.c * 256 + x.d;
  s3 = r 3;
  s4 = r 4;
  s5 = r 5;
  s6 = r 6;
  s7 = r 7;
}

of_segments-octets :
    (x : Ipv4Addr) → IsOctets x → of_segments (x.a * 256 + x.b) (x.c * 256 + x.d) ≡ x
unfolding of_segments
of_segments-octets x h = ground (arith, h.a, h.b, h.c, h.d)

zero_octet : (x : Ipv4Addr) → x.a ≡ 0 → is_private_v4 x ≡ true
unfolding is_private_v4
zero_octet x h = ground arith

-- `::` and `::1` embed addresses of the block 0/8.
is_private_v6-compatible :
    (x : Ipv4Addr) → IsOctets x → is_private_v6 (embed compatible x) ≡ is_private_v4 x
unfolding is_private_v6 embedded_ipv4
is_private_v6-compatible x h =
    elim (Bool-cases (is_loopback_v6 (embed compatible x) || is_unspecified (embed compatible x))) [
      | inl special ↦ rw special (sym (zero_octet x (ground arith)))
      | inr other ↦ rw (other, of_segments-octets x h) refl
    ]

-- No embedding hides an address from the deny set: an IPv4 address in any of the four forms is
-- denied exactly if the address itself is.
pub is_private_ip-embed :
    (form : Form) (x : Ipv4Addr)
    → IsOctets x
    → is_private_ip (v6 (embed form x)) ≡ is_private_ip (v4 x)
unfolding is_private_ip is_private_v6 embedded_ipv4
is_private_ip-embed mapped x h = rw (of_segments-octets x h) refl
is_private_ip-embed compatible x h = is_private_v6-compatible x h
is_private_ip-embed nat64 x h = rw (of_segments-octets x h) refl
is_private_ip-embed (six_to_four r) x h = rw (of_segments-octets x h) refl
