-- ===== src/Policy/Address.antt =====
-- The deny set of private network addresses (src/policy.rs).
use lur.Base.{
  ℕ, ◌*◌, ◌/◌, ◌%◌, ◌^◌, Bool, true, false, ◌&&◌, ◌||◌, Option, none, some, leb, ◌==◌,
  if◌then◌else◌,
}

-- The four octets.
pub record Ipv4Addr : Type 0 where
  pub a : ℕ
  pub b : ℕ
  pub c : ℕ
  pub d : ℕ

-- The eight segments of 16 bits.
pub record Ipv6Addr : Type 0 where
  pub s0 : ℕ
  pub s1 : ℕ
  pub s2 : ℕ
  pub s3 : ℕ
  pub s4 : ℕ
  pub s5 : ℕ
  pub s6 : ℕ
  pub s7 : ℕ

pub data Ip : Type 0 where
  v4 : Ipv4Addr → Ip
  v6 : Ipv6Addr → Ip

v4_eq : Ipv4Addr → Ipv4Addr → Bool
v4_eq x y = x.a == y.a && (x.b == y.b && (x.c == y.c && x.d == y.d))

v6_eq : Ipv6Addr → Ipv6Addr → Bool
v6_eq x y =
    (x.s0 == y.s0 && (x.s1 == y.s1 && (x.s2 == y.s2 && x.s3 == y.s3)))
    && (x.s4 == y.s4 && (x.s5 == y.s5 && (x.s6 == y.s6 && x.s7 == y.s7)))

unfoldable pub ip_eq : Ip → Ip → Bool
unfolding v4_eq v6_eq
ip_eq (v4 x) (v4 y) = v4_eq x y
ip_eq (v6 x) (v6 y) = v6_eq x y
ip_eq _ _ = false

-- `x & m` for the mask `m` that clears the low `k` bits.
abbrev pub clear_low : ℕ → ℕ → ℕ
clear_low k x = x / 2 ^ k * 2 ^ k

-- `Ipv4Addr::is_private`, `is_loopback`, `is_link_local` and `is_multicast`.
abbrev pub is_private_range : Ipv4Addr → Bool
is_private_range x =
    x.a == 10 || ((x.a == 172 && (leb 16 x.b && leb x.b 31)) || (x.a == 192 && x.b == 168))

abbrev pub is_loopback_v4 : Ipv4Addr → Bool
is_loopback_v4 x = x.a == 127

abbrev pub is_link_local_v4 : Ipv4Addr → Bool
is_link_local_v4 x = x.a == 169 && x.b == 254

abbrev pub is_multicast_v4 : Ipv4Addr → Bool
is_multicast_v4 x = leb 224 x.a && leb x.a 239

unfoldable pub is_private_v4 : Ipv4Addr → Bool
is_private_v4 x =
    is_loopback_v4 x
    || (is_private_range x
        || (is_link_local_v4 x
            || (x.a == 0
                || ((x.a == 100 && clear_low 6 x.b == 64)
                    || ((x.a == 192 && (x.b == 0 && x.c == 0))
                        || ((x.a == 198 && clear_low 1 x.b == 18)
                            || (is_multicast_v4 x || leb 240 x.a)))))))

-- `Ipv4Addr::from` of the 32 bits that two segments make.
unfoldable pub of_segments : ℕ → ℕ → Ipv4Addr
of_segments hi lo = record { a = hi / 256; b = hi % 256; c = lo / 256; d = lo % 256 }

abbrev pub zeros : ℕ → ℕ → ℕ → ℕ → Bool
zeros p q r s = p == 0 && (q == 0 && (r == 0 && s == 0))

unfoldable pub embedded_ipv4 : Ipv6Addr → Option Ipv4Addr
embedded_ipv4 x =
    if zeros x.s0 x.s1 x.s2 x.s3 && (x.s4 == 0 && (x.s5 == 0 || x.s5 == 0xffff))
    then some (of_segments x.s6 x.s7)
    else if x.s0 == 0x0064 && (x.s1 == 0xff9b && zeros x.s2 x.s3 x.s4 x.s5)
    then some (of_segments x.s6 x.s7)
    else if x.s0 == 0x2002
    then some (of_segments x.s1 x.s2)
    else none

abbrev pub is_unique_local : Ipv6Addr → Bool
is_unique_local x = clear_low 9 x.s0 == 0xfc00

abbrev pub is_link_local : Ipv6Addr → Bool
is_link_local x = clear_low 6 x.s0 == 0xfe80

-- `Ipv6Addr::is_loopback`, `is_unspecified` and `is_multicast`.
abbrev pub is_loopback_v6 : Ipv6Addr → Bool
is_loopback_v6 x = zeros x.s0 x.s1 x.s2 x.s3 && zeros x.s4 x.s5 x.s6 0 && x.s7 == 1

abbrev pub is_unspecified : Ipv6Addr → Bool
is_unspecified x = zeros x.s0 x.s1 x.s2 x.s3 && zeros x.s4 x.s5 x.s6 x.s7

abbrev pub is_multicast_v6 : Ipv6Addr → Bool
is_multicast_v6 x = clear_low 8 x.s0 == 0xff00

private_range_v6 : Ipv6Addr → Bool
private_range_v6 x =
    is_unique_local x
    || (is_link_local x
        || (clear_low 6 x.s0 == 0xfec0
            || ((x.s0 == 0x0064 && (x.s1 == 0xff9b && x.s2 == 0x0001)) || is_multicast_v6 x)))

unfoldable pub is_private_v6 : Ipv6Addr → Bool
unfolding private_range_v6
is_private_v6 x =
    if is_loopback_v6 x || is_unspecified x
    then true
    else elim (embedded_ipv4 x) [ none ↦ private_range_v6 x | some y ↦ is_private_v4 y ]

-- `Policy::is_private_ip`
unfoldable pub is_private_ip : Ip → Bool
is_private_ip (v4 x) = is_private_v4 x
is_private_ip (v6 x) = is_private_v6 x
