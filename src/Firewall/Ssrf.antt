-- ===== src/Firewall/Ssrf.antt =====
-- The addresses that src/firewall/refetch.rs refuses to fetch from.
pub mod Ranges
pub mod Embedded
mod Tests
use apohara_agentguard.Prelude.{
  ℕ, ◌+◌, ◌*◌, ◌/◌, ◌%◌, Text, codes, Bool, true, false, ◌&&◌, ◌||◌, Option, none, some, leb, ◌==◌,
  Result, ok, err, ◌>>=◌, ◌>>◌, refuse_if, if◌then◌else◌,
}

-- `Ipv4Addr`, by its octets
pub record Ipv4Addr : Type 0 where
  pub o0 : ℕ
  pub o1 : ℕ
  pub o2 : ℕ
  pub o3 : ℕ

-- `Ipv6Addr`, by its segments
pub record Ipv6Addr : Type 0 where
  pub s0 : ℕ
  pub s1 : ℕ
  pub s2 : ℕ
  pub s3 : ℕ
  pub s4 : ℕ
  pub s5 : ℕ
  pub s6 : ℕ
  pub s7 : ℕ

pub data IpAddr : Type 0 where
  v4 : Ipv4Addr → IpAddr
  v6 : Ipv6Addr → IpAddr

-- `x & mask` for a mask whose zeros are its low bits, those below `unit`
abbrev pub clear_low : ℕ → ℕ → ℕ
clear_low unit x = x / unit * unit

abbrev pub is_metadata : Ipv4Addr → Bool
is_metadata v = v.o0 == 169 && v.o1 == 254 && v.o2 == 169 && v.o3 == 254

abbrev pub is_loopback : Ipv4Addr → Bool
is_loopback v = v.o0 == 127

abbrev pub is_private : Ipv4Addr → Bool
is_private v =
    v.o0 == 10 || (v.o0 == 172 && (leb 16 v.o1 && leb v.o1 31)) || (v.o0 == 192 && v.o1 == 168)

abbrev pub is_link_local : Ipv4Addr → Bool
is_link_local v = v.o0 == 169 && v.o1 == 254

abbrev pub is_unspecified : Ipv4Addr → Bool
is_unspecified v = v.o0 == 0 && v.o1 == 0 && v.o2 == 0 && v.o3 == 0

abbrev pub is_this_network : Ipv4Addr → Bool
is_this_network v = v.o0 == 0

abbrev pub is_shared : Ipv4Addr → Bool
is_shared v = v.o0 == 100 && clear_low 64 v.o1 == 64

abbrev pub is_benchmark : Ipv4Addr → Bool
is_benchmark v = v.o0 == 198 && clear_low 2 v.o1 == 18

abbrev pub is_protocol : Ipv4Addr → Bool
is_protocol v = v.o0 == 192 && v.o1 == 0 && v.o2 == 0

abbrev pub is_documentation : Ipv4Addr → Bool
is_documentation v =
    (v.o0 == 192 && v.o1 == 0 && v.o2 == 2)
    || (v.o0 == 198 && v.o1 == 51 && v.o2 == 100)
    || (v.o0 == 203 && v.o1 == 0 && v.o2 == 113)

abbrev pub is_multicast : Ipv4Addr → Bool
is_multicast v = leb 224 v.o0 && leb v.o0 239

abbrev pub is_reserved : Ipv4Addr → Bool
is_reserved v = leb 240 v.o0

-- The error is the reason of `SsrfRejected`.
pub check_v4 : Ipv4Addr → Result Text Unit
check_v4 v = do
  refuse_if (is_metadata v) (codes "cloud metadata endpoint (169.254.169.254)")
  refuse_if (is_loopback v) (codes "loopback address (127.0.0.0/8)")
  refuse_if (is_private v) (codes "RFC1918 private address (10/8, 172.16/12, 192.168/16)")
  refuse_if (is_link_local v) (codes "link-local address (169.254.0.0/16)")
  refuse_if (is_unspecified v) (codes "unspecified address (0.0.0.0)")
  refuse_if (is_this_network v) (codes "0.0.0.0/8 address range")
  refuse_if (is_shared v) (codes "RFC6598 Shared Address Space (100.64.0.0/10)")
  refuse_if (is_benchmark v) (codes "RFC2544 benchmarking address (198.18.0.0/15)")
  refuse_if (is_protocol v) (codes "RFC6890 IETF protocol assignment (192.0.0.0/24)")
  refuse_if (is_documentation v) (codes "documentation address range (TEST-NET)")
  refuse_if (is_multicast v) (codes "multicast address (224.0.0.0/4)")
  refuse_if (is_reserved v) (codes "reserved/broadcast address (240.0.0.0/4)")
  ok tt

abbrev pub octets_of : ℕ → ℕ → Ipv4Addr
octets_of hi lo = record { o0 = hi / 256; o1 = hi % 256; o2 = lo / 256; o3 = lo % 256 }

-- `Ipv6Addr::to_ipv4`
abbrev pub to_ipv4 : Ipv6Addr → Option Ipv4Addr
to_ipv4 v =
    if v.s0 == 0
      && v.s1 == 0
      && v.s2 == 0
      && v.s3 == 0
      && v.s4 == 0
      && (v.s5 == 0 || v.s5 == 0xffff)
    then some (octets_of v.s6 v.s7)
    else none

abbrev pub is_nat64 : Ipv6Addr → Bool
is_nat64 v = v.s0 == 0x0064 && v.s1 == 0xff9b && v.s2 == 0 && v.s3 == 0 && v.s4 == 0 && v.s5 == 0

abbrev pub is_local_nat64 : Ipv6Addr → Bool
is_local_nat64 v = v.s0 == 0x0064 && v.s1 == 0xff9b && v.s2 == 0x0001

abbrev pub is_6to4 : Ipv6Addr → Bool
is_6to4 v = v.s0 == 0x2002

abbrev pub is_isatap : Ipv6Addr → Bool
is_isatap v = (v.s4 == 0x0000 || v.s4 == 0x0200) && v.s5 == 0x5efe

-- `if b { check_v4(embedded)?; }`
pub check_if : Bool → Ipv4Addr → Result Text Unit
unfolding check_v4
check_if true v = check_v4 v
check_if false v = ok tt

-- The checks on an address that is no IPv4 address in disguise
pub check_prefixes : Ipv6Addr → Result Text Unit
unfolding check_if
check_prefixes v = do
  check_if (is_nat64 v) (octets_of v.s6 v.s7)
  check_if (is_local_nat64 v) (octets_of v.s6 v.s7)
  check_if (is_6to4 v) (octets_of v.s1 v.s2)
  check_if (is_isatap v) (octets_of v.s6 v.s7)
  refuse_if (clear_low 64 v.s0 == 0xfe80) (codes "link-local address (fe80::/10)")
  refuse_if (clear_low 512 v.s0 == 0xfc00) (codes "RFC4193 unique-local address (fc00::/7)")
  ok tt

check_mapped : Ipv6Addr → Option Ipv4Addr → Result Text Unit
unfolding check_v4 check_prefixes
check_mapped v (some mapped) = check_v4 mapped
check_mapped v none = check_prefixes v

abbrev pub is_loopback_v6 : Ipv6Addr → Bool
is_loopback_v6 v =
    v.s0 == 0
    && v.s1 == 0
    && v.s2 == 0
    && v.s3 == 0
    && v.s4 == 0
    && v.s5 == 0
    && v.s6 == 0
    && v.s7 == 1

abbrev pub is_unspecified_v6 : Ipv6Addr → Bool
is_unspecified_v6 v =
    v.s0 == 0
    && v.s1 == 0
    && v.s2 == 0
    && v.s3 == 0
    && v.s4 == 0
    && v.s5 == 0
    && v.s6 == 0
    && v.s7 == 0

abbrev pub is_metadata_v6 : Ipv6Addr → Bool
is_metadata_v6 v =
    v.s0 == 0xfd00
    && v.s1 == 0x0ec2
    && v.s2 == 0
    && v.s3 == 0
    && v.s4 == 0
    && v.s5 == 0
    && v.s6 == 0
    && v.s7 == 0x254

pub check_v6 : Ipv6Addr → Result Text Unit
unfolding check_mapped
check_v6 v = do
  refuse_if (is_metadata_v6 v) (codes "cloud metadata endpoint (fd00:ec2::254)")
  refuse_if (is_loopback_v6 v) (codes "loopback address (::1)")
  refuse_if (is_unspecified_v6 v) (codes "unspecified address (::)")
  refuse_if (clear_low 256 v.s0 == 0xff00) (codes "multicast address (ff00::/8)")
  check_mapped v (to_ipv4 v)

pub ssrf_check_ip : IpAddr → Result Text Unit
unfolding check_v4 check_v6
ssrf_check_ip (v4 a) = check_v4 a
ssrf_check_ip (v6 a) = check_v6 a
