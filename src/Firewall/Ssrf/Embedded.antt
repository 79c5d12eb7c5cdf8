-- ===== src/Firewall/Ssrf/Embedded.antt =====
-- src/firewall/refetch.rs: the IPv4 addresses inside an IPv6 address.
use apohara_agentguard.Prelude.{
  ◌==◌, codes, Text, Bool, true, false, Option, none, some, ◌≡◌, ◌⊎◌, inl, inr, refl, Result, ok,
  err, ◌>>◌, refuse_if,
}
use apohara_agentguard.Firewall.Ssrf.{
  Ipv4Addr, Ipv6Addr, check_v4, check_v6, check_if, check_prefixes, check_mapped, to_ipv4,
  octets_of, is_nat64, is_local_nat64, is_6to4, is_isatap, is_metadata_v6, is_loopback_v6,
  is_unspecified_v6, clear_low,
}

check_if-ok : (b : Bool) (a : Ipv4Addr) → check_if b a ≡ ok tt → (b ≡ false) ⊎ (check_v4 a ≡ ok tt)
unfolding check_if
check_if-ok true a h = inr h
check_if-ok false a h = inl refl

check_mapped-ok :
    (v : Ipv6Addr) (m : Option Ipv4Addr)
    → check_mapped v m ≡ ok tt
    → (check_prefixes v ≡ ok tt) ⊎ ((a : Ipv4Addr) × (m ≡ some a) × (check_v4 a ≡ ok tt))
unfolding check_mapped
check_mapped-ok v none h = inl h
check_mapped-ok v (some a) h = inr (a, refl, h)

seq-ok : (m k : Result Text Unit) → m >> k ≡ ok tt → (m ≡ ok tt) × (k ≡ ok tt)
seq-ok (ok u) k h = (refl, h)
seq-ok (err e) k h = cc

check_v6-mapped : (v : Ipv6Addr) → check_v6 v ≡ ok tt → check_mapped v (to_ipv4 v) ≡ ok tt
unfolding check_v6
check_v6-mapped v h =
    let metadata =
      seq-ok (refuse_if (is_metadata_v6 v) (codes "cloud metadata endpoint (fd00:ec2::254)")) _ h in
    let loopback =
      seq-ok (refuse_if (is_loopback_v6 v) (codes "loopback address (::1)")) _ metadata.1 in
    let unspecified =
      seq-ok (refuse_if (is_unspecified_v6 v) (codes "unspecified address (::)")) _ loopback.1 in
    (seq-ok (refuse_if (clear_low 256 v.s0 == 0xff00) (codes "multicast address (ff00::/8)")) _
      unspecified.1).1

-- An embedded address of a kind that the address may be of, when it is of that kind, is accepted.
abbrev pub Accepts : Bool → Ipv4Addr → Type 0
Accepts kind a = (kind ≡ false) ⊎ (check_v4 a ≡ ok tt)

check_prefixes-Accepts :
    (v : Ipv6Addr)
    → check_prefixes v ≡ ok tt
    → Accepts (is_nat64 v) (octets_of v.s6 v.s7)
      × Accepts (is_local_nat64 v) (octets_of v.s6 v.s7)
      × Accepts (is_6to4 v) (octets_of v.s1 v.s2)
      × Accepts (is_isatap v) (octets_of v.s6 v.s7)
unfolding check_prefixes
check_prefixes-Accepts v h =
    let first = seq-ok _ _ h in
    let second = seq-ok _ _ first.1 in
    let third = seq-ok _ _ second.1 in
    let fourth = seq-ok _ _ third.1 in
    (
      check_if-ok _ _ first.0,
      check_if-ok _ _ second.0,
      check_if-ok _ _ third.0,
      check_if-ok _ _ fourth.0,
    )

-- An IPv6 address that is accepted either is an IPv4 address in the mapped or compatible form,
-- which is accepted too, or every IPv4 address that it carries by its prefix (both NAT64 forms,
-- 6to4, ISATAP) is accepted.
pub check_v6_embedded :
    (v : Ipv6Addr)
    → check_v6 v ≡ ok tt
    → ((a : Ipv4Addr) × (to_ipv4 v ≡ some a) × (check_v4 a ≡ ok tt))
      ⊎ (Accepts (is_nat64 v) (octets_of v.s6 v.s7)
          × Accepts (is_local_nat64 v) (octets_of v.s6 v.s7)
          × Accepts (is_6to4 v) (octets_of v.s1 v.s2)
          × Accepts (is_isatap v) (octets_of v.s6 v.s7))
check_v6_embedded v h = elim (check_mapped-ok v (to_ipv4 v) (check_v6-mapped v h)) [
  | inl p ↦ inr (check_prefixes-Accepts v p)
  | inr m ↦ inl m
]
