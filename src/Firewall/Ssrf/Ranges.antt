-- ===== src/Firewall/Ssrf/Ranges.antt =====
-- The accepted IPv4 addresses, as numbers outside a list of ranges.
use apohara_agentguard.Prelude.{
  ℕ, ◌+◌, ◌*◌, ◌<◌, Text, Bool, true, false, ◌≡◌, ◌↔◌, ◌⊎◌, arith, Result, ok, ◌>>◌, refuse_if,
}
use apohara_agentguard.Firewall.Ssrf.{
  Ipv4Addr, is_metadata, is_loopback, is_private, is_link_local, is_unspecified, is_this_network,
  is_shared, is_benchmark, is_protocol, is_documentation, is_multicast, is_reserved, check_v4,
}

pub record IsAddress (v : Ipv4Addr) : Type 0 where
  pub b0 : v.o0 < 256
  pub b1 : v.o1 < 256
  pub b2 : v.o2 < 256
  pub b3 : v.o3 < 256

abbrev pub number : Ipv4Addr → ℕ
number v = v.o0 * 16777216 + v.o1 * 65536 + v.o2 * 256 + v.o3

abbrev pub Outside : ℕ → ℕ → ℕ → Type 0
Outside lo hi n = (n < lo) ⊎ (hi < n)

-- 10/8, 172.16/12, 192.168/16, 127/8, 169.254/16, 0/8, 100.64/10, 198.18/15, 192.0.0/24, the three
-- ranges for documentation, and all from 224 on.
pub record IsPublic (n : ℕ) : Type 0 where
  pub ten : Outside 167772160 184549375 n
  pub loopback : Outside 2130706432 2147483647 n
  pub link_local : Outside 2851995648 2852061183 n
  pub this_network : Outside 0 16777215 n
  pub private_172 : Outside 2886729728 2887778303 n
  pub private_192 : Outside 3232235520 3232301055 n
  pub shared : Outside 1681915904 1686110207 n
  pub benchmark : Outside 3323068416 3323199487 n
  pub protocol : Outside 3221225472 3221225727 n
  pub documentation_192 : Outside 3221225984 3221226239 n
  pub documentation_198 : Outside 3325256704 3325256959 n
  pub documentation_203 : Outside 3405803776 3405804031 n
  pub below_multicast : n < 3758096384

module _ (v : Ipv4Addr) (a : IsAddress v) where
  is_private_range : (is_private v ≡ false) ↔ (
      Outside 167772160 184549375 (number v)
      × Outside 2886729728 2887778303 (number v)
      × Outside 3232235520 3232301055 (number v))
  is_private_range = ground (arith, a.b0, a.b1, a.b2, a.b3)

  is_loopback_range : (is_loopback v ≡ false) ↔ Outside 2130706432 2147483647 (number v)
  is_loopback_range = ground (arith, a.b0, a.b1, a.b2, a.b3)

  is_link_local_range : (is_link_local v ≡ false) ↔ Outside 2851995648 2852061183 (number v)
  is_link_local_range = ground (arith, a.b0, a.b1, a.b2, a.b3)

  is_this_network_range : (is_this_network v ≡ false) ↔ Outside 0 16777215 (number v)
  is_this_network_range = ground (arith, a.b0, a.b1, a.b2, a.b3)

  is_shared_range : (is_shared v ≡ false) ↔ Outside 1681915904 1686110207 (number v)
  is_shared_range = ground (arith, a.b0, a.b1, a.b2, a.b3)

  is_benchmark_range : (is_benchmark v ≡ false) ↔ Outside 3323068416 3323199487 (number v)
  is_benchmark_range = ground (arith, a.b0, a.b1, a.b2, a.b3)

  is_protocol_range : (is_protocol v ≡ false) ↔ Outside 3221225472 3221225727 (number v)
  is_protocol_range = ground (arith, a.b0, a.b1, a.b2, a.b3)

  is_documentation_range : (is_documentation v ≡ false) ↔ (
      Outside 3221225984 3221226239 (number v)
      × Outside 3325256704 3325256959 (number v)
      × Outside 3405803776 3405804031 (number v))
  is_documentation_range = ground (arith, a.b0, a.b1, a.b2, a.b3)

  above_range : ((is_multicast v ≡ false) × (is_reserved v ≡ false)) ↔ (number v < 3758096384)
  above_range = ground (arith, a.b0, a.b1, a.b2, a.b3)

  -- The two single addresses lie in ranges of their own.
  is_metadata_range : is_link_local v ≡ false → is_metadata v ≡ false
  is_metadata_range h = ground arith

  is_unspecified_range : is_this_network v ≡ false → is_unspecified v ≡ false
  is_unspecified_range h = ground arith

refuse_if-ok :
    (b : Bool) (why : Text) (k : Result Text Unit)
    → ((refuse_if b why >> k) ≡ ok tt) ↔ ((b ≡ false) × (k ≡ ok tt))
refuse_if-ok true why k = ground arith
refuse_if-ok false why k = ground arith

record Passes (v : Ipv4Addr) : Type 0 where
  metadata : is_metadata v ≡ false
  loopback : is_loopback v ≡ false
  private_range : is_private v ≡ false
  link_local : is_link_local v ≡ false
  unspecified : is_unspecified v ≡ false
  this_network : is_this_network v ≡ false
  shared : is_shared v ≡ false
  benchmark : is_benchmark v ≡ false
  protocol : is_protocol v ≡ false
  documentation : is_documentation v ≡ false
  multicast : is_multicast v ≡ false
  reserved : is_reserved v ≡ false

check_v4-Passes : (v : Ipv4Addr) → (check_v4 v ≡ ok tt) ↔ Passes v
unfolding check_v4
check_v4-Passes v = ground arith

-- An IPv4 address with octets below 256 is accepted exactly when, as a number, it lies outside all the ranges: the
-- checks by octets and masks leave no gap and refuse nothing else.
pub check_v4-IsPublic : (v : Ipv4Addr) → IsAddress v → (check_v4 v ≡ ok tt) ↔ IsPublic (number v)
check_v4-IsPublic v a = (to_public, from_public)
  where
    to_public : check_v4 v ≡ ok tt → IsPublic (number v)
    to_public h =
        let p = (check_v4-Passes v).0 h in
        let private = (is_private_range v a).0 p.private_range in
        let documents = (is_documentation_range v a).0 p.documentation in
        record {
          ten = private.0;
          loopback = (is_loopback_range v a).0 p.loopback;
          link_local = (is_link_local_range v a).0 p.link_local;
          this_network = (is_this_network_range v a).0 p.this_network;
          private_172 = private.1;
          private_192 = private.2;
          shared = (is_shared_range v a).0 p.shared;
          benchmark = (is_benchmark_range v a).0 p.benchmark;
          protocol = (is_protocol_range v a).0 p.protocol;
          documentation_192 = documents.0;
          documentation_198 = documents.1;
          documentation_203 = documents.2;
          below_multicast = (above_range v a).0 (p.multicast, p.reserved);
        }

    from_public : IsPublic (number v) → check_v4 v ≡ ok tt
    from_public q =
        let local = (is_link_local_range v a).1 q.link_local in
        let network = (is_this_network_range v a).1 q.this_network in
        let above = (above_range v a).1 q.below_multicast in
        (check_v4-Passes v).1 (record {
          metadata = is_metadata_range v a local;
          loopback = (is_loopback_range v a).1 q.loopback;
          private_range = (is_private_range v a).1 (q.ten, q.private_172, q.private_192);
          link_local = local;
          unspecified = is_unspecified_range v a network;
          this_network = network;
          shared = (is_shared_range v a).1 q.shared;
          benchmark = (is_benchmark_range v a).1 q.benchmark;
          protocol = (is_protocol_range v a).1 q.protocol;
          documentation =
              (is_documentation_range v a).1
                (q.documentation_192, q.documentation_198, q.documentation_203);
          multicast = above.0;
          reserved = above.1;
        })
