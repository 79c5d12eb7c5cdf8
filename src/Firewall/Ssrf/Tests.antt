-- ===== src/Firewall/Ssrf/Tests.antt =====
-- An address of a public server, alone and in the 6to4 form.
use apohara_agentguard.Prelude.{some, ◌≡◌, ◌↔◌, ◌⊎◌, refl, arith, ok}
use apohara_agentguard.Firewall.Ssrf.Ranges.{IsAddress, IsPublic, number, check_v4-IsPublic}
use apohara_agentguard.Firewall.Ssrf.Embedded.{Accepts, check_v6_embedded}
use apohara_agentguard.Firewall.Ssrf.{
  Ipv4Addr, Ipv6Addr, check_v4, check_v6, check_if, check_prefixes, check_mapped, to_ipv4,
  octets_of, is_nat64, is_local_nat64, is_6to4, is_isatap,
}

abbrev server : Ipv4Addr
server = record { o0 = 8; o1 = 8; o2 = 4; o3 = 4 }

server-IsAddress : IsAddress server
server-IsAddress = record { b0 = omega arith; b1 = omega arith; b2 = omega arith; b3 = omega arith }

check_v4-IsPublic_example : (check_v4 server ≡ ok tt) ↔ IsPublic (number server)
check_v4-IsPublic_example = check_v4-IsPublic server server-IsAddress

abbrev tunnel : Ipv6Addr
tunnel = record { s0 = 0x2002; s1 = 0x0808; s2 = 0x0404; s3 = 1; s4 = 1; s5 = 0; s6 = 0; s7 = 1 }

tunnel_accepted : check_v6 tunnel ≡ ok tt
unfolding check_v6 check_mapped check_prefixes check_if check_v4
tunnel_accepted = refl

check_v6_embedded_example :
    ((a : Ipv4Addr) × (to_ipv4 tunnel ≡ some a) × (check_v4 a ≡ ok tt))
    ⊎ (Accepts (is_nat64 tunnel) (octets_of 0 1)
        × Accepts (is_local_nat64 tunnel) (octets_of 0 1)
        × Accepts (is_6to4 tunnel) (octets_of 0x0808 0x0404)
        × Accepts (is_isatap tunnel) (octets_of 0 1))
check_v6_embedded_example = check_v6_embedded tunnel tunnel_accepted
