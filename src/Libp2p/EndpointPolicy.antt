-- ===== src/Libp2p/EndpointPolicy.antt =====
-- crates/resurrect-libp2p/src/endpoint_policy.rs. Multiaddresses are lists of protocols, parsed by the
-- multiaddr crate; the tests on addresses are those of Rust's standard library. A mask is written as
-- a division. Of a protocol only what the policy tells apart is kept: DNS names, certificate hashes and
-- paths are not.
pub mod Acceptance
pub mod Addresses
pub mod Acceptable
use rbp.Prelude.{
  ℕ, ◌*◌, ◌/◌, ◌%◌, Bool, true, false, not, ◌&&◌, ◌||◌, Option, some, none, List, [], ◌∷◌, leb,
  ◌==◌, nat_eq, bytes_eq, if◌then◌else◌,
}
use rbp.Core.PeerRecord.{DialContext, native_server, browser, mobile, restricted_egress}

pub record EndpointPolicy : Type 0 where
  pub allow_non_global : Bool

abbrev pub default_policy : EndpointPolicy
default_policy = record { allow_non_global = false }

abbrev pub local_testing : EndpointPolicy
local_testing = record { allow_non_global = true }

-- the octets of an address
pub record Ipv4Addr : Type 0 where
  pub a : ℕ
  pub b : ℕ
  pub c : ℕ
  pub d : ℕ

-- the segments of an address
pub record Ipv6Addr : Type 0 where
  pub s0 : ℕ
  pub s1 : ℕ
  pub s2 : ℕ
  pub s3 : ℕ
  pub s4 : ℕ
  pub s5 : ℕ
  pub s6 : ℕ
  pub s7 : ℕ

-- the protocols that the policy tells apart
pub data Protocol : Type 0 where
  ip4 : Ipv4Addr → Protocol
  ip6 : Ipv6Addr → Protocol
  p2p : List ℕ → Protocol
  tcp udp : ℕ → Protocol
  quic_v1 web_transport wss https tls certhash other : Protocol

abbrev pub v4_unspecified : Ipv4Addr → Bool
v4_unspecified ip = (ip.a == 0 && ip.b == 0) && (ip.c == 0 && ip.d == 0)

abbrev pub v4_multicast : Ipv4Addr → Bool
v4_multicast ip = leb 224 ip.a && leb ip.a 239

abbrev pub v4_private : Ipv4Addr → Bool
v4_private ip =
    (ip.a == 10 || (ip.a == 172 && (leb 16 ip.b && leb ip.b 31))) || (ip.a == 192 && ip.b == 168)

abbrev pub v4_documentation : Ipv4Addr → Bool
v4_documentation ip =
    ((ip.a == 192 && (ip.b == 0 && ip.c == 2)) || (ip.a == 198 && (ip.b == 51 && ip.c == 100)))
    || (ip.a == 203 && (ip.b == 0 && ip.c == 113))

unfoldable pub is_global_ipv4 : Ipv4Addr → Bool
is_global_ipv4 ip = not (
    v4_unspecified ip
    || (ip.a == 127
        || (v4_private ip
            || ((ip.a == 169 && ip.b == 254)
                || (v4_multicast ip
                    || (((ip.a == 255 && ip.b == 255) && (ip.c == 255 && ip.d == 255))
                        || (v4_documentation ip
                            || (ip.a == 0
                                || (leb 240 ip.a
                                    || ((ip.a == 100 && (leb 64 ip.b && leb ip.b 127))
                                        || (ip.a == 198 && (ip.b == 18 || ip.b == 19))))))))))))

abbrev pub v6_leading_zeros : Ipv6Addr → Bool
v6_leading_zeros ip = (ip.s0 == 0 && ip.s1 == 0) && ((ip.s2 == 0 && ip.s3 == 0) && ip.s4 == 0)

-- `to_ipv4_mapped`
abbrev pub to_ipv4_mapped : Ipv6Addr → Option Ipv4Addr
to_ipv4_mapped ip =
    if v6_leading_zeros ip && ip.s5 == 0xffff
    then some (record { a = ip.s6 / 256; b = ip.s6 % 256; c = ip.s7 / 256; d = ip.s7 % 256 })
    else none

abbrev pub v6_unspecified : Ipv6Addr → Bool
v6_unspecified ip = v6_leading_zeros ip && (ip.s5 == 0 && (ip.s6 == 0 && ip.s7 == 0))

abbrev pub v6_multicast : Ipv6Addr → Bool
v6_multicast ip = ip.s0 / 256 == 0xff

unfoldable pub is_global_ipv6 : Ipv6Addr → Bool
unfolding is_global_ipv4
is_global_ipv6 ip = elim (to_ipv4_mapped ip) [
  | some mapped ↦ is_global_ipv4 mapped
  | none ↦ not (
      v6_unspecified ip
      || ((v6_leading_zeros ip && (ip.s5 == 0 && (ip.s6 == 0 && ip.s7 == 1)))
          || (v6_multicast ip
              || (ip.s0 / 512 * 512 == 0xfc00
                  || (ip.s0 / 64 * 64 == 0xfe80 || (ip.s0 == 0x2001 && ip.s1 == 0x0db8))))))
]

unfoldable pub accept_ipv4 : EndpointPolicy → Ipv4Addr → Bool
unfolding is_global_ipv4
accept_ipv4 policy ip =
    if policy.allow_non_global
    then not (v4_unspecified ip) && not (v4_multicast ip)
    else is_global_ipv4 ip

unfoldable pub accept_ipv6 : EndpointPolicy → Ipv6Addr → Bool
unfolding is_global_ipv6
accept_ipv6 policy ip =
    if policy.allow_non_global
    then not (v6_unspecified ip) && not (v6_multicast ip)
    else is_global_ipv6 ip

-- `return false` in the loop
unfoldable pub rejects : EndpointPolicy → Option (List ℕ) → Protocol → Bool
unfolding accept_ipv4 accept_ipv6
rejects policy expected_peer (ip4 ip) = not (accept_ipv4 policy ip)
rejects policy expected_peer (ip6 ip) = not (accept_ipv6 policy ip)
rejects policy none (p2p peer) = false
rejects policy (some expected) (p2p peer) = not (expected == peer)
rejects policy expected_peer _ = false

-- the protocols that set `has_transport`
abbrev pub is_transport : Protocol → Bool
is_transport (tcp _) = true
is_transport (udp _) = true
is_transport quic_v1 = true
is_transport web_transport = true
is_transport wss = true
is_transport https = true
is_transport _ = false

-- the protocols that set `browser_secure`
abbrev pub is_browser_secure : Protocol → Bool
is_browser_secure wss = true
is_browser_secure https = true
is_browser_secure tls = true
is_browser_secure certhash = true
is_browser_secure web_transport = true
is_browser_secure _ = false

abbrev pub suits : DialContext → Bool → Bool → Bool
suits native_server has_transport browser_secure = has_transport
suits mobile has_transport browser_secure = has_transport
suits browser has_transport browser_secure = has_transport && browser_secure
suits restricted_egress has_transport browser_secure = has_transport && browser_secure

module _ (policy : EndpointPolicy) (expected_peer : Option (List ℕ)) (context : DialContext) where
  -- the `for` loop and the final `match`
  unfoldable pub accepts_from : Bool → Bool → List Protocol → Bool
  unfolding rejects
  accepts_from has_transport browser_secure [] = suits context has_transport browser_secure
  accepts_from has_transport browser_secure (protocol ∷ rest) =
      let next =
        accepts_from (has_transport || is_transport protocol)
          (browser_secure || is_browser_secure protocol) rest in
      if rejects policy expected_peer protocol then false else next

  unfoldable pub accepts : List Protocol → Bool
  unfolding accepts_from
  accepts [] = false
  accepts (protocol ∷ rest) = accepts_from false false (protocol ∷ rest)
