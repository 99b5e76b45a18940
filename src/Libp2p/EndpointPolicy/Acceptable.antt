-- ===== src/Libp2p/EndpointPolicy/Acceptable.antt =====
-- crates/resurrect-libp2p/src/endpoint_policy.rs: what an accepted address is.
use rbp.Prelude.{
  ℕ, ◌≡◌, ◌↔◌, ◌⊎◌, refl, inl, inr, Bool, true, false, not, Option, none, some, List, [], ◌∷◌,
  nat_eq, bytes_eq, bytes_beq_iff, arith, Bool-cases, All, is_empty,
}
use rbp.Core.PeerRecord.{DialContext, native_server, browser, mobile, restricted_egress}
use rbp.Libp2p.EndpointPolicy.{
  EndpointPolicy, Protocol, ip4, ip6, p2p, tcp, udp, quic_v1, web_transport, wss, https, tls,
  certhash, other, rejects, is_transport, is_browser_secure, suits, accepts,
}
use rbp.Libp2p.EndpointPolicy.Acceptance.{any, accepts-any}
use rbp.Libp2p.EndpointPolicy.Addresses.{
  AllowsIpv4, AllowsIpv6, accept_ipv4-Allows, accept_ipv6-Allows,
}

-- one of the entries satisfies `P`
abbrev pub Some : (Protocol → Type 0) → List Protocol → Type 0
Some P [] = ⊥
Some P (x ∷ xs) = P x ⊎ Some P xs

pub data IsTransport : Protocol → Type 0 where
  by_tcp : (port : ℕ) → IsTransport (tcp port)
  by_udp : (port : ℕ) → IsTransport (udp port)
  by_quic : IsTransport quic_v1
  by_web_transport : IsTransport web_transport
  by_wss : IsTransport wss
  by_https : IsTransport https

pub data IsSecure : Protocol → Type 0 where
  wss_secure : IsSecure wss
  https_secure : IsSecure https
  tls_secure : IsSecure tls
  certhash_secure : IsSecure certhash
  web_transport_secure : IsSecure web_transport

-- a transport, and for a browser and for restricted egress something secure
abbrev pub Suits : DialContext → List Protocol → Type 0
Suits native_server l = Some IsTransport l
Suits mobile l = Some IsTransport l
Suits browser l = Some IsTransport l × Some IsSecure l
Suits restricted_egress l = Some IsTransport l × Some IsSecure l

any-Some :
    (P : Protocol → Type 0) (f : Protocol → Bool)
    → ((x : Protocol) → (f x ≡ true) ↔ P x)
    → (l : List Protocol) → (any f l ≡ true) ↔ Some P l
any-Some P f iff [] = (λ h. absurd (cc), λ h. absurd h)
any-Some P f iff (x ∷ l) = elim (Bool-cases (f x)) [
  | inl holds ↦ rw holds (λ h. inl ((iff x).0 holds), λ h. refl)
  | inr fails ↦ rw fails (
    λ h. inr ((any-Some P f iff l).0 h),
    λ h. elim h [
      | inl here ↦ let holds = (iff x).1 here in absurd (cc)
      | inr later ↦ (any-Some P f iff l).1 later
    ],
  )
]

is_transport-IsTransport : (x : Protocol) → (is_transport x ≡ true) ↔ IsTransport x
is_transport-IsTransport (ip4 ip) = (λ h. absurd (cc), λ h. elim h [ ])
is_transport-IsTransport (ip6 ip) = (λ h. absurd (cc), λ h. elim h [ ])
is_transport-IsTransport (p2p peer) = (λ h. absurd (cc), λ h. elim h [ ])
is_transport-IsTransport (tcp port) = (λ h. by_tcp port, λ h. refl)
is_transport-IsTransport (udp port) = (λ h. by_udp port, λ h. refl)
is_transport-IsTransport quic_v1 = (λ h. by_quic, λ h. refl)
is_transport-IsTransport web_transport = (λ h. by_web_transport, λ h. refl)
is_transport-IsTransport wss = (λ h. by_wss, λ h. refl)
is_transport-IsTransport https = (λ h. by_https, λ h. refl)
is_transport-IsTransport tls = (λ h. absurd (cc), λ h. elim h [ ])
is_transport-IsTransport certhash = (λ h. absurd (cc), λ h. elim h [ ])
is_transport-IsTransport other = (λ h. absurd (cc), λ h. elim h [ ])

is_browser_secure-IsSecure : (x : Protocol) → (is_browser_secure x ≡ true) ↔ IsSecure x
is_browser_secure-IsSecure (ip4 ip) = (λ h. absurd (cc), λ h. elim h [ ])
is_browser_secure-IsSecure (ip6 ip) = (λ h. absurd (cc), λ h. elim h [ ])
is_browser_secure-IsSecure (p2p peer) = (λ h. absurd (cc), λ h. elim h [ ])
is_browser_secure-IsSecure (tcp port) = (λ h. absurd (cc), λ h. elim h [ ])
is_browser_secure-IsSecure (udp port) = (λ h. absurd (cc), λ h. elim h [ ])
is_browser_secure-IsSecure quic_v1 = (λ h. absurd (cc), λ h. elim h [ ])
is_browser_secure-IsSecure web_transport = (λ h. web_transport_secure, λ h. refl)
is_browser_secure-IsSecure wss = (λ h. wss_secure, λ h. refl)
is_browser_secure-IsSecure https = (λ h. https_secure, λ h. refl)
is_browser_secure-IsSecure tls = (λ h. tls_secure, λ h. refl)
is_browser_secure-IsSecure certhash = (λ h. certhash_secure, λ h. refl)
is_browser_secure-IsSecure other = (λ h. absurd (cc), λ h. elim h [ ])

suits-Suits :
    (context : DialContext) (l : List Protocol)
    → (suits context (any is_transport l) (any is_browser_secure l) ≡ true) ↔ Suits context l
suits-Suits native_server l = any-Some IsTransport is_transport is_transport-IsTransport l
suits-Suits mobile l = any-Some IsTransport is_transport is_transport-IsTransport l
suits-Suits browser l =
    let one = any-Some IsTransport is_transport is_transport-IsTransport l in
    let two = any-Some IsSecure is_browser_secure is_browser_secure-IsSecure l in
    (λ h. (one.0 (ground arith), two.0 (ground arith)), λ h. rw (one.1 h.0, two.1 h.1) refl)
suits-Suits restricted_egress l =
    let one = any-Some IsTransport is_transport is_transport-IsTransport l in
    let two = any-Some IsSecure is_browser_secure is_browser_secure-IsSecure l in
    (λ h. (one.0 (ground arith), two.0 (ground arith)), λ h. rw (one.1 h.0, two.1 h.1) refl)

module _ (policy : EndpointPolicy) (expected_peer : Option (List ℕ)) where
  -- an IP address is one that the policy allows, a peer id is the expected one
  abbrev pub IsAllowed : Protocol → Type 0
  IsAllowed (ip4 ip) = AllowsIpv4 policy ip
  IsAllowed (ip6 ip) = AllowsIpv6 policy ip
  IsAllowed (p2p peer) = (expected_peer ≡ none) ⊎ (expected_peer ≡ some peer)
  IsAllowed _ = Unit

  rejects_peer :
      (expected : Option (List ℕ)) (peer : List ℕ)
      → (not (rejects policy expected (p2p peer)) ≡ true)
        ↔ ((expected ≡ none) ⊎ (expected ≡ some peer))
  unfolding rejects
  rejects_peer none peer = (λ h. inl refl, λ h. refl)
  rejects_peer (some e) peer = ground (arith, bytes_beq_iff e peer)

  rejects-IsAllowed : (x : Protocol) → (not (rejects policy expected_peer x) ≡ true) ↔ IsAllowed x
  unfolding rejects
  rejects-IsAllowed (ip4 ip) = ground (arith, accept_ipv4-Allows policy ip)
  rejects-IsAllowed (ip6 ip) = ground (arith, accept_ipv6-Allows policy ip)
  rejects-IsAllowed (p2p peer) = rejects_peer expected_peer peer
  rejects-IsAllowed (tcp port) = (λ h. tt, λ h. refl)
  rejects-IsAllowed (udp port) = (λ h. tt, λ h. refl)
  rejects-IsAllowed quic_v1 = (λ h. tt, λ h. refl)
  rejects-IsAllowed web_transport = (λ h. tt, λ h. refl)
  rejects-IsAllowed wss = (λ h. tt, λ h. refl)
  rejects-IsAllowed https = (λ h. tt, λ h. refl)
  rejects-IsAllowed tls = (λ h. tt, λ h. refl)
  rejects-IsAllowed certhash = (λ h. tt, λ h. refl)
  rejects-IsAllowed other = (λ h. tt, λ h. refl)

  any-rejects-All :
      (l : List Protocol) → (not (any (rejects policy expected_peer) l) ≡ true) ↔ All IsAllowed l
  any-rejects-All [] = (λ h. tt, λ h. refl)
  any-rejects-All (x ∷ l) =
      let (to, from) = rejects-IsAllowed x in
      let (all, back) = any-rejects-All l in
      elim (Bool-cases (rejects policy expected_peer x)) [
        | inl bad ↦ rw bad (λ h. absurd (cc), λ h. let good = from h.0 in absurd (cc))
        | inr good ↦ rw good (λ h. (to (rw good refl), all h), λ h. back h.1)
      ]

  -- An address is accepted exactly if every part of it is allowed and its parts suit the context. An
  -- IP address is allowed if it is a global one by its ranges (an IPv4 address mapped into IPv6 as
  -- itself), or, where the policy allows others, if it is neither unspecified nor multicast; a peer
  -- id, if none is expected or it is the expected one. The parts suit if there is a transport, and in
  -- a browser and with restricted egress also a secure protocol.
  pub accepts-IsAllowed :
      (context : DialContext) (l : List Protocol)
      → (accepts policy expected_peer context l ≡ true) ↔ (All IsAllowed l × Suits context l)
  accepts-IsAllowed context l =
      let folds = accepts-any policy expected_peer context l in
      let (to, from) = any-rejects-All l in
      let (suited, fits) = suits-Suits context l in
      (
        λ h. (to (ground (arith, folds, h)), suited (ground (arith, folds, h))),
        λ h.
            let all = from h.0 in
            let good = fits h.1 in
            let some_part = Suits-is_empty context l h.1 in
            ground (arith, folds, all, good, some_part),
      )
    where
      Suits-is_empty :
          (context : DialContext) (l : List Protocol) → Suits context l → is_empty l ≡ false
      Suits-is_empty native_server [] h = absurd h
      Suits-is_empty mobile [] h = absurd h
      Suits-is_empty browser [] h = absurd h.0
      Suits-is_empty restricted_egress [] h = absurd h.0
      Suits-is_empty context (x ∷ l) h = refl
