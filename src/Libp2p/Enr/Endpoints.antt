-- ===== src/Libp2p/Enr/Endpoints.antt =====
-- crates/resurrect-libp2p/src/enr_codec.rs: the endpoints of a record.
use rbp.Prelude.{
  ℕ, ◌≡◌, ◌≢◌, refl, inl, inr, ap, ◌∙◌, Bool, true, false, not, ◌&&◌, Option, none, some, List, [],
  ◌∷◌, ◌++◌, map, sym, ok, arith, Bool-cases, if◌then◌else◌,
}
use mathlib.Core.List.{append-nil, append_assoc, map-append}
use rbp.Core.PeerRecord.{
  PeerCandidate, Endpoint, DialContext, native_server, browser, mobile, restricted_egress,
}
use rbp.Libp2p.EndpointPolicy.{
  EndpointPolicy, Protocol, Ipv4Addr, Ipv6Addr, ip4, ip6, tcp, udp, accepts, accepts_from, rejects,
  accept_ipv4, accept_ipv6, suits,
}
use rbp.Libp2p.Enr.{
  EnrLibrary, EnrRecord, IpAddr, v4, v6, Transport, tcp_transport, udp_transport, push_endpoint,
  push_v4, push_v6, enr_endpoints, usable, decode_and_verify,
}
use rbp.Libp2p.Enr.Soundness.{decode_and_verify-EnrVerified}

abbrev pub host_of : IpAddr → Protocol
host_of (v4 ip) = ip4 ip
host_of (v6 ip) = ip6 ip

abbrev pub port_of : Transport → ℕ → Protocol
port_of tcp_transport port = tcp port
port_of udp_transport port = udp port

-- what multiaddr makes of `/{protocol}/{ip}/{transport}/{port}`
pub record Parses (library : EnrLibrary) : Type 0 where
  pub parses :
      (ip : IpAddr) (transport : Transport) (port : ℕ)
      → library.parse ip transport port ≡ some (host_of ip ∷ port_of transport port ∷ [])

-- the address family's test of the policy
abbrev pub accepts_ip : EndpointPolicy → IpAddr → Bool
accepts_ip policy (v4 ip) = accept_ipv4 policy ip
accepts_ip policy (v6 ip) = accept_ipv6 policy ip

-- a context that wants no secure transport
abbrev pub is_plain : DialContext → Bool
is_plain native_server = true
is_plain mobile = true
is_plain browser = false
is_plain restricted_egress = false

suits-is_plain : (context : DialContext) → suits context true false ≡ is_plain context
suits-is_plain native_server = refl
suits-is_plain mobile = refl
suits-is_plain browser = refl
suits-is_plain restricted_egress = refl

direct :
    (b : Bool) (context : DialContext)
    → (if not b then false else suits context true false) ≡ (b && is_plain context)
direct true context = suits-is_plain context
direct false context = refl

accepts-direct :
    (policy : EndpointPolicy) (context : DialContext) (ip : IpAddr) (transport : Transport)
    (port : ℕ)
    → accepts policy none context (host_of ip ∷ port_of transport port ∷ [])
      ≡ (accepts_ip policy ip && is_plain context)
unfolding accepts accepts_from rejects
accepts-direct policy context (v4 ip) tcp_transport port = direct (accept_ipv4 policy ip) context
accepts-direct policy context (v4 ip) udp_transport port = direct (accept_ipv4 policy ip) context
accepts-direct policy context (v6 ip) tcp_transport port = direct (accept_ipv6 policy ip) context
accepts-direct policy context (v6 ip) udp_transport port = direct (accept_ipv6 policy ip) context

-- an address with a transport and a port
pub record Offer : Type 0 where
  pub ip : IpAddr
  pub transport : Transport
  pub port : ℕ

abbrev pub offer : {I : Type 0} → (I → IpAddr) → Option I → Transport → Option ℕ → List Offer
offer f (some i) transport (some port) =
    (record { ip = f i; transport = transport; port = port }) ∷ []
offer f (some i) transport none = []
offer f none transport port = []

-- what a record offers: TCP before UDP, and IPv4 before IPv6
abbrev pub offers : EnrRecord → List Offer
offers e =
    offer v4 e.ip4_of tcp_transport e.tcp4
    ++ (offer v6 e.ip6_of tcp_transport e.tcp6
        ++ (offer v4 e.ip4_of udp_transport e.udp4 ++ offer v6 e.ip6_of udp_transport e.udp6))

module _ (library : EnrLibrary) (parsing : Parses library) where
  abbrev pub address_of : Offer → List Protocol
  address_of o = host_of o.ip ∷ port_of o.transport o.port ∷ []

  push_v4-offer :
      (l : List (List Protocol)) (i : Option Ipv4Addr) (t : Transport) (p : Option ℕ)
      → push_v4 library l i t p ≡ l ++ map address_of (offer v4 i t p)
  unfolding push_endpoint
  push_v4-offer l (some i) t (some p) = rw (parsing.parses (v4 i) t p) refl
  push_v4-offer l (some i) t none = sym (append-nil l)
  push_v4-offer l none t p = sym (append-nil l)

  push_v6-offer :
      (l : List (List Protocol)) (i : Option Ipv6Addr) (t : Transport) (p : Option ℕ)
      → push_v6 library l i t p ≡ l ++ map address_of (offer v6 i t p)
  unfolding push_endpoint
  push_v6-offer l (some i) t (some p) = rw (parsing.parses (v6 i) t p) refl
  push_v6-offer l (some i) t none = sym (append-nil l)
  push_v6-offer l none t p = sym (append-nil l)

  enr_endpoints-offers : (e : EnrRecord) → enr_endpoints library e ≡ map address_of (offers e)
  unfolding enr_endpoints
  enr_endpoints-offers e = simp (push_v4-offer, push_v6-offer, map-append, append_assoc)

  -- the offers that the policy and the context leave, as endpoints
  abbrev pub accepted : EndpointPolicy → DialContext → List Offer → List Endpoint
  accepted policy context [] = []
  accepted policy context (o ∷ os) =
      if accepts_ip policy o.ip && is_plain context
      then (record { address = library.to_string (address_of o) }) ∷ accepted policy context os
      else accepted policy context os

  usable-accepted :
      (policy : EndpointPolicy) (context : DialContext) (os : List Offer)
      → usable library policy context (map address_of os) ≡ accepted policy context os
  unfolding usable
  usable-accepted policy context [] = refl
  usable-accepted policy context (o ∷ os) = ground (
    arith,
    accepts-direct policy context o.ip o.transport o.port,
    usable-accepted policy context os,
  )

  accepted_plain :
      (policy : EndpointPolicy) (context : DialContext) (os : List Offer)
      → accepted policy context os ≢ []
      → is_plain context ≡ true
  accepted_plain policy context [] h = absurd (h refl)
  accepted_plain policy context (o ∷ os) h = elim (Bool-cases (is_plain context)) [
    | inl plain ↦ plain
    | inr secure ↦ accepted_plain policy context os (ground arith)
  ]

  -- If multiaddr parses what the codec prints, a decoded record has the endpoints that it offers, TCP
  -- before UDP and IPv4 before IPv6, of which the policy accepts the address; and the context is one
  -- that wants no secure transport: a browser and restricted egress never get one.
  pub decode_and_verify-accepted :
      (policy : EndpointPolicy) (raw : List ℕ) (context : DialContext) (c : PeerCandidate)
      → decode_and_verify library policy raw context ≡ ok c
      → (is_plain context ≡ true)
        × (e : EnrRecord) × (library.decode raw ≡ ok (e, []))
        × (c.endpoints ≡ accepted policy context (offers e))
  decode_and_verify-accepted policy raw context c h =
      let (e, v) = (decode_and_verify-EnrVerified library policy raw context c).0 h in
      let same : usable library policy context (enr_endpoints library e)
          ≡ accepted policy context (offers e) =
        rw (enr_endpoints-offers e) (usable-accepted policy context (offers e)) in
      (
        accepted_plain policy context (offers e) (λ none_left. v.reachable (same ∙ none_left)),
        e,
        v.decodes,
        ap (λ (d : PeerCandidate). d.endpoints) v.completed ∙ same,
      )
