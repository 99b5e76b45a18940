-- ===== src/Libp2p/Enr.antt =====
-- crates/resurrect-libp2p/src/enr_codec.rs. The record with its signature check is the enr crate's,
-- the parser and the printer of addresses are multiaddr's: they are parameters.
pub mod Soundness
pub mod Endpoints
use rbp.Prelude.{
  ℕ, Bool, true, false, not, ◌||◌, Option, none, some, List, [], ◌∷◌, ◌++◌, String, Result, ok, err,
  ◌>>=◌, map_err, ltb, if◌then◌else◌, length, is_empty,
}
use rbp.Core.PeerRecord.{
  PeerCandidate, PeerRecordCodec, PeerRecordError, invalid_size, malformed, invalid_signature,
  no_usable_endpoint, DialContext, native_server, browser, mobile, restricted_egress, Endpoint,
  record_type_enr, resurrect_registry,
}
use rbp.Libp2p.EndpointPolicy.{EndpointPolicy, Protocol, Ipv4Addr, Ipv6Addr, accepts}

abbrev pub max_enr_bytes : ℕ
max_enr_bytes = 300

-- what the codec reads of an `Enr`
pub record EnrRecord : Type 0 where
  pub node_id : List ℕ
  pub seq : ℕ
  pub ip4_of : Option Ipv4Addr
  pub ip6_of : Option Ipv6Addr
  pub tcp4 : Option ℕ
  pub tcp6 : Option ℕ
  pub udp4 : Option ℕ
  pub udp6 : Option ℕ

pub data IpAddr : Type 0 where
  v4 : Ipv4Addr → IpAddr
  v6 : Ipv6Addr → IpAddr

-- the two texts that stand for a transport
pub data Transport : Type 0 where
  tcp_transport udp_transport : Transport

-- `Enr::decode`, which checks the signature and leaves the rest of the bytes; whether an error's text
-- names the signature; the parser of `/{protocol}/{ip}/{transport}/{port}`; and the printer
pub record EnrLibrary : Type 0 where
  pub decode : List ℕ → Result (EnrRecord × List ℕ) String
  pub names_signature : String → Bool
  pub parse : IpAddr → Transport → ℕ → Option (List Protocol)
  pub to_string : List Protocol → String

abbrev pub is_browser : DialContext → Bool
is_browser browser = true
is_browser native_server = false
is_browser mobile = false
is_browser restricted_egress = false

module _ (library : EnrLibrary) where
  -- what `push_endpoint` pushes
  abbrev pub pushed : Option (List Protocol) → List (List Protocol)
  pushed none = []
  pushed (some address) = address ∷ []

  unfoldable pub push_endpoint :
      List (List Protocol) → IpAddr → Transport → ℕ → List (List Protocol)
  push_endpoint endpoints ip transport port = endpoints ++ pushed (library.parse ip transport port)

  -- one `if let (Some(ip), Some(port))` for each family
  abbrev pub push_v4 :
      List (List Protocol) → Option Ipv4Addr → Transport → Option ℕ → List (List Protocol)
  push_v4 endpoints (some ip) transport (some port) = push_endpoint endpoints (v4 ip) transport port
  push_v4 endpoints (some ip) transport none = endpoints
  push_v4 endpoints none transport port = endpoints

  abbrev pub push_v6 :
      List (List Protocol) → Option Ipv6Addr → Transport → Option ℕ → List (List Protocol)
  push_v6 endpoints (some ip) transport (some port) = push_endpoint endpoints (v6 ip) transport port
  push_v6 endpoints (some ip) transport none = endpoints
  push_v6 endpoints none transport port = endpoints

  unfoldable pub enr_endpoints : EnrRecord → List (List Protocol)
  unfolding push_endpoint
  enr_endpoints record_of =
      let first = push_v4 [] record_of.ip4_of tcp_transport record_of.tcp4 in
      let second = push_v6 first record_of.ip6_of tcp_transport record_of.tcp6 in
      let third = push_v4 second record_of.ip4_of udp_transport record_of.udp4 in
      push_v6 third record_of.ip6_of udp_transport record_of.udp6

  -- how a decoding error is told
  abbrev pub decode_error : String → PeerRecordError
  decode_error error = if library.names_signature error then invalid_signature else malformed error

  module _ (policy : EndpointPolicy) where
    -- `filter` and `map` over the endpoints
    unfoldable pub usable : DialContext → List (List Protocol) → List Endpoint
    usable dial_context [] = []
    usable dial_context (address ∷ rest) =
        let others = usable dial_context rest in
        if accepts policy none dial_context address
        then (record { address = library.to_string address }) ∷ others
        else others

    -- from the decoded record on
    unfoldable pub complete_enr :
        List ℕ → DialContext → EnrRecord × List ℕ → Result PeerCandidate PeerRecordError
    unfolding enr_endpoints usable
    complete_enr raw dial_context (record_of, remaining) =
        let endpoints = usable dial_context (enr_endpoints record_of) in
        if not (is_empty remaining)
        then err (malformed "trailing bytes after ENR")
        else if is_empty endpoints
        then err (no_usable_endpoint dial_context)
        else ok (record {
          record_type = record_type_enr;
          peer_id = record_of.node_id;
          sequence = record_of.seq;
          endpoints = endpoints;
          raw_signed_record = raw;
          expires_at = 0;
          source = resurrect_registry;
          announcement_block = none;
          announcement_log_index = none;
        })

    unfoldable pub decode_and_verify : List ℕ → DialContext → Result PeerCandidate PeerRecordError
    unfolding complete_enr
    decode_and_verify raw dial_context =
        if is_empty raw || ltb max_enr_bytes (length raw)
        then err (invalid_size (length raw))
        else if is_browser dial_context
        then err (no_usable_endpoint dial_context)
        else (do
          decoded ← map_err decode_error (library.decode raw)
          complete_enr raw dial_context decoded)

    -- the codec as a value of the trait
    unfoldable pub enr_codec : PeerRecordCodec
    unfolding decode_and_verify
    enr_codec = record { record_type = record_type_enr; decode_and_verify = decode_and_verify }
