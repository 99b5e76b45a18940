-- ===== src/Tests/Enr.antt =====
-- The theorems about crates/resurrect-libp2p/src/enr_codec.rs at concrete inputs.
use rbp.Prelude.{ℕ, ◌≡◌, refl, String, false, true, none, some, List, [], ◌∷◌, Result, ok, err}
use rbp.Core.PeerRecord.{PeerCandidate, native_server, record_type_enr, resurrect_registry}
use rbp.Libp2p.EndpointPolicy.{Protocol, ip4, tcp, default_policy, accepts, accepts_from, rejects}
use rbp.Libp2p.Enr.{
  EnrLibrary, EnrRecord, push_endpoint, enr_endpoints, usable, complete_enr, decode_and_verify,
}
use rbp.Libp2p.Enr.Endpoints.{
  Parses, host_of, port_of, is_plain, offers, accepted, decode_and_verify-accepted,
}

abbrev node : EnrRecord
node = record {
  node_id = 4 ∷ [];
  seq = 12;
  ip4_of = some (record { a = 8; b = 8; c = 8; d = 8 });
  ip6_of = none;
  tcp4 = some 30303;
  tcp6 = some 30303;
  udp4 = some 30304;
  udp6 = none;
}

abbrev read : List ℕ → Result (EnrRecord × List ℕ) String
read [] = err "too short"
read (b ∷ rest) = ok (node, rest)

abbrev spell : List Protocol → String
spell (ip4 ip ∷ tcp port ∷ []) = "/ip4/8.8.8.8/tcp/30303"
spell _ = "/ip4/8.8.8.8/udp/30304"

abbrev library : EnrLibrary
library = record {
  decode = read;
  names_signature = λ s. false;
  parse = λ ip transport port. some (host_of ip ∷ port_of transport port ∷ []);
  to_string = spell;
}

parsing : Parses library
parsing = record { parses = λ ip transport port. refl }

abbrev candidate : PeerCandidate
candidate = record {
  record_type = record_type_enr;
  peer_id = 4 ∷ [];
  sequence = 12;
  endpoints =
      record { address = "/ip4/8.8.8.8/tcp/30303" }
      ∷ record { address = "/ip4/8.8.8.8/udp/30304" }
      ∷ [];
  raw_signed_record = 1 ∷ [];
  expires_at = 0;
  source = resurrect_registry;
  announcement_block = none;
  announcement_log_index = none;
}

decoded : decode_and_verify library default_policy (1 ∷ []) native_server ≡ ok candidate
unfolding decode_and_verify complete_enr enr_endpoints push_endpoint usable accepts accepts_from
    rejects
decoded = refl

decode_and_verify-accepted_example :
    (is_plain native_server ≡ true)
    × (e : EnrRecord) × (library.decode (1 ∷ []) ≡ ok (e, []))
    × (candidate.endpoints ≡ accepted library parsing default_policy native_server (offers e))
decode_and_verify-accepted_example =
    decode_and_verify-accepted library parsing default_policy (1 ∷ []) native_server candidate
      decoded
