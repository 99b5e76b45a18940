-- ===== src/Tests/Announced.antt =====
-- A start of crates/resurrect-node/src/main.rs as a seed, at concrete arguments.
use rbp.Prelude.{
  ℕ, ◌≡◌, refl, String, true, some, none, List, [], ◌∷◌, map, Result, ok, err, arith, contains,
}
use rbp.Core.PeerRecord.{PeerCandidate, PeerRecordCodec}
use rbp.Core.Validation.{AnnouncementPolicy, CodecRegistry, validate_announcement}
use rbp.Core.Validation.Acceptance.{EnvelopeOk}
use rbp.Ethereum.Alloy.{parse_url, with_signer}
use rbp.Libp2p.EndpointPolicy.{EndpointPolicy, Protocol, accepts}
use rbp.Node.Identity.{FileSystem, Keys, load_or_create_identity}
use rbp.Node.Cli.{
  Cli, prepare, validate_cli_policy, check_ttl, build_codecs, register_all, endpoint_policy,
  check_seed, parse_multiaddrs, check_accepted, check_advertised,
}
use rbp.Node.Cli.StartUp.{Libraries, Arrangement, arrange, arrange_with, host_config}
use rbp.Node.Cli.Arranged.{Arranged, arrange-Arranged}
use rbp.Node.Cli.Announced.{libp2p_codec, endpoint_of, arrange-announces}
use rbp.Tests.{mainnet, policy}
use rbp.Tests.Cli.{cli, enr_codec}
use rbp.Tests.SignedRecord.{
  identity, wire, identity_laws, wire_laws, addresses, raw, signed, record_announced, announced_ok,
}

-- a file system whose only file holds the key 5
abbrev files : FileSystem ℕ String ℕ
files = record {
  read = λ path w. (ok (5 ∷ []), w);
  parent = λ path. none;
  create_dir_all = λ path w. (ok tt, w);
  create_new = λ path w. (ok 0, w);
  write_all = λ file bytes w. (ok tt, w);
  sync_all = λ file w. (ok tt, w);
}

abbrev first_byte : List ℕ → Result ℕ String
first_byte [] = err "empty"
first_byte (k ∷ rest) = ok k

abbrev keys : Keys ℕ ℕ
keys = record {
  generate_ed25519 = λ w. (6, w);
  to_protobuf_encoding = λ k. ok (k ∷ []);
  from_protobuf_encoding = first_byte;
}

abbrev address_of : List (List Protocol) → List Protocol
address_of [] = []
address_of (a ∷ rest) = a

abbrev lib : Libraries ℕ ℕ ℕ
lib = record {
  files = files;
  keys = keys;
  peer_id_of = λ k. k ∷ [];
  identity_text = λ e. "identity";
  signer_from_str = λ secret. ok tt;
  beq_text = λ s t. true;
  url_parse = λ text. ok (record { scheme = "https" });
  provider_text = λ e. "provider";
  parse_multiaddr = λ text. some (address_of addresses);
}

abbrev seed : Cli
seed = record cli {
  seed = true;
  ethereum_private_key = some "secret";
  advertise = "/ip4/8.8.8.8/tcp/4001" ∷ [];
}

abbrev libp2p : EndpointPolicy → PeerRecordCodec
libp2p = libp2p_codec identity wire

abbrev registry : CodecRegistry
registry = elim (prepare enr_codec libp2p seed mainnet) [
  | ok codecs ↦ codecs
  | err e ↦ record { codecs = [] }
]

abbrev arrangement : Arrangement ℕ
arrangement = record {
  codecs = registry;
  identity = 5;
  provider = record { url = record { scheme = "https" }; writable = true };
  host = host_config seed [] [];
  advertised_addresses = addresses;
}

arranged : (arrange lib enr_codec libp2p seed mainnet 0).0 ≡ ok arrangement
unfolding arrange arrange_with prepare validate_cli_policy check_ttl build_codecs register_all
    endpoint_policy load_or_create_identity check_seed parse_multiaddrs check_advertised
    check_accepted accepts parse_url with_signer
arranged = refl

arrange-Arranged_example :
    Arranged lib seed arrangement
    × (prepare enr_codec libp2p seed mainnet ≡ ok arrangement.codecs)
    × ((load_or_create_identity lib.files lib.keys seed.identity 0).0 ≡ ok arrangement.identity)
arrange-Arranged_example = arrange-Arranged lib enr_codec libp2p seed mainnet arrangement 0 arranged

-- the scan's policy
abbrev scanning : AnnouncementPolicy
scanning = record policy { accepted_record_types = mainnet.accepted_record_types }

envelope : EnvelopeOk record_announced scanning
unfolding contains
envelope = announced_ok

arrange-announces_example :
    (c : PeerCandidate) × (validate_announcement arrangement.codecs record_announced scanning
      ≡ ok c)
    × (c.peer_id ≡ lib.peer_id_of arrangement.identity)
    × (c.sequence ≡ 1)
    × (c.endpoints ≡ map (endpoint_of wire) arrangement.advertised_addresses)
arrange-announces_example =
    arrange-announces lib identity wire identity_laws wire_laws (λ k. refl) enr_codec (λ p. refl)
      seed mainnet arrangement 0 1 raw record_announced scanning arranged refl signed refl refl refl
      refl (omega arith) envelope
