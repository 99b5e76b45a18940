-- ===== src/Tests/Cli.antt =====
-- The theorems about crates/resurrect-node/src/main.rs at concrete inputs.
use rbp.Prelude.{none, some, true, false, [], refl}
use rbp.Core.PeerRecord.{PeerRecordCodec}
use rbp.Libp2p.EndpointPolicy.{EndpointPolicy}
use rbp.Node.Cli.{Cli, prepare}
use rbp.Node.Cli.Prepared.{Prepares, prepare-Prepares}
use rbp.Tests.{codec, mainnet}

abbrev pub cli : Cli
cli = record {
  descriptor = none;
  namespace = some 5;
  application = none;
  major_version = none;
  rpc_url = "https://rpc.example";
  identity = "identity.key";
  listen = [];
  advertise = [];
  seed = false;
  ethereum_private_key = none;
  mdns = true;
  native_peer = [];
  allow_private_endpoints = true;
  minimum_peers = 2;
  maximum_parallel_dials = 8;
  dial_timeout_seconds = 8;
  native_observation_millis = 1500;
  fallback_confirmations = 12;
  allow_unfinalized = false;
  reboot_ttl_seconds = 604800;
  maintenance_ttl_seconds = 2592000;
  renewal_interval_seconds = 1209600;
  initial_backoff_millis = 1000;
  maximum_backoff_seconds = 300;
}

abbrev pub enr_codec : EndpointPolicy → PeerRecordCodec
enr_codec p = codec

abbrev libp2p_codec : EndpointPolicy → PeerRecordCodec
libp2p_codec p = record codec { record_type = 2 }

prepare-Prepares_example :
    Prepares enr_codec libp2p_codec
      (λ p. refl)
      (λ p. refl)
      cli
      mainnet
      (prepare enr_codec libp2p_codec cli mainnet)
prepare-Prepares_example =
    prepare-Prepares enr_codec libp2p_codec (λ p. refl) (λ p. refl) cli mainnet
