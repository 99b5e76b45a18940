-- ===== src/Node/Cli/StartUp.antt =====
-- crates/resurrect-node/src/main.rs: what `run` arranges from the arguments before the host starts, and
-- the settings that it gives to the parts. The keys, the signer, the parsers of URLs and addresses and
-- the texts of errors are the libraries'.
use rbp.Prelude.{
  ℕ, ◌*◌, ◌^◌, Bool, not, Option, none, some, List, String, Result, ok, ◌>>=◌, map_err,
}
use rbp.Prelude.Stateful
use rbp.Prelude.Stateful.{Stateful, lift, pure}
use rbp.Core.PeerRecord.{PeerRecordCodec, native_server}
use rbp.Core.Descriptor.{NetworkDescriptor}
use rbp.Core.Validation.{CodecRegistry}
use rbp.Ethereum.Provider.{ProviderError}
use rbp.Ethereum.Alloy.{AlloyRegistryProvider, Url, read_only_provider, with_signer}
use rbp.Ethereum.Scanner.{ScannerConfig, default_config}
use rbp.Libp2p.EndpointPolicy.{EndpointPolicy, Protocol}
use rbp.Node.Identity.{FileSystem, Keys, IdentityError, load_or_create_identity}
use rbp.Node.Supervisor.{SupervisorPolicy, default_policy, nanos_per_sec}
use rbp.Node.Cli.{Cli, endpoint_policy, prepare, check_seed, parse_multiaddrs, check_advertised}

-- `HostConfig` of p2p.rs; the timeout is in seconds
pub record HostConfig : Type 0 where
  pub listen_addresses : List (List Protocol)
  pub configured_peers : List (List Protocol)
  pub enable_mdns : Bool
  pub idle_connection_timeout : ℕ

unfoldable pub host_config : Cli → List (List Protocol) → List (List Protocol) → HostConfig
host_config cli listen_addresses configured_peers = record {
  listen_addresses = listen_addresses;
  configured_peers = configured_peers;
  enable_mdns = cli.mdns;
  idle_connection_timeout = 120;
}

unfoldable pub scanner_config : Cli → ScannerConfig
scanner_config cli = record default_config {
  fallback_confirmations = cli.fallback_confirmations;
  use_finality_tags = not cli.allow_unfinalized;
  dial_context = native_server;
}

unfoldable pub supervisor_policy : Cli → SupervisorPolicy
supervisor_policy cli = record default_policy {
  bootstrap = record {
    minimum_successful_peers = cli.minimum_peers;
    maximum_parallel_dials = cli.maximum_parallel_dials;
    per_dial_timeout = cli.dial_timeout_seconds;
    reboot_ttl = cli.reboot_ttl_seconds;
  };
  initial_backoff = cli.initial_backoff_millis * 10 ^ 6;
  maximum_backoff = cli.maximum_backoff_seconds * nanos_per_sec;
  maintenance_ttl = cli.maintenance_ttl_seconds;
}

-- what the libraries give; an error of theirs is the text that is printed
pub record Libraries (W File Keypair : Type 0) : Type 0 where
  pub files : FileSystem W String File
  pub keys : Keys W Keypair
  pub peer_id_of : Keypair → List ℕ
  pub identity_text : IdentityError → String
  pub signer_from_str : String → Result (Unit {0}) String
  pub beq_text : String → String → Bool
  pub url_parse : String → Result Url String
  pub provider_text : ProviderError → String
  pub parse_multiaddr : String → Option (List Protocol)

-- what is arranged before the host starts
pub record Arrangement (Keypair : Type 0) : Type 0 where
  pub codecs : CodecRegistry
  pub identity : Keypair
  pub provider : AlloyRegistryProvider
  pub host : HostConfig
  pub advertised_addresses : List (List Protocol)

module _ {W File Keypair : Type 0} (lib : Libraries W File Keypair) where
  -- the `match` on the signing key
  abbrev pub provider_of : Option String → String → Result AlloyRegistryProvider String
  provider_of none rpc_url =
      map_err lib.provider_text (read_only_provider lib.beq_text lib.url_parse rpc_url)
  provider_of (some secret) rpc_url = do
    signer ← lib.signer_from_str secret
    map_err lib.provider_text (with_signer lib.beq_text lib.url_parse rpc_url)

  -- from the keys on
  unfoldable pub arrange_with : Cli → CodecRegistry → Keypair → Result (Arrangement Keypair) String
  arrange_with cli codecs identity = do
    provider ← provider_of cli.ethereum_private_key cli.rpc_url
    seed ← check_seed cli
    listen ← parse_multiaddrs lib.parse_multiaddr "invalid listen multiaddr" cli.listen
    configured ←
        parse_multiaddrs lib.parse_multiaddr "invalid native-peer multiaddr" cli.native_peer
    advertised ← parse_multiaddrs lib.parse_multiaddr "invalid advertise multiaddr" cli.advertise
    accepted ← check_advertised (endpoint_policy cli) (lib.peer_id_of identity) advertised
    ok (record {
      codecs = codecs;
      identity = identity;
      provider = provider;
      host = host_config cli listen configured;
      advertised_addresses = advertised;
    })

  unfoldable pub arrange :
      (EndpointPolicy → PeerRecordCodec)
      → (EndpointPolicy → PeerRecordCodec)
      → Cli
      → NetworkDescriptor
      → Stateful W (Arrangement Keypair) String
  unfolding arrange_with
  arrange enr_codec libp2p_codec cli descriptor =
      Stateful.◌>>=◌ (lift (prepare enr_codec libp2p_codec cli descriptor)) λ codecs.
        Stateful.◌>>=◌
          (Stateful.map_err lib.identity_text
            (load_or_create_identity lib.files lib.keys cli.identity))
          λ identity. lift (arrange_with cli codecs identity)
