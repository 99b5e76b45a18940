-- ===== src/Node/Cli.antt =====
-- crates/resurrect-node/src/main.rs: what the command line is checked for before the node starts, and
-- where the descriptor comes from. An error is the text that it prints, without the rejected value.
pub mod Prepared
pub mod StartUp
pub mod Arranged
pub mod Announced
use rbp.Prelude.{
  ℕ, ◌≡◌, Bool, true, false, ◌||◌, Option, none, some, List, [], ◌∷◌, String, Result, ok, err,
  ◌>>=◌, ◌>>◌, ◌==◌, nat_eq, if◌then◌else◌, ltb, is_empty, map_err, ok_or, length,
}
use rbp.Core.Namespace.{Namespace, B256, derive}
use rbp.Core.PeerRecord.{PeerRecordCodec, record_type_enr, record_type_libp2p, native_server}
use rbp.Core.Descriptor.{NetworkDescriptor}
use rbp.Core.Validation.{CodecRegistry, no_codecs, register, default_max_endpoints_per_record}
use rbp.Libp2p.EndpointPolicy.{EndpointPolicy, Protocol, default_policy, local_testing, accepts}

-- the arguments, without the paths of the cache and of the status file and the format of the logs
pub record Cli : Type 0 where
  pub descriptor : Option String
  pub namespace : Option Namespace
  pub application : Option (List ℕ)
  pub major_version : Option ℕ
  pub rpc_url : String
  pub identity : String
  pub listen : List String
  pub advertise : List String
  pub seed : Bool
  pub ethereum_private_key : Option String
  pub mdns : Bool
  pub native_peer : List String
  pub allow_private_endpoints : Bool
  pub minimum_peers : ℕ
  pub maximum_parallel_dials : ℕ
  pub dial_timeout_seconds : ℕ
  pub native_observation_millis : ℕ
  pub fallback_confirmations : ℕ
  pub allow_unfinalized : Bool
  pub reboot_ttl_seconds : ℕ
  pub maintenance_ttl_seconds : ℕ
  pub renewal_interval_seconds : ℕ
  pub initial_backoff_millis : ℕ
  pub maximum_backoff_seconds : ℕ

-- the body of the loop over the two lifetimes
unfoldable pub check_ttl : String → ℕ → ℕ → Result (Unit {0}) String
check_ttl message ttl maximum_ttl = if ttl == 0 || ltb maximum_ttl ttl then err message else ok tt

unfoldable pub validate_cli_policy : Cli → ℕ → Result (Unit {0}) String
unfolding check_ttl
validate_cli_policy cli maximum_ttl =
    if cli.minimum_peers == 0
    then err "--minimum-peers must be positive"
    else if cli.maximum_parallel_dials == 0
    then err "--maximum-parallel-dials must be positive"
    else if cli.dial_timeout_seconds == 0
    then err "--dial-timeout-seconds must be positive"
    else if cli.native_observation_millis == 0
    then err "--native-observation-millis must be positive"
    else if cli.initial_backoff_millis == 0 || cli.maximum_backoff_seconds == 0
    then err "retry backoff values must be positive"
    else if cli.renewal_interval_seconds == 0
    then err "--renewal-interval-seconds must be positive"
    else (do
      reboot ←
          check_ttl "--reboot-ttl-seconds must be between 1 and the descriptor maximum TTL"
            cli.reboot_ttl_seconds maximum_ttl
      check_ttl "--maintenance-ttl-seconds must be between 1 and the descriptor maximum TTL"
          cli.maintenance_ttl_seconds maximum_ttl)

unfoldable pub endpoint_policy : Cli → EndpointPolicy
endpoint_policy cli = if cli.allow_private_endpoints then local_testing else default_policy

module _ (enr_codec libp2p_codec : EndpointPolicy → PeerRecordCodec) where
  -- the `match` on a record type
  abbrev pub codec_for : EndpointPolicy → ℕ → Option PeerRecordCodec
  codec_for policy record_type =
      if record_type == record_type_enr
      then some (enr_codec policy)
      else if record_type == record_type_libp2p
      then some (libp2p_codec policy)
      else none

  -- the loop of `build_codecs`
  unfoldable pub register_all :
      EndpointPolicy → List ℕ → CodecRegistry → Result CodecRegistry String
  unfolding register
  register_all policy [] codecs = ok codecs
  register_all policy (record_type ∷ rest) codecs = elim (codec_for policy record_type) [
    | none ↦ err "descriptor requests unsupported record type"
    | some codec ↦ register_all policy rest (register codec codecs)
  ]

  unfoldable pub build_codecs : NetworkDescriptor → EndpointPolicy → Result CodecRegistry String
  unfolding register_all
  build_codecs descriptor policy = register_all policy descriptor.accepted_record_types no_codecs

  -- the first checks of `run`
  unfoldable pub prepare : Cli → NetworkDescriptor → Result CodecRegistry String
  unfolding validate_cli_policy build_codecs endpoint_policy
  prepare cli descriptor = do
    valid ← validate_cli_policy cli descriptor.registry.max_ttl
    build_codecs descriptor (endpoint_policy cli)

-- the checks of a seed
unfoldable pub check_seed : Cli → Result (Unit {0}) String
check_seed cli = elim cli.ethereum_private_key [
  | none ↦ if cli.seed then err "--seed requires RESURRECT_ETHEREUM_PRIVATE_KEY" else ok tt
  | some _ ↦
      if cli.seed
      then if is_empty cli.advertise
        then err "--seed requires at least one explicit --advertise endpoint"
        else ok tt
      else ok tt
]

-- `parse_multiaddrs`, with the parser of multiaddresses
unfoldable pub parse_multiaddrs :
    (String → Option (List Protocol)) → String → List String → Result (List (List Protocol)) String
parse_multiaddrs parse message [] = ok []
parse_multiaddrs parse message (value ∷ rest) = do
  address ← ok_or message (parse value)
  addresses ← parse_multiaddrs parse message rest
  ok (address ∷ addresses)

-- the loop over the advertised addresses
unfoldable pub check_accepted :
    EndpointPolicy → List ℕ → List (List Protocol) → Result (Unit {0}) String
unfolding accepts
check_accepted policy peer_id [] = ok tt
check_accepted policy peer_id (address ∷ rest) =
    let others = check_accepted policy peer_id rest in
    if accepts policy (some peer_id) native_server address
    then others
    else err "advertised endpoint is rejected by the selected endpoint policy"

unfoldable pub check_advertised :
    EndpointPolicy → List ℕ → List (List Protocol) → Result (Unit {0}) String
unfolding check_accepted
check_advertised policy peer_id addresses =
    if ltb default_max_endpoints_per_record (length addresses)
    then err "--advertise exceeds the signed peer-record endpoint cap"
    else check_accepted policy peer_id addresses

-- `load_descriptor`: the file's reader and parser, and the built-in descriptor, are parameters
module _ (keccak256 : List ℕ → B256) (decimal : ℕ → List ℕ)
    (from_file : String → Result NetworkDescriptor String)
    (ethereum_mainnet : Namespace → List ℕ → Result NetworkDescriptor String) where
  unfoldable pub derived_namespace : Option (List ℕ) → Option ℕ → Result Namespace String
  unfolding derive
  derived_namespace none major_version = err "one descriptor source is required"
  derived_namespace (some application) major_version =
      if is_empty application then err "--application must not be empty" else (do
        major ← ok_or "--application requires --major-version" major_version
        ok (derive keccak256 decimal application major))

  abbrev pub namespace_of : Cli → Option Namespace → Result Namespace String
  namespace_of cli (some namespace) = ok namespace
  namespace_of cli none = derived_namespace cli.application cli.major_version

  abbrev pub descriptor_of : Cli → Option String → Result NetworkDescriptor String
  descriptor_of cli (some path) = from_file path
  descriptor_of cli none = do
    namespace ← namespace_of cli cli.namespace
    ethereum_mainnet namespace (record_type_libp2p ∷ [])

  unfoldable pub load_descriptor : Cli → Result NetworkDescriptor String
  load_descriptor cli = descriptor_of cli cli.descriptor
