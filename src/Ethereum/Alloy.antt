-- ===== src/Ethereum/Alloy.antt =====
-- crates/resurrect-ethereum/src/alloy_provider.rs: `AlloyRegistryProvider`. The client is alloy's: a
-- record of calls over its state `W` with texts for errors; the decoder of the event and the hash of
-- its signature are what `sol!` generates from crates/resurrect-ethereum/src/abi.rs, and `Url::parse`
-- is the url crate's.
pub mod Logs
use rbp.Prelude.{
  ℕ, String, Bool, true, false, not, ◌&&◌, ◌||◌, Option, none, some, List, [], ◌∷◌, Result, ok, err,
  if◌then◌else◌,
}
use rbp.Prelude
use rbp.Prelude.Texts.{codes, to_ascii_lowercase, contains_text}
use rbp.Prelude.Stateful.{Stateful, pure, fail, lift, ◌>>=◌, ◌>>◌, map_err}
use rbp.Core.Namespace.{B256, Namespace}
use rbp.Core.Validation.{Announcement}
use rbp.Ethereum.Provider.{
  RegistryConstants, BlockInfo, BlockReference, number, latest, safe, finalized, ProviderError,
  configuration, request, range_limit, unsupported, missing, read_only, RegistryProvider,
}

-- alloy's `BlockNumberOrTag`, as far as it is used
pub data BlockNumberOrTag : Type 0 where
  number_tag : ℕ → BlockNumberOrTag
  latest_tag safe_tag finalized_tag : BlockNumberOrTag

pub record Header : Type 0 where
  pub number : ℕ
  pub timestamp : ℕ
  pub hash : B256

-- the `Filter` of a query for logs
pub record Filter : Type 0 where
  pub address : ℕ
  pub event_signature : B256
  pub topic1 : B256
  pub from_block : ℕ
  pub to_block : ℕ

pub record Log : Type 0 where
  pub removed : Bool
  pub block_number : Option ℕ
  pub log_index : Option ℕ
  pub block_hash : Option B256
  pub topics : List B256
  pub payload : List ℕ

-- the event of abi.rs
pub record PeerAnnounced : Type 0 where
  pub namespace : B256
  pub record_type : ℕ
  pub valid_until : ℕ
  pub peer_record : List ℕ

pub record AlloyClient (W : Type 0) : Type 0 where
  pub eth_chain_id : Stateful W ℕ String
  pub call_version : ℕ → Stateful W ℕ String
  pub call_max_ttl : ℕ → Stateful W ℕ String
  pub call_max_record_bytes : ℕ → Stateful W ℕ String
  pub get_block_by_number : BlockNumberOrTag → Stateful W (Option Header) String
  pub get_logs : Filter → Stateful W (List Log) String
  pub send_announce : ℕ → B256 → ℕ → ℕ → List ℕ → Stateful W ℕ String
  pub get_receipt : ℕ → Stateful W B256 String
  pub log_decode_validate : Log → Result PeerAnnounced String
  pub signature_hash : B256

-- what is read of a parsed URL
pub record Url : Type 0 where
  pub scheme : String

pub record AlloyRegistryProvider : Type 0 where
  pub url : Url
  pub writable : Bool

-- whether a message has a phrase, in small or capital letters
abbrev pub mentions : String → String → Bool
mentions message phrase = contains_text (to_ascii_lowercase (codes message)) (codes phrase)

unfoldable pub looks_unsupported : String → Bool
looks_unsupported message =
    mentions message "unsupported"
    || (mentions message "not found" || mentions message "invalid argument")

unfoldable pub looks_too_large : String → Bool
looks_too_large message =
    mentions message "range"
    || (mentions message "too many"
        || (mentions message "response size"
            || (mentions message "limit exceeded" || mentions message "query returned more than")))

-- the test of the reference in `map_block_error`
abbrev pub is_finality_tag : BlockReference → Bool
is_finality_tag (number _) = false
is_finality_tag latest = false
is_finality_tag safe = true
is_finality_tag finalized = true

unfoldable pub map_block_error : BlockReference → String → ProviderError
map_block_error reference message =
    if is_finality_tag reference && looks_unsupported message
    then unsupported message
    else request message

unfoldable pub map_log_error : String → ProviderError
map_log_error message = if looks_too_large message then range_limit message else request message

abbrev pub tag_of : BlockReference → BlockNumberOrTag
tag_of (number n) = number_tag n
tag_of latest = latest_tag
tag_of safe = safe_tag
tag_of finalized = finalized_tag

abbrev pub block_info : Option Header → Option BlockInfo
block_info none = none
block_info (some header) =
    some (record { number = header.number; timestamp = header.timestamp; hash = header.hash })

-- `matches!(url.scheme(), "http" | "https")`
module _ (beq_text : String → String → Bool) (url_parse : String → Result Url String) where
  abbrev pub checked_url : Url → Result Url ProviderError
  checked_url url =
      if beq_text url.scheme "http" || beq_text url.scheme "https"
      then ok url
      else err (configuration "only http and https JSON-RPC URLs are supported")

  unfoldable pub parse_url : String → Result Url ProviderError
  parse_url rpc_url = Prelude.◌>>=◌ (Prelude.map_err configuration (url_parse rpc_url)) checked_url

  abbrev pub connected : Bool → Url → Result AlloyRegistryProvider ProviderError
  connected writable url = ok (record { url = url; writable = writable })

  unfoldable pub read_only_provider : String → Result AlloyRegistryProvider ProviderError
  unfolding parse_url
  read_only_provider rpc_url = Prelude.◌>>=◌ (parse_url rpc_url) (connected false)

  unfoldable pub with_signer : String → Result AlloyRegistryProvider ProviderError
  unfolding parse_url
  with_signer rpc_url = Prelude.◌>>=◌ (parse_url rpc_url) (connected true)

module _ {W : Type 0} (client : AlloyClient W) where
  abbrev pub filter_of : ℕ → Namespace → ℕ → ℕ → Filter
  filter_of address namespace from_block to_block = record {
    address = address;
    event_signature = client.signature_hash;
    topic1 = namespace;
    from_block = from_block;
    to_block = to_block;
  }

  -- a decoded event at its position
  abbrev pub placed : Log → ℕ → ℕ → PeerAnnounced → Announcement
  placed log block_number log_index event = record {
    namespace = event.namespace;
    record_type = event.record_type;
    valid_until = event.valid_until;
    peer_record = event.peer_record;
    block_number = block_number;
    log_index = log_index;
    block_hash = log.block_hash;
  }

  -- the closure of `map`
  unfoldable pub announcement_of : Log → Result Announcement ProviderError
  announcement_of log =
      Prelude.◌>>=◌ (Prelude.ok_or (missing "log block") log.block_number) λ block_number.
        Prelude.◌>>=◌ (Prelude.ok_or (missing "log index") log.log_index) λ log_index.
          Prelude.◌>>=◌ (Prelude.map_err request (client.log_decode_validate log))
            λ event. ok (placed log block_number log_index event)

  -- `filter`, `map` and `collect` over the logs
  unfoldable pub collect : List Log → Result (List Announcement) ProviderError
  unfolding announcement_of
  collect [] = ok []
  collect (log ∷ logs) =
      let rest = collect logs in
      if not log.removed
      then (Prelude.◌>>=◌ (announcement_of log)
          λ announcement. Prelude.◌>>=◌ rest λ announcements. ok (announcement ∷ announcements))
      else rest

  unfoldable pub chain_id : Stateful W ℕ ProviderError
  chain_id = map_err request client.eth_chain_id

  unfoldable pub registry_constants : ℕ → Stateful W RegistryConstants ProviderError
  registry_constants address = do
    version ← map_err request (client.call_version address)
    max_ttl ← map_err request (client.call_max_ttl address)
    max_record_bytes ← map_err request (client.call_max_record_bytes address)
    pure (record { version = version; max_ttl = max_ttl; max_record_bytes = max_record_bytes })

  unfoldable pub block : BlockReference → Stateful W (Option BlockInfo) ProviderError
  unfolding map_block_error
  block reference = do
    found ← map_err (map_block_error reference) (client.get_block_by_number (tag_of reference))
    pure (block_info found)

  unfoldable pub announcements :
      ℕ → Namespace → ℕ → ℕ → Stateful W (List Announcement) ProviderError
  unfolding map_log_error collect
  announcements address namespace from_block to_block = do
    logs ← map_err map_log_error (client.get_logs (filter_of address namespace from_block to_block))
    lift (collect logs)

  unfoldable pub announce :
      AlloyRegistryProvider → ℕ → Namespace → ℕ → ℕ → List ℕ → Stateful W B256 ProviderError
  announce self address namespace record_type ttl peer_record w =
      let sent = (do
        pending ←
            map_err request (client.send_announce address namespace record_type ttl peer_record)
        map_err request (client.get_receipt pending)) in
      if not self.writable then (err read_only, w) else sent w

  -- the implementation of the trait
  unfoldable pub alloy_provider : AlloyRegistryProvider → RegistryProvider W
  unfolding chain_id registry_constants block announcements announce
  alloy_provider self = record {
    chain_id = chain_id;
    registry_constants = registry_constants;
    block = block;
    announcements = announcements;
    announce = announce self;
  }
