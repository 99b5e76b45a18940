-- ===== src/Libp2p/SignedRecord.antt =====
-- crates/resurrect-libp2p/src/signed_peer_record.rs. Keys and signatures are libp2p-identity's,
-- messages prost's and addresses multiaddr's: they are parameters. A peer id is its bytes.
pub mod Uvarint
pub mod SigningInput
pub mod Soundness
pub mod RoundTrip
use rbp.Prelude.{
  ℕ, zero, suc, ◌+◌, ◌/◌, ◌%◌, String, Bool, not, ◌||◌, Option, none, some, List, [], ◌∷◌, ◌++◌,
  map, Result, ok, err, ◌>>=◌, ltb, leb, ◌==◌, bytes_eq, if◌then◌else◌, length, is_empty, map_err,
}
use rbp.Core.PeerRecord.{
  PeerCandidate, PeerRecordCodec, PeerRecordError, invalid_size, malformed, invalid_signature,
  identity_mismatch, too_many_endpoints, no_usable_endpoint, DialContext, Endpoint,
  record_type_libp2p, resurrect_registry,
}
use rbp.Core.Validation.{default_max_endpoints_per_record}
use rbp.Libp2p.EndpointPolicy.{EndpointPolicy, Protocol, accepts}

-- the bytes of "libp2p-peer-record"
abbrev pub libp2p_peer_record_domain : List ℕ
libp2p_peer_record_domain =
    108 ∷ 105 ∷ 98 ∷ 112 ∷ 50 ∷ 112 ∷ 45 ∷ 112 ∷ 101 ∷ 101 ∷ 114 ∷ 45 ∷ 114 ∷ 101 ∷ 99 ∷ 111 ∷ 114
    ∷ 100 ∷ []

abbrev pub libp2p_peer_record_payload_type : List ℕ
libp2p_peer_record_payload_type = 0x03 ∷ 0x01 ∷ []

abbrev pub max_envelope_bytes : ℕ
max_envelope_bytes = 4096

pub record Envelope : Type 0 where
  pub public_key : List ℕ
  pub payload_type : List ℕ
  pub payload : List ℕ
  pub signature : List ℕ

-- an address stands for the message `AddressInfo` of its bytes
pub record PeerRecordMessage : Type 0 where
  pub peer_id : List ℕ
  pub sequence : ℕ
  pub addresses : List (List ℕ)

pub data SignedPeerRecordError : Type 0 where
  no_endpoints : SignedPeerRecordError
  too_many_signed_endpoints : ℕ → SignedPeerRecordError
  signing : String → SignedPeerRecordError
  envelope_too_large : ℕ → SignedPeerRecordError

-- `Keypair`, `PublicKey` and `PeerId` of libp2p-identity
pub record Identity (Keypair PublicKey : Type 0) : Type 0 where
  pub public : Keypair → PublicKey
  pub sign : Keypair → List ℕ → Result (List ℕ) String
  pub verify : PublicKey → List ℕ → List ℕ → Bool
  pub encode_protobuf : PublicKey → List ℕ
  pub try_decode_protobuf : List ℕ → Result PublicKey String
  pub from_public_key : PublicKey → List ℕ
  pub from_bytes : List ℕ → Result (List ℕ) String

-- `encode_to_vec` and `decode` of the two messages, and the bytes and the text of a `Multiaddr`
pub record Wire : Type 0 where
  pub encode_envelope : Envelope → List ℕ
  pub decode_envelope : List ℕ → Result Envelope String
  pub encode_payload : PeerRecordMessage → List ℕ
  pub decode_payload : List ℕ → Result PeerRecordMessage String
  pub to_vec : List Protocol → List ℕ
  pub try_from : List ℕ → Option (List Protocol)
  pub to_string : List Protocol → String

-- the loop of `append_uvarint`, on fuel that is at most the value; `(b & 0x7f) | 0x80` of the low
-- byte `b` is `value % 128 + 128`, and `value >> 7` is `value / 128`
unfoldable pub uvarint_loop : ℕ → ℕ → List ℕ
uvarint_loop zero value = (value % 256) ∷ []
uvarint_loop (suc fuel) value =
    let more = (value % 128 + 128) ∷ uvarint_loop fuel (value / 128) in
    if leb 0x80 value then more else (value % 256) ∷ []

unfoldable pub append_uvarint : List ℕ → ℕ → List ℕ
unfolding uvarint_loop
append_uvarint buffer value = buffer ++ uvarint_loop value value

unfoldable pub signing_input : List ℕ → List ℕ → List ℕ
signing_input payload_type payload =
    let domain =
      append_uvarint [] (length libp2p_peer_record_domain) ++ libp2p_peer_record_domain in
    let typed = append_uvarint domain (length payload_type) ++ payload_type in
    append_uvarint typed (length payload) ++ payload

module _ {Keypair PublicKey : Type 0} (identity : Identity Keypair PublicKey) (wire : Wire) where
  unfoldable pub seal_payload : Keypair → List ℕ → Result (List ℕ) SignedPeerRecordError
  seal_payload keypair payload = do
    signature ←
        map_err signing
          (identity.sign keypair (signing_input libp2p_peer_record_payload_type payload))
    let encoded = wire.encode_envelope (record {
      public_key = identity.encode_protobuf (identity.public keypair);
      payload_type = libp2p_peer_record_payload_type;
      payload = payload;
      signature = signature;
    })
    if ltb max_envelope_bytes (length encoded)
        then err (envelope_too_large (length encoded))
        else ok encoded

  unfoldable pub sign_peer_record :
      Keypair → ℕ → List (List Protocol) → Result (List ℕ) SignedPeerRecordError
  unfolding seal_payload
  sign_peer_record keypair sequence addresses =
      if is_empty addresses
      then err no_endpoints
      else if ltb default_max_endpoints_per_record (length addresses)
      then err (too_many_signed_endpoints default_max_endpoints_per_record)
      else seal_payload keypair (
          wire.encode_payload (record {
            peer_id = identity.from_public_key (identity.public keypair);
            sequence = sequence;
            addresses = map wire.to_vec addresses;
          }))

  module _ (policy : EndpointPolicy) (max_endpoints : ℕ) where
    -- the chain of `filter_map`, `filter` and `map` over the addresses
    unfoldable pub usable : List ℕ → DialContext → List (List ℕ) → List Endpoint
    usable derived_peer dial_context [] = []
    usable derived_peer dial_context (info ∷ rest) =
        let others = usable derived_peer dial_context rest in
        elim (wire.try_from info) [
          | none ↦ others
          | some address ↦
              if accepts policy (some derived_peer) dial_context address
              then (record { address = wire.to_string address }) ∷ others
              else others
        ]

    -- from the decoded payload on
    unfoldable pub complete_record :
        List ℕ → DialContext → PublicKey → PeerRecordMessage → Result PeerCandidate PeerRecordError
    unfolding usable
    complete_record raw dial_context public_key payload = do
      let derived_peer = identity.from_public_key public_key
      payload_peer ← map_err malformed (identity.from_bytes payload.peer_id)
      let endpoints = usable derived_peer dial_context payload.addresses
      if not (derived_peer == payload_peer)
          then err identity_mismatch
          else if ltb max_endpoints (length payload.addresses)
          then err (too_many_endpoints max_endpoints)
          else if is_empty endpoints
          then err (no_usable_endpoint dial_context)
          else ok (record {
            record_type = record_type_libp2p;
            peer_id = derived_peer;
            sequence = payload.sequence;
            endpoints = endpoints;
            raw_signed_record = raw;
            expires_at = 0;
            source = resurrect_registry;
            announcement_block = none;
            announcement_log_index = none;
          })

    -- from the decoded envelope on
    unfoldable pub open_envelope :
        List ℕ → DialContext → Envelope → Result PeerCandidate PeerRecordError
    unfolding complete_record
    open_envelope raw dial_context envelope =
        if not (envelope.payload_type == libp2p_peer_record_payload_type)
        then err (malformed "unexpected signed-envelope payload type")
        else (do
          public_key ← map_err malformed (identity.try_decode_protobuf envelope.public_key)
          let input = signing_input envelope.payload_type envelope.payload
          if not (identity.verify public_key input envelope.signature)
              then err invalid_signature
              else do
                payload ← map_err malformed (wire.decode_payload envelope.payload)
                complete_record raw dial_context public_key payload)

    unfoldable pub decode_and_verify : List ℕ → DialContext → Result PeerCandidate PeerRecordError
    unfolding open_envelope
    decode_and_verify raw dial_context =
        if is_empty raw || ltb max_envelope_bytes (length raw)
        then err (invalid_size (length raw))
        else (do
          envelope ← map_err malformed (wire.decode_envelope raw)
          open_envelope raw dial_context envelope)

    -- the codec as a value of the trait
    unfoldable pub libp2p_peer_record_codec : PeerRecordCodec
    unfolding decode_and_verify
    libp2p_peer_record_codec = record {
      record_type = record_type_libp2p;
      decode_and_verify = decode_and_verify;
    }
