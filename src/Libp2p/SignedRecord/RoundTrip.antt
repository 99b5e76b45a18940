-- ===== src/Libp2p/SignedRecord/RoundTrip.antt =====
-- crates/resurrect-libp2p/src/signed_peer_record.rs: records of `sign_peer_record` through the codec,
-- and through the announcement checks of crates/resurrect-core/src/validation.rs.
use rbp.Prelude.{
  ℕ, ◌≤◌, ◌≡◌, ◌≢◌, refl, sym, inl, inr, true, none, some, List, [], ◌∷◌, map, ok, length, arith,
  Result-cases, if◌then◌else◌, nat_eq,
}
use rbp.Prelude.HashMap
use rbp.Core.PeerRecord.{
  PeerCandidate, DialContext, Endpoint, record_type_libp2p, resurrect_registry,
}
use rbp.Core.Validation.{Announcement, AnnouncementPolicy, CodecRegistry, validate_announcement}
use rbp.Core.Validation.Acceptance.{EnvelopeOk, validate_announcement-Accepts}
use rbp.Libp2p.EndpointPolicy.{EndpointPolicy, Protocol, accepts}
use rbp.Libp2p.SignedRecord.{
  Identity, Wire, Envelope, PeerRecordMessage, libp2p_peer_record_payload_type, max_envelope_bytes,
  signing_input, usable, decode_and_verify, sign_peer_record, seal_payload,
  libp2p_peer_record_codec,
}
use rbp.Libp2p.SignedRecord.Soundness.{decode_and_verify-Verified}

-- what libp2p-identity promises of keys, signatures and peer ids
pub record IdentityLaws {Keypair PublicKey : Type 0} (identity : Identity Keypair PublicKey)
    : Type 0 where
  pub verifies :
      (keypair : Keypair) (message signature : List ℕ)
      → identity.sign keypair message ≡ ok signature
      → identity.verify (identity.public keypair) message signature ≡ true
  pub key_round_trip :
      (key : PublicKey) → identity.try_decode_protobuf (identity.encode_protobuf key) ≡ ok key
  pub peer_round_trip :
      (key : PublicKey)
      → identity.from_bytes (identity.from_public_key key) ≡ ok (identity.from_public_key key)

-- what prost and multiaddr promise of their encodings; no bytes decode to the empty message
pub record WireLaws (wire : Wire) : Type 0 where
  pub envelope_round_trip : (e : Envelope) → wire.decode_envelope (wire.encode_envelope e) ≡ ok e
  pub payload_round_trip :
      (m : PeerRecordMessage) → wire.decode_payload (wire.encode_payload m) ≡ ok m
  pub address_round_trip : (a : List Protocol) → wire.try_from (wire.to_vec a) ≡ some a
  pub default_envelope :
      wire.decode_envelope []
      ≡ ok (record { public_key = []; payload_type = []; payload = []; signature = [] })

module _ {Keypair PublicKey : Type 0} (identity : Identity Keypair PublicKey) (wire : Wire)
    (keys : IdentityLaws identity) (codecs : WireLaws wire) (policy : EndpointPolicy)
    (max_endpoints : ℕ) (keypair : Keypair) (sequence : ℕ) (context : DialContext) where
  abbrev me : List ℕ
  me = identity.from_public_key (identity.public keypair)

  -- the addresses that the policy accepts for the peer, as endpoints
  abbrev pub accepted : List (List Protocol) → List Endpoint
  accepted [] = []
  accepted (a ∷ rest) =
      if accepts policy (some me) context a
      then (record { address = wire.to_string a }) ∷ accepted rest
      else accepted rest

  usable-map :
      (addresses : List (List Protocol))
      → usable identity wire policy max_endpoints me context (map wire.to_vec addresses)
        ≡ accepted addresses
  unfolding usable
  usable-map [] = refl
  usable-map (a ∷ rest) = ground (arith, codecs.address_round_trip a, usable-map rest)

  length-map_to_vec :
      (addresses : List (List Protocol)) → length (map wire.to_vec addresses) ≡ length addresses
  length-map_to_vec [] = refl
  length-map_to_vec (a ∷ rest) = omega (arith, length-map_to_vec rest)

  module _ (addresses : List (List Protocol)) (raw : List ℕ) where
    -- the message and the envelope that are signed and sent
    abbrev message : PeerRecordMessage
    message = record { peer_id = me; sequence = sequence; addresses = map wire.to_vec addresses }

    abbrev payload : List ℕ
    payload = wire.encode_payload message

    abbrev envelope : List ℕ → Envelope
    envelope signature = record {
      public_key = identity.encode_protobuf (identity.public keypair);
      payload_type = libp2p_peer_record_payload_type;
      payload = payload;
      signature = signature;
    }

    -- the candidate that the record stands for
    abbrev pub signed_candidate : PeerCandidate
    signed_candidate = record {
      record_type = record_type_libp2p;
      peer_id = me;
      sequence = sequence;
      endpoints = accepted addresses;
      raw_signed_record = raw;
      expires_at = 0;
      source = resurrect_registry;
      announcement_block = none;
      announcement_log_index = none;
    }

    sealed :
        sign_peer_record identity wire keypair sequence addresses ≡ ok raw
        → (signature : List ℕ) × (identity.sign keypair
              (signing_input libp2p_peer_record_payload_type payload)
            ≡ ok signature)
          × (raw ≡ wire.encode_envelope (envelope signature))
          × (length raw ≤ max_envelope_bytes)
    unfolding sign_peer_record seal_payload
    sealed h =
        elim (Result-cases
          (identity.sign keypair (signing_input libp2p_peer_record_payload_type payload))) [
            | inr (e, failed) ↦ absurd (ground arith)
            | inl (signature, done) ↦ (signature, done, ground arith, ground arith)
          ]

    -- What `sign_peer_record` returns is decoded to the signer's candidate, with the sequence number
    -- and the accepted addresses, if the codec allows as many addresses and accepts one of them.
    pub decode_and_verify-sign_peer_record :
        sign_peer_record identity wire keypair sequence addresses ≡ ok raw
        → length addresses ≤ max_endpoints
        → accepted addresses ≢ []
        → decode_and_verify identity wire policy max_endpoints raw context ≡ ok signed_candidate
    decode_and_verify-sign_peer_record h few reachable =
        let (signature, done, encoded, bounded) = sealed h in
        let opens : wire.decode_envelope raw ≡ ok (envelope signature) =
          rw encoded (codecs.envelope_round_trip (envelope signature)) in
        (decode_and_verify-Verified identity wire policy max_endpoints raw context
            signed_candidate).1
          (
            envelope signature,
            identity.public keypair,
            message,
            record {
              present = λ e. ground (arith, rw e at opens, codecs.default_envelope);
              bounded = bounded;
              opens = opens;
              type = refl;
              keyed = keys.key_round_trip (identity.public keypair);
              signed = keys.verifies keypair _ signature done;
              decodes = codecs.payload_round_trip message;
              own = keys.peer_round_trip (identity.public keypair);
              few = rw (length-map_to_vec addresses) few;
              reachable = rw (usable-map addresses) reachable;
              completed = rw (usable-map addresses) refl;
            },
          )

    -- An announcement of such a record under its type, whose envelope passes, is accepted by a
    -- registry with this codec, as the signer's candidate until the announcement's end, if the codec
    -- and the policy of the announcement allow as many addresses and one of them is accepted.
    pub validate_announcement-sign_peer_record :
        (registry : CodecRegistry) (a : Announcement) (p : AnnouncementPolicy)
        → sign_peer_record identity wire keypair sequence addresses ≡ ok raw
        → length addresses ≤ max_endpoints
        → accepted addresses ≢ []
        → length (accepted addresses) ≤ p.max_endpoints
        → HashMap.get record_type_libp2p registry.codecs
          ≡ some (libp2p_peer_record_codec identity wire policy max_endpoints)
        → a.record_type ≡ record_type_libp2p
        → a.peer_record ≡ raw
        → p.dial_context ≡ context
        → EnvelopeOk a p
        → validate_announcement registry a p
          ≡ ok (record signed_candidate {
            expires_at = a.valid_until;
            announcement_block = some a.block_number;
            announcement_log_index = some a.log_index;
          })
    unfolding libp2p_peer_record_codec
    validate_announcement-sign_peer_record registry a p h few reachable fits found type record_of
          same ok_envelope =
        (validate_announcement-Accepts registry a p _).1 (
          libp2p_peer_record_codec identity wire policy max_endpoints,
          signed_candidate,
          record {
            envelope = ok_envelope;
            registered = rw type found;
            decodes = rw (record_of, same) (decode_and_verify-sign_peer_record h few reachable);
            same_type = sym type;
            few_endpoints = fits;
            completed = refl;
          },
        )
