-- ===== src/Libp2p/SignedRecord/Soundness.antt =====
-- crates/resurrect-libp2p/src/signed_peer_record.rs: what a decoded record is.
use rbp.Prelude.{
  ℕ, ◌≤◌, ◌≡◌, ◌≢◌, ◌↔◌, inl, inr, true, none, List, [], Result, ok, length, arith, bytes_eq,
  bytes_beq_iff, Result-cases,
}
use rbp.Core.PeerRecord.{
  PeerCandidate, PeerRecordError, DialContext, record_type_libp2p, resurrect_registry,
}
use rbp.Libp2p.EndpointPolicy.{EndpointPolicy}
use rbp.Libp2p.SignedRecord.{
  Identity, Wire, Envelope, PeerRecordMessage, libp2p_peer_record_payload_type, max_envelope_bytes,
  signing_input, usable, complete_record, open_envelope, decode_and_verify,
}

module _ {Keypair PublicKey : Type 0} (identity : Identity Keypair PublicKey) (wire : Wire)
    (policy : EndpointPolicy) (max_endpoints : ℕ) (raw : List ℕ) (context : DialContext) where
  -- `raw` is an envelope whose signature by the key of its peer covers the payload, and `c` is what
  -- the payload says, with the endpoints that the policy accepts
  pub record Verified (envelope : Envelope) (key : PublicKey) (payload : PeerRecordMessage)
      (c : PeerCandidate) : Type 0 where
    pub present : raw ≢ []
    pub bounded : length raw ≤ max_envelope_bytes
    pub opens : wire.decode_envelope raw ≡ ok envelope
    pub type : envelope.payload_type ≡ libp2p_peer_record_payload_type
    pub keyed : identity.try_decode_protobuf envelope.public_key ≡ ok key
    pub signed :
        identity.verify key
          (signing_input envelope.payload_type envelope.payload)
          envelope.signature
        ≡ true
    pub decodes : wire.decode_payload envelope.payload ≡ ok payload
    pub own : identity.from_bytes payload.peer_id ≡ ok (identity.from_public_key key)
    pub few : length payload.addresses ≤ max_endpoints
    pub reachable :
        usable identity wire policy max_endpoints
          (identity.from_public_key key)
          context
          payload.addresses
        ≢ []
    pub completed : c ≡ record {
      record_type = record_type_libp2p;
      peer_id = identity.from_public_key key;
      sequence = payload.sequence;
      endpoints =
          usable identity wire policy max_endpoints
            (identity.from_public_key key)
            context
            payload.addresses;
      raw_signed_record = raw;
      expires_at = 0;
      source = resurrect_registry;
      announcement_block = none;
      announcement_log_index = none;
    }

  abbrev decoded : Result PeerCandidate PeerRecordError
  decoded = decode_and_verify identity wire policy max_endpoints raw context

  decoded-Verified :
      (c : PeerCandidate)
      → decoded ≡ ok c
      → (e : Envelope) × (key : PublicKey) × (payload : PeerRecordMessage) × Verified e key payload
          c
  unfolding decode_and_verify open_envelope complete_record
  decoded-Verified c h = elim (Result-cases (wire.decode_envelope raw)) [
    | inr (e, failed) ↦ absurd (ground arith)
    | inl (envelope, opens) ↦
        elim (Result-cases (identity.try_decode_protobuf envelope.public_key)) [
          | inr (e, failed) ↦ absurd (ground arith)
          | inl (key, keyed) ↦ elim (Result-cases (wire.decode_payload envelope.payload)) [
            | inr (e, failed) ↦ absurd (ground arith)
            | inl (payload, decodes) ↦ elim (Result-cases (identity.from_bytes payload.peer_id)) [
              | inr (e, failed) ↦ absurd (ground arith)
              | inl (peer, parsed) ↦
                  let same = bytes_beq_iff (identity.from_public_key key) peer in
                  let mine : identity.from_public_key key ≡ peer = ground (arith, same) in
                  (
                    envelope,
                    key,
                    payload,
                    record {
                      present = ground arith;
                      bounded = ground arith;
                      opens = opens;
                      type = ground (
                        arith,
                        bytes_beq_iff envelope.payload_type libp2p_peer_record_payload_type,
                      );
                      keyed = keyed;
                      signed = ground arith;
                      decodes = decodes;
                      own = cc (parsed, mine);
                      few = ground arith;
                      reachable = ground arith;
                      completed = ground arith;
                    },
                  )
            ]
          ]
        ]
  ]

  Verified-decoded :
      (c : PeerCandidate) (e : Envelope) (key : PublicKey) (payload : PeerRecordMessage)
      → Verified e key payload c
      → decoded ≡ ok c
  unfolding decode_and_verify open_envelope complete_record
  Verified-decoded c e key payload v = ground (
    arith,
    bytes_beq_iff e.payload_type libp2p_peer_record_payload_type,
    bytes_beq_iff (identity.from_public_key key) (identity.from_public_key key),
  )

  -- The codec decodes bytes to a candidate exactly if they are an envelope within the size limit, of
  -- the payload type, whose payload the envelope's key has signed, names the peer of that key and no
  -- more addresses than the cap, of which the policy accepts one at least; the candidate is that peer
  -- with the payload's sequence number and the accepted addresses.
  pub decode_and_verify-Verified :
      (c : PeerCandidate)
      → (decode_and_verify identity wire policy max_endpoints raw context ≡ ok c) ↔ (
          (e : Envelope) × (key : PublicKey) × (payload : PeerRecordMessage) × Verified e key
            payload c)
  decode_and_verify-Verified c = (decoded-Verified c, λ w. Verified-decoded c w.0 w.1 w.2 w.3)
