-- ===== src/Libp2p/Enr/Soundness.antt =====
-- crates/resurrect-libp2p/src/enr_codec.rs: what the codec accepts.
use rbp.Prelude.{
  ℕ, ◌≤◌, ◌≡◌, ◌≢◌, ◌↔◌, inl, inr, false, none, List, [], ok, length, arith, Result-cases,
}
use rbp.Core.PeerRecord.{PeerCandidate, DialContext, record_type_enr, resurrect_registry}
use rbp.Libp2p.EndpointPolicy.{EndpointPolicy}
use rbp.Libp2p.Enr.{
  EnrLibrary, EnrRecord, max_enr_bytes, is_browser, enr_endpoints, usable, complete_enr,
  decode_and_verify,
}

module _ (library : EnrLibrary) (policy : EndpointPolicy) (raw : List ℕ)
    (context : DialContext) where
  -- the bytes are a signed record as a whole, with an endpoint of use outside of a browser
  pub record Verified (e : EnrRecord) (c : PeerCandidate) : Type 0 where
    pub present : raw ≢ []
    pub bounded : length raw ≤ max_enr_bytes
    pub outside : is_browser context ≡ false
    pub decodes : library.decode raw ≡ ok (e, [])
    pub reachable : usable library policy context (enr_endpoints library e) ≢ []
    pub completed : c ≡ record {
      record_type = record_type_enr;
      peer_id = e.node_id;
      sequence = e.seq;
      endpoints = usable library policy context (enr_endpoints library e);
      raw_signed_record = raw;
      expires_at = 0;
      source = resurrect_registry;
      announcement_block = none;
      announcement_log_index = none;
    }

  decoded-Verified :
      (c : PeerCandidate)
      → decode_and_verify library policy raw context ≡ ok c
      → (e : EnrRecord) × Verified e c
  unfolding decode_and_verify complete_enr
  decoded-Verified c h = elim (Result-cases (library.decode raw)) [
    | inr (e, failed) ↦ absurd (ground arith)
    | inl ((e, rest), decodes) ↦ (
      e,
      record {
        present = ground arith;
        bounded = ground arith;
        outside = ground arith;
        decodes = ground arith;
        reachable = ground arith;
        completed = ground arith;
      },
    )
  ]

  Verified-decoded :
      (c : PeerCandidate) (e : EnrRecord)
      → Verified e c
      → decode_and_verify library policy raw context ≡ ok c
  unfolding decode_and_verify complete_enr
  Verified-decoded c e v = ground arith

  -- The codec decodes bytes to a candidate exactly if they are no more than 300, not for a browser,
  -- and one whole record that the enr crate accepts, with an endpoint that the policy accepts; the
  -- candidate is then the record's node with its sequence number and the accepted endpoints.
  pub decode_and_verify-EnrVerified :
      (c : PeerCandidate)
      → (decode_and_verify library policy raw context ≡ ok c) ↔ ((e : EnrRecord) × Verified e c)
  decode_and_verify-EnrVerified c = (decoded-Verified c, λ w. Verified-decoded c w.0 w.1)
