-- ===== src/Core/Validation/Acceptance.antt =====
-- What an accepted announcement is, and the order of the checks.
use rbp.Prelude.{
  ◌≤◌, ◌<◌, ◌≡◌, ◌≢◌, ◌↔◌, inl, inr, false, ◌||◌, is_empty, ltb, leb, ◌==◌, true, some, [], ok,
  arith, contains, nat_eq, length, Option-cases, Result-cases,
}
use rbp.Prelude.HashMap
use rbp.Core.PeerRecord.{PeerCandidate, PeerRecordCodec, resurrect_registry}
use rbp.Core.Validation.{
  Announcement, AnnouncementPolicy, CodecRegistry, complete, validate_announcement,
}

-- the envelope conditions, which need no codec
pub record EnvelopeOk (a : Announcement) (p : AnnouncementPolicy) : Type 0 where
  pub namespace : a.namespace ≡ p.expected_namespace
  pub accepted : contains p.accepted_record_types a.record_type ≡ true
  pub live : p.chain_time < a.valid_until
  pub present : a.peer_record ≢ []
  pub bounded : length a.peer_record ≤ p.max_record_bytes

-- `codec` decodes the record of `a` to `decoded` within the policy, and `c` is that candidate with
-- the announcement's fields
pub record Accepts (registry : CodecRegistry) (a : Announcement) (p : AnnouncementPolicy)
    (c : PeerCandidate) (codec : PeerRecordCodec) (decoded : PeerCandidate) : Type 0 where
  pub envelope : EnvelopeOk a p
  pub registered : HashMap.get a.record_type registry.codecs ≡ some codec
  pub decodes : codec.decode_and_verify a.peer_record p.dial_context ≡ ok decoded
  pub same_type : decoded.record_type ≡ a.record_type
  pub few_endpoints : length decoded.endpoints ≤ p.max_endpoints
  pub completed : c ≡ record decoded {
    expires_at = a.valid_until;
    source = resurrect_registry;
    announcement_block = some a.block_number;
    announcement_log_index = some a.log_index;
  }

module _ (registry : CodecRegistry) (a : Announcement) (p : AnnouncementPolicy) where
  accepted-Accepts :
      (c : PeerCandidate)
      → validate_announcement registry a p ≡ ok c
      → (codec : PeerRecordCodec) × (decoded : PeerCandidate) × Accepts registry a p c codec decoded
  unfolding validate_announcement complete
  accepted-Accepts c h = elim (Option-cases (HashMap.get a.record_type registry.codecs)) [
    | inl missing ↦ absurd (ground arith)
    | inr (codec, found) ↦
        elim (Result-cases (codec.decode_and_verify a.peer_record p.dial_context)) [
          | inr (e, failed) ↦ absurd (ground arith)
          | inl (decoded, decodes) ↦ (
            codec,
            decoded,
            record {
              envelope = record {
                namespace = ground arith;
                accepted = ground arith;
                live = ground arith;
                present = ground arith;
                bounded = ground arith;
              };
              registered = found;
              decodes = decodes;
              same_type = ground arith;
              few_endpoints = ground arith;
              completed = ground arith;
            },
          )
        ]
  ]

  Accepts-accepted :
      (c : PeerCandidate) (codec : PeerRecordCodec) (decoded : PeerCandidate)
      → Accepts registry a p c codec decoded
      → validate_announcement registry a p ≡ ok c
  unfolding validate_announcement complete
  Accepts-accepted c codec decoded v = ground arith

  -- An announcement is accepted with a candidate exactly if its namespace, record type, lifetime
  -- and size pass, a codec is registered for its type, that codec decodes the record to a candidate
  -- of the announced type within the endpoint cap, and the result is that candidate with the
  -- announcement's expiry, source and position.
  pub validate_announcement-Accepts :
      (c : PeerCandidate)
      → (validate_announcement registry a p ≡ ok c) ↔ (
          (codec : PeerRecordCodec) × (decoded : PeerCandidate) × Accepts registry a p c codec
            decoded)
  validate_announcement-Accepts c = (accepted-Accepts c, λ w. Accepts-accepted c w.0 w.1 w.2)

  EnvelopeOk-tests :
      (a.namespace == p.expected_namespace) ≡ true
      → contains p.accepted_record_types a.record_type ≡ true
      → leb a.valid_until p.chain_time ≡ false
      → (is_empty a.peer_record || ltb p.max_record_bytes (length a.peer_record)) ≡ false
      → EnvelopeOk a p
  EnvelopeOk-tests h1 h2 h3 h4 = record {
    namespace = ground arith;
    accepted = h2;
    live = ground arith;
    present = ground arith;
    bounded = ground arith;
  }

  bad-tests :
      ¬ EnvelopeOk a p
      → (a.namespace == p.expected_namespace) ≡ true
      → contains p.accepted_record_types a.record_type ≡ true
      → leb a.valid_until p.chain_time ≡ false
      → (is_empty a.peer_record || ltb p.max_record_bytes (length a.peer_record)) ≡ false
      → ⊥
  bad-tests bad h1 h2 h3 h4 = bad (EnvelopeOk-tests h1 h2 h3 h4)

  -- No codec is consulted for an announcement whose envelope fails: the outcome is the same with any
  -- other codecs registered, and it is no candidate.
  pub validate_announcement-envelope_first :
      ¬ EnvelopeOk a p
      → (other : CodecRegistry)
      → (validate_announcement registry a p ≡ validate_announcement other a p)
        × ((c : PeerCandidate) → validate_announcement registry a p ≢ ok c)
  unfolding validate_announcement
  validate_announcement-envelope_first bad other =
      (ground (arith, bad-tests bad), λ c h. bad (accepted-Accepts c h).2.envelope)
