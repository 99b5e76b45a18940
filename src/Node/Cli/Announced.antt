-- ===== src/Node/Cli/Announced.antt =====
-- crates/resurrect-node/src/main.rs with signed_peer_record.rs and validation.rs: a seed's own record
-- against the codecs that the same start arranged.
use rbp.Prelude.{
  ℕ, ◌≤◌, ◌≡◌, refl, sym, ap, ◌∙◌, inl, inr, true, some, List, [], ◌∷◌, map, ok, length, contains,
  All, arith, nat_eq, nat_beq_iff, Bool-cases, ◌==◌,
}
use rbp.Prelude.HashMap
use rbp.Core.PeerRecord.{
  PeerRecordCodec, PeerCandidate, Endpoint, native_server, record_type_enr, record_type_libp2p,
}
use rbp.Core.Descriptor.{NetworkDescriptor}
use rbp.Core.Validation.{
  CodecRegistry, Announcement, AnnouncementPolicy, validate_announcement,
  default_max_endpoints_per_record,
}
use rbp.Core.Validation.Acceptance.{EnvelopeOk}
use rbp.Libp2p.EndpointPolicy.{EndpointPolicy, Protocol}
use rbp.Libp2p.SignedRecord.{Identity, Wire, sign_peer_record, libp2p_peer_record_codec}
use rbp.Libp2p.SignedRecord.RoundTrip.{
  IdentityLaws, WireLaws, accepted, validate_announcement-sign_peer_record,
}
use rbp.Node.Cli.{Cli, endpoint_policy, prepare}
use rbp.Node.Cli.Prepared.{Served, prepare-Prepares}
use rbp.Node.Cli.StartUp.{Libraries, Arrangement, arrange}
use rbp.Node.Cli.Arranged.{IsAccepted, arrange-Arranged}

All-contains : (P : ℕ → Type 0) (l : List ℕ) (n : ℕ) → All P l → contains l n ≡ true → P n
unfolding contains
All-contains P [] n h found = absurd (cc)
All-contains P (x ∷ l) n h found = elim (Bool-cases (x == n)) [
  | inl same ↦ rw (sym ((nat_beq_iff x n).0 same)) h.0
  | inr other ↦ All-contains P l n h.1 (ground arith)
]

map-nil : {A B : Type 0} (f : A → B) (l : List A) → map f l ≡ [] → l ≡ []
map-nil f [] h = refl
map-nil f (a ∷ l) h = absurd (cc)

length-map : {A B : Type 0} (f : A → B) (l : List A) → length (map f l) ≡ length l
length-map f [] = refl
length-map f (a ∷ l) = omega (arith, length-map f l)

-- an address as the endpoint of a candidate
abbrev pub endpoint_of : Wire → List Protocol → Endpoint
endpoint_of wire a = record { address = wire.to_string a }

module _ {Keypair PublicKey : Type 0} (identity : Identity Keypair PublicKey) (wire : Wire) where
  abbrev pub libp2p_codec : EndpointPolicy → PeerRecordCodec
  libp2p_codec policy =
      libp2p_peer_record_codec identity wire policy default_max_endpoints_per_record

  libp2p_type : (p : EndpointPolicy) → (libp2p_codec p).record_type ≡ record_type_libp2p
  unfolding libp2p_peer_record_codec
  libp2p_type p = refl

module _ {W File Keypair PublicKey : Type 0} (lib : Libraries W File Keypair)
    (identity : Identity Keypair PublicKey) (wire : Wire) (keys : IdentityLaws identity)
    (encodings : WireLaws wire)
    (own : (k : Keypair) → lib.peer_id_of k ≡ identity.from_public_key (identity.public k))
    (enr_codec : EndpointPolicy → PeerRecordCodec)
    (enr_type : (p : EndpointPolicy) → (enr_codec p).record_type ≡ record_type_enr) where
  accepted-all :
      (policy : EndpointPolicy) (k : Keypair) (sequence : ℕ) (l : List (List Protocol))
      → All (IsAccepted policy (lib.peer_id_of k)) l
      → accepted identity wire keys encodings policy default_max_endpoints_per_record k sequence
          native_server l
        ≡ map (endpoint_of wire) l
  accepted-all policy k sequence [] h = refl
  accepted-all policy k sequence (a ∷ l) h = ground (arith, own k, accepted-all policy k sequence l)

  served :
      (cli : Cli) (descriptor : NetworkDescriptor) (registry : CodecRegistry)
      → prepare enr_codec (libp2p_codec identity wire) cli descriptor ≡ ok registry
      → contains descriptor.accepted_record_types record_type_libp2p ≡ true
      → HashMap.get record_type_libp2p registry.codecs
        ≡ some (libp2p_codec identity wire (endpoint_policy cli))
  served cli descriptor registry h wanted =
      elim (prepare-Prepares enr_codec (libp2p_codec identity wire) enr_type
        (libp2p_type identity wire) cli descriptor) [
          | inr (unusable, message, failed) ↦ absurd (cc)
          | inl (usable, supported, found, done, all_served) ↦
              let same : found ≡ registry = cc in
              ap (λ (r : CodecRegistry). HashMap.get record_type_libp2p r.codecs) (sym same)
              ∙ All-contains
                  (Served enr_codec (libp2p_codec identity wire) enr_type
                    (libp2p_type identity wire) (endpoint_policy cli) found)
                  descriptor.accepted_record_types record_type_libp2p all_served wanted
        ]

  -- With keys and encodings that keep what their libraries promise: the record that a seed signs over
  -- its advertised addresses, announced under the descriptor's record types, passes the codecs that
  -- the same start arranged, in every scan for native servers that allows 16 endpoints and whose
  -- checks of the envelope it passes; and the candidate has all the advertised addresses, in order.
  pub arrange-announces :
      (cli : Cli) (descriptor : NetworkDescriptor) (a : Arrangement Keypair) (w : W) (sequence : ℕ)
      (raw : List ℕ) (x : Announcement) (p : AnnouncementPolicy)
      → (arrange lib enr_codec (libp2p_codec identity wire) cli descriptor w).0 ≡ ok a
      → cli.seed ≡ true
      → sign_peer_record identity wire a.identity sequence a.advertised_addresses ≡ ok raw
      → x.record_type ≡ record_type_libp2p
      → x.peer_record ≡ raw
      → p.accepted_record_types ≡ descriptor.accepted_record_types
      → p.dial_context ≡ native_server
      → default_max_endpoints_per_record ≤ p.max_endpoints
      → EnvelopeOk x p
      → (c : PeerCandidate) × (validate_announcement a.codecs x p ≡ ok c)
        × (c.peer_id ≡ lib.peer_id_of a.identity)
        × (c.sequence ≡ sequence)
        × (c.endpoints ≡ map (endpoint_of wire) a.advertised_addresses)
  arrange-announces cli descriptor a w sequence raw x p arranged seed signed type record_of types
        context many envelope =
      let (facts, prepared, loaded) =
        arrange-Arranged lib enr_codec (libp2p_codec identity wire) cli descriptor a w arranged in
      let all =
        accepted-all (endpoint_policy cli) a.identity sequence a.advertised_addresses
          facts.accepted in
      let wanted : contains descriptor.accepted_record_types record_type_libp2p ≡ true =
        ap (λ l. contains l record_type_libp2p) (sym types)
        ∙ ap (λ t. contains p.accepted_record_types t) (sym type)
        ∙ envelope.accepted in
      (
        _,
        validate_announcement-sign_peer_record identity wire keys encodings (endpoint_policy cli)
            default_max_endpoints_per_record a.identity sequence native_server
            a.advertised_addresses raw a.codecs x p signed facts.few
            (λ none_left.
              (facts.seeding seed).1
                (map-nil (endpoint_of wire) a.advertised_addresses (sym all ∙ none_left)))
            (rw (all, length-map (endpoint_of wire) a.advertised_addresses)
              (omega (arith, many, facts.few)))
            (served cli descriptor a.codecs prepared wanted) type record_of context envelope,
        sym (own a.identity),
        refl,
        all,
      )
