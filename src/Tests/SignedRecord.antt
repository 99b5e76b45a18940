-- ===== src/Tests/SignedRecord.antt =====
-- The theorems about crates/resurrect-libp2p/src/signed_peer_record.rs and behaviour.rs at concrete
-- inputs, with encodings and keys that keep what those of the libraries promise.
use rbp.Prelude.{
  ℕ, zero, suc, ◌≤◌, ◌≡◌, ◌≢◌, ◌↔◌, refl, some, List, [], ◌∷◌, map, String, Result, ok, err,
  bytes_beq, bytes_beq_iff, nat_eq, bytes_eq, Eq, sym, ap, ◌∙◌, arith, length, contains,
}
use rbp.Prelude.HashMap
use rbp.Core.PeerRecord.{native_server, record_type_libp2p, PeerCandidate}
use rbp.Core.Validation.{Announcement, CodecRegistry, validate_announcement}
use rbp.Core.Validation.Acceptance.{EnvelopeOk}
use rbp.Libp2p.EndpointPolicy.{
  Protocol, ip4, ip6, p2p, tcp, udp, quic_v1, web_transport, wss, https, tls, certhash, other,
  default_policy, accepts,
}
use rbp.Libp2p.SignedRecord.{
  Identity, Wire, Envelope, PeerRecordMessage, append_uvarint, uvarint_loop, signing_input,
  sign_peer_record, seal_payload, decode_and_verify, libp2p_peer_record_codec,
}
use rbp.Libp2p.SignedRecord.SigningInput.{signing_input-injective}
use rbp.Libp2p.SignedRecord.Soundness.{Verified, decode_and_verify-Verified}
use rbp.Libp2p.SignedRecord.RoundTrip.{
  IdentityLaws, WireLaws, accepted, signed_candidate, validate_announcement-sign_peer_record,
}
use rbp.Tests.{announcement, policy, peer_a}

-- each list by its successors, ended by zero
abbrev block : List ℕ → List ℕ → List ℕ
block [] rest = zero ∷ rest
block (b ∷ bs) rest = suc b ∷ block bs rest

abbrev blocks : List (List ℕ) → List ℕ
blocks [] = []
blocks (l ∷ ls) = block l (blocks ls)

abbrev prepend : ℕ → List (List ℕ) → List (List ℕ)
prepend b [] = (b ∷ []) ∷ []
prepend b (l ∷ ls) = (b ∷ l) ∷ ls

abbrev unblock : List ℕ → List (List ℕ)
unblock [] = []
unblock (zero ∷ rest) = [] ∷ unblock rest
unblock (suc b ∷ rest) = prepend b (unblock rest)

unblock-block : (l rest : List ℕ) → unblock (block l rest) ≡ l ∷ unblock rest
unblock-block [] rest = refl
unblock-block (b ∷ l) rest = rw (unblock-block l rest) refl

unblock-blocks : (ls : List (List ℕ)) → unblock (blocks ls) ≡ ls
unblock-blocks [] = refl
unblock-blocks (l ∷ ls) = rw (unblock-block l (blocks ls), unblock-blocks ls) refl

abbrev protocol_block : Protocol → List ℕ
protocol_block (ip4 ip) = 0 ∷ ip.a ∷ ip.b ∷ ip.c ∷ ip.d ∷ []
protocol_block (ip6 ip) = 1 ∷ ip.s0 ∷ ip.s1 ∷ ip.s2 ∷ ip.s3 ∷ ip.s4 ∷ ip.s5 ∷ ip.s6 ∷ ip.s7 ∷ []
protocol_block (p2p peer) = 2 ∷ peer
protocol_block (tcp port) = 3 ∷ port ∷ []
protocol_block (udp port) = 4 ∷ port ∷ []
protocol_block quic_v1 = 5 ∷ []
protocol_block web_transport = 6 ∷ []
protocol_block wss = 7 ∷ []
protocol_block https = 8 ∷ []
protocol_block tls = 9 ∷ []
protocol_block certhash = 10 ∷ []
protocol_block other = 11 ∷ []

abbrev v4_of : List ℕ → Protocol
v4_of (a ∷ b ∷ c ∷ d ∷ []) = ip4 (record { a = a; b = b; c = c; d = d })
v4_of rest = other

abbrev v6_of : List ℕ → Protocol
v6_of (s0 ∷ s1 ∷ s2 ∷ s3 ∷ s4 ∷ s5 ∷ s6 ∷ s7 ∷ []) =
    ip6 (record { s0 = s0; s1 = s1; s2 = s2; s3 = s3; s4 = s4; s5 = s5; s6 = s6; s7 = s7 })
v6_of rest = other

abbrev port_of : (ℕ → Protocol) → List ℕ → Protocol
port_of f (port ∷ rest) = f port
port_of f [] = other

-- the protocols without data, from the tag 5 on
abbrev plain_of : List Protocol → ℕ → Protocol
plain_of [] n = other
plain_of (p ∷ ps) zero = p
plain_of (p ∷ ps) (suc n) = plain_of ps n

abbrev block_protocol : List ℕ → Protocol
block_protocol [] = other
block_protocol (zero ∷ args) = v4_of args
block_protocol (suc zero ∷ args) = v6_of args
block_protocol (suc (suc zero) ∷ args) = p2p args
block_protocol (suc (suc (suc zero)) ∷ args) = port_of tcp args
block_protocol (suc (suc (suc (suc zero))) ∷ args) = port_of udp args
block_protocol (suc (suc (suc (suc (suc n)))) ∷ args) =
    plain_of (quic_v1 ∷ web_transport ∷ wss ∷ https ∷ tls ∷ certhash ∷ []) n

protocol_block-back : (p : Protocol) → block_protocol (protocol_block p) ≡ p
protocol_block-back (ip4 ip) = refl
protocol_block-back (ip6 ip) = refl
protocol_block-back (p2p peer) = refl
protocol_block-back (tcp port) = refl
protocol_block-back (udp port) = refl
protocol_block-back quic_v1 = refl
protocol_block-back web_transport = refl
protocol_block-back wss = refl
protocol_block-back https = refl
protocol_block-back tls = refl
protocol_block-back certhash = refl
protocol_block-back other = refl

protocols-back : (ps : List Protocol) → map block_protocol (map protocol_block ps) ≡ ps
protocols-back [] = refl
protocols-back (p ∷ ps) = rw (protocol_block-back p, protocols-back ps) refl

abbrev bytes_of : List Protocol → List ℕ
bytes_of a = blocks (map protocol_block a)

pub bytes_of-injective : (a b : List Protocol) → bytes_of a ≡ bytes_of b → a ≡ b
bytes_of-injective a b h =
    let back : (c : List Protocol) → map block_protocol (unblock (bytes_of c)) ≡ c =
      λ c. rw (unblock-blocks (map protocol_block c), protocols-back c) refl in
    sym (back a) ∙ ap (λ bytes. map block_protocol (unblock bytes)) h ∙ back b

-- addresses are equal if their bytes are
instance abbrev pub protocols_eq : Eq (List Protocol)
protocols_eq = record {
  beq = λ a b. bytes_beq (bytes_of a) (bytes_of b);
  beq_iff = λ a b. (
    λ h. bytes_of-injective a b ((bytes_beq_iff (bytes_of a) (bytes_of b)).0 h),
    λ h. (bytes_beq_iff (bytes_of a) (bytes_of b)).1 (ap (λ c. bytes_of c) h),
  );
}

abbrev envelope_of : List (List ℕ) → Result Envelope String
envelope_of [] = ok (record { public_key = []; payload_type = []; payload = []; signature = [] })
envelope_of (k ∷ t ∷ p ∷ s ∷ []) =
    ok (record { public_key = k; payload_type = t; payload = p; signature = s })
envelope_of ls = err "envelope"

abbrev message_of : List (List ℕ) → Result PeerRecordMessage String
message_of (peer ∷ (n ∷ []) ∷ addresses) =
    ok (record { peer_id = peer; sequence = n; addresses = addresses })
message_of ls = err "message"

abbrev pub wire : Wire
wire = record {
  encode_envelope = λ e. blocks (e.public_key ∷ e.payload_type ∷ e.payload ∷ e.signature ∷ []);
  decode_envelope = λ bytes. envelope_of (unblock bytes);
  encode_payload = λ m. blocks (m.peer_id ∷ (m.sequence ∷ []) ∷ m.addresses);
  decode_payload = λ bytes. message_of (unblock bytes);
  to_vec = λ a. blocks (map protocol_block a);
  try_from = λ bytes. some (map block_protocol (unblock bytes));
  to_string = λ a. "address";
}

pub wire_laws : WireLaws wire
wire_laws = record {
  envelope_round_trip =
      λ e. rw (unblock-blocks (e.public_key ∷ e.payload_type ∷ e.payload ∷ e.signature ∷ [])) refl;
  payload_round_trip = λ m. rw (unblock-blocks (m.peer_id ∷ (m.sequence ∷ []) ∷ m.addresses)) refl;
  address_round_trip = λ a. rw (unblock-blocks (map protocol_block a), protocols-back a) refl;
  default_envelope = refl;
}

-- a key pair is its public key, which stands in front of what it signs
abbrev pub identity : Identity ℕ ℕ
identity = record {
  public = λ k. k;
  sign = λ k m. ok (k ∷ m);
  verify = λ k m s. bytes_beq s (k ∷ m);
  encode_protobuf = λ k. k ∷ [];
  try_decode_protobuf = key_of;
  from_public_key = λ k. k ∷ [];
  from_bytes = λ bytes. ok bytes;
}
  where
    key_of : List ℕ → Result ℕ String
    key_of (k ∷ []) = ok k
    key_of bytes = err "key"

pub identity_laws : IdentityLaws identity
identity_laws = record {
  verifies = λ k m s h. ground (arith, bytes_beq_iff s (k ∷ m));
  key_round_trip = λ k. refl;
  peer_round_trip = λ k. refl;
}

abbrev sent_type : List ℕ
sent_type = 1 ∷ []

abbrev sent_payload : List ℕ
sent_payload = 2 ∷ 3 ∷ []

signing_input-injective_example : (sent_type ≡ sent_type) × (sent_payload ≡ sent_payload)
signing_input-injective_example =
    signing_input-injective sent_type sent_type sent_payload sent_payload refl

abbrev pub addresses : List (List Protocol)
addresses = (ip4 (record { a = 8; b = 8; c = 8; d = 8 }) ∷ tcp 4001 ∷ []) ∷ []

-- the record that the key 5 signs
abbrev pub raw : List ℕ
raw = elim (sign_peer_record identity wire 5 1 addresses) [ ok bytes ↦ bytes | err e ↦ [] ]

pub signed : sign_peer_record identity wire 5 1 addresses ≡ ok raw
unfolding sign_peer_record seal_payload signing_input append_uvarint uvarint_loop
signed = refl

reachable :
    accepted identity wire identity_laws wire_laws default_policy 16 5 1 native_server addresses
    ≢ []
unfolding accepts
reachable h = cc

abbrev registry : CodecRegistry
registry = record { codecs = (2, libp2p_peer_record_codec identity wire default_policy 16) ∷ [] }

abbrev pub record_announced : Announcement
record_announced = record announcement { record_type = 2; peer_record = raw }

decode_and_verify-Verified_example :
    (decode_and_verify identity wire default_policy 16 raw native_server ≡ ok peer_a) ↔ (
      (e : Envelope) × (key : ℕ) × (payload : PeerRecordMessage) × Verified identity wire
        default_policy 16 raw native_server e key payload peer_a)
decode_and_verify-Verified_example =
    decode_and_verify-Verified identity wire default_policy 16 raw native_server peer_a

pub announced_ok : EnvelopeOk record_announced policy
unfolding contains sign_peer_record seal_payload signing_input append_uvarint uvarint_loop
announced_ok = record {
  namespace = refl;
  accepted = refl;
  live = omega arith;
  present = λ h. cc;
  bounded = omega arith;
}

one_accepted :
    length
      (accepted identity wire identity_laws wire_laws default_policy 16 5 1 native_server addresses)
    ≤ 16
unfolding accepts
one_accepted = omega arith

found_codec :
    HashMap.get record_type_libp2p registry.codecs
    ≡ some (libp2p_peer_record_codec identity wire default_policy 16)
unfolding HashMap.get
found_codec = refl

abbrev signer : PeerCandidate
signer =
    signed_candidate identity wire identity_laws wire_laws default_policy 16 5 1 native_server
      addresses raw

validate_announcement-sign_peer_record_example :
    validate_announcement registry record_announced policy
    ≡ ok (record signer {
      expires_at = 2000;
      announcement_block = some 11;
      announcement_log_index = some 0;
    })
validate_announcement-sign_peer_record_example =
    validate_announcement-sign_peer_record identity wire identity_laws wire_laws default_policy 16 5
      1 native_server addresses raw registry record_announced policy signed (omega arith) reachable
      one_accepted found_codec refl refl refl announced_ok
