-- ===== src/Tests/Core.antt =====
-- The theorems about crates/resurrect-core at concrete inputs.
use mathlib.Core.List.Permᴰ
use rbp.Prelude.{
  ◌≡◌, ◌≢◌, ◌↔◌, refl, String, some, [], ◌∷◌, Result, ok, arith, Among, to_be_bytes, contains,
  bytes_eq, bytes_beq, nat_eq,
}
use rbp.Prelude.HashMap
use rbp.Core.PeerRecord.{PeerCandidate, PeerRecordCodec, identity_key, composite_key}
use rbp.Core.Descriptor.{NetworkDescriptor, validate, check_unique, canonical_json}
use rbp.Core.Descriptor.Validity.{canonical_json-perm}
use rbp.Core.Validation.{validate_announcement}
use rbp.Core.Validation.Acceptance.{Accepts, validate_announcement-Accepts}
use rbp.Core.Candidates.{CandidateStore, score, new, insert, insert_all, compare_freshness}
use rbp.Core.Candidates.History.{Samples, insert-Samples, insert_all-Samples}
use rbp.Core.Candidates.Order.{RanksDiffer, SameRecord, insert_all-order}
use rbp.Tests.{
  digest, peer_a, peer_b, peer_a_renewed, codecs, announcement, accepted_peer, policy, mainnet,
  one_place,
}

abbrev print : NetworkDescriptor → Result String String
print d = ok "{}"

canonical_json-perm_example :
    (validate (record mainnet { accepted_record_types = 2 ∷ 1 ∷ [] }) ≡ ok tt)
    × (canonical_json print (record mainnet { accepted_record_types = 2 ∷ 1 ∷ [] })
        ≡ canonical_json print mainnet)
canonical_json-perm_example =
    canonical_json-perm print mainnet (2 ∷ 1 ∷ []) (unfold validate check_unique contains in refl)
      ∣ Permᴰ.swap refl refl ∣₁

validate_announcement-Accepts_example :
    (validate_announcement codecs announcement policy ≡ ok accepted_peer) ↔ (
      (codec : PeerRecordCodec) × (decoded : PeerCandidate) × Accepts codecs announcement policy
        accepted_peer codec decoded)
validate_announcement-Accepts_example =
    validate_announcement-Accepts codecs announcement policy accepted_peer

empty_Samples : Samples digest [] (new one_place)
empty_Samples = unfold insert_all in (insert_all-Samples digest one_place []).0

insert-Samples_example :
    Samples digest (peer_a ∷ []) (insert digest (new one_place) peer_a).0
    × ((insert digest (new one_place) peer_a).0.config ≡ (new one_place).config)
insert-Samples_example =
    insert-Samples digest [] (new one_place) peer_a (unfold new in omega arith) empty_Samples

abbrev one_peer : CandidateStore
one_peer = insert_all digest (new one_place) (peer_a ∷ [])

one_peer-found : HashMap.get (identity_key peer_a) one_peer.candidates ≡ some peer_a
unfolding insert_all insert new identity_key HashMap.get HashMap.insert composite_key to_be_bytes
    bytes_beq
one_peer-found = refl

renewed-found :
    HashMap.get (identity_key peer_a) (insert digest one_peer peer_a_renewed).0.candidates
    ≡ some peer_a_renewed
unfolding insert_all insert new identity_key HashMap.get HashMap.insert composite_key to_be_bytes
    bytes_beq compare_freshness
renewed-found = refl

scores_differ :
    score digest (new one_place).config (identity_key peer_a)
    ≢ score digest (new one_place).config (identity_key peer_b)
unfolding score new identity_key
scores_differ = λ h. omega (arith, h)

differ : RanksDiffer (score digest (new one_place).config) (peer_a ∷ peer_b ∷ [])
differ c d a b h = ground (arith, scores_differ)

swapped : (c : PeerCandidate) → Among c (peer_a ∷ peer_b ∷ []) ↔ Among c (peer_b ∷ peer_a ∷ [])
swapped c = ground arith

insert_all-order_example :
    SameRecord
      (HashMap.get
        (identity_key peer_a)
        (insert_all digest (new one_place) (peer_a ∷ peer_b ∷ [])).candidates)
      (HashMap.get
        (identity_key peer_a)
        (insert_all digest (new one_place) (peer_b ∷ peer_a ∷ [])).candidates)
insert_all-order_example =
    insert_all-order digest one_place (peer_a ∷ peer_b ∷ []) (peer_b ∷ peer_a ∷ []) differ swapped
      (identity_key peer_a)
