-- ===== src/Node/Registry/Announcing.antt =====
-- crates/resurrect-node/src/registry.rs: `RegistryAnnouncer`, its guards and its renewals.
use rbp.Prelude.{
  ℕ, ◌≤◌, ◌<◌, ◌≡◌, inl, inr, Bool, true, false, String, List, Result, ok, contains, arith, nat_eq,
  Result-cases,
}
use rbp.Prelude.Words.{u32_max, saturating_mul}
use rbp.Core.PeerRecord.{record_type_libp2p}
use rbp.Core.Descriptor.{NetworkDescriptor, DescriptorError, verify_chain_id}
use rbp.Ethereum.Provider.{RegistryProvider, RegistryConstants, ProviderError}
use rbp.Bootstrap.{BootstrapError}
use rbp.Node.Registry.{
  AnnouncerState, fetch_add, jittered_renewal, jitter_window, base_renewal, unmatched, announce,
  publish, check_and_publish, schedule,
}

-- A renewal delay with a random number of the drawn range is at least one second and ends before the
-- announcement does, if that lasts two seconds or more and the base delay is not zero.
pub jittered_renewal-bounds :
    (renewal_interval ttl drawn : ℕ)
    → 1 ≤ renewal_interval
    → 2 ≤ ttl
    → ttl ≤ u32_max
    → drawn ≤ saturating_mul (jitter_window (base_renewal renewal_interval ttl) ttl) 2
    → (1 ≤ jittered_renewal (base_renewal renewal_interval ttl) ttl drawn)
      × (jittered_renewal (base_renewal renewal_interval ttl) ttl drawn < ttl)
unfolding jittered_renewal
jittered_renewal-bounds renewal_interval ttl drawn h1 h2 h3 h4 = ground arith

module _ {W : Type 0} (chain : RegistryProvider W) (descriptor : NetworkDescriptor)
    (is_eligible : Bool) (renewal_interval : ℕ) (sign_peer_record : ℕ → Result (List ℕ) String)
    (unix_time : W → Result ℕ String × W) (random_range : ℕ → W → ℕ × W)
    (describe : ProviderError → String) (describe_descriptor : DescriptorError → String) where
  abbrev State : Type 0
  State = AnnouncerState W

  -- the record signed under the next sequence number was sent, and was counted
  pub record Sends (ttl : ℕ) (s s' : AnnouncerState W) : Type 0 where
    pub sent :
        (bytes : List ℕ) × (w : W) × (transaction : ℕ) × (sign_peer_record s.sequence ≡ ok bytes)
        × ((chain.announce descriptor.registry.address descriptor.namespace record_type_libp2p ttl
              bytes w).0
            ≡ ok transaction)
    pub sequence : s'.sequence ≡ fetch_add s.sequence 1
    pub counted : s'.announcements ≡ fetch_add s.announcements 1

  -- the checks that come before
  pub record Checks (ttl : ℕ) : Type 0 where
    pub accepted : contains descriptor.accepted_record_types record_type_libp2p ≡ true
    pub positive : 1 ≤ ttl
    pub bounded : ttl ≤ descriptor.registry.max_ttl
    pub on_chain : (w : W) × ((chain.chain_id w).0 ≡ ok descriptor.registry.chain_id)
    pub matched :
        (w : W) × (constants : RegistryConstants) × ((chain.registry_constants
            descriptor.registry.address w).0
          ≡ ok constants)
        × (unmatched constants descriptor ≡ false)

  abbrev publishes : ℕ → State → Result (Unit {0}) BootstrapError × State
  publishes =
      publish chain descriptor is_eligible renewal_interval sign_peer_record unix_time random_range
        describe describe_descriptor

  publish-Sends : (ttl : ℕ) (s s' : State) → publishes ttl s ≡ (ok tt, s') → Sends ttl s s'
  unfolding publish schedule
  publish-Sends ttl s s' h = elim (Result-cases (sign_peer_record s.sequence)) [
    | inr (e, failed) ↦ absurd (ground arith)
    | inl (bytes, signed) ↦
        elim (Result-cases
          (chain.announce descriptor.registry.address descriptor.namespace record_type_libp2p ttl
            bytes s.world).0) [
              | inr (e, failed) ↦ absurd (ground arith)
              | inl (transaction, sent) ↦
                  let after =
                    (chain.announce descriptor.registry.address descriptor.namespace
                      record_type_libp2p ttl bytes s.world).1 in
                  elim (Result-cases (unix_time after).0) [
                    | inr (e, failed) ↦ absurd (ground arith)
                    | inl (now, clock) ↦ record {
                      sent = (bytes, s.world, transaction, signed, sent);
                      sequence = ground arith;
                      counted = ground arith;
                    }
                  ]
            ]
  ]

  abbrev checks : ℕ → State → Result (Unit {0}) BootstrapError × State
  checks =
      check_and_publish chain descriptor is_eligible renewal_interval sign_peer_record unix_time
        random_range describe describe_descriptor

  -- the state of the outside after the two calls of the checks
  abbrev asked_chain : W → W
  asked_chain w = (chain.chain_id w).1

  abbrev asked_registry : W → Result RegistryConstants ProviderError × W
  asked_registry w = chain.registry_constants descriptor.registry.address (asked_chain w)

  check_and_publish-Sends :
      (ttl : ℕ) (s s' : State)
      → checks ttl s ≡ (ok tt, s')
      → ((chain.chain_id s.world).0 ≡ ok descriptor.registry.chain_id)
        × ((constants : RegistryConstants) × ((asked_registry s.world).0 ≡ ok constants)
            × (unmatched constants descriptor ≡ false))
        × Sends ttl s s'
  unfolding check_and_publish verify_chain_id
  check_and_publish-Sends ttl s s' h = elim (Result-cases (chain.chain_id s.world).0) [
    | inr (e, failed) ↦ absurd (ground arith)
    | inl (actual, known) ↦ elim (Result-cases (asked_registry s.world).0) [
      | inr (e, failed) ↦ absurd (ground arith)
      | inl (constants, got) ↦
          let right : actual ≡ descriptor.registry.chain_id = ground arith in
          let same : unmatched constants descriptor ≡ false = ground arith in
          let sent : publishes ttl (record s { world = (asked_registry s.world).1 }) ≡ (ok tt, s') =
            ground arith in
          let it = publish-Sends ttl (record s { world = (asked_registry s.world).1 }) s' sent in
          (
            cc (known, right),
            (constants, got, same),
            record { sent = it.sent; sequence = it.sequence; counted = it.counted },
          )
    ]
  ]

  -- An announcement that succeeds on an eligible node had an accepted record type and a lifetime
  -- within the descriptor's bound, on the right chain and a contract with the expected constants; the
  -- record signed under the next sequence number was sent, and the number was used up.
  pub announce-Sends :
      (ttl : ℕ) (s s' : AnnouncerState W)
      → is_eligible ≡ true
      → announce chain descriptor is_eligible renewal_interval sign_peer_record unix_time
          random_range describe describe_descriptor ttl s
        ≡ (ok tt, s')
      → Checks ttl × Sends ttl s s'
  unfolding announce
  announce-Sends ttl s s' able h =
      let accepted : contains descriptor.accepted_record_types record_type_libp2p ≡ true =
        ground arith in
      let passed : checks ttl s ≡ (ok tt, s') = ground arith in
      let (id, (constants, got, same), sent) = check_and_publish-Sends ttl s s' passed in
      (
        record {
          accepted = accepted;
          positive = ground arith;
          bounded = ground arith;
          on_chain = (s.world, id);
          matched = (asked_chain s.world, constants, got, same);
        },
        sent,
      )
