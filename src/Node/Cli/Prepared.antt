-- ===== src/Node/Cli/Prepared.antt =====
-- crates/resurrect-node/src/main.rs: when a command line is accepted.
use rbp.Prelude.{
  ℕ, ◌≤◌, ◌≡◌, ◌⊎◌, refl, sym, ap, ◌∙◌, inl, inr, true, Option, none, some, List, [], ◌∷◌, String,
  Result, ok, err, ◌==◌, nat_eq, nat_beq_iff, arith, All, Bool-cases, Result-cases,
}
use rbp.Prelude.HashMap
use rbp.Core.PeerRecord.{PeerRecordCodec, record_type_enr, record_type_libp2p}
use rbp.Core.Descriptor.{NetworkDescriptor}
use rbp.Core.Validation.{CodecRegistry, no_codecs, register}
use rbp.Libp2p.EndpointPolicy.{EndpointPolicy}
use rbp.Node.Cli.{
  Cli, check_ttl, validate_cli_policy, endpoint_policy, codec_for, register_all, build_codecs,
  prepare,
}

-- every number is positive, and the lifetimes are at most the descriptor's
pub record Usable (cli : Cli) (maximum_ttl : ℕ) : Type 0 where
  pub peers : 1 ≤ cli.minimum_peers
  pub dials : 1 ≤ cli.maximum_parallel_dials
  pub timeout : 1 ≤ cli.dial_timeout_seconds
  pub observation : 1 ≤ cli.native_observation_millis
  pub first_backoff : 1 ≤ cli.initial_backoff_millis
  pub last_backoff : 1 ≤ cli.maximum_backoff_seconds
  pub renewal : 1 ≤ cli.renewal_interval_seconds
  pub reboot : (1 ≤ cli.reboot_ttl_seconds) × (cli.reboot_ttl_seconds ≤ maximum_ttl)
  pub maintenance : (1 ≤ cli.maintenance_ttl_seconds) × (cli.maintenance_ttl_seconds ≤ maximum_ttl)

abbrev pub Supported : ℕ → Type 0
Supported t = (t ≡ record_type_enr) ⊎ (t ≡ record_type_libp2p)

accepted-Usable :
    (cli : Cli) (maximum_ttl : ℕ)
    → validate_cli_policy cli maximum_ttl ≡ ok tt
    → Usable cli maximum_ttl
unfolding validate_cli_policy check_ttl
accepted-Usable cli maximum_ttl h = record {
  peers = ground arith;
  dials = ground arith;
  timeout = ground arith;
  observation = ground arith;
  first_backoff = ground arith;
  last_backoff = ground arith;
  renewal = ground arith;
  reboot = ground arith;
  maintenance = ground arith;
}

Usable-accepted :
    (cli : Cli) (maximum_ttl : ℕ)
    → Usable cli maximum_ttl
    → validate_cli_policy cli maximum_ttl ≡ ok tt
unfolding validate_cli_policy check_ttl
Usable-accepted cli maximum_ttl u = ground arith

module _ (enr_codec libp2p_codec : EndpointPolicy → PeerRecordCodec)
    (enr_type : (p : EndpointPolicy) → (enr_codec p).record_type ≡ record_type_enr)
    (libp2p_type : (p : EndpointPolicy) → (libp2p_codec p).record_type ≡ record_type_libp2p)
    (policy : EndpointPolicy) where
  abbrev chosen : ℕ → Option PeerRecordCodec
  chosen t = codec_for enr_codec libp2p_codec policy t

  chosen-cases :
      (t : ℕ)
      → (Supported t × (c : PeerRecordCodec) × (chosen t ≡ some c) × (c.record_type ≡ t))
        ⊎ ((¬ Supported t) × (chosen t ≡ none))
  chosen-cases t = elim (Bool-cases (t == record_type_enr)) [
    | inl enr ↦
        let same : t ≡ record_type_enr = (nat_beq_iff t record_type_enr).0 enr in
        inl (inl same, enr_codec policy, rw enr refl, enr_type policy ∙ sym same)
    | inr not_enr ↦ elim (Bool-cases (t == record_type_libp2p)) [
      | inl libp2p ↦
          let same : t ≡ record_type_libp2p = (nat_beq_iff t record_type_libp2p).0 libp2p in
          inl (
            inr same,
            libp2p_codec policy,
            rw (not_enr, libp2p) refl,
            libp2p_type policy ∙ sym same,
          )
      | inr neither ↦ inr (λ s. ground arith, rw (not_enr, neither) refl)
    ]
  ]

  -- a record type has the codec that is chosen for it
  abbrev pub Served : CodecRegistry → ℕ → Type 0
  Served registry t = HashMap.get t registry.codecs ≡ chosen t

  register-Served :
      (codecs : CodecRegistry) (c : PeerRecordCodec) (t : ℕ)
      → chosen c.record_type ≡ some c
      → Served codecs t
      → Served (register c codecs) t
  unfolding register
  register-Served codecs c t own h = elim (Bool-cases (c.record_type == t)) [
    | inl same ↦
        let it : c.record_type ≡ t = (nat_beq_iff c.record_type t).0 same in
        HashMap.get-insert c.record_type t c codecs.codecs
        ∙ rw same (sym own ∙ ap (λ n. chosen n) it)
    | inr other ↦ HashMap.get-insert c.record_type t c codecs.codecs ∙ rw other h
  ]

  register-Served_own :
      (codecs : CodecRegistry) (c : PeerRecordCodec) (t : ℕ)
      → c.record_type ≡ t
      → chosen t ≡ some c
      → Served (register c codecs) t
  unfolding register
  register-Served_own codecs c t it own =
      let same : (c.record_type == t) ≡ true = (nat_beq_iff c.record_type t).1 it in
      HashMap.get-insert c.record_type t c codecs.codecs ∙ rw same (sym own)

  abbrev pub Registers : List ℕ → Result CodecRegistry String → Type 0
  Registers types result =
      (All Supported types
        × (registry : CodecRegistry) × (result ≡ ok registry)
        × All (Served registry) types)
      ⊎ ((¬ All Supported types) × (message : String) × (result ≡ err message))

  register_all-keeps :
      (types : List ℕ) (codecs registry : CodecRegistry) (t : ℕ)
      → register_all enr_codec libp2p_codec policy types codecs ≡ ok registry
      → Served codecs t
      → Served registry t
  unfolding register_all
  register_all-keeps [] codecs registry t h s = let same : codecs ≡ registry = cc in rw (sym same) s
  register_all-keeps (k ∷ types) codecs registry t h s = elim (chosen-cases k) [
    | inr (foreign, nobody) ↦ absurd (ground (arith, nobody))
    | inl (supported, c, found, own) ↦
        register_all-keeps types (register c codecs) registry t (rw (found, register_all) at h)
          (register-Served codecs c t (ap (λ n. chosen n) own ∙ found) s)
  ]

  register_all-Registers :
      (types : List ℕ) (codecs : CodecRegistry)
      → Registers types (register_all enr_codec libp2p_codec policy types codecs)
  unfolding register_all
  register_all-Registers [] codecs = inl (tt, codecs, refl, tt)
  register_all-Registers (k ∷ types) codecs = elim (chosen-cases k) [
    | inr (foreign, nobody) ↦ inr (
      λ s. foreign s.0,
      "descriptor requests unsupported record type",
      rw (nobody, register_all) refl,
    )
    | inl (supported, c, found, own) ↦ elim (register_all-Registers types (register c codecs)) [
      | inr (foreign, message, failed) ↦
          inr (λ s. foreign s.1, message, rw (found, register_all) failed)
      | inl (rest, registry, done, served) ↦ inl (
        (supported, rest),
        registry,
        rw (found, register_all) done,
        (
          register_all-keeps types (register c codecs) registry k done
              (register-Served_own codecs c k own found),
          served,
        ),
      )
    ]
  ]

module _ (enr_codec libp2p_codec : EndpointPolicy → PeerRecordCodec)
    (enr_type : (p : EndpointPolicy) → (enr_codec p).record_type ≡ record_type_enr)
    (libp2p_type : (p : EndpointPolicy) → (libp2p_codec p).record_type ≡ record_type_libp2p) where
  -- what the first checks leave
  abbrev pub Prepares : Cli → NetworkDescriptor → Result CodecRegistry String → Type 0
  Prepares cli descriptor result =
      (Usable cli descriptor.registry.max_ttl
        × All Supported descriptor.accepted_record_types
        × (registry : CodecRegistry) × (result ≡ ok registry)
        × All (Served enr_codec libp2p_codec enr_type libp2p_type (endpoint_policy cli) registry)
            descriptor.accepted_record_types)
      ⊎ ((¬ (
            Usable cli descriptor.registry.max_ttl
            × All Supported descriptor.accepted_record_types))
          × (message : String) × (result ≡ err message))

  -- With codecs that name their own record types, the first checks of `run` succeed exactly if every
  -- number is positive, both lifetimes are at most the descriptor's maximum, and the descriptor
  -- accepts no other record types than ENR and libp2p; then each of them has its codec, with the
  -- endpoint policy that was asked for. Else they fail with a message.
  pub prepare-Prepares :
      (cli : Cli) (descriptor : NetworkDescriptor)
      → Prepares cli descriptor (prepare enr_codec libp2p_codec cli descriptor)
  unfolding prepare build_codecs
  prepare-Prepares cli descriptor =
      elim (Result-cases (validate_cli_policy cli descriptor.registry.max_ttl)) [
        | inr (message, failed) ↦ inr (
          λ (u, s).
              absurd (ground (arith, failed, Usable-accepted cli descriptor.registry.max_ttl u)),
          message,
          rw failed refl,
        )
        | inl (tt, valid) ↦
            elim (register_all-Registers enr_codec libp2p_codec enr_type libp2p_type
              (endpoint_policy cli) descriptor.accepted_record_types no_codecs) [
                | inr (foreign, message, failed) ↦
                    inr (λ (u, s). foreign s, message, rw (valid, failed) refl)
                | inl (supported, registry, done, served) ↦ inl (
                  accepted-Usable cli descriptor.registry.max_ttl valid,
                  supported,
                  registry,
                  rw (valid, done) refl,
                  served,
                )
              ]
      ]
