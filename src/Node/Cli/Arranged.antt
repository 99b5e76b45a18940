-- ===== src/Node/Cli/Arranged.antt =====
-- crates/resurrect-node/src/main.rs: what is settled before the host starts.
use rbp.Prelude.{
  ℕ, ◌≤◌, ◌≡◌, ◌≢◌, refl, inl, inr, true, Option, some, Option-cases, List, [], ◌∷◌, String, ok,
  Result-cases, length, All, arith,
}
use rbp.Core.PeerRecord.{PeerRecordCodec, native_server}
use rbp.Core.Descriptor.{NetworkDescriptor}
use rbp.Core.Validation.{CodecRegistry, default_max_endpoints_per_record}
use rbp.Ethereum.Alloy.{AlloyRegistryProvider, parse_url, with_signer}
use rbp.Libp2p.EndpointPolicy.{EndpointPolicy, Protocol, accepts}
use rbp.Node.Identity.{load_or_create_identity}
use rbp.Node.Cli.{
  Cli, endpoint_policy, prepare, check_seed, parse_multiaddrs, check_accepted, check_advertised,
}
use rbp.Node.Cli.StartUp.{Libraries, Arrangement, provider_of, arrange_with, arrange}

length-parse_multiaddrs :
    (parse : String → Option (List Protocol)) (message : String) (values : List String)
    (l : List (List Protocol))
    → parse_multiaddrs parse message values ≡ ok l
    → length l ≡ length values
unfolding parse_multiaddrs
length-parse_multiaddrs parse message [] l h = ground arith
length-parse_multiaddrs parse message (v ∷ values) l h = elim (Option-cases (parse v)) [
  | inl bad ↦ absurd (ground arith)
  | inr (a, good) ↦ elim (Result-cases (parse_multiaddrs parse message values)) [
    | inr (e, failed) ↦ absurd (ground arith)
    | inl (as_read, rest) ↦
        ground (arith, length-parse_multiaddrs parse message values as_read rest)
  ]
]

none_of :
    (values : List String) (l : List (List Protocol))
    → length l ≡ length values
    → l ≡ []
    → values ≡ []
none_of [] l same h = refl
none_of (v ∷ values) [] same h = absurd (omega arith)
none_of (v ∷ values) (a ∷ l) same h = absurd (cc)

module _ (policy : EndpointPolicy) (peer_id : List ℕ) where
  abbrev pub IsAccepted : List Protocol → Type 0
  IsAccepted address = accepts policy (some peer_id) native_server address ≡ true

  check_accepted-IsAccepted :
      (l : List (List Protocol)) → check_accepted policy peer_id l ≡ ok tt → All IsAccepted l
  unfolding check_accepted
  check_accepted-IsAccepted [] h = tt
  check_accepted-IsAccepted (a ∷ l) h = ground (arith, check_accepted-IsAccepted l)

  check_advertised-IsAccepted :
      (l : List (List Protocol))
      → check_advertised policy peer_id l ≡ ok tt
      → (length l ≤ default_max_endpoints_per_record) × All IsAccepted l
  unfolding check_advertised
  check_advertised-IsAccepted l h = ground (arith, check_accepted-IsAccepted l)

check_seed-ready :
    (cli : Cli)
    → check_seed cli ≡ ok tt
    → cli.seed ≡ true
    → (cli.advertise ≢ []) × (secret : String) × (cli.ethereum_private_key ≡ some secret)
unfolding check_seed
check_seed-ready cli h seed = elim (Option-cases cli.ethereum_private_key) [
  | inl missing ↦ absurd (ground arith)
  | inr (secret, given) ↦ (λ empty. ground arith, secret, given)
]

module _ {W File Keypair : Type 0} (lib : Libraries W File Keypair) where
  writable :
      (secret rpc_url : String) (p : AlloyRegistryProvider)
      → provider_of lib (some secret) rpc_url ≡ ok p
      → p.writable ≡ true
  unfolding with_signer
  writable secret rpc_url p h = elim (Result-cases (lib.signer_from_str secret)) [
    | inr (e, failed) ↦ absurd (ground arith)
    | inl (s, good) ↦ elim (Result-cases (parse_url lib.beq_text lib.url_parse rpc_url)) [
      | inr (e, failed) ↦ absurd (ground arith)
      | inl (url, parsed) ↦ ground arith
    ]
  ]

  -- what holds of an arrangement
  pub record Arranged (cli : Cli) (a : Arrangement Keypair) : Type 0 where
    pub seeding : cli.seed ≡ true → (a.provider.writable ≡ true) × (a.advertised_addresses ≢ [])
    pub few : length a.advertised_addresses ≤ default_max_endpoints_per_record
    pub accepted :
        All (IsAccepted (endpoint_policy cli) (lib.peer_id_of a.identity)) a.advertised_addresses

  -- the answers of the steps behind an arrangement
  record Steps (cli : Cli) (codecs : CodecRegistry) (k : Keypair) (a : Arrangement Keypair)
      : Type 0 where
    same_codecs : a.codecs ≡ codecs
    same_key : a.identity ≡ k
    provided : provider_of lib cli.ethereum_private_key cli.rpc_url ≡ ok a.provider
    seeded : check_seed cli ≡ ok tt
    advertised :
        parse_multiaddrs lib.parse_multiaddr "invalid advertise multiaddr" cli.advertise
        ≡ ok a.advertised_addresses
    checked :
        check_advertised (endpoint_policy cli) (lib.peer_id_of k) a.advertised_addresses ≡ ok tt

  arrange_with-Steps :
      (cli : Cli) (codecs : CodecRegistry) (k : Keypair) (a : Arrangement Keypair)
      → arrange_with lib cli codecs k ≡ ok a
      → Steps cli codecs k a
  unfolding arrange_with
  arrange_with-Steps cli codecs k a h =
      elim (Result-cases (provider_of lib cli.ethereum_private_key cli.rpc_url)) [
        | inr (e, failed) ↦ absurd (ground arith)
        | inl (p, provided) ↦ elim (Result-cases (check_seed cli)) [
          | inr (e, failed) ↦ absurd (ground arith)
          | inl (_, seeded) ↦
              elim (Result-cases
                (parse_multiaddrs lib.parse_multiaddr "invalid listen multiaddr" cli.listen)) [
                  | inr (e, failed) ↦ absurd (ground arith)
                  | inl (l, listen) ↦
                      elim (Result-cases (
                        parse_multiaddrs lib.parse_multiaddr "invalid native-peer multiaddr"
                          cli.native_peer)) [
                            | inr (e, failed) ↦ absurd (ground arith)
                            | inl (n, native) ↦
                                elim (Result-cases (
                                  parse_multiaddrs lib.parse_multiaddr "invalid advertise multiaddr"
                                    cli.advertise)) [
                                      | inr (e, failed) ↦ absurd (ground arith)
                                      | inl (d, advertised) ↦
                                          elim (Result-cases (
                                            check_advertised (endpoint_policy cli)
                                              (lib.peer_id_of k) d)) [
                                                | inr (e, failed) ↦ absurd (ground arith)
                                                | inl (_, checked) ↦ record {
                                                  same_codecs = ground arith;
                                                  same_key = ground arith;
                                                  provided = ground arith;
                                                  seeded = ground arith;
                                                  advertised = ground arith;
                                                  checked = ground arith;
                                                }
                                              ]
                                    ]
                          ]
                ]
        ]
      ]

  Steps-Arranged :
      (cli : Cli) (codecs : CodecRegistry) (k : Keypair) (a : Arrangement Keypair)
      → Steps cli codecs k a
      → Arranged cli a
  Steps-Arranged cli codecs k a s = record {
    seeding = λ seed.
        let (wanted, secret, given) = check_seed-ready cli s.seeded seed in
        (
          writable secret cli.rpc_url a.provider (rw (given) at s.provided),
          λ none_left. wanted (
              none_of cli.advertise a.advertised_addresses
                (length-parse_multiaddrs _ _ cli.advertise _ s.advertised) none_left),
        );
    few =
        (check_advertised-IsAccepted (endpoint_policy cli) (lib.peer_id_of k) a.advertised_addresses
          s.checked).0;
    accepted =
        rw s.same_key
          (check_advertised-IsAccepted (endpoint_policy cli) (lib.peer_id_of k)
            a.advertised_addresses s.checked).1;
  }

  module _ (enr_codec libp2p_codec : EndpointPolicy → PeerRecordCodec) where
    -- If the start gets as far as the host, then a seed has a provider that can send transactions and at
    -- least one address to advertise; there are no more addresses than a record may hold, each one
    -- accepted by the endpoint policy for the node's own key; and the codecs are those of the first
    -- checks.
    pub arrange-Arranged :
        (cli : Cli) (descriptor : NetworkDescriptor) (a : Arrangement Keypair) (w : W)
        → (arrange lib enr_codec libp2p_codec cli descriptor w).0 ≡ ok a
        → Arranged cli a
          × (prepare enr_codec libp2p_codec cli descriptor ≡ ok a.codecs)
          × ((load_or_create_identity lib.files lib.keys cli.identity w).0 ≡ ok a.identity)
    unfolding arrange
    arrange-Arranged cli descriptor a w h =
        elim (Result-cases (prepare enr_codec libp2p_codec cli descriptor)) [
          | inr (e, failed) ↦ absurd (ground arith)
          | inl (codecs, prepared) ↦
              elim (Result-cases (load_or_create_identity lib.files lib.keys cli.identity w).0) [
                | inr (e, failed) ↦ absurd (ground arith)
                | inl (k, loaded) ↦
                    let s : Steps cli codecs k a =
                      arrange_with-Steps cli codecs k a (ground arith) in
                    (
                      Steps-Arranged cli codecs k a s,
                      rw s.same_codecs prepared,
                      rw s.same_key loaded,
                    )
              ]
        ]
