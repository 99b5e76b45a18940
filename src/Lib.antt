-- ===== src/Lib.antt =====
-- Verification of the Rust crates of Resurrect v1, a registry-backed way for a node that has lost its
-- peers to find new ones. A node runs bootstrap cycles (crates/resurrect-bootstrap): it tries its
-- cache, its native discovery and then the registry on a chain. The registry source scans recent
-- announcements (crates/resurrect-ethereum), each is validated by codecs, and a bounded, seeded sample
-- of the candidates is kept (crates/resurrect-core) and dialled. A node that stays isolated publishes
-- its own signed record (crates/resurrect-node).
--
-- Files and code:
--   Core/Namespace, Core/PeerRecord: crates/resurrect-core/src/namespace.rs and peer_record.rs
--   Core/Descriptor: crates/resurrect-core/src/descriptor.rs (`validate`, `canonical_json`, ...)
--   Core/Descriptor/Numbers: the same file, chain_id_serde and deployment_block_serde
--   Core/Validation: crates/resurrect-core/src/validation.rs, `CodecRegistry`
--   Core/Candidates: crates/resurrect-core/src/validation.rs, `CandidateStore`
--   Ethereum/Provider: crates/resurrect-ethereum/src/provider.rs, the trait `RegistryProvider`
--   Ethereum/Scanner, Ethereum/Scanner/Scan: crates/resurrect-ethereum/src/scanner.rs
--   Ethereum/Alloy: crates/resurrect-ethereum/src/alloy_provider.rs, and the event of abi.rs
--   Bootstrap, Bootstrap/Cycle: crates/resurrect-bootstrap/src/lib.rs
--   Node/Registry: crates/resurrect-node/src/registry.rs
--   Node/P2p, Node/P2p/Native, Node/P2p/Loop, Node/P2p/Handle: crates/resurrect-node/src/p2p.rs
--   Node/Cache, Node/Cache/Table, Node/Cache/Load: crates/resurrect-node/src/cache.rs
--   Node/Cli, Node/Cli/StartUp: crates/resurrect-node/src/main.rs, `run` until the host starts
--   Node/Identity: crates/resurrect-node/src/identity.rs
--   Node/Supervisor, Node/Supervisor/StatusFile: crates/resurrect-node/src/supervisor.rs, `run` round by
--     round, and `write_atomic_json`
--   Libp2p/EndpointPolicy: crates/resurrect-libp2p/src/endpoint_policy.rs
--   Libp2p/SignedRecord: crates/resurrect-libp2p/src/signed_peer_record.rs
--   Libp2p/Enr: crates/resurrect-libp2p/src/enr_codec.rs
--   Libp2p/Behaviour, Libp2p/Behaviour/Connector: crates/resurrect-libp2p/src/behaviour.rs, the two
--     halves of the dial bridge
--   Prelude: Rust's Result, lists, maps, sets, waiting senders, saturating words, and calls with
--     a state
--   Tests: test data, and the theorems at concrete inputs
-- The other files below a component hold its theorems and are named for what they are about.
--
-- State: a struct is a record and `&mut self` is a value passed on. An async call on an outside party
-- (provider, dialer, publisher) is a function of that party's state `W`, which returns its answer and
-- the state it leaves; the order of the awaits is the order of these calls. The runtime's choice of
-- the dial that ends next is such a call. The map of candidates is an association list, whose order
-- stands for the arbitrary iteration order. A oneshot sender is a number, and what is sent through it is
-- logged with what its receiver could read at that moment. The event loops are runs over a list of
-- inputs: swarm events, commands, polls. The SQLite table is a list of rows, and each statement the
-- function on it that its text asks for; the errors of SQLite's calls are arguments, but those of the
-- two statements of `prune`, and an error rolls a transaction back. `buffer_unordered` of the futures
-- crate, which keeps the dials in flight, is what its documentation says it is.
--
-- Numbers: u32, u64 and U256 are natural numbers, with saturating operations written out; usize is 64
-- bits. B256, addresses and namespaces are the numbers that their bytes spell, and SQLite's
-- integers are whole numbers with the bounds of i64 written out. keccak256, serde_json, alloy's client
-- and U256, the swarm, the enr crate, the file system, the keys and signatures of libp2p-identity and
-- the encodings of prost and multiaddr are parameters.
--
-- Fuel: the binary search for the first block runs on the width of its range, the scan on the number
-- of blocks ahead plus the width of a chunk, the dial loop on the number of candidates plus one, a varint
-- and a decimal print on the value. The supervisor runs for ever, and is followed for any number of rounds. The
-- theorems on these loops show that more fuel changes nothing or that the result is reached.
--
-- Not modelled: the syntax of JSON and hex text, the transports of alloy and libp2p, what SQLite
-- does inside, the modes of files, the parsing of arguments, logging, and the packages in other
-- languages.
pub mod Prelude
pub mod Core
pub mod Ethereum
pub mod Bootstrap
pub mod Node
pub mod Libp2p
pub mod Tests
