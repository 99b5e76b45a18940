-- ===== src/Bootstrap.antt =====
-- crates/resurrect-bootstrap/src/lib.rs. The adapters behind the traits share a state `W`, and the
-- runtime's choices, which dial finishes next, are calls on it; durations are seconds.
pub mod Cycle
pub mod Transitions
pub mod Outcomes
pub mod Dialing
use rbp.Prelude.{ℕ, ◌*◌, String, Bool, Option, some, List, [], ◌∷◌}
use rbp.Prelude.Stateful.{Stateful}
use rbp.Core.Namespace.{Namespace}
use rbp.Core.PeerRecord.{PeerCandidate}

pub data BootstrapError : Type 0 where
  discovery announcement native_peer_store : String → BootstrapError

-- the traits `DiscoverySource` (three times), `NativeDiscovery`, `PeerConnector` and
-- `AnnouncementPublisher`. A dial is `start_dial` when its future is first polled, and ends when
-- `next_done` names it, with or without success, or when `drop_dials` cancels it
pub record Adapters (W : Type 0) : Type 0 where
  pub cache_discover : Namespace → Stateful W (List PeerCandidate) BootstrapError
  pub native_discover : Namespace → Stateful W (List PeerCandidate) BootstrapError
  pub registry_discover : Namespace → Stateful W (List PeerCandidate) BootstrapError
  pub add_verified_peer : PeerCandidate → Stateful W (Unit {0}) BootstrapError
  pub connected_peers : W → ℕ × W
  pub start_dial : PeerCandidate → ℕ → W → W
  pub next_done : List PeerCandidate → W → ℕ × W
  pub drop_dials : List PeerCandidate → W → W
  pub eligible : W → Bool
  pub announce : ℕ → Stateful W (Unit {0}) BootstrapError

pub data BootstrapState : Type 0 where
  start cache_discovery native_discovery resurrect_scan dialing isolated : BootstrapState
  announce_self backoff connected : BootstrapState

pub record BootstrapOutcome : Type 0 where
  pub state : BootstrapState
  pub connected_via : Option BootstrapState
  pub announced : Bool
  pub transitions : List BootstrapState

pub record BootstrapPolicy : Type 0 where
  pub minimum_successful_peers : ℕ
  pub maximum_parallel_dials : ℕ
  pub per_dial_timeout : ℕ
  pub reboot_ttl : ℕ

abbrev pub default_policy : BootstrapPolicy
default_policy = record {
  minimum_successful_peers = 2;
  maximum_parallel_dials = 8;
  per_dial_timeout = 8;
  reboot_ttl = 7 * 24 * 60 * 60;
}
