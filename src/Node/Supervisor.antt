-- ===== src/Node/Supervisor.antt =====
-- crates/resurrect-node/src/supervisor.rs. A round is one pass through the loop of `run`; what a
-- round hands to `publish_status` is logged, the latest first. The interval, the backoffs and the
-- waits are nanoseconds; the clock, the random numbers and the shutdown are the runtime's.
pub mod Backoff
pub mod Rounds
pub mod StatusFile
use rbp.Prelude.{
  ℕ, zero, suc, ◌+◌, ◌-◌, ◌*◌, ◌/◌, ◌^◌, min, max, Bool, true, false, Option, none, some, List, [],
  ◌∷◌, String, Result, ok, err, if◌then◌else◌, leb,
}
use rbp.Prelude.Words.{u32_max, u64_max, saturating_sub}
use rbp.Core.Namespace.{Namespace}
use rbp.Bootstrap.{
  Adapters, BootstrapPolicy, BootstrapOutcome, BootstrapState, BootstrapError, connected, backoff,
  default_policy as default_bootstrap,
}
use rbp.Bootstrap.Cycle.{run_cycle}
use rbp.Node.Registry.{RegistryTelemetry}

pub record SupervisorPolicy : Type 0 where
  pub bootstrap : BootstrapPolicy
  pub connected_poll_interval : ℕ
  pub initial_backoff : ℕ
  pub maximum_backoff : ℕ
  pub maintenance_ttl : ℕ

abbrev pub nanos_per_sec : ℕ
nanos_per_sec = 10 ^ 9

abbrev pub default_policy : SupervisorPolicy
default_policy = record {
  bootstrap = default_bootstrap;
  connected_poll_interval = 15 * nanos_per_sec;
  initial_backoff = 5 * nanos_per_sec;
  maximum_backoff = (5 * 60) * nanos_per_sec;
  maintenance_ttl = 30 * 24 * 60 * 60;
}

pub record NodeStatus : Type 0 where
  pub peer_id : String
  pub state : BootstrapState
  pub connected_peers : ℕ
  pub connected_via : Option BootstrapState
  pub transitions : List BootstrapState
  pub registry : RegistryTelemetry
  pub last_error : Option String
  pub updated_at : ℕ

pub data SupervisorError : Type 0 where
  io json : String → SupervisorError

-- `Duration::MAX`: 2^64 seconds without a nanosecond
abbrev pub duration_max : ℕ
duration_max = 2 ^ 64 * nanos_per_sec - 1

abbrev pub connection_target : BootstrapPolicy → ℕ
connection_target policy = max policy.minimum_successful_peers 1

unfoldable pub exponential_backoff : ℕ → ℕ → ℕ → ℕ
exponential_backoff initial maximum attempt =
    min (min (initial * 2 ^ min attempt 20) duration_max) maximum

-- what may be drawn is at most this
abbrev pub jitter_window : ℕ → ℕ
jitter_window base = min (saturating_sub base (base / 2)) u64_max

-- `backoff_with_jitter`, with the number drawn from `0..=jitter_window`
unfoldable pub backoff_with_jitter : ℕ → ℕ → ℕ → ℕ → ℕ
unfolding exponential_backoff
backoff_with_jitter initial maximum attempt drawn =
    min (exponential_backoff initial maximum attempt / 2 + drawn) duration_max

-- what the supervisor takes from outside besides its adapters
pub record Runtime (W : Type 0) : Type 0 where
  pub renewal_due : W → Bool
  pub snapshot : W → RegistryTelemetry
  pub since_epoch : W → Option ℕ
  pub random_range : ℕ → W → ℕ × W
  pub wait_or_shutdown : ℕ → W → Bool × W
  pub status_file : Option (NodeStatus → W → Result (Unit {0}) SupervisorError × W)
  pub describe : BootstrapError → String

pub record Progress (W : Type 0) : Type 0 where
  pub attempts : ℕ
  pub last_connected_via : Option BootstrapState
  pub published : List NodeStatus
  pub world : W

pub data Next (W : Type 0) : Type 0 where
  go_on : Progress W → Next W
  finished : Result (Unit {0}) SupervisorError → Progress W → Next W

abbrev pub unix_time : Option ℕ → ℕ
unix_time none = 0
unix_time (some seconds) = seconds

module _ {W : Type 0} (host : Adapters W) (runtime : Runtime W) (policy : SupervisorPolicy)
    (namespace : Namespace) (peer_id : String) where
  -- `self.publish_status(…).await?`, and what follows
  abbrev written :
      Result (Unit {0}) SupervisorError × W → (Progress W → Next W) → Progress W → Next W
  written (ok _, w) next p = next (record p { world = w })
  written (err e, w) next p = finished (err e) (record p { world = w })

  unfoldable pub publish_status : NodeStatus → (Progress W → Next W) → Progress W → Next W
  publish_status status next p =
      let logged = record p { published = status ∷ p.published } in
      elim runtime.status_file [
        | none ↦ next logged
        | some write_atomic_json ↦ written (write_atomic_json status p.world) next logged
      ]

  -- the wait at the end of a round
  abbrev pub waited : Bool × W → Progress W → Next W
  waited (stop, w) p =
      if stop then finished (ok tt) (record p { world = w }) else go_on (record p { world = w })

  abbrev pub wait : ℕ → Progress W → Next W
  wait delay p = waited (runtime.wait_or_shutdown delay p.world) p

  -- the error of the renewal, and the state after it
  abbrev pub renewed : Result (Unit {0}) BootstrapError × W → Option String × W
  renewed (ok _, w) = (none, w)
  renewed (err error, w) = (some (runtime.describe error), w)

  abbrev pub renew : W → Option String × W
  renew w =
      let result = renewed (host.announce policy.maintenance_ttl w) in
      if runtime.renewal_due w then result else (none, w)

  -- the status of a round with enough peers, and the state that it leaves
  abbrev pub healthy_status : ℕ → Option BootstrapState → Option String × W → NodeStatus
  healthy_status n via (last_error, w) = record {
    peer_id = peer_id;
    state = connected;
    connected_peers = n;
    connected_via = via;
    transitions = connected ∷ [];
    registry = runtime.snapshot w;
    last_error = last_error;
    updated_at = unix_time (runtime.since_epoch w);
  }

  abbrev pub settle : W → Progress W → Progress W
  settle w p = record p { attempts = 0; world = w }

  unfoldable pub healthy_round : ℕ → Progress W → Next W
  unfolding publish_status
  healthy_round n p =
      let renewal = renew p.world in
      publish_status (healthy_status n p.last_connected_via renewal)
        (wait policy.connected_poll_interval) (settle renewal.1 p)

  -- the delay before the next cycle
  abbrev pub back_off : Progress W → Next W
  back_off p =
      let base = exponential_backoff policy.initial_backoff policy.maximum_backoff p.attempts in
      let (drawn, w) = runtime.random_range (jitter_window base) p.world in
      wait (backoff_with_jitter policy.initial_backoff policy.maximum_backoff p.attempts drawn)
        (record p { attempts = min (p.attempts + 1) u32_max; world = w })

  abbrev pub after_status : BootstrapState → Progress W → Next W
  after_status connected p = go_on (record p { attempts = 0 })
  after_status state p = back_off p

  -- what the cycle's result gives to the status
  abbrev pub or_before : Option BootstrapState → Option BootstrapState → Option BootstrapState
  or_before none before = before
  or_before (some via) before = some via

  abbrev pub status_of : BootstrapOutcome → Option String → ℕ × W → NodeStatus
  status_of outcome last_error (n, w) = record {
    peer_id = peer_id;
    state = outcome.state;
    connected_peers = n;
    connected_via = outcome.connected_via;
    transitions = outcome.transitions;
    registry = runtime.snapshot w;
    last_error = last_error;
    updated_at = unix_time (runtime.since_epoch w);
  }

  abbrev pub report : BootstrapOutcome → Option String → ℕ × W → Progress W → Next W
  report outcome last_error (n, w) p =
      publish_status (status_of outcome last_error (n, w)) (after_status outcome.state)
        (record p { world = w })

  -- what a failed cycle counts as
  abbrev pub failed_outcome : BootstrapOutcome
  failed_outcome = record {
    state = backoff;
    connected_via = none;
    announced = false;
    transitions = backoff ∷ [];
  }

  unfoldable pub cycled : Result BootstrapOutcome BootstrapError × W → Progress W → Next W
  unfolding publish_status
  cycled (ok outcome, w) p =
      report outcome none (host.connected_peers w)
        (record p { last_connected_via = or_before outcome.connected_via p.last_connected_via })
  cycled (err error, w) p =
      report failed_outcome (some (runtime.describe error)) (host.connected_peers w) p

  unfoldable pub round : Progress W → Next W
  unfolding healthy_round cycled run_cycle
  round p =
      let (n, w) = host.connected_peers p.world in
      if leb (connection_target policy.bootstrap) n
      then healthy_round n (record p { world = w })
      else cycled (run_cycle host policy.bootstrap namespace w) (record p { world = w })

  -- at most so many rounds of the loop of `run`
  unfoldable pub rounds : ℕ → Progress W → Next W
  unfolding round
  rounds zero p = go_on p
  rounds (suc fuel) p = elim (round p) [
    | go_on q ↦ rounds fuel q
    | finished result q ↦ finished result q
  ]

abbrev pub begin : {W : Type 0} → W → Progress W
begin w = record { attempts = 0; last_connected_via = none; published = []; world = w }
