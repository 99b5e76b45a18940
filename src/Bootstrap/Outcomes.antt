-- ===== src/Bootstrap/Outcomes.antt =====
-- crates/resurrect-bootstrap/src/lib.rs: failures of the sources are hints only.
use rbp.Prelude.{
  ◌≡◌, refl, ap, Bool, true, false, List, [], ◌∷◌, ◌++◌, Result, ok, err, if◌then◌else◌, leb,
}
use rbp.Core.Namespace.{Namespace}
use rbp.Core.PeerRecord.{PeerCandidate}
use rbp.Bootstrap.{
  Adapters, BootstrapState, start, cache_discovery, native_discovery, resurrect_scan, connected,
  BootstrapOutcome, BootstrapPolicy, BootstrapError,
}
use rbp.Bootstrap.Cycle.{
  attempt, attempt_registry, or_else, from_isolated, from_registry, from_native, from_cache,
  run_cycle, connection_target, connected_outcome,
}

-- the answer of a source that fails becomes that it found nobody
abbrev forgive :
    {W : Type 0}
    → Result (List PeerCandidate) BootstrapError × W
    → Result (List PeerCandidate) BootstrapError × W
forgive (ok peers, w) = (ok peers, w)
forgive (err e, w) = (ok [], w)

-- the same adapters with sources that never fail
abbrev pub forgiving : {W : Type 0} → Adapters W → Adapters W
forgiving host = record host {
  cache_discover = λ n w. forgive (host.cache_discover n w);
  native_discover = λ n w. forgive (host.native_discover n w);
  registry_discover = λ n w. forgive (host.registry_discover n w);
}

module _ {W : Type 0} (host : Adapters W) (policy : BootstrapPolicy) where
  attempt-forgive :
      (s : BootstrapState) (l : List BootstrapState)
      (found : Result (List PeerCandidate) BootstrapError × W)
      → attempt (forgiving host) policy s l (forgive found) ≡ attempt host policy s l found
  unfolding attempt
  attempt-forgive s l (ok peers, w) = refl
  attempt-forgive s l (err e, w) = refl

  attempt_registry-forgive :
      (l : List BootstrapState) (found : Result (List PeerCandidate) BootstrapError × W)
      → attempt_registry (forgiving host) policy l (forgive found)
        ≡ attempt_registry host policy l found
  unfolding attempt_registry
  attempt_registry-forgive l (ok peers, w) = refl
  attempt_registry-forgive l (err e, w) = refl

  from_isolated-forgive :
      (l : List BootstrapState) (w : W)
      → from_isolated (forgiving host) policy l w ≡ from_isolated host policy l w
  unfolding from_isolated
  from_isolated-forgive l w = refl

  -- the same attempt, then stages that agree
  or_else-cong :
      (s : BootstrapState)
      (f g : List BootstrapState → W → Result BootstrapOutcome BootstrapError × W)
      → ((l : List BootstrapState) (w : W) → f l w ≡ g l w)
      → {a b : Bool × (List BootstrapState × W)} → a ≡ b
      → or_else (forgiving host) policy s f a ≡ or_else host policy s g b
  or_else-cong s f g h e = rw e (same _)
    where
      same :
          (b : Bool × (List BootstrapState × W))
          → or_else (forgiving host) policy s f b ≡ or_else host policy s g b
      same (true, (l, w)) = refl
      same (false, (l, w)) = h l w

  from_registry-forgive :
      (namespace : Namespace) (l : List BootstrapState) (w : W)
      → from_registry (forgiving host) policy namespace l w
        ≡ from_registry host policy namespace l w
  unfolding from_registry
  from_registry-forgive namespace l w =
      or_else-cong resurrect_scan _ _ from_isolated-forgive
        (attempt_registry-forgive (l ++ (resurrect_scan ∷ [])) (host.registry_discover namespace w))

  from_native-forgive :
      (namespace : Namespace) (l : List BootstrapState) (w : W)
      → from_native (forgiving host) policy namespace l w ≡ from_native host policy namespace l w
  unfolding from_native
  from_native-forgive namespace l w =
      or_else-cong native_discovery _ _ (from_registry-forgive namespace) (
        attempt-forgive native_discovery (l ++ (native_discovery ∷ []))
          (host.native_discover namespace w))

  from_cache-forgive :
      (namespace : Namespace) (l : List BootstrapState) (w : W)
      → from_cache (forgiving host) policy namespace l w ≡ from_cache host policy namespace l w
  unfolding from_cache
  from_cache-forgive namespace l w =
      or_else-cong cache_discovery _ _ (from_native-forgive namespace) (
        attempt-forgive cache_discovery (l ++ (cache_discovery ∷ []))
          (host.cache_discover namespace w))

  -- A cycle goes the same way if every source that fails is replaced by one that finds nobody: an
  -- error of a discovery source never ends a cycle and never keeps a later source from running.
  pub run_cycle-forgiving :
      (namespace : Namespace) (w : W)
      → run_cycle (forgiving host) policy namespace w ≡ run_cycle host policy namespace w
  unfolding run_cycle
  run_cycle-forgiving namespace w =
      ap
        (λ (c : Result BootstrapOutcome BootstrapError × W).
          if leb (connection_target policy) (host.connected_peers w).0
          then (
            ok (connected_outcome ((start ∷ []) ++ (connected ∷ [])) start),
            (host.connected_peers w).1,
          )
          else c)
        (from_cache-forgive namespace (start ∷ []) (host.connected_peers w).1)
