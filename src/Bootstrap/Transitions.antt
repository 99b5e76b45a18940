-- ===== src/Bootstrap/Transitions.antt =====
-- crates/resurrect-bootstrap/src/lib.rs: the observable state machine, and how a cycle ends.
use rbp.Prelude.{
  ◌+◌, ◌≤◌, ◌≡◌, refl, ◌⊎◌, inl, inr, Bool, true, false, Option, some, none, List, [], ◌∷◌, ◌++◌,
  Result, ok, err, leb, Bool-cases, leb→le, nat_eq, length,
}
use rbp.Core.Namespace.{Namespace}
use rbp.Core.PeerRecord.{PeerCandidate}
use rbp.Bootstrap.{
  Adapters, BootstrapState, start, cache_discovery, native_discovery, resurrect_scan, dialing,
  isolated, announce_self, backoff, connected, BootstrapOutcome, BootstrapPolicy, BootstrapError,
}
use rbp.Bootstrap.Cycle.{
  connection_target, connected_outcome, dial_loop, dial_candidates, attempt, add_all,
  attempt_registry, from_isolated, from_registry, from_native, from_cache, run_cycle, or_else,
  published_after,
}
use rbp.Bootstrap.Dialing.{Reached, dial_loop-Reached}

-- the states that discover candidates
pub data IsSource : BootstrapState → Type 0 where
  cache : IsSource cache_discovery
  native : IsSource native_discovery
  registry : IsSource resurrect_scan

-- the state that follows a source whose candidates do not suffice
abbrev pub fallback : {s : BootstrapState} → IsSource s → BootstrapState
fallback cache = native_discovery
fallback native = resurrect_scan
fallback registry = isolated

-- One step of the cycle's `transitions`, as the code pushes them. The states of the options are the
-- source whose candidates were dialled last: it is pushed a second time before `connected`, and a dial
-- that does not suffice is followed by the next source. The specification's diagram draws neither.
pub data Step
    : Option BootstrapState → BootstrapState → Option BootstrapState → BootstrapState → Type 0 where
  met : Step none start none connected
  begin : Step none start none cache_discovery
  dial : {s : BootstrapState} → IsSource s → Step none s (some s) dialing
  report : {s : BootstrapState} → IsSource s → Step (some s) dialing (some s) s
  reach : {s : BootstrapState} → IsSource s → Step (some s) s (some s) connected
  skip : {s : BootstrapState} (i : IsSource s) → Step none s none (fallback i)
  miss : {s : BootstrapState} (i : IsSource s) → Step (some s) dialing none (fallback i)
  publish : Step none isolated none announce_self
  published : Step none announce_self none backoff
  wait : Step none isolated none backoff

-- the transitions of a run from the start, in their order, and where it stands
pub data Run : List BootstrapState → Option BootstrapState → BootstrapState → Type 0 where
  here : Run (start ∷ []) none start
  then_step :
      {l : List BootstrapState} {during during' : Option BootstrapState} {s t : BootstrapState}
      → Run l during s
      → Step during s during' t
      → Run (l ++ (t ∷ [])) during' t

module _ {W : Type 0} (host : Adapters W) (policy : BootstrapPolicy) where
  -- connected: the target was seen met, through a source or before any
  pub record Connects (o : BootstrapOutcome) (w : W) : Type 0 where
    pub state : o.state ≡ connected
    pub announced : o.announced ≡ false
    pub via :
        ((o.connected_via ≡ some start)
          × Run o.transitions none connected
          × ((u : W) × (connection_target policy ≤ (host.connected_peers u).0)
              × (w ≡ (host.connected_peers u).1)))
        ⊎ ((s : BootstrapState) × IsSource s
            × (o.connected_via ≡ some s)
            × Run o.transitions (some s) connected
            × Reached host policy w)

  -- isolated: published exactly if the publisher is eligible
  pub record BacksOff (o : BootstrapOutcome) (w : W) : Type 0 where
    pub state : o.state ≡ backoff
    pub connected_via : o.connected_via ≡ none
    pub path : Run o.transitions none backoff
    pub announced :
        (u : W) × (((host.eligible u ≡ false) × (o.announced ≡ false) × (w ≡ u))
          ⊎ ((host.eligible u ≡ true)
              × (o.announced ≡ true)
              × (host.announce policy.reboot_ttl u ≡ (ok tt, w))))

  -- how a cycle may end
  abbrev pub Ends : Result BootstrapOutcome BootstrapError × W → Type 0
  Ends (ok o, w) = Connects o w ⊎ BacksOff o w
  Ends (err e, w) =
      (u : W) × (host.eligible u ≡ true) × (host.announce policy.reboot_ttl u ≡ (err e, w))

  -- what an attempt with a source gives
  abbrev Attempted : BootstrapState → Bool × (List BootstrapState × W) → Type 0
  Attempted s (true, (l, w)) = Run l (some s) connected × Reached host policy w
  Attempted s (false, (l, w)) = Run l none s ⊎ Run l (some s) dialing

  dial_candidates-Attempted :
      {s : BootstrapState} (i : IsSource s) (peers : List PeerCandidate) (l : List BootstrapState)
      (w : W)
      → Run l none s
      → Attempted s (dial_candidates host policy peers l s w)
  unfolding dial_candidates
  dial_candidates-Attempted i [] l w p = inl p
  dial_candidates-Attempted i (x ∷ xs) l w p =
      let dialled = then_step p (dial i) in
      elim (Bool-cases (dial_loop host policy (length (x ∷ xs) + 1) [] (x ∷ xs) w).0) [
        | inl reached ↦ rw reached (
          then_step (then_step dialled (report i)) (reach i),
          dial_loop-Reached host policy _ [] (x ∷ xs) w reached,
        )
        | inr missed ↦ rw missed (inr dialled)
      ]

  attempt-Attempted :
      {s : BootstrapState} (i : IsSource s) (l : List BootstrapState)
      → Run l none s
      → (found : Result (List PeerCandidate) BootstrapError × W)
      → Attempted s (attempt host policy s l found)
  unfolding attempt
  attempt-Attempted i l p (ok peers, w) = dial_candidates-Attempted i peers l w p
  attempt-Attempted i l p (err e, w) = inl p

  attempt_registry-Attempted :
      (l : List BootstrapState)
      → Run l none resurrect_scan
      → (found : Result (List PeerCandidate) BootstrapError × W)
      → Attempted resurrect_scan (attempt_registry host policy l found)
  unfolding attempt_registry
  attempt_registry-Attempted l p (ok peers, w) =
      dial_candidates-Attempted registry peers l (add_all host policy peers w) p
  attempt_registry-Attempted l p (err e, w) = inl p

  -- an attempt and the next stage
  or_else-Ends :
      {s : BootstrapState} (i : IsSource s)
      (next : List BootstrapState → W → Result BootstrapOutcome BootstrapError × W)
      → ((l : List BootstrapState) (w : W)
          → Run l none s ⊎ Run l (some s) dialing
          → Ends (next l w))
      → (r : Bool × (List BootstrapState × W)) → Attempted s r
      → Ends (or_else host policy s next r)
  unfolding connected_outcome
  or_else-Ends {s} i next more (true, (l, w)) (p, reached) =
      inl (record { state = refl; announced = refl; via = inr (s, i, refl, p, reached) })
  or_else-Ends i next more (false, (l, w)) a = more l w a

  -- the transition to the next source, or to isolation
  advance :
      {s : BootstrapState} (i : IsSource s) (l : List BootstrapState)
      → Run l none s ⊎ Run l (some s) dialing
      → Run (l ++ (fallback i ∷ [])) none (fallback i)
  advance i l (inl p) = then_step p (skip i)
  advance i l (inr p) = then_step p (miss i)

  published-Ends :
      (l : List BootstrapState) (w : W)
      → Run l none isolated
      → host.eligible w ≡ true
      → (r : Result (Unit {0}) BootstrapError × W) → host.announce policy.reboot_ttl w ≡ r
      → Ends (published_after host policy (l ++ (announce_self ∷ [])) r)
  published-Ends l w alone able (ok tt, v) e = inr (record {
    state = refl;
    connected_via = refl;
    path = then_step (then_step alone publish) published;
    announced = (w, inr (able, refl, e));
  })
  published-Ends l w alone able (err _, v) e = (w, able, e)

  from_isolated-Ends :
      (l : List BootstrapState) (w : W)
      → Run l none resurrect_scan ⊎ Run l (some resurrect_scan) dialing
      → Ends (from_isolated host policy l w)
  unfolding from_isolated
  from_isolated-Ends l w p =
      let alone = advance registry l p in
      elim (Bool-cases (host.eligible w)) [
        | inr unable ↦ rw unable (
            inr (record {
              state = refl;
              connected_via = refl;
              path = then_step alone wait;
              announced = (w, inl (unable, refl, refl));
            }))
        | inl able ↦ rw able (
            published-Ends (l ++ (isolated ∷ [])) w alone able (host.announce policy.reboot_ttl w)
              refl)
      ]

  from_registry-Ends :
      (namespace : Namespace) (l : List BootstrapState) (w : W)
      → Run l none native_discovery ⊎ Run l (some native_discovery) dialing
      → Ends (from_registry host policy namespace l w)
  unfolding from_registry
  from_registry-Ends namespace l w p =
      or_else-Ends registry (from_isolated host policy) from_isolated-Ends _ (
        attempt_registry-Attempted (l ++ (resurrect_scan ∷ [])) (advance native l p)
          (host.registry_discover namespace w))

  from_native-Ends :
      (namespace : Namespace) (l : List BootstrapState) (w : W)
      → Run l none cache_discovery ⊎ Run l (some cache_discovery) dialing
      → Ends (from_native host policy namespace l w)
  unfolding from_native
  from_native-Ends namespace l w p =
      or_else-Ends native (from_registry host policy namespace) (from_registry-Ends namespace) _ (
        attempt-Attempted native (l ++ (native_discovery ∷ [])) (advance cache l p)
          (host.native_discover namespace w))

  from_cache-Ends :
      (namespace : Namespace) (w : W) → Ends (from_cache host policy namespace (start ∷ []) w)
  unfolding from_cache
  from_cache-Ends namespace w =
      or_else-Ends cache (from_native host policy namespace) (from_native-Ends namespace) _
        (attempt-Attempted cache _ (then_step here begin) (host.cache_discover namespace w))

  -- A cycle ends connected, in backoff or with an error. Connected: either from the start, or along
  -- the sources cache, native and registry up to one whose candidates were dialled and that is named
  -- as the source, and only after a call that saw the target met. In backoff: along all three sources,
  -- each left without a dial or from one that did not suffice, then isolation, and the announcement,
  -- which is made exactly if the isolated node is eligible. An error: only that of the announcement
  -- of an eligible node.
  pub run_cycle-Ends : (namespace : Namespace) (w : W) → Ends (run_cycle host policy namespace w)
  unfolding run_cycle connected_outcome
  run_cycle-Ends namespace w =
      elim (Bool-cases (leb (connection_target policy) (host.connected_peers w).0)) [
        | inl enough ↦ rw enough (
            inl (record {
              state = refl;
              announced = refl;
              via = inl (refl, then_step here met, (w, leb→le _ _ enough, refl));
            }))
        | inr few ↦ rw few (from_cache-Ends namespace (host.connected_peers w).1)
      ]
