-- ===== src/Node/P2p/Handle.antt =====
-- crates/resurrect-node/src/p2p.rs: the handle of a running host and the native source over it. A call
-- gives the commands that it sends and its result; whether the loop still takes commands, and what
-- comes through the receiver, are arguments.
use rbp.Prelude.{
  ℕ, Bool, Option, List, [], ◌∷◌, String, Result, ok, err, ok_or, map_err, length, if◌then◌else◌,
}
use rbp.Core.PeerRecord.{PeerCandidate}
use rbp.Core.Namespace.{Namespace}
use rbp.Bootstrap.{BootstrapError, discovery, native_peer_store}
use rbp.Node.P2p.{
  Command, add_verified, native_candidates, shutdown, HostStatus, HostError, stopped,
}

-- `connected_peers` reads the latest status
abbrev pub connected_peers : HostStatus → ℕ
connected_peers status = length status.connected_peers

unfoldable pub send_verified : PeerCandidate → Bool → List Command × Result (Unit {0}) HostError
send_verified peer running = if running then (add_verified peer ∷ [], ok tt) else ([], err stopped)

-- `native_candidates`; the loop may drop the sender
unfoldable pub ask_native :
    ℕ → Bool → Option (List PeerCandidate) → List Command × Result (List PeerCandidate) HostError
ask_native sender running reply =
    if running then (native_candidates sender ∷ [], ok_or stopped reply) else ([], err stopped)

-- `shutdown`, which waits for the answer and drops it
unfoldable pub send_shutdown : ℕ → Bool → List Command
send_shutdown sender running = if running then shutdown sender ∷ [] else []

module _ (describe : HostError → String) where
  -- `discover` of the native source, after its observation interval
  unfoldable pub discover :
      Namespace
      → ℕ
      → Bool
      → Option (List PeerCandidate)
      → List Command × Result (List PeerCandidate) BootstrapError
  unfolding ask_native
  discover namespace sender running reply =
      let (commands, found) = ask_native sender running reply in
      (commands, map_err (λ error. discovery (describe error)) found)

  unfoldable pub add_verified_peer :
      PeerCandidate → Bool → List Command × Result (Unit {0}) BootstrapError
  unfolding send_verified
  add_verified_peer peer running =
      let (commands, done) = send_verified peer running in
      (commands, map_err (λ error. native_peer_store (describe error)) done)
