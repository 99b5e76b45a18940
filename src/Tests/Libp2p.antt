-- ===== src/Tests/Libp2p.antt =====
-- The theorems about crates/resurrect-libp2p at concrete inputs.
use rbp.Prelude.{◌≡◌, ◌↔◌, true, some, List, [], ◌∷◌, All}
use rbp.Core.PeerRecord.{browser}
use rbp.Libp2p.EndpointPolicy.{Protocol, ip4, p2p, tcp, tls, default_policy, accepts}
use rbp.Libp2p.EndpointPolicy.Acceptable.{IsAllowed, Suits, accepts-IsAllowed}

abbrev address : List Protocol
address = ip4 (record { a = 8; b = 8; c = 8; d = 8 }) ∷ tcp 4001 ∷ tls ∷ p2p (7 ∷ []) ∷ []

accepts-IsAllowed_example :
    (accepts default_policy (some (7 ∷ [])) browser address ≡ true)
    ↔ (All (IsAllowed default_policy (some (7 ∷ []))) address × Suits browser address)
accepts-IsAllowed_example = accepts-IsAllowed default_policy (some (7 ∷ [])) browser address
