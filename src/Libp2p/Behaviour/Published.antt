-- ===== src/Libp2p/Behaviour/Published.antt =====
-- crates/resurrect-libp2p/src/behaviour.rs: the published count through the steps of a turn.
use rbp.Prelude.{
  ℕ, ◌≤◌, ◌≡◌, refl, ap, ◌∙◌, inl, inr, Bool, true, none, List, [], ◌∷◌, nat_eq, bytes_eq, ◌==◌,
  if◌then◌else◌, arith, Bool-cases, Option-cases, contains, length, All, All-append, bytes_beq_iff,
}
use rbp.Prelude.HashMap
use rbp.Prelude.HashMap.{IsMap}
use rbp.Prelude.HashSet
use rbp.Prelude.HashSet.{IsHashSet}
use rbp.Libp2p.Behaviour.{Behaviour, Sent, send, send_all, resolve, counted, Action, push_back}

-- A success is only told while at least one connection is published.
abbrev pub IsHonest : Sent → Type 0
IsHonest s = s.dialed ≡ true → 1 ≤ s.visible

pub record Base (b : Behaviour) : Type 0 where
  pub counts : b.connectivity ≡ length b.connected
  pub is_set : IsHashSet b.connected
  pub is_map : IsMap b.waiters
  pub honest : All IsHonest b.sent

pub send-Base :
    (w : ℕ) (dialed : Bool) (b : Behaviour)
    → (dialed ≡ true → 1 ≤ b.connectivity)
    → Base b
    → Base (send w dialed b)
send-Base w dialed b may v = record {
  counts = v.counts;
  is_set = v.is_set;
  is_map = v.is_map;
  honest = All-append IsHonest b.sent _ v.honest (may, tt);
}

send_all-Base :
    (ws : List ℕ) (dialed : Bool) (b : Behaviour)
    → (dialed ≡ true → 1 ≤ b.connectivity)
    → Base b
    → Base (send_all ws dialed b)
      × ((send_all ws dialed b).connected ≡ b.connected)
      × ((send_all ws dialed b).waiters ≡ b.waiters)
unfolding send_all
send_all-Base [] dialed b may v = (v, refl, refl)
send_all-Base (w ∷ ws) dialed b may v =
    send_all-Base ws dialed (send w dialed b) may (send-Base w dialed b may v)

pub resolve-Base :
    (k : List ℕ) (dialed : Bool) (b : Behaviour)
    → (dialed ≡ true → 1 ≤ b.connectivity)
    → Base b
    → Base (resolve k dialed b)
      × ((resolve k dialed b).connected ≡ b.connected)
      × ((j : List ℕ)
          → HashMap.get j (resolve k dialed b).waiters
            ≡ (if k == j then none else HashMap.get j b.waiters))
unfolding resolve
resolve-Base k dialed b may v = elim (Option-cases (HashMap.get k b.waiters)) [
  | inl nobody ↦ rw (nobody, resolve) (v, refl, λ j. ground (arith, bytes_beq_iff k j, nobody))
  | inr (ws, found) ↦
      let rest = record b { waiters = HashMap.remove k b.waiters } in
      let base : Base rest = record {
        counts = v.counts;
        is_set = v.is_set;
        is_map = HashMap.remove-IsMap k b.waiters v.is_map;
        honest = v.honest;
      } in
      let (base', same, waiters) = send_all-Base ws dialed rest may base in
      rw (found, resolve)
        (
          base',
          same,
          λ j. ap (λ m. HashMap.get j m) waiters ∙ HashMap.get-remove k j b.waiters v.is_map,
        )
]

pub counted-Base :
    (k : List ℕ) (b : Behaviour)
    → Base b
    → Base (counted k b)
      × (1 ≤ (counted k b).connectivity)
      × ((counted k b).waiters ≡ b.waiters)
      × ((j : List ℕ)
          → contains (counted k b).connected j ≡ (if k == j then true else contains b.connected j))
counted-Base k b v = elim (Bool-cases (contains b.connected k)) [
  | inl old ↦ rw old (
    v,
    omega (arith, v.counts, HashSet.contains-length k b.connected old),
    refl,
    λ j. ground (arith, bytes_beq_iff k j, old),
  )
  | inr new ↦ rw new (
    record {
      counts = refl;
      is_set = HashSet.insert-IsHashSet k b.connected v.is_set;
      is_map = v.is_map;
      honest = v.honest;
    },
    omega (
      arith,
      HashSet.contains-length k (HashSet.insert k b.connected)
          (ground (arith, HashSet.contains-insert k k b.connected, bytes_beq_iff k k)),
    ),
    refl,
    λ j. HashSet.contains-insert k j b.connected,
  )
]

pub pushed : (a : Action) (b : Behaviour) → Base b → Base (push_back a b)
pushed a b v = record { counts = v.counts; is_set = v.is_set; is_map = v.is_map; honest = v.honest }
