-- ===== src/Bootstrap/Dialing.antt =====
-- crates/resurrect-bootstrap/src/lib.rs: `dial_candidates` dials every candidate unless the target
-- is met.
use mathlib.Core.List.{append_assoc, append-nil}
use rbp.Prelude.{
  ℕ, zero, suc, ◌+◌, ◌%◌, ◌≤◌, ◌<◌, ◌≡◌, refl, sym, ap, ◌∙◌, ◌⊎◌, inl, inr, true, false, List, [],
  ◌∷◌, ◌++◌, ltb, leb, if◌then◌else◌, length, List-cases, length-append, arith, Bool-cases, nat_eq,
  leb→le,
}
use rbp.Core.PeerRecord.{PeerCandidate}
use rbp.Bootstrap.{Adapters, BootstrapState, BootstrapPolicy}
use rbp.Bootstrap.Cycle.{parallel, fill, dial_loop, dial_candidates, without, connection_target}

length-without :
    {A : Type 0} (i : ℕ) (xs : List A) → i < length xs → length (without i xs) + 1 ≡ length xs
length-without i [] h = omega (arith, h)
length-without zero (x ∷ xs) h = omega arith
length-without (suc i) (x ∷ xs) h = omega (arith, length-without i xs (omega (arith, h)))

module _ {W : Type 0} (host : Adapters W) (policy : BootstrapPolicy) where
  -- what `fill` keeps of the bound and of the dials
  fill-parallel :
      (in_flight waiting : List PeerCandidate) (w : W)
      → length in_flight ≤ parallel host policy
      → (length (fill host policy in_flight waiting w).0 ≤ parallel host policy)
        × (length (fill host policy in_flight waiting w).0
              + length (fill host policy in_flight waiting w).1.0
            ≡ length in_flight + length waiting)
        × (((fill host policy in_flight waiting w).1.0 ≡ [])
            ⊎ (length (fill host policy in_flight waiting w).0 ≡ parallel host policy))
  unfolding fill
  fill-parallel in_flight [] w h = (h, refl, inl refl)
  fill-parallel in_flight (p ∷ ps) w h = ground (
    arith,
    length-append in_flight (p ∷ []),
    fill-parallel (in_flight ++ (p ∷ [])) ps (host.start_dial p policy.per_dial_timeout w),
  )

  -- the dials in flight and waiting after one completion are one fewer
  one_fewer :
      (flying queued : List PeerCandidate) (x : PeerCandidate) (xs : List PeerCandidate) (i : ℕ)
      → flying ≡ x ∷ xs
      → length (without (i % length flying) flying) + 1 ≡ length flying
  one_fewer flying queued x xs i e = length-without (i % length flying) flying (rw e (omega arith))

  -- the dials in flight in a round of the loop, those left after it, and what was seen
  module _ (in_flight waiting : List PeerCandidate) (w : W) where
    abbrev flying : List PeerCandidate
    flying = (fill host policy in_flight waiting w).0

    abbrev queued : List PeerCandidate
    queued = (fill host policy in_flight waiting w).1.0

    abbrev filled : W
    filled = (fill host policy in_flight waiting w).1.1

    abbrev left : List PeerCandidate
    left = without ((host.next_done flying filled).0 % length flying) flying

    abbrev seen : ℕ × W
    seen = host.connected_peers (host.next_done flying filled).1

    loop_ends :
        (fuel : ℕ)
        → flying ≡ []
        → dial_loop host policy (suc fuel) in_flight waiting w ≡ (false, filled)
    unfolding dial_loop
    loop_ends fuel e = rw (e, dial_loop) refl

    loop_goes_on :
        (fuel : ℕ) (x : PeerCandidate) (xs : List PeerCandidate)
        → flying ≡ x ∷ xs
        → dial_loop host policy (suc fuel) in_flight waiting w ≡ (
            if leb (connection_target policy) seen.0
            then (true, host.drop_dials left seen.1)
            else dial_loop host policy fuel left queued seen.1)
    unfolding dial_loop
    loop_goes_on fuel x xs e = ground (arith, e)

    left_fewer :
        (x : PeerCandidate) (xs : List PeerCandidate)
        → length in_flight ≤ parallel host policy
        → flying ≡ x ∷ xs
        → (length left + length queued < length in_flight + length waiting)
          × (length left ≤ parallel host policy)
    left_fewer x xs small e =
        let (few, same, _) = fill-parallel in_flight waiting w small in
        let fewer = one_fewer flying queued x xs (host.next_done flying filled).0 e in
        (omega (arith, few, same, fewer), omega (arith, few, same, fewer))

  -- More fuel than dials in flight and waiting never decides the result of the loop.
  pub dial_loop-suc :
      (fuel : ℕ) (in_flight waiting : List PeerCandidate) (w : W)
      → length in_flight ≤ parallel host policy
      → length in_flight + length waiting < fuel
      → dial_loop host policy (suc fuel) in_flight waiting w
        ≡ dial_loop host policy fuel in_flight waiting w
  dial_loop-suc zero in_flight waiting w small enough = absurd (omega (arith, enough))
  dial_loop-suc (suc fuel) in_flight waiting w small enough =
      elim (List-cases (flying in_flight waiting w)) [
        | inl e ↦
            rw (loop_ends in_flight waiting w (suc fuel) e, loop_ends in_flight waiting w fuel e)
              refl
        | inr (x, xs, e) ↦
            let (fewer, few) = left_fewer in_flight waiting w x xs small e in
            rw
              (
                loop_goes_on in_flight waiting w (suc fuel) x xs e,
                loop_goes_on in_flight waiting w fuel x xs e,
                dial_loop-suc fuel (left in_flight waiting w) (queued in_flight waiting w)
                    (seen in_flight waiting w).1 few (omega (arith, fewer, enough)),
              )
              refl
      ]

  -- The loop answers true only on a call of `connected_peers` that met the target, after which it
  -- drops the dials still in flight.
  abbrev pub Reached : W → Type 0
  Reached w =
      (u : W) × (still : List PeerCandidate) × (connection_target policy
        ≤ (host.connected_peers u).0)
      × (w ≡ host.drop_dials still (host.connected_peers u).1)

  pub dial_loop-Reached :
      (fuel : ℕ) (in_flight waiting : List PeerCandidate) (w : W)
      → (dial_loop host policy fuel in_flight waiting w).0 ≡ true
      → Reached (dial_loop host policy fuel in_flight waiting w).1
  dial_loop-Reached zero in_flight waiting w h = absurd (unfold dial_loop in ground arith)
  dial_loop-Reached (suc fuel) in_flight waiting w h =
      elim (List-cases (flying in_flight waiting w)) [
        | inl e ↦
            let no : false ≡ true = rw (loop_ends in_flight waiting w fuel e) at h in
            absurd (ground arith)
        | inr (x, xs, e) ↦
            let step = loop_goes_on in_flight waiting w fuel x xs e in
            elim (Bool-cases (leb (connection_target policy) (seen in_flight waiting w).0)) [
              | inl met ↦
                  rw (step, met)
                    (
                      (host.next_done (flying in_flight waiting w) (filled in_flight waiting w)).1,
                      left in_flight waiting w,
                      leb→le _ _ met,
                      refl,
                    )
              | inr below ↦
                  rw (step, below)
                    (dial_loop-Reached fuel (left in_flight waiting w) (queued in_flight waiting w)
                      (seen in_flight waiting w).1 (rw (step, below) at h))
            ]
      ]

  -- what a log of the started dials keeps
  module _ (dialled : W → List PeerCandidate)
      (starts : (p : PeerCandidate) (w : W)
        → dialled (host.start_dial p policy.per_dial_timeout w) ≡ dialled w ++ (p ∷ []))
      (ends : (l : List PeerCandidate) (w : W) → dialled (host.next_done l w).1 ≡ dialled w)
      (looks : (w : W) → dialled (host.connected_peers w).1 ≡ dialled w) where
    fill-dialled :
        (in_flight waiting : List PeerCandidate) (w : W)
        → dialled (fill host policy in_flight waiting w).1.1
            ++ (fill host policy in_flight waiting w).1.0
          ≡ dialled w ++ waiting
    unfolding fill
    fill-dialled in_flight [] w = refl
    fill-dialled in_flight (p ∷ ps) w =
        let next = host.start_dial p policy.per_dial_timeout w in
        let rest = fill-dialled (in_flight ++ (p ∷ [])) ps next in
        let goal =
          rest
          ∙ ap (λ (l : List PeerCandidate). l ++ ps) (starts p w)
          ∙ append_assoc (dialled w) (p ∷ []) ps in
        elim (Bool-cases (ltb (length in_flight) (parallel host policy))) [
          | inl room ↦ rw (room, fill) goal
          | inr full ↦ rw (full, fill) refl
        ]

    loop-dialled :
        (fuel : ℕ) (in_flight waiting : List PeerCandidate) (w : W)
        → length in_flight ≤ parallel host policy
        → length in_flight + length waiting < fuel
        → (dial_loop host policy fuel in_flight waiting w).0 ≡ false
        → dialled (dial_loop host policy fuel in_flight waiting w).1 ≡ dialled w ++ waiting
    loop-dialled zero in_flight waiting w small enough h = absurd (omega (arith, enough))
    loop-dialled (suc fuel) in_flight waiting w small enough h =
        let sound = fill-dialled in_flight waiting w in
        elim (List-cases (flying in_flight waiting w)) [
          | inl e ↦
              let (_, same, full) = fill-parallel in_flight waiting w small in
              let empty : queued in_flight waiting w ≡ [] = elim full [
                | inl nothing ↦ nothing
                | inr many ↦ absurd (omega (arith, many, ap length e))
              ] in
              rw (loop_ends in_flight waiting w fuel e) (
                sym (append-nil _)
                ∙ ap (λ (l : List PeerCandidate). dialled (filled in_flight waiting w) ++ l)
                    (sym empty)
                ∙ sound)
          | inr (x, xs, e) ↦
              let step = loop_goes_on in_flight waiting w fuel x xs e in
              let (fewer, few) = left_fewer in_flight waiting w x xs small e in
              elim (Bool-cases (leb (connection_target policy) (seen in_flight waiting w).0)) [
                | inl met ↦ let no : true ≡ false = rw (step, met) at h in absurd (ground arith)
                | inr below ↦
                    rw (step, below)
                      (loop-dialled fuel (left in_flight waiting w) (queued in_flight waiting w)
                          (seen in_flight waiting w).1 few (omega (arith, fewer, enough))
                          (rw (step, below) at h)
                        ∙ ap (λ (l : List PeerCandidate). l ++ queued in_flight waiting w)
                            (looks _ ∙ ends _ _)
                        ∙ sound)
              ]
        ]

    -- Where a log of the started dials is kept, and no other call changes it: if `dial_candidates`
    -- does not reach the target, it has dialled all the candidates, each once and in their order,
    -- whatever the order in which the dials ended.
    pub dial_candidates-dialled :
        (peers : List PeerCandidate) (transitions : List BootstrapState) (source : BootstrapState)
        (w : W)
        → (dial_candidates host policy peers transitions source w).0 ≡ false
        → dialled (dial_candidates host policy peers transitions source w).1.1 ≡ dialled w ++ peers
    unfolding dial_candidates
    dial_candidates-dialled [] transitions source w h = sym (append-nil _)
    dial_candidates-dialled (p ∷ ps) transitions source w h =
        let all = loop-dialled (length (p ∷ ps) + 1) [] (p ∷ ps) w (omega arith) (omega arith) in
        ground (arith, all)
