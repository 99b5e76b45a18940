-- ===== src/Libp2p/SignedRecord/SigningInput.antt =====
-- crates/resurrect-libp2p/src/signed_peer_record.rs: what a signature commits to.
use mathlib.Core.List.{append_assoc, append-nil}
use rbp.Prelude.{ℕ, ◌≡◌, refl, sym, ap, ◌∙◌, Option, some, List, [], ◌∷◌, ◌++◌, length, arith}
use rbp.Libp2p.SignedRecord.{append_uvarint, signing_input, libp2p_peer_record_domain}
use rbp.Libp2p.SignedRecord.Uvarint.{read_uvarint, read_uvarint-append_uvarint}

-- a text after its length
abbrev frame : List ℕ → List ℕ → List ℕ
frame text rest = append_uvarint [] (length text) ++ (text ++ rest)

append-injective_of_length :
    (xs ys rs ss : List ℕ) → length xs ≡ length ys → xs ++ rs ≡ ys ++ ss → (xs ≡ ys) × (rs ≡ ss)
append-injective_of_length [] [] rs ss h e = (refl, e)
append-injective_of_length [] (y ∷ ys) rs ss h e = absurd (omega (arith, h))
append-injective_of_length (x ∷ xs) [] rs ss h e = absurd (omega (arith, h))
append-injective_of_length (x ∷ xs) (y ∷ ys) rs ss h e =
    ground (arith, append-injective_of_length xs ys rs ss)

append-cancel : (xs rs ss : List ℕ) → xs ++ rs ≡ xs ++ ss → rs ≡ ss
append-cancel xs rs ss e = (append-injective_of_length xs xs rs ss refl e).1

frame-injective : (x y r s : List ℕ) → frame x r ≡ frame y s → (x ≡ y) × (r ≡ s)
frame-injective x y r s e =
    let same : ◌≡◌ {A = Option (ℕ × List ℕ)} (some (length x, x ++ r)) (some (length y, y ++ s)) =
      sym (read_uvarint-append_uvarint (length x) (x ++ r))
      ∙ ap read_uvarint e
      ∙ read_uvarint-append_uvarint (length y) (y ++ s) in
    append-injective_of_length x y r s (ground arith) (ground arith)

signing_input-frame :
    (t p : List ℕ) → signing_input t p ≡ frame libp2p_peer_record_domain (frame t (frame p []))
unfolding signing_input append_uvarint
signing_input-frame t p = simp (append_assoc, append-nil)

-- Two envelopes with the same signing input have the same payload type and the same payload: the
-- lengths in front leave no other way to split the signed bytes.
pub signing_input-injective :
    (t u p q : List ℕ) → signing_input t p ≡ signing_input u q → (t ≡ u) × (p ≡ q)
signing_input-injective t u p q e =
    let framed = sym (signing_input-frame t p) ∙ e ∙ signing_input-frame u q in
    let (_, rest) =
      frame-injective libp2p_peer_record_domain libp2p_peer_record_domain _ _ framed in
    let (types, last) = frame-injective t u _ _ rest in (types, (frame-injective p q [] [] last).0)
