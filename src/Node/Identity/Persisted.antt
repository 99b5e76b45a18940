-- ===== src/Node/Identity/Persisted.antt =====
-- crates/resurrect-node/src/identity.rs: what a load leaves in the file system, and what it gives.
use rbp.Prelude.{
  ℕ, ◌≡◌, ◌≢◌, refl, sym, ap, ◌∙◌, inl, inr, Option, none, some, List, [], ◌++◌, ok, err,
  Result-cases, arith,
}
use rbp.Node.Identity.{
  IoError, not_found, already_exists, other_io, FileSystem, Keys, write_private_file, create_parent,
  create_identity, load_or_create_identity,
}

-- What a file system does with the contents of the files: a read gives them or fails, and a missing
-- file is told only if it is missing; `create_new` makes an empty file where there is none; a write
-- that succeeds appends all the bytes, and one that fails may have written any of them.
pub record FileLaws {W FilePath File : Type 0} (files : FileSystem W FilePath File)
    (content : W → FilePath → Option (List ℕ)) (target : File → FilePath) : Type 0 where
  pub read_ok :
      (p : FilePath) (w : W) (b : List ℕ) → (files.read p w).0 ≡ ok b → content w p ≡ some b
  pub read_missing :
      (p : FilePath) (w : W) → (files.read p w).0 ≡ err not_found → content w p ≡ none
  pub read_keeps : (p q : FilePath) (w : W) → content (files.read p w).1 q ≡ content w q
  pub dirs_keep : (p q : FilePath) (w : W) → content (files.create_dir_all p w).1 q ≡ content w q
  pub create_fails :
      (p q : FilePath) (w : W) (e : IoError)
      → (files.create_new p w).0 ≡ err e
      → content (files.create_new p w).1 q ≡ content w q
  pub create_ok :
      (p : FilePath) (w : W) (f : File)
      → (files.create_new p w).0 ≡ ok f
      → (content w p ≡ none) × (target f ≡ p) × (content (files.create_new p w).1 p ≡ some [])
  pub create_keeps :
      (p q : FilePath) (w : W) → q ≢ p → content (files.create_new p w).1 q ≡ content w q
  pub write_ok :
      (f : File) (w : W) (b old : List ℕ)
      → (files.write_all f b w).0 ≡ ok tt
      → content w (target f) ≡ some old
      → content (files.write_all f b w).1 (target f) ≡ some (old ++ b)
  pub write_keeps :
      (f : File) (q : FilePath) (w : W) (b : List ℕ)
      → q ≢ target f
      → content (files.write_all f b w).1 q ≡ content w q
  pub sync_keeps :
      (f : File) (q : FilePath) (w : W) → content (files.sync_all f w).1 q ≡ content w q

-- a key comes back from its protobuf form, and a generator leaves the files alone
pub record KeyLaws {W FilePath Keypair : Type 0} (keys : Keys W Keypair)
    (content : W → FilePath → Option (List ℕ)) : Type 0 where
  pub decodes :
      (k : Keypair) (b : List ℕ)
      → keys.to_protobuf_encoding k ≡ ok b
      → keys.from_protobuf_encoding b ≡ ok k
  pub generate_keeps : (q : FilePath) (w : W) → content (keys.generate_ed25519 w).1 q ≡ content w q

module _ {W FilePath File : Type 0} (files : FileSystem W FilePath File)
    (content : W → FilePath → Option (List ℕ)) (target : File → FilePath)
    (laws : FileLaws files content target) where
  written :
      (path : FilePath) (bytes : List ℕ) (w : W)
      → (write_private_file files path bytes w).0 ≡ ok tt
      → content (write_private_file files path bytes w).1 path ≡ some bytes
  unfolding write_private_file
  written path bytes w h = elim (Result-cases (files.create_new path w).0) [
    | inr (e, failed) ↦ absurd (ground arith)
    | inl (f, created) ↦
        let (absent, at, empty) = laws.create_ok path w f created in
        let w1 = (files.create_new path w).1 in
        elim (Result-cases (files.write_all f bytes w1).0) [
          | inr (e, failed) ↦ absurd (ground arith)
          | inl (_, wrote) ↦
              let full : content (files.write_all f bytes w1).1 path ≡ some bytes =
                ap (content (files.write_all f bytes w1).1) (sym at)
                ∙ laws.write_ok f w1 bytes [] wrote (ap (content w1) at ∙ empty) in
              ground (arith, full, laws.sync_keeps f path (files.write_all f bytes w1).1)
        ]
  ]

  write_private_file-keeps :
      (path q : FilePath) (bytes b : List ℕ) (w : W)
      → content w q ≡ some b
      → content (write_private_file files path bytes w).1 q ≡ some b
  unfolding write_private_file
  write_private_file-keeps path q bytes b w h = elim (Result-cases (files.create_new path w).0) [
    | inr (e, failed) ↦ ground (arith, laws.create_fails path q w e failed)
    | inl (f, created) ↦
        let (absent, at, empty) = laws.create_ok path w f created in
        let w1 = (files.create_new path w).1 in
        let other : q ≢ path = λ same. ground arith in
        let kept = laws.create_keeps path q w other in
        let wrote = laws.write_keeps f q w1 bytes (λ same. other (same ∙ at)) in
        elim (Result-cases (files.write_all f bytes w1).0) [
          | inr (e, failed) ↦ ground arith
          | inl (_, done) ↦ ground (arith, laws.sync_keeps f q (files.write_all f bytes w1).1)
        ]
  ]

  create_parent-keeps :
      (parent : Option FilePath) (q : FilePath) (w : W)
      → content (create_parent files parent w).1 q ≡ content w q
  create_parent-keeps none q w = refl
  create_parent-keeps (some p) q w = elim (Result-cases (files.create_dir_all p w).0) [
    | inl (_, made) ↦ ground (arith, laws.dirs_keep p q w)
    | inr (e, failed) ↦ ground (arith, laws.dirs_keep p q w)
  ]

  module _ {Keypair : Type 0} (keys : Keys W Keypair)
      (key_laws : KeyLaws {FilePath = FilePath} keys content) where
    -- the states behind the parent directory and the generator
    abbrev parented : FilePath → W → W
    parented path w = (create_parent files (files.parent path) w).1

    abbrev generated : FilePath → W → W
    generated path w = (keys.generate_ed25519 (parented path w)).1

    generated-keeps : (path q : FilePath) (w : W) → content (generated path w) q ≡ content w q
    generated-keeps path q w =
        key_laws.generate_keeps q (parented path w) ∙ create_parent-keeps (files.parent path) q w

    create_identity-keeps :
        (path q : FilePath) (b : List ℕ) (w : W)
        → content w q ≡ some b
        → content (create_identity files keys path w).1 q ≡ some b
    unfolding create_identity
    create_identity-keeps path q b w h =
        elim (Result-cases (create_parent files (files.parent path) w).0) [
          | inr (e, failed) ↦ ground (arith, create_parent-keeps (files.parent path) q w)
          | inl (_, made) ↦
              let before : content (generated path w) q ≡ some b = generated-keeps path q w ∙ h in
              elim (Result-cases
                (keys.to_protobuf_encoding (keys.generate_ed25519 (parented path w)).0)) [
                  | inr (e, failed) ↦ ground arith
                  | inl (encoded, coded) ↦
                      ground
                        (arith, write_private_file-keeps path q encoded b (generated path w) before)
                ]
        ]

    create_identity-written :
        (path : FilePath) (k : Keypair) (w : W)
        → (create_identity files keys path w).0 ≡ ok k
        → (b : List ℕ) × (keys.to_protobuf_encoding k ≡ ok b)
          × (content (create_identity files keys path w).1 path ≡ some b)
    unfolding create_identity
    create_identity-written path k w h =
        elim (Result-cases (create_parent files (files.parent path) w).0) [
          | inr (e, failed) ↦ absurd (ground arith)
          | inl (_, made) ↦
              elim (Result-cases
                (keys.to_protobuf_encoding (keys.generate_ed25519 (parented path w)).0)) [
                  | inr (e, failed) ↦ absurd (ground arith)
                  | inl (encoded, coded) ↦
                      elim (Result-cases
                        (write_private_file files path encoded (generated path w)).0) [
                          | inr (e, failed) ↦ absurd (ground arith)
                          | inl (_, done) ↦ (
                            encoded,
                            ground arith,
                            ground (arith, written path encoded (generated path w)),
                          )
                        ]
                ]
        ]

    -- On a file system that makes a new file only where there is none, a load leaves the bytes of every
    -- file that there was, at the path itself too, whatever its calls answer: a stored key is never
    -- overwritten.
    pub load_or_create_identity-keeps :
        (path q : FilePath) (b : List ℕ) (w : W)
        → content w q ≡ some b
        → content (load_or_create_identity files keys path w).1 q ≡ some b
    unfolding load_or_create_identity
    load_or_create_identity-keeps path q b w h =
        let kept = laws.read_keeps path q w ∙ h in
        elim (Result-cases (files.read path w).0) [
          | inl (bytes, found) ↦ ground arith
          | inr (not_found, missing) ↦
              ground (arith, create_identity-keeps path q b (files.read path w).1 kept)
          | inr (already_exists, failed) ↦ ground arith
          | inr (other_io message, failed) ↦ ground arith
        ]

    reload :
        (path : FilePath) (b : List ℕ) (k : Keypair)
        → keys.from_protobuf_encoding b ≡ ok k
        → (later : W) (bytes : List ℕ) → (files.read path later).0 ≡ ok bytes
        → content later path ≡ some b
        → load_or_create_identity files keys path later ≡ (ok k, (files.read path later).1)
    unfolding load_or_create_identity
    reload path b k decoded later bytes found same =
        ground (arith, laws.read_ok path later bytes found)

    -- On such a file system, with keys that come back from their protobuf form, a load that gives a
    -- key leaves a file at the path from whose bytes every later load that can read them gives the
    -- same key.
    pub load_or_create_identity-again :
        (path : FilePath) (k : Keypair) (w : W)
        → (load_or_create_identity files keys path w).0 ≡ ok k
        → (b : List ℕ) × (content (load_or_create_identity files keys path w).1 path ≡ some b)
          × ((later : W)
              → (bytes : List ℕ) → (files.read path later).0 ≡ ok bytes
              → content later path ≡ some b
              → load_or_create_identity files keys path later ≡ (ok k, (files.read path later).1))
    unfolding load_or_create_identity
    load_or_create_identity-again path k w h = elim (Result-cases (files.read path w).0) [
      | inl (bytes, found) ↦ (
        bytes,
        ground (arith, laws.read_ok path w bytes found, laws.read_keeps path path w),
        reload path bytes k (ground arith),
      )
      | inr (not_found, missing) ↦
          let (b, coded, stored) =
            create_identity-written path k (files.read path w).1 (ground arith) in
          (b, ground arith, reload path b k (key_laws.decodes k b coded))
      | inr (already_exists, failed) ↦ absurd (ground arith)
      | inr (other_io message, failed) ↦ absurd (ground arith)
    ]
