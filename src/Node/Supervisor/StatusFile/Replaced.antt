-- ===== src/Node/Supervisor/StatusFile/Replaced.antt =====
-- crates/resurrect-node/src/supervisor.rs: a reader of the status file sees a whole status.
use rbp.Prelude.{
  ℕ, ◌≡◌, ◌≢◌, refl, ◌⊎◌, inl, inr, String, Option, none, some, List, [], ◌∷◌, ◌++◌, Result, ok,
  err, Result-cases, arith,
}
use rbp.Node.Supervisor.{NodeStatus}
use rbp.Node.Supervisor.StatusFile.{StatusFiles, create_parent, write_atomic_json}

-- What a file system does with the contents of the files: a write that succeeds replaces its file, one
-- that fails may leave anything there, and a rename happens as a whole or not at all.
pub record StatusFileLaws {W FilePath : Type 0} (files : StatusFiles W FilePath)
    (content : W → FilePath → Option (List ℕ)) : Type 0 where
  pub dirs_keep : (p q : FilePath) (w : W) → content (files.create_dir_all p w).1 q ≡ content w q
  pub write_ok :
      (p : FilePath) (b : List ℕ) (w : W)
      → (files.write p b w).0 ≡ ok tt
      → content (files.write p b w).1 p ≡ some b
  pub write_keeps :
      (p q : FilePath) (b : List ℕ) (w : W) → q ≢ p → content (files.write p b w).1 q ≡ content w q
  pub rename_ok :
      (p q : FilePath) (w : W)
      → (files.rename p q w).0 ≡ ok tt
      → content (files.rename p q w).1 q ≡ content w p
  pub rename_fails :
      (p q r : FilePath) (w : W) (e : String)
      → (files.rename p q w).0 ≡ err e
      → content (files.rename p q w).1 r ≡ content w r

module _ {W FilePath : Type 0} (files : StatusFiles W FilePath)
    (to_vec_pretty : NodeStatus → Result (List ℕ) String) (content : W → FilePath → Option (List ℕ))
    (laws : StatusFileLaws files content) where
  -- the file holds the whole new status after a success, and what it held before after a failure
  abbrev pub Replaces : FilePath → NodeStatus → W → Type 0
  Replaces path status w =
      (((write_atomic_json files to_vec_pretty path status w).0 ≡ ok tt)
        × (b : List ℕ) × (to_vec_pretty status ≡ ok b)
        × (content (write_atomic_json files to_vec_pretty path status w).1 path
            ≡ some (b ++ (b'\n' ∷ []))))
      ⊎ (((write_atomic_json files to_vec_pretty path status w).0 ≢ ok tt)
          × (content (write_atomic_json files to_vec_pretty path status w).1 path ≡ content w path))

  create_parent-keeps :
      (parent : Option FilePath) (q : FilePath) (w : W)
      → content (create_parent files parent w).1 q ≡ content w q
  create_parent-keeps none q w = refl
  create_parent-keeps (some p) q w = elim (Result-cases (files.create_dir_all p w).0) [
    | inl (_, made) ↦ ground (arith, laws.dirs_keep p q w)
    | inr (e, failed) ↦ ground (arith, laws.dirs_keep p q w)
  ]

  -- On a file system whose renames are atomic, and with a path that is not its own temporary file, the
  -- status file holds the whole new status if the call succeeds, and what it held before if it fails at
  -- any of its steps: never a part of a status.
  pub write_atomic_json-Replaces :
      (path : FilePath) (status : NodeStatus) (w : W)
      → path ≢ files.with_extension_tmp path
      → Replaces path status w
  unfolding write_atomic_json
  write_atomic_json-Replaces path status w apart =
      let w1 = (create_parent files (files.parent path) w).1 in
      let same = create_parent-keeps (files.parent path) path w in
      let temporary = files.with_extension_tmp path in
      elim (Result-cases (create_parent files (files.parent path) w).0) [
        | inr (e, failed) ↦ inr (λ h. ground arith, ground arith)
        | inl (_, made) ↦ elim (Result-cases (to_vec_pretty status)) [
          | inr (e, failed) ↦ inr (λ h. ground arith, ground arith)
          | inl (b, encoded) ↦
              let bytes = b ++ (b'\n' ∷ []) in
              let w2 = (files.write temporary bytes w1).1 in
              let kept = laws.write_keeps temporary path bytes w1 apart in
              elim (Result-cases (files.write temporary bytes w1).0) [
                | inr (e, failed) ↦ inr (λ h. ground arith, ground arith)
                | inl (_, wrote) ↦
                    let full = laws.write_ok temporary bytes w1 wrote in
                    elim (Result-cases (files.rename temporary path w2).0) [
                      | inr (e, failed) ↦ inr (
                        λ h. ground arith,
                        ground (arith, laws.rename_fails temporary path path w2 e failed),
                      )
                      | inl (_, renamed) ↦ inl (
                        ground arith,
                        b,
                        encoded,
                        ground (arith, laws.rename_ok temporary path w2 renamed),
                      )
                    ]
              ]
        ]
      ]
