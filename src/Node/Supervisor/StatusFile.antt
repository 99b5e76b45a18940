-- ===== src/Node/Supervisor/StatusFile.antt =====
-- crates/resurrect-node/src/supervisor.rs: `write_atomic_json`. The file system is a record of calls over
-- its state `W`, with texts for errors; serde_json's `to_vec_pretty` is a parameter.
pub mod Replaced
use rbp.Prelude.{ℕ, String, Option, none, some, List, [], ◌∷◌, ◌++◌, Result, ok, err}
use rbp.Prelude
use rbp.Prelude.Stateful.{Stateful, pure, lift, ◌>>=◌, ◌>>◌, map_err}
use rbp.Node.Supervisor.{NodeStatus, SupervisorError, io, json}

pub record StatusFiles (W FilePath : Type 0) : Type 0 where
  pub parent : FilePath → Option FilePath
  pub with_extension_tmp : FilePath → FilePath
  pub create_dir_all : FilePath → Stateful W (Unit {0}) String
  pub write : FilePath → List ℕ → Stateful W (Unit {0}) String
  pub rename : FilePath → FilePath → Stateful W (Unit {0}) String

module _ {W FilePath : Type 0} (files : StatusFiles W FilePath) where
  abbrev pub create_parent : Option FilePath → Stateful W (Unit {0}) SupervisorError
  create_parent none = pure tt
  create_parent (some parent) = map_err io (files.create_dir_all parent)

  unfoldable pub write_atomic_json :
      (NodeStatus → Result (List ℕ) String)
      → FilePath
      → NodeStatus
      → Stateful W (Unit {0}) SupervisorError
  write_atomic_json to_vec_pretty path status = do
    create_parent (files.parent path)
    bytes ← lift (Prelude.map_err json (to_vec_pretty status))
    map_err io (files.write (files.with_extension_tmp path) (bytes ++ (b'\n' ∷ [])))
    map_err io (files.rename (files.with_extension_tmp path) path)
