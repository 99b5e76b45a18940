-- ===== src/Node/Identity.antt =====
-- crates/resurrect-node/src/identity.rs. The file system and the library of keys stand outside: the
-- file system as calls over its state `W`, with the kind of an error told apart as far as the code
-- does; the keys as their generator and their protobuf form.
pub mod Persisted
use rbp.Prelude.{ℕ, String, Bool, true, false, Option, none, some, List, [], ◌∷◌, Result, ok, err}
use rbp.Prelude
use rbp.Prelude.Stateful.{Stateful, pure, fail, lift, ◌>>=◌, ◌>>◌, map_err}

pub data IoError : Type 0 where
  not_found : IoError
  already_exists : IoError
  other_io : String → IoError

-- what the code asks of the file system: `fs::read`, `create_dir_all` of a path's parent, where it
-- has one, `open` with `write` and `create_new`, `write_all` on that file and `sync_all`
pub record FileSystem (W FilePath File : Type 0) : Type 0 where
  pub read : FilePath → Stateful W (List ℕ) IoError
  pub parent : FilePath → Option FilePath
  pub create_dir_all : FilePath → Stateful W (Unit {0}) IoError
  pub create_new : FilePath → Stateful W File IoError
  pub write_all : File → List ℕ → Stateful W (Unit {0}) IoError
  pub sync_all : File → Stateful W (Unit {0}) IoError

pub record Keys (W Keypair : Type 0) : Type 0 where
  pub generate_ed25519 : W → Keypair × W
  pub to_protobuf_encoding : Keypair → Result (List ℕ) String
  pub from_protobuf_encoding : List ℕ → Result Keypair String

pub data IdentityError : Type 0 where
  io : IoError → IdentityError
  decode : String → IdentityError

module _ {W FilePath File : Type 0} (files : FileSystem W FilePath File) where
  unfoldable pub write_private_file : FilePath → List ℕ → Stateful W (Unit {0}) IoError
  write_private_file path bytes = do
    file ← files.create_new path
    files.write_all file bytes
    files.sync_all file

  abbrev pub create_parent : Option FilePath → Stateful W (Unit {0}) IdentityError
  create_parent none = pure tt
  create_parent (some parent) = map_err io (files.create_dir_all parent)

module _ {W FilePath File Keypair : Type 0} (files : FileSystem W FilePath File)
    (keys : Keys W Keypair) where
  abbrev generated : Stateful W Keypair IdentityError
  generated w = let (keypair, w') = keys.generate_ed25519 w in (ok keypair, w')

  -- from the parent directory of the key on
  unfoldable pub create_identity : FilePath → Stateful W Keypair IdentityError
  create_identity path = do
    create_parent files (files.parent path)
    keypair ← generated
    encoded ← lift (Prelude.map_err decode (keys.to_protobuf_encoding keypair))
    map_err io (write_private_file files path encoded)
    pure keypair

  -- the `match` on what is read
  abbrev pub loaded : FilePath → Result (List ℕ) IoError × W → Result Keypair IdentityError × W
  loaded path (ok bytes, w) = (Prelude.map_err decode (keys.from_protobuf_encoding bytes), w)
  loaded path (err not_found, w) = create_identity path w
  loaded path (err already_exists, w) = (err (io already_exists), w)
  loaded path (err (other_io message), w) = (err (io (other_io message)), w)

  unfoldable pub load_or_create_identity : FilePath → Stateful W Keypair IdentityError
  unfolding create_identity
  load_or_create_identity path w = loaded path (files.read path w)
