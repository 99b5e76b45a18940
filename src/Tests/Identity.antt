-- ===== src/Tests/Identity.antt =====
-- The theorems about crates/resurrect-node/src/identity.rs on a file system in memory.
use rbp.Prelude.{
  ℕ, ◌≡◌, refl, String, Option, none, some, List, [], ◌∷◌, ◌++◌, Result, ok, err, nat_beq,
  if◌then◌else◌, arith,
}
use rbp.Node.Identity.{
  IoError, not_found, already_exists, FileSystem, Keys, write_private_file, create_identity,
  load_or_create_identity,
}
use rbp.Node.Identity.Persisted.{
  FileLaws, KeyLaws, load_or_create_identity-keeps, load_or_create_identity-again,
}

abbrev Disk : Type 0
Disk = ℕ → Option (List ℕ)

abbrev put : Disk → ℕ → List ℕ → Disk
put disk p bytes q = if nat_beq q p then some bytes else disk q

abbrev read_at : Option (List ℕ) → Result (List ℕ) IoError
read_at none = err not_found
read_at (some bytes) = ok bytes

abbrev create_at : Option (List ℕ) → ℕ → Disk → Result ℕ IoError × Disk
create_at none p disk = (ok p, put disk p [])
create_at (some bytes) p disk = (err already_exists, disk)

abbrev append_at : Option (List ℕ) → ℕ → List ℕ → Disk → Result (Unit {0}) IoError × Disk
append_at none p bytes disk = (err not_found, disk)
append_at (some old) p bytes disk = (ok tt, put disk p (old ++ bytes))

abbrev disk_files : FileSystem Disk ℕ ℕ
disk_files = record {
  read = λ p disk. (read_at (disk p), disk);
  parent = λ p. some 0;
  create_dir_all = λ p disk. (ok tt, disk);
  create_new = λ p disk. create_at (disk p) p disk;
  write_all = λ p bytes disk. append_at (disk p) p bytes disk;
  sync_all = λ p disk. (ok tt, disk);
}

abbrev content : Disk → ℕ → Option (List ℕ)
content disk p = disk p

abbrev target : ℕ → ℕ
target p = p

-- a key is a number that its form holds
abbrev key_at : List ℕ → Result ℕ String
key_at [] = err "empty"
key_at (k ∷ rest) = ok k

abbrev keys : Keys Disk ℕ
keys = record {
  generate_ed25519 = λ disk. (77, disk);
  to_protobuf_encoding = λ k. ok (k ∷ 0 ∷ []);
  from_protobuf_encoding = key_at;
}

disk_laws : FileLaws disk_files content target
disk_laws = record {
  read_ok = λ p w b h. ground arith;
  read_missing = λ p w h. ground arith;
  read_keeps = λ p q w. refl;
  dirs_keep = λ p q w. refl;
  create_fails = λ p q w e h. ground arith;
  create_ok = λ p w f h. ground arith;
  create_keeps = λ p q w h. ground arith;
  write_ok = λ f w b old h g. ground arith;
  write_keeps = λ f q w b h. ground arith;
  sync_keeps = λ f q w. refl;
}

key_laws : KeyLaws {FilePath = ℕ} keys content
key_laws = record { decodes = λ k b h. ground arith; generate_keeps = λ q w. refl }

abbrev empty_disk : Disk
empty_disk p = none

abbrev stored : Disk
stored = put empty_disk 5 (9 ∷ [])

load_or_create_identity-keeps_example :
    (load_or_create_identity disk_files keys 7 stored).1 5 ≡ some (9 ∷ [])
load_or_create_identity-keeps_example =
    load_or_create_identity-keeps disk_files content target disk_laws keys key_laws 7 5 (9 ∷ [])
      stored refl

created : (load_or_create_identity disk_files keys 7 stored).0 ≡ ok 77
unfolding load_or_create_identity create_identity write_private_file
created = refl

load_or_create_identity-again_example :
    (b : List ℕ) × ((load_or_create_identity disk_files keys 7 stored).1 7 ≡ some b)
    × ((later : Disk) (bytes : List ℕ)
        → (disk_files.read 7 later).0 ≡ ok bytes
        → later 7 ≡ some b
        → load_or_create_identity disk_files keys 7 later ≡ (ok 77, (disk_files.read 7 later).1))
load_or_create_identity-again_example =
    load_or_create_identity-again disk_files content target disk_laws keys key_laws 7 77 stored
      created
