-- ===== src/Tests/StatusFile.antt =====
-- The status file of crates/resurrect-node/src/supervisor.rs on a file system in memory.
use rbp.Prelude.{
  ℕ, ◌+◌, refl, String, Option, none, some, List, [], ◌∷◌, Result, ok, nat_beq, if◌then◌else◌,
  arith,
}
use rbp.Bootstrap.{connected}
use rbp.Node.Supervisor.{NodeStatus}
use rbp.Node.Supervisor.StatusFile.{StatusFiles}
use rbp.Node.Supervisor.StatusFile.Replaced.{StatusFileLaws, Replaces, write_atomic_json-Replaces}

abbrev Disk : Type 0
Disk = ℕ → Option (List ℕ)

abbrev put : Disk → ℕ → Option (List ℕ) → Disk
put disk p found q = if nat_beq q p then found else disk q

-- the temporary file of a path is the next one
abbrev files : StatusFiles Disk ℕ
files = record {
  parent = λ p. none;
  with_extension_tmp = λ p. p + 1;
  create_dir_all = λ p disk. (ok tt, disk);
  write = λ p b disk. (ok tt, put disk p (some b));
  rename = λ p q disk. (ok tt, put disk q (disk p));
}

abbrev content : Disk → ℕ → Option (List ℕ)
content disk p = disk p

laws : StatusFileLaws files content
laws = record {
  dirs_keep = λ p q w. refl;
  write_ok = λ p b w h. ground arith;
  write_keeps = λ p q b w h. ground arith;
  rename_ok = λ p q w h. ground arith;
  rename_fails = λ p q r w e h. absurd (cc);
}

abbrev status : NodeStatus
status = record {
  peer_id = "peer";
  state = connected;
  connected_peers = 2;
  connected_via = none;
  transitions = [];
  registry = record {
    scans = 0;
    scan_failures = 0;
    logs_processed = 0;
    rejected_records = 0;
    reorgs = 0;
    announcements = 0;
  };
  last_error = none;
  updated_at = 0;
}

abbrev old : Disk
old p = some (1 ∷ [])

abbrev print : NodeStatus → Result (List ℕ) String
print s = ok (b'{' ∷ b'}' ∷ [])

write_atomic_json-Replaces_example : Replaces files print content laws 4 status old
write_atomic_json-Replaces_example =
    write_atomic_json-Replaces files print content laws 4 status old
      (λ h. absurd (omega (arith, h)))
