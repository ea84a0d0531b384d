-- ===== src/Daemon.antt =====
-- src/main.rs: the log of a client that runs in the background, `drain_to_capped_log` with its
-- rotation, and the size that is configured for it. The answers of the file system are a parameter,
-- a record for each round of the loop. Lengths of files stay below 2 ^ 64.
pub mod Capped
pub mod Kept
use ezvpn.Prelude.{
  ℕ, ◌+◌, Bool, true, false, ◌&&◌, Option, none, some, List, [], ◌∷◌, ◌++◌, ltb, if◌then◌else◌,
  length, take, Bytes,
}

abbrev pub daemon_log_max_bytes : ℕ
daemon_log_max_bytes = 10485760

-- The variable of the environment, by its trimmed text read as a number: `none` where it is not set
-- or is empty, `some none` where it is no number.
unfoldable pub parse_log_max_bytes : Option (Option ℕ) → ℕ
parse_log_max_bytes none = daemon_log_max_bytes
parse_log_max_bytes (some none) = daemon_log_max_bytes
parse_log_max_bytes (some (some n)) = if ltb 0 n then n else daemon_log_max_bytes

-- The file at the path of the log, and the one at the path with `.1` appended.
pub record Disk : Type 0 where
  pub active : Option Bytes
  pub backup : Option Bytes

-- The variables of the loop: an open file is the one at the path of the log.
pub record Writer : Type 0 where
  pub disk : Disk
  pub file : Bool
  pub size : ℕ

-- `write_all`: an error may come after some of the bytes.
pub data Write : Type 0 where
  whole : Write
  partly : ℕ → Write

pub record Answers : Type 0 where
  pub opens : Bool
  pub metadata : Bool
  pub renames : Bool
  pub reopens : Bool
  pub write : Write

abbrev pub bytes_of : Option Bytes → Bytes
bytes_of none = []
bytes_of (some bytes) = bytes

-- The file is created where it does not exist.
unfoldable pub open_active : Bool → Disk → Option Disk
open_active true d = some (record d { active = some (bytes_of d.active) })
open_active false d = none

rename_to_backup : Option Bytes → Bool → Disk → Option Disk
rename_to_backup (some bytes) true d = some (record { active = none; backup = some bytes })
rename_to_backup _ _ d = none

opened : Writer → Option Disk → Bool → Writer
opened w none metadata = w
opened w (some d) metadata = record {
  disk = d;
  file = true;
  size = if metadata then length (bytes_of d.active) else 0;
}

unfoldable pub start : Answers → Disk → Writer
unfolding opened
start a d = opened (record { disk = d; file = false; size = 0 }) (open_active a.opens d) a.metadata

-- An earlier open may have failed.
unfoldable pub recover : Answers → Writer → Writer
unfolding opened
recover a w = if w.file then w else opened w (open_active a.opens w.disk) a.metadata

reopen : Disk → Option Disk → Writer
reopen d none = record { disk = d; file = false; size = 0 }
reopen d (some d') = record { disk = d'; file = true; size = 0 }

unfoldable pub rotated : Answers → Writer → Option Disk → Writer
unfolding reopen
rotated a w none = w
rotated a w (some d) = reopen d (open_active a.reopens d)

unfoldable pub rotate : ℕ → ℕ → Answers → Writer → Writer
unfolding rename_to_backup
rotate max_bytes n a w =
    if ltb 0 w.size && ltb max_bytes (w.size + n)
    then rotated a w (rename_to_backup w.disk.active a.renames w.disk)
    else w

append_to : Disk → Bytes → Disk
append_to d bytes = record d { active = some (bytes_of d.active ++ bytes) }

unfoldable pub written : Bytes → Write → Writer → Writer
unfolding append_to
written chunk whole w = record w { disk = append_to w.disk chunk; size = w.size + length chunk }
written chunk (partly k) w = record w { disk = append_to w.disk (take k chunk) }

unfoldable pub write_chunk : Bytes → Answers → Writer → Writer
write_chunk chunk a w = if w.file then written chunk a.write w else w

unfoldable pub round : ℕ → Bytes → Answers → Writer → Writer
round max_bytes chunk a w = write_chunk chunk a (rotate max_bytes (length chunk) a (recover a w))

-- `pipe.read`
pub data Read : Type 0 where
  eof interrupted broken : Read
  chunk : Bytes → Read

-- The loop; where the list ends it waits for the pipe.
unfoldable pub drain_to_capped_log : ℕ → List (Read × Answers) → Writer → Writer
drain_to_capped_log max_bytes [] w = w
drain_to_capped_log max_bytes ((eof, a) ∷ rounds) w = w
drain_to_capped_log max_bytes ((broken, a) ∷ rounds) w = w
drain_to_capped_log max_bytes ((interrupted, a) ∷ rounds) w = drain_to_capped_log max_bytes rounds w
drain_to_capped_log max_bytes ((chunk bytes, a) ∷ rounds) w =
    drain_to_capped_log max_bytes rounds (round max_bytes bytes a w)
