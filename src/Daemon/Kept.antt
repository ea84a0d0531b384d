-- ===== src/Daemon/Kept.antt =====
-- src/main.rs: what the log and its backup hold of the output of the daemon.
use mathlib.Core.List.{append_assoc, append-nil}
use ezvpn.Prelude.{
  ℕ, ◌+◌, ◌<◌, ◌≡◌, ◌⊎◌, refl, sym, subst, ap, true, ◌&&◌, Option, some, List, [], ◌∷◌, ◌++◌,
  length, length-append, Bytes, arith, Bool-cases, inl, inr, ltb,
}
use ezvpn.Daemon.{
  Disk, Writer, Answers, whole, Read, eof, interrupted, broken, chunk, bytes_of, open_active,
  rename_to_backup, opened, start, recover, reopen, rotated, rotate, append_to, written,
  write_chunk, round, drain_to_capped_log,
}

abbrev pub works : Answers
works = record { opens = true; metadata = true; renames = true; reopens = true; write = whole }

-- The older file, and then the newer.
abbrev pub contents : Disk → Bytes
contents d = bytes_of d.backup ++ bytes_of d.active

-- What the daemon wrote, by the reads up to the end of the pipe.
abbrev pub output : List Read → Bytes
output [] = []
output (eof ∷ reads) = []
output (broken ∷ reads) = []
output (interrupted ∷ reads) = output reads
output (chunk bytes ∷ reads) = bytes ++ output reads

abbrev pub answered : List Read → List (Read × Answers)
answered [] = []
answered (read ∷ reads) = (read, works) ∷ answered reads

abbrev fresh : Bytes → Option Bytes → ℕ → Writer
fresh bytes backup size = record {
  disk = record { active = some bytes; backup = backup };
  file = true;
  size = size;
}

-- The writer with an open file that has these bytes, behind a backup.
abbrev writer : Option Bytes → Bytes → Writer
writer backup bytes = fresh bytes backup (length bytes)

-- A round appends to the file, or makes it the backup, and starts with the chunk.
round-writer :
    (max_bytes : ℕ) (backup : Option Bytes) (bytes more : Bytes)
    → (round max_bytes more works (writer backup bytes) ≡ writer backup (bytes ++ more))
      ⊎ ((max_bytes < length bytes + length more)
          × (round max_bytes more works (writer backup bytes) ≡ writer (some bytes) more))
unfolding round recover rotate rotated rename_to_backup reopen open_active write_chunk written
    append_to
round-writer max_bytes backup bytes more =
    elim (Bool-cases (ltb 0 (length bytes) && ltb max_bytes (length bytes + length more))) [
      | inr stays ↦ inl (rw (stays, length-append bytes more) refl)
      | inl over ↦ inr (ground arith, rw over (ap (fresh more (some bytes)) (omega arith)))
    ]

-- Of a text, the end is kept: all of it, or more than so many bytes.
abbrev pub Keeps : ℕ → Bytes → Disk → Type 0
Keeps max_bytes text d =
    (lost : Bytes) × (lost ++ contents d ≡ text) × ((lost ≡ []) ⊎ (max_bytes < length (contents d)))

drain-Keeps :
    (max_bytes : ℕ) (reads : List Read) (backup : Option Bytes) (bytes text : Bytes)
    → Keeps max_bytes text (writer backup bytes).disk
    → Keeps max_bytes
        (text ++ output reads)
        (drain_to_capped_log max_bytes (answered reads) (writer backup bytes)).disk
unfolding drain_to_capped_log
drain-Keeps max_bytes [] backup bytes text k = rw (append-nil text) k
drain-Keeps max_bytes (eof ∷ reads) backup bytes text k = rw (append-nil text) k
drain-Keeps max_bytes (broken ∷ reads) backup bytes text k = rw (append-nil text) k
drain-Keeps max_bytes (interrupted ∷ reads) backup bytes text k =
    drain-Keeps max_bytes reads backup bytes text k
drain-Keeps max_bytes (chunk more ∷ reads) backup bytes text (lost, kept, cause) =
    let after : Writer → Type 0 = λ w.
      Keeps max_bytes (text ++ (more ++ output reads))
        (drain_to_capped_log max_bytes (answered reads) w).disk in
    elim (round-writer max_bytes backup bytes more) [
      | inl appended ↦ subst after (sym appended) (
          rw (← append_assoc text more (output reads)) (
            drain-Keeps max_bytes reads backup (bytes ++ more) (text ++ more)
              (lost, rw (← kept) (simp append_assoc), grows cause)))
      | inr (over, renamed) ↦ subst after (sym renamed) (
          rw (← append_assoc text more (output reads)) (
            drain-Keeps max_bytes reads (some bytes) more (text ++ more) (
              lost ++ bytes_of backup,
              rw (← kept) (simp append_assoc),
              inr (omega (arith, length-append bytes more)),
            )))
    ]
  where
    grows :
        (lost ≡ []) ⊎ (max_bytes < length (bytes_of backup ++ bytes))
        → (lost ≡ []) ⊎ (max_bytes < length (bytes_of backup ++ (bytes ++ more)))
    grows (inl none_lost) = inl none_lost
    grows (inr enough) = inr (
        omega (
          arith,
          enough,
          length-append (bytes_of backup) bytes,
          length-append (bytes_of backup) (bytes ++ more),
          length-append bytes more,
        ))

-- Where every call of the file system succeeds, the backup and the log hold, in this order, the end
-- of what the backup, the log and the output of the daemon come to: all of it, or more than the
-- configured size.
pub drain-output :
    (max_bytes : ℕ) (reads : List Read) (d : Disk)
    → Keeps max_bytes
        (contents d ++ output reads)
        (drain_to_capped_log max_bytes (answered reads) (start works d)).disk
unfolding start opened open_active
drain-output max_bytes reads d =
    drain-Keeps max_bytes reads d.backup (bytes_of d.active) (contents d) ([], refl, inl refl)
