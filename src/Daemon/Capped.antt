-- ===== src/Daemon/Capped.antt =====
-- src/main.rs: the log and its backup stay small.
use mathlib.Core.List.{append-nil}
use ezvpn.Prelude.{
  ℕ, ◌≤◌, ◌≡◌, refl, true, false, Option, none, some, List, [], ◌∷◌, length, length-append, Bytes,
  ap, All, arith, if_holds, ltb, ◌+◌, ◌&&◌, ◌<◌, Bool-cases, inl, inr,
}
use ezvpn.Daemon.{
  Disk, Writer, Answers, Write, whole, partly, Read, eof, interrupted, broken, chunk, bytes_of,
  open_active, rename_to_backup, opened, start, recover, reopen, rotated, rotate, append_to,
  written, write_chunk, round, drain_to_capped_log,
}

-- Bytes of one read.
abbrev pub chunk_max : ℕ
chunk_max = 16384

-- A write that fails writes nothing.
abbrev IsWhole : Write → Type 0
IsWhole whole = Unit
IsWhole (partly k) = k ≡ 0

abbrev pub IsCapped : Answers → Type 0
IsCapped a = (a.metadata ≡ true) × (a.renames ≡ true) × IsWhole a.write

abbrev IsSmall : Read → Type 0
IsSmall (chunk bytes) = length bytes ≤ chunk_max
IsSmall _ = Unit

-- Both files have at most `bound` bytes.
abbrev pub Fits : ℕ → Disk → Type 0
Fits bound d = (length (bytes_of d.active) ≤ bound) × (length (bytes_of d.backup) ≤ bound)

record Inv (bound : ℕ) (w : Writer) : Type 0 where
  fits : Fits bound w.disk
  exact : w.file ≡ true → w.size ≡ length (bytes_of w.disk.active)
  shut : w.file ≡ false → w.size ≡ 0

opened-Inv :
    (bound : ℕ) (w : Writer) (opens : _) (metadata : _)
    → metadata ≡ true
    → Inv bound w
    → Inv bound (opened w (open_active opens w.disk) metadata)
unfolding opened open_active
opened-Inv bound w true true m i = record { fits = i.fits; exact = λ e. refl; shut = λ e. cc }
opened-Inv bound w true false m i = cc
opened-Inv bound w false metadata m i = i

recover-Inv :
    (bound : ℕ) (a : Answers) (w : Writer)
    → a.metadata ≡ true
    → Inv bound w
    → Inv bound (recover a w)
unfolding recover
recover-Inv bound a w m i =
    if_holds (Inv bound) w.file w (opened w (open_active a.opens w.disk) a.metadata) (λ h. i)
      (λ h. opened-Inv bound w a.opens a.metadata m i)

-- What a rotation leaves for a chunk of `n` bytes.
abbrev Room : ℕ → ℕ → Writer → Type 0
Room bound n w = w.file ≡ true → w.size + n ≤ bound

reopen-Inv :
    (bound : ℕ) (reopens : _) (bytes : Bytes)
    → length bytes ≤ bound
    → let d : Disk = record { active = none; backup = some bytes } in
      Inv bound (reopen d (open_active reopens d)) × ((reopen d (open_active reopens d)).size ≡ 0)
unfolding reopen open_active
reopen-Inv bound true bytes h =
    (record { fits = (omega arith, h); exact = λ e. refl; shut = λ e. refl }, refl)
reopen-Inv bound false bytes h =
    (record { fits = (omega arith, h); exact = λ e. cc; shut = λ e. refl }, refl)

rotated-Inv :
    (bound n : ℕ) (a : Answers) (w : Writer) (active : Option Bytes) (renames : _)
    → active ≡ w.disk.active
    → renames ≡ true
    → n ≤ bound
    → 0 < w.size
    → Inv bound w
    → Inv bound (rotated a w (rename_to_backup active renames w.disk))
      × Room bound n (rotated a w (rename_to_backup active renames w.disk))
unfolding rotated rename_to_backup
rotated-Inv bound n a w (some bytes) true same r small held i =
    let (keeps, empty) =
      reopen-Inv bound a.reopens bytes (rw (ap (λ o. length (bytes_of o)) same) i.fits.0) in
    (keeps, λ e. omega (arith, empty))
rotated-Inv bound n a w (some bytes) false same r small held i = cc
rotated-Inv bound n a w none renames same r small held i = absurd (elim (Bool-cases w.file) [
  | inl e ↦ omega (arith, i.exact e, ap (λ o. length (bytes_of o)) same)
  | inr e ↦ omega (arith, i.shut e)
])

rotate-Inv :
    (bound max_bytes n : ℕ) (a : Answers) (w : Writer)
    → max_bytes ≤ bound
    → n ≤ bound
    → a.renames ≡ true
    → Inv bound w
    → Inv bound (rotate max_bytes n a w) × Room bound n (rotate max_bytes n a w)
unfolding rotate
rotate-Inv bound max_bytes n a w below small r i =
    if_holds (λ w'. Inv bound w' × Room bound n w') (ltb 0 w.size && ltb max_bytes (w.size + n))
      (rotated a w (rename_to_backup w.disk.active a.renames w.disk)) w
      (λ h. rotated-Inv bound n a w w.disk.active a.renames refl r small (ground arith) i)
      (λ h. (i, λ e. ground arith))

written-Inv :
    (bound : ℕ) (bytes : Bytes) (write : Write) (w : Writer)
    → IsWhole write
    → w.file ≡ true
    → w.size + length bytes ≤ bound
    → Inv bound w
    → Inv bound (written bytes write w)
unfolding written append_to
written-Inv bound bytes whole w c e room i = record {
  fits = (omega (arith, i.exact e, length-append (bytes_of w.disk.active) bytes), i.fits.1);
  exact = λ f. omega (arith, i.exact e, length-append (bytes_of w.disk.active) bytes);
  shut = λ f. cc;
}
written-Inv bound bytes (partly k) w c e room i =
    rw (c, append-nil (bytes_of w.disk.active))
      (record { fits = i.fits; exact = i.exact; shut = i.shut })

round-Inv :
    (bound max_bytes : ℕ) (bytes : Bytes) (a : Answers) (w : Writer)
    → max_bytes ≤ bound
    → length bytes ≤ bound
    → IsCapped a
    → Inv bound w
    → Inv bound (round max_bytes bytes a w)
unfolding round write_chunk
round-Inv bound max_bytes bytes a w below small c i =
    let w' : Writer = rotate max_bytes (length bytes) a (recover a w) in
    let (keeps, room) =
      rotate-Inv bound max_bytes (length bytes) a (recover a w) below small c.1
        (recover-Inv bound a w c.0 i) in
    if_holds (Inv bound) w'.file (written bytes a.write w') w'
      (λ e. written-Inv bound bytes a.write w' c.2 e (room e) keeps) (λ e. keeps)

drain-Inv :
    (bound max_bytes : ℕ) (rounds : List (Read × Answers)) (w : Writer)
    → max_bytes ≤ bound
    → chunk_max ≤ bound
    → All (λ r. IsSmall r.0 × IsCapped r.1) rounds
    → Inv bound w
    → Inv bound (drain_to_capped_log max_bytes rounds w)
unfolding drain_to_capped_log
drain-Inv bound max_bytes [] w below small c i = i
drain-Inv bound max_bytes ((eof, a) ∷ rounds) w below small c i = i
drain-Inv bound max_bytes ((broken, a) ∷ rounds) w below small c i = i
drain-Inv bound max_bytes ((interrupted, a) ∷ rounds) w below small c i =
    drain-Inv bound max_bytes rounds w below small c.1 i
drain-Inv bound max_bytes ((chunk bytes, a) ∷ rounds) w below small c i =
    drain-Inv bound max_bytes rounds (round max_bytes bytes a w) below small c.1
      (round-Inv bound max_bytes bytes a w below (omega (arith, c.0.0)) c.0.1 i)

-- Neither the log nor its backup ever exceeds a bound that is at least the configured size, the
-- size of a read and the two files at the start. Files may fail to open; they are measured and
-- renamed without an error, and a write that fails writes nothing.
pub drain-Fits :
    (bound max_bytes : ℕ) (first : Answers) (rounds : List (Read × Answers)) (d : Disk)
    → max_bytes ≤ bound
    → chunk_max ≤ bound
    → Fits bound d
    → IsCapped first
    → All (λ r. IsSmall r.0 × IsCapped r.1) rounds
    → Fits bound (drain_to_capped_log max_bytes rounds (start first d)).disk
unfolding start
drain-Fits bound max_bytes first rounds d below small fits f c =
    let shut_writer : Writer = record { disk = d; file = false; size = 0 } in
    (drain-Inv bound max_bytes rounds (start first d) below small c (
      opened-Inv bound shut_writer first.opens first.metadata f.0
        record { fits = fits; exact = λ e. cc; shut = λ e. refl })).fits
