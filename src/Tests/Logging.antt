-- ===== src/Tests/Logging.antt =====
-- The log of the daemon, at concrete values.
use ezvpn.Prelude.{◌≡◌, refl, true, false, none, some, List, [], ◌∷◌, ◌++◌, arith}
use ezvpn.Daemon.{
  Disk, Answers, whole, Read, eof, interrupted, chunk, start, recover, open_active, rotate, rotated,
  written, write_chunk, round, drain_to_capped_log,
}
use ezvpn.Daemon.Capped.{Fits, drain-Fits}
use ezvpn.Daemon.Kept.{Keeps, works, answered, contents, output, drain-output}

-- A log of two bytes, and a file that does not open again after its rotation.
abbrev full : Disk
full = record { active = some (1 ∷ 2 ∷ []); backup = none }

abbrev unopened : Answers
unopened = record { opens = true; metadata = true; renames = true; reopens = false; write = whole }

abbrev rounds : List (Read × Answers)
rounds =
    (chunk (3 ∷ 4 ∷ []), unopened)
    ∷ (interrupted, works)
    ∷ (chunk (5 ∷ []), works)
    ∷ (eof, works)
    ∷ []

drain-Fits_example : Fits 16384 (drain_to_capped_log 3 rounds (start works full)).disk
drain-Fits_example =
    drain-Fits 16384 3 works rounds full (omega arith) (omega arith) (omega arith) (refl, refl, tt)
      (
        (omega arith, (refl, refl, tt)),
        ((tt, (refl, refl, tt)), ((omega arith, (refl, refl, tt)), ((tt, (refl, refl, tt)), tt))),
      )

drained : drain_to_capped_log 3 rounds (start works full) ≡ record {
  disk = record { active = some (5 ∷ []); backup = some (1 ∷ 2 ∷ []) };
  file = true;
  size = 1;
}
unfolding drain_to_capped_log start round recover rotate rotated written write_chunk open_active
drained = refl

abbrev reads : List Read
reads = chunk (3 ∷ 4 ∷ []) ∷ chunk (5 ∷ []) ∷ eof ∷ chunk (6 ∷ []) ∷ []

drain-output_example :
    Keeps 3
      (contents full ++ output reads)
      (drain_to_capped_log 3 (answered reads) (start works full)).disk
drain-output_example = drain-output 3 reads full
