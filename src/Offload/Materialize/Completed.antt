-- ===== src/Offload/Materialize/Completed.antt =====
-- src/tunnel/offload.rs: a checksum that `materialize_offload_into` completes.
use ezvpn.Prelude.{
  ℕ, ◌+◌, ◌-◌, ◌/◌, ◌%◌, ◌^◌, ◌≤◌, ◌<◌, ◌≡◌, refl, sym, ◌∙◌, ap, some, [], ◌∷◌, length, take, drop,
  slice, Bytes, be16, to_be2, arith, length-drop, false, not, nat_eq,
}
use ezvpn.Offload.{done, VirtioNetHdr, is_tcp_gso, normalized_gso_type}
use ezvpn.Offload.Checksum.{add_bytes, fold_checksum, finalize_checksum, fold_checksum_lem}
use ezvpn.Offload.Fields.{put}
use ezvpn.Offload.Writes.{
  IsOctets, length-put, drop-put_behind, put-slice, put-IsOctets, drop-IsOctets, to_be2-IsOctets,
}
use ezvpn.Offload.Sums.{add_bytes_le, add_bytes-add, add_bytes-put, twice, finalize_lt}
use ezvpn.Offload.Segmentation.{complete_checksum}
use ezvpn.Offload.Segmentation.Payload.{drop-drop}
use ezvpn.Offload.Materialize.{
  validate_checksum_offload, materialize_checked, materialize_offload_into,
  materialize_offload_packet,
}

-- A sum that is zero but for a multiple of 65535 folds to all ones, if it is not zero.
folds_to_ones :
    (x w part : ℕ)
    → x + w + 131070 < 2 ^ 32
    → fold_checksum w ≡ part
    → fold_checksum (x + w + finalize_checksum (x + part)) ≡ 65535
unfolding finalize_checksum
folds_to_ones x w part small is =
    let (a, b, c, d) = fold_checksum_lem w (omega arith) in
    let (a1, b1, c1, d1) = fold_checksum_lem (x + part) (omega (arith, is, a)) in
    let (a2, b2, c2, d2) =
      fold_checksum_lem (x + w + (65535 - fold_checksum (x + part))) (omega arith) in
    ground (arith, is, a, b, c, d, a1, b1, c1, d1, a2, b2, c2)

-- What is written at an even place shows in the sum, from any start.
sum_with :
    (k w n : ℕ) (p : Bytes)
    → twice k + 2 ≤ length p
    → n < 2 ^ 16
    → w < 2 ^ 20
    → add_bytes 0 (put (twice k) (0 ∷ 0 ∷ []) p) + 2 ^ 21 < 2 ^ 32
    → add_bytes w (put (twice k) (to_be2 n) p) ≡ add_bytes 0 (put (twice k) (0 ∷ 0 ∷ []) p) + w + n
sum_with k w n p fits small low below =
    let cleared : Bytes = put (twice k) (0 ∷ 0 ∷ []) p in
    let start : w % 2 ^ 32 ≡ w = omega arith in
    let moved : add_bytes w cleared ≡ add_bytes 0 cleared + w =
      ap (λ s. add_bytes s cleared) (omega arith)
      ∙ add_bytes-add 0 w cleared
      ∙ omega (arith, below) in
    ap (λ s. add_bytes s (put (twice k) (to_be2 n) p)) (sym start)
    ∙ add_bytes-put k w (n / 256 % 256) (n % 256) p fits
    ∙ ap (λ s. (add_bytes s cleared + be16 (n / 256 % 256) (n % 256)) % 2 ^ 32) start
    ∙ omega (arith, moved, below)

-- Bytes with a partial sum at an even place, which is then completed.
completed :
    (k w part : ℕ) (p : Bytes)
    → twice k + 2 ≤ length p
    → IsOctets p
    → length p < 2 ^ 16
    → w < 2 ^ 20
    → fold_checksum w ≡ part
    → slice (twice k) (twice k + 2) p ≡ to_be2 part
    → fold_checksum (add_bytes w (put (twice k) (to_be2 (finalize_checksum (add_bytes 0 p))) p))
      ≡ 65535
completed k w part p fits octets short low is holds =
    let cleared : Bytes = put (twice k) (0 ∷ 0 ∷ []) p in
    let (part_lt, b, c, d) = fold_checksum_lem w (omega arith) in
    let len = length-put (twice k) (0 ∷ 0 ∷ []) p in
    let below : add_bytes 0 cleared + 2 ^ 21 < 2 ^ 32 = omega (
      arith,
      short,
      len,
      add_bytes_le 0 cleared (put-IsOctets (twice k) (0 ∷ 0 ∷ []) p (to_be2-IsOctets 0) octets)
          (omega (arith, short, len)),
    ) in
    let same : put (twice k) (to_be2 part) p ≡ p =
      ap (λ xs. put (twice k) xs p) (sym holds) ∙ put-slice (twice k) (twice k + 2) p in
    let whole : add_bytes 0 p ≡ add_bytes 0 cleared + part =
      ap (add_bytes 0) (sym same)
      ∙ sum_with k 0 part p fits (omega (arith, is, part_lt)) (omega arith) below
      ∙ omega arith in
    ap fold_checksum (
      sum_with k w _ p fits (finalize_lt (add_bytes 0 p)) low below
      ∙ ap (λ s. add_bytes 0 cleared + w + finalize_checksum s) whole)
    ∙ folds_to_ones (add_bytes 0 cleared) w part (omega (arith, below, low)) is

abbrev Completion : VirtioNetHdr → Bytes → ℕ → ℕ → Type 0
Completion offload packet start index =
    (is_tcp_gso offload ≡ false)
    × (offload.gso_type ≡ 0)
    × (start + offload.csum_offset ≡ index)
    × (index + 2 ≤ length packet)

validated :
    (offload : VirtioNetHdr) (packet : Bytes) (start index : ℕ)
    → validate_checksum_offload offload packet ≡ done (some (start, index))
    → Completion offload packet start index
unfolding validate_checksum_offload is_tcp_gso normalized_gso_type
validated offload packet start index made = ground (arith, made)

-- The slice of a tail.
tail_slice :
    (start i : ℕ) (p : Bytes) → slice i (i + 2) (drop start p) ≡ slice (start + i) (start + i + 2) p
tail_slice start i p =
    ap (take (i + 2 - i)) (drop-drop start i (start + i) p refl)
    ∙ ap (λ n. take n (drop (start + i) p)) (omega arith)

-- A packet whose checksum is to be completed, and whose field, at an even place, holds the folded sum
-- of a pseudo-header, becomes one packet, as long, whose checksum a receiver verifies with that
-- pseudo-header.
pub materialize-verifies :
    (offload : VirtioNetHdr) (packet : Bytes) (start index k pseudo : ℕ)
    → validate_checksum_offload offload packet ≡ done (some (start, index))
    → twice k ≡ offload.csum_offset
    → IsOctets packet
    → length packet < 2 ^ 16
    → pseudo < 2 ^ 20
    → slice index (index + 2) packet ≡ to_be2 (fold_checksum pseudo)
    → (out : Bytes) × (materialize_offload_packet offload packet ≡ done (out ∷ []))
      × (length out ≡ length packet)
      × (fold_checksum (add_bytes pseudo (drop start out)) ≡ 65535)
unfolding materialize_offload_packet materialize_offload_into materialize_checked complete_checksum
materialize-verifies offload packet start index k pseudo valid even octets short low holds =
    let (plain, none_type, at, fits) = validated offload packet start index valid in
    let tail : Bytes = drop start packet in
    let place : start + twice k ≡ index = omega (arith, even, at) in
    let other : not (nat_eq offload.gso_type 0) ≡ false = ground (arith, none_type) in
    let len = length-drop start packet in
    let c : Bytes = to_be2 (finalize_checksum (add_bytes 0 tail)) in
    (
      complete_checksum start index packet,
      rw plain (rw other (rw (valid, materialize_checked) refl)),
      length-put index c packet,
      ap (λ p. fold_checksum (add_bytes pseudo p))
            (drop-put_behind start (twice k) index c packet place)
          ∙ completed k pseudo (fold_checksum pseudo) tail (omega (arith, place, fits, len))
              (drop-IsOctets start packet octets) (omega (arith, len)) low refl
              (tail_slice start (twice k) packet ∙ ap (λ i. slice i (i + 2) packet) place ∙ holds),
    )
