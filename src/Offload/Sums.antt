-- ===== src/Offload/Sums.antt =====
-- src/tunnel/offload.rs: sums of bytes, and the effect of a checksum that is written into them.
use ezvpn.Prelude.{
  ℕ, zero, suc, ◌+◌, ◌*◌, ◌/◌, ◌%◌, ◌^◌, ◌≤◌, ◌<◌, ◌≡◌, ◌∙◌, ap, [], ◌∷◌, length, Bytes, be16,
  to_be2, arith,
}
use ezvpn.Offload.Fields.{put}
use ezvpn.Offload.Checksum.{add_bytes, fold_checksum, finalize_checksum, checksum_verifies}
use ezvpn.Offload.Writes.{IsOctets}

-- What is added at the start shows at the end.
pub add_bytes-add :
    (sum x : ℕ) (p : Bytes)
    → add_bytes ((sum + x) % 2 ^ 32) p ≡ (add_bytes (sum % 2 ^ 32) p + x) % 2 ^ 32
unfolding add_bytes
add_bytes-add sum x [] = omega arith
add_bytes-add sum x (b ∷ []) = omega arith
add_bytes-add sum x (hi ∷ lo ∷ p) =
    ap (λ s. add_bytes s p) (omega arith)
    ∙ add_bytes-add (sum + be16 hi lo) x p
    ∙ ap (λ s. (add_bytes s p + x) % 2 ^ 32) (omega arith)

-- The sum of a packet of octets is below 2 ^ 32 while the packet is short.
pub add_bytes_le :
    (sum : ℕ) (p : Bytes)
    → IsOctets p
    → 2 * sum + 65535 * (length p + 1) < 2 ^ 33
    → 2 * add_bytes sum p ≤ 2 * sum + 65535 * (length p + 1)
unfolding add_bytes
add_bytes_le sum [] octets small = omega arith
add_bytes_le sum (b ∷ []) octets small = omega (arith, octets.0)
add_bytes_le sum (hi ∷ lo ∷ p) octets small = omega (
  arith,
  octets.0,
  octets.1.0,
  add_bytes_le ((sum + be16 hi lo) % 2 ^ 32) p octets.1.1 (omega (arith, octets.0, octets.1.0)),
)

abbrev pub twice : ℕ → ℕ
twice zero = zero
twice (suc k) = suc (suc (twice k))

-- Two bytes at an even place add to the sum what their place, cleared, leaves out.
pub add_bytes-put :
    (k sum hi lo : ℕ) (p : Bytes)
    → twice k + 2 ≤ length p
    → add_bytes (sum % 2 ^ 32) (put (twice k) (hi ∷ lo ∷ []) p)
      ≡ (add_bytes (sum % 2 ^ 32) (put (twice k) (0 ∷ 0 ∷ []) p) + be16 hi lo) % 2 ^ 32
unfolding add_bytes
add_bytes-put zero sum hi lo [] h = absurd (omega arith)
add_bytes-put zero sum hi lo (b ∷ []) h = absurd (omega arith)
add_bytes-put zero sum hi lo (b ∷ c ∷ []) h = omega arith
add_bytes-put zero sum hi lo (b ∷ c ∷ d ∷ p) h =
    ap (λ s. add_bytes s (d ∷ p)) (omega arith)
    ∙ add_bytes-add sum (be16 hi lo) (d ∷ p)
    ∙ ap (λ s. (add_bytes s (d ∷ p) + be16 hi lo) % 2 ^ 32) (omega arith)
add_bytes-put (suc k) sum hi lo [] h = absurd (omega arith)
add_bytes-put (suc k) sum hi lo (b ∷ []) h = absurd (omega arith)
add_bytes-put (suc k) sum hi lo (b ∷ c ∷ p) h =
    ap (λ s. add_bytes s (put (twice k) (hi ∷ lo ∷ []) p)) (omega arith)
    ∙ add_bytes-put k (sum + be16 b c) hi lo p (omega arith)
    ∙ ap (λ s. (add_bytes s (put (twice k) (0 ∷ 0 ∷ []) p) + be16 hi lo) % 2 ^ 32) (omega arith)

pub finalize_lt : (sum : ℕ) → finalize_checksum sum < 65536
unfolding finalize_checksum
finalize_lt sum = omega arith

-- With the checksum of the cleared bytes at its place, the bytes fold to all ones.
verifies :
    (k sum : ℕ) (p : Bytes)
    → twice k + 2 ≤ length p
    → sum < 2 ^ 32
    → add_bytes sum (put (twice k) (0 ∷ 0 ∷ []) p) + 65535 < 2 ^ 32
    → fold_checksum (
        add_bytes sum (
          put
            (twice k)
            (to_be2 (finalize_checksum (add_bytes sum (put (twice k) (0 ∷ 0 ∷ []) p))))
            p))
      ≡ 65535
verifies k sum p h small below =
    ap fold_checksum (
      ap (λ s. add_bytes s (put (twice k) (to_be2 c) p)) (omega arith)
      ∙ add_bytes-put k sum (c / 256 % 256) (c % 256) p h
      ∙ ap (λ s. (add_bytes s cleared + be16 (c / 256 % 256) (c % 256)) % 2 ^ 32) start
      ∙ whole)
    ∙ checksum_verifies (add_bytes sum cleared) below
  where
    cleared : Bytes
    cleared = put (twice k) (0 ∷ 0 ∷ []) p

    c : ℕ
    c = finalize_checksum (add_bytes sum cleared)

    c_lt : c < 65536
    c_lt = finalize_lt (add_bytes sum cleared)

    start : sum % 2 ^ 32 ≡ sum
    start = omega arith

    whole :
        (add_bytes sum cleared + be16 (c / 256 % 256) (c % 256)) % 2 ^ 32
        ≡ add_bytes sum cleared + finalize_checksum (add_bytes sum cleared)
    whole = omega (arith, c_lt)

-- At a place that is even.
pub verifies_at :
    (i k sum : ℕ) (p : Bytes)
    → twice k ≡ i
    → i + 2 ≤ length p
    → sum < 2 ^ 32
    → add_bytes sum (put i (0 ∷ 0 ∷ []) p) + 65535 < 2 ^ 32
    → fold_checksum (
        add_bytes sum (put i (to_be2 (finalize_checksum (add_bytes sum (put i (0 ∷ 0 ∷ []) p)))) p))
      ≡ 65535
verifies_at i k sum p same = rw (← same) (verifies k sum p)
