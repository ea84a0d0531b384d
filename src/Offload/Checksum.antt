-- ===== src/Offload/Checksum.antt =====
-- src/tunnel/offload.rs: the internet checksum.
use ezvpn.Prelude.{
  ℕ, zero, suc, ◌+◌, ◌-◌, ◌/◌, ◌%◌, ◌^◌, ◌≤◌, ◌<◌, ◌≡◌, ◌⊎◌, refl, subst, [], ◌∷◌, nat_eq,
  if◌then◌else◌, Bytes, be16, arith, inl, inr,
}

-- The sum of the 16-bit words in a `u32`, the last byte padded with a zero.
unfoldable pub add_bytes : ℕ → Bytes → ℕ
add_bytes sum [] = sum
add_bytes sum (last ∷ []) = (sum + be16 last 0) % 2 ^ 32
add_bytes sum (hi ∷ lo ∷ rest) = add_bytes ((sum + be16 hi lo) % 2 ^ 32) rest

-- The loop adds the upper half to the lower until there is none; three rounds do.
fold_rounds : ℕ → ℕ → ℕ
fold_rounds zero sum = sum
fold_rounds (suc fuel) sum =
    let rest : ℕ = fold_rounds fuel (sum % 65536 + sum / 65536) in
    if nat_eq (sum / 65536) 0 then sum else rest

unfoldable pub fold_checksum : ℕ → ℕ
unfolding fold_rounds
fold_checksum sum = fold_rounds 3 sum % 65536

unfoldable pub finalize_checksum : ℕ → ℕ
finalize_checksum sum = 65535 - fold_checksum sum

round_lem :
    (fuel sum : ℕ)
    → (fold_rounds (suc fuel) sum ≡ sum × sum < 65536)
      ⊎ (fold_rounds (suc fuel) sum ≡ fold_rounds fuel (sum % 65536 + sum / 65536) × 65536 ≤ sum)
unfolding fold_rounds
round_lem fuel sum = ground arith

-- A folded sum: 16 bits that differ from the sum by a multiple of 65535.
abbrev Folds : ℕ → ℕ → Type 0
Folds r sum = (r < 65536) × (r % 65535 ≡ sum % 65535) × (r ≡ 0 → sum ≡ 0) × (sum ≡ 0 → r ≡ 0)

Folds-trans : (r sum : ℕ) → 65536 ≤ sum → Folds r (sum % 65536 + sum / 65536) → Folds r sum
Folds-trans r sum large (a, b, c, d) =
    (a, omega (arith, b), λ z. absurd (omega (arith, c z)), λ z. absurd (omega arith))

round-Folds :
    (fuel sum : ℕ)
    → (65536 ≤ sum
        → Folds (fold_rounds fuel (sum % 65536 + sum / 65536)) (sum % 65536 + sum / 65536))
    → Folds (fold_rounds (suc fuel) sum) sum
round-Folds fuel sum next = elim (round_lem fuel sum) [
  | inl (same, small) ↦ rw same (small, refl, λ z. z, λ z. z)
  | inr (go, large) ↦
      rw go (Folds-trans (fold_rounds fuel (sum % 65536 + sum / 65536)) sum large (next large))
]

three-Folds : (sum : ℕ) → sum < 2 ^ 32 → Folds (fold_rounds 3 sum) sum
unfolding fold_rounds
three-Folds sum small = round-Folds 2 sum (λ l.
    round-Folds 1 (sum % 65536 + sum / 65536)
      (λ l'. round-Folds 0 (again (sum % 65536 + sum / 65536)) (λ l''. absurd (omega arith))))
  where
    again : ℕ → ℕ
    again t = t % 65536 + t / 65536

-- A sum folds, in the rounds of the model, to 16 bits that differ from it by a multiple of 65535.
pub fold_checksum_lem : (sum : ℕ) → sum < 2 ^ 32 → Folds (fold_checksum sum) sum
unfolding fold_checksum
fold_checksum_lem sum small =
    let t = three-Folds sum small in subst (λ (r : ℕ). Folds r sum) (omega (arith, t.0)) t

-- With the checksum added a sum folds to all ones, which is what a receiver tests, if it stays
-- below 2 ^ 32.
pub checksum_verifies :
    (sum : ℕ) → sum + 65535 < 2 ^ 32 → fold_checksum (sum + finalize_checksum sum) ≡ 65535
unfolding finalize_checksum
checksum_verifies sum small =
    let (a, b, c, d) = fold_checksum_lem sum (omega arith) in
    let (a', b', c', d') = fold_checksum_lem (sum + (65535 - fold_checksum sum)) (omega arith) in
    ground (arith, a, b, c, d, a', b', c')
