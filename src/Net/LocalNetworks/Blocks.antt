-- ===== src/Net/LocalNetworks/Blocks.antt =====
-- The prefixes of the crate ipnet: two that share an address are one in the other.
use ezvpn.Prelude.{
  ℕ, zero, suc, ◌+◌, ◌-◌, ◌*◌, ◌%◌, ◌^◌, ◌≤◌, ◌<◌, ◌≡◌, ◌⊎◌, inl, inr, subst, true, arith,
}
use Prim.Native.Nat.{◌∣◌}
use native.Mathlib.Nat.{
  dvd_trans, le_of_dvd, dvd_of_mod-eq-zero, dvd-sub, dvd_refl, dvd-mul_left_of_dvd, one-le-pow,
}
use native.Mathlib.Decide.{dec_le}
use ezvpn.IpNet.{IpNetOps, IsIpNet}

pow-dvd-pow : (k j l : ℕ) → j + k ≡ l → 2 ^ k ∣ 2 ^ l
pow-dvd-pow k zero l same =
    let here : k ≡ l = omega arith in subst (λ n. 2 ^ k ∣ 2 ^ n) here (dvd_refl (2 ^ k))
pow-dvd-pow k (suc j) zero same = absurd (omega arith)
pow-dvd-pow k (suc j) (suc l) same =
    let double : 2 * 2 ^ l ≡ 2 ^ suc l = omega arith in
    subst (λ n. 2 ^ k ∣ n) double (dvd-mul_left_of_dvd (2 ^ k) (pow-dvd-pow k j l (omega arith)) 2)

-- The smaller of two aligned blocks that share an address starts in the larger.
starts_in : (n m a k l : ℕ) → n % 2 ^ l ≡ 0 → m % 2 ^ k ≡ 0 → k ≤ l → n ≤ a → a < m + 2 ^ k → n ≤ m
starts_in n m a k l n_aligned m_aligned smaller low high = elim (dec_le n m) [
  | yes within ↦ within
  | no beyond ↦
      let n_block : 2 ^ k ∣ n =
        dvd_trans (2 ^ k) (pow-dvd-pow k (l - k) l (omega arith))
          (dvd_of_mod-eq-zero (2 ^ l) n_aligned) in
      let gap : 2 ^ k ≤ n - m =
        le_of_dvd (omega (arith, beyond))
          (dvd-sub (2 ^ k) n_block (dvd_of_mod-eq-zero (2 ^ k) m_aligned)) in
      absurd (omega (arith, gap, beyond))
]

module _ {Net : Type 0} (bits : ℕ) (ops : IpNetOps Net) (laws : IsIpNet bits ops) where
  larger_contains :
      (n m : Net) (a : ℕ)
      → ops.prefix_len n ≤ ops.prefix_len m
      → ops.contains n a ≡ true
      → ops.contains m a ≡ true
      → ops.contains n (ops.network m) ≡ true
  larger_contains n m a larger in_n in_m =
      let (n_low, n_high) = (laws.contains_iff n a).0 in_n in
      let (m_low, m_high) = (laws.contains_iff m a).0 in_m in
      let start =
        starts_in (ops.network n) (ops.network m) a (bits - ops.prefix_len m)
          (bits - ops.prefix_len n) (laws.aligned n) (laws.aligned m) (omega (arith, larger)) n_low
          (omega (arith, m_high, laws.block m)) in
      (laws.contains_iff n (ops.network m)).1 (start, omega (arith, m_low, n_high))

  -- Two prefixes that share an address: one contains the start of the other.
  pub share-contains :
      (n m : Net) (a : ℕ)
      → ops.contains n a ≡ true
      → ops.contains m a ≡ true
      → (ops.contains n (ops.network m) ≡ true) ⊎ (ops.contains m (ops.network n) ≡ true)
  share-contains n m a in_n in_m = elim (dec_le (ops.prefix_len n) (ops.prefix_len m)) [
    | yes larger ↦ inl (larger_contains n m a larger in_n in_m)
    | no smaller ↦ inr (larger_contains m n a (omega (arith, smaller)) in_m in_n)
  ]

  -- A prefix contains its own start.
  pub contains-network : (n : Net) → ops.contains n (ops.network n) ≡ true
  contains-network n = (laws.contains_iff n (ops.network n)).1 (
    omega arith,
    omega (arith, laws.block n, one-le-pow (bits - ops.prefix_len n) 2 (omega arith)),
  )
