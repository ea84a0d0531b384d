-- ===== src/Offload/Segmentation/Checks.antt =====
-- src/tunnel/offload.rs: the checksums of a packet that `segment_tcp_gso_into` emits, as a receiver
-- tests them.
use ezvpn.Prelude.{
  ℕ, ◌+◌, ◌-◌, ◌*◌, ◌^◌, ◌≤◌, ◌<◌, ◌≡◌, refl, ap, subst, [], ◌∷◌, length, take, drop, slice, Bytes,
  to_be2, arith, length-drop, length-take,
}
use ezvpn.Offload.{done}
use ezvpn.Offload.Checksum.{add_bytes, fold_checksum, finalize_checksum}
use ezvpn.Offload.Fields.{put, pseudo_ipv4, pseudo_ipv6, tcp_checksum_ipv4, tcp_checksum_ipv6}
use ezvpn.Offload.Writes.{
  IsOctets, length-put, put-put, drop-put_behind, slice-put_before, put-IsOctets, drop-IsOctets,
  take-IsOctets, to_be2-IsOctets,
}
use ezvpn.Offload.Sums.{add_bytes_le, verifies_at}
use ezvpn.Offload.Segmentation.{Layout, with_tcp_checksum}
use ezvpn.Offload.Segmentation.Build.{checksum_of, checksum_done}

-- The sum of octets, from a start that is small enough.
pub sum_below :
    (start : ℕ) (p : Bytes)
    → IsOctets p
    → length p < 2 ^ 16
    → start < 2 ^ 31 - 2 ^ 20
    → add_bytes start p + 65535 < 2 ^ 32
sum_below start p octets short low = omega (arith, add_bytes_le start p octets (omega arith))

-- The field of the checksum, sixteen bytes into the TCP header.
tcp_field :
    (t start : ℕ) (p : Bytes)
    → IsOctets p
    → t + 18 ≤ length p
    → length p - t < 2 ^ 16
    → start < 2 ^ 31 - 2 ^ 20
    → fold_checksum (
        add_bytes start (
          drop t (
            put
              (t + 16)
              (to_be2 (finalize_checksum (add_bytes start (drop t (put (t + 16) (0 ∷ 0 ∷ []) p)))))
              (put (t + 16) (0 ∷ 0 ∷ []) p))))
      ≡ 65535
tcp_field t start p octets within short low =
    rw (drop-put_behind t 16 (t + 16) (0 ∷ 0 ∷ []) p refl) (
      rw
        (
          put-put (t + 16) (to_be2 c) (0 ∷ 0 ∷ []) p refl,
          drop-put_behind t 16 (t + 16) (to_be2 c) p refl,
        )
        (verifies_at 16 8 start tail refl (omega (arith, length-drop t p)) (omega arith) (
          sum_below start (put 16 (0 ∷ 0 ∷ []) tail)
            (put-IsOctets 16 (0 ∷ 0 ∷ []) tail (to_be2-IsOctets 0) (drop-IsOctets t p octets))
            (omega (arith, length-drop t p, length-put 16 (0 ∷ 0 ∷ []) tail)) low)))
  where
    tail : Bytes
    tail = drop t p

    c : ℕ
    c = finalize_checksum (add_bytes start (put 16 (0 ∷ 0 ∷ []) tail))

-- What a receiver of a TCP segment tests: the sum over the pseudo-header and the segment, its
-- checksum included, folds to all ones.
abbrev pub Tcp4Verifies : ℕ → Bytes → Type 0
Tcp4Verifies t p = fold_checksum (add_bytes (pseudo_ipv4 p (length p - t)) (drop t p)) ≡ 65535

abbrev pub Tcp6Verifies : ℕ → Bytes → Type 0
Tcp6Verifies t p = fold_checksum (add_bytes (pseudo_ipv6 p (length p - t)) (drop t p)) ≡ 65535

slice_sum :
    (start i j : ℕ) (p : Bytes)
    → IsOctets p
    → j - i ≤ 16
    → start < 2 ^ 20
    → 2 * add_bytes start (slice i j p) ≤ 2 * start + 65535 * 17
slice_sum start i j p octets short low =
    let len : length (slice i j p) ≤ 16 = omega (arith, length-take (j - i) (drop i p)) in
    omega (
      arith,
      len,
      add_bytes_le start (slice i j p) (take-IsOctets (j - i) (drop i p) (drop-IsOctets i p octets))
          (omega (arith, len)),
    )

pseudo_ipv4_lt : (p : Bytes) (n : ℕ) → IsOctets p → n < 2 ^ 16 → pseudo_ipv4 p n < 2 ^ 31 - 2 ^ 20
pseudo_ipv4_lt p n octets small =
    omega (arith, slice_sum 0 12 20 p octets (omega arith) (omega arith))

pseudo_ipv6_lt : (p : Bytes) (n : ℕ) → IsOctets p → n < 2 ^ 16 → pseudo_ipv6 p n < 2 ^ 31 - 2 ^ 20
pseudo_ipv6_lt p n octets small =
    let first = slice_sum 0 8 24 p octets (omega arith) (omega arith) in
    omega (
      arith,
      first,
      slice_sum (add_bytes 0 (slice 8 24 p)) 24 40 p octets (omega arith) (omega (arith, first)),
    )

tcp4_done :
    (p : Bytes) (t c : ℕ)
    → tcp_checksum_ipv4 p t ≡ done c
    → finalize_checksum (add_bytes (pseudo_ipv4 p (length p - t)) (drop t p)) ≡ c
unfolding tcp_checksum_ipv4
tcp4_done p t c made = ground (arith, made)

tcp6_done :
    (p : Bytes) (t c : ℕ)
    → tcp_checksum_ipv6 p t ≡ done c
    → finalize_checksum (add_bytes (pseudo_ipv6 p (length p - t)) (drop t p)) ≡ c
unfolding tcp_checksum_ipv6
tcp6_done p t c made = ground (arith, made)

cleared_at : ℕ → Bytes → Bytes
cleared_at t p = put (t + 16) (0 ∷ 0 ∷ []) p

cleared-IsOctets : (t : ℕ) (p : Bytes) → IsOctets p → IsOctets (cleared_at t p)
unfolding cleared_at
cleared-IsOctets t p octets = put-IsOctets (t + 16) (0 ∷ 0 ∷ []) p (to_be2-IsOctets 0) octets

length-cleared : (t : ℕ) (p : Bytes) → length (cleared_at t p) ≡ length p
unfolding cleared_at
length-cleared t p = length-put (t + 16) (0 ∷ 0 ∷ []) p

-- A checksum is behind what the pseudo-headers read.
pseudo_ipv4-put :
    (t : ℕ) (xs p : Bytes) (n m : ℕ)
    → 4 ≤ t
    → n ≡ m
    → pseudo_ipv4 (put (t + 16) xs p) n ≡ pseudo_ipv4 p m
pseudo_ipv4-put t xs p n m behind same =
    rw (slice-put_before 12 20 (t + 16) xs p (omega arith) (omega arith)) (ap (pseudo_ipv4 p) same)

pseudo_ipv6-put :
    (t : ℕ) (xs p : Bytes) (n m : ℕ)
    → 24 ≤ t
    → n ≡ m
    → pseudo_ipv6 (put (t + 16) xs p) n ≡ pseudo_ipv6 p m
pseudo_ipv6-put t xs p n m behind same =
    rw
      (
        slice-put_before 8 24 (t + 16) xs p (omega arith) (omega arith),
        slice-put_before 24 40 (t + 16) xs p (omega arith) (omega arith),
      )
      (ap (pseudo_ipv6 p) same)

-- With the checksum of the cleared segment in its field the segment verifies.
field_verifies :
    (t start start' c : ℕ) (p : Bytes)
    → IsOctets p
    → t + 20 ≤ length p
    → length p - t < 2 ^ 16
    → start < 2 ^ 31 - 2 ^ 20
    → finalize_checksum (add_bytes start (drop t (cleared_at t p))) ≡ c
    → start' ≡ start
    → fold_checksum (add_bytes start' (drop t (put (t + 16) (to_be2 c) (cleared_at t p)))) ≡ 65535
unfolding cleared_at
field_verifies t start start' c p octets within short low is same =
    rw (same, ← is) (tcp_field t start p octets (omega arith) short low)

pub tcp4_verifies :
    (l : Layout) (p q : Bytes)
    → l.version ≡ 4
    → IsOctets p
    → 4 ≤ l.tcp_offset
    → l.tcp_offset + 20 ≤ length p
    → length p - l.tcp_offset < 2 ^ 16
    → with_tcp_checksum l p ≡ done q
    → Tcp4Verifies l.tcp_offset q
unfolding checksum_of cleared_at
tcp4_verifies l p q four octets behind within short made =
    let t : ℕ = l.tcp_offset in
    let cleared : Bytes = cleared_at t p in
    let n : ℕ = length cleared - t in
    let len = length-cleared t p in
    let (c, gave, at) = checksum_done l p q made in
    subst (Tcp4Verifies t) at (
      field_verifies t (pseudo_ipv4 cleared n) _ c p octets within short
        (pseudo_ipv4_lt cleared n (cleared-IsOctets t p octets) (omega (arith, len)))
        (tcp4_done cleared t c (ground (arith, gave, four)))
        (pseudo_ipv4-put t (to_be2 c) cleared _ n behind
          (omega (arith, length-put (t + 16) (to_be2 c) cleared))))

pub tcp6_verifies :
    (l : Layout) (p q : Bytes)
    → l.version ≡ 6
    → IsOctets p
    → 24 ≤ l.tcp_offset
    → l.tcp_offset + 20 ≤ length p
    → length p - l.tcp_offset < 2 ^ 16
    → with_tcp_checksum l p ≡ done q
    → Tcp6Verifies l.tcp_offset q
unfolding checksum_of cleared_at
tcp6_verifies l p q six octets behind within short made =
    let t : ℕ = l.tcp_offset in
    let cleared : Bytes = cleared_at t p in
    let n : ℕ = length cleared - t in
    let len = length-cleared t p in
    let (c, gave, at) = checksum_done l p q made in
    subst (Tcp6Verifies t) at (
      field_verifies t (pseudo_ipv6 cleared n) _ c p octets within short
        (pseudo_ipv6_lt cleared n (cleared-IsOctets t p octets) (omega (arith, len)))
        (tcp6_done cleared t c (ground (arith, gave, six)))
        (pseudo_ipv6-put t (to_be2 c) cleared _ n behind
          (omega (arith, length-put (t + 16) (to_be2 c) cleared))))

-- The header of an IPv4 packet, with its checksum, folds to all ones.
abbrev pub HeaderVerifies : ℕ → Bytes → Type 0
HeaderVerifies ihl p = fold_checksum (add_bytes 0 (take ihl p)) ≡ 65535
