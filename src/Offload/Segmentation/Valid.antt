-- ===== src/Offload/Segmentation/Valid.antt =====
-- src/tunnel/offload.rs: the packets that `segment_tcp_gso_into` emits, as a receiver takes them.
use ezvpn.Prelude.{
  ℕ, ◌+◌, ◌-◌, ◌*◌, ◌%◌, ◌^◌, ◌≤◌, ◌<◌, ◌≡◌, refl, ◌∙◌, [], ◌∷◌, length, take, slice, Bytes, to_be2,
  arith, length-take,
}
use ezvpn.Packet.{byte}
use ezvpn.Offload.{done}
use ezvpn.Offload.Checksum.{add_bytes, finalize_checksum}
use ezvpn.Offload.Fields.{put, with_header_checksum}
use ezvpn.Offload.Writes.{
  IsOctets, length-put, put-put, slice-put_before, put-IsOctets, take-IsOctets, take-put,
  take-put_within, to_be2-IsOctets,
}
use ezvpn.Offload.Sums.{verifies_at}
use ezvpn.Offload.Segmentation.{Layout, with_tcp_checksum}
use ezvpn.Offload.Segmentation.Build.{checksum_done}
use ezvpn.Offload.Segmentation.Checks.{sum_below, Tcp4Verifies, Tcp6Verifies, HeaderVerifies}

-- The checksum of the header leaves what stands before it.
pub header_checksum-slice :
    (ihl a j : ℕ) (p : Bytes)
    → a ≤ j
    → j ≤ 10
    → slice a j (with_header_checksum ihl p) ≡ slice a j p
header_checksum-slice ihl a j p h k =
    slice-put_before a j 10 _ (put 10 (0 ∷ 0 ∷ []) p) h k
    ∙ slice-put_before a j 10 (0 ∷ 0 ∷ []) p h k

-- A header with its checksum verifies.
pub header_verifies :
    (ihl : ℕ) (p : Bytes)
    → IsOctets p
    → 20 ≤ ihl
    → ihl ≤ length p
    → ihl < 2 ^ 16
    → HeaderVerifies ihl (with_header_checksum ihl p)
header_verifies ihl p octets long within short = rw (take-put_within ihl 10 (0 ∷ 0 ∷ []) p) (
    rw (put-put 10 (to_be2 c) (0 ∷ 0 ∷ []) p refl, take-put_within ihl 10 (to_be2 c) p)
      (verifies_at 10 5 0 head refl (omega (arith, len)) (omega arith) (
        sum_below 0 (put 10 (0 ∷ 0 ∷ []) head)
          (put-IsOctets 10 (0 ∷ 0 ∷ []) head (to_be2-IsOctets 0) (take-IsOctets ihl p octets))
          (omega (arith, len, length-put 10 (0 ∷ 0 ∷ []) head)) (omega arith))))
  where
    head : Bytes
    head = take ihl p

    c : ℕ
    c = finalize_checksum (add_bytes 0 (put 10 (0 ∷ 0 ∷ []) head))

    len : length head ≡ ihl
    len = omega (arith, length-take ihl p)

-- What stands before the checksum of the TCP header is left by it.
pub checksum-take :
    (l : Layout) (p q : Bytes) (n : ℕ)
    → n ≤ l.tcp_offset + 16
    → with_tcp_checksum l p ≡ done q
    → take n q ≡ take n p
checksum-take l p q n before made =
    let (c, gave, at) = checksum_done l p q made in
    rw (← at) (
      take-put n (l.tcp_offset + 16) (to_be2 c) (put (l.tcp_offset + 16) (0 ∷ 0 ∷ []) p) before
      ∙ take-put n (l.tcp_offset + 16) (0 ∷ 0 ∷ []) p before)

pub checksum-slice :
    (l : Layout) (p q : Bytes) (a j : ℕ)
    → a ≤ j
    → j ≤ l.tcp_offset + 16
    → with_tcp_checksum l p ≡ done q
    → slice a j q ≡ slice a j p
checksum-slice l p q a j h before made =
    let (c, gave, at) = checksum_done l p q made in
    rw (← at) (
      slice-put_before a j (l.tcp_offset + 16) (to_be2 c) (put (l.tcp_offset + 16) (0 ∷ 0 ∷ []) p) h
        before
      ∙ slice-put_before a j (l.tcp_offset + 16) (0 ∷ 0 ∷ []) p h before)

-- An IPv4 packet that says its length, and whose two checksums verify.
pub record IsValid4 (t : ℕ) (p : Bytes) : Type 0 where
  pub total_len : slice 2 4 p ≡ to_be2 (length p)
  pub length_lt : length p < 2 ^ 16
  pub header : HeaderVerifies (byte p 0 % 16 * 4) p
  pub segment : Tcp4Verifies t p

-- An IPv6 packet that says its length, and whose checksum verifies.
pub record IsValid6 (t : ℕ) (p : Bytes) : Type 0 where
  pub payload_len : slice 4 6 p ≡ to_be2 (length p - 40)
  pub payload_lt : length p - 40 < 2 ^ 16
  pub segment : Tcp6Verifies t p
