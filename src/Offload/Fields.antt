-- ===== src/Offload/Fields.antt =====
-- src/tunnel/offload.rs: rewriting the fields of a packet in place: lengths and checksums.
use ezvpn.Prelude.{
  ℕ, zero, suc, ◌≡◌, refl, ◌+◌, ◌-◌, ◌*◌, ◌/◌, ◌%◌, ◌^◌, Bool, true, false, not, ◌||◌, [], ◌∷◌,
  nat_eq, ltb, leb, if◌then◌else◌, length, take, drop, slice, Bytes, to_be2,
}
use ezvpn.Packet.{byte}
use ezvpn.Offload.{Outcome, done, failed}
use ezvpn.Offload.Checksum.{add_bytes, fold_checksum, finalize_checksum}

infixl 5 ◌>>=◌
-- The `?` operator.
abbrev pub ◌>>=◌ : {A B : Type 0} → Outcome A → (A → Outcome B) → Outcome B
done a >>= f = f a
failed e >>= f = failed e

-- `p[i..i + xs.len()].copy_from_slice(xs)`, where it is in bounds.
abbrev pub put : ℕ → Bytes → Bytes → Bytes
put zero xs [] = []
put zero [] (b ∷ p) = b ∷ p
put zero (x ∷ xs) (b ∷ p) = x ∷ put zero xs p
put (suc i) xs [] = []
put (suc i) xs (b ∷ p) = b ∷ put i xs p

-- `wrapping_add` of two `u32`s.
abbrev pub wrapping_add : ℕ → ℕ → ℕ
wrapping_add a b = (a + b) % 2 ^ 32

-- The checksum of the header, computed with its field at zero.
abbrev pub with_header_checksum : ℕ → Bytes → Bytes
with_header_checksum ihl packet =
    let cleared : Bytes = put 10 (0 ∷ 0 ∷ []) packet in
    put 10 (to_be2 (finalize_checksum (add_bytes 0 (take ihl cleared)))) cleared

unfoldable pub update_ipv4_lengths_and_checksum : Bytes → ℕ → Outcome Bytes
update_ipv4_lengths_and_checksum packet packet_len =
    let ihl : ℕ = byte packet 0 % 16 * 4 in
    if ltb (length packet) 20
    then failed "IPv4 packet too short"
    else if not (nat_eq (byte packet 9) 6)
    then failed "IPv4 protocol is not TCP"
    else if ltb ihl 20 || ltb (length packet) ihl
    then failed "invalid IPv4 IHL"
    else if leb (2 ^ 16) packet_len
    then failed "IPv4 packet too large for total_len"
    else done (with_header_checksum ihl (put 2 (to_be2 packet_len) packet))

unfoldable pub update_ipv6_payload_length : Bytes → ℕ → Outcome Bytes
update_ipv6_payload_length packet packet_len =
    if ltb (length packet) 40
    then failed "IPv6 packet too short"
    else if ltb packet_len 40
    then failed "IPv6 packet length underflow"
    else if leb (2 ^ 16) (packet_len - 40)
    then failed "IPv6 payload too large"
    else done (put 4 (to_be2 (packet_len - 40)) packet)

-- The sum of the pseudo-header, a `u32`.
abbrev pub pseudo_ipv4 : Bytes → ℕ → ℕ
pseudo_ipv4 packet tcp_len =
    wrapping_add (wrapping_add (add_bytes 0 (slice 12 20 packet)) 6) tcp_len

unfoldable pub tcp_checksum_ipv4 : Bytes → ℕ → Outcome ℕ
tcp_checksum_ipv4 packet tcp_offset =
    let tcp_len : ℕ = length packet - tcp_offset in
    if ltb (length packet) 20 || leb (length packet) tcp_offset
    then failed "invalid TCP offset for IPv4 checksum"
    else if leb (2 ^ 16) tcp_len
    then failed "TCP segment too large for IPv4 checksum"
    else done (finalize_checksum (add_bytes (pseudo_ipv4 packet tcp_len) (drop tcp_offset packet)))

abbrev pub pseudo_ipv6 : Bytes → ℕ → ℕ
pseudo_ipv6 packet tcp_len =
    let addresses : ℕ = add_bytes (add_bytes 0 (slice 8 24 packet)) (slice 24 40 packet) in
    wrapping_add (wrapping_add (wrapping_add addresses (tcp_len / 65536)) (tcp_len % 65536)) 6

unfoldable pub tcp_checksum_ipv6 : Bytes → ℕ → Outcome ℕ
tcp_checksum_ipv6 packet tcp_offset =
    let tcp_len : ℕ = length packet - tcp_offset in
    if ltb (length packet) 40 || leb (length packet) tcp_offset
    then failed "invalid TCP offset for IPv6 checksum"
    else if leb (2 ^ 32) tcp_len
    then failed "TCP segment too large for IPv6 checksum"
    else done (finalize_checksum (add_bytes (pseudo_ipv6 packet tcp_len) (drop tcp_offset packet)))

-- The partial sum that the kernel expects in the checksum field; a length as a `u32`.
unfoldable pub tcp_pseudo_header_partial : Bytes → Bool → ℕ → ℕ
tcp_pseudo_header_partial ip_packet true tcp_len =
    let sum : ℕ = add_bytes 0 (slice 8 40 ip_packet) in
    fold_checksum (
      wrapping_add
        (wrapping_add (wrapping_add sum (tcp_len / 65536 % 65536)) (tcp_len % 2 ^ 32 % 65536)) 6)
tcp_pseudo_header_partial ip_packet false tcp_len =
    fold_checksum
      (wrapping_add (wrapping_add (add_bytes 0 (slice 12 20 ip_packet)) (tcp_len % 65536)) 6)

-- The parts of a chain that succeeds.
pub >>=-eq-done :
    {A B : Type 0} (m : Outcome A) (f : A → Outcome B) {b : B}
    → (m >>= f) ≡ done b
    → (a : A) × (m ≡ done a) × (f a ≡ done b)
>>=-eq-done (done a) f h = (a, refl, h)
>>=-eq-done (failed e) f h = cc
