-- ===== src/Offload/Segmentation.antt =====
-- src/tunnel/offload.rs: `segment_tcp_gso_into`, which turns a packet with the metadata of the
-- device into plain IP packets. The callback `emit` changes a state of the
-- caller's and may fail, which ends the work. The `scratch` buffer is cleared for each packet, so
-- it is the packet that the callback is given.
pub mod Build
pub mod Loop
pub mod Payload
pub mod Checks
pub mod Valid
pub mod Accepted
pub mod Packets
pub mod Kept
pub mod Sequence
pub mod Keeps
pub mod Emitted
pub mod Steps
pub mod Total
use ezvpn.Prelude.{
  ℕ, zero, suc, ◌+◌, ◌-◌, ◌*◌, ◌/◌, ◌%◌, ◌^◌, Bool, true, false, not, ◌&&◌, ◌||◌, Option, none,
  some, List, [], ◌∷◌, ◌++◌, nat_eq, ltb, leb, if◌then◌else◌, length, take, drop, slice, min, Bytes,
  from_be, to_be2, to_be4,
}
use ezvpn.Packet.{byte}
use ezvpn.Offload.{
  Outcome, done, failed, VirtioNetHdr, gso_none, gso_tcpv4, gso_tcpv6, normalized_gso_type,
  is_tcp_gso, needs_checksum,
}
use ezvpn.Offload.Checksum.{add_bytes, finalize_checksum}
use ezvpn.Offload.Fields.{
  ◌>>=◌, put, wrapping_add, update_ipv4_lengths_and_checksum, update_ipv6_payload_length,
  tcp_checksum_ipv4, tcp_checksum_ipv6,
}

unfoldable pub ip_header_len_for_tcp : Bytes → ℕ → Outcome ℕ
ip_header_len_for_tcp ip_packet version =
    let ihl : ℕ = byte ip_packet 0 % 16 * 4 in
    if nat_eq version 4
    then (if ltb ihl 20 || ltb (length ip_packet) ihl || not (nat_eq (byte ip_packet 9) 6)
        then failed "IPv4 GSO packet is not plain TCP"
        else done ihl)
    else if nat_eq version 6
    then (if ltb (length ip_packet) 40 || not (nat_eq (byte ip_packet 6) 6)
        then failed "IPv6 GSO packet is not plain TCP"
        else done 40)
    else failed "unsupported IP version"

-- The match of version and type.
unfoldable pub checked_version : VirtioNetHdr → ℕ → Outcome ℕ
checked_version offload version =
    if nat_eq version 4 && nat_eq (normalized_gso_type offload) gso_tcpv4
      || nat_eq version 6 && nat_eq (normalized_gso_type offload) gso_tcpv6
    then done version
    else if nat_eq version 4 || nat_eq version 6
    then failed "IP version/GSO mismatch"
    else failed "unsupported IP version"

unfoldable pub tcp_offset_of : VirtioNetHdr → Bytes → ℕ → Outcome ℕ
tcp_offset_of offload ip_packet version =
    if needs_checksum offload
    then done offload.csum_start
    else ip_header_len_for_tcp ip_packet version

-- The length of all headers, from the TCP header's own.
unfoldable pub headers_of : Bytes → ℕ → Outcome ℕ
headers_of ip_packet tcp_offset =
    let tcp_header_len : ℕ = byte ip_packet (tcp_offset + 12) / 16 * 4 in
    if ltb (length ip_packet) (tcp_offset + 20)
    then failed "invalid TCP offset"
    else if ltb tcp_header_len 20 || ltb (length ip_packet) (tcp_offset + tcp_header_len)
    then failed "invalid TCP header length"
    else done (tcp_offset + tcp_header_len)

-- What the loop keeps of the packet.
pub record Layout : Type 0 where
  pub version : ℕ
  pub tcp_offset : ℕ
  pub headers : ℕ

unfoldable pub layout_of : VirtioNetHdr → Bytes → Outcome Layout
layout_of offload ip_packet =
    if not (is_tcp_gso offload)
    then failed "offload header is not TCP GSO"
    else if nat_eq (length ip_packet) 0
    then failed "empty IP packet"
    else do
      version ← checked_version offload (byte ip_packet 0 / 16)
      tcp_offset ← tcp_offset_of offload ip_packet version
      headers ← headers_of ip_packet tcp_offset
      done (record { version = version; tcp_offset = tcp_offset; headers = headers })

-- `tcp_flags & !(FIN | PSH)`, of a byte.
unfoldable pub middle_flags : ℕ → ℕ
middle_flags flags = flags / 16 % 16 * 16 + flags / 2 % 4 * 2

-- The sequence number at an offset of the payload, and the flags unless the segment is the last.
unfoldable pub with_tcp_fields : Layout → Bytes → ℕ → Bool → Bytes → Bytes
with_tcp_fields l ip_packet chunk_offset is_last scratch =
    let t : ℕ = l.tcp_offset in
    let base_seq : ℕ = from_be (slice (t + 4) (t + 8) ip_packet) in
    let numbered : Bytes = put (t + 4) (to_be4 (wrapping_add base_seq chunk_offset)) scratch in
    if is_last
    then numbered
    else put (t + 13) (middle_flags (byte ip_packet (t + 13)) ∷ []) numbered

unfoldable pub with_lengths : ℕ → Bytes → ℕ → Outcome Bytes
with_lengths version scratch len =
    if nat_eq version 4
    then update_ipv4_lengths_and_checksum scratch len
    else update_ipv6_payload_length scratch len

unfoldable pub with_tcp_checksum : Layout → Bytes → Outcome Bytes
with_tcp_checksum l scratch =
    let index : ℕ = l.tcp_offset + 16 in
    let cleared : Bytes = put index (0 ∷ 0 ∷ []) scratch in
    (if nat_eq l.version 4
      then tcp_checksum_ipv4 cleared l.tcp_offset
      else tcp_checksum_ipv6 cleared l.tcp_offset)
    >>= λ checksum. done (put index (to_be2 checksum) cleared)

-- One round of the loop, up to the call of `emit`.
unfoldable pub build_segment : VirtioNetHdr → Layout → Bytes → ℕ → Outcome Bytes
build_segment offload l ip_packet chunk_offset =
    let payload : Bytes = drop l.headers ip_packet in
    let chunk_end : ℕ = min (chunk_offset + offload.gso_size) (length payload) in
    let chunk : Bytes = slice chunk_offset chunk_end payload in
    let scratch : Bytes = take l.headers ip_packet ++ chunk in
    if leb (2 ^ 32) chunk_offset
    then failed "TCP GSO payload offset exceeds u32 range for sequence number"
    else do
      updated ←
          with_lengths l.version
            (with_tcp_fields l ip_packet chunk_offset (not (ltb chunk_end (length payload)))
              scratch)
            (l.headers + length chunk)
      with_tcp_checksum l updated

-- A checksum that covers the packet from `start` on, and whose field holds a partial sum.
unfoldable pub complete_checksum : ℕ → ℕ → Bytes → Bytes
complete_checksum start index packet =
    put index (to_be2 (finalize_checksum (add_bytes 0 (drop start packet)))) packet

module _ {S : Type 0} (emit : S → Bytes → S × Outcome (Unit {0})) where
  -- The state after a call, and the rest of the work if the call succeeded.
  abbrev after_emit : S × Outcome (Unit {0}) → (S → S × Outcome (Unit {0})) → S × Outcome (Unit {0})
  after_emit (s, done u) k = k s
  after_emit (s, failed e) k = (s, failed e)

  unfoldable emit_built : Outcome Bytes → S → (S → S × Outcome (Unit {0})) → S × Outcome (Unit {0})
  emit_built (failed e) s k = (s, failed e)
  emit_built (done segment) s k = after_emit (emit s segment) k

  -- The loop `(0..payload.len()).step_by(gso_size)`, with fuel. A step of zero panics.
  unfoldable pub segment_loop : ℕ → VirtioNetHdr → Layout → Bytes → ℕ → S → S × Outcome (Unit {0})
  unfolding emit_built
  segment_loop zero offload l ip_packet chunk_offset s = (s, done tt)
  segment_loop (suc fuel) offload l ip_packet chunk_offset s =
      if leb (length ip_packet - l.headers) chunk_offset
      then (s, done tt)
      else emit_built (build_segment offload l ip_packet chunk_offset) s
          (segment_loop fuel offload l ip_packet (chunk_offset + offload.gso_size))

  segment_at : VirtioNetHdr → Bytes → Outcome Layout → S → S × Outcome (Unit {0})
  segment_at offload ip_packet (failed e) s = (s, failed e)
  segment_at offload ip_packet (done l) s =
      let payload_len : ℕ = length ip_packet - l.headers in
      if leb payload_len offload.gso_size
      then (if not (needs_checksum offload)
          then emit s ip_packet
          else emit s (complete_checksum l.tcp_offset (l.tcp_offset + 16) ip_packet))
      else segment_loop payload_len offload l ip_packet 0 s

  -- Each round takes at least a byte of the payload, so its length is fuel enough.
  unfoldable pub segment_tcp_gso_into : VirtioNetHdr → Bytes → S → S × Outcome (Unit {0})
  unfolding segment_at
  segment_tcp_gso_into offload ip_packet s =
      segment_at offload ip_packet (layout_of offload ip_packet) s

-- The wrapper that collects the packets.
abbrev pub collect : List Bytes → Bytes → List Bytes × Outcome (Unit {0})
collect out packet = (out ++ packet ∷ [], done tt)

abbrev pub collected : List Bytes × Outcome (Unit {0}) → Outcome (List Bytes)
collected (out, done u) = done out
collected (out, failed e) = failed e

unfoldable pub segment_tcp_gso_packet : VirtioNetHdr → Bytes → Outcome (List Bytes)
segment_tcp_gso_packet offload ip_packet =
    collected (segment_tcp_gso_into collect offload ip_packet [])
