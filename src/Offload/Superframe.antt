-- ===== src/Offload/Superframe.antt =====
-- src/tunnel/offload.rs: `assemble_tcp_gso_superframe`, which joins the segments of a run into one
-- frame for the TUN device. The frame is what the buffer `out`, cleared first, holds at the end.
pub mod Totals
pub mod Assembled
pub mod Joined
pub mod Segmented
use ezvpn.Prelude.{
  ℕ, ◌+◌, ◌-◌, ◌%◌, ◌^◌, Bool, true, false, Option, none, some, List, [], ◌∷◌, ◌++◌, ltb, leb,
  if◌then◌else◌, length, take, drop, Bytes, to_be2,
}
use ezvpn.Offload.{Outcome, done, failed, VirtioNetHdr, to_bytes, needs_csum, gso_tcpv4, gso_tcpv6}
use ezvpn.Offload.Segments.{TcpSegmentMeta, header_len, parse_coalescible_tcp}
use ezvpn.Offload.Fields.{
  ◌>>=◌, put, update_ipv4_lengths_and_checksum, update_ipv6_payload_length,
  tcp_pseudo_header_partial,
}

-- The loop over the segments that adds up their payloads.
unfoldable pub total_payload : ℕ → List Bytes → Outcome ℕ
total_payload headers [] = done 0
total_payload headers (segment ∷ segments) =
    let rest = total_payload headers segments in
    if leb (length segment) headers
    then failed "segment shorter than flow headers"
    else rest >>= λ n. done (length segment - headers + n)

-- The payloads of the segments, one after the other.
unfoldable pub payloads : ℕ → List Bytes → Bytes
payloads headers [] = []
payloads headers (segment ∷ segments) = drop headers segment ++ payloads headers segments

unfoldable pub virtio_for : TcpSegmentMeta → VirtioNetHdr
virtio_for first = record {
  flags = needs_csum;
  gso_type = if first.is_ipv6 then gso_tcpv6 else gso_tcpv4;
  hdr_len = header_len first % 2 ^ 16;
  gso_size = first.payload_len % 2 ^ 16;
  csum_start = first.ip_header_len % 2 ^ 16;
  csum_offset = 16;
  num_buffers = 0;
}

unfoldable pub update_ip : Bool → Bytes → ℕ → Outcome Bytes
update_ip true ip_frame len = update_ipv6_payload_length ip_frame len
update_ip false ip_frame len = update_ipv4_lengths_and_checksum ip_frame len

-- The partial checksum, computed with its field at zero.
with_partial : TcpSegmentMeta → ℕ → Bytes → Bytes
with_partial first payload ip_frame =
    let index : ℕ = first.ip_header_len + 16 in
    let cleared : Bytes = put index (0 ∷ 0 ∷ []) ip_frame in
    let partial : ℕ =
      tcp_pseudo_header_partial cleared first.is_ipv6 (first.tcp_header_len + payload) in
    put index (to_be2 partial) cleared

merged_frame : TcpSegmentMeta → Bytes → List Bytes → ℕ → Outcome Bytes
merged_frame first segment segments payload =
    let merged_ip_len : ℕ = header_len first + payload in
    let ip_frame : Bytes =
      take (header_len first) segment ++ payloads (header_len first) (segment ∷ segments) in
    if ltb 65535 merged_ip_len
    then failed "merged GSO frame too large"
    else update_ip first.is_ipv6 ip_frame merged_ip_len >>= λ updated.
        done (to_bytes (virtio_for first) ++ with_partial first payload updated)

assemble_parsed : Option TcpSegmentMeta → Bytes → List Bytes → Outcome Bytes
assemble_parsed none segment segments = failed "first segment is not a coalescible TCP segment"
assemble_parsed (some first) segment segments =
    total_payload (header_len first) (segment ∷ segments) >>= merged_frame first segment segments

unfoldable pub assemble_tcp_gso_superframe : List Bytes → Outcome Bytes
unfolding assemble_parsed merged_frame update_ip with_partial
assemble_tcp_gso_superframe [] = failed "GSO super-frame needs at least 2 segments"
assemble_tcp_gso_superframe (segment ∷ segments) =
    if ltb (length (segment ∷ segments)) 2
    then failed "GSO super-frame needs at least 2 segments"
    else assemble_parsed (parse_coalescible_tcp segment) segment segments
