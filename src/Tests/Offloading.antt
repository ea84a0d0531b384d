-- ===== src/Tests/Offloading.antt =====
-- Segmentation and joining at concrete packets.
use ezvpn.Prelude.{
  ℕ, ◌+◌, ◌≡◌, refl, false, some, List, [], ◌∷◌, ◌++◌, length, drop, All, Bytes, map, arith,
}
use ezvpn.Offload.{
  Outcome, done, failed, VirtioNetHdr, to_bytes, is_tcp_gso, needs_checksum, normalized_gso_type,
}
use ezvpn.Offload.Checksum.{add_bytes, fold_checksum, finalize_checksum}
use ezvpn.Offload.Fields.{update_ipv4_lengths_and_checksum, tcp_checksum_ipv4}
use ezvpn.Offload.Materialize.{validate_checksum_offload, materialize_offload_packet}
use ezvpn.Offload.Materialize.Completed.{materialize-verifies}
use ezvpn.Offload.Plan.{Run, last}
use ezvpn.Offload.Segments.{TcpSegmentMeta, header_len, parse_coalescible_tcp, can_chain, bytes_eq}
use ezvpn.Offload.Writes.{IsOctets}
use ezvpn.Offload.Superframe.{payloads, virtio_for, assemble_tcp_gso_superframe}
use ezvpn.Offload.Superframe.Segmented.{segment-assemble}
use ezvpn.Offload.Segmentation.{
  Layout, layout_of, checked_version, tcp_offset_of, headers_of, build_segment, with_tcp_fields,
  with_lengths, with_tcp_checksum, middle_flags, segment_loop, segment_tcp_gso_into,
  segment_tcp_gso_packet,
}
use ezvpn.Offload.Segmentation.Packets.{IsValid, ip_header_ends, segment-IsValid}
use ezvpn.Offload.Segmentation.Sequence.{Numbered, segment-Numbered}
use ezvpn.Offload.Segmentation.Total.{can_segment, segment-done}

-- IPv4 without options, from 10.0.0.1 to 10.0.0.2, and TCP without options.
abbrev ip_header : ℕ → Bytes
ip_header len =
    69 ∷ 0 ∷ 0 ∷ len ∷ 0 ∷ 1 ∷ 64 ∷ 0 ∷ 64 ∷ 6 ∷ 0 ∷ 0 ∷ 10 ∷ 0 ∷ 0 ∷ 1 ∷ 10 ∷ 0 ∷ 0 ∷ 2 ∷ []

abbrev tcp_header : ℕ → ℕ → Bytes
tcp_header seq flags =
    0 ∷ 80 ∷ 1 ∷ 187 ∷ 0 ∷ 0 ∷ 0 ∷ seq ∷ 0 ∷ 0 ∷ 0 ∷ 0 ∷ 80 ∷ flags ∷ 1 ∷ 0 ∷ 0 ∷ 0 ∷ 0 ∷ 0 ∷ []

-- Five bytes, with the flags ACK and PSH.
abbrev pub packet : Bytes
packet = ip_header 45 ++ tcp_header 10 24 ++ 1 ∷ 2 ∷ 3 ∷ 4 ∷ 5 ∷ []

abbrev pub gso_of_two : VirtioNetHdr
gso_of_two = record {
  flags = 1;
  gso_type = 1;
  hdr_len = 40;
  gso_size = 2;
  csum_start = 20;
  csum_offset = 16;
  num_buffers = 0;
}

abbrev layout : Layout
layout = record { version = 4; tcp_offset = 20; headers = 40 }

laid : layout_of gso_of_two packet ≡ done layout
unfolding layout_of checked_version tcp_offset_of headers_of is_tcp_gso needs_checksum
    normalized_gso_type
laid = refl

abbrev packets : Outcome (List Bytes) → List Bytes
packets (done ps) = ps
packets (failed e) = []

abbrev cut : List Bytes
cut = packets (segment_tcp_gso_packet gso_of_two packet)

made : segment_tcp_gso_packet gso_of_two packet ≡ done cut
unfolding segment_tcp_gso_packet segment_tcp_gso_into segment_loop build_segment with_tcp_fields
    with_lengths with_tcp_checksum middle_flags update_ipv4_lengths_and_checksum tcp_checksum_ipv4
    add_bytes fold_checksum finalize_checksum layout_of checked_version tcp_offset_of headers_of
    is_tcp_gso needs_checksum normalized_gso_type
made = refl

-- Three packets, the last with one byte.
three_packets : map length cut ≡ 42 ∷ 42 ∷ 41 ∷ []
unfolding segment_tcp_gso_packet segment_tcp_gso_into segment_loop build_segment with_tcp_fields
    with_lengths with_tcp_checksum middle_flags update_ipv4_lengths_and_checksum tcp_checksum_ipv4
    add_bytes fold_checksum finalize_checksum layout_of checked_version tcp_offset_of headers_of
    is_tcp_gso needs_checksum normalized_gso_type
three_packets = refl

packet-IsOctets : IsOctets packet
packet-IsOctets = grind arith

segment-IsValid_example : All (IsValid layout) cut
unfolding ip_header_ends
segment-IsValid_example =
    segment-IsValid gso_of_two packet layout cut packet-IsOctets laid refl (omega arith) made

segment-Numbered_example : Numbered layout packet 2 0 cut
segment-Numbered_example =
    segment-Numbered gso_of_two packet layout cut laid (omega arith) (omega arith) made

segment-done_example :
    (segments : List Bytes) × (segment_tcp_gso_packet gso_of_two packet ≡ done segments)
    × (payloads 40 segments ≡ drop 40 packet)
unfolding can_segment
segment-done_example = segment-done gso_of_two packet layout laid refl (omega arith)

-- Two segments of one flow.
abbrev pub first_segment : Bytes
first_segment = ip_header 42 ++ tcp_header 10 16 ++ 1 ∷ 2 ∷ []

abbrev pub second_segment : Bytes
second_segment = ip_header 41 ++ tcp_header 12 24 ++ 3 ∷ []

abbrev first_meta : TcpSegmentMeta
first_meta = record {
  is_ipv6 = false;
  ip_header_len = 20;
  tcp_header_len = 20;
  seq = 10;
  payload_len = 2;
}

abbrev second_meta : TcpSegmentMeta
second_meta = record {
  is_ipv6 = false;
  ip_header_len = 20;
  tcp_header_len = 20;
  seq = 12;
  payload_len = 1;
}

first_parsed : parse_coalescible_tcp first_segment ≡ some first_meta
unfolding parse_coalescible_tcp
first_parsed = refl

joining : Run 2 (header_len first_meta + 2) first_segment first_meta (second_segment ∷ [])
unfolding parse_coalescible_tcp can_chain bytes_eq header_len
joining = last second_segment second_meta refl (omega arith) (omega arith) refl

segment-assemble_example :
    (ip : Bytes) × (segments : List Bytes) × (assemble_tcp_gso_superframe
        (first_segment ∷ second_segment ∷ [])
      ≡ done (to_bytes (virtio_for first_meta) ++ ip))
    × (segment_tcp_gso_packet (virtio_for first_meta) ip ≡ done segments)
    × (payloads (header_len first_meta) segments
        ≡ payloads (header_len first_meta) (first_segment ∷ second_segment ∷ []))
segment-assemble_example =
    segment-assemble first_segment first_meta (second_segment ∷ []) first_parsed (omega arith)
      joining

-- A UDP packet whose checksum field holds the sum of the pseudo-header, 5150.
abbrev udp_packet : Bytes
udp_packet = ip_header 30 ++ 0 ∷ 80 ∷ 1 ∷ 187 ∷ 0 ∷ 10 ∷ 20 ∷ 30 ∷ 7 ∷ 8 ∷ []

abbrev checksum_only : VirtioNetHdr
checksum_only = record {
  flags = 1;
  gso_type = 0;
  hdr_len = 0;
  gso_size = 0;
  csum_start = 20;
  csum_offset = 6;
  num_buffers = 0;
}

udp_packet-IsOctets : IsOctets udp_packet
udp_packet-IsOctets = grind arith

materialize-verifies_example :
    (out : Bytes) × (materialize_offload_packet checksum_only udp_packet ≡ done (out ∷ []))
    × (length out ≡ length udp_packet)
    × (fold_checksum (add_bytes 5150 (drop 20 out)) ≡ 65535)
unfolding validate_checksum_offload needs_checksum fold_checksum
materialize-verifies_example =
    materialize-verifies checksum_only udp_packet 20 26 3 5150 refl refl udp_packet-IsOctets
      (omega arith) (omega arith) refl
