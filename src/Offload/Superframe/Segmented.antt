-- ===== src/Offload/Superframe/Segmented.antt =====
-- src/tunnel/offload.rs: a frame of `assemble_tcp_gso_superframe`, segmented again.
use ezvpn.Prelude.{
  ℕ, ◌+◌, ◌/◌, ◌^◌, ◌≤◌, ◌<◌, ◌≡◌, refl, ◌∙◌, ap, Bool, true, false, not, some, List, ◌∷◌, ◌++◌,
  nat_eq, length, Bytes, arith, Bool-cases, inl, inr,
}
use ezvpn.Packet.{byte}
use ezvpn.Offload.{done, to_bytes, is_tcp_gso, needs_checksum, normalized_gso_type}
use ezvpn.Offload.Segments.{TcpSegmentMeta, header_len, parse_coalescible_tcp}
use ezvpn.Offload.Segments.Parsed.{Parsed, parse_coalescible_tcp-Parsed}
use ezvpn.Offload.Plan.{Run}
use ezvpn.Offload.Superframe.{payloads, virtio_for, assemble_tcp_gso_superframe}
use ezvpn.Offload.Superframe.Joined.{Joined, assemble-Joined}
use ezvpn.Offload.Segmentation.{
  Layout, layout_of, checked_version, tcp_offset_of, headers_of, segment_tcp_gso_packet,
}
use ezvpn.Offload.Segmentation.Steps.{>>=-done}
use ezvpn.Offload.Segmentation.Total.{can_segment, segment-done}

version_of : Bool → ℕ
version_of true = 6
version_of false = 4

layout_for : TcpSegmentMeta → Layout
layout_for m = record {
  version = version_of m.is_ipv6;
  tcp_offset = m.ip_header_len;
  headers = header_len m;
}

module _ (first : Bytes) (m : TcpSegmentMeta) (members : List Bytes) (ip : Bytes)
    (parsed : Parsed first m) (joined : Joined first m members ip) where
  version_kept : byte ip 0 / 16 ≡ version_of m.is_ipv6
  unfolding version_of
  version_kept = elim (Bool-cases m.is_ipv6) [
    | inl six ↦ rw six (ap (λ b. b / 16) joined.first_kept ∙ (parsed.ipv6 six).1)
    | inr four ↦ rw four (ap (λ b. b / 16) joined.first_kept ∙ (parsed.ipv4 four).1)
  ]

  offset_least : 20 ≤ m.ip_header_len
  offset_least = elim (Bool-cases m.is_ipv6) [
    | inl six ↦ omega (arith, (parsed.ipv6 six).0)
    | inr four ↦ omega (arith, (parsed.ipv4 four).0)
  ]

  gso : is_tcp_gso (virtio_for m) ≡ true
  unfolding is_tcp_gso virtio_for normalized_gso_type
  gso = elim (Bool-cases m.is_ipv6) [
    | inl six ↦ ground (arith, six, parsed.full, joined.whole, joined.small, joined.longer)
    | inr four ↦ ground (arith, four, parsed.full, joined.whole, joined.small, joined.longer)
  ]

  version_checked :
      checked_version (virtio_for m) (version_of m.is_ipv6) ≡ done (version_of m.is_ipv6)
  unfolding checked_version virtio_for normalized_gso_type version_of
  version_checked = elim (Bool-cases m.is_ipv6) [
    | inl six ↦ ground (arith, six)
    | inr four ↦ ground (arith, four)
  ]

  header_small : m.ip_header_len < 2 ^ 16
  unfolding header_len
  header_small = omega (arith, joined.whole, joined.small)

  headers_found : headers_of ip m.ip_header_len ≡ done (header_len m)
  unfolding headers_of header_len
  headers_found =
      let at =
        joined.byte_kept (m.ip_header_len + 12)
          (omega (arith, offset_least), inr (omega (arith, offset_least))) (omega arith) in
      ground (arith, at, parsed.tcp_len, parsed.tcp_long, joined.whole)

  offset_found : tcp_offset_of (virtio_for m) ip (version_of m.is_ipv6) ≡ done m.ip_header_len
  unfolding tcp_offset_of virtio_for needs_checksum
  offset_found = ground (arith, header_small)

  laid : layout_of (virtio_for m) ip ≡ done (layout_for m)
  unfolding layout_of layout_for
  laid =
      let some_bytes : nat_eq (length ip) 0 ≡ false =
        ground (arith, joined.whole, parsed.full, joined.longer) in
      let tcp : not (is_tcp_gso (virtio_for m)) ≡ false = ap not gso in
      rw tcp (
        rw some_bytes (
          >>=-done (checked_version (virtio_for m) (byte ip 0 / 16)) _ {a = version_of m.is_ipv6}
            (ap (checked_version (virtio_for m)) version_kept ∙ version_checked)
            (>>=-done _ _ offset_found (>>=-done _ _ headers_found refl))))

  fine : can_segment (virtio_for m) (layout_for m) ip ≡ true
  unfolding can_segment layout_for virtio_for version_of
  fine = elim (Bool-cases m.is_ipv6) [
    | inl six ↦ ground (arith, six, parsed.ipv6 six, joined.whole, joined.small, joined.longer)
    | inr four ↦
        let (offset, version, words, tcp) = parsed.ipv4 four in
        let kept = joined.byte_kept 9 (omega arith, inl (omega arith)) (omega (arith, offset)) in
        ground (
          arith, four, offset, words, tcp, kept, joined.first_kept, joined.whole, joined.small,
          joined.longer,
        )
  ]

-- A run of a plan is joined to a frame that can be segmented again, to packets whose payloads are
-- those of the run.
pub segment-assemble :
    (first : Bytes) (m : TcpSegmentMeta) (members : List Bytes)
    → parse_coalescible_tcp first ≡ some m
    → 1 ≤ length members
    → Run m.payload_len (header_len m + m.payload_len) first m members
    → (ip : Bytes) × (segments : List Bytes) × (assemble_tcp_gso_superframe (first ∷ members)
        ≡ done (to_bytes (virtio_for m) ++ ip))
      × (segment_tcp_gso_packet (virtio_for m) ip ≡ done segments)
      × (payloads (header_len m) segments ≡ payloads (header_len m) (first ∷ members))
unfolding layout_for virtio_for
segment-assemble first m members is some_members run =
    let parsed = parse_coalescible_tcp-Parsed first m is in
    let (ip, made, joined) = assemble-Joined first m members is some_members run in
    let (segments, cut, same) =
      segment-done (virtio_for m) ip (layout_for m) (laid first m members ip parsed joined)
        (fine first m members ip parsed joined) (omega (arith, joined.longer, joined.whole)) in
    (ip, segments, made, cut, same ∙ joined.payload)
