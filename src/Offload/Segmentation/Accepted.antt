-- ===== src/Offload/Segmentation/Accepted.antt =====
-- src/tunnel/offload.rs: the packets that `segment_tcp_gso_into` emits, each with its lengths and checksums.
use ezvpn.Prelude.{
  ℕ, ◌+◌, ◌-◌, ◌*◌, ◌%◌, ◌≤◌, ◌≡◌, refl, sym, ◌∙◌, ap, length, slice, Bytes, to_be2, arith,
}
use ezvpn.Packet.{byte}
use ezvpn.Offload.{done, VirtioNetHdr}
use ezvpn.Offload.Fields.{put, update_ipv4_lengths_and_checksum, update_ipv6_payload_length}
use ezvpn.Offload.Writes.{IsOctets, length-put, slice-put, put-IsOctets, to_be2-IsOctets}
use ezvpn.Offload.Segmentation.{Layout, with_lengths, build_segment}
use ezvpn.Offload.Segmentation.Build.{
  build_done, update4_done, update6_done, numbered_at, chunk_at, length-scratch, numbered-Keeps,
  lengths-Keeps, checksum-Keeps, scratch-IsOctets,
}
use ezvpn.Offload.Segmentation.Valid.{
  checksum-take, checksum-slice, header_checksum-slice, header_verifies, IsValid4, IsValid6,
}
use ezvpn.Offload.Segmentation.Loop.{Fits}
use ezvpn.Offload.Segmentation.Checks.{tcp4_verifies, tcp6_verifies}

lengths4 :
    (version : ℕ) (p q : Bytes) (len : ℕ)
    → version ≡ 4
    → with_lengths version p len ≡ done q
    → update_ipv4_lengths_and_checksum p len ≡ done q
unfolding with_lengths
lengths4 version p q len four made = ground (arith, made, four)

lengths6 :
    (version : ℕ) (p q : Bytes) (len : ℕ)
    → version ≡ 6
    → with_lengths version p len ≡ done q
    → update_ipv6_payload_length p len ≡ done q
unfolding with_lengths
lengths6 version p q len six made = ground (arith, made, six)

module _ (offload : VirtioNetHdr) (l : Layout) (packet : Bytes) (offset : ℕ) (fits : Fits l packet)
    (octets : IsOctets packet) where
  abbrev pub numbered : Bytes
  numbered = numbered_at offload l packet offset

  len : ℕ
  len = l.headers + length (chunk_at offload l packet offset)

  numbered-IsOctets : IsOctets numbered
  numbered-IsOctets =
      (numbered-Keeps offload l packet offset fits.tcp_in).octets
        (scratch-IsOctets offload l packet offset octets)

  length-numbered : length numbered ≡ len
  unfolding len
  length-numbered =
      (numbered-Keeps offload l packet offset fits.tcp_in).same_length
      ∙ length-scratch offload l packet offset fits.headers_in

  -- A segment with an IPv4 header that ends where the TCP header starts, or before.
  pub build-IsValid4 :
      (p : Bytes)
      → l.version ≡ 4
      → byte numbered 0 % 16 * 4 ≤ l.tcp_offset
      → build_segment offload l packet offset ≡ done p
      → IsValid4 l.tcp_offset p
  unfolding len
  build-IsValid4 p four before made =
      let (updated, a, b) = build_done offload l packet offset p made in
      let ihl : ℕ = byte numbered 0 % 16 * 4 in
      let (same, long, enough, within, small) =
        update4_done numbered updated len (lengths4 l.version numbered updated len four a) in
      let keeps = lengths-Keeps l.headers l.version numbered updated len (omega arith) a in
      let keeps' = checksum-Keeps l updated p fits.tcp_in b in
      let said : Bytes = put 2 (to_be2 len) numbered in
      let whole : length p ≡ len = keeps'.same_length ∙ keeps.same_length ∙ length-numbered in
      let first : byte p 0 ≡ byte numbered 0 = keeps'.same_first ∙ keeps.same_first in
      record {
        total_len =
            checksum-slice l updated p 2 4 (omega arith) (omega arith) b
            ∙ ap (slice 2 4) (sym same)
            ∙ header_checksum-slice ihl 2 4 said (omega arith) (omega arith)
            ∙ slice-put 2 4 (to_be2 len) numbered refl (omega arith)
            ∙ ap to_be2 (sym whole);
        length_lt = omega (arith, whole, small);
        header =
            rw (first, checksum-take l updated p ihl (omega (arith, before)) b, ← same)
              (header_verifies ihl said
                (put-IsOctets 2 (to_be2 len) numbered (to_be2-IsOctets len) numbered-IsOctets)
                enough (omega (arith, within, length-put 2 (to_be2 len) numbered)) (omega arith));
        segment =
            tcp4_verifies l updated p four (keeps.octets numbered-IsOctets)
              (omega (arith, before, enough))
              (omega (arith, keeps.same_length, length-numbered, fits.tcp_in))
              (omega (arith, keeps.same_length, length-numbered, small)) b;
      }

  -- A segment with an IPv6 header before the TCP header.
  pub build-IsValid6 :
      (p : Bytes)
      → l.version ≡ 6
      → 40 ≤ l.tcp_offset
      → build_segment offload l packet offset ≡ done p
      → IsValid6 l.tcp_offset p
  unfolding len
  build-IsValid6 p six behind made =
      let (updated, a, b) = build_done offload l packet offset p made in
      let (same, long, enough, small) =
        update6_done numbered updated len (lengths6 l.version numbered updated len six a) in
      let keeps = lengths-Keeps l.headers l.version numbered updated len (omega arith) a in
      let keeps' = checksum-Keeps l updated p fits.tcp_in b in
      let whole : length p ≡ len = keeps'.same_length ∙ keeps.same_length ∙ length-numbered in
      record {
        payload_len =
            checksum-slice l updated p 4 6 (omega arith) (omega arith) b
            ∙ ap (slice 4 6) (sym same)
            ∙ slice-put 4 6 (to_be2 (len - 40)) numbered refl (omega arith)
            ∙ ap (λ n. to_be2 (n - 40)) (sym whole);
        payload_lt = omega (arith, whole, small);
        segment =
            tcp6_verifies l updated p six (keeps.octets numbered-IsOctets) (omega arith)
              (omega (arith, keeps.same_length, length-numbered, fits.tcp_in))
              (omega (arith, keeps.same_length, length-numbered, small)) b;
      }
