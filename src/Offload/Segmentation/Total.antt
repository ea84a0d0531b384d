-- ===== src/Offload/Segmentation/Total.antt =====
-- src/tunnel/offload.rs: when `segment_tcp_gso_into` succeeds.
use ezvpn.Prelude.{
  ℕ, zero, suc, ◌+◌, ◌-◌, ◌*◌, ◌%◌, ◌^◌, ◌≤◌, ◌<◌, ◌≡◌, inl, inr, refl, ◌∙◌, ap, List, [], ◌∷◌,
  ◌++◌, length, drop, Bytes, arith, Bool, true, false, ltb, leb, ◌&&◌, to_be2, nat_eq,
  if◌then◌else◌, Bool-cases,
}
use ezvpn.Packet.{byte}
use ezvpn.Offload.{done, VirtioNetHdr}
use ezvpn.Offload.Fields.{put, tcp_checksum_ipv4, tcp_checksum_ipv6}
use ezvpn.Offload.Superframe.{payloads}
use ezvpn.Offload.Writes.{length-put}
use ezvpn.Offload.Segmentation.{
  Layout, layout_of, with_lengths, with_tcp_checksum, build_segment, collect, collected,
  segment_loop, segment_at, emit_built, segment_tcp_gso_into, segment_tcp_gso_packet,
}
use ezvpn.Offload.Segmentation.Build.{chunk_at, numbered_at, lengths-Keeps, length-numbered}
use ezvpn.Offload.Segmentation.Steps.{
  update4_succeeds, update6_succeeds, tcp4_succeeds, tcp6_succeeds, >>=-done, numbered_byte,
}
use ezvpn.Offload.Segmentation.Loop.{Fits, layout-Fits}
use ezvpn.Offload.Segmentation.Packets.{numbered_first}
use ezvpn.Offload.Segmentation.Payload.{length-chunk, segment-payload}

-- A TCP packet whose segments fit the length fields.
unfoldable pub can_segment : VirtioNetHdr → Layout → Bytes → Bool
can_segment offload l packet =
    let ihl : ℕ = byte packet 0 % 16 * 4 in
    ltb (length packet) (2 ^ 32)
    && (if nat_eq l.version 4
        then nat_eq (byte packet 9) 6
          && leb 20 ihl
          && leb ihl l.tcp_offset
          && ltb (l.headers + offload.gso_size) (2 ^ 16)
        else leb 40 l.tcp_offset && ltb (l.headers + offload.gso_size - 40) (2 ^ 16))

module _ (offload : VirtioNetHdr) (l : Layout) (packet : Bytes) (fits : Fits l packet)
    (fine : can_segment offload l packet ≡ true) where
  lengths_succeed :
      (offset : ℕ)
      → (q : Bytes) × (with_lengths l.version
            (numbered_at offload l packet offset)
            (l.headers + length (chunk_at offload l packet offset))
          ≡ done q)
  unfolding with_lengths can_segment
  lengths_succeed offset =
      let p : Bytes = numbered_at offload l packet offset in
      let n : ℕ = l.headers + length (chunk_at offload l packet offset) in
      let len = length-numbered offload l packet offset fits.tcp_in fits.headers_in in
      let chunk = length-chunk offload l packet offset in
      let first = numbered_first offload l packet offset fits in
      elim fits.version_known [
        | inl four ↦
            let (q, made) =
              update4_succeeds p n
                (numbered_byte offload l packet offset 9 fits (ground (arith, fine, four))
                  ∙ ground (arith, fine, four))
                (ground (arith, fine, four, first))
                (ground (arith, fine, four, len, first, fits.tcp_in))
                (ground (arith, fine, four, chunk)) in
            (q, ground (arith, made, four))
        | inr six ↦
            let (q, made) =
              update6_succeeds p n (ground (arith, fine, six, len, fits.tcp_in))
                (ground (arith, fine, six, fits.tcp_in)) (ground (arith, fine, six, chunk)) in
            (q, ground (arith, made, six))
      ]

  checksum_succeeds :
      (p : Bytes)
      → l.headers ≤ length p
      → length p ≤ l.headers + offload.gso_size
      → (q : Bytes) × (with_tcp_checksum l p ≡ done q)
  unfolding with_tcp_checksum can_segment
  checksum_succeeds p within small =
      let cleared : Bytes = put (l.tcp_offset + 16) (0 ∷ 0 ∷ []) p in
      let len = length-put (l.tcp_offset + 16) (0 ∷ 0 ∷ []) p in
      elim fits.version_known [
        | inl four ↦
            let (c, made) =
              tcp4_succeeds cleared l.tcp_offset (ground (arith, fine, four, len, fits.tcp_in))
                (omega (arith, len, fits.tcp_in)) (ground (arith, fine, four, len)) in
            (
              put (l.tcp_offset + 16) (to_be2 c) cleared,
              >>=-done
                  (if nat_eq l.version 4
                    then tcp_checksum_ipv4 cleared l.tcp_offset
                    else tcp_checksum_ipv6 cleared l.tcp_offset)
                  _ (ground (arith, made, four)) refl,
            )
        | inr six ↦
            let (c, made) =
              tcp6_succeeds cleared l.tcp_offset (ground (arith, fine, six, len, fits.tcp_in))
                (omega (arith, len, fits.tcp_in)) (ground (arith, fine, six, len)) in
            (
              put (l.tcp_offset + 16) (to_be2 c) cleared,
              >>=-done
                  (if nat_eq l.version 4
                    then tcp_checksum_ipv4 cleared l.tcp_offset
                    else tcp_checksum_ipv6 cleared l.tcp_offset)
                  _ (ground (arith, made, six)) refl,
            )
      ]

  small_offset : (offset : ℕ) → offset < length packet - l.headers → leb (2 ^ 32) offset ≡ false
  unfolding can_segment
  small_offset offset on = ground (arith, fine)

  build_succeeds :
      (offset : ℕ)
      → offset < length packet - l.headers
      → (p : Bytes) × (build_segment offload l packet offset ≡ done p)
  unfolding build_segment chunk_at numbered_at can_segment
  build_succeeds offset on =
      let (updated, said) = lengths_succeed offset in
      let chunk = length-chunk offload l packet offset in
      let len = length-numbered offload l packet offset fits.tcp_in fits.headers_in in
      let kept =
        (lengths-Keeps l.headers l.version _ updated _ (omega (arith, fits.tcp_in))
          said).same_length in
      let (p, summed) =
        checksum_succeeds updated (omega (arith, kept, len)) (omega (arith, kept, len, chunk)) in
      (p, rw (small_offset offset on) (>>=-done _ _ said summed))

  loop_succeeds :
      (fuel offset : ℕ) (out : List Bytes)
      → (result : List Bytes) × (segment_loop collect fuel offload l packet offset out
          ≡ (result, done tt))
  unfolding segment_loop emit_built
  loop_succeeds zero offset out = (out, refl)
  loop_succeeds (suc fuel) offset out = elim (Bool-cases (leb (length packet - l.headers) offset)) [
    | inl over ↦ (out, rw over)
    | inr on ↦
        let (p, built) = build_succeeds offset (ground (arith, on)) in
        let (result, go) = loop_succeeds fuel (offset + offload.gso_size) (out ++ p ∷ []) in
        (result, rw on (rw (built, emit_built) go))
  ]

-- Segmentation comes to an end and succeeds on a TCP packet of less than 2 ^ 32 bytes whose
-- segments fit the length fields, and it emits all of the payload.
pub segment-done :
    (offload : VirtioNetHdr) (packet : Bytes) (l : Layout)
    → layout_of offload packet ≡ done l
    → can_segment offload l packet ≡ true
    → offload.gso_size < length packet - l.headers
    → (segments : List Bytes) × (segment_tcp_gso_packet offload packet ≡ done segments)
      × (payloads l.headers segments ≡ drop l.headers packet)
unfolding segment_tcp_gso_packet segment_tcp_gso_into segment_at
segment-done offload packet l laid fine long =
    let fits = (layout-Fits offload packet l laid).0 in
    let (result, go) = loop_succeeds offload l packet fits fine (length packet - l.headers) 0 [] in
    let over : leb (length packet - l.headers) offload.gso_size ≡ false = ground (arith, long) in
    let made : segment_tcp_gso_packet offload packet ≡ done result =
      rw (laid, segment_at) (rw over (ap collected go)) in
    (result, made, (segment-payload offload packet l result laid long made).0)
