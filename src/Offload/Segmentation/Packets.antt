-- ===== src/Offload/Segmentation/Packets.antt =====
-- src/tunnel/offload.rs: all the packets that `segment_tcp_gso_into` emits, as a receiver takes them.
use ezvpn.Prelude.{
  ℕ, zero, suc, ◌+◌, ◌-◌, ◌*◌, ◌%◌, ◌≤◌, ◌<◌, ◌≡◌, inl, inr, refl, ◌∙◌, List, [], ◌∷◌, ◌++◌, length,
  take, Bytes, All, arith, if◌then◌else◌, nat_eq, leb, Bool, true,
}
use ezvpn.Packet.{byte}
use ezvpn.Offload.{done, VirtioNetHdr}
use ezvpn.Offload.Writes.{IsOctets}
use ezvpn.Offload.Segmentation.{Layout, layout_of, segment_tcp_gso_packet}
use ezvpn.Offload.Segmentation.Build.{numbered_at, scratch_at, chunk_at, numbered-Keeps}
use ezvpn.Offload.Segmentation.Valid.{IsValid4, IsValid6}
use ezvpn.Offload.Segmentation.Accepted.{build-IsValid4, build-IsValid6}
use ezvpn.Offload.Segmentation.Loop.{Fits, layout-Fits, Segments, end, next, segmented}

-- A packet with the lengths and checksums that a receiver expects in its version.
pub data IsValid (l : Layout) (p : Bytes) : Type 0 where
  of_ipv4 : l.version ≡ 4 → IsValid4 l.tcp_offset p → IsValid l p
  of_ipv6 : l.version ≡ 6 → IsValid6 l.tcp_offset p → IsValid l p

-- The IP header ends where the TCP header starts, or before.
unfoldable pub ip_header_ends : Layout → Bytes → Bool
ip_header_ends l packet =
    if nat_eq l.version 4 then leb (byte packet 0 % 16 * 4) l.tcp_offset else leb 40 l.tcp_offset

first_byte : (n : ℕ) (p rest : Bytes) → 1 ≤ n → n ≤ length p → byte (take n p ++ rest) 0 ≡ byte p 0
first_byte zero p rest h k = absurd (omega arith)
first_byte (suc n) [] rest h k = absurd (omega arith)
first_byte (suc n) (b ∷ p) rest h k = refl

pub numbered_first :
    (offload : VirtioNetHdr) (l : Layout) (packet : Bytes) (offset : ℕ)
    → Fits l packet
    → byte (numbered_at offload l packet offset) 0 ≡ byte packet 0
unfolding scratch_at
numbered_first offload l packet offset fits =
    (numbered-Keeps offload l packet offset fits.tcp_in).same_first
    ∙ first_byte l.headers packet (chunk_at offload l packet offset) (omega (arith, fits.tcp_in))
        fits.headers_in

Segments-IsValid :
    (offload : VirtioNetHdr) (l : Layout) (packet : Bytes) (offset : ℕ) {segments : List Bytes}
    → Fits l packet
    → IsOctets packet
    → ip_header_ends l packet ≡ true
    → Segments offload l packet offset segments
    → All (IsValid l) segments
unfolding ip_header_ends
Segments-IsValid offload l packet offset fits octets ends (end over) = tt
Segments-IsValid offload l packet offset fits octets ends (next p on built rest) = (
  elim fits.version_known [
    | inl four ↦ of_ipv4 four (
        build-IsValid4 offload l packet offset fits octets p four
          (ground (arith, ends, four, numbered_first offload l packet offset fits)) built)
    | inr six ↦
        of_ipv6 six (
          build-IsValid6 offload l packet offset fits octets p six (ground (arith, ends, six))
            built)
  ],
  Segments-IsValid offload l packet (offset + offload.gso_size) fits octets ends rest,
)

-- If the IP header of a packet with more payload than one segment takes ends where the TCP header
-- starts, or before, then each packet that it becomes says its own length, and its checksums
-- verify at a receiver.
pub segment-IsValid :
    (offload : VirtioNetHdr) (packet : Bytes) (l : Layout) (segments : List Bytes)
    → IsOctets packet
    → layout_of offload packet ≡ done l
    → ip_header_ends l packet ≡ true
    → offload.gso_size < length packet - l.headers
    → segment_tcp_gso_packet offload packet ≡ done segments
    → All (IsValid l) segments
segment-IsValid offload packet l segments octets laid ends long made =
    Segments-IsValid offload l packet 0 (layout-Fits offload packet l laid).0 octets ends
      (segmented offload l packet segments laid long made)
