-- ===== src/Offload.antt =====
-- src/tunnel/offload.rs: the header of a frame of the TUN device, and the frames that carry it.
-- Errors are values, with the source's fixed texts.
pub mod Frames
pub mod Segments
pub mod Plan
pub mod Checksum
pub mod Fields
pub mod Superframe
pub mod Segmentation
pub mod Materialize
pub mod Writes
pub mod Sums
use Prim.Native.String.{String}
use ezvpn.Prelude.{
  ℕ, ◌+◌, ◌*◌, ◌/◌, ◌%◌, ◌^◌, Bool, true, false, not, ◌&&◌, ◌||◌, Option, none, some, List, [], ◌∷◌,
  ◌++◌, nat_eq, ltb, if◌then◌else◌, length, take, drop, Bytes, le16, is_some,
}
use ezvpn.Packet.{byte}

pub data Outcome (A : Type 0) : Type 0 where
  done : A → Outcome A
  failed : String → Outcome A

abbrev pub virtio_net_hdr_len : ℕ
virtio_net_hdr_len = 10

abbrev pub needs_csum : ℕ
needs_csum = 1

abbrev pub gso_none : ℕ
gso_none = 0

abbrev pub gso_tcpv4 : ℕ
gso_tcpv4 = 1

abbrev pub gso_tcpv6 : ℕ
gso_tcpv6 = 4

pub record VirtioNetHdr : Type 0 where
  pub flags : ℕ
  pub gso_type : ℕ
  pub hdr_len : ℕ
  pub gso_size : ℕ
  pub csum_start : ℕ
  pub csum_offset : ℕ
  pub num_buffers : ℕ

pub default_hdr : VirtioNetHdr
default_hdr = record {
  flags = 0;
  gso_type = 0;
  hdr_len = 0;
  gso_size = 0;
  csum_start = 0;
  csum_offset = 0;
  num_buffers = 0;
}

-- `From<[u8; 10]>`
unfoldable pub from_array : Bytes → VirtioNetHdr
from_array value = record {
  flags = byte value 0;
  gso_type = byte value 1;
  hdr_len = le16 (byte value 2) (byte value 3);
  gso_size = le16 (byte value 4) (byte value 5);
  csum_start = le16 (byte value 6) (byte value 7);
  csum_offset = le16 (byte value 8) (byte value 9);
  num_buffers = 0;
}

unfoldable pub from_bytes : Bytes → Outcome VirtioNetHdr
from_bytes bytes =
    if nat_eq (length bytes) virtio_net_hdr_len
    then done (from_array bytes)
    else failed "virtio_net_hdr has a wrong length"

abbrev to_le_bytes : ℕ → Bytes
to_le_bytes n = n % 256 ∷ n / 256 % 256 ∷ []

unfoldable pub to_bytes : VirtioNetHdr → Bytes
to_bytes h =
    h.flags ∷ h.gso_type ∷ to_le_bytes h.hdr_len
    ++ to_le_bytes h.gso_size
    ++ to_le_bytes h.csum_start
    ++ to_le_bytes h.csum_offset

-- `gso_type & !GSO_ECN`, of a byte
unfoldable pub normalized_gso_type : VirtioNetHdr → ℕ
normalized_gso_type h = h.gso_type % 128

unfoldable pub is_tcp_gso : VirtioNetHdr → Bool
is_tcp_gso h =
    (nat_eq (normalized_gso_type h) gso_tcpv4 || nat_eq (normalized_gso_type h) gso_tcpv6)
    && not (nat_eq h.gso_size 0)

unfoldable pub needs_checksum : VirtioNetHdr → Bool
needs_checksum h = nat_eq (h.flags % 2) 1

unfoldable pub has_checksum_metadata : VirtioNetHdr → Bool
has_checksum_metadata h =
    not (nat_eq h.flags 0) || not (nat_eq h.csum_start 0) || not (nat_eq h.csum_offset 0)

split_vnet : VirtioNetHdr → Bytes → Outcome (Option VirtioNetHdr × Bytes)
split_vnet offload ip_packet =
    if nat_eq (length ip_packet) 0
    then failed "empty IP payload after virtio header"
    else if nat_eq offload.gso_type gso_none
    then (if has_checksum_metadata offload
        then done (some offload, ip_packet)
        else done (none, ip_packet))
    else if is_tcp_gso offload
    then done (some offload, ip_packet)
    else failed "unsupported GSO type from TUN"

split_parsed : Outcome VirtioNetHdr → Bytes → Outcome (Option VirtioNetHdr × Bytes)
unfolding split_vnet
split_parsed (failed e) ip_packet = failed e
split_parsed (done offload) ip_packet = split_vnet offload ip_packet

unfoldable pub split_tun_frame : Bytes → Bool → Outcome (Option VirtioNetHdr × Bytes)
unfolding split_parsed
split_tun_frame frame vnet_hdr_enabled =
    if not vnet_hdr_enabled
    then (if nat_eq (length frame) 0 then failed "zero-length TUN frame" else done (none, frame))
    else if ltb (length frame) virtio_net_hdr_len
    then failed "TUN frame shorter than virtio header"
    else split_parsed (from_bytes (take virtio_net_hdr_len frame)) (drop virtio_net_hdr_len frame)

unwrap_or_default : Option VirtioNetHdr → VirtioNetHdr
unwrap_or_default none = default_hdr
unwrap_or_default (some h) = h

unfoldable pub compose_tun_frame : Bool → Option VirtioNetHdr → Bytes → Outcome Bytes
unfolding unwrap_or_default
compose_tun_frame vnet_hdr_enabled offload ip_packet =
    if nat_eq (length ip_packet) 0
    then failed "cannot compose TUN frame with empty IP payload"
    else if not vnet_hdr_enabled && is_some offload
    then failed "received offload metadata but local TUN does not use vnet headers"
    else if vnet_hdr_enabled
    then done (to_bytes (unwrap_or_default offload) ++ ip_packet)
    else done ip_packet
