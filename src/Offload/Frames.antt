-- ===== src/Offload/Frames.antt =====
-- src/tunnel/offload.rs: composing a frame, and splitting it.
use ezvpn.Prelude.{
  ◌^◌, ◌<◌, ◌≡◌, ◌≢◌, refl, ◌↔◌, subst, ◌∙◌, ap, Bool, true, false, Option, none, some, ◌++◌,
  length, Bytes, is_some, arith,
}
use ezvpn.Offload.{
  Outcome, done, failed, VirtioNetHdr, from_array, from_bytes, to_bytes, default_hdr, is_tcp_gso,
  has_checksum_metadata, split_vnet, split_parsed, split_tun_frame, compose_tun_frame,
  unwrap_or_default,
}

-- The fields fit their widths; `num_buffers` is not on the wire.
pub record IsWire (h : VirtioNetHdr) : Type 0 where
  pub hdr_len_lt : h.hdr_len < 2 ^ 16
  pub gso_size_lt : h.gso_size < 2 ^ 16
  pub csum_start_lt : h.csum_start < 2 ^ 16
  pub csum_offset_lt : h.csum_offset < 2 ^ 16
  pub no_buffers : h.num_buffers ≡ 0

from_array-to_bytes : (h : VirtioNetHdr) → IsWire h → from_array (to_bytes h) ≡ h
unfolding from_array to_bytes
from_array-to_bytes h w =
    ground (arith, w.hdr_len_lt, w.gso_size_lt, w.csum_start_lt, w.csum_offset_lt, w.no_buffers)

-- A header is read back from its ten bytes.
pub from_bytes-to_bytes : (h : VirtioNetHdr) → IsWire h → from_bytes (to_bytes h) ≡ done h
unfolding from_bytes to_bytes
from_bytes-to_bytes h w = ap done (from_array-to_bytes h w)

-- Metadata that the device gives: TCP segmentation, or a checksum to complete or known to be good.
unfoldable pub Carried : Option VirtioNetHdr → Type 0
Carried none = Unit
Carried (some h) =
    IsWire h
    × (h.gso_type ≡ 0 → has_checksum_metadata h ≡ true)
    × (h.gso_type ≢ 0 → is_tcp_gso h ≡ true)

split_vnet-some :
    (h : VirtioNetHdr) (packet : Bytes)
    → Carried (some h)
    → 0 < length packet
    → split_vnet h packet ≡ done (some h, packet)
unfolding split_vnet Carried
split_vnet-some h packet carried full = ground (arith, carried.1, carried.2)

split_vnet-default :
    (packet : Bytes) → 0 < length packet → split_vnet default_hdr packet ≡ done (none, packet)
unfolding split_vnet default_hdr has_checksum_metadata
split_vnet-default packet full = ground arith

split-to_bytes :
    (h : VirtioNetHdr) (packet : Bytes)
    → IsWire h
    → split_tun_frame (to_bytes h ++ packet) true ≡ split_vnet h packet
unfolding split_tun_frame split_parsed to_bytes from_bytes
split-to_bytes h packet w = rw (from_array-to_bytes h w) (ground arith)

composed :
    (offload : Option VirtioNetHdr) (packet frame : Bytes)
    → compose_tun_frame true offload packet ≡ done frame
    → (0 < length packet) × (to_bytes (unwrap_or_default offload) ++ packet ≡ frame)
unfolding compose_tun_frame
composed offload packet frame made = ground arith

default-IsWire : IsWire default_hdr
unfolding default_hdr
default-IsWire = record {
  hdr_len_lt = omega arith;
  gso_size_lt = omega arith;
  csum_start_lt = omega arith;
  csum_offset_lt = omega arith;
  no_buffers = refl;
}

split_composed :
    (offload : Option VirtioNetHdr) (packet : Bytes)
    → Carried offload
    → 0 < length packet
    → split_tun_frame (to_bytes (unwrap_or_default offload) ++ packet) true ≡ done (offload, packet)
unfolding unwrap_or_default Carried
split_composed none packet carried full =
    split-to_bytes default_hdr packet default-IsWire ∙ split_vnet-default packet full
split_composed (some h) packet carried full =
    split-to_bytes h packet carried.0 ∙ split_vnet-some h packet carried full

-- What is composed of a packet and the metadata of a device splits into the same metadata and
-- packet, with virtio headers and without.
pub split-compose :
    (vnet : Bool) (offload : Option VirtioNetHdr) (packet frame : Bytes)
    → Carried offload
    → compose_tun_frame vnet offload packet ≡ done frame
    → split_tun_frame frame vnet ≡ done (offload, packet)
unfolding compose_tun_frame split_tun_frame
split-compose true offload packet frame carried made =
    let (full, at) = composed offload packet frame made in
    subst (λ f. split_tun_frame f true ≡ done (offload, packet)) at
      (split_composed offload packet carried full)
split-compose false none packet frame carried made = ground arith
split-compose false (some h) packet frame carried made = ground arith

unfoldable pub is_done : {A : Type 0} → Outcome A → Bool
is_done (done a) = true
is_done (failed e) = false

-- Composing fails exactly on an empty packet, or on metadata for a device without headers.
compose_done_iff :
    (vnet : Bool) (offload : Option VirtioNetHdr) (packet : Bytes)
    → is_done (compose_tun_frame vnet offload packet) ≡ true
      ↔ ((0 < length packet) × (is_some offload ≡ true → vnet ≡ true))
unfolding compose_tun_frame is_done
compose_done_iff vnet offload packet = (λ h. ground arith, λ h. ground arith)
