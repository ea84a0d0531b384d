-- ===== src/Offload/Materialize.antt =====
-- src/tunnel/offload.rs: `materialize_offload_into`, which turns a packet with the metadata of the
-- device into plain IP packets: it segments it, completes its checksum, or passes it on.
pub mod Completed
pub mod Emitted
use ezvpn.Prelude.{
  ℕ, zero, suc, ◌+◌, ◌-◌, ◌*◌, ◌/◌, ◌%◌, ◌^◌, Bool, true, false, not, ◌&&◌, ◌||◌, Option, none,
  some, List, [], ◌∷◌, ◌++◌, nat_eq, ltb, leb, if◌then◌else◌, length, take, drop, slice, min, Bytes,
  from_be, to_be2, to_be4,
}
use ezvpn.Packet.{byte}
use ezvpn.Offload.{
  Outcome, done, failed, VirtioNetHdr, gso_none, gso_tcpv4, gso_tcpv6, normalized_gso_type,
  is_tcp_gso, needs_checksum,
}
use ezvpn.Offload.Checksum.{add_bytes, finalize_checksum}
use ezvpn.Offload.Segmentation.{complete_checksum, segment_tcp_gso_into, collect, collected}
use ezvpn.Offload.Fields.{
  ◌>>=◌, put, wrapping_add, update_ipv4_lengths_and_checksum, update_ipv6_payload_length,
  tcp_checksum_ipv4, tcp_checksum_ipv6,
}

unfoldable pub validate_checksum_offload : VirtioNetHdr → Bytes → Outcome (Option (ℕ × ℕ))
validate_checksum_offload offload ip_packet =
    let index : ℕ = offload.csum_start + offload.csum_offset in
    if not (nat_eq offload.gso_type gso_none)
    then failed "checksum completion requires GSO_NONE"
    else if nat_eq (length ip_packet) 0
    then failed "empty IP packet"
    else if not (needs_checksum offload)
    then done none
    else if not (nat_eq (offload.flags / 4) 0)
    then failed "unsupported checksum offload flags"
    else if leb (length ip_packet) offload.csum_start
    then failed "invalid csum_start"
    else if ltb (length ip_packet) (index + 2)
    then failed "invalid csum_offset"
    else done (some (offload.csum_start, index))

module _ {S : Type 0} (emit : S → Bytes → S × Outcome (Unit {0})) where
  materialize_checked : Bytes → Outcome (Option (ℕ × ℕ)) → S → S × Outcome (Unit {0})
  materialize_checked ip_packet (failed e) s = (s, failed e)
  materialize_checked ip_packet (done none) s = emit s ip_packet
  materialize_checked ip_packet (done (some (start, index))) s =
      emit s (complete_checksum start index ip_packet)

  unfoldable pub materialize_offload_into : VirtioNetHdr → Bytes → S → S × Outcome (Unit {0})
  unfolding materialize_checked
  materialize_offload_into offload ip_packet s =
      if is_tcp_gso offload
      then segment_tcp_gso_into emit offload ip_packet s
      else if not (nat_eq offload.gso_type gso_none)
      then (s, failed "unsupported GSO type from offload metadata")
      else materialize_checked ip_packet (validate_checksum_offload offload ip_packet) s

unfoldable pub materialize_offload_packet : VirtioNetHdr → Bytes → Outcome (List Bytes)
materialize_offload_packet offload ip_packet =
    collected (materialize_offload_into collect offload ip_packet [])
