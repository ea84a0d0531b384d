-- ===== src/Packet.antt =====
-- The packet parsers of src/tunnel/server.rs (and their copies in src/tunnel/client.rs): addresses and UDP
-- ports of an IP packet, and the filter that keeps the transport's own packets out of the tunnel.
-- A byte is read by `byte`, under a length test that keeps the index in bounds.
pub mod Fields
pub mod Own
pub mod Stable
use ezvpn.Prelude.{
  ℕ, ◌+◌, ◌*◌, ◌/◌, ◌%◌, ◌^◌, Bool, true, false, not, ◌&&◌, ◌||◌, Option, none, some, List, [], ◌∷◌,
  nat_eq, ltb, if◌then◌else◌, length, get_or, slice, any, Bytes, from_be, be16,
}

abbrev pub byte : Bytes → ℕ → ℕ
byte packet i = get_or packet i 0

pub data PacketIp : Type 0 where
  v4 v6 : ℕ → PacketIp

abbrev pub ipv4_min_header : ℕ
ipv4_min_header = 20

abbrev pub ipv6_min_header : ℕ
ipv6_min_header = 40

unfoldable pub read_ipv4_addr : Bytes → ℕ → ℕ
read_ipv4_addr packet offset = from_be (slice offset (offset + 4) packet)

unfoldable pub read_ipv6_addr : Bytes → ℕ → ℕ
read_ipv6_addr packet offset = from_be (slice offset (offset + 16) packet)

unfoldable pub extract_source_ip : Bytes → Option PacketIp
extract_source_ip packet =
    let len = length packet in
    let version = byte packet 0 / 16 in
    if ltb len ipv4_min_header
    then none
    else if nat_eq version 4
    then some (v4 (read_ipv4_addr packet 12))
    else if nat_eq version 6
    then (if ltb len ipv6_min_header then none else some (v6 (read_ipv6_addr packet 8)))
    else none

unfoldable pub extract_dest_ip : Bytes → Option PacketIp
extract_dest_ip packet =
    let len = length packet in
    let version = byte packet 0 / 16 in
    if ltb len ipv4_min_header
    then none
    else if nat_eq version 4
    then some (v4 (read_ipv4_addr packet 16))
    else if nat_eq version 6
    then (if ltb len ipv6_min_header then none else some (v6 (read_ipv6_addr packet 24)))
    else none

unfoldable pub udp_ports_v4 : Bytes → Option (ℕ × ℕ)
udp_ports_v4 packet =
    let ihl : ℕ = byte packet 0 % 16 * 4 in
    if ltb ihl ipv4_min_header || ltb (length packet) (ihl + 8)
    then none
    else if not (nat_eq (byte packet 9) 17)
    then none
    else some (
      be16 (byte packet ihl) (byte packet (ihl + 1)),
      be16 (byte packet (ihl + 2)) (byte packet (ihl + 3)),
    )

unfoldable pub udp_ports_v6 : Bytes → Option (ℕ × ℕ)
udp_ports_v6 packet =
    if ltb (length packet) (ipv6_min_header + 8)
    then none
    else if not (nat_eq (byte packet 6) 17)
    then none
    else some (be16 (byte packet 40) (byte packet 41), be16 (byte packet 42) (byte packet 43))

unfoldable pub extract_udp_ports : Bytes → Option (ℕ × ℕ)
extract_udp_ports packet =
    let version = byte packet 0 / 16 in
    if ltb (length packet) ipv4_min_header
    then none
    else if nat_eq version 4
    then udp_ports_v4 packet
    else if nat_eq version 6
    then udp_ports_v6 packet
    else none

-- A blocked port on either side of a UDP packet.
hits : List ℕ → Option (ℕ × ℕ) → Bool
hits blocked none = false
hits blocked (some (src, dst)) = any (nat_eq src) blocked || any (nat_eq dst) blocked

unfoldable pub packet_has_local_iroh_udp_port : Bytes → List ℕ → Bool
unfolding hits
packet_has_local_iroh_udp_port packet [] = false
packet_has_local_iroh_udp_port packet (port ∷ ports) =
    hits (port ∷ ports) (extract_udp_ports packet)
