-- ===== src/Packet/Stable.antt =====
-- The parsers of src/tunnel/server.rs on packets that are followed by more bytes.
use ezvpn.Prelude.{
  ℕ, ◌+◌, ◌*◌, ◌%◌, ◌≤◌, ◌<◌, ◌≡◌, ap, some, ◌++◌, arith, length, length-append, get_or-append_left,
  slice-append_left, Bytes, from_be,
}
use ezvpn.Packet.{
  byte, PacketIp, extract_source_ip, extract_dest_ip, extract_udp_ports, udp_ports_v4, udp_ports_v6,
  read_ipv4_addr, read_ipv6_addr,
}

module _ (p q : Bytes) where
  same_byte : (i : ℕ) → i < length p → byte (p ++ q) i ≡ byte p i
  same_byte i h = get_or-append_left p q i 0 h

  same_v4 : (i : ℕ) → i + 4 ≤ length p → read_ipv4_addr (p ++ q) i ≡ read_ipv4_addr p i
  unfolding read_ipv4_addr
  same_v4 i h = ap from_be (slice-append_left i (i + 4) p q (omega arith) h)

  same_v6 : (i : ℕ) → i + 16 ≤ length p → read_ipv6_addr (p ++ q) i ≡ read_ipv6_addr p i
  unfolding read_ipv6_addr
  same_v6 i h = ap from_be (slice-append_left i (i + 16) p q (omega arith) h)

  source-append :
      (a : PacketIp) → extract_source_ip p ≡ some a → extract_source_ip (p ++ q) ≡ some a
  unfolding extract_source_ip
  source-append a h = ground (arith, length-append p q, same_byte 0, same_v4 12, same_v6 8)

  dest-append : (a : PacketIp) → extract_dest_ip p ≡ some a → extract_dest_ip (p ++ q) ≡ some a
  unfolding extract_dest_ip
  dest-append a h = ground (arith, length-append p q, same_byte 0, same_v4 16, same_v6 24)

  ports_v4-append :
      (a : ℕ × ℕ) → 20 ≤ length p → udp_ports_v4 p ≡ some a → udp_ports_v4 (p ++ q) ≡ some a
  unfolding udp_ports_v4
  ports_v4-append a long h =
      let ihl : ℕ = byte p 0 % 16 * 4 in
      rw (same_byte 0 (omega arith), same_byte 9 (omega arith))
        (ground (
          arith,
          length-append p q,
          same_byte ihl,
          same_byte (ihl + 1),
          same_byte (ihl + 2),
          same_byte (ihl + 3),
        ))

  ports_v6-append : (a : ℕ × ℕ) → udp_ports_v6 p ≡ some a → udp_ports_v6 (p ++ q) ≡ some a
  unfolding udp_ports_v6
  ports_v6-append a h = ground (
    arith,
    length-append p q,
    same_byte 6,
    same_byte 40,
    same_byte 41,
    same_byte 42,
    same_byte 43,
  )

  -- Where the ports of a packet are found, they are found there whatever is appended to it.
  pub ports-append :
      (a : ℕ × ℕ) → extract_udp_ports p ≡ some a → extract_udp_ports (p ++ q) ≡ some a
  unfolding extract_udp_ports
  ports-append a h =
      ground (arith, length-append p q, same_byte 0, ports_v4-append a, ports_v6-append a)
