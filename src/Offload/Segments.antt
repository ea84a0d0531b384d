-- ===== src/Offload/Segments.antt =====
-- src/tunnel/offload.rs: the TCP segments that can be joined for one write to the TUN device, and
-- `plan_tun_write_groups`, which finds the runs of them in a batch.
pub mod Parsed
use ezvpn.Prelude.{
  ℕ, zero, suc, ◌+◌, ◌-◌, ◌*◌, ◌/◌, ◌%◌, ◌^◌, Bool, true, false, not, ◌&&◌, ◌||◌, Option, none,
  some, List, [], ◌∷◌, nat_eq, ltb, leb, if◌then◌else◌, length, drop, slice, Bytes, be16, from_be,
}
use ezvpn.Packet.{byte}

pub record TcpSegmentMeta : Type 0 where
  pub is_ipv6 : Bool
  pub ip_header_len : ℕ
  pub tcp_header_len : ℕ
  pub seq : ℕ
  pub payload_len : ℕ

unfoldable pub header_len : TcpSegmentMeta → ℕ
header_len m = m.ip_header_len + m.tcp_header_len

-- No options, TCP, no fragment, no ECN mark, and the length that the header says.
unfoldable plain_v4 : Bytes → Bool
plain_v4 p =
    not (ltb (length p) 20)
    && nat_eq (byte p 0 % 16) 5
    && nat_eq (byte p 9) 6
    && nat_eq (be16 (byte p 6) (byte p 7) % 2 ^ 14) 0
    && nat_eq (byte p 1 % 4) 0
    && nat_eq (be16 (byte p 2) (byte p 3)) (length p)

-- TCP without extension headers, no ECN mark in the traffic class (a byte), the right length.
unfoldable plain_v6 : Bytes → Bool
plain_v6 p =
    not (ltb (length p) 40)
    && nat_eq (byte p 6) 6
    && nat_eq ((byte p 0 * 16 % 256 + byte p 1 / 16) % 4) 0
    && nat_eq (be16 (byte p 4) (byte p 5)) (length p - 40)

-- The flags FIN, SYN, RST and URG.
unfoldable no_coalesce : ℕ → Bool
no_coalesce flags = not (nat_eq (flags % 8) 0) || nat_eq (flags / 32 % 2) 1

-- The TCP header at its offset.
parse_tcp : Bool → ℕ → Bytes → Option TcpSegmentMeta
parse_tcp is_ipv6 offset p =
    let tcp_header_len : ℕ = byte p (offset + 12) / 16 * 4 in
    if ltb (length p) (offset + 20)
    then none
    else if ltb tcp_header_len 20 || ltb (length p) (offset + tcp_header_len)
    then none
    else if no_coalesce (byte p (offset + 13))
    then none
    else if nat_eq (length p - offset - tcp_header_len) 0
    then none
    else some (record {
      is_ipv6 = is_ipv6;
      ip_header_len = offset;
      tcp_header_len = tcp_header_len;
      seq = from_be (slice (offset + 4) (offset + 8) p);
      payload_len = length p - offset - tcp_header_len;
    })

unfoldable pub parse_coalescible_tcp : Bytes → Option TcpSegmentMeta
unfolding parse_tcp plain_v4 plain_v6 no_coalesce
parse_coalescible_tcp [] = none
parse_coalescible_tcp (b ∷ bs) =
    let p : Bytes = b ∷ bs in
    if nat_eq (byte p 0 / 16) 4
    then (if plain_v4 p then parse_tcp false 20 p else none)
    else if nat_eq (byte p 0 / 16) 6
    then (if plain_v6 p then parse_tcp true 40 p else none)
    else none

unfoldable pub bytes_eq : Bytes → Bytes → Bool
bytes_eq [] [] = true
bytes_eq (x ∷ xs) (y ∷ ys) = nat_eq x y && bytes_eq xs ys
bytes_eq _ _ = false

same_slice : ℕ → ℕ → Bytes → Bytes → Bool
same_slice i j a b = bytes_eq (slice i j a) (slice i j b)

same_ip : Bool → Bytes → Bytes → Bool
same_ip true a b = same_slice 0 4 a b && same_slice 8 40 a b && nat_eq (byte a 7) (byte b 7)
same_ip false a b =
    nat_eq (byte a 1) (byte b 1) && nat_eq (byte a 8) (byte b 8) && same_slice 12 20 a b

bool_eq : Bool → Bool → Bool
bool_eq true b = b
bool_eq false b = not b

unfoldable pub can_chain : Bytes → TcpSegmentMeta → Bytes → TcpSegmentMeta → Bool
unfolding same_slice same_ip bool_eq
can_chain a ma b mb =
    let t : ℕ = ma.ip_header_len in
    bool_eq ma.is_ipv6 mb.is_ipv6
    && nat_eq ma.tcp_header_len mb.tcp_header_len
    && same_ip ma.is_ipv6 a b
    && same_slice t (t + 4) a b
    && same_slice (t + 8) (t + 12) a b
    && same_slice (t + 14) (t + 16) a b
    && same_slice (t + 20) (t + ma.tcp_header_len) a b
    && nat_eq mb.seq ((ma.seq + ma.payload_len) % 2 ^ 32)

-- The inner loop: how many packets join a run after `prev`.
unfoldable pub extend : ℕ → ℕ → Bytes → TcpSegmentMeta → List Bytes → ℕ
extend seg_size merged prev prev_meta [] = 0
extend seg_size merged prev prev_meta (packet ∷ rest) = elim (parse_coalescible_tcp packet) [
  | none ↦ 0
  | some next ↦
      let more : ℕ = extend seg_size (merged + next.payload_len) packet next rest in
      if ltb seg_size next.payload_len
        || ltb 65535 (merged + next.payload_len)
        || not (can_chain prev prev_meta packet next)
      then 0
      else if ltb next.payload_len seg_size
      then 1
      else suc more
]

-- How many packets of the batch after the first are in its run.
unfoldable pub joined : Bytes → List Bytes → ℕ
joined first rest = elim (parse_coalescible_tcp first) [
  | none ↦ 0
  | some m ↦ extend m.payload_len (header_len m + m.payload_len) first m rest
]

-- The outer loop, from index `i`, with fuel.
unfoldable pub plan_from : ℕ → ℕ → List Bytes → List (ℕ × ℕ × Bool)
plan_from zero i batch = []
plan_from (suc fuel) i [] = []
plan_from (suc fuel) i (first ∷ rest) =
    let n : ℕ = joined first rest in
    let groups = plan_from fuel (i + suc n) (drop n rest) in (i, i + suc n, leb 2 (suc n)) ∷ groups

-- Each round takes a packet, so the number of packets is fuel enough.
unfoldable pub plan_tun_write_groups : List Bytes → List (ℕ × ℕ × Bool)
plan_tun_write_groups batch = plan_from (length batch) 0 batch
