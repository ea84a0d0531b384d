-- ===== src/Offload/Segments/Parsed.antt =====
-- src/tunnel/offload.rs: what `parse_coalescible_tcp` says of a packet, and `can_chain` of two.
use ezvpn.Prelude.{
  ℕ, ◌+◌, ◌*◌, ◌/◌, ◌%◌, ◌≤◌, ◌<◌, ◌≡◌, ◌⊎◌, refl, sym, Bool, true, false, some, [], ◌∷◌, nat_eq,
  length, Bytes, arith, inl, inr,
}
use ezvpn.Packet.{byte}
use ezvpn.Offload.Segments.{
  TcpSegmentMeta, header_len, plain_v4, parse_tcp, parse_coalescible_tcp, bool_eq, can_chain,
}

-- A packet of a TCP segment with a payload, behind an IPv4 header of 20 bytes or an IPv6 header.
pub record Parsed (p : Bytes) (m : TcpSegmentMeta) : Type 0 where
  pub whole : header_len m + m.payload_len ≡ length p
  pub full : 0 < m.payload_len
  pub tcp_long : 20 ≤ m.tcp_header_len
  pub tcp_len : byte p (m.ip_header_len + 12) / 16 * 4 ≡ m.tcp_header_len
  pub ipv4 :
      m.is_ipv6 ≡ false
      → (m.ip_header_len ≡ 20) × (byte p 0 / 16 ≡ 4) × (byte p 0 % 16 ≡ 5) × (byte p 9 ≡ 6)
  pub ipv6 : m.is_ipv6 ≡ true → (m.ip_header_len ≡ 40) × (byte p 0 / 16 ≡ 6)

abbrev InTcp : Bytes → Bool → ℕ → TcpSegmentMeta → Type 0
InTcp p is_ipv6 offset m =
    (m.is_ipv6 ≡ is_ipv6)
    × (m.ip_header_len ≡ offset)
    × (header_len m + m.payload_len ≡ length p)
    × (0 < m.payload_len)
    × (20 ≤ m.tcp_header_len)
    × (byte p (offset + 12) / 16 * 4 ≡ m.tcp_header_len)

tcp_parsed :
    (p : Bytes) (is_ipv6 : Bool) (offset : ℕ) (m : TcpSegmentMeta)
    → parse_tcp is_ipv6 offset p ≡ some m
    → InTcp p is_ipv6 offset m
unfolding parse_tcp header_len
tcp_parsed p is_ipv6 offset m made = ground (arith, made)

parsed_as :
    (p : Bytes) (m : TcpSegmentMeta)
    → parse_coalescible_tcp p ≡ some m
    → ((nat_eq (byte p 0 / 16) 4 ≡ true) × (plain_v4 p ≡ true) × (parse_tcp false 20 p ≡ some m))
      ⊎ ((nat_eq (byte p 0 / 16) 6 ≡ true) × (parse_tcp true 40 p ≡ some m))
unfolding parse_coalescible_tcp
parsed_as [] m made = cc
parsed_as (b ∷ bs) m made = ground (arith, made)

plain_v4_lem : (p : Bytes) → plain_v4 p ≡ true → (byte p 0 % 16 ≡ 5) × (byte p 9 ≡ 6)
unfolding plain_v4
plain_v4_lem p plain = ground (arith, plain)

pub parse_coalescible_tcp-Parsed :
    (p : Bytes) (m : TcpSegmentMeta) → parse_coalescible_tcp p ≡ some m → Parsed p m
parse_coalescible_tcp-Parsed p m made = elim (parsed_as p m made) [
  | inl (version, plain, parsed) ↦
      let (a, b, c, d, e, f) = tcp_parsed p false 20 m parsed in
      let (g, h) = plain_v4_lem p plain in
      record {
        whole = c;
        full = d;
        tcp_long = e;
        tcp_len = rw b f;
        ipv4 = λ four. (b, ground (arith, version), g, h);
        ipv6 = λ six. cc;
      }
  | inr (version, parsed) ↦
      let (a, b, c, d, e, f) = tcp_parsed p true 40 m parsed in
      record {
        whole = c;
        full = d;
        tcp_long = e;
        tcp_len = rw b f;
        ipv4 = λ four. cc;
        ipv6 = λ six. (b, ground (arith, version));
      }
]

bool_eq_lem : (a b : Bool) → bool_eq a b ≡ true → b ≡ a
unfolding bool_eq
bool_eq_lem true b h = h
bool_eq_lem false false h = refl
bool_eq_lem false true h = sym h

-- Segments that chain have headers of one shape.
pub can_chain-shape :
    (p : Bytes) (m : TcpSegmentMeta) (p' : Bytes) (m' : TcpSegmentMeta)
    → can_chain p m p' m' ≡ true
    → (m'.is_ipv6 ≡ m.is_ipv6) × (m'.tcp_header_len ≡ m.tcp_header_len)
unfolding can_chain
can_chain-shape p m p' m' chains =
    let same : bool_eq m.is_ipv6 m'.is_ipv6 ≡ true = ground (arith, chains) in
    (bool_eq_lem m.is_ipv6 m'.is_ipv6 same, ground (arith, chains))
