-- ===== src/Packet/Own.antt =====
-- src/tunnel/server.rs: which packets are the transport's own, and where a packet goes, by the bytes
-- of its headers.
use mathlib.Core.List.{not-mem-nil, mem-cons, mem-cons_self, mem-cons_of_mem}
use mathlib.Core.Logic.Or
use ezvpn.Prelude.{
  ℕ, ◌+◌, ◌*◌, ◌/◌, ◌%◌, ◌≤◌, ◌≡◌, ◌↔◌, ◌⊎◌, inl, inr, refl, sym, ap, ◌∙◌, true, false, none, some,
  List, [], ◌∷◌, Mem, Option-cases, Bool-cases, if_gave, nat_eq, nat_eq_iff, any, arith, length,
  slice, Bytes, from_be, be16, ltb,
}
use ezvpn.Packet.{
  byte, PacketIp, v4, v6, extract_dest_ip, read_ipv4_addr, read_ipv6_addr, udp_ports_v4,
  udp_ports_v6, extract_udp_ports, hits, packet_has_local_iroh_udp_port,
}

-- The byte at which the UDP header of a packet starts: that of an IPv4 packet behind the length
-- that its header says, that of an IPv6 packet behind a header without extensions.
pub data IsUdpAt (p : Bytes) (start : ℕ) : Type 0 where
  of_ipv4 :
      byte p 0 / 16 ≡ 4
      → byte p 9 ≡ 17
      → start ≡ byte p 0 % 16 * 4
      → 20 ≤ start
      → start + 8 ≤ length p
      → IsUdpAt p start
  of_ipv6 : byte p 0 / 16 ≡ 6 → byte p 6 ≡ 17 → start ≡ 40 → start + 8 ≤ length p → IsUdpAt p start

abbrev pub port_at : Bytes → ℕ → ℕ
port_at p i = be16 (byte p i) (byte p (i + 1))

-- A UDP packet from or to one of the ports.
abbrev pub IsOwn : List ℕ → Bytes → Type 0
IsOwn ports p =
    (start : ℕ) × IsUdpAt p start
    × (Mem (port_at p start) ports ⊎ Mem (port_at p (start + 2)) ports)

any_iff : (x : ℕ) (l : List ℕ) → any (nat_eq x) l ≡ true ↔ Mem x l
any_iff x [] = (λ h. cc, λ m. absurd (not-mem-nil m))
any_iff x (y ∷ l) = (
  λ h. elim (Bool-cases (nat_eq x y)) [
    | inl same ↦ rw ((nat_eq_iff x y).0 same) mem-cons_self
    | inr other ↦ mem-cons_of_mem y ((any_iff x l).0 (ground (arith, other, h)))
  ],
  λ m.
      Or.elim (λ u v. hlevel) (mem-cons.0 m) (λ same. ground (arith, (nat_eq_iff x y).1 same))
        (λ later. ground (arith, (any_iff x l).1 later)),
)

-- The ports of a UDP header.
ports_at : Bytes → ℕ → ℕ × ℕ
ports_at p start = (port_at p start, port_at p (start + 2))

udp-read : (p : Bytes) (start : ℕ) → IsUdpAt p start → extract_udp_ports p ≡ some (ports_at p start)
unfolding extract_udp_ports udp_ports_v4 udp_ports_v6 ports_at
udp-read p start (of_ipv4 version protocol at_header behind room) =
    rw at_header (ground (arith, version, protocol, at_header, behind, room))
udp-read p start (of_ipv6 version protocol at_header room) =
    rw at_header (ground (arith, version, protocol, at_header, room))

read_v4 :
    (p : Bytes) (found : ℕ × ℕ)
    → byte p 0 / 16 ≡ 4
    → udp_ports_v4 p ≡ some found
    → (start : ℕ) × IsUdpAt p start × (ports_at p start ≡ found)
unfolding udp_ports_v4 ports_at
read_v4 p found version h = (
  byte p 0 % 16 * 4,
  of_ipv4 version (ground arith) refl (ground arith) (ground arith),
  ground arith,
)

read_v6 :
    (p : Bytes) (found : ℕ × ℕ)
    → byte p 0 / 16 ≡ 6
    → udp_ports_v6 p ≡ some found
    → (start : ℕ) × IsUdpAt p start × (ports_at p start ≡ found)
unfolding udp_ports_v6 ports_at
read_v6 p found version h = (40, of_ipv6 version (ground arith) refl (ground arith), ground arith)

read-udp :
    (p : Bytes) (found : ℕ × ℕ)
    → extract_udp_ports p ≡ some found
    → (start : ℕ) × IsUdpAt p start × (ports_at p start ≡ found)
unfolding extract_udp_ports
read-udp p found h = elim (if_gave (ltb (length p) 20) none _ h) [
  | inl (short, none_found) ↦ cc
  | inr (long, h4) ↦ elim (if_gave (nat_eq (byte p 0 / 16) 4) _ _ h4) [
    | inl (four, in4) ↦ read_v4 p found ((nat_eq_iff (byte p 0 / 16) 4).0 four) in4
    | inr (other, h6) ↦ elim (if_gave (nat_eq (byte p 0 / 16) 6) _ _ h6) [
      | inl (six, in6) ↦ read_v6 p found ((nat_eq_iff (byte p 0 / 16) 6).0 six) in6
      | inr (neither, none_found) ↦ cc
    ]
  ]
]

hits_iff :
    (ports : List ℕ) (src dst : ℕ)
    → hits ports (some (src, dst)) ≡ true ↔ (Mem src ports ⊎ Mem dst ports)
unfolding hits
hits_iff ports src dst = (
  λ h. elim (Bool-cases (any (nat_eq src) ports)) [
    | inl from_it ↦ inl ((any_iff src ports).0 from_it)
    | inr other ↦ inr ((any_iff dst ports).0 (ground (arith, other, h)))
  ],
  λ m. elim m [
    | inl from_it ↦ ground (arith, (any_iff src ports).1 from_it)
    | inr to_it ↦ ground (arith, (any_iff dst ports).1 to_it)
  ],
)

hits-IsOwn : (p : Bytes) (ports : List ℕ) → hits ports (extract_udp_ports p) ≡ true → IsOwn ports p
unfolding ports_at
hits-IsOwn p ports h = elim (Option-cases (extract_udp_ports p)) [
  | inl nothing ↦ absurd (none_hits (ap (hits ports) (sym nothing) ∙ h))
  | inr (found, at_found) ↦
      let (start, udp, same) = read-udp p found at_found in
      (
        start,
        udp,
        (hits_iff ports (port_at p start) (port_at p (start + 2))).0
            (ap (λ q. hits ports (some q)) same ∙ ap (hits ports) (sym at_found) ∙ h),
      )
]
  where
    none_hits : hits ports none ≡ true → ⊥
    none_hits e = unfold hits in cc

IsOwn-hits : (p : Bytes) (ports : List ℕ) → IsOwn ports p → hits ports (extract_udp_ports p) ≡ true
unfolding ports_at
IsOwn-hits p ports (start, udp, named) =
    rw (udp-read p start udp) ((hits_iff ports (port_at p start) (port_at p (start + 2))).1 named)

-- The test finds exactly the packets from or to one of the ports.
pub not-IsOwn_iff :
    (p : Bytes) (ports : List ℕ)
    → packet_has_local_iroh_udp_port p ports ≡ false ↔ (¬ IsOwn ports p)
unfolding packet_has_local_iroh_udp_port
not-IsOwn_iff p [] = (
  λ h (start, udp, named). elim named [ inl m ↦ not-mem-nil m | inr m ↦ not-mem-nil m ],
  λ h. refl,
)
not-IsOwn_iff p (port ∷ ports) = (
  λ h own. cc (h, IsOwn-hits p (port ∷ ports) own),
  λ h. elim (Bool-cases (hits (port ∷ ports) (extract_udp_ports p))) [
    | inl hit ↦ absurd (h (hits-IsOwn p (port ∷ ports) hit))
    | inr missed ↦ missed
  ],
)

-- The destination of a packet, by the bytes of its header.
abbrev pub IsTo : Bytes → PacketIp → Type 0
IsTo p (v4 a) = (20 ≤ length p) × (byte p 0 / 16 ≡ 4) × (from_be (slice 16 20 p) ≡ a)
IsTo p (v6 a) = (40 ≤ length p) × (byte p 0 / 16 ≡ 6) × (from_be (slice 24 40 p) ≡ a)

pub extract_dest_ip_iff : (p : Bytes) (ip : PacketIp) → extract_dest_ip p ≡ some ip ↔ IsTo p ip
unfolding extract_dest_ip read_ipv4_addr read_ipv6_addr
extract_dest_ip_iff p (v4 a) = (λ h. (ground arith, ground arith, ground arith), λ h. ground arith)
extract_dest_ip_iff p (v6 a) = (λ h. (ground arith, ground arith, ground arith), λ h. ground arith)
