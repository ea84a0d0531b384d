-- ===== src/Server/Outbound.antt =====
-- src/tunnel/server.rs, `run_tun_reader`: which client a frame from the TUN device is for.
use ezvpn.Prelude.{
  ℕ, ◌≡◌, ◌↔◌, refl, ap, Bool, true, Option, none, some, List, Eq, pair_eq, ℕ_eq, if◌then◌else◌,
  Bytes, arith, Bool-cases, Option-cases, inl, inr, some_injective,
}
use ezvpn.Dict
use ezvpn.Dict.{contains_key}
use ezvpn.Packet.Own.{IsOwn, IsTo, not-IsOwn_iff, extract_dest_ip_iff}
use ezvpn.Packet.{PacketIp, v4, v6, extract_dest_ip, packet_has_local_iroh_udp_port}
use ezvpn.Offload.{Outcome, done, failed, VirtioNetHdr, split_tun_frame}
use ezvpn.Server.{Server, ClientState}
use ezvpn.Server.Stats.{VpnServerStats, add}

pub data Route (E : Type 0) : Type 0 where
  own_transport unknown_version no_route : Route E
  to_client : E × ℕ → Route E

module _ {Net4 Net6 E : Type 0} where
  -- The client that an address is mapped to.
  unfoldable pub owner : Server Net4 Net6 E → PacketIp → Option (E × ℕ)
  owner s (v4 dst) = Dict.get dst s.ip_to_endpoint
  owner s (v6 dst) = Dict.get dst s.ip6_to_endpoint

module _ {Net4 Net6 E : Type 0} ⦃e : Eq E⦄ where
  unfoldable pub client_route : Server Net4 Net6 E → Option (E × ℕ) → Route E
  client_route s none = no_route
  client_route s (some key) = if contains_key key s.clients then to_client key else no_route

  unfoldable pub dest_route : Server Net4 Net6 E → Option PacketIp → Route E
  dest_route s none = unknown_version
  dest_route s (some dst) = client_route s (owner s dst)

  unfoldable pub route : List ℕ → Server Net4 Net6 E → Bytes → Route E
  route ports s packet =
      if packet_has_local_iroh_udp_port packet ports
      then own_transport
      else dest_route s (extract_dest_ip packet)

-- What is queued for a client, if anything, and the counters.
unfoldable pub routed :
    {E : Type 0}
    → Route E
    → Option VirtioNetHdr × Bytes
    → VpnServerStats
    → Option ((E × ℕ) × (Option VirtioNetHdr × Bytes)) × VpnServerStats
routed own_transport parts s = (none, s)
routed unknown_version parts s =
    (none, record s { packets_unknown_version = add s.packets_unknown_version 1 })
routed no_route parts s = (none, record s { packets_no_route = add s.packets_no_route 1 })
routed (to_client key) parts s = (some (key, parts), s)

routed-to :
    {E : Type 0} (r : Route E) (parts : Option VirtioNetHdr × Bytes) (stats : VpnServerStats)
    (key : E × ℕ)
    → (routed r parts stats).0 ≡ some (key, parts)
    → r ≡ to_client key
unfolding routed
routed-to own_transport parts stats key h = cc
routed-to unknown_version parts stats key h = cc
routed-to no_route parts stats key h = cc
routed-to (to_client k) parts stats key h = ap (λ q. to_client q.0) (some_injective h)

module _ {Net4 Net6 E : Type 0} ⦃e : Eq E⦄ where
  unfoldable pub split_routed :
      List ℕ
      → Server Net4 Net6 E
      → Outcome (Option VirtioNetHdr × Bytes)
      → VpnServerStats
      → Option ((E × ℕ) × (Option VirtioNetHdr × Bytes)) × VpnServerStats
  split_routed ports s (failed m) stats = (none, stats)
  split_routed ports s (done parts) stats = routed (route ports s parts.1) parts stats

  -- A frame that was read.
  unfoldable pub handle_frame :
      List ℕ
      → Bool
      → Server Net4 Net6 E
      → Bytes
      → VpnServerStats
      → Option ((E × ℕ) × (Option VirtioNetHdr × Bytes)) × VpnServerStats
  handle_frame ports vnet s frame stats =
      split_routed ports s (split_tun_frame frame vnet)
        (record stats { tun_packets_read = add stats.tun_packets_read 1 })

  -- The address that a packet goes to is mapped to the client, in the map of its version.
  abbrev pub IsMapped : Server Net4 Net6 E → E × ℕ → PacketIp → Type 0
  IsMapped s key (v4 dst) = Dict.get dst s.ip_to_endpoint ≡ some key
  IsMapped s key (v6 dst) = Dict.get dst s.ip6_to_endpoint ≡ some key

  -- A packet is for a client if its destination is mapped to it and it has a session.
  pub record IsFor (ports : List ℕ) (s : Server Net4 Net6 E) (key : E × ℕ) (packet : Bytes)
      : Type 0 where
    pub not_own_transport : ¬ IsOwn ports packet
    pub destination : (ip : PacketIp) × IsTo packet ip × IsMapped s key ip
    pub connected : (state : ClientState) × (Dict.get key s.clients ≡ some state)

  owner_iff :
      (s : Server Net4 Net6 E) (key : E × ℕ) (ip : PacketIp)
      → owner s ip ≡ some key ↔ IsMapped s key ip
  unfolding owner
  owner_iff s key (v4 dst) = (λ h. h, λ h. h)
  owner_iff s key (v6 dst) = (λ h. h, λ h. h)

  contains_key_iff :
      (s : Server Net4 Net6 E) (key : E × ℕ)
      → contains_key key s.clients ≡ true
        ↔ ((state : ClientState) × (Dict.get key s.clients ≡ some state))
  contains_key_iff s key = (
    λ h. elim (Option-cases (Dict.get key s.clients)) [
      | inl absent ↦ absurd (ground (arith, h, absent))
      | inr held ↦ held
    ],
    λ (state, held). rw (held, contains_key) refl,
  )

  client_route-to :
      (s : Server Net4 Net6 E) (o : Option (E × ℕ)) (key : E × ℕ)
      → client_route s o ≡ to_client key
      → (o ≡ some key) × (contains_key key s.clients ≡ true)
  unfolding client_route
  client_route-to s none key h = cc
  client_route-to s (some k) key h = ground arith

  route-IsFor :
      (ports : List ℕ) (s : Server Net4 Net6 E) (key : E × ℕ) (packet : Bytes)
      → route ports s packet ≡ to_client key
      → IsFor ports s key packet
  unfolding route dest_route
  route-IsFor ports s key packet h =
      elim (Bool-cases (packet_has_local_iroh_udp_port packet ports)) [
        | inl own ↦ cc (rw (own, route) at h)
        | inr other ↦ elim (Option-cases (extract_dest_ip packet)) [
          | inl unknown ↦ cc (rw (other, unknown, route, dest_route) at h)
          | inr (ip, at_ip) ↦
              let to_key =
                client_route-to s (owner s ip) key (rw (other, at_ip, route, dest_route) at h) in
              record {
                not_own_transport = (not-IsOwn_iff packet ports).0 other;
                destination =
                    (ip, (extract_dest_ip_iff packet ip).0 at_ip, (owner_iff s key ip).0 to_key.0);
                connected = (contains_key_iff s key).0 to_key.1;
              }
        ]
      ]

  IsFor-route :
      (ports : List ℕ) (s : Server Net4 Net6 E) (key : E × ℕ) (packet : Bytes)
      → IsFor ports s key packet
      → route ports s packet ≡ to_client key
  unfolding route dest_route client_route
  IsFor-route ports s key packet v =
      let (ip, goes, mapped) = v.destination in
      rw
        (
          (not-IsOwn_iff packet ports).1 v.not_own_transport,
          (extract_dest_ip_iff packet ip).1 goes,
          (owner_iff s key ip).1 mapped,
          (contains_key_iff s key).1 v.connected,
          route,
          dest_route,
          client_route,
        )
        refl

  -- A frame that splits into a packet is queued for a client exactly if the packet is not the
  -- transport's own (a UDP packet from or to one of its ports), the destination in its header is
  -- mapped to the client, in the map of its IP version, and the client has a session.
  pub queued_iff :
      (ports : List ℕ) (vnet : Bool) (s : Server Net4 Net6 E) (frame : Bytes)
      (stats : VpnServerStats) (key : E × ℕ) (parts : Option VirtioNetHdr × Bytes)
      → split_tun_frame frame vnet ≡ done parts
      → (handle_frame ports vnet s frame stats).0 ≡ some (key, parts) ↔ IsFor ports s key parts.1
  unfolding handle_frame split_routed routed
  queued_iff ports vnet s frame stats key parts h = rw h (
    λ got. route-IsFor ports s key parts.1 (routed-to (route ports s parts.1) parts _ key got),
    λ v. rw (IsFor-route ports s key parts.1 v) refl,
  )
