-- ===== src/Server/Inbound.antt =====
-- src/tunnel/server.rs, `handle_client_data`: what becomes of a packet that a client sent, and
-- `enqueue_tun_write`. The answer of the channel of the crate `tokio` is a parameter.
pub mod Isolation
use ezvpn.Prelude.{
  ℕ, zero, ◌+◌, ◌*◌, ◌/◌, ◌%◌, ◌^◌, ◌≡◌, Bool, true, false, not, ◌++◌, ◌&&◌, Option, none, some,
  List, [], ◌∷◌, Eq, ◌==◌, pair_eq, ℕ_eq, nat_eq, if◌then◌else◌, Bytes,
}
use ezvpn.Dict
use ezvpn.Dict.{Dict, contains_key}
use ezvpn.Packet.{
  PacketIp, v4, v6, extract_source_ip, extract_dest_ip, packet_has_local_iroh_udp_port,
}
use ezvpn.Server.Stats.{VpnServerStats, add}

-- The answer to `try_send`, and where the channel was full, to the `send` that waits.
pub data ChannelAnswer : Type 0 where
  sent closed full_then_sent full_then_closed : ChannelAnswer

-- Whether the connection goes on, the counters after, and what was written.
pub enqueue_tun_write : ChannelAnswer → VpnServerStats → Bool × VpnServerStats
enqueue_tun_write sent s = (true, record s { packets_from_clients = add s.packets_from_clients 1 })
enqueue_tun_write full_then_sent s =
    (true, record s { packets_from_clients = add s.packets_from_clients 1 })
enqueue_tun_write closed s =
    (false, record s { packets_tun_write_failed = add s.packets_tun_write_failed 1 })
enqueue_tun_write full_then_closed s =
    (false, record s { packets_tun_write_failed = add s.packets_tun_write_failed 1 })

-- The first two octets of an address: `fe80::/10`.
unfoldable pub is_link_local : ℕ → Bool
is_link_local ip = nat_eq (ip / 2 ^ 120) 254 && nat_eq (ip / 2 ^ 112 % 256 / 64) 2

pub record ClientContext (E : Type 0) : Type 0 where
  pub client_key : E × ℕ
  pub ip_to_endpoint : Dict ℕ (E × ℕ)
  pub ip6_to_endpoint : Dict ℕ (E × ℕ)

module _ {E : Type 0} ⦃e : Eq E⦄ where
  -- A source address is the client's, or nobody's in the tunnel.
  unfoldable pub not_of_another : E × ℕ → Option (E × ℕ) → Bool
  not_of_another client_key none = true
  not_of_another client_key (some owner) = owner == client_key

  unfoldable pub source_valid : ClientContext E → Option PacketIp → Bool
  source_valid ctx (some (v4 src)) = not_of_another ctx.client_key (Dict.get src ctx.ip_to_endpoint)
  source_valid ctx (some (v6 src)) =
      if is_link_local src
      then false
      else not_of_another ctx.client_key (Dict.get src ctx.ip6_to_endpoint)
  source_valid ctx none = false

module _ {E : Type 0} where
  unfoldable pub to_vpn_client : ClientContext E → Option PacketIp → Bool
  to_vpn_client ctx (some (v4 dst)) = contains_key dst ctx.ip_to_endpoint
  to_vpn_client ctx (some (v6 dst)) = contains_key dst ctx.ip6_to_endpoint
  to_vpn_client ctx none = false

module _ {E : Type 0} ⦃e : Eq E⦄ where
  -- One packet: whether the loop goes on, the counters, and what the channel took.
  unfoldable pub handle_packet :
      List ℕ
      → ClientContext E
      → Bytes
      → ChannelAnswer
      → VpnServerStats
      → Bool × VpnServerStats × List Bytes
  handle_packet ports ctx packet answer s =
      let (more, after) = enqueue_tun_write answer s in
      if packet_has_local_iroh_udp_port packet ports
      then (true, s, [])
      else if not (source_valid ctx (extract_source_ip packet))
      then (true, record s { packets_spoofed = add s.packets_spoofed 1 }, [])
      else if to_vpn_client ctx (extract_dest_ip packet)
      then (
        true,
        record s { packets_inter_client_blocked = add s.packets_inter_client_blocked 1 },
        [],
      )
      else (more, after, if more then packet ∷ [] else [])

  -- The packets of a batch, in order, each with the channel's answer at its turn.
  unfoldable pub handle_batch :
      List ℕ
      → ClientContext E
      → List (Bytes × ChannelAnswer)
      → VpnServerStats
      → Bool × VpnServerStats × List Bytes
  handle_batch ports ctx [] s = (true, s, [])
  handle_batch ports ctx ((packet, answer) ∷ batch) s =
      let (more, after, written) = handle_packet ports ctx packet answer s in
      let (more', after', written') = handle_batch ports ctx batch after in
      if more then (more', after', written ++ written') else (false, after, written)
