-- ===== src/Config.antt =====
-- src/config/mod.rs: the validation of networks, server addresses and the IPv6 strategy.
pub mod Client
pub mod File
pub mod Laws
use ezvpn.Prelude.{
  ℕ, Bool, true, false, not, ◌&&◌, Option, none, some, ltb, if◌then◌else◌, is_none, is_some,
}
use ezvpn.Error.{Result, ok, err, reject_if, ◌>>=◌, ◌>>◌, config}
use ezvpn.IpNet.{IpNetOps}

pub data Ip6Strategy : Type 0 where
  sequential node_id : Ip6Strategy

-- whether an address was given that its network does not contain
outside : {Net : Type 0} → IpNetOps Net → Option ℕ → Option Net → Bool
outside ops (some ip) (some net) = not (ops.contains net ip)
outside ops none net = false
outside ops (some ip) none = false

module _ {Net6 : Type 0} (ops6 : IpNetOps Net6) where
  unfoldable pub validate_ip6_strategy : Ip6Strategy → Option Net6 → Option ℕ → Result (Unit {0})
  validate_ip6_strategy sequential network6 server_ip6 = ok tt
  validate_ip6_strategy node_id none server_ip6 =
      err (config "ip6_strategy 'node-id' requires 'network6' to be set")
  validate_ip6_strategy node_id (some network6) server_ip6 = do
    reject_if (ltb 64 (ops6.prefix_len network6))
        (config "ip6_strategy 'node-id' requires an IPv6 subnet of /64 or wider")
    reject_if (is_some server_ip6)
        (config "'server_ip6' cannot be combined with ip6_strategy 'node-id'")
    ok tt

module _ {Net4 Net6 : Type 0} (ops4 : IpNetOps Net4) (ops6 : IpNetOps Net6) where
  unfoldable pub validate_vpn_networks :
      Option Net4 → Option ℕ → Option Net6 → Option ℕ → Ip6Strategy → Result (Unit {0})
  unfolding outside
  validate_vpn_networks network server_ip network6 server_ip6 ip6_strategy = do
    reject_if (is_none network && is_none network6)
        (config "At least one of 'network' (IPv4) or 'network6' (IPv6) must be configured")
    reject_if (is_some server_ip && is_none network)
        (config "'server_ip' requires 'network' to be set")
    reject_if (outside ops4 server_ip network) (config "'server_ip' is not within 'network'")
    reject_if (is_some server_ip6 && is_none network6)
        (config "'server_ip6' requires 'network6' to be set")
    reject_if (outside ops6 server_ip6 network6) (config "'server_ip6' is not within 'network6'")
    validate_ip6_strategy ops6 ip6_strategy network6 server_ip6
