-- ===== src/Config/Laws.antt =====
-- What a valid combination of networks is.
use ezvpn.Prelude.{ℕ, ◌≤◌, ◌≡◌, ◌≢◌, ◌↔◌, ◌⊎◌, true, Option, none, some, arith}
use ezvpn.Error.{ok}
use ezvpn.IpNet.{IpNetOps}
use ezvpn.Config.{
  Ip6Strategy, sequential, node_id, outside, validate_ip6_strategy, validate_vpn_networks,
}

-- A server address needs its network, which contains it.
abbrev pub IsWithin : {Net : Type 0} → IpNetOps Net → Option ℕ → Option Net → Type 0
IsWithin ops none net = Unit
IsWithin ops (some ip) none = ⊥
IsWithin ops (some ip) (some net) = ops.contains net ip ≡ true

abbrev pub FitsStrategy :
    {Net : Type 0} → IpNetOps Net → Ip6Strategy → Option Net → Option ℕ → Type 0
FitsStrategy ops sequential network6 server_ip6 = Unit
FitsStrategy ops node_id none server_ip6 = ⊥
FitsStrategy ops node_id (some net) server_ip6 = (ops.prefix_len net ≤ 64) × (server_ip6 ≡ none)

module _ {Net4 Net6 : Type 0} (ops4 : IpNetOps Net4) (ops6 : IpNetOps Net6) where
  -- A configuration is accepted exactly when it has a network, each server address lies in its
  -- network, and the node-id strategy has an IPv6 network of /64 or wider and no server address.
  pub valid_iff :
      (network : Option Net4) (server_ip : Option ℕ) (network6 : Option Net6)
      (server_ip6 : Option ℕ) (strategy : Ip6Strategy)
      → (validate_vpn_networks ops4 ops6 network server_ip network6 server_ip6 strategy ≡ ok tt) ↔ (
          ((network ≢ none) ⊎ (network6 ≢ none))
          × IsWithin ops4 server_ip network
          × IsWithin ops6 server_ip6 network6
          × FitsStrategy ops6 strategy network6 server_ip6)
  unfolding validate_vpn_networks validate_ip6_strategy outside
  valid_iff network server_ip network6 server_ip6 strategy = ground arith
