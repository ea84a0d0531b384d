-- ===== src/Tests/Choosing.antt =====
-- The choice of a path, the overlap of routes, and the parameters of reconnects, at concrete values.
use ezvpn.Prelude.{
  if◌then◌else◌, ℕ, ◌≡◌, refl, Bool, false, none, some, List, [], ◌∷◌, All, get_elem?, nat_eq, ℕ_eq,
  option_eq,
}
use ezvpn.IpNet.{IpAddr, ip4, ip6}
use ezvpn.Signaling.Agreement.{ServerInfo}
use ezvpn.Transport.PathSelector.{
  PathOps, key_lt, better, is_excluded, sort_key, is_current, key_of, scan, switch_to, chosen,
  choose,
}
use ezvpn.Transport.PathSelector.Choice.{Beaten}
use ezvpn.Transport.PathSelector.Switch.{key}
use ezvpn.Transport.PathSelector.Decision.{Left, choose-Worth}
use ezvpn.Net.LocalNetworks.{
  net4, LocalNetwork, overlaps, find_local, conflict_in, all_routes, split_tunnel_conflict,
}
use ezvpn.Net.LocalNetworks.Conflict.{Means, split_tunnel_conflict-Means}
use ezvpn.Client.Params.{
  from_server_info, non_ip_fields_eq, params_eq, check_params_against, check_all, latest,
  SameNetworks, check_all-SameNetworks,
}
use ezvpn.Tests
use ezvpn.Tests.{net4-IsIpNet, net6-IsIpNet}

-- Paths by number: 0 is the relay, 1 and 2 are direct, from hosts 1 and 2.
abbrev paths : PathOps ℕ
paths = record {
  remote_ip = λ p. if nat_eq p 0 then none else some (ip4 p);
  is_ipv6 = λ p. false;
  is_relay = λ p. nat_eq p 0;
  same = nat_eq;
}

abbrev host : ℕ → IpAddr → Bool
host net (ip4 a) = nat_eq net a
host net (ip6 a) = false

-- Host 1 is excluded, so the direct path to host 2 replaces the relay, though it is slower.
abbrev candidates : List (ℕ × ℕ)
candidates = (0, 5000000) ∷ (1, 1000000) ∷ (2, 9000000) ∷ []

choose-Worth_example :
    (c : ℕ × ℕ) × (get_elem? candidates 2 ≡ some c)
    × (is_excluded paths host (1 ∷ []) c.0 ≡ false)
    × All (Beaten paths host (1 ∷ []) (some (key paths host (1 ∷ []) (some 0) c))) candidates
    × All (Left paths host (1 ∷ []) (some 0) (key paths host (1 ∷ []) (some 0) c)) candidates
unfolding choose chosen switch_to scan key_of is_current sort_key is_excluded better key_lt
choose-Worth_example = choose-Worth paths host (1 ∷ []) (some 0) candidates 2 refl

-- The network of addresses 20 to 23, on a host.
abbrev home : List (LocalNetwork ℕ ℕ)
home = record { interface = "en0"; net = net4 5 } ∷ []

split_tunnel_conflict-Means_example :
    Means Tests.net4 Tests.net6 net4-IsIpNet net6-IsIpNet
      (all_routes Tests.net4 Tests.net6 (4 ∷ 5 ∷ []) (5 ∷ []))
      home
      (some (net4 5, record { interface = "en0"; net = net4 5 }))
unfolding split_tunnel_conflict conflict_in find_local overlaps
split_tunnel_conflict-Means_example =
    split_tunnel_conflict-Means Tests.net4 Tests.net6 net4-IsIpNet net6-IsIpNet (4 ∷ 5 ∷ [])
      (5 ∷ []) home

abbrev info : ℕ → ServerInfo ℕ ℕ
info ip = record {
  assigned_ip = some ip;
  network = some 5;
  server_ip = some 21;
  assigned_ip6 = none;
  network6 = none;
  server_ip6 = none;
  server_addrs = [];
}

check_all-SameNetworks_example :
    All
      (λ i. SameNetworks (from_server_info (info 22)) (from_server_info i))
      (info 22 ∷ info 23 ∷ [])
    × ((check_all none (info 22 ∷ info 22 ∷ info 23 ∷ [])).0
        ≡ some (latest (from_server_info (info 22)) (info 22 ∷ info 23 ∷ [])))
unfolding check_all check_params_against params_eq non_ip_fields_eq from_server_info
check_all-SameNetworks_example = check_all-SameNetworks (info 22) (info 22 ∷ info 23 ∷ []) refl
