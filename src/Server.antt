-- ===== src/Server.antt =====
-- src/tunnel/server.rs: the state that the connections of a `VpnServer` share, and the parts of
-- `handle_connection` and `handle_connection_inner` that change it. A `DashMap` is a `Dict`.
pub mod Queue
pub mod Queueing
pub mod Stats
pub mod Inbound
pub mod Outbound
pub mod Admission
pub mod Handshake
pub mod Sessions
pub mod Candidates
pub mod Entry
pub mod Life
use Prim.Native.String.{String}
use ezvpn.Prelude.{
  ℕ, zero, suc, ◌+◌, ◌-◌, ◌%◌, ◌^◌, Bool, true, false, ◌&&◌, Option, none, some, List, [], ◌∷◌, Eq,
  ◌==◌, pair_eq, ℕ_eq, nat_eq, leb, if◌then◌else◌, is_none, is_some,
}
use ezvpn.Dict
use ezvpn.Dict.{Dict}
use ezvpn.IpNet.{IpNetOps, IpAddr}
use ezvpn.Error.{VpnError, Result, ok, err, ip_assignment}
use ezvpn.Pool.V4
use ezvpn.Pool.V4.{IpPool}
use ezvpn.Pool.V6
use ezvpn.Pool.V6.{Ip6Pool, Crypto}
use ezvpn.Signaling.{
  VpnHandshakeResponse, accepted, accepted_dual_stack, accepted_ipv6_only, with_server_addrs,
}

abbrev pub u64_mod : ℕ
u64_mod = 2 ^ 64

pub record ClientState : Type 0 where
  pub session_id : ℕ
  pub assigned_ip : Option ℕ
  pub assigned_ip6 : Option ℕ

pub record Server (Net4 Net6 E : Type 0) : Type 0 where
  pub max_clients : ℕ
  pub ip_pool : Option (IpPool Net4 E)
  pub ip6_pool : Option (Ip6Pool Net6 E)
  pub clients : Dict (E × ℕ) ClientState
  pub ip_to_endpoint : Dict ℕ (E × ℕ)
  pub ip6_to_endpoint : Dict ℕ (E × ℕ)
  pub active_connections : ℕ
  pub next_session_id : ℕ

module _ {Net4 Net6 E : Type 0} where
  -- `active_connections.fetch_add(1)`: the count before, and the state after.
  unfoldable pub enter : Server Net4 Net6 E → ℕ × Server Net4 Net6 E
  enter s =
      (s.active_connections, record s { active_connections = (s.active_connections + 1) % u64_mod })

  -- `active_connections.fetch_sub(1)`
  unfoldable pub leave : Server Net4 Net6 E → Server Net4 Net6 E
  leave s = record s { active_connections = (s.active_connections + u64_mod - 1) % u64_mod }

  unfoldable pub is_full : Server Net4 Net6 E → ℕ → Bool
  is_full s prev_count = leb s.max_clients prev_count

-- An exhausted pool is fatal where it is the only one.
pub checked : Option ℕ → Bool → String → Result (Option ℕ)
checked (some ip) only message = ok (some ip)
checked none true message = err (ip_assignment message)
checked none false message = ok none

module _ {Net4 Net6 E : Type 0} ⦃e : Eq E⦄ where
  unfoldable pub assign_ip : Server Net4 Net6 E → E → ℕ → Result (Option ℕ) × Server Net4 Net6 E
  unfolding checked
  assign_ip s endpoint_id device_id = elim s.ip_pool [
    | none ↦ (ok none, s)
    | some pool ↦
        let (got, pool') = V4.allocate pool endpoint_id device_id in
        (checked got (is_none s.ip6_pool) "IPv4 pool exhausted", record s { ip_pool = some pool' })
  ]

module _ {Net4 Net6 E : Type 0} ⦃e : Eq E⦄ (ops6 : IpNetOps Net6) (c : Crypto E) where
  unfoldable pub assign_ip6 : Server Net4 Net6 E → E → ℕ → Result (Option ℕ) × Server Net4 Net6 E
  unfolding checked
  assign_ip6 s endpoint_id device_id = elim s.ip6_pool [
    | none ↦ (ok none, s)
    | some pool ↦
        let (got, pool') = V6.allocate ops6 c pool endpoint_id device_id in
        (checked got (is_none s.ip_pool) "IPv6 pool exhausted", record s { ip6_pool = some pool' })
  ]

-- At least one address is needed.
unfoldable pub both :
    {S : Type 0} → Option ℕ → Result (Option ℕ) × S → Result (Option ℕ × Option ℕ) × S
both ip4 (err e, s) = (err e, s)
both none (ok none, s) = (err (ip_assignment "All IP pools exhausted"), s)
both none (ok (some ip6), s) = (ok (none, some ip6), s)
both (some ip4) (ok ip6, s) = (ok (some ip4, ip6), s)

module _ {Net4 Net6 E : Type 0} ⦃e : Eq E⦄ (ops6 : IpNetOps Net6) (c : Crypto E) where
  unfoldable pub then_ip6 :
      E
      → ℕ
      → Result (Option ℕ) × Server Net4 Net6 E
      → Result (Option ℕ × Option ℕ) × Server Net4 Net6 E
  then_ip6 endpoint_id device_id (err e, s) = (err e, s)
  then_ip6 endpoint_id device_id (ok ip4, s) = both ip4 (assign_ip6 ops6 c s endpoint_id device_id)

  -- The addresses of a new connection; what was allocated before an error stays allocated.
  unfoldable pub assign :
      Server Net4 Net6 E → E → ℕ → Result (Option ℕ × Option ℕ) × Server Net4 Net6 E
  assign s endpoint_id device_id =
      then_ip6 endpoint_id device_id (assign_ip s endpoint_id device_id)

module _ {Net4 Net6 E : Type 0} (ops4 : IpNetOps Net4) (ops6 : IpNetOps Net6) where
  -- The response by the addresses and the pools; `none` where the source panics.
  unfoldable pub response_for :
      Option ℕ
      → Option ℕ
      → Option (IpPool Net4 E)
      → Option (Ip6Pool Net6 E)
      → Option (VpnHandshakeResponse Net4 Net6)
  response_for (some ip4) (some ip6) (some pool) (some pool6) = some (
      accepted_dual_stack ip4 (ops4.host pool.server_ip) pool.server_ip ip6
        (ops6.host pool6.server_ip) pool6.server_ip)
  response_for (some ip4) none (some pool) pool6 =
      some (accepted ip4 (ops4.host pool.server_ip) pool.server_ip)
  response_for none (some ip6) pool (some pool6) =
      some (accepted_ipv6_only ip6 (ops6.host pool6.server_ip) pool6.server_ip)
  response_for _ _ _ _ = none

  unfoldable pub respond :
      Server Net4 Net6 E
      → Option ℕ × Option ℕ
      → List IpAddr
      → Option (VpnHandshakeResponse Net4 Net6)
  unfolding response_for
  respond s (ip4, ip6) server_addrs = elim (response_for ip4 ip6 s.ip_pool s.ip6_pool) [
    | none ↦ none
    | some r ↦ some (with_server_addrs r server_addrs)
  ]

-- An address that is assigned is mapped to its client.
pub map_to : {K : Type 0} → Option ℕ → K → Dict ℕ K → Dict ℕ K
map_to none key m = m
map_to (some ip) key m = Dict.insert ip key m

-- `remove_if` of an address, while it is mapped to the client that leaves.
pub unmap : {K : Type 0} ⦃e : Eq K⦄ → Option ℕ → K → Dict ℕ K → Dict ℕ K
unmap none key m = m
unmap (some ip) key m = elim (Dict.get ip m) [
  | none ↦ m
  | some owner ↦ if owner == key then Dict.remove ip m else m
]

module _ {Net E : Type 0} ⦃e : Eq E⦄ where
  release_ip : Bool → Option (IpPool Net E) → E × ℕ → Option (IpPool Net E)
  release_ip true (some pool) key = some (V4.release pool key.0 key.1)
  release_ip _ pool key = pool

  release_ip6 : Bool → Option (Ip6Pool Net E) → E × ℕ → Option (Ip6Pool Net E)
  release_ip6 true (some pool) key = some (V6.release pool key.0 key.1)
  release_ip6 _ pool key = pool

module _ {Net4 Net6 E : Type 0} ⦃e : Eq E⦄ where
  -- The session id of a connection, and its entries in the maps.
  unfoldable pub register :
      Server Net4 Net6 E → E × ℕ → Option ℕ × Option ℕ → ℕ × Server Net4 Net6 E
  unfolding map_to
  register s key (ip4, ip6) =
      let session_id = s.next_session_id in
      (
        session_id,
        record s {
          next_session_id = (session_id + 1) % u64_mod;
          clients =
              Dict.insert key
                (record { session_id = session_id; assigned_ip = ip4; assigned_ip6 = ip6 })
                s.clients;
          ip_to_endpoint = map_to ip4 key s.ip_to_endpoint;
          ip6_to_endpoint = map_to ip6 key s.ip6_to_endpoint;
        },
      )

  -- What an ended session gives up: its entry, its addresses' entries, and its addresses.
  pub give_up : Server Net4 Net6 E → E × ℕ → Option ℕ × Option ℕ → ClientState → Server Net4 Net6 E
  unfolding release_ip release_ip6 unmap
  give_up s key (ip4, ip6) state = record s {
    clients = Dict.remove key s.clients;
    ip_to_endpoint = unmap ip4 key s.ip_to_endpoint;
    ip6_to_endpoint = unmap ip6 key s.ip6_to_endpoint;
    ip_pool = release_ip (is_some state.assigned_ip) s.ip_pool key;
    ip6_pool = release_ip6 (is_some state.assigned_ip6) s.ip6_pool key;
  }

  -- The end of a session, of which nothing is left to do where a newer session took its place.
  pub cleanup : Server Net4 Net6 E → E × ℕ → ℕ → Option ℕ × Option ℕ → Server Net4 Net6 E
  unfolding give_up
  cleanup s key session_id ips = elim (Dict.get key s.clients) [
    | none ↦ s
    | some state ↦ if nat_eq state.session_id session_id then give_up s key ips state else s
  ]
