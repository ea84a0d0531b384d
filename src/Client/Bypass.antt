-- ===== src/Client/Bypass.antt =====
-- src/tunnel/client.rs: the underlay addresses that are kept out of the tunnel, as the routes of
-- `BypassRouteManager` and as the exclusions of the iOS client. A set is a list in which an element
-- is found or not; whether the system installs a route for an address is a parameter.
use ezvpn.Prelude.{
  ℕ, ◌/◌, ◌^◌, ◌≡◌, ◌↔◌, refl, ap, Bool, true, false, not, ◌&&◌, ◌||◌, List, [], ◌∷◌, nat_eq,
  nat_eq_iff, if◌then◌else◌, any, keep_if, arith,
}
use ezvpn.IpNet.{IpNetOps, IpAddr, ip4, ip6}

unfoldable pub ip_beq : IpAddr → IpAddr → Bool
ip_beq (ip4 a) (ip4 b) = nat_eq a b
ip_beq (ip6 a) (ip6 b) = nat_eq a b
ip_beq _ _ = false

-- `Ipv4Addr::is_private` and `is_link_local`, `Ipv6Addr::is_unique_local` and
-- `is_unicast_link_local`, by their prefixes.
unfoldable pub private_scope : IpAddr → Bool
private_scope (ip4 a) =
    nat_eq (a / 2 ^ 24) 10
    || nat_eq (a / 2 ^ 20) 2753
    || nat_eq (a / 2 ^ 16) 49320
    || nat_eq (a / 2 ^ 16) 43518
private_scope (ip6 a) = nat_eq (a / 2 ^ 121) 126 || nat_eq (a / 2 ^ 118) 1018

-- The prefixes that are routed into the tunnel.
pub record VpnRoutes (Net4 Net6 : Type 0) : Type 0 where
  pub vpn_routes4 : List Net4
  pub vpn_routes6 : List Net6

pub record BypassRouteManager : Type 0 where
  pub active_routes : List IpAddr
  pub collected : List IpAddr

unfoldable pub has : IpAddr → List IpAddr → Bool
has ip ips = any (ip_beq ip) ips

insert_new : IpAddr → List IpAddr → List IpAddr
insert_new ip ips = if has ip ips then ips else ip ∷ ips

extend_set : List IpAddr → List IpAddr → List IpAddr
unfolding insert_new
extend_set [] ips = ips
extend_set (ip ∷ more) ips = extend_set more (insert_new ip ips)

-- Each route on its own: one that fails is passed over.
add_routes : (IpAddr → Bool) → List IpAddr → List IpAddr → List IpAddr
unfolding insert_new
add_routes installs [] active = active
add_routes installs (ip ∷ more) active =
    add_routes installs more (if installs ip then insert_new ip active else active)

module _ {Net4 Net6 : Type 0} (ops4 : IpNetOps Net4) (ops6 : IpNetOps Net6) where
  unfoldable pub ip_covered_by_vpn_routes : VpnRoutes Net4 Net6 → IpAddr → Bool
  ip_covered_by_vpn_routes r (ip4 a) = any (λ n. ops4.contains n a) r.vpn_routes4
  ip_covered_by_vpn_routes r (ip6 a) = any (λ n. ops6.contains n a) r.vpn_routes6

  unfoldable pub needed : VpnRoutes Net4 Net6 → IpAddr → Bool
  needed r ip = if private_scope ip then false else ip_covered_by_vpn_routes r ip

  pub update :
      VpnRoutes Net4 Net6 → (IpAddr → Bool) → List IpAddr → BypassRouteManager → BypassRouteManager
  unfolding extend_set add_routes
  update r installs required_ips m =
      let required = keep_if (needed r) required_ips in
      record {
        active_routes =
            add_routes installs (keep_if (λ ip. not (has ip m.active_routes)) required)
              m.active_routes;
        collected = extend_set required m.collected;
      }

  -- The host prefixes of each family, as their addresses.
  pub overlapping_underlay_excludes : List IpAddr → VpnRoutes Net4 Net6 → List ℕ × List ℕ
  overlapping_underlay_excludes [] r = ([], [])
  overlapping_underlay_excludes (ip4 a ∷ addrs) r =
      let (v4, v6) = overlapping_underlay_excludes addrs r in
      if private_scope (ip4 a)
      then (v4, v6)
      else if any (λ n. ops4.contains n a) r.vpn_routes4
      then (a ∷ v4, v6)
      else (v4, v6)
  overlapping_underlay_excludes (ip6 a ∷ addrs) r =
      let (v4, v6) = overlapping_underlay_excludes addrs r in
      if private_scope (ip6 a)
      then (v4, v6)
      else if any (λ n. ops6.contains n a) r.vpn_routes6
      then (v4, a ∷ v6)
      else (v4, v6)

pub ip_beq_iff : (x y : IpAddr) → (ip_beq x y ≡ true) ↔ (x ≡ y)
unfolding ip_beq
ip_beq_iff (ip4 a) (ip4 b) = (λ h. ap ip4 ((nat_eq_iff a b).0 h), λ h. ground arith)
ip_beq_iff (ip6 a) (ip6 b) = (λ h. ap ip6 ((nat_eq_iff a b).0 h), λ h. ground arith)
ip_beq_iff (ip4 a) (ip6 b) = (λ h. cc, λ h. cc)
ip_beq_iff (ip6 a) (ip4 b) = (λ h. cc, λ h. cc)

pub has-keep_if :
    (p : IpAddr → Bool) (x : IpAddr) (ips : List IpAddr)
    → has x (keep_if p ips) ≡ (has x ips && p x)
unfolding has
has-keep_if p x [] = refl
has-keep_if p x (ip ∷ ips) = ground (arith, ip_beq_iff x ip, has-keep_if p x ips)

has-insert_new :
    (x ip : IpAddr) (ips : List IpAddr) → has x (insert_new ip ips) ≡ (ip_beq x ip || has x ips)
unfolding insert_new has
has-insert_new x ip ips = ground (arith, ip_beq_iff x ip)

has-add_routes :
    (installs : IpAddr → Bool) (x : IpAddr) (more active : List IpAddr)
    → has x (add_routes installs more active) ≡ (has x active || (has x more && installs x))
unfolding add_routes has
has-add_routes installs x [] active = ground arith
has-add_routes installs x (ip ∷ more) active = ground (
  arith,
  ip_beq_iff x ip,
  has-insert_new x ip active,
  has-add_routes installs x more (if installs ip then insert_new ip active else active),
)

has-extend_set :
    (x : IpAddr) (more ips : List IpAddr) → has x (extend_set more ips) ≡ (has x more || has x ips)
unfolding extend_set has
has-extend_set x [] ips = refl
has-extend_set x (ip ∷ more) ips =
    ground (arith, has-insert_new x ip ips, has-extend_set x more (insert_new ip ips))

module _ {Net4 Net6 : Type 0} (ops4 : IpNetOps Net4) (ops6 : IpNetOps Net6) where
  -- After an update an address has a route exactly if it had one, or it is required, needs one and
  -- the system installed it; it is collected if it was, or if it is required and needs a route.
  pub has-update :
      (r : VpnRoutes Net4 Net6) (installs : IpAddr → Bool) (required : List IpAddr)
      (m : BypassRouteManager) (x : IpAddr)
      → let m' = update ops4 ops6 r installs required m in
        (has x m'.active_routes
          ≡ (has x m.active_routes || (has x required && needed ops4 ops6 r x && installs x)))
        × (has x m'.collected ≡ (has x m.collected || (has x required && needed ops4 ops6 r x)))
  unfolding update
  has-update r installs required m x =
      let wanted = keep_if (needed ops4 ops6 r) required in
      let absent : IpAddr → Bool = λ ip. not (has ip m.active_routes) in
      (
        ground (
          arith,
          has-add_routes installs x (keep_if absent wanted) m.active_routes,
          has-keep_if absent x wanted,
          has-keep_if (needed ops4 ops6 r) x required,
        ),
        ground (
          arith,
          has-extend_set x wanted m.collected,
          has-keep_if (needed ops4 ops6 r) x required,
        ),
      )

  -- The iOS client excludes exactly the server's addresses that would need a route elsewhere.
  pub any-excludes :
      (addrs : List IpAddr) (r : VpnRoutes Net4 Net6) (a : ℕ)
      → let (v4, v6) = overlapping_underlay_excludes ops4 ops6 addrs r in
        (any (nat_eq a) v4 ≡ (has (ip4 a) addrs && needed ops4 ops6 r (ip4 a)))
        × (any (nat_eq a) v6 ≡ (has (ip6 a) addrs && needed ops4 ops6 r (ip6 a)))
  unfolding overlapping_underlay_excludes has needed ip_covered_by_vpn_routes ip_beq
  any-excludes [] r a = (refl, refl)
  any-excludes (ip4 b ∷ addrs) r a = ground (arith, nat_eq_iff a b, any-excludes addrs r a)
  any-excludes (ip6 b ∷ addrs) r a = ground (arith, nat_eq_iff a b, any-excludes addrs r a)
