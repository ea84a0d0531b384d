-- ===== src/Net/LocalNetworks.antt =====
-- src/net/local_networks.rs: whether a route of the split tunnel overlaps a network that the host is
-- on. A prefix of the crate ipnet has a case for each version, and a test of an address of the other
-- version fails.
pub mod Blocks
pub mod Conflict
use Prim.Native.String.{String}
use ezvpn.Prelude.{
  ℕ, Bool, true, false, ◌||◌, Option, none, some, List, [], ◌∷◌, ◌++◌, map, ltb, leb, any,
  if◌then◌else◌,
}
use ezvpn.IpNet.{IpNetOps, IpAddr, ip4, ip6}

abbrev pub exempt_max_prefix_len : ℕ
exempt_max_prefix_len = 1

-- `ipnet::IpNet`
pub data IpNet (Net4 Net6 : Type 0) : Type 0 where
  net4 : Net4 → IpNet Net4 Net6
  net6 : Net6 → IpNet Net4 Net6

pub record LocalNetwork (Net4 Net6 : Type 0) : Type 0 where
  pub interface : String
  pub net : IpNet Net4 Net6

module _ {Net4 Net6 : Type 0} (ops4 : IpNetOps Net4) (ops6 : IpNetOps Net6) where
  abbrev pub network : IpNet Net4 Net6 → IpAddr
  network (net4 n) = ip4 (ops4.network n)
  network (net6 n) = ip6 (ops6.network n)

  abbrev pub prefix_len : IpNet Net4 Net6 → ℕ
  prefix_len (net4 n) = ops4.prefix_len n
  prefix_len (net6 n) = ops6.prefix_len n

  abbrev pub contains : IpNet Net4 Net6 → IpAddr → Bool
  contains (net4 n) (ip4 a) = ops4.contains n a
  contains (net4 n) (ip6 a) = false
  contains (net6 n) (ip4 a) = false
  contains (net6 n) (ip6 a) = ops6.contains n a

  unfoldable pub overlaps : IpNet Net4 Net6 → IpNet Net4 Net6 → Bool
  overlaps a b = contains a (network b) || contains b (network a)

  -- `locals.iter().find(..)`
  unfoldable pub find_local :
      IpNet Net4 Net6 → List (LocalNetwork Net4 Net6) → Option (LocalNetwork Net4 Net6)
  find_local route [] = none
  find_local route (l ∷ locals) =
      let rest = find_local route locals in if overlaps route l.net then some l else rest

  found_on :
      IpNet Net4 Net6
      → Option (LocalNetwork Net4 Net6)
      → Option (IpNet Net4 Net6 × LocalNetwork Net4 Net6)
      → Option (IpNet Net4 Net6 × LocalNetwork Net4 Net6)
  found_on route none rest = rest
  found_on route (some l) rest = some (route, l)

  -- The loop over the routes of both versions.
  unfoldable pub conflict_in :
      List (IpNet Net4 Net6)
      → List (LocalNetwork Net4 Net6)
      → Option (IpNet Net4 Net6 × LocalNetwork Net4 Net6)
  unfolding found_on
  conflict_in [] locals = none
  conflict_in (route ∷ routes) locals =
      let rest = conflict_in routes locals in
      if leb (prefix_len route) exempt_max_prefix_len
      then rest
      else found_on route (find_local route locals) rest

  abbrev pub all_routes : List Net4 → List Net6 → List (IpNet Net4 Net6)
  all_routes routes routes6 = map net4 routes ++ map net6 routes6

  unfoldable pub split_tunnel_conflict :
      List Net4
      → List Net6
      → List (LocalNetwork Net4 Net6)
      → Option (IpNet Net4 Net6 × LocalNetwork Net4 Net6)
  split_tunnel_conflict routes routes6 locals = conflict_in (all_routes routes routes6) locals

  unfoldable pub has_refusable_routes : List Net4 → List Net6 → Bool
  has_refusable_routes routes routes6 =
      any (λ r. ltb exempt_max_prefix_len (ops4.prefix_len r)) routes
      || any (λ r. ltb exempt_max_prefix_len (ops6.prefix_len r)) routes6
