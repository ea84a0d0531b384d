-- ===== src/Net/LocalNetworks/Conflict.antt =====
-- src/net/local_networks.rs: what a conflict is, and what it means that there is none.
use ezvpn.Prelude.{
  some_injective, if_gave, ◌≤◌, ◌<◌, ◌≡◌, ◌⊎◌, inl, inr, refl, Bool, true, Option, none, some, List,
  [], ◌∷◌, All, subst, leb, arith, Option-cases, Bool-cases,
}
use mathlib.Core.List.{Memᴰ}
use ezvpn.IpNet.{IpNetOps, IsIpNet, IpAddr, ip4, ip6}
use ezvpn.Net.LocalNetworks.{
  IpNet, net4, net6, LocalNetwork, network, prefix_len, contains, overlaps, find_local, conflict_in,
  all_routes, split_tunnel_conflict,
}
use ezvpn.Net.LocalNetworks.Blocks.{share-contains, contains-network}

module _ {Net4 Net6 : Type 0} (ops4 : IpNetOps Net4) (ops6 : IpNetOps Net6)
    (laws4 : IsIpNet 32 ops4) (laws6 : IsIpNet 128 ops6) where
  abbrev has : IpNet Net4 Net6 → IpAddr → Bool
  has = contains ops4 ops6

  -- An address of both.
  abbrev Shared : IpNet Net4 Net6 → IpNet Net4 Net6 → Type 0
  Shared a b = (ip : IpAddr) × (has a ip ≡ true) × (has b ip ≡ true)

  has_start : (n : IpNet Net4 Net6) → has n (network ops4 ops6 n) ≡ true
  has_start (net4 n) = contains-network 32 ops4 laws4 n
  has_start (net6 n) = contains-network 128 ops6 laws6 n

  overlap-Shared : (a b : IpNet Net4 Net6) → overlaps ops4 ops6 a b ≡ true → Shared a b
  unfolding overlaps
  overlap-Shared a b over = elim (Bool-cases (has a (network ops4 ops6 b))) [
    | inl within ↦ (network ops4 ops6 b, within, has_start b)
    | inr out ↦ (network ops4 ops6 a, has_start a, ground (arith, over, out))
  ]

  Shared-overlaps :
      (a b : IpNet Net4 Net6) (ip : IpAddr)
      → has a ip ≡ true
      → has b ip ≡ true
      → overlaps ops4 ops6 a b ≡ true
  unfolding overlaps
  Shared-overlaps (net4 n) (net4 m) (ip4 a) h k = elim (share-contains 32 ops4 laws4 n m a h k) [
    | inl one ↦ ground (arith, one)
    | inr other ↦ ground (arith, other)
  ]
  Shared-overlaps (net6 n) (net6 m) (ip6 a) h k = elim (share-contains 128 ops6 laws6 n m a h k) [
    | inl one ↦ ground (arith, one)
    | inr other ↦ ground (arith, other)
  ]
  Shared-overlaps (net4 n) (net4 m) (ip6 a) h k = cc
  Shared-overlaps (net6 n) (net6 m) (ip4 a) h k = cc
  Shared-overlaps (net4 n) (net6 m) (ip4 a) h k = cc
  Shared-overlaps (net4 n) (net6 m) (ip6 a) h k = cc
  Shared-overlaps (net6 n) (net4 m) (ip4 a) h k = cc
  Shared-overlaps (net6 n) (net4 m) (ip6 a) h k = cc

  -- The first local network that overlaps a route.
  find_some :
      (route : IpNet Net4 Net6) (locals : List (LocalNetwork Net4 Net6))
      (l : LocalNetwork Net4 Net6)
      → find_local ops4 ops6 route locals ≡ some l
      → Memᴰ l locals × Shared route l.net
  unfolding find_local
  find_some route [] l made = cc
  find_some route (first ∷ locals) l made =
      elim (if_gave (overlaps ops4 ops6 route first.net) _ _ made) [
        | inl (over, here) ↦
            let same : first ≡ l = some_injective here in
            subst (λ l. Memᴰ l (first ∷ locals) × Shared route l.net) same
              (Memᴰ.head refl, overlap-Shared route first.net over)
        | inr (apart, later) ↦
            let (member, shared) = find_some route locals l later in (Memᴰ.tail member, shared)
      ]

  find_none :
      (route : IpNet Net4 Net6) (locals : List (LocalNetwork Net4 Net6))
      → find_local ops4 ops6 route locals ≡ none
      → All (λ l. ¬ (Shared route l.net)) locals
  unfolding find_local
  find_none route [] made = tt
  find_none route (first ∷ locals) made =
      elim (if_gave (overlaps ops4 ops6 route first.net) _ _ made) [
        | inl (over, here) ↦ cc
        | inr (apart, later) ↦ (
          λ (ip, a, b). cc (Shared-overlaps route first.net ip a b, apart),
          find_none route locals later,
        )
      ]

  -- A route that is not exempt, and a local network with which it shares an address.
  abbrev pub Conflict :
      List (IpNet Net4 Net6)
      → List (LocalNetwork Net4 Net6)
      → IpNet Net4 Net6
      → LocalNetwork Net4 Net6
      → Type 0
  Conflict routes locals route l =
      Memᴰ route routes × Memᴰ l locals × (1 < prefix_len ops4 ops6 route) × Shared route l.net

  -- Each route is exempt, or shares no address with a local network.
  abbrev pub Clear : List (IpNet Net4 Net6) → List (LocalNetwork Net4 Net6) → Type 0
  Clear routes locals =
      All (λ route. (prefix_len ops4 ops6 route ≤ 1) ⊎ All (λ l. ¬ (Shared route l.net)) locals)
        routes

  -- What a result of the check means.
  unfoldable pub Means :
      List (IpNet Net4 Net6)
      → List (LocalNetwork Net4 Net6)
      → Option (IpNet Net4 Net6 × LocalNetwork Net4 Net6)
      → Type 0
  Means routes locals none = Clear routes locals
  Means routes locals (some (route, l)) = Conflict routes locals route l

  Means-later :
      (first : IpNet Net4 Net6) (routes : List (IpNet Net4 Net6))
      (locals : List (LocalNetwork Net4 Net6))
      (result : Option (IpNet Net4 Net6 × LocalNetwork Net4 Net6))
      → (prefix_len ops4 ops6 first ≤ 1) ⊎ All (λ l. ¬ (Shared first l.net)) locals
      → Means routes locals result
      → Means (first ∷ routes) locals result
  unfolding Means
  Means-later first routes locals none clear rest = (clear, rest)
  Means-later first routes locals (some (route, l)) clear (a, b, c, d) = (Memᴰ.tail a, b, c, d)

  conflict_in-Means :
      (routes : List (IpNet Net4 Net6)) (locals : List (LocalNetwork Net4 Net6))
      → Means routes locals (conflict_in ops4 ops6 routes locals)
  unfolding conflict_in Means
  conflict_in-Means [] locals = tt
  conflict_in-Means (route ∷ routes) locals =
      elim (Bool-cases (leb (prefix_len ops4 ops6 route) 1)) [
        | inl exempt ↦
            rw (exempt, conflict_in)
              (Means-later route routes locals _ (inl (ground (arith, exempt)))
                (conflict_in-Means routes locals))
        | inr specific ↦ elim (Option-cases (find_local ops4 ops6 route locals)) [
          | inl clear ↦
              rw (specific, clear, conflict_in)
                (Means-later route routes locals _ (inr (find_none route locals clear))
                  (conflict_in-Means routes locals))
          | inr (l, found) ↦
              let (member, shared) = find_some route locals l found in
              rw (specific, found, conflict_in)
                (Memᴰ.head refl, member, ground (arith, specific), shared)
        ]
      ]

  -- The check finds a route that is not exempt and a local network that share an address; or it
  -- finds none, and each route is exempt or shares no address with a local network.
  pub split_tunnel_conflict-Means :
      (routes : List Net4) (routes6 : List Net6) (locals : List (LocalNetwork Net4 Net6))
      → Means
          (all_routes ops4 ops6 routes routes6)
          locals
          (split_tunnel_conflict ops4 ops6 routes routes6 locals)
  unfolding split_tunnel_conflict
  split_tunnel_conflict-Means routes routes6 locals =
      conflict_in-Means (all_routes ops4 ops6 routes routes6) locals
