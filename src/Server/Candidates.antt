-- ===== src/Server/Candidates.antt =====
-- src/tunnel/server.rs: the addresses of the server that its clients keep out of the tunnel. The
-- addresses of the endpoint are an argument.
pub mod Outside
pub mod Elements
pub mod Sorted
use ezvpn.Prelude.{
  ℕ, ◌/◌, ◌^◌, Bool, true, false, not, ◌&&◌, ◌||◌, Option, none, some, List, [], ◌∷◌, nat_eq, leb,
  if◌then◌else◌, keep_if,
}
use ezvpn.IpNet.{IpNetOps, IpAddr, ip4, ip6}
use ezvpn.Client.Bypass.{ip_beq}

-- By the ranges of loopback, unspecified and link-local addresses.
unfoldable pub is_routable_underlay : IpAddr → Bool
is_routable_underlay (ip4 a) =
    not (nat_eq (a / 2 ^ 24) 127 || nat_eq a 0) && not (nat_eq (a / 2 ^ 16) 43518)
is_routable_underlay (ip6 a) = not (nat_eq a 1 || nat_eq a 0) && not (nat_eq (a / 2 ^ 118) 1018)

overlay_contains : {Net : Type 0} → IpNetOps Net → Option Net → ℕ → Bool
overlay_contains ops none a = false
overlay_contains ops (some net) a = ops.contains net a

-- The derived order: version 4 before version 6.
pub ip_le : IpAddr → IpAddr → Bool
ip_le (ip4 a) (ip4 b) = leb a b
ip_le (ip4 a) (ip6 b) = true
ip_le (ip6 a) (ip4 b) = false
ip_le (ip6 a) (ip6 b) = leb a b

insert_sorted : IpAddr → List IpAddr → List IpAddr
insert_sorted ip [] = ip ∷ []
insert_sorted ip (other ∷ ips) =
    let rest = other ∷ insert_sorted ip ips in if ip_le ip other then ip ∷ other ∷ ips else rest

unfoldable pub sort_unstable : List IpAddr → List IpAddr
unfolding insert_sorted ip_le
sort_unstable [] = []
sort_unstable (ip ∷ ips) = insert_sorted ip (sort_unstable ips)

-- What is left of a run of equal addresses is its first.
dedup_from : IpAddr → List IpAddr → List IpAddr
dedup_from ip [] = ip ∷ []
dedup_from ip (other ∷ ips) =
    let same = dedup_from ip ips in
    let new = ip ∷ dedup_from other ips in if ip_beq ip other then same else new

unfoldable pub dedup : List IpAddr → List IpAddr
unfolding dedup_from
dedup [] = []
dedup (ip ∷ ips) = dedup_from ip ips

module _ {Net4 Net6 : Type 0} (ops4 : IpNetOps Net4) (ops6 : IpNetOps Net6) where
  unfoldable pub ip_in_overlay : IpAddr → Option Net4 → Option Net6 → Bool
  unfolding overlay_contains
  ip_in_overlay (ip4 a) overlay_v4 overlay_v6 = overlay_contains ops4 overlay_v4 a
  ip_in_overlay (ip6 a) overlay_v4 overlay_v6 = overlay_contains ops6 overlay_v6 a

  unfoldable pub server_candidate_addrs : List IpAddr → Option Net4 → Option Net6 → List IpAddr
  server_candidate_addrs ip_addrs overlay_v4 overlay_v6 = dedup (
      sort_unstable (
        keep_if is_routable_underlay
          (keep_if (λ ip. not (ip_in_overlay ip overlay_v4 overlay_v6)) ip_addrs)))
