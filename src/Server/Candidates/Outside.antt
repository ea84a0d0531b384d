-- ===== src/Server/Candidates/Outside.antt =====
-- src/tunnel/server.rs: which addresses may be published, by the ranges of the addresses.
use ezvpn.Prelude.{
  ℕ, ◌+◌, ◌*◌, ◌-◌, ◌^◌, ◌≤◌, ◌≡◌, ◌≢◌, ◌↔◌, refl, subst, some_injective, true, false, not, Option,
  none, some, arith,
}
use ezvpn.IpNet.{IpNetOps, IpAddr, ip4, ip6}
use ezvpn.Server.Candidates.{is_routable_underlay, overlay_contains, ip_in_overlay}

abbrev pub octets : ℕ → ℕ → ℕ → ℕ → ℕ
octets a b c d = ((a * 256 + b) * 256 + c) * 256 + d

abbrev pub IsBetween : ℕ → ℕ → ℕ → Type 0
IsBetween low high a = (low ≤ a) × (a ≤ high)

-- Not 0.0.0.0, not in 127.0.0.0/8 and not in 169.254.0.0/16; not ::, not ::1 and not in fe80::/10.
abbrev pub IsRoutable : IpAddr → Type 0
IsRoutable (ip4 a) =
    (a ≢ octets 0 0 0 0)
    × (¬ IsBetween (octets 127 0 0 0) (octets 127 255 255 255) a)
    × (¬ IsBetween (octets 169 254 0 0) (octets 169 254 255 255) a)
IsRoutable (ip6 a) =
    (a ≢ 0) × (a ≢ 1) × (¬ IsBetween (65152 * 2 ^ 112) (65215 * 2 ^ 112 + (2 ^ 112 - 1)) a)

-- An address that the network of its version, if there is one, does not contain.
abbrev pub IsOutside :
    {Net4 Net6 : Type 0}
    → IpNetOps Net4
    → IpNetOps Net6
    → Option Net4
    → Option Net6
    → IpAddr
    → Type 0
IsOutside ops4 ops6 overlay_v4 overlay_v6 (ip4 a) =
    (net : _) → overlay_v4 ≡ some net → ops4.contains net a ≡ false
IsOutside ops4 ops6 overlay_v4 overlay_v6 (ip6 a) =
    (net : _) → overlay_v6 ≡ some net → ops6.contains net a ≡ false

pub is_routable_underlay_iff : (ip : IpAddr) → is_routable_underlay ip ≡ true ↔ IsRoutable ip
unfolding is_routable_underlay
is_routable_underlay_iff (ip4 a) = (
  λ h. (λ e. ground (arith, h, e), λ e. ground (arith, h, e), λ e. ground (arith, h, e)),
  λ h. ground (arith, h),
)
is_routable_underlay_iff (ip6 a) = (
  λ h. (λ e. ground (arith, h, e), λ e. ground (arith, h, e), λ e. ground (arith, h, e)),
  λ h. ground (arith, h),
)

not_contained_iff :
    {Net : Type 0} (ops : IpNetOps Net) (overlay : Option Net) (a : ℕ)
    → not (overlay_contains ops overlay a) ≡ true
      ↔ ((net : Net) → overlay ≡ some net → ops.contains net a ≡ false)
unfolding overlay_contains
not_contained_iff ops none a = (λ h net held. cc, λ h. refl)
not_contained_iff ops (some net) a = (
  λ h other held. subst (λ n. ops.contains n a ≡ false) (some_injective held) (ground (arith, h)),
  λ h. ground (arith, h net refl),
)

pub ip_in_overlay_iff :
    {Net4 Net6 : Type 0} (ops4 : IpNetOps Net4) (ops6 : IpNetOps Net6) (overlay_v4 : Option Net4)
    (overlay_v6 : Option Net6) (ip : IpAddr)
    → not (ip_in_overlay ops4 ops6 ip overlay_v4 overlay_v6) ≡ true
      ↔ IsOutside ops4 ops6 overlay_v4 overlay_v6 ip
unfolding ip_in_overlay
ip_in_overlay_iff ops4 ops6 overlay_v4 overlay_v6 (ip4 a) = not_contained_iff ops4 overlay_v4 a
ip_in_overlay_iff ops4 ops6 overlay_v4 overlay_v6 (ip6 a) = not_contained_iff ops6 overlay_v6 a
