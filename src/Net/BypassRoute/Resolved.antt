-- ===== src/Net/BypassRoute/Resolved.antt =====
-- src/net/device.rs: the host route that is added past the tunnel, and the drop of its guard.
use ezvpn.Prelude.{
  ◌≡◌, ◌≢◌, ◌↔◌, ap, sym, some_injective, ◌⊎◌, inl, inr, refl, Bool, true, Option, none, some,
  arith, Eq, is_some, is_none, Bool-cases, if_holds, ℕ_eq, list_eq, list_beq_iff,
}
use ezvpn.Error.{Result, ok, err, tun_device}
use ezvpn.Net.Routes.{Table}
use ezvpn.Net.Routes.Rollback.{Same}
use ezvpn.Net.BypassRoute.{
  BypassRouteInfo, UnderlayGateway, BypassRouteGuard, Text, HostRoute, is_disallowed,
  repin_via_fallback, repinned, resolve_bypass_route_info, drop_guard,
}

-- The route leads through the tunnel, or has no next hop.
abbrev IsUsable : Option Text → BypassRouteInfo → Type 0
IsUsable disallow_device info = (disallow_device ≢ some info.device) × (info.gateway ≢ none)

-- The captured gateway, where it has an address.
abbrev HasGateway : Option UnderlayGateway → Type 0
HasGateway none = ⊥
HasGateway (some fb) = fb.gateway ≢ none

abbrev IsPinned : BypassRouteInfo → BypassRouteInfo → Option UnderlayGateway → Type 0
IsPinned info r none = ⊥
IsPinned info r (some fb) =
    (r.peer_ip ≡ info.peer_ip)
    × (r.device ≡ fb.device)
    × (r.gateway ≡ fb.gateway)
    × (r.gateway_str ≡ fb.gateway_str)
    × (r.if_index ≡ fb.if_index)

abbrev pub Resolves :
    BypassRouteInfo → Option Text → Option UnderlayGateway → Result BypassRouteInfo → Type 0
Resolves info disallow_device fallback (ok r) =
    (IsUsable disallow_device info × (r ≡ info))
    ⊎ ((¬ IsUsable disallow_device info) × HasGateway fallback × IsPinned info r fallback)
Resolves info disallow_device fallback (err e) =
    (¬ IsUsable disallow_device info) × (¬ HasGateway fallback)

repinned-Resolves :
    (info : BypassRouteInfo) (disallow_device : Option Text) (message : _)
    (fallback : Option UnderlayGateway)
    → ¬ IsUsable disallow_device info
    → Resolves info disallow_device fallback (repinned info message fallback)
unfolding repinned
repinned-Resolves info disallow_device message none bad = (bad, λ h. h)
repinned-Resolves info disallow_device message (some fb) bad =
    if_holds (Resolves info disallow_device (some fb)) (is_some fb.gateway)
      (ok (repin_via_fallback info fb)) (err (tun_device message))
      (λ h. inr (bad, ground arith, (refl, refl, refl, refl, refl)))
      (λ h. (bad, λ has. has (ground arith)))

disallowed_iff :
    (disallow_device : Option Text) (device : Text)
    → (is_disallowed disallow_device device ≡ true) ↔ (disallow_device ≡ some device)
unfolding is_disallowed
disallowed_iff none device = (λ h. cc, λ h. cc)
disallowed_iff (some d) device = (
  λ h. ap some (sym ((list_beq_iff ℕ_eq device d).0 h)),
  λ h. (list_beq_iff ℕ_eq device d).1 (sym (some_injective h)),
)

-- A route with a next hop that does not lead through the disallowed device is taken as it is; any
-- other is pinned to the captured gateway, where that has an address, and is refused where not.
pub resolve-Resolves :
    (info : BypassRouteInfo) (disallow_device : Option Text) (fallback : Option UnderlayGateway)
    → Resolves info disallow_device fallback
        (resolve_bypass_route_info info disallow_device fallback)
unfolding resolve_bypass_route_info
resolve-Resolves info disallow_device fallback =
    elim (Bool-cases (is_disallowed disallow_device info.device)) [
      | inl tunnel ↦ rw tunnel (
          repinned-Resolves info disallow_device _ fallback
            (λ u. u.0 ((disallowed_iff disallow_device info.device).0 tunnel)))
      | inr physical ↦ rw physical (
          if_holds (Resolves info disallow_device fallback) (is_none info.gateway)
            (repinned info _ fallback) (ok info)
            (λ h. repinned-Resolves info disallow_device _ fallback (λ u. u.1 (ground arith)))
            (λ h. inl (
              (λ e. cc (physical, (disallowed_iff disallow_device info.device).1 e), ground arith),
              refl,
            )))
    ]

module _ {S : Type 0} ⦃e : Eq HostRoute⦄ (table : Table S HostRoute)
    (has : S → HostRoute → Bool) where
  -- The table is as before: after an error, or once the guard is dropped.
  abbrev pub Dropped : S → S × Result BypassRouteGuard → Type 0
  Dropped s (t, err problem) = Same table has t s
  Dropped s (t, ok guard) = Same table has (drop_guard table t guard) s
