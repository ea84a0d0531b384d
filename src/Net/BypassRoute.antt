-- ===== src/Net/BypassRoute.antt =====
-- src/net/device.rs, on Linux: the host route of an underlay address past the tunnel. It is found in
-- the output of `ip route get`, repaired by the captured default gateway, and added to the table of
-- `Net.Routes`. Text is a list of character codes; the parser of addresses is a parameter.
pub mod Parsed
pub mod Resolved
use Prim.Native.String.{String}
use ezvpn.Prelude.{
  ℕ, Bool, true, false, not, ◌&&◌, ◌||◌, Option, none, some, List, [], ◌∷◌, nat_eq, leb, is_some,
  is_none, if◌then◌else◌, ◌==◌, ℕ_eq, list_eq,
}
use ezvpn.IpNet.{IpAddr}
use ezvpn.Error.{VpnError, Result, ok, err, tun_device}
use ezvpn.Net.Routes.{RouteAddOutcome, added, already_existed, Table}

abbrev pub Text : Type 0
Text = List ℕ

pub record BypassRouteInfo : Type 0 where
  pub peer_ip : IpAddr
  pub device : Text
  pub gateway : Option IpAddr
  pub gateway_str : Option Text
  pub if_index : Option ℕ

pub record UnderlayGateway : Type 0 where
  pub device : Text
  pub gateway : Option IpAddr
  pub gateway_str : Option Text
  pub if_index : Option ℕ

pub record BypassRouteGuard : Type 0 where
  pub peer_ip : IpAddr
  pub device : Text
  pub gateway : Option IpAddr
  pub gateway_str : Option Text
  pub if_index : Option ℕ
  pub owned : Bool

abbrev pub is_digit : ℕ → Bool
is_digit c = leb b'0' c && leb c b'9'

abbrev pub is_address_char : ℕ → Bool
is_address_char c =
    is_digit c
    || (leb b'A' c && leb c b'F')
    || (leb b'a' c && leb c b'f')
    || nat_eq c b':'
    || nat_eq c b'.'

abbrev pub is_scope_char : ℕ → Bool
is_scope_char c =
    is_digit c
    || (leb b'A' c && leb c b'Z')
    || (leb b'a' c && leb c b'z')
    || nat_eq c b'_'
    || nat_eq c b'-'

all_chars : (ℕ → Bool) → Text → Bool
all_chars p [] = true
all_chars p (c ∷ cs) = p c && all_chars p cs

valid_scope : Text → Bool
unfolding all_chars
valid_scope [] = false
valid_scope (c ∷ cs) = all_chars is_scope_char (c ∷ cs)

-- The address part, and the scope after the first `%`.
unfoldable pub valid_parts : Text → Bool
unfolding valid_scope
valid_parts [] = true
valid_parts (c ∷ cs) =
    let rest = is_address_char c && valid_parts cs in if nat_eq c b'%' then valid_scope cs else rest

unfoldable pub is_valid_gateway_str : Text → Bool
is_valid_gateway_str [] = false
is_valid_gateway_str (c ∷ cs) = valid_parts (c ∷ cs)

abbrev pub dev : Text
dev = b'd' ∷ b'e' ∷ b'v' ∷ []

abbrev pub via : Text
via = b'v' ∷ b'i' ∷ b'a' ∷ []

-- `device`, and `gateway_str` with `gateway`, of the loop.
pub record Found : Type 0 where
  pub device : Option Text
  pub gateway : Option IpAddr
  pub gateway_str : Option Text

module _ (parse_ip : Text → Option IpAddr) where
  found_dev : Text → Text → Found → Found
  found_dev token next f = if token == dev then record f { device = some next } else f

  found_via : Text → Text → Found → Found
  found_via token next f =
      if token == via && is_valid_gateway_str next
      then record f { gateway_str = some next; gateway = parse_ip next }
      else f

  -- The loop over the tokens: the last one has none after it.
  unfoldable pub scan_tokens : List Text → Found → Found
  unfolding found_dev found_via
  scan_tokens [] f = f
  scan_tokens (token ∷ []) f = f
  scan_tokens (token ∷ next ∷ tokens) f =
      scan_tokens (next ∷ tokens) (found_via token next (found_dev token next f))

  info_of : IpAddr → Found → Option Text → Result BypassRouteInfo
  info_of peer_ip f none = err (tun_device "Could not determine device for route")
  info_of peer_ip f (some device) = ok record {
    peer_ip = peer_ip;
    device = device;
    gateway = f.gateway;
    gateway_str = f.gateway_str;
    if_index = none;
  }

  unfoldable pub parse_linux_route_get : List Text → IpAddr → Result BypassRouteInfo
  unfolding info_of
  parse_linux_route_get tokens peer_ip =
      let f = scan_tokens tokens (record { device = none; gateway = none; gateway_str = none }) in
      info_of peer_ip f f.device

unfoldable pub is_disallowed : Option Text → Text → Bool
is_disallowed none device = false
is_disallowed (some disallowed) device = device == disallowed

repin_via_fallback : BypassRouteInfo → UnderlayGateway → BypassRouteInfo
repin_via_fallback info fb = record {
  peer_ip = info.peer_ip;
  device = fb.device;
  gateway = fb.gateway;
  gateway_str = fb.gateway_str;
  if_index = fb.if_index;
}

unfoldable pub repinned : BypassRouteInfo → String → Option UnderlayGateway → Result BypassRouteInfo
unfolding repin_via_fallback
repinned info message none = err (tun_device message)
repinned info message (some fb) =
    if is_some fb.gateway then ok (repin_via_fallback info fb) else err (tun_device message)

unfoldable pub resolve_bypass_route_info :
    BypassRouteInfo → Option Text → Option UnderlayGateway → Result BypassRouteInfo
resolve_bypass_route_info info disallow_device underlay_fallback =
    if is_disallowed disallow_device info.device
    then repinned info "Refusing bypass route: resolved via VPN tunnel interface" underlay_fallback
    else if is_none info.gateway
    then repinned info "Refusing bypass route: no next-hop gateway" underlay_fallback
    else ok info

-- The route that the command is given: the address, the gateway and the device.
abbrev pub HostRoute : Type 0
HostRoute = IpAddr × (Option IpAddr × Text)

module _ {S : Type 0} (table : Table S HostRoute) where
  unfoldable pub add_bypass_route_impl : S → BypassRouteInfo → S × Result RouteAddOutcome
  add_bypass_route_impl s info =
      if is_none info.gateway
      then (s, err (tun_device "Refusing link-scope bypass route (no gateway)"))
      else table.add_route s (info.peer_ip, (info.gateway, info.device))

  guarded : BypassRouteInfo → S × Result RouteAddOutcome → S × Result BypassRouteGuard
  guarded info (s, err e) = (s, err e)
  guarded info (s, ok outcome) = (
    s,
    ok record {
      peer_ip = info.peer_ip;
      device = info.device;
      gateway = info.gateway;
      gateway_str = info.gateway_str;
      if_index = info.if_index;
      owned = elim outcome [ added ↦ true | already_existed ↦ false ];
    },
  )

  unfoldable pub add_resolved : S → Result BypassRouteInfo → S × Result BypassRouteGuard
  unfolding guarded
  add_resolved s (err e) = (s, err e)
  add_resolved s (ok info) = guarded info (add_bypass_route_impl s info)

  -- With the answer of `query_route_for_ip`.
  unfoldable pub add_bypass_route :
      S
      → Result BypassRouteInfo
      → Option Text
      → Option UnderlayGateway
      → S × Result BypassRouteGuard
  unfolding add_resolved
  add_bypass_route s (err e) disallow_device underlay_fallback = (s, err e)
  add_bypass_route s (ok info) disallow_device underlay_fallback =
      add_resolved s (resolve_bypass_route_info info disallow_device underlay_fallback)

  -- The drop of a guard: an error to remove the route is logged.
  unfoldable pub drop_guard : S → BypassRouteGuard → S
  drop_guard s guard =
      if guard.owned
      then (table.remove_route s (guard.peer_ip, (guard.gateway, guard.device))).0
      else s
