-- ===== src/Tests/Routing.antt =====
-- Routes of the client added to a table, and a route past the tunnel, at concrete values.
use ezvpn.Prelude.{
  ◌≡◌, refl, ℕ, ◌+◌, ◌-◌, Bool, true, false, Eq, ◌==◌, nat_eq, if◌then◌else◌, Option, none, some,
  List, ◌∷◌, [], ℕ_eq, pair_eq, option_eq, list_eq,
}
use ezvpn.IpNet.{IpAddr, ip4}
use ezvpn.Client.Bypass.{ip_beq, ip_beq_iff}
use ezvpn.Net.BypassRoute.{
  Text, HostRoute, BypassRouteInfo, UnderlayGateway, dev, via, valid_parts, is_valid_gateway_str,
  scan_tokens, parse_linux_route_get, is_disallowed, repinned, resolve_bypass_route_info,
  add_bypass_route_impl, add_bypass_route,
}
use ezvpn.Net.BypassRoute.Parsed.{Read, parse_linux_route_get-Read}
use ezvpn.Error.{Result, ok, err, network}
use ezvpn.Net.Routes.{
  RouteAddOutcome, added, already_existed, Table, Prefixes, expand_default_route, expand_all,
  after_add, add_each, add_routes, remove_all,
}

abbrev answer : Bool → Bool → (ℕ → Bool) → ℕ → (ℕ → Bool) × Result RouteAddOutcome
answer true refused s r = (s, ok already_existed)
answer false true s r = (s, err (network "refused"))
answer false false s r = (λ x. if x == r then true else s x, ok added)

-- A table that has no place for the route 9.
abbrev table : Table (ℕ → Bool) ℕ
table = record {
  add_route = λ s r. answer (s r) (nat_eq r 9) s r;
  remove_route = λ s r. (λ x. if x == r then false else s x, ok tt);
}

abbrev has_route : (ℕ → Bool) → ℕ → Bool
has_route s r = s r

-- A network of length 0 is the number 0.
abbrev prefixes : Prefixes ℕ
prefixes = record { bits = 32; prefix_len = λ n. n; new_prefix = λ address len. address + len }

-- The route 5 is there before.
abbrev before : ℕ → Bool
before = nat_eq 5

failed : (add_routes table prefixes (0 ∷ 5 ∷ 9 ∷ []) before).1 ≡ err (network "refused")
unfolding add_routes expand_all expand_default_route add_each after_add remove_all
failed = refl

owned : (add_routes table prefixes (0 ∷ 5 ∷ 7 ∷ []) before).1 ≡ ok (7 ∷ 2147483649 ∷ 1 ∷ [])
unfolding add_routes expand_all expand_default_route add_each after_add remove_all
owned = refl

instance abbrev ip_eq : Eq IpAddr
ip_eq = record { beq = ip_beq; beq_iff = ip_beq_iff }

abbrev answer_host :
    Bool → (HostRoute → Bool) → HostRoute → (HostRoute → Bool) × Result RouteAddOutcome
answer_host true s r = (s, ok already_existed)
answer_host false s r = (λ x. if x == r then true else s x, ok added)

abbrev host_table : Table (HostRoute → Bool) HostRoute
host_table = record {
  add_route = λ s r. answer_host (s r) s r;
  remove_route = λ s r. (λ x. if x == r then false else s x, ok tt);
}

abbrev has_host : (HostRoute → Bool) → HostRoute → Bool
has_host s r = s r

-- `10.0.0.1 via 9 dev tun`, with a parser of single digits.
abbrev tun : Text
tun = b't' ∷ b'u' ∷ b'n' ∷ []

abbrev tokens : List Text
tokens = (b'1' ∷ []) ∷ via ∷ (b'9' ∷ []) ∷ dev ∷ tun ∷ []

abbrev digit : Text → Option IpAddr
digit [] = none
digit (c ∷ cs) = some (ip4 (c - 48))

abbrev through_tun : BypassRouteInfo
through_tun = record {
  peer_ip = ip4 1;
  device = tun;
  gateway = some (ip4 9);
  gateway_str = some (b'9' ∷ []);
  if_index = none;
}

abbrev eth : UnderlayGateway
eth = record {
  device = b'e' ∷ [];
  gateway = some (ip4 7);
  gateway_str = some (b'7' ∷ []);
  if_index = none;
}

route_parsed : parse_linux_route_get digit tokens (ip4 1) ≡ ok through_tun
unfolding parse_linux_route_get scan_tokens is_valid_gateway_str valid_parts
route_parsed = refl

parse_linux_route_get-Read_example :
    Read digit tokens (ip4 1) (parse_linux_route_get digit tokens (ip4 1))
parse_linux_route_get-Read_example = parse_linux_route_get-Read digit tokens (ip4 1)

-- No host route is there before.
abbrev no_hosts : HostRoute → Bool
no_hosts r = false

-- The route through the tunnel is pinned to the captured gateway.
pinned :
    (add_bypass_route host_table no_hosts (ok through_tun) (some tun) (some eth)).0
      (ip4 1, (some (ip4 7), b'e' ∷ []))
    ≡ true
unfolding add_bypass_route add_bypass_route_impl resolve_bypass_route_info repinned is_disallowed
    ip_beq
pinned = refl
