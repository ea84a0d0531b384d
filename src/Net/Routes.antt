-- ===== src/Net/Routes.antt =====
-- src/net/device.rs: `add_routes`, which adds the routes of one version through the TUN device, and the
-- guard that removes them. The routing table of the system is a parameter: a state, and its answers.
-- The vector of the routes added is a list whose head is its end, and is removed from there.
pub mod Rollback
use ezvpn.Prelude.{ℕ, ◌^◌, Bool, true, false, not, List, [], ◌∷◌, ◌++◌, nat_eq, if◌then◌else◌, ◌-◌}
use ezvpn.Error.{Result, ok, err, VpnError}

pub data RouteAddOutcome : Type 0 where
  added : RouteAddOutcome
  already_existed : RouteAddOutcome

pub record Table (S Net : Type 0) : Type 0 where
  pub add_route : S → Net → S × Result RouteAddOutcome
  pub remove_route : S → Net → S × Result (Unit {0})

-- `prefix_len` and `new` of `Ipv4Net`, or of `Ipv6Net`, with addresses of `bits` bits.
pub record Prefixes (Net : Type 0) : Type 0 where
  pub bits : ℕ
  pub prefix_len : Net → ℕ
  pub new_prefix : ℕ → ℕ → Net

module _ {Net : Type 0} (p : Prefixes Net) where
  -- `expand_default_route4` and `expand_default_route6`
  unfoldable pub expand_default_route : Net → List Net
  expand_default_route route =
      if not (nat_eq (p.prefix_len route) 0)
      then route ∷ []
      else p.new_prefix 0 1 ∷ p.new_prefix (2 ^ (p.bits - 1)) 1 ∷ []

  unfoldable pub expand_all : List Net → List Net
  expand_all [] = []
  expand_all (route ∷ routes) = expand_default_route route ++ expand_all routes

module _ {S Net : Type 0} (table : Table S Net) where
  -- Both the rollback and the drop of the guard: an error to remove a route is logged.
  unfoldable pub remove_all : List Net → S → S
  remove_all [] s = s
  remove_all (route ∷ routes) s = remove_all routes (table.remove_route s route).0

  unfoldable pub after_add :
      S × Result RouteAddOutcome
      → Net
      → List Net
      → (List Net → S → S × Result (List Net))
      → S × Result (List Net)
  after_add (s, ok added) route owned next = next (route ∷ owned) s
  after_add (s, ok already_existed) route owned next = next owned s
  after_add (s, err e) route owned next = (remove_all owned s, err e)

  -- The loop; a guard owns the routes in its result.
  unfoldable pub add_each : List Net → List Net → S → S × Result (List Net)
  unfolding after_add
  add_each [] owned s = (s, ok owned)
  add_each (route ∷ routes) owned s =
      after_add (table.add_route s route) route owned (add_each routes)

  unfoldable pub add_routes : Prefixes Net → List Net → S → S × Result (List Net)
  add_routes p routes s = add_each (expand_all p routes) [] s
