-- ===== src/Pool/V4.antt =====
-- src/tunnel/server.rs, `IpPool`: addresses are `u32`, the head of `released` is the back of the
-- vector, and arithmetic wraps as in a release build.
mod Steps
pub mod Invariant
pub mod Service
pub mod Repeat
pub mod Full
use ezvpn.Prelude.{
  ℕ, zero, suc, ◌+◌, ◌-◌, ◌%◌, ◌^◌, Option, none, some, List, [], ◌∷◌, Eq, pair_eq, ℕ_eq, nat_eq,
  leb, any, if◌then◌else◌,
}
use ezvpn.Dict
use ezvpn.Dict.{Dict}
use ezvpn.IpNet.{IpNetOps}
use ezvpn.Pool.History.{Op, allocates, releases}

abbrev pub u32_mod : ℕ
u32_mod = 2 ^ 32

pub record IpPool (Net E : Type 0) : Type 0 where
  pub network : Net
  pub server_ip : ℕ
  pub next_ip : ℕ
  pub max_ip : ℕ
  pub in_use : Dict (E × ℕ) ℕ
  pub released : List ℕ
  pub reserved : List ℕ

-- Without a custom address the server takes the one after the network address.
abbrev pub default_server_ip : Option ℕ → ℕ → ℕ
default_server_ip (some ip) net_addr = ip
default_server_ip none net_addr = (net_addr + 1) % u32_mod

unfoldable pub new : {Net E : Type 0} → IpNetOps Net → Net → Option ℕ → IpPool Net E
new ops network server_ip =
    let server : ℕ = default_server_ip server_ip (ops.network network) in
    record {
      network = network;
      server_ip = server;
      next_ip = (server + 1) % u32_mod;
      max_ip = (ops.broadcast network + u32_mod - 1) % u32_mod;
      in_use = [];
      released = [];
      reserved = [];
    }

-- The loop of `next_unreserved_ip`: the address found, and the new `next_ip`.
unfoldable pub next_loop : ℕ → List ℕ → ℕ → ℕ → Option ℕ × ℕ
next_loop zero reserved max_ip next_ip = (none, next_ip)
next_loop (suc fuel) reserved max_ip next_ip =
    let after : ℕ = (next_ip + 1) % u32_mod in
    let rest = next_loop fuel reserved max_ip after in
    if leb next_ip max_ip
    then (if any (nat_eq next_ip) reserved then rest else (some next_ip, after))
    else (none, next_ip)

-- `while let Some(ip) = self.released.pop()`, past reserved addresses
unfoldable pub pop_released : List ℕ → List ℕ → Option ℕ × List ℕ
pop_released reserved [] = (none, [])
pop_released reserved (ip ∷ released) =
    if any (nat_eq ip) reserved then pop_released reserved released else (some ip, released)

module _ {Net E : Type 0} where
  -- One round more than there are addresses left, for the test that ends the loop.
  unfoldable pub next_unreserved_ip : IpPool Net E → Option ℕ × IpPool Net E
  next_unreserved_ip p =
      let (found, next) =
        next_loop (suc (p.max_ip + 1 - p.next_ip)) p.reserved p.max_ip p.next_ip in
      (found, record p { next_ip = next })

module _ {Net E : Type 0} ⦃e : Eq E⦄ where
  pub assign : E × ℕ → Option ℕ × IpPool Net E → Option ℕ × IpPool Net E
  assign key (none, p) = (none, p)
  assign key (some ip, p) = (some ip, record p { in_use = Dict.insert key ip p.in_use })

  pub reuse : E × ℕ → IpPool Net E → Option ℕ × List ℕ → Option ℕ × IpPool Net E
  unfolding assign
  reuse key p (some ip, released) = assign key (some ip, record p { released = released })
  reuse key p (none, released) = assign key (next_unreserved_ip (record p { released = released }))

  unfoldable pub allocate : IpPool Net E → E → ℕ → Option ℕ × IpPool Net E
  unfolding reuse
  allocate p endpoint_id device_id = elim (Dict.get (endpoint_id, device_id) p.in_use) [
    | some ip ↦ (some ip, p)
    | none ↦ reuse (endpoint_id, device_id) p (pop_released p.reserved p.released)
  ]

  unfoldable pub release : IpPool Net E → E → ℕ → IpPool Net E
  release p endpoint_id device_id = elim (Dict.get (endpoint_id, device_id) p.in_use) [
    | some ip ↦ record p {
      in_use = Dict.remove (endpoint_id, device_id) p.in_use;
      released = ip ∷ p.released;
    }
    | none ↦ p
  ]

module _ {Net E : Type 0} ⦃e : Eq E⦄ where
  unfoldable pub step : IpPool Net E → Op E → IpPool Net E
  step p (allocates endpoint_id device_id) = (allocate p endpoint_id device_id).1
  step p (releases endpoint_id device_id) = release p endpoint_id device_id

  unfoldable pub run : IpPool Net E → List (Op E) → IpPool Net E
  run p [] = p
  run p (op ∷ ops) = run (step p op) ops
