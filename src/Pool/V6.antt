-- ===== src/Pool/V6.antt =====
-- src/tunnel/server.rs, `Ip6Pool`: addresses are `u128`. In sequential mode the head of `released` is
-- the back of the vector; in node-id mode an address is derived from the client's endpoint id.
pub mod Invariant
pub mod Derived
use Prim.Native.Nat.{bit_or}
use ezvpn.Prelude.{
  ℕ, zero, suc, ◌+◌, ◌-◌, ◌*◌, ◌%◌, ◌^◌, Bool, true, false, ◌||◌, Option, none, some, List, [], ◌∷◌,
  ◌++◌, Eq, pair_eq, ℕ_eq, nat_eq, leb, any, if◌then◌else◌, take, from_be, Bytes,
}
use ezvpn.Dict
use ezvpn.Dict.{Dict}
use ezvpn.Dict.Values.{values}
use ezvpn.IpNet.{IpNetOps}
use ezvpn.Pool.History.{Op, allocates, releases}
use ezvpn.Error.{Result, ok, err, reject_if, ◌>>=◌, ◌>>◌, config}
use ezvpn.Config.{Ip6Strategy, sequential, node_id, validate_ip6_strategy}

abbrev pub u128_mod : ℕ
u128_mod = 2 ^ 128

-- What the pool uses of other crates: the bytes of an endpoint id, and SHA-256.
pub record Crypto (E : Type 0) : Type 0 where
  pub as_bytes : E → Bytes
  pub sha256 : Bytes → Bytes

-- "ezvpn ipv6 addr v1"
abbrev domain : Bytes
domain =
    b'e' ∷ b'z' ∷ b'v' ∷ b'p' ∷ b'n' ∷ b' ' ∷ b'i' ∷ b'p' ∷ b'v' ∷ b'6' ∷ b' ' ∷ b'a' ∷ b'd' ∷ b'd'
    ∷ b'r' ∷ b' ' ∷ b'v' ∷ b'1' ∷ []

module _ {E : Type 0} (c : Crypto E) where
  unfoldable pub derive_ip6_suffix : E → ℕ
  derive_ip6_suffix id = from_be (take 8 (c.sha256 (domain ++ c.as_bytes id)))

  -- The mask of the host bits keeps the remainder by their power of two.
  unfoldable pub derived_ip6 : {Net : Type 0} → IpNetOps Net → Net → E → ℕ
  derived_ip6 ops network id =
      bit_or (ops.network network) (derive_ip6_suffix id % 2 ^ (128 - ops.prefix_len network))

pub data Ip6Alloc : Type 0 where
  in_sequence : (next_ip max_ip : ℕ) (released : List ℕ) → Ip6Alloc
  by_node_id : Ip6Alloc

pub record Ip6Pool (Net E : Type 0) : Type 0 where
  pub network : Net
  pub server_ip : ℕ
  pub alloc : Ip6Alloc
  pub in_use : Dict (E × ℕ) ℕ

abbrev pub default_server_ip6 : Option ℕ → ℕ → ℕ
default_server_ip6 (some ip) net_addr = ip
default_server_ip6 none net_addr = (net_addr + 1) % u128_mod

module _ {Net E : Type 0} (ops : IpNetOps Net) (c : Crypto E) where
  unfoldable pub new_sequential : Net → Option ℕ → Ip6Pool Net E
  new_sequential network server_ip =
      let net_addr = ops.network network in
      let server : ℕ = default_server_ip6 server_ip net_addr in
      record {
        network = network;
        server_ip = server;
        alloc =
            in_sequence ((server + 1) % u128_mod)
              ((net_addr + (2 ^ (128 - ops.prefix_len network) - 1) - 1) % u128_mod) [];
        in_use = [];
      }

  unfoldable pub new_node_id : Net → E → Result (Ip6Pool Net E)
  new_node_id network server_id = do
    let server = derived_ip6 c ops network server_id
    reject_if (nat_eq server (ops.network network))
        (config "derived server IPv6 collides with the network address")
    ok (record { network = network; server_ip = server; alloc = by_node_id; in_use = [] })

  by_strategy : Ip6Strategy → Net → Option ℕ → E → Result (Ip6Pool Net E)
  unfolding new_sequential new_node_id
  by_strategy sequential network server_ip server_id = ok (new_sequential network server_ip)
  by_strategy node_id network server_ip server_id = new_node_id network server_id

  unfoldable pub new : Net → Option ℕ → Ip6Strategy → E → Result (Ip6Pool Net E)
  unfolding by_strategy
  new network server_ip strategy server_id = do
    reject_if (leb 127 (ops.prefix_len network)) (config "IPv6 prefix is too small for VPN pool")
    validate_ip6_strategy ops strategy (some network) server_ip
    by_strategy strategy network server_ip server_id

module _ {Net E : Type 0} ⦃e : Eq E⦄ where
  unfoldable pub lend : Ip6Pool Net E → E × ℕ → Option (ℕ × Ip6Alloc) → Option ℕ × Ip6Pool Net E
  lend p key none = (none, p)
  lend p key (some (ip, alloc)) =
      (some ip, record p { alloc = alloc; in_use = Dict.insert key ip p.in_use })

module _ {Net E : Type 0} ⦃e : Eq E⦄ (ops : IpNetOps Net) (c : Crypto E) where
  -- The address that is lent, if any, and the bookkeeping after it.
  unfoldable pub pick : Ip6Pool Net E → E → Ip6Alloc → Option (ℕ × Ip6Alloc)
  pick p endpoint_id (in_sequence next_ip max_ip (ip ∷ released)) =
      some (ip, in_sequence next_ip max_ip released)
  pick p endpoint_id (in_sequence next_ip max_ip []) =
      if leb next_ip max_ip
      then some (next_ip, in_sequence ((next_ip + 1) % u128_mod) max_ip [])
      else none
  pick p endpoint_id by_node_id =
      let ip = derived_ip6 c ops p.network endpoint_id in
      if nat_eq ip (ops.network p.network)
        || nat_eq ip p.server_ip
        || any (λ used. nat_eq used ip) (values p.in_use)
      then none
      else some (ip, by_node_id)

  unfoldable pub allocate : Ip6Pool Net E → E → ℕ → Option ℕ × Ip6Pool Net E
  unfolding pick lend
  allocate p endpoint_id device_id = elim (Dict.get (endpoint_id, device_id) p.in_use) [
    | some ip ↦ (some ip, p)
    | none ↦ lend p (endpoint_id, device_id) (pick p endpoint_id p.alloc)
  ]

give_back : ℕ → Ip6Alloc → Ip6Alloc
give_back ip (in_sequence next_ip max_ip released) = in_sequence next_ip max_ip (ip ∷ released)
give_back ip by_node_id = by_node_id

module _ {Net E : Type 0} ⦃e : Eq E⦄ where
  unfoldable pub release : Ip6Pool Net E → E → ℕ → Ip6Pool Net E
  unfolding give_back
  release p endpoint_id device_id = elim (Dict.get (endpoint_id, device_id) p.in_use) [
    | some ip ↦ record p {
      alloc = give_back ip p.alloc;
      in_use = Dict.remove (endpoint_id, device_id) p.in_use;
    }
    | none ↦ p
  ]

module _ {Net E : Type 0} ⦃e : Eq E⦄ (ops : IpNetOps Net) (c : Crypto E) where
  unfoldable pub step : Ip6Pool Net E → Op E → Ip6Pool Net E
  step p (allocates endpoint_id device_id) = (allocate ops c p endpoint_id device_id).1
  step p (releases endpoint_id device_id) = release p endpoint_id device_id

  unfoldable pub run : Ip6Pool Net E → List (Op E) → Ip6Pool Net E
  run p [] = p
  run p (op ∷ history) = run (step p op) history
