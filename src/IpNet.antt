-- ===== src/IpNet.antt =====
-- The prefixes of the crate `ipnet` (`Ipv4Net`, `Ipv6Net`), which the program only calls: a type
-- with the operations that it uses, and their documented laws. Addresses are numbers.
use ezvpn.Prelude.{ℕ, ◌+◌, ◌-◌, ◌%◌, ◌^◌, ◌≤◌, ◌<◌, ◌≡◌, ◌↔◌, Bool, true}

pub record IpNetOps (Net : Type 0) : Type 0 where
  pub network : Net → ℕ
  pub broadcast : Net → ℕ
  pub prefix_len : Net → ℕ
  pub contains : Net → ℕ → Bool
  -- `new(ip, width)`: the prefix of one address
  pub host : ℕ → Net

-- The laws, at an address width of `bits`: a prefix is the block of `2 ^ (bits - prefix_len)`
-- addresses from `network` to `broadcast`, and `contains` tests for that block.
pub record IsIpNet (bits : ℕ) {Net : Type 0} (ops : IpNetOps Net) : Type 0 where
  pub prefix_le : (n : Net) → ops.prefix_len n ≤ bits
  pub block : (n : Net) → ops.broadcast n + 1 ≡ ops.network n + 2 ^ (bits - ops.prefix_len n)
  pub aligned : (n : Net) → ops.network n % 2 ^ (bits - ops.prefix_len n) ≡ 0
  pub broadcast_lt : (n : Net) → ops.broadcast n < 2 ^ bits
  pub contains_iff :
      (n : Net) (a : ℕ) → (ops.contains n a ≡ true) ↔ ((ops.network n ≤ a) × (a ≤ ops.broadcast n))

-- `std::net::IpAddr`
pub data IpAddr : Type 0 where
  ip4 ip6 : ℕ → IpAddr
