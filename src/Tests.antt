-- ===== src/Tests.antt =====
-- Concrete values for the parameters of the model, and each theorem at a concrete input.
mod Routing
mod Logging
mod Configuring
mod Watching
mod Pools
mod Wire
mod Offloading
mod Choosing
mod Queueing
mod Sessions
mod Entering
use ezvpn.Prelude.{
  ℕ, ◌+◌, ◌*◌, ◌%◌, ◌^◌, ◌≤◌, ◌&&◌, ◌↔◌, ◌≡◌, true, List, [], ◌∷◌, arith, leb, leb→le, le→leb, drop,
  Bytes, to_be8,
}
use ezvpn.IpNet.{IpNetOps, IsIpNet}
use ezvpn.Pool.V6.{Crypto}

-- Networks of four addresses, by their number.
abbrev pub quads : ℕ → ℕ → IpNetOps ℕ
quads count len = record {
  network = λ n. 4 * (n % count);
  broadcast = λ n. 4 * (n % count) + 3;
  prefix_len = λ n. len;
  contains = λ n a. leb (4 * (n % count)) a && leb a (4 * (n % count) + 3);
  host = λ a. a;
}

abbrev pub net4 : IpNetOps ℕ
net4 = quads (2 ^ 30) 30

abbrev pub net6 : IpNetOps ℕ
net6 = quads (2 ^ 126) 126

pub net4-IsIpNet : IsIpNet 32 net4
net4-IsIpNet = record {
  prefix_le = λ n. omega arith;
  block = λ n. omega arith;
  aligned = λ n. omega arith;
  broadcast_lt = λ n. omega arith;
  contains_iff = λ n a. (λ h. ground arith, λ h. ground arith);
}

pub net6-IsIpNet : IsIpNet 128 net6
net6-IsIpNet = record {
  prefix_le = λ n. omega arith;
  block = λ n. omega arith;
  aligned = λ n. omega arith;
  broadcast_lt = λ n. omega arith;
  contains_iff = λ n a. (λ h. ground arith, λ h. ground arith);
}

-- Endpoint ids are numbers, and the digest is the id.
abbrev pub crypto : Crypto ℕ
crypto = record { as_bytes = to_be8; sha256 = drop 18 }
