-- ===== src/Tests/Pools.antt =====
-- The address pools at concrete histories.
use ezvpn.Prelude.{
  ℕ, ◌+◌, ◌<◌, ◌≡◌, ◌≢◌, ◌↔◌, refl, true, none, List, [], ◌∷◌, arith, ℕ_eq, pair_eq, length,
}
use ezvpn.Dict
use ezvpn.Config.{sequential, validate_ip6_strategy}
use ezvpn.Pool.History.{Op, allocates, releases}
use ezvpn.Pool.V4
use ezvpn.Pool.V4.Invariant as Sound4
use ezvpn.Pool.V4.{IpPool}
use ezvpn.Pool.V4.Service.{new-Inv, lent_in_network, lent_once}
use ezvpn.Pool.V4.Full.{refused_iff_full}
use ezvpn.Pool.V6
use ezvpn.Pool.V6.{Ip6Pool, derived_ip6, by_node_id}
use ezvpn.Pool.V6.Invariant as Sound6
use ezvpn.Pool.V6.Derived.{new-run-Inv, empty-Inv}
use ezvpn.Tests.{net4, net6, net4-IsIpNet, net6-IsIpNet, crypto}

abbrev pub empty : IpPool ℕ ℕ
empty = V4.new net4 5 none

-- Client 7 takes an address, gives it back, and client 8 takes it.
abbrev history : List (Op ℕ)
history = allocates 7 0 ∷ releases 7 0 ∷ allocates 8 0 ∷ []

lent_in_network_example :
    (net4.contains 5 22 ≡ true)
    × (net4.network 5 < 22)
    × (22 < net4.broadcast 5)
    × (22 ≢ (V4.run empty history).server_ip)
unfolding V4.run V4.step V4.new V4.allocate V4.release V4.next_unreserved_ip V4.next_loop
    V4.pop_released Dict.get Dict.insert Dict.remove
lent_in_network_example =
    lent_in_network net4 net4-IsIpNet 5 none history (8, 0) 22 (omega arith, omega arith) refl

abbrev client_7 : ℕ × ℕ
client_7 = (7, 0)

abbrev client_8 : ℕ × ℕ
client_8 = (8, 0)

lent_once_example : client_8 ≡ client_8
unfolding V4.run V4.step V4.new V4.allocate V4.release V4.next_unreserved_ip V4.next_loop
    V4.pop_released Dict.get Dict.insert Dict.remove
lent_once_example =
    lent_once net4 net4-IsIpNet 5 none history client_8 client_8 22 (omega arith, omega arith) refl
      refl

pub empty-Sound : Sound4.Inv empty
empty-Sound = new-Inv net4 net4-IsIpNet 5 none (omega arith, omega arith)

abbrev pub one_client : IpPool ℕ ℕ
one_client = V4.run empty (allocates 7 0 ∷ [])

pub one_client-Inv : Sound4.Inv one_client
one_client-Inv = Sound4.run-Inv empty (allocates 7 0 ∷ []) empty-Sound

-- A network of four addresses has room for one client.
refused_iff_full_example :
    ((V4.allocate one_client 8 0).0 ≡ none)
    ↔ (length one_client.in_use + one_client.server_ip ≡ one_client.max_ip)
unfolding V4.run V4.step V4.new V4.allocate V4.release V4.next_unreserved_ip V4.next_loop
    V4.pop_released Dict.get Dict.insert Dict.remove
refused_iff_full_example = refused_iff_full one_client 8 0 one_client-Inv refl (omega arith) refl

abbrev empty6 : Ip6Pool ℕ ℕ
empty6 = V6.new_sequential net6 crypto 9 none

new-run-Inv_example : Sound6.Inv net6 crypto (V6.run net6 crypto empty6 history)
unfolding V6.new validate_ip6_strategy
new-run-Inv_example =
    new-run-Inv net6 net6-IsIpNet crypto 9 none sequential 3 empty6 history (omega arith) refl

abbrev by_id : Ip6Pool ℕ ℕ
by_id =
    V6.run net6 crypto (record { network = 9; server_ip = 37; alloc = by_node_id; in_use = [] })
      (allocates 6 1 ∷ [])

by_id-Inv : Sound6.Inv net6 crypto by_id
by_id-Inv =
    Sound6.run-Inv net6 crypto _ (allocates 6 1 ∷ []) (empty-Inv net6 net6-IsIpNet crypto 9 37)

abbrev device : ℕ
device = 1
