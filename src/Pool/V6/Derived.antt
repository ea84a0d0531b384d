-- ===== src/Pool/V6/Derived.antt =====
-- The addresses of an IPv6 pool after any history, and those derived from endpoint ids.
use mathlib.Core.List.{Nodup-nil, not-mem-nil}
use mathlib.Core.List.Nodup
use Prim.Native.Nat.{bit_or}
use native.Mathlib.Nat.{mod-lt, div-add-mod', one-le-pow, pow-le-pow_right}
use ezvpn.Prelude.{
  ℕ, ◌+◌, ◌-◌, ◌*◌, ◌/◌, ◌%◌, ◌^◌, ◌≤◌, ◌<◌, ◌≡◌, sym, ap, ◌∙◌, inl, inr, true, Option, some, List,
  [], arith, Eq, pair_eq, ℕ_eq, nat_eq, Bool-cases, subst, subst,
}
use ezvpn.Prelude.Bits.{bit_or_disjoint}
use ezvpn.Dict
use ezvpn.Dict.Values.{get_injective}
use ezvpn.Error.{ok, ok-injective}
use ezvpn.Config.{Ip6Strategy, sequential, node_id}
use ezvpn.IpNet.{IpNetOps, IsIpNet}
use ezvpn.Pool.History.{Op}
use ezvpn.Pool.V6.{
  Ip6Pool, by_node_id, Crypto, derived_ip6, derive_ip6_suffix, default_server_ip6, new,
  new_sequential, new_node_id, by_strategy, run,
}
use ezvpn.Pool.V6.Invariant.{Inv, Consistent, run-Inv}

abbrev pub HasRoom6 : {Net : Type 0} → IpNetOps Net → Net → Option ℕ → Type 0
HasRoom6 ops network server_ip =
    default_server_ip6 server_ip (ops.network network) < ops.broadcast network

two_pow_pos : (k : ℕ) → 1 ≤ 2 ^ k
two_pow_pos k = one-le-pow k 2 (omega arith)

-- A block of bits in a row leaves room for a remainder.
or_in_block :
    (k net suffix : ℕ) → net % 2 ^ k ≡ 0 → bit_or net (suffix % 2 ^ k) ≡ net + suffix % 2 ^ k
or_in_block k net suffix aligned =
    ap (λ (t : ℕ). bit_or t (suffix % 2 ^ k)) at_block
    ∙ bit_or_disjoint k (net / 2 ^ k) (suffix % 2 ^ k) (mod-lt suffix (two_pow_pos k))
    ∙ ap (λ (t : ℕ). t + suffix % 2 ^ k) (sym at_block)
  where
    at_block : net ≡ net / 2 ^ k * 2 ^ k
    at_block = omega (arith, div-add-mod' net (2 ^ k))

four_le : (p : ℕ) → p < 127 → 4 ≤ 2 ^ (128 - p)
four_le p h = pow-le-pow_right {n = 2} (omega arith) {i = 2} {j = 128 - p} (omega arith)

module _ {Net E : Type 0} ⦃e : Eq E⦄ (ops : IpNetOps Net) (laws : IsIpNet 128 ops)
    (c : Crypto E) where
  -- The address derived from an endpoint id lies in the network.
  pub derived_in_network :
      (network : Net) (id : E) → ops.contains network (derived_ip6 c ops network id) ≡ true
  unfolding derived_ip6
  derived_in_network network id =
      let k : ℕ = 128 - ops.prefix_len network in
      let e = or_in_block k (ops.network network) (derive_ip6_suffix c id) (laws.aligned network) in
      (laws.contains_iff network _).1 (
        rw e (omega arith),
        rw e (omega (arith, laws.block network, mod-lt (derive_ip6_suffix c id) (two_pow_pos k))),
      )

  new_sequential-Inv :
      (network : Net) (server_ip : Option ℕ)
      → ops.prefix_len network < 127
      → HasRoom6 ops network server_ip
      → Inv ops c (new_sequential ops c network server_ip)
  unfolding new_sequential
  new_sequential-Inv network server_ip wide room = record {
    unique = tt;
    distinct = Nodup-nil;
    consistent = (
      λ a m. absurd (not-mem-nil m),
      omega (
        arith,
        laws.block network,
        laws.broadcast_lt network,
        four_le (ops.prefix_len network) wide,
      ),
      omega (
        arith,
        laws.block network,
        laws.broadcast_lt network,
        four_le (ops.prefix_len network) wide,
      ),
      omega (
        arith,
        laws.block network,
        laws.broadcast_lt network,
        four_le (ops.prefix_len network) wide,
      ),
      omega (
        arith,
        laws.block network,
        laws.broadcast_lt network,
        four_le (ops.prefix_len network) wide,
      ),
    );
  }

  pub empty-Inv :
      (network : Net) (server_ip : ℕ)
      → Inv ops c
          (record { network = network; server_ip = server_ip; alloc = by_node_id; in_use = [] })
  unfolding Dict.get
  empty-Inv network server_ip = record {
    unique = tt;
    distinct = Nodup-nil;
    consistent = λ k a h. cc;
  }

  new_node_id-Inv :
      (network : Net) (server_id : E) (p : Ip6Pool Net E)
      → new_node_id ops c network server_id ≡ ok p
      → Inv ops c p
  unfolding new_node_id
  new_node_id-Inv network server_id p =
      elim (Bool-cases (nat_eq (derived_ip6 c ops network server_id) (ops.network network))) [
        | inl same ↦ rw (same, new_node_id) (λ h. cc)
        | inr differ ↦
            rw (differ, new_node_id)
              (λ h.
                subst (Inv ops c) (ok-injective h)
                  (empty-Inv network (derived_ip6 c ops network server_id)))
      ]

  by_strategy-Inv :
      (network : Net) (server_ip : Option ℕ) (strategy : Ip6Strategy) (server_id : E)
      (p : Ip6Pool Net E)
      → ops.prefix_len network < 127
      → HasRoom6 ops network server_ip
      → by_strategy ops c strategy network server_ip server_id ≡ ok p
      → Inv ops c p
  unfolding by_strategy
  by_strategy-Inv network server_ip sequential server_id p wide room h =
      subst (Inv ops c) (ok-injective h) (new_sequential-Inv network server_ip wide room)
  by_strategy-Inv network server_ip node_id server_id p wide room h =
      new_node_id-Inv network server_id p h

  -- A pool that `new` accepts is sound after any history, if its server address lies below the
  -- last address of the network.
  pub new-run-Inv :
      (network : Net) (server_ip : Option ℕ) (strategy : Ip6Strategy) (server_id : E)
      (p : Ip6Pool Net E) (history : List (Op E))
      → HasRoom6 ops network server_ip
      → new ops c network server_ip strategy server_id ≡ ok p
      → Inv ops c (run ops c p history)
  unfolding new
  new-run-Inv network server_ip strategy server_id p history room made =
      run-Inv ops c p history
        (by_strategy-Inv network server_ip strategy server_id p (ground arith) room (ground arith))

-- By node id, two devices of one endpoint that hold addresses are the same device.
pub one_device :
    {Net E : Type 0} ⦃e : Eq E⦄ (ops : IpNetOps Net) (c : Crypto E) (p : Ip6Pool Net E) (id : E)
    (d d' a b : ℕ)
    → Inv ops c p
    → p.alloc ≡ by_node_id
    → Dict.get (id, d) p.in_use ≡ some a
    → Dict.get (id, d') p.in_use ≡ some b
    → d ≡ d'
one_device ops c p id d d' a b v given h h' =
    let old = subst (Consistent ops c p) given v.consistent in
    let same : b ≡ a = (old (id, d') b h').0 ∙ sym (old (id, d) a h).0 in
    ap (λ k. k.1)
      (get_injective (id, d) (id, d') a p.in_use (Nodup.of_append_left _ v.distinct) h
        (rw same at h'))
