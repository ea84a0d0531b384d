-- ===== src/Pool/V4/Service.antt =====
-- src/tunnel/server.rs, `IpPool`: the addresses that a pool has lent after a history.
use mathlib.Core.List.{mem-append_left, not-mem-nil, Nodup-nil}
use mathlib.Core.List.Nodup
use ezvpn.Prelude.{
  ℕ, ◌≤◌, ◌<◌, ◌≡◌, ◌≢◌, refl, ap, ◌∙◌, inl, inr, true, Option, none, some, List, [], ◌∷◌, arith,
  Eq, pair_eq, ℕ_eq, Option-cases,
}
use ezvpn.Dict
use ezvpn.Dict.{get-insert_self, get-remove_ne, keys_differ}
use ezvpn.Dict.Values.{get-mem-values, get_injective}
use ezvpn.IpNet.{IpNetOps, IsIpNet}
use ezvpn.Pool.History.{Op, allocates, releases}
use ezvpn.Pool.V4.{
  IpPool, default_server_ip, new, pop_released, next_unreserved_ip, assign, reuse, allocate,
  release, step, run,
}
use ezvpn.Pool.V4.Invariant.{Inv, run-Inv}

-- What no operation changes.
abbrev fixed : {Net E : Type 0} → IpPool Net E → Net × ℕ × ℕ × List ℕ
fixed p = (p.network, p.server_ip, p.max_ip, p.reserved)

module _ {Net E : Type 0} ⦃e : Eq E⦄ where
  fixed-assign :
      (key : E × ℕ) (r : Option ℕ) (p : IpPool Net E) → fixed (assign key (r, p)).1 ≡ fixed p
  unfolding assign
  fixed-assign key none p = refl
  fixed-assign key (some ip) p = refl

  fixed-reuse :
      (key : E × ℕ) (p : IpPool Net E) (r : Option ℕ × List ℕ) → fixed (reuse key p r).1 ≡ fixed p
  unfolding reuse next_unreserved_ip
  fixed-reuse key p (some ip, released) =
      fixed-assign key (some ip) (record p { released = released })
  fixed-reuse key p (none, released) =
      fixed-assign key _ (next_unreserved_ip (record p { released = released })).1

  fixed-allocate : (p : IpPool Net E) (ep : E) (dev : ℕ) → fixed (allocate p ep dev).1 ≡ fixed p
  unfolding allocate
  fixed-allocate p ep dev = elim (Option-cases (Dict.get (ep, dev) p.in_use)) [
    | inl h ↦ rw (h, allocate) (fixed-reuse (ep, dev) p (pop_released p.reserved p.released))
    | inr (ip, h) ↦ rw (h, allocate)
  ]

  fixed-release : (p : IpPool Net E) (ep : E) (dev : ℕ) → fixed (release p ep dev) ≡ fixed p
  unfolding release
  fixed-release p ep dev = elim (Option-cases (Dict.get (ep, dev) p.in_use)) [
    | inl h ↦ rw (h, release)
    | inr (ip, h) ↦ rw (h, release)
  ]

  fixed-step : (p : IpPool Net E) (op : Op E) → fixed (step p op) ≡ fixed p
  unfolding step
  fixed-step p (allocates ep dev) = fixed-allocate p ep dev
  fixed-step p (releases ep dev) = fixed-release p ep dev

  pub fixed-run : (p : IpPool Net E) (ops : List (Op E)) → fixed (run p ops) ≡ fixed p
  unfolding run
  fixed-run p [] = refl
  fixed-run p (op ∷ ops) = fixed-run (step p op) ops ∙ fixed-step p op

-- A server address that leaves room below the broadcast address.
abbrev pub HasRoom : {Net : Type 0} → IpNetOps Net → Net → Option ℕ → Type 0
HasRoom ops network server_ip =
    (ops.network network ≤ default_server_ip server_ip (ops.network network))
    × (default_server_ip server_ip (ops.network network) < ops.broadcast network)

module _ {Net : Type 0} (ops : IpNetOps Net) (laws : IsIpNet 32 ops) where
  pub new-Inv :
      {E : Type 0} ⦃e : Eq E⦄ (network : Net) (server_ip : Option ℕ)
      → HasRoom ops network server_ip
      → Inv (new {E = E} ops network server_ip)
  unfolding new
  new-Inv network server_ip h = record {
    unique = tt;
    distinct = Nodup-nil;
    usable = λ a m. absurd (not-mem-nil m);
    started = omega (arith, laws.broadcast_lt network);
    bounded = omega (arith, laws.broadcast_lt network);
    no_wrap = omega (arith, laws.broadcast_lt network);
    counted = λ _. omega (arith, laws.broadcast_lt network);
    next_le = omega (arith, laws.broadcast_lt network);
  }

  -- After any history from a new pool whose server address lies in the network below the broadcast
  -- address, an address that is lent lies in the network, strictly between its network address and
  -- its broadcast address, and is not the server's.
  pub lent_in_network :
      {E : Type 0} ⦃e : Eq E⦄ (network : Net) (server_ip : Option ℕ) (history : List (Op E))
      (client : E × ℕ) (a : ℕ)
      → HasRoom ops network server_ip
      → Dict.get client (run (new ops network server_ip) history).in_use ≡ some a
      → (ops.contains network a ≡ true)
        × (ops.network network < a)
        × (a < ops.broadcast network)
        × (a ≢ (run (new {E = E} ops network server_ip) history).server_ip)
  unfolding new
  lent_in_network network server_ip history client a room held =
      let p = run (new ops network server_ip) history in
      let v = run-Inv _ history (new-Inv network server_ip room) in
      let u = v.usable a (mem-append_left p.released (get-mem-values client a p.in_use held)) in
      let kept = fixed-run (new ops network server_ip) history in
      let same_server = ap (λ (t : Net × ℕ × ℕ × List ℕ). t.1) kept in
      let same_max = ap (λ (t : Net × ℕ × ℕ × List ℕ). t.2) kept in
      (
        (laws.contains_iff network a).1
            (omega (arith, laws.broadcast_lt network), omega (arith, laws.broadcast_lt network)),
        omega (arith, laws.broadcast_lt network),
        omega (arith, laws.broadcast_lt network),
        omega arith,
      )

  -- After any history from a new pool whose server address lies in the network below the broadcast
  -- address, two clients that hold one address are the same client.
  pub lent_once :
      {E : Type 0} ⦃e : Eq E⦄ (network : Net) (server_ip : Option ℕ) (history : List (Op E))
      (k j : E × ℕ) (a : ℕ)
      → HasRoom ops network server_ip
      → Dict.get k (run (new ops network server_ip) history).in_use ≡ some a
      → Dict.get j (run (new ops network server_ip) history).in_use ≡ some a
      → k ≡ j
  lent_once network server_ip history k j a room held held' =
      let p = run (new ops network server_ip) history in
      let v = run-Inv _ history (new-Inv network server_ip room) in
      get_injective k j a p.in_use (Nodup.of_append_left p.released v.distinct) held held'
