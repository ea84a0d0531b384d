-- ===== src/Server/Life/Taken.antt =====
-- src/tunnel/server.rs: what the assignment of addresses leaves, for a server with an IPv4 pool.
use ezvpn.Prelude.{
  ℕ, ◌≡◌, refl, ap, ◌∙◌, true, false, inl, inr, Option, none, some, Eq, Option-cases, pair_eq, ℕ_eq,
  is_none, Bool,
}
use Prim.Native.String.{String}
use ezvpn.Dict
use ezvpn.Dict.{Unique, get-insert_self, get-remove_self, insert-Unique}
use ezvpn.Error.{Result, ok, err, ok-injective}
use ezvpn.IpNet.{IpNetOps}
use ezvpn.Pool.V4
use ezvpn.Pool.V4.{IpPool}
use ezvpn.Pool.V4.Invariant.{Inv, allocate-Inv}
use ezvpn.Pool.V4.Repeat.{allocate_records}
use ezvpn.Pool.V6.{Crypto}
use ezvpn.Server.{Server, checked, assign_ip, assign_ip6, both, then_ip6, assign}

both_keeps :
    {S : Type 0} (ip4 : Option ℕ) (r : Result (Option ℕ) × S) (ips : Option ℕ × Option ℕ)
    → (both ip4 r).0 ≡ ok ips
    → ((both ip4 r).1 ≡ r.1) × (ip4 ≡ ips.0)
unfolding both
both_keeps none (err e, s) ips h = cc
both_keeps (some ip) (err e, s) ips h = cc
both_keeps none (ok none, s) ips h = cc
both_keeps none (ok (some ip6), s) ips h = (refl, ap (λ x. x.0) (ok-injective h))
both_keeps (some ip) (ok ip6, s) ips h = (refl, ap (λ x. x.0) (ok-injective h))

module _ {Net4 Net6 E : Type 0} ⦃e : Eq E⦄ where
  -- What the assignment leaves: the address in use, and the clients as they were.
  abbrev pub Taken : Server Net4 Net6 E → E × ℕ → Option ℕ → Server Net4 Net6 E → Type 0
  Taken s key ip s' =
      (p : IpPool Net4 E) × (s'.ip_pool ≡ some p)
      × Unique p.in_use
      × (Dict.get key p.in_use ≡ ip)
      × (s'.clients ≡ s.clients)
      × (s'.active_connections ≡ s.active_connections)

module _ {Net4 Net6 E : Type 0} ⦃e : Eq E⦄ (ops6 : IpNetOps Net6) (c : Crypto E) where
  assign_ip6_keeps :
      (s : Server Net4 Net6 E) (id : E) (d : ℕ)
      → ((assign_ip6 ops6 c s id d).1.ip_pool ≡ s.ip_pool)
        × ((assign_ip6 ops6 c s id d).1.clients ≡ s.clients)
        × ((assign_ip6 ops6 c s id d).1.active_connections ≡ s.active_connections)
  unfolding assign_ip6
  assign_ip6_keeps s id d = elim (Option-cases s.ip6_pool) [
    | inl absent ↦ rw (absent, assign_ip6) (refl, refl, refl)
    | inr (pool, there) ↦ rw (there, assign_ip6) (refl, refl, refl)
  ]

  both-Taken :
      (s s' : Server Net4 Net6 E) (key : E × ℕ) (p : IpPool Net4 E) (got : Option ℕ)
      (ips : Option ℕ × Option ℕ)
      → s'.ip_pool ≡ some p
      → Unique p.in_use
      → Dict.get key p.in_use ≡ got
      → s'.clients ≡ s.clients
      → s'.active_connections ≡ s.active_connections
      → let r = both got (assign_ip6 ops6 c s' key.0 key.1) in r.0 ≡ ok ips → Taken s key ips.0 r.1
  both-Taken s s' key p got ips pool unique there same count h =
      let (kept, first) = both_keeps got (assign_ip6 ops6 c s' key.0 key.1) ips h in
      let (pool_kept, clients_kept, count_kept) = assign_ip6_keeps s' key.0 key.1 in
      (
        p,
        ap (λ x. x.ip_pool) kept ∙ pool_kept ∙ pool,
        unique,
        there ∙ first,
        ap (λ x. x.clients) kept ∙ clients_kept ∙ same,
        ap (λ x. x.active_connections) kept ∙ count_kept ∙ count,
      )

  then_ip6-Taken :
      (s s' : Server Net4 Net6 E) (key : E × ℕ) (p : IpPool Net4 E) (got : Option ℕ) (only : Bool)
      (message : String) (ips : Option ℕ × Option ℕ)
      → s'.ip_pool ≡ some p
      → Unique p.in_use
      → Dict.get key p.in_use ≡ got
      → s'.clients ≡ s.clients
      → s'.active_connections ≡ s.active_connections
      → let r = then_ip6 ops6 c key.0 key.1 (checked got only message, s') in
        r.0 ≡ ok ips → Taken s key ips.0 r.1
  unfolding then_ip6 checked
  then_ip6-Taken s s' key p none true message ips pool unique there same count h = cc
  then_ip6-Taken s s' key p none false message ips pool unique there same count h =
      both-Taken s s' key p none ips pool unique there same count h
  then_ip6-Taken s s' key p (some a) only message ips pool unique there same count h =
      both-Taken s s' key p (some a) ips pool unique there same count h

  pub assign-Taken :
      (s : Server Net4 Net6 E) (p : IpPool Net4 E) (key : E × ℕ) (ips : Option ℕ × Option ℕ)
      → Inv p
      → s.ip_pool ≡ some p
      → (assign ops6 c s key.0 key.1).0 ≡ ok ips
      → Taken s key ips.0 (assign ops6 c s key.0 key.1).1
  unfolding assign assign_ip
  assign-Taken s p key ips sound pool =
      rw (pool, assign, assign_ip)
        (then_ip6-Taken s _ key (V4.allocate p key.0 key.1).1 (V4.allocate p key.0 key.1).0
          (is_none s.ip6_pool) "IPv4 pool exhausted" ips refl
          (allocate-Inv p key.0 key.1 sound).unique (allocate_records p key.0 key.1) refl refl)
