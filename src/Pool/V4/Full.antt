-- ===== src/Pool/V4/Full.antt =====
-- When an IPv4 pool refuses a client.
use mathlib.Core.List.{mem-append_right, mem-cons_self}
use ezvpn.Prelude.{
  ℕ, suc, ◌+◌, ◌-◌, ◌≤◌, ◌≡◌, ◌↔◌, refl, sym, ap, ◌∙◌, Option, none, some, List, [], ◌∷◌, arith, Eq,
  pair_eq, ℕ_eq, length, length-append,
}
use ezvpn.Dict
use ezvpn.Dict.{get-insert_self, get-remove_ne, keys_differ}
use ezvpn.Dict.Values.{values}
use ezvpn.Pool.V4.{IpPool, pop_released, next_unreserved_ip, reuse, allocate}
use ezvpn.Pool.V4.Steps.{Advances, next_loop-Advances}
use ezvpn.Pool.V4.Invariant.{Inv}
use ezvpn.Pool.V4.Repeat.{assign_result}

length-values : {E : Type 0} (m : Dict.Dict (E × ℕ) ℕ) → length (values m) ≡ length m
length-values [] = refl
length-values (x ∷ m) = ap suc (length-values m)

module _ {Net E : Type 0} ⦃e : Eq E⦄ where
  loop_exhausted :
      (p : IpPool Net E)
      → Inv p
      → p.reserved ≡ []
      → p.server_ip ≤ p.max_ip
      → (r : Option ℕ × ℕ) → Advances p.reserved p.max_ip p.next_ip r
      → (r.0 ≡ none) ↔ (p.next_ip ≡ p.max_ip + 1)
  loop_exhausted p v h le (none, after) a = (λ _. omega (arith, a.3 h, v.next_le), λ _. refl)
  loop_exhausted p v h le (some ip, after) a = (λ q. cc, λ q. absurd (omega (arith, a.4 h)))

  refused_by :
      (key : E × ℕ) (p : IpPool Net E)
      → Inv p
      → p.reserved ≡ []
      → p.server_ip ≤ p.max_ip
      → (l : List ℕ) → p.released ≡ l
      → ((reuse key p (pop_released p.reserved l)).0 ≡ none)
        ↔ (length p.in_use + p.server_ip ≡ p.max_ip)
  unfolding reuse pop_released next_unreserved_ip
  refused_by key p v h le [] empty =
      let all = length-append (values p.in_use) p.released in
      let none_back = ap (λ (t : List ℕ). length t) empty in
      let full = loop_exhausted p v h le _ (
        next_loop-Advances (suc (p.max_ip + 1 - p.next_ip)) p.reserved p.max_ip p.next_ip v.bounded
          (omega arith)) in
      (
        λ q. omega (
          arith,
          full.0 (sym (assign_result key _ _) ∙ q),
          v.counted h,
          all,
          none_back,
          length-values p.in_use,
        ),
        λ q.
            assign_result key _ _
            ∙ full.1 (omega (arith, v.counted h, all, none_back, length-values p.in_use)),
      )
  refused_by key p v h le (ip ∷ l) given =
      rw (v.usable ip (rw given (mem-append_right (values p.in_use) mem-cons_self))).3 (
        λ q. cc,
        λ q. absurd (
            omega (
              arith,
              v.counted h,
              length-append (values p.in_use) p.released,
              v.next_le,
              ap (λ (t : List ℕ). length t) given,
              length-values p.in_use,
            )),
      )

  -- A client without an address is refused exactly when every address above the server's, up to
  -- the last one, is in use. (Nothing is reserved outside the tests of the program.)
  pub refused_iff_full :
      (p : IpPool Net E) (endpoint_id : E) (device_id : ℕ)
      → Inv p
      → p.reserved ≡ []
      → p.server_ip ≤ p.max_ip
      → Dict.get (endpoint_id, device_id) p.in_use ≡ none
      → ((allocate p endpoint_id device_id).0 ≡ none) ↔ (length p.in_use + p.server_ip ≡ p.max_ip)
  unfolding allocate
  refused_iff_full p endpoint_id device_id v h le absent =
      rw (absent, allocate) (refused_by (endpoint_id, device_id) p v h le p.released refl)
