-- ===== src/Pool/V4/Repeat.antt =====
-- A repeated request, and the reuse of an address.
use mathlib.Core.List.{mem-append_left}
use ezvpn.Prelude.{
  ℕ, ◌≡◌, refl, ◌∙◌, inl, inr, false, Option, none, some, List, ◌∷◌, Eq, pair_eq, ℕ_eq, nat_eq, any,
  Option-cases,
}
use ezvpn.Dict
use ezvpn.Dict.{get-insert_self, get-remove_ne, keys_differ}
use ezvpn.Dict.Values.{get-mem-values}
use ezvpn.Pool.V4.{IpPool, pop_released, next_unreserved_ip, assign, reuse, allocate, release}
use ezvpn.Pool.V4.Steps.{pop_released_lem}
use ezvpn.Pool.V4.Invariant.{Inv}

module _ {Net E : Type 0} ⦃e : Eq E⦄ where
  pub assign_result : (key : E × ℕ) (r : Option ℕ) (p : IpPool Net E) → (assign key (r, p)).0 ≡ r
  unfolding assign
  assign_result key none p = refl
  assign_result key (some ip) p = refl

  assign_records :
      (key : E × ℕ) (r : Option ℕ) (p : IpPool Net E)
      → Dict.get key p.in_use ≡ none
      → Dict.get key (assign key (r, p)).1.in_use ≡ (assign key (r, p)).0
  unfolding assign
  assign_records key none p absent = absent
  assign_records key (some ip) p absent = get-insert_self key ip p.in_use

  reuse_records :
      (key : E × ℕ) (p : IpPool Net E) (r : Option ℕ × List ℕ)
      → Dict.get key p.in_use ≡ none
      → Dict.get key (reuse key p r).1.in_use ≡ (reuse key p r).0
  unfolding reuse next_unreserved_ip
  reuse_records key p (some ip, released) absent =
      assign_records key (some ip) (record p { released = released }) absent
  reuse_records key p (none, released) absent = assign_records key _ _ absent

  pub allocate_held :
      (p : IpPool Net E) (endpoint_id : E) (device_id a : ℕ)
      → Dict.get (endpoint_id, device_id) p.in_use ≡ some a
      → allocate p endpoint_id device_id ≡ (some a, p)
  unfolding allocate
  allocate_held p endpoint_id device_id a h = rw (h, allocate)

  -- After a request the client holds what it was answered.
  pub allocate_records :
      (p : IpPool Net E) (endpoint_id : E) (device_id : ℕ)
      → Dict.get (endpoint_id, device_id) (allocate p endpoint_id device_id).1.in_use
        ≡ (allocate p endpoint_id device_id).0
  unfolding allocate
  allocate_records p endpoint_id device_id =
      elim (Option-cases (Dict.get (endpoint_id, device_id) p.in_use)) [
        | inl absent ↦
            rw (absent, allocate)
              (reuse_records (endpoint_id, device_id) p (pop_released p.reserved p.released) absent)
        | inr (ip, there) ↦ rw (there, allocate) there
      ]

  -- An address that was lent stays the client's: a second request returns it and changes nothing.
  pub allocate_again :
      (p : IpPool Net E) (endpoint_id : E) (device_id a : ℕ)
      → (allocate p endpoint_id device_id).0 ≡ some a
      → allocate (allocate p endpoint_id device_id).1 endpoint_id device_id
        ≡ (some a, (allocate p endpoint_id device_id).1)
  allocate_again p endpoint_id device_id a h =
      allocate_held _ endpoint_id device_id a (allocate_records p endpoint_id device_id ∙ h)

  lend_head :
      (p : IpPool Net E) (key : E × ℕ) (a : ℕ) (l : List ℕ)
      → any (nat_eq a) p.reserved ≡ false
      → Dict.get key p.in_use ≡ none
      → p.released ≡ a ∷ l
      → (allocate p key.0 key.1).0 ≡ some a
  unfolding allocate reuse
  lend_head p key a l free absent given =
      rw (absent, allocate, given, pop_released_lem p.reserved a l free)
        (assign_result key (some a) (record p { released = l }))

  -- An address that is given back is the next one to be lent, to whichever client asks without
  -- holding one.
  pub reuse_last :
      (p : IpPool Net E) (k j : E × ℕ) (a : ℕ)
      → Inv p
      → Dict.get k p.in_use ≡ some a
      → Dict.get j p.in_use ≡ none
      → (allocate (release p k.0 k.1) j.0 j.1).0 ≡ some a
  unfolding release
  reuse_last p k j a v held absent =
      rw (held, release)
        (lend_head _ j a p.released
          (v.usable a (mem-append_left p.released (get-mem-values k a p.in_use held))).3
          (get-remove_ne k j p.in_use (keys_differ k j a p.in_use held absent) ∙ absent) refl)
