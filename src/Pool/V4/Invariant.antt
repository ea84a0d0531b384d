-- ===== src/Pool/V4/Invariant.antt =====
-- src/tunnel/server.rs, `IpPool`: the invariant of a pool.
use mathlib.Core.List.{
  Nodup-cons, perm_middle, mem-cons, append_assoc, mem-append_right, mem-cons_self,
}
use mathlib.Core.List.Perm
use mathlib.Core.Logic.Or
use native.Mathlib.Bridge.{le_prop}
use ezvpn.Prelude.{
  ℕ, ◌+◌, ◌-◌, ◌≤◌, ◌<◌, ◌≡◌, refl, sym, ap, ◌∙◌, inl, inr, false, Option, none, some, List, [],
  ◌∷◌, ◌++◌, Mem, Nodup, Perm, arith, Eq, pair_eq, ℕ_eq, nat_eq, any, length, length-perm, subst,
  Option-cases,
}
use ezvpn.Dict
use ezvpn.Dict.{Unique, insert-Unique, remove-Unique}
use ezvpn.Dict.Values.{values, values-insert_new, values-remove-perm}
use ezvpn.Pool.History.{Op, allocates, releases}
use ezvpn.Pool.V4.{
  IpPool, u32_mod, pop_released, next_unreserved_ip, assign, reuse, allocate, release, allocates,
  releases, step, run,
}
use ezvpn.Pool.V4.Steps.{Advances, next_loop-Advances}

-- The addresses that were handed out once: those in use, and those given back.
abbrev pub owned : {Net E : Type 0} → IpPool Net E → List ℕ
owned p = values p.in_use ++ p.released

-- An address that a client may hold: above the server's, handed out before, in the range, and not
-- reserved.
abbrev pub IsClientIp : ℕ → ℕ → ℕ → List ℕ → ℕ → Type 0
IsClientIp server_ip next_ip max_ip reserved a =
    (server_ip < a) × (a < next_ip) × (a ≤ max_ip) × (any (nat_eq a) reserved ≡ false)

IsClientIp-prop : (s n m : ℕ) (reserved : List ℕ) (a : ℕ) → IsProp (IsClientIp s n m reserved a)
IsClientIp-prop s n m reserved a = hlevel le_prop

pub record Inv {Net E : Type 0} ⦃e : Eq E⦄ (p : IpPool Net E) : Type 0 where
  pub unique : Unique p.in_use
  pub distinct : Nodup (owned p)
  pub usable : (a : ℕ) → Mem a (owned p) → IsClientIp p.server_ip p.next_ip p.max_ip p.reserved a
  pub started : p.server_ip < p.next_ip
  pub bounded : p.max_ip + 1 < u32_mod
  pub no_wrap : p.next_ip < u32_mod
  -- with nothing reserved, every address below `next_ip` was handed out
  pub counted : p.reserved ≡ [] → length (owned p) + p.server_ip + 1 ≡ p.next_ip
  pub next_le : p.next_ip ≤ p.max_ip + 1 + (p.server_ip + 1 - (p.max_ip + 1))

module _ {Net E : Type 0} ⦃e : Eq E⦄ (p : IpPool Net E) (key : E × ℕ) (v : Inv p) where
  -- The address given back last is lent again.
  reuse-Inv :
      (ip : ℕ) (released : List ℕ)
      → Dict.get key p.in_use ≡ none
      → p.released ≡ ip ∷ released
      → Inv (record p { in_use = Dict.insert key ip p.in_use; released = released })
  reuse-Inv ip released absent given = record {
    unique = insert-Unique key ip p.in_use v.unique;
    distinct = subst Nodup same v.distinct;
    usable = λ a m. v.usable a (subst (Mem a) (sym same) m);
    started = v.started;
    bounded = v.bounded;
    no_wrap = v.no_wrap;
    counted = λ h. ap (λ (l : List ℕ). length l + p.server_ip + 1) (sym same) ∙ v.counted h;
    next_le = v.next_le;
  }
    where
      same : owned p ≡ values (Dict.insert key ip p.in_use) ++ released
      same =
          rw (given, values-insert_new key ip p.in_use absent)
            (sym (append_assoc (values p.in_use) (ip ∷ []) released))

  -- A fresh address is lent.
  fresh-Inv :
      (ip : ℕ)
      → Dict.get key p.in_use ≡ none
      → p.released ≡ []
      → p.next_ip ≤ ip
      → ip ≤ p.max_ip
      → any (nat_eq ip) p.reserved ≡ false
      → (p.reserved ≡ [] → ip ≡ p.next_ip)
      → Inv (record p { in_use = Dict.insert key ip p.in_use; released = []; next_ip = ip + 1 })
  fresh-Inv ip absent empty above below free next = record {
    unique = insert-Unique key ip p.in_use v.unique;
    distinct = Perm.nodup more (Nodup-cons.1 (λ m. absurd (clash (v.usable ip m)), v.distinct));
    usable = λ a m.
        Or.elim (IsClientIp-prop _ _ _ _ a) (mem-cons.0 ((Perm.mem_iff more).1 m))
          (λ same. rw same (omega arith, omega arith, below, free))
          (λ old. let u = v.usable a old in (u.0, omega arith, u.2, u.3));
    started = omega (arith, v.started);
    bounded = v.bounded;
    no_wrap = omega (arith, v.bounded);
    counted = λ h. omega (arith, length-perm more, v.counted h, next h);
    next_le = omega (arith, v.started);
  }
    where
      more : Perm (ip ∷ owned p) (values (Dict.insert key ip p.in_use) ++ [])
      more =
          rw (empty, values-insert_new key ip p.in_use absent, append_assoc)
            (Perm.symm (perm_middle (values p.in_use) []))

      clash : IsClientIp p.server_ip p.next_ip p.max_ip p.reserved ip → ⊥
      clash c = omega arith

  -- The scan found nothing: only `next_ip` moved, past the range.
  scanned-Inv :
      (after : ℕ)
      → p.released ≡ []
      → Advances p.reserved p.max_ip p.next_ip (none, after)
      → Inv (record p { released = []; next_ip = after })
  scanned-Inv after empty a = record {
    unique = v.unique;
    distinct = subst Nodup same v.distinct;
    usable = λ b m. let u = v.usable b (subst (Mem b) (sym same) m) in (u.0, omega arith, u.2, u.3);
    started = omega (arith, v.started);
    bounded = v.bounded;
    no_wrap = omega (arith, v.bounded, v.no_wrap);
    counted = λ h. omega (arith, ap (λ (l : List ℕ). length l) same, v.counted h, a.3 h);
    next_le = omega (arith, v.next_le, v.started);
  }
    where
      same : owned p ≡ values p.in_use ++ []
      same = rw empty

  assign-Inv :
      (r : Option ℕ × ℕ)
      → Dict.get key p.in_use ≡ none
      → p.released ≡ []
      → Advances p.reserved p.max_ip p.next_ip r
      → Inv (assign key (r.0, record p { released = []; next_ip = r.1 })).1
  unfolding assign
  assign-Inv (some ip, after) absent empty a = rw a.2 (fresh-Inv ip absent empty a.0 a.1 a.3 a.4)
  assign-Inv (none, after) absent empty a = scanned-Inv after empty a

  lend-Inv :
      (l : List ℕ)
      → Dict.get key p.in_use ≡ none
      → p.released ≡ l
      → Inv (reuse key p (pop_released p.reserved l)).1
  unfolding reuse next_unreserved_ip pop_released
  lend-Inv [] absent empty =
      assign-Inv _ absent empty
        (next_loop-Advances _ p.reserved p.max_ip p.next_ip v.bounded (omega arith))
  lend-Inv (ip ∷ l) absent given =
      rw (v.usable ip (rw given (mem-append_right (values p.in_use) mem-cons_self))).3
        (unfold assign in reuse-Inv ip l absent given)

module _ {Net E : Type 0} ⦃e : Eq E⦄ where
  pub allocate-Inv :
      (p : IpPool Net E) (endpoint_id : E) (device_id : ℕ)
      → Inv p
      → Inv (allocate p endpoint_id device_id).1
  unfolding allocate
  allocate-Inv p endpoint_id device_id v =
      elim (Option-cases (Dict.get (endpoint_id, device_id) p.in_use)) [
        | inr (ip, held) ↦ rw (held, allocate) v
        | inl absent ↦
            rw (absent, allocate) (lend-Inv p (endpoint_id, device_id) v p.released absent refl)
      ]

  pub release-Inv :
      (p : IpPool Net E) (endpoint_id : E) (device_id : ℕ)
      → Inv p
      → Inv (release p endpoint_id device_id)
  unfolding release
  release-Inv p endpoint_id device_id v =
      elim (Option-cases (Dict.get (endpoint_id, device_id) p.in_use)) [
        | inl absent ↦ rw (absent, release) v
        | inr (ip, held) ↦ rw (held, release) (back ip held)
      ]
    where
      back :
          (ip : ℕ)
          → Dict.get (endpoint_id, device_id) p.in_use ≡ some ip
          → Inv (record p {
            in_use = Dict.remove (endpoint_id, device_id) p.in_use;
            released = ip ∷ p.released;
          })
      back ip held = record {
        unique = remove-Unique (endpoint_id, device_id) p.in_use v.unique;
        distinct = Perm.nodup moved v.distinct;
        usable = λ a m. v.usable a ((Perm.mem_iff moved).1 m);
        started = v.started;
        bounded = v.bounded;
        no_wrap = v.no_wrap;
        counted = λ h. omega (arith, length-perm moved, v.counted h);
        next_le = v.next_le;
      }
        where
          moved :
              Perm
                (owned p)
                (values (Dict.remove (endpoint_id, device_id) p.in_use) ++ ip ∷ p.released)
          moved =
              Perm.trans
                (Perm.append_right p.released
                  (values-remove-perm (endpoint_id, device_id) ip p.in_use held))
                (Perm.symm (perm_middle _ p.released))

  step-Inv : (p : IpPool Net E) (op : Op E) → Inv p → Inv (step p op)
  unfolding step
  step-Inv p (allocates endpoint_id device_id) = allocate-Inv p endpoint_id device_id
  step-Inv p (releases endpoint_id device_id) = release-Inv p endpoint_id device_id

  pub run-Inv : (p : IpPool Net E) (ops : List (Op E)) → Inv p → Inv (run p ops)
  unfolding run
  run-Inv p [] v = v
  run-Inv p (op ∷ ops) v = run-Inv (step p op) ops (step-Inv p op v)
