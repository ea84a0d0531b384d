-- ===== src/Pool/V6/Invariant.antt =====
-- src/tunnel/server.rs, `Ip6Pool`: the invariant of a pool, under either strategy.
use mathlib.Core.List.{Nodup-cons, perm_middle, mem-cons, append_assoc, not-mem-nil, append-nil}
use mathlib.Core.List.Perm
use mathlib.Core.Logic.Or
use native.Mathlib.Bridge.{le_prop}
use ezvpn.Prelude.{
  ℕ, ◌+◌, ◌-◌, ◌%◌, ◌≤◌, ◌<◌, ◌≡◌, ◌≢◌, refl, sym, ap, ◌∙◌, inl, inr, false, none, some, List, [],
  ◌∷◌, ◌++◌, Mem, Nodup, Perm, arith, Eq, pair_eq, ℕ_eq, nat_eq, any, length, Option-cases,
  Bool-cases, subst, length-perm, leb, leb→le, ◌||◌, ◌==◌,
}
use ezvpn.Dict
use ezvpn.Dict.{Unique, insert-Unique, remove-Unique, get-insert, get-remove_ne, get-remove_self}
use ezvpn.Dict.Values.{values, values-insert_new, values-remove-perm}
use ezvpn.IpNet.{IpNetOps}
use ezvpn.Pool.History.{Op, allocates, releases}
use ezvpn.Pool.V6.{
  step, run, Ip6Pool, Ip6Alloc, in_sequence, by_node_id, Crypto, derived_ip6, u128_mod, pick, lend,
  allocate, give_back, release,
}

abbrev pub released_of : Ip6Alloc → List ℕ
released_of (in_sequence next_ip max_ip released) = released
released_of by_node_id = []

abbrev pub owned : {Net E : Type 0} → Ip6Pool Net E → List ℕ
owned p = values p.in_use ++ released_of p.alloc

module _ {Net E : Type 0} ⦃e : Eq E⦄ (ops : IpNetOps Net) (c : Crypto E) where
  -- In sequence, the addresses handed out are those between the server's and `next_ip`, each once;
  -- by node id, each client has the address derived from its endpoint id.
  abbrev pub Consistent : Ip6Pool Net E → Ip6Alloc → Type 0
  Consistent p (in_sequence next_ip max_ip released) =
      ((a : ℕ) → Mem a (owned p) → (p.server_ip < a) × (a < next_ip) × (a ≤ max_ip))
      × (p.server_ip < next_ip)
      × (max_ip + 1 < u128_mod)
      × (length (owned p) + p.server_ip + 1 ≡ next_ip)
      × (next_ip ≤ max_ip + 1 + (p.server_ip + 1 - (max_ip + 1)))
  Consistent p by_node_id =
      (k : E × ℕ) (a : ℕ)
      → Dict.get k p.in_use ≡ some a
      → (a ≡ derived_ip6 c ops p.network k.0) × (a ≢ ops.network p.network) × (a ≢ p.server_ip)

  pub record Inv (p : Ip6Pool Net E) : Type 0 where
    pub unique : Unique p.in_use
    pub distinct : Nodup (owned p)
    pub consistent : Consistent p p.alloc

  In_range-prop : (s n m a : ℕ) → IsProp ((s < a) × (a < n) × (a ≤ m))
  In_range-prop s n m a = hlevel le_prop

  any_eq_mem : (a : ℕ) (l : List ℕ) → any (λ used. nat_eq used a) l ≡ false → Mem a l → ⊥
  any_eq_mem a [] h m = not-mem-nil m
  any_eq_mem a (x ∷ l) h m =
      Or.elim (λ u v. absurd u) (mem-cons.0 m) (λ same. ground (arith))
        (any_eq_mem a l (ground arith))

  -- A client that is lent its derived address, beside the others.
  insert-Derived :
      (p : Ip6Pool Net E) (key k : E × ℕ) (a ip : ℕ)
      → ip ≡ derived_ip6 c ops p.network key.0
      → ip ≢ ops.network p.network
      → ip ≢ p.server_ip
      → Consistent p by_node_id
      → Dict.get k (Dict.insert key ip p.in_use) ≡ some a
      → (a ≡ derived_ip6 c ops p.network k.0) × (a ≢ ops.network p.network) × (a ≢ p.server_ip)
  insert-Derived p key k a ip e net server old h = elim (Bool-cases (key == k)) [
    | inl same ↦
        let lent : ip ≡ a = cc (rw same at (sym (get-insert key k ip p.in_use) ∙ h)) in
        let eq : key ≡ k = (pair_eq.beq_iff key k).0 same in rw (← lent, ← eq) (e, net, server)
    | inr other ↦ old k a (rw other at (sym (get-insert key k ip p.in_use) ∙ h))
  ]

  lend-Inv :
      (p : Ip6Pool Net E) (key : E × ℕ) (alloc : Ip6Alloc)
      → Inv p
      → Dict.get key p.in_use ≡ none
      → p.alloc ≡ alloc
      → Inv (lend p key (pick ops c p key.0 alloc)).1
  unfolding pick lend
  lend-Inv p key (in_sequence next_ip max_ip (ip ∷ released)) v absent given =
      let old = subst (Consistent p) given v.consistent in
      record {
        unique = insert-Unique key ip p.in_use v.unique;
        distinct = subst Nodup same v.distinct;
        consistent = (
          λ a m. old.0 a (subst (Mem a) (sym same) m),
          old.1,
          old.2,
          ap (λ (l : List ℕ). length l + p.server_ip + 1) (sym same) ∙ old.3,
          old.4,
        );
      }
    where
      same : owned p ≡ values (Dict.insert key ip p.in_use) ++ released
      same =
          rw (given, values-insert_new key ip p.in_use absent)
            (sym (append_assoc (values p.in_use) (ip ∷ []) released))
  lend-Inv p key (in_sequence next_ip max_ip []) v absent given =
      elim (Bool-cases (leb next_ip max_ip)) [
        | inr past ↦ rw past v
        | inl left ↦
            let old = subst (Consistent p) given v.consistent in
            let room : next_ip ≤ max_ip = leb→le next_ip max_ip left in
            let e : (next_ip + 1) % u128_mod ≡ next_ip + 1 = omega arith in
            rw (left, e)
              (record {
                unique = insert-Unique key next_ip p.in_use v.unique;
                distinct =
                    Perm.nodup more
                      (Nodup-cons.1 (λ m. absurd (omega (arith, old.0 next_ip m)), v.distinct));
                consistent = (
                  λ a m.
                      Or.elim (In_range-prop _ _ _ a) (mem-cons.0 ((Perm.mem_iff more).1 m))
                        (λ same. rw same (omega arith, omega arith, room))
                        (λ was. let u = old.0 a was in (u.0, omega arith, u.2)),
                  omega (arith, old.1),
                  old.2,
                  omega (arith, length-perm more, old.3),
                  omega (arith, old.1),
                );
              })
      ]
    where
      more : Perm (next_ip ∷ owned p) (values (Dict.insert key next_ip p.in_use) ++ [])
      more =
          rw (given, values-insert_new key next_ip p.in_use absent, append_assoc)
            (Perm.symm (perm_middle (values p.in_use) []))
  lend-Inv p key by_node_id v absent given =
      elim (Bool-cases (
        nat_eq ip (ops.network p.network)
        || nat_eq ip p.server_ip
        || any (λ used. nat_eq used ip) (values p.in_use))) [
          | inl refused ↦ rw refused v
          | inr free ↦ rw free (record {
            unique = insert-Unique key ip p.in_use v.unique;
            distinct = Perm.nodup more (
                Nodup-cons.1 (
                  λ m. absurd (
                      any_eq_mem ip (values p.in_use) (ground arith) (rw (given, append-nil) at m)),
                  v.distinct,
                ));
            consistent = λ k a h.
                insert-Derived p key k a ip refl (ground arith) (ground arith)
                  (subst (Consistent p) given v.consistent) h;
          })
        ]
    where
      ip : ℕ
      ip = derived_ip6 c ops p.network key.0

      more : Perm (ip ∷ owned p) (values (Dict.insert key ip p.in_use) ++ [])
      more =
          rw (given, values-insert_new key ip p.in_use absent, append_assoc)
            (Perm.symm (perm_middle (values p.in_use) []))

  -- Giving an address back keeps the pool consistent.
  remove-Consistent :
      (p : Ip6Pool Net E) (key : E × ℕ) (ip : ℕ) (alloc : Ip6Alloc)
      → Inv p
      → Dict.get key p.in_use ≡ some ip
      → p.alloc ≡ alloc
      → Inv (record p { alloc = give_back ip alloc; in_use = Dict.remove key p.in_use })
  unfolding give_back
  remove-Consistent p key ip (in_sequence next_ip max_ip released) v held given =
      let old = subst (Consistent p) given v.consistent in
      record {
        unique = remove-Unique key p.in_use v.unique;
        distinct = Perm.nodup moved v.distinct;
        consistent = (
          λ a m. old.0 a ((Perm.mem_iff moved).1 m),
          old.1,
          old.2,
          omega (arith, length-perm moved, old.3),
          old.4,
        );
      }
    where
      moved : Perm (owned p) (values (Dict.remove key p.in_use) ++ ip ∷ released)
      moved = rw given (
          Perm.trans (Perm.append_right released (values-remove-perm key ip p.in_use held))
            (Perm.symm (perm_middle _ released)))
  remove-Consistent p key ip by_node_id v held given =
      let old = subst (Consistent p) given v.consistent in
      record {
        unique = remove-Unique key p.in_use v.unique;
        distinct = (Nodup-cons.0 (Perm.nodup moved v.distinct)).1;
        consistent = λ k a h. elim (Bool-cases (key == k)) [
          | inl same ↦
              let gone = get-remove_self key p.in_use v.unique in
              absurd (clash k a ((pair_eq.beq_iff key k).0 same) h gone)
          | inr other ↦ old k a (sym (get-remove_ne key k p.in_use other) ∙ h)
        ];
      }
    where
      moved : Perm (owned p) (ip ∷ values (Dict.remove key p.in_use) ++ [])
      moved = rw given (Perm.append_right [] (values-remove-perm key ip p.in_use held))

      clash :
          (k : E × ℕ) (a : ℕ)
          → key ≡ k
          → Dict.get k (Dict.remove key p.in_use) ≡ some a
          → Dict.get key (Dict.remove key p.in_use) ≡ none
          → ⊥
      clash k a same h gone = cc (ap (λ (x : E × ℕ). Dict.get x (Dict.remove key p.in_use)) same)

  pub allocate-Inv :
      (p : Ip6Pool Net E) (endpoint_id : E) (device_id : ℕ)
      → Inv p
      → Inv (allocate ops c p endpoint_id device_id).1
  unfolding allocate
  allocate-Inv p endpoint_id device_id v =
      elim (Option-cases (Dict.get (endpoint_id, device_id) p.in_use)) [
        | inr (ip, held) ↦ rw (held, allocate) v
        | inl absent ↦
            rw (absent, allocate) (lend-Inv p (endpoint_id, device_id) p.alloc v absent refl)
      ]

  pub release-Inv :
      (p : Ip6Pool Net E) (endpoint_id : E) (device_id : ℕ)
      → Inv p
      → Inv (release p endpoint_id device_id)
  unfolding release
  release-Inv p endpoint_id device_id v =
      elim (Option-cases (Dict.get (endpoint_id, device_id) p.in_use)) [
        | inl absent ↦ rw (absent, release) v
        | inr (ip, held) ↦
            rw (held, release) (remove-Consistent p (endpoint_id, device_id) ip p.alloc v held refl)
      ]

  step-Inv : (p : Ip6Pool Net E) (op : Op E) → Inv p → Inv (step ops c p op)
  unfolding step
  step-Inv p (allocates endpoint_id device_id) = allocate-Inv p endpoint_id device_id
  step-Inv p (releases endpoint_id device_id) = release-Inv p endpoint_id device_id

  pub run-Inv : (p : Ip6Pool Net E) (history : List (Op E)) → Inv p → Inv (run ops c p history)
  unfolding run
  run-Inv p [] v = v
  run-Inv p (op ∷ history) v = run-Inv (step ops c p op) history (step-Inv p op v)
