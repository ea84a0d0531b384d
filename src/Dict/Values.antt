-- ===== src/Dict/Values.antt =====
-- The values of a map as a list: what an insertion adds and a removal takes away.
use mathlib.Core.List.{Nodup-cons, mem-cons_self}
use mathlib.Core.List.Perm
use ezvpn.Prelude.{
  ◌≡◌, refl, ap, inl, inr, none, some, List, [], ◌∷◌, ◌++◌, map, Mem, Perm, Nodup, arith, Eq, ◌==◌,
  Bool-cases, ◌∙◌,
}
use ezvpn.Dict.{Dict, get, insert, remove, get-remove_ne}

module _ {ℓ} {K V : Type ℓ} where
  abbrev pub values : Dict K V → List V
  values = map (λ p. p.1)

module _ {ℓ} {K V : Type ℓ} ⦃e : Eq K⦄ where
  pub values-insert_new :
      (k : K) (v : V) (m : Dict K V) → get k m ≡ none → values (insert k v m) ≡ values m ++ v ∷ []
  unfolding get insert
  values-insert_new k v [] h = refl
  values-insert_new k v ((j, w) ∷ m) h = elim (Bool-cases (j == k)) [
    | inl same ↦ cc (rw same at h)
    | inr other ↦ rw other (ap (◌∷◌ w) (values-insert_new k v m (rw other at h)))
  ]

  pub values-remove-perm :
      (k : K) (v : V) (m : Dict K V) → get k m ≡ some v → Perm (values m) (v ∷ values (remove k m))
  unfolding get remove
  values-remove-perm k v [] h = cc
  values-remove-perm k v ((j, w) ∷ m) h = elim (Bool-cases (j == k)) [
    | inl same ↦ rw same (Perm.cons' (ground (arith)) Perm.rfl)
    | inr other ↦
        rw other
          (Perm.trans (Perm.cons w (values-remove-perm k v m (rw other at h))) (Perm.swap v w _))
  ]

  pub get-mem-values : (k : K) (v : V) (m : Dict K V) → get k m ≡ some v → Mem v (values m)
  get-mem-values k v m h = (Perm.mem_iff (values-remove-perm k v m h)).1 mem-cons_self

  -- Where the values are distinct, no value stands under two keys.
  pub get_injective :
      (k j : K) (v : V) (m : Dict K V)
      → Nodup (values m)
      → get k m ≡ some v
      → get j m ≡ some v
      → k ≡ j
  get_injective k j v m nd hk hj = elim (Bool-cases (k == j)) [
    | inl same ↦ (e.beq_iff k j).0 same
    | inr other ↦ absurd (
        (Nodup-cons.0 (Perm.nodup (values-remove-perm k v m hk) nd)).0
          (get-mem-values j v (remove k m) (get-remove_ne k j m other ∙ hj)))
  ]
