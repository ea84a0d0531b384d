-- ===== src/Dict.antt =====
-- Rust's `HashMap` and `DashMap`, as an association list in which the first entry of a key counts.
-- `insert` replaces the entry of its key; `remove` takes it out and is followed by a lookup.
pub mod Values
use mathlib.Core.List.{perm_middle, Nodup-cons, mem-map_of_mem, mem-cons_self, mem-append_right}
use mathlib.Core.List.Perm
use mathlib.Core.Logic.Or
use ezvpn.Prelude.{
  ℕ, ◌+◌, ◌≤◌, ◌≡◌, ◌≢◌, refl, sym, ap, subst, inl, inr, Bool, true, false, Option, none, some,
  List, [], ◌∷◌, ◌++◌, map, Mem, Perm, Nodup, arith, Eq, ◌==◌, Bool-cases, if◌then◌else◌, length,
  any,
}

abbrev pub Dict {ℓ κ} : Type ℓ → Type κ → Type (ℓ ⊔ κ)
Dict K V = List (K × V)

module _ {ℓ κ} {K : Type ℓ} {V : Type κ} ⦃e : Eq K⦄ where
  unfoldable pub get : K → Dict K V → Option V
  get k [] = none
  get k ((j, v) ∷ m) = if j == k then some v else get k m

  unfoldable pub insert : K → V → Dict K V → Dict K V
  insert k v [] = (k, v) ∷ []
  insert k v ((j, w) ∷ m) = if j == k then (j, v) ∷ m else (j, w) ∷ insert k v m

  unfoldable pub remove : K → Dict K V → Dict K V
  remove k [] = []
  remove k ((j, w) ∷ m) = if j == k then m else (j, w) ∷ remove k m

  abbrev pub contains_key : K → Dict K V → Bool
  contains_key k m = elim (get k m) [ none ↦ false | some v ↦ true ]

  -- No key has two entries.
  abbrev pub Unique : Dict K V → Type κ
  Unique [] = Unit
  Unique ((k, v) ∷ m) = (get k m ≡ none) × Unique m

  pub get-insert :
      (k j : K) (v : V) (m : Dict K V) → get j (insert k v m) ≡ (if k == j then some v else get j m)
  unfolding get insert
  get-insert k j v [] = refl
  get-insert k j v ((i, w) ∷ m) =
      ground (arith, e.beq_iff k j, e.beq_iff i k, e.beq_iff i j, get-insert k j v m)

  pub get-insert_self : (k : K) (v : V) (m : Dict K V) → get k (insert k v m) ≡ some v
  get-insert_self k v m = rw (get-insert k k v m, (e.beq_iff k k).1 refl)

  pub get-insert_ne :
      (k j : K) (v : V) (m : Dict K V) → (k == j) ≡ false → get j (insert k v m) ≡ get j m
  get-insert_ne k j v m differ = rw (get-insert k j v m, differ)

  pub get-remove_ne : (k j : K) (m : Dict K V) → (k == j) ≡ false → get j (remove k m) ≡ get j m
  unfolding get remove
  get-remove_ne k j [] h = refl
  get-remove_ne k j ((i, w) ∷ m) h =
      ground (arith, e.beq_iff k j, e.beq_iff i k, e.beq_iff i j, get-remove_ne k j m h)

  pub get-remove_self : (k : K) (m : Dict K V) → Unique m → get k (remove k m) ≡ none
  unfolding get remove
  get-remove_self k [] u = refl
  get-remove_self k ((i, w) ∷ m) u = ground (arith, e.beq_iff i k, get-remove_self k m u.1, u.0)

  pub insert-Unique : (k : K) (v : V) (m : Dict K V) → Unique m → Unique (insert k v m)
  unfolding insert get
  insert-Unique k v [] u = (refl, tt)
  insert-Unique k v ((i, w) ∷ m) u =
      ground (arith, e.beq_iff i k, e.beq_iff k i, get-insert k i v m, insert-Unique k v m u.1)

  pub remove-Unique : (k : K) (m : Dict K V) → Unique m → Unique (remove k m)
  unfolding remove get
  remove-Unique k [] u = tt
  remove-Unique k ((i, w) ∷ m) u =
      ground (arith, e.beq_iff i k, e.beq_iff k i, get-remove_ne k i m, remove-Unique k m u.1)

  pub keys_differ :
      (k j : K) (v : V) (m : Dict K V) → get k m ≡ some v → get j m ≡ none → (k == j) ≡ false
  keys_differ k j v m held absent = elim (Bool-cases (k == j)) [
    | inr differ ↦ differ
    | inl same ↦ cc (ap (λ x. get x m) ((e.beq_iff k j).0 same))
  ]
