-- ===== src/Transport/PathSelector/Choice.antt =====
-- src/transport/path_selector.rs: which candidate is chosen.
use ezvpn.Prelude.{
  if_gave, some_injective, ℕ, suc, ◌-◌, ◌≤◌, ◌≡◌, ◌⊎◌, inl, inr, refl, ◌∙◌, ap, Bool, true, false,
  ◌&&◌, Option, none, some, List, [], ◌∷◌, get_elem?, All, Bool-cases, subst, arith, if◌then◌else◌,
}
use ezvpn.IpNet.{IpAddr}
use ezvpn.Transport.PathSelector.{
  PathOps, Key, key_lt, better, is_excluded, sort_key, is_current, key_of, scan,
}

-- No better than a key.
abbrev pub NotBetter : Key → Option Key → Type 0
NotBetter key c = better key c ≡ false

-- What is no better than a key is no better than one that beats it.
pub beaten :
    (key c : Key) (best : Option Key)
    → better key best ≡ true
    → NotBetter c best
    → NotBetter c (some key)
unfolding better key_lt
beaten key c none h k = cc
beaten key c (some b) h k = ground (arith, h, k)

pub not_itself : (key : Key) → NotBetter key (some key)
unfolding better key_lt
not_itself key = ground arith

module _ {FourTuple Net : Type 0} (ops : PathOps FourTuple) (contains : Net → IpAddr → Bool)
    (excluded : List Net) where
  abbrev pub key_at : FourTuple × ℕ → Key
  key_at c = sort_key ops contains excluded c.0 c.1

  abbrev pub go :
      Option FourTuple
      → ℕ
      → List (FourTuple × ℕ)
      → Option (ℕ × Key)
      → Option Key
      → Option (ℕ × Key) × Option Key
  go = scan ops contains excluded

  abbrev pub best_of : Option (ℕ × Key) → Option Key
  best_of = key_of ops contains excluded

  abbrev pub update_best : ℕ → FourTuple × ℕ → Option (ℕ × Key) → Option (ℕ × Key)
  update_best i c best = if better (key_at c) (best_of best) then some (i, key_at c) else best

  abbrev pub update_current : Option FourTuple → FourTuple × ℕ → Option Key → Option Key
  update_current current c current_key =
      if is_current ops contains excluded current c.0 && better (key_at c) current_key
      then some (key_at c)
      else current_key

  pub update-NotBetter :
      (i : ℕ) (c : FourTuple × ℕ) (best : Option (ℕ × Key)) (key : Key)
      → NotBetter key (best_of best)
      → NotBetter key (best_of (update_best i c best))
  unfolding key_of
  update-NotBetter i c best key h = elim (Bool-cases (better (key_at c) (best_of best))) [
    | inl yes_better ↦ rw yes_better (beaten (key_at c) key (best_of best) yes_better h)
    | inr no_better ↦ rw no_better h
  ]

  pub update_self :
      (i : ℕ) (c : FourTuple × ℕ) (best : Option (ℕ × Key))
      → NotBetter (key_at c) (best_of (update_best i c best))
  unfolding key_of
  update_self i c best = elim (Bool-cases (better (key_at c) (best_of best))) [
    | inl yes_better ↦ rw yes_better (not_itself (key_at c))
    | inr no_better ↦ rw no_better no_better
  ]

  -- Two facts of the keys at the start hold at the end, if each update keeps them.
  scan-NotBetter :
      (current : Option FourTuple) (i : ℕ) (cs : List (FourTuple × ℕ)) (best : Option (ℕ × Key))
      (current_key : Option Key) (key : Key)
      → NotBetter key (best_of best)
      → NotBetter key (best_of (go current i cs best current_key).0)
  unfolding scan
  scan-NotBetter current i [] best current_key key h = h
  scan-NotBetter current i ((path, rtt) ∷ rest) best current_key key h =
      elim (Bool-cases (is_excluded ops contains excluded path)) [
        | inl out ↦ rw out (scan-NotBetter current (suc i) rest best current_key key h)
        | inr within ↦ rw within (
            scan-NotBetter current (suc i) rest (update_best i (path, rtt) best)
              (update_current current (path, rtt) current_key) key
              (update-NotBetter i (path, rtt) best key h))
      ]

  pub scan_out :
      (current : Option FourTuple) (i : ℕ) (c : FourTuple × ℕ) (rest : List (FourTuple × ℕ))
      (best : Option (ℕ × Key)) (current_key : Option Key)
      → is_excluded ops contains excluded c.0 ≡ true
      → go current (suc i) rest best current_key ≡ go current i (c ∷ rest) best current_key
  unfolding scan
  scan_out current i (path, rtt) rest best current_key out = rw (out, scan) refl

  pub scan_in :
      (current : Option FourTuple) (i : ℕ) (c : FourTuple × ℕ) (rest : List (FourTuple × ℕ))
      (best : Option (ℕ × Key)) (current_key : Option Key)
      → is_excluded ops contains excluded c.0 ≡ false
      → go current (suc i) rest (update_best i c best) (update_current current c current_key)
        ≡ go current i (c ∷ rest) best current_key
  unfolding scan
  scan_in current i (path, rtt) rest best current_key within = rw (within, scan) refl

  -- An excluded candidate, or one that does not beat a key.
  abbrev pub Beaten : Option Key → FourTuple × ℕ → Type 0
  Beaten best c = (is_excluded ops contains excluded c.0 ≡ true) ⊎ (better (key_at c) best ≡ false)

  -- No allowed candidate is better than the best.
  pub scan-Beaten :
      (current : Option FourTuple) (i : ℕ) (cs : List (FourTuple × ℕ)) (best : Option (ℕ × Key))
      (current_key : Option Key)
      → All (Beaten (best_of (go current i cs best current_key).0)) cs
  scan-Beaten current i [] best current_key = tt
  scan-Beaten current i (c ∷ rest) best current_key =
      elim (Bool-cases (is_excluded ops contains excluded c.0)) [
        | inl out ↦
            subst (λ r. All (Beaten (best_of r.0)) (c ∷ rest))
              (scan_out current i c rest best current_key out)
              (inl out, scan-Beaten current (suc i) rest best current_key)
        | inr within ↦
            let best' = update_best i c best in
            let current_key' = update_current current c current_key in
            subst (λ r. All (Beaten (best_of r.0)) (c ∷ rest))
              (scan_in current i c rest best current_key within)
              (
                inr (
                    scan-NotBetter current (suc i) rest best' current_key' (key_at c)
                      (update_self i c best)),
                scan-Beaten current (suc i) rest best' current_key',
              )
      ]

  -- An allowed candidate at its index.
  abbrev pub Found : ℕ → List (FourTuple × ℕ) → ℕ → Key → Type 0
  Found i cs index key =
      (c : FourTuple × ℕ) × (i ≤ index)
      × (get_elem? cs (index - i) ≡ some c)
      × (is_excluded ops contains excluded c.0 ≡ false)
      × (key_at c ≡ key)

  Found-later :
      (i index : ℕ) (c : FourTuple × ℕ) (rest : List (FourTuple × ℕ)) (key : Key)
      → Found (suc i) rest index key
      → Found i (c ∷ rest) index key
  Found-later i index c rest key (c', at, found, ok, is) =
      let place : suc (index - suc i) ≡ index - i = omega (arith, at) in
      (c', omega (arith, at), subst (λ n. get_elem? (c ∷ rest) n ≡ some c') place found, ok, is)

  update_from :
      (i index : ℕ) (c : FourTuple × ℕ) (best : Option (ℕ × Key)) (key : Key)
      → update_best i c best ≡ some (index, key)
      → (best ≡ some (index, key)) ⊎ ((i ≡ index) × (key_at c ≡ key))
  update_from i index c best key made =
      elim (if_gave (better (key_at c) (best_of best)) (some (i, key_at c)) best made) [
        | inl (yes_better, here) ↦
            inr (ap (λ t. t.0) (some_injective here), ap (λ t. t.1) (some_injective here))
        | inr (no_better, before) ↦ inl before
      ]

  -- The best is the one at the start, or an allowed candidate.
  pub scan-Found :
      (current : Option FourTuple) (i : ℕ) (cs : List (FourTuple × ℕ)) (best : Option (ℕ × Key))
      (current_key : Option Key) (index : ℕ) (key : Key)
      → (go current i cs best current_key).0 ≡ some (index, key)
      → (best ≡ some (index, key)) ⊎ Found i cs index key
  unfolding scan
  scan-Found current i [] best current_key index key made = inl made
  scan-Found current i (c ∷ rest) best current_key index key made =
      elim (Bool-cases (is_excluded ops contains excluded c.0)) [
        | inl out ↦
            elim (scan-Found current (suc i) rest best current_key index key
              (ap (λ r. r.0) (scan_out current i c rest best current_key out) ∙ made)) [
                | inl start ↦ inl start
                | inr later ↦ inr (Found-later i index c rest key later)
              ]
        | inr within ↦
            elim (scan-Found current (suc i) rest (update_best i c best)
              (update_current current c current_key) index key
              (ap (λ r. r.0) (scan_in current i c rest best current_key within) ∙ made)) [
                | inl start ↦ elim (update_from i index c best key start) [
                  | inl before ↦ inl before
                  | inr (here, is) ↦
                      let at : 0 ≡ index - i = omega (arith, here) in
                      inr (
                        c,
                        omega (arith, here),
                        subst (λ n. get_elem? (c ∷ rest) n ≡ some c) at refl,
                        within,
                        is,
                      )
                ]
                | inr later ↦ inr (Found-later i index c rest key later)
              ]
      ]
