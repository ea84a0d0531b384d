-- ===== src/Transport/PathSelector/Switch.antt =====
-- src/transport/path_selector.rs: when the selection leaves the current path.
use ezvpn.Prelude.{
  ℕ, suc, ◌+◌, ◌≤◌, ◌≡◌, ◌≢◌, ◌⊎◌, inl, inr, Bool, true, false, ◌&&◌, Option, none, some, List, [],
  ◌∷◌, All, Bool-cases, subst, arith,
}
use ezvpn.IpNet.{IpAddr}
use ezvpn.Transport.PathSelector.{
  PathOps, Key, better, is_excluded, is_current, scan, rtt_switching_min,
}
use ezvpn.Transport.PathSelector.Choice.{
  NotBetter, beaten, not_itself, key_at, go, best_of, update_best, update_current, update-NotBetter,
  update_self, scan_out, scan_in,
}

-- A switch that is worth it: to another tier, or to a path that is faster by the least improvement.
pub data Worth (best current : Key) : Type 0 where
  other_tier : best.relay ≢ current.relay → Worth best current
  faster : best.biased + rtt_switching_min ≤ current.biased → Worth best current

-- The key of the current path is that of an allowed candidate, which does not beat the best.
unfoldable pub Ordered : Option Key → Option Key → Type 0
Ordered best none = Unit
Ordered best (some key) = better key best ≡ false

module _ {FourTuple Net : Type 0} (ops : PathOps FourTuple) (contains : Net → IpAddr → Bool)
    (excluded : List Net) (current : Option FourTuple) where
  abbrev pub key : FourTuple × ℕ → Key
  key = key_at ops contains excluded

  abbrev pub loop :
      ℕ → List (FourTuple × ℕ) → Option (ℕ × Key) → Option Key → Option (ℕ × Key) × Option Key
  loop = go ops contains excluded current

  abbrev pub best_key : Option (ℕ × Key) → Option Key
  best_key = best_of ops contains excluded

  abbrev next_best : ℕ → FourTuple × ℕ → Option (ℕ × Key) → Option (ℕ × Key)
  next_best = update_best ops contains excluded

  abbrev next_current : FourTuple × ℕ → Option Key → Option Key
  next_current = update_current ops contains excluded current

  abbrev pub currently : FourTuple × ℕ → Bool
  currently c = is_current ops contains excluded current c.0

  -- Excluded, not the current path, or no better than a key.
  abbrev pub Slower : Option Key → FourTuple × ℕ → Type 0
  Slower current_key c =
      (is_excluded ops contains excluded c.0 ≡ true)
      ⊎ ((currently c ≡ false) ⊎ (better (key c) current_key ≡ false))

  next-NotBetter :
      (c : FourTuple × ℕ) (current_key : Option Key) (k : Key)
      → NotBetter k current_key
      → NotBetter k (next_current c current_key)
  next-NotBetter c current_key k h = elim (Bool-cases (currently c && better (key c) current_key)) [
    | inl yes_better ↦ rw yes_better (beaten (key c) k current_key (ground (arith, yes_better)) h)
    | inr no_better ↦ rw no_better h
  ]

  next_self :
      (c : FourTuple × ℕ) (current_key : Option Key)
      → (currently c ≡ false) ⊎ (better (key c) (next_current c current_key) ≡ false)
  next_self c current_key = elim (Bool-cases (currently c)) [
    | inl here ↦ elim (Bool-cases (better (key c) current_key)) [
      | inl yes_better ↦ inr (rw (here, yes_better) (not_itself (key c)))
      | inr no_better ↦ inr (rw (here, no_better) no_better)
    ]
    | inr elsewhere ↦ inl elsewhere
  ]

  kept-Ordered :
      (i : ℕ) (c : FourTuple × ℕ) (best : Option (ℕ × Key)) (current_key : Option Key)
      → Ordered (best_key best) current_key
      → Ordered (best_key (next_best i c best)) current_key
  unfolding Ordered
  kept-Ordered i c best none h = tt
  kept-Ordered i c best (some k) h = update-NotBetter ops contains excluded i c best k h

  next-Ordered :
      (i : ℕ) (c : FourTuple × ℕ) (best : Option (ℕ × Key)) (current_key : Option Key)
      → Ordered (best_key best) current_key
      → Ordered (best_key (next_best i c best)) (next_current c current_key)
  unfolding Ordered
  next-Ordered i c best current_key h =
      elim (Bool-cases (currently c && better (key c) current_key)) [
        | inl yes_better ↦ rw (yes_better, Ordered) (update_self ops contains excluded i c best)
        | inr no_better ↦ rw (no_better, Ordered) (kept-Ordered i c best current_key h)
      ]

  loop-NotBetter :
      (i : ℕ) (cs : List (FourTuple × ℕ)) (best : Option (ℕ × Key)) (current_key : Option Key)
      (k : Key)
      → NotBetter k current_key
      → NotBetter k (loop i cs best current_key).1
  unfolding scan
  loop-NotBetter i [] best current_key k h = h
  loop-NotBetter i (c ∷ rest) best current_key k h =
      elim (Bool-cases (is_excluded ops contains excluded c.0)) [
        | inl out ↦
            subst (λ r. NotBetter k r.1)
              (scan_out ops contains excluded current i c rest best current_key out)
              (loop-NotBetter (suc i) rest best current_key k h)
        | inr within ↦
            subst (λ r. NotBetter k r.1)
              (scan_in ops contains excluded current i c rest best current_key within)
              (loop-NotBetter (suc i) rest (next_best i c best) (next_current c current_key) k
                (next-NotBetter c current_key k h))
      ]

  pub loop-Slower :
      (i : ℕ) (cs : List (FourTuple × ℕ)) (best : Option (ℕ × Key)) (current_key : Option Key)
      → All (Slower (loop i cs best current_key).1) cs
  unfolding scan
  loop-Slower i [] best current_key = tt
  loop-Slower i (c ∷ rest) best current_key =
      elim (Bool-cases (is_excluded ops contains excluded c.0)) [
        | inl out ↦
            subst (λ r. All (Slower r.1) (c ∷ rest))
              (scan_out ops contains excluded current i c rest best current_key out)
              (inl out, loop-Slower (suc i) rest best current_key)
        | inr within ↦
            subst (λ r. All (Slower r.1) (c ∷ rest))
              (scan_in ops contains excluded current i c rest best current_key within)
              (
                inr (elim (next_self c current_key) [
                  | inl elsewhere ↦ inl elsewhere
                  | inr slower ↦ inr (
                      loop-NotBetter (suc i) rest (next_best i c best) (next_current c current_key)
                        (key c) slower)
                ]),
                loop-Slower (suc i) rest (next_best i c best) (next_current c current_key),
              )
      ]

  pub loop-Ordered :
      (i : ℕ) (cs : List (FourTuple × ℕ)) (best : Option (ℕ × Key)) (current_key : Option Key)
      → Ordered (best_key best) current_key
      → Ordered (best_key (loop i cs best current_key).0) (loop i cs best current_key).1
  unfolding scan
  loop-Ordered i [] best current_key h = h
  loop-Ordered i (c ∷ rest) best current_key h =
      elim (Bool-cases (is_excluded ops contains excluded c.0)) [
        | inl out ↦
            subst (λ r. Ordered (best_key r.0) r.1)
              (scan_out ops contains excluded current i c rest best current_key out)
              (loop-Ordered (suc i) rest best current_key h)
        | inr within ↦
            subst (λ r. Ordered (best_key r.0) r.1)
              (scan_in ops contains excluded current i c rest best current_key within)
              (loop-Ordered (suc i) rest (next_best i c best) (next_current c current_key)
                (next-Ordered i c best current_key h))
      ]
