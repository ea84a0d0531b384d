-- ===== src/Transport/PathSelector/Decision.antt =====
-- src/transport/path_selector.rs: the choice among the candidates.
use ezvpn.Prelude.{
  some_injective, ℕ, ◌-◌, ◌≡◌, ◌⊎◌, inl, inr, refl, sym, Bool, true, false, not, ◌&&◌, ◌||◌, Option,
  none, some, List, get_elem?, All, All-map, Bool-cases, subst, arith,
}
use ezvpn.IpNet.{IpAddr}
use ezvpn.Transport.PathSelector.{
  PathOps, Key, key_lt, better, is_excluded, key_of, switch_to, chosen, choose,
}
use ezvpn.Transport.PathSelector.Choice.{Beaten, scan-Beaten, scan-Found}
use ezvpn.Transport.PathSelector.Switch.{
  Worth, other_tier, faster, Ordered, key, loop, best_key, currently, Slower, loop-Slower,
  loop-Ordered,
}

-- The test for a switch, past the current path's own key.
switch_to-Worth :
    (b u d : Key) (index k : ℕ)
    → better u (some b) ≡ false
    → switch_to index b (some u) ≡ some k
    → better d (some u) ≡ false
    → Worth b d
unfolding better key_lt switch_to
switch_to-Worth b u d index k above decided slower =
    elim (Bool-cases (b.relay && not d.relay || not b.relay && d.relay)) [
      | inl differ ↦ other_tier (λ same. ground (arith, differ, same))
      | inr same ↦ faster (ground (arith, same, above, decided, slower))
    ]

index_of :
    (index k : ℕ) (b : Key) (current_key : Option Key)
    → switch_to index b current_key ≡ some k
    → index ≡ k
unfolding switch_to
index_of index k b none decided = some_injective decided
index_of index k b (some u) decided = ground (arith, decided)

module _ {FourTuple Net : Type 0} (ops : PathOps FourTuple) (contains : Net → IpAddr → Bool)
    (excluded : List Net) (current : Option FourTuple) where
  -- Excluded, not the current path, or one that the switch to the best is worth.
  unfoldable pub Left : Key → FourTuple × ℕ → Type 0
  Left best d =
      (is_excluded ops contains excluded d.0 ≡ true)
      ⊎ ((currently ops contains excluded current d ≡ false)
          ⊎ Worth best (key ops contains excluded current d))

  switch_to-Left :
      (b : Key) (index k : ℕ) (current_key : Option Key) (d : FourTuple × ℕ)
      → Ordered (some b) current_key
      → switch_to index b current_key ≡ some k
      → Slower ops contains excluded current current_key d
      → Left b d
  unfolding Left Ordered better
  switch_to-Left b index k current_key d ordered decided (inl out) = inl out
  switch_to-Left b index k current_key d ordered decided (inr (inl elsewhere)) = inr (inl elsewhere)
  switch_to-Left b index k none d ordered decided (inr (inr slower)) = cc
  switch_to-Left b index k (some u) d ordered decided (inr (inr slower)) = inr (
      inr
        (switch_to-Worth b u (key ops contains excluded current d) index k ordered decided slower))

  -- What the loop has found, and the decision on it.
  decided_on :
      (cs : List (FourTuple × ℕ)) (k index : ℕ) (b : Key)
      → (loop ops contains excluded current 0 cs none none).0 ≡ some (index, b)
      → switch_to index b (loop ops contains excluded current 0 cs none none).1 ≡ some k
      → (c : FourTuple × ℕ) × (get_elem? cs k ≡ some c)
        × (is_excluded ops contains excluded c.0 ≡ false)
        × All (Beaten ops contains excluded (some (key ops contains excluded current c))) cs
        × All (Left (key ops contains excluded current c)) cs
  unfolding key_of Ordered
  decided_on cs k index b found decided =
      elim (scan-Found ops contains excluded current 0 cs none none index b found) [
        | inl start ↦ cc
        | inr (c, low, at, ok, is) ↦
            let place : index - 0 ≡ k = omega (
              arith,
              index_of index k b (loop ops contains excluded current 0 cs none none).1 decided,
            ) in
            let beaten_all =
              subst
                (λ r.
                  All (Beaten ops contains excluded (best_key ops contains excluded current r)) cs)
                found (scan-Beaten ops contains excluded current 0 cs none none) in
            let ordered =
              subst
                (λ r.
                  Ordered (best_key ops contains excluded current r)
                    (loop ops contains excluded current 0 cs none none).1)
                found (loop-Ordered ops contains excluded current 0 cs none none tt) in
            let left =
              All-map
                (Slower ops contains excluded current
                  (loop ops contains excluded current 0 cs none none).1)
                (Left b) cs
                (λ d.
                  switch_to-Left b index k (loop ops contains excluded current 0 cs none none).1 d
                    ordered decided)
                (loop-Slower ops contains excluded current 0 cs none none) in
            (
              c,
              subst (λ n. get_elem? cs n ≡ some c) place at,
              ok,
              subst (λ b. All (Beaten ops contains excluded (some b)) cs) (sym is) beaten_all,
              subst (λ b. All (Left b) cs) (sym is) left,
            )
      ]

  decision :
      (r : Option (ℕ × Key) × Option Key) (k : ℕ)
      → chosen r ≡ some k
      → (index : ℕ) × (b : Key) × (r.0 ≡ some (index, b)) × (switch_to index b r.1 ≡ some k)
  unfolding chosen
  decision (none, current_key) k made = cc
  decision (some (index, b), current_key) k made = (index, b, refl, made)

  -- A chosen candidate is not excluded, no other candidate that is not is better, and the switch to
  -- it is worth it: it is of another tier than the current path, or faster by the least improvement,
  -- if the current path is a candidate that is not excluded.
  pub choose-Worth :
      (cs : List (FourTuple × ℕ)) (k : ℕ)
      → choose ops contains excluded current cs ≡ some k
      → (c : FourTuple × ℕ) × (get_elem? cs k ≡ some c)
        × (is_excluded ops contains excluded c.0 ≡ false)
        × All (Beaten ops contains excluded (some (key ops contains excluded current c))) cs
        × All (Left (key ops contains excluded current c)) cs
  unfolding choose
  choose-Worth cs k made =
      let (index, b, found, decided) =
        decision (loop ops contains excluded current 0 cs none none) k made in
      decided_on cs k index b found decided
