-- ===== src/Server/Candidates/Elements.antt =====
-- src/tunnel/server.rs: the elements of a sorted list and of one without repeats.
use mathlib.Core.List.{not-mem-nil, mem-cons, mem-cons_self, mem-cons_of_mem}
use mathlib.Core.Logic.Or
use ezvpn.Prelude.{
  ◌↔◌, Mem, inl, inr, Bool-cases, ◌≡◌, refl, ap, subst, ◌∙◌, true, ◌||◌, List, [], ◌∷◌, arith,
  if_holds,
}
use ezvpn.IpNet.{IpAddr}
use ezvpn.Client.Bypass.{ip_beq, ip_beq_iff, has}
use ezvpn.Server.Candidates.{insert_sorted, sort_unstable, dedup_from, dedup}

pub has_iff : (ip : IpAddr) (l : List IpAddr) → has ip l ≡ true ↔ Mem ip l
unfolding has
has_iff ip [] = (λ h. cc, λ m. absurd (not-mem-nil m))
has_iff ip (x ∷ l) = (
  λ h. elim (Bool-cases (ip_beq ip x)) [
    | inl same ↦ rw ((ip_beq_iff ip x).0 same) mem-cons_self
    | inr other ↦ mem-cons_of_mem x ((has_iff ip l).0 (ground (arith, other, h)))
  ],
  λ m.
      Or.elim (hlevel) (mem-cons.0 m) (λ same. ground (arith, (ip_beq_iff ip x).1 same))
        (λ later. ground (arith, (has_iff ip l).1 later)),
)

has-insert_sorted :
    (ip x : IpAddr) (ys : List IpAddr) → has ip (insert_sorted x ys) ≡ (ip_beq ip x || has ip ys)
unfolding insert_sorted has
has-insert_sorted ip x [] = refl
has-insert_sorted ip x (y ∷ ys) = ground (arith, has-insert_sorted ip x ys)

pub has-sort : (ip : IpAddr) (xs : List IpAddr) → has ip (sort_unstable xs) ≡ has ip xs
unfolding sort_unstable has
has-sort ip [] = refl
has-sort ip (x ∷ xs) =
    has-insert_sorted ip x (sort_unstable xs) ∙ ap (◌||◌ (ip_beq ip x)) (has-sort ip xs)

has-dedup_from :
    (ip x : IpAddr) (ys : List IpAddr) → has ip (dedup_from x ys) ≡ (ip_beq ip x || has ip ys)
unfolding dedup_from has
has-dedup_from ip x [] = refl
has-dedup_from ip x (y ∷ ys) =
    if_holds (λ l. has ip l ≡ (ip_beq ip x || has ip (y ∷ ys))) (ip_beq x y) (dedup_from x ys)
      (x ∷ dedup_from y ys)
      (λ same.
        has-dedup_from ip x ys
        ∙ subst (λ z. (ip_beq ip x || has ip ys) ≡ (ip_beq ip x || (ip_beq ip z || has ip ys)))
            ((ip_beq_iff x y).0 same) (ground arith))
      (λ other. ap (◌||◌ (ip_beq ip x)) (has-dedup_from ip y ys))

pub has-dedup : (ip : IpAddr) (xs : List IpAddr) → has ip (dedup xs) ≡ has ip xs
unfolding dedup
has-dedup ip [] = refl
has-dedup ip (x ∷ xs) = unfold has in has-dedup_from ip x xs
