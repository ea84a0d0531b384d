-- ===== src/Server/Candidates/Sorted.antt =====
-- src/tunnel/server.rs: the candidates are in order, each of them once, and the right ones.
use ezvpn.Prelude.{
  ◌<◌, ◌↔◌, Mem, ◌≡◌, refl, ap, sym, subst, ◌∙◌, Bool, true, false, not, ◌&&◌, Option, List, [],
  ◌∷◌, keep_if, arith, if_holds,
}
use ezvpn.IpNet.{IpNetOps, IpAddr, ip4, ip6}
use ezvpn.Client.Bypass.{ip_beq, ip_beq_iff, has, has-keep_if}
use ezvpn.Server.Candidates.Outside.{
  IsRoutable, IsOutside, is_routable_underlay_iff, ip_in_overlay_iff,
}
use ezvpn.Server.Candidates.{
  is_routable_underlay, ip_le, insert_sorted, sort_unstable, dedup_from, dedup, ip_in_overlay,
  server_candidate_addrs,
}
use ezvpn.Server.Candidates.Elements.{has_iff, has-sort, has-dedup}

-- Each address stands in a relation to the one after it.
abbrev Chain : (IpAddr → IpAddr → Bool) → IpAddr → List IpAddr → Type 0
Chain r x [] = Unit
Chain r x (y ∷ ys) = (r x y ≡ true) × Chain r y ys

abbrev Chained : (IpAddr → IpAddr → Bool) → List IpAddr → Type 0
Chained r [] = Unit
Chained r (x ∷ xs) = Chain r x xs

abbrev ip_lt : IpAddr → IpAddr → Bool
ip_lt x y = not (ip_le y x)

-- Version 4 stands before version 6, and the lesser address of a version before the greater.
abbrev pub IsBefore : IpAddr → IpAddr → Type 0
IsBefore (ip4 a) (ip4 b) = a < b
IsBefore (ip4 a) (ip6 b) = Unit
IsBefore (ip6 a) (ip4 b) = ⊥
IsBefore (ip6 a) (ip6 b) = a < b

-- Strictly in order.
abbrev pub IsSorted : List IpAddr → Type 0
IsSorted [] = Unit
IsSorted (x ∷ []) = Unit
IsSorted (x ∷ y ∷ ys) = IsBefore x y × IsSorted (y ∷ ys)

ip_lt-IsBefore : (x y : IpAddr) → ip_lt x y ≡ true → IsBefore x y
unfolding ip_le
ip_lt-IsBefore (ip4 a) (ip4 b) h = ground (arith, h)
ip_lt-IsBefore (ip4 a) (ip6 b) h = tt
ip_lt-IsBefore (ip6 a) (ip4 b) h = cc
ip_lt-IsBefore (ip6 a) (ip6 b) h = ground (arith, h)

Chained-IsSorted : (xs : List IpAddr) → Chained ip_lt xs → IsSorted xs
Chained-IsSorted [] c = tt
Chained-IsSorted (x ∷ []) c = tt
Chained-IsSorted (x ∷ y ∷ ys) c = (ip_lt-IsBefore x y c.0, Chained-IsSorted (y ∷ ys) c.1)

le_total : (x y : IpAddr) → ip_le x y ≡ false → ip_le y x ≡ true
unfolding ip_le
le_total (ip4 a) (ip4 b) h = ground arith
le_total (ip4 a) (ip6 b) h = cc
le_total (ip6 a) (ip4 b) h = refl
le_total (ip6 a) (ip6 b) h = ground arith

lt_of_le : (x y : IpAddr) → ip_le x y ≡ true → ip_beq x y ≡ false → ip_lt x y ≡ true
unfolding ip_le ip_beq
lt_of_le (ip4 a) (ip4 b) h n = ground arith
lt_of_le (ip4 a) (ip6 b) h n = refl
lt_of_le (ip6 a) (ip4 b) h n = cc
lt_of_le (ip6 a) (ip6 b) h n = ground arith

insert-Chain :
    (z x : IpAddr) (ys : List IpAddr)
    → ip_le z x ≡ true
    → Chain ip_le z ys
    → Chain ip_le z (insert_sorted x ys)
unfolding insert_sorted
insert-Chain z x [] h c = (h, tt)
insert-Chain z x (y ∷ ys) h c =
    if_holds (Chain ip_le z) (ip_le x y) (x ∷ y ∷ ys) (y ∷ insert_sorted x ys)
      (λ below. (h, (below, c.1))) (λ above. (c.0, insert-Chain y x ys (le_total x y above) c.1))

insert-Chained :
    (x : IpAddr) (ys : List IpAddr) → Chained ip_le ys → Chained ip_le (insert_sorted x ys)
unfolding insert_sorted
insert-Chained x [] c = tt
insert-Chained x (y ∷ ys) c =
    if_holds (Chained ip_le) (ip_le x y) (x ∷ y ∷ ys) (y ∷ insert_sorted x ys) (λ below. (below, c))
      (λ above. insert-Chain y x ys (le_total x y above) c)

sort-Chained : (xs : List IpAddr) → Chained ip_le (sort_unstable xs)
unfolding sort_unstable
sort-Chained [] = tt
sort-Chained (x ∷ xs) = insert-Chained x (sort_unstable xs) (sort-Chained xs)

equal_first :
    (x y : IpAddr) (ys : List IpAddr) → ip_beq x y ≡ true → Chain ip_le y ys → Chain ip_le x ys
equal_first x y ys same c = subst (λ z. Chain ip_le z ys) (sym ((ip_beq_iff x y).0 same)) c

dedup_from-Chain :
    (z x : IpAddr) (ys : List IpAddr)
    → ip_lt z x ≡ true
    → Chain ip_le x ys
    → Chain ip_lt z (dedup_from x ys)
unfolding dedup_from
dedup_from-Chain z x [] h c = (h, tt)
dedup_from-Chain z x (y ∷ ys) h c =
    if_holds (Chain ip_lt z) (ip_beq x y) (dedup_from x ys) (x ∷ dedup_from y ys)
      (λ same. dedup_from-Chain z x ys h (equal_first x y ys same c.1))
      (λ other. (h, dedup_from-Chain x y ys (lt_of_le x y c.0 other) c.1))

dedup_from-Chained :
    (x : IpAddr) (ys : List IpAddr) → Chain ip_le x ys → Chained ip_lt (dedup_from x ys)
unfolding dedup_from
dedup_from-Chained x [] c = tt
dedup_from-Chained x (y ∷ ys) c =
    if_holds (Chained ip_lt) (ip_beq x y) (dedup_from x ys) (x ∷ dedup_from y ys)
      (λ same. dedup_from-Chained x ys (equal_first x y ys same c.1))
      (λ other. dedup_from-Chain x y ys (lt_of_le x y c.0 other) c.1)

dedup-Chained : (xs : List IpAddr) → Chained ip_le xs → Chained ip_lt (dedup xs)
unfolding dedup
dedup-Chained [] c = tt
dedup-Chained (x ∷ xs) c = dedup_from-Chained x xs c

module _ {Net4 Net6 : Type 0} (ops4 : IpNetOps Net4) (ops6 : IpNetOps Net6) where
  has-candidates :
      (addrs : List IpAddr) (overlay_v4 : Option Net4) (overlay_v6 : Option Net6) (ip : IpAddr)
      → has ip (server_candidate_addrs ops4 ops6 addrs overlay_v4 overlay_v6) ≡ (
          has ip addrs
          && not (ip_in_overlay ops4 ops6 ip overlay_v4 overlay_v6)
          && is_routable_underlay ip)
  unfolding server_candidate_addrs
  has-candidates addrs overlay_v4 overlay_v6 ip =
      let outside : IpAddr → Bool = λ ip. not (ip_in_overlay ops4 ops6 ip overlay_v4 overlay_v6) in
      let kept : List IpAddr = keep_if is_routable_underlay (keep_if outside addrs) in
      has-dedup ip (sort_unstable kept)
      ∙ has-sort ip kept
      ∙ has-keep_if is_routable_underlay ip (keep_if outside addrs)
      ∙ ap (λ b. b && is_routable_underlay ip) (has-keep_if outside ip addrs)

  ordered :
      (addrs : List IpAddr) (overlay_v4 : Option Net4) (overlay_v6 : Option Net6)
      → IsSorted (server_candidate_addrs ops4 ops6 addrs overlay_v4 overlay_v6)
  unfolding server_candidate_addrs
  ordered addrs overlay_v4 overlay_v6 = Chained-IsSorted _ (dedup-Chained _ (sort-Chained _))

  -- The published addresses are strictly in order, version 4 first, so each of them once. They are
  -- the addresses of the endpoint that are not unspecified, loopback or link-local (0.0.0.0,
  -- 127.0.0.0/8, 169.254.0.0/16, ::, ::1 and fe80::/10), and that the VPN's network of their version
  -- does not contain, where there is one.
  pub candidates-IsSorted :
      (addrs : List IpAddr) (overlay_v4 : Option Net4) (overlay_v6 : Option Net6)
      → let published = server_candidate_addrs ops4 ops6 addrs overlay_v4 overlay_v6 in
        IsSorted published
        × ((ip : IpAddr)
            → Mem ip published
              ↔ (Mem ip addrs × IsRoutable ip × IsOutside ops4 ops6 overlay_v4 overlay_v6 ip))
  candidates-IsSorted addrs overlay_v4 overlay_v6 = (
    ordered addrs overlay_v4 overlay_v6,
    λ ip.
        let named = has-candidates addrs overlay_v4 overlay_v6 ip in
        let out = ip_in_overlay_iff ops4 ops6 overlay_v4 overlay_v6 ip in
        let routable = is_routable_underlay_iff ip in
        (
          λ m.
              let t = sym named ∙ (has_iff ip _).1 m in
              (
                (has_iff ip addrs).0 (ground (arith, t)),
                routable.0 (ground (arith, t)),
                out.0 (ground (arith, t)),
              ),
          λ (m, r, o).
              (has_iff ip _).0
                (named ∙ ground (arith, (has_iff ip addrs).1 m, routable.1 r, out.1 o)),
        ),
  )
