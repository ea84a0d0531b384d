-- ===== src/Client/Params.antt =====
-- src/tunnel/client.rs: the network parameters that a client keeps across reconnects. The equality of
-- networks is derived in the source, and a parameter here, as is that of the crate ipnet.
use ezvpn.Prelude.{
  if_gave, ℕ, ◌≡◌, refl, sym, ◌∙◌, ap, Bool, true, ◌&&◌, Option, none, some, List, [], ◌∷◌, All,
  All-map, arith, Eq, ◌==◌, ℕ_eq, option_eq, option_beq_iff, subst, if◌then◌else◌, inl, inr,
}
use ezvpn.Error.{Result, ok, err, server_config_changed}
use ezvpn.Signaling.Agreement.{ServerInfo}

pub record NetworkParams (Net4 Net6 : Type 0) : Type 0 where
  pub assigned_ip : Option ℕ
  pub network : Option Net4
  pub server_ip : Option ℕ
  pub assigned_ip6 : Option ℕ
  pub network6 : Option Net6
  pub server_ip6 : Option ℕ

module _ {Net4 Net6 : Type 0} where
  unfoldable pub from_server_info : ServerInfo Net4 Net6 → NetworkParams Net4 Net6
  from_server_info info = record {
    assigned_ip = info.assigned_ip;
    network = info.network;
    server_ip = info.server_ip;
    assigned_ip6 = info.assigned_ip6;
    network6 = info.network6;
    server_ip6 = info.server_ip6;
  }

module _ {Net4 Net6 : Type 0} where
  -- The networks and gateways of two sets of parameters are the same.
  pub record SameNetworks (p q : NetworkParams Net4 Net6) : Type 0 where
    pub same_network : p.network ≡ q.network
    pub same_gateway : p.server_ip ≡ q.server_ip
    pub same_network6 : p.network6 ≡ q.network6
    pub same_gateway6 : p.server_ip6 ≡ q.server_ip6

  SameNetworks-trans :
      {p q r : NetworkParams Net4 Net6} → SameNetworks p q → SameNetworks q r → SameNetworks p r
  SameNetworks-trans a b = record {
    same_network = a.same_network ∙ b.same_network;
    same_gateway = a.same_gateway ∙ b.same_gateway;
    same_network6 = a.same_network6 ∙ b.same_network6;
    same_gateway6 = a.same_gateway6 ∙ b.same_gateway6;
  }

module _ {Net4 Net6 : Type 0} ⦃eq4 : Eq Net4⦄ ⦃eq6 : Eq Net6⦄ where
  unfoldable pub non_ip_fields_eq : NetworkParams Net4 Net6 → NetworkParams Net4 Net6 → Bool
  non_ip_fields_eq p q =
      p.network == q.network
      && p.server_ip == q.server_ip
      && p.network6 == q.network6
      && p.server_ip6 == q.server_ip6

  -- The derived equality.
  unfoldable pub params_eq : NetworkParams Net4 Net6 → NetworkParams Net4 Net6 → Bool
  params_eq p q =
      p.assigned_ip == q.assigned_ip
      && p.network == q.network
      && p.server_ip == q.server_ip
      && p.assigned_ip6 == q.assigned_ip6
      && p.network6 == q.network6
      && p.server_ip6 == q.server_ip6

  against :
      Option (NetworkParams Net4 Net6)
      → NetworkParams Net4 Net6
      → Option (NetworkParams Net4 Net6) × Result (Unit {0})
  against none params = (some params, ok tt)
  against (some prev) params =
      if params_eq prev params
      then (some prev, ok tt)
      else if non_ip_fields_eq prev params
      then (some params, ok tt)
      else (some prev, err (server_config_changed "VPN config changed on reconnect"))

  -- The baseline after the check, and its result.
  unfoldable pub check_params_against :
      Option (NetworkParams Net4 Net6)
      → ServerInfo Net4 Net6
      → Option (NetworkParams Net4 Net6) × Result (Unit {0})
  unfolding against
  check_params_against established info = against established (from_server_info info)

  after_check :
      Option (NetworkParams Net4 Net6) × Result (Unit {0})
      → (Option (NetworkParams Net4 Net6) → Option (NetworkParams Net4 Net6) × Result (Unit {0}))
      → Option (NetworkParams Net4 Net6) × Result (Unit {0})
  after_check (baseline, ok u) rest = rest baseline
  after_check (baseline, err e) rest = (baseline, err e)

  -- The checks of one client, at each of its handshakes: an error makes it quit.
  unfoldable pub check_all :
      Option (NetworkParams Net4 Net6)
      → List (ServerInfo Net4 Net6)
      → Option (NetworkParams Net4 Net6) × Result (Unit {0})
  unfolding after_check
  check_all established [] = (established, ok tt)
  check_all established (info ∷ rest) =
      after_check (check_params_against established info) (λ baseline. check_all baseline rest)

  non_ip_fields_eq-SameNetworks :
      (p q : NetworkParams Net4 Net6) → non_ip_fields_eq p q ≡ true → SameNetworks p q
  unfolding non_ip_fields_eq
  non_ip_fields_eq-SameNetworks p q same = record {
    same_network = (option_beq_iff eq4 p.network q.network).0 (ground (arith, same));
    same_gateway = (option_beq_iff ℕ_eq p.server_ip q.server_ip).0 (ground (arith, same));
    same_network6 = (option_beq_iff eq6 p.network6 q.network6).0 (ground (arith, same));
    same_gateway6 = (option_beq_iff ℕ_eq p.server_ip6 q.server_ip6).0 (ground (arith, same));
  }

  params_eq_lem : (p q : NetworkParams Net4 Net6) → params_eq p q ≡ true → p ≡ q
  unfolding params_eq
  params_eq_lem p q same =
      let a = (option_beq_iff ℕ_eq p.assigned_ip q.assigned_ip).0 (ground (arith, same)) in
      let b = (option_beq_iff eq4 p.network q.network).0 (ground (arith, same)) in
      let c = (option_beq_iff ℕ_eq p.server_ip q.server_ip).0 (ground (arith, same)) in
      let d = (option_beq_iff ℕ_eq p.assigned_ip6 q.assigned_ip6).0 (ground (arith, same)) in
      let e = (option_beq_iff eq6 p.network6 q.network6).0 (ground (arith, same)) in
      let f = (option_beq_iff ℕ_eq p.server_ip6 q.server_ip6).0 (ground (arith, same)) in
      ground (arith, a, b, c, d, e, f)

  SameNetworks-refl : (p : NetworkParams Net4 Net6) → SameNetworks p p
  SameNetworks-refl p = record {
    same_network = refl;
    same_gateway = refl;
    same_network6 = refl;
    same_gateway6 = refl;
  }

  -- An accepted handshake leaves its parameters as the baseline, with the networks of the one before.
  accepted :
      (prev params : NetworkParams Net4 Net6) (baseline : Option (NetworkParams Net4 Net6))
      → against (some prev) params ≡ (baseline, ok tt)
      → (some params ≡ baseline) × SameNetworks prev params
  unfolding against
  accepted prev params baseline made = elim (if_gave (params_eq prev params) _ _ made) [
    | inl (same, kept) ↦
        let is = params_eq_lem prev params same in
        (
          ap some (sym is) ∙ ap (λ r. r.0) kept,
          subst (SameNetworks prev) is (SameNetworks-refl prev),
        )
    | inr (other, rest) ↦ elim (if_gave (non_ip_fields_eq prev params) _ _ rest) [
      | inl (same, taken) ↦ (ap (λ r. r.0) taken, non_ip_fields_eq-SameNetworks prev params same)
      | inr (changed, quits) ↦ cc
    ]
  ]

  -- The parameters of the last handshake.
  unfoldable pub latest :
      NetworkParams Net4 Net6 → List (ServerInfo Net4 Net6) → NetworkParams Net4 Net6
  latest prev [] = prev
  latest prev (info ∷ rest) = latest (from_server_info info) rest

  all_ok :
      (r baseline : Option (NetworkParams Net4 Net6) × Result (Unit {0}))
      (rest : Option (NetworkParams Net4 Net6)
        → Option (NetworkParams Net4 Net6) × Result (Unit {0}))
      → after_check r rest ≡ baseline
      → baseline.1 ≡ ok tt
      → (r ≡ (r.0, ok tt)) × (rest r.0 ≡ baseline)
  unfolding after_check
  all_ok (o, ok u) baseline rest made fine = (refl, made)
  all_ok (o, err e) baseline rest made fine = cc

  check_all_from :
      (prev : NetworkParams Net4 Net6) (infos : List (ServerInfo Net4 Net6))
      → (check_all (some prev) infos).1 ≡ ok tt
      → All (λ info. SameNetworks prev (from_server_info info)) infos
        × ((check_all (some prev) infos).0 ≡ some (latest prev infos))
  unfolding check_all latest check_params_against
  check_all_from prev [] fine = (tt, refl)
  check_all_from prev (info ∷ rest) fine =
      let params = from_server_info info in
      let (first_ok, go) =
        all_ok (against (some prev) params) (check_all (some prev) (info ∷ rest))
          (λ baseline. check_all baseline rest) refl fine in
      let (base, same) = accepted prev params (against (some prev) params).0 first_ok in
      let whole : check_all (some params) rest ≡ check_all (some prev) (info ∷ rest) =
        ap (λ b. check_all b rest) base ∙ go in
      let (sames, last) = check_all_from params rest (ap (λ r. r.1) whole ∙ fine) in
      (
        (
          same,
          All-map (λ i. SameNetworks params (from_server_info i))
              (λ i. SameNetworks prev (from_server_info i)) rest (λ i. SameNetworks-trans same)
              sames,
        ),
        ap (λ r. r.0) (sym whole) ∙ last,
      )

  -- A client whose handshakes are all accepted sees the networks and gateways of the first in each,
  -- and its baseline is that of the last.
  pub check_all-SameNetworks :
      (first : ServerInfo Net4 Net6) (infos : List (ServerInfo Net4 Net6))
      → (check_all none (first ∷ infos)).1 ≡ ok tt
      → All (λ info. SameNetworks (from_server_info first) (from_server_info info)) infos
        × ((check_all none (first ∷ infos)).0 ≡ some (latest (from_server_info first) infos))
  unfolding check_all check_params_against
  check_all-SameNetworks first infos fine = check_all_from (from_server_info first) infos fine
