-- ===== src/Server/Handshake.antt =====
-- The handshake of src/tunnel/server.rs: what the server assigns, and what the client of
-- src/tunnel/client.rs configures.
use ezvpn.Prelude.{ℕ, ◌≡◌, refl, true, Option, none, some, List, arith, Eq, is_some, is_some}
use ezvpn.Error.{Result, ok, err}
use ezvpn.IpNet.{IpNetOps, IpAddr}
use ezvpn.Pool.V4.{IpPool}
use ezvpn.Pool.V6.{Ip6Pool, Crypto}
use ezvpn.Signaling.{Codec, VpnHandshakeResponse}
use ezvpn.Signaling.Agreement.{
  ServerInfo, RoundTrips, hear, hear-accepted, hear-accepted_ipv6_only, hear-accepted_dual_stack,
}
use ezvpn.Server.{
  Server, checked, assign_ip, assign_ip6, both, then_ip6, assign, response_for, respond,
}

-- What the client is told of a family: nothing, or the address and the server's.
pub told : {A : Type 0} → Option ℕ → Option A → Option A
told none a = none
told (some ip) a = a

unfoldable pub Backed :
    {Net4 Net6 E : Type 0}
    → Option ℕ
    → Option ℕ
    → Option (IpPool Net4 E)
    → Option (Ip6Pool Net6 E)
    → Type 0
Backed (some ip4) (some ip6) (some pool) (some pool6) = Unit
Backed (some ip4) none (some pool) pool6 = Unit
Backed none (some ip6) pool (some pool6) = Unit
Backed _ _ _ _ = ⊥

module _ {Net4 Net6 E : Type 0} ⦃e : Eq E⦄ (ops6 : IpNetOps Net6) (c : Crypto E) where
  both-Backed :
      (s : Server Net4 Net6 E) (id : E) (d : ℕ) (ip4 : Option ℕ) (ips : Option ℕ × Option ℕ)
      → (is_some ip4 ≡ true → is_some s.ip_pool ≡ true)
      → (both ip4 (assign_ip6 ops6 c s id d)).0 ≡ ok ips
      → let s' = (both ip4 (assign_ip6 ops6 c s id d)).1 in
        Backed ips.0 ips.1 s'.ip_pool s'.ip6_pool
  unfolding assign_ip6 both checked Backed
  both-Backed s id d ip4 ips h given = ground arith

  then-Backed :
      (id : E) (d : ℕ) (q : Result (Option ℕ) × Server Net4 Net6 E) (ips : Option ℕ × Option ℕ)
      → ((ip : ℕ) → q.0 ≡ ok (some ip) → is_some q.1.ip_pool ≡ true)
      → (then_ip6 ops6 c id d q).0 ≡ ok ips
      → let s' = (then_ip6 ops6 c id d q).1 in Backed ips.0 ips.1 s'.ip_pool s'.ip6_pool
  unfolding then_ip6
  then-Backed id d (err e, s) ips h given = cc
  then-Backed id d (ok none, s) ips h given = both-Backed s id d none ips (ground arith) given
  then-Backed id d (ok (some ip), s) ips h given =
      both-Backed s id d (some ip) ips (λ _. h ip refl) given

  assign_ip_pool :
      (s : Server Net4 Net6 E) (id : E) (d ip : ℕ)
      → (assign_ip s id d).0 ≡ ok (some ip)
      → is_some (assign_ip s id d).1.ip_pool ≡ true
  unfolding assign_ip checked
  assign_ip_pool s id d ip given = ground arith

  pub assign-Backed :
      (s : Server Net4 Net6 E) (id : E) (d : ℕ) (ips : Option ℕ × Option ℕ)
      → (assign ops6 c s id d).0 ≡ ok ips
      → let s' = (assign ops6 c s id d).1 in Backed ips.0 ips.1 s'.ip_pool s'.ip6_pool
  unfolding assign
  assign-Backed s id d ips given =
      then-Backed id d (assign_ip s id d) ips (assign_ip_pool s id d) given

abbrev via : {A B : Type 0} → (A → B) → Option A → Option B
via f none = none
via f (some a) = some (f a)

-- The client's view of the addresses that the server assigned.
abbrev pub view :
    {Net4 Net6 E : Type 0}
    → IpNetOps Net4
    → IpNetOps Net6
    → Option ℕ × Option ℕ
    → Option (IpPool Net4 E)
    → Option (Ip6Pool Net6 E)
    → List IpAddr
    → ServerInfo Net4 Net6
view ops4 ops6 ips pool pool6 addrs =
    let gateway : Option ℕ = elim pool [ none ↦ none | some p ↦ some p.server_ip ] in
    let gateway6 : Option ℕ = elim pool6 [ none ↦ none | some p ↦ some p.server_ip ] in
    record {
      assigned_ip = ips.0;
      network = told ips.0 (via ops4.host gateway);
      server_ip = told ips.0 gateway;
      assigned_ip6 = ips.1;
      network6 = told ips.1 (via ops6.host gateway6);
      server_ip6 = told ips.1 gateway6;
      server_addrs = addrs;
    }

module _ {Net4 Net6 E : Type 0} ⦃e : Eq E⦄ (ops4 : IpNetOps Net4) (ops6 : IpNetOps Net6)
    (c : Crypto E) (codec : Codec (VpnHandshakeResponse Net4 Net6)) where
  -- The response, if there is one, is one that the codec carries.
  abbrev pub CanSend : Server Net4 Net6 E → Option ℕ × Option ℕ → List IpAddr → Type 0
  CanSend s ips addrs =
      (r : VpnHandshakeResponse Net4 Net6)
      → respond ops4 ops6 s ips addrs ≡ some r
      → RoundTrips codec r

  pub Heard : Server Net4 Net6 E → Option ℕ × Option ℕ → List IpAddr → Type 0
  Heard s ips addrs =
      (r : VpnHandshakeResponse Net4 Net6) × (respond ops4 ops6 s ips addrs ≡ some r)
      × (hear codec r ≡ ok (view ops4 ops6 ips s.ip_pool s.ip6_pool addrs))

  respond-Heard :
      (s : Server Net4 Net6 E) (ip4 ip6 : Option ℕ) (addrs : List IpAddr)
      (p : Option (IpPool Net4 E)) (q : Option (Ip6Pool Net6 E))
      → CanSend (record s { ip_pool = p; ip6_pool = q }) (ip4, ip6) addrs
      → Backed ip4 ip6 p q
      → Heard (record s { ip_pool = p; ip6_pool = q }) (ip4, ip6) addrs
  unfolding Backed respond response_for Heard told
  respond-Heard s (some a) (some b) addrs (some p) (some q) trips backed = (
    _,
    refl,
    hear-accepted_dual_stack codec a (ops4.host p.server_ip) p.server_ip b (ops6.host q.server_ip)
        q.server_ip addrs (trips _ refl),
  )
  respond-Heard s (some a) (some b) addrs (some p) none trips backed = absurd backed
  respond-Heard s (some a) none addrs (some p) q trips backed =
      (_, refl, hear-accepted codec a (ops4.host p.server_ip) p.server_ip addrs (trips _ refl))
  respond-Heard s none (some b) addrs p (some q) trips backed = (
    _,
    refl,
    hear-accepted_ipv6_only codec b (ops6.host q.server_ip) q.server_ip addrs (trips _ refl),
  )
  respond-Heard s none (some b) addrs p none trips backed = absurd backed
  respond-Heard s none none addrs p q trips backed = absurd backed
  respond-Heard s (some a) (some b) addrs none q trips backed = absurd backed
  respond-Heard s (some a) none addrs none q trips backed = absurd backed

  -- A client that is assigned addresses gets a response, no case of which panics, and the client
  -- that decodes it configures exactly those addresses, with the host route and the address of the
  -- server in each family that is assigned, and the server's candidate addresses, if the JSON crate
  -- reads the response back from what it wrote.
  pub handshake_agrees :
      (s : Server Net4 Net6 E) (id : E) (d : ℕ) (ips : Option ℕ × Option ℕ) (addrs : List IpAddr)
      → CanSend (assign ops6 c s id d).1 ips addrs
      → (assign ops6 c s id d).0 ≡ ok ips
      → Heard (assign ops6 c s id d).1 ips addrs
  handshake_agrees s id d (ip4, ip6) addrs trips given =
      let s' = (assign ops6 c s id d).1 in
      respond-Heard s' ip4 ip6 addrs s'.ip_pool s'.ip6_pool trips
        (assign-Backed ops6 c s id d (ip4, ip6) given)
