-- ===== src/Server/Life/Kept.antt =====
-- src/tunnel/server.rs: what is left of a connection that is alone on the server.
use ezvpn.Prelude.{
  ℕ, ◌≡◌, false, ◌==◌, refl, sym, subst, ap, ◌∙◌, inl, inr, Option, none, some, List, Eq,
  Option-cases, pair_eq, ℕ_eq, nat_eq_iff, is_some,
}
use ezvpn.Dict
use ezvpn.Dict.{
  Unique, get-insert_self, get-remove_self, insert-Unique, get-insert_ne, get-remove_ne,
}
use ezvpn.Error.{Result, ok, err}
use ezvpn.IpNet.{IpNetOps, IpAddr}
use ezvpn.Pool.V4
use ezvpn.Pool.V4.{IpPool}
use ezvpn.Pool.V4.Invariant.{Inv}
use ezvpn.Pool.V6.{Ip6Pool, Crypto}
use ezvpn.Signaling.{VpnHandshake, VpnHandshakeResponse}
use ezvpn.Server.{Server, assign, respond, response_for, register, cleanup, give_up, release_ip}
use ezvpn.Server.Handshake.{Backed, assign-Backed}
use ezvpn.Server.Sessions.{registered}
use ezvpn.Server.Life.{delivered, with_response, assigned, handle_connection_inner}
use ezvpn.Server.Life.Taken.{Taken, assign-Taken}

-- The IPv4 address that the pool has in use for a client.
abbrev pub in_pool : {Net E : Type 0} ⦃e : Eq E⦄ → E × ℕ → Option (IpPool Net E) → Option ℕ
in_pool key none = none
in_pool key (some p) = Dict.get key p.in_use

-- How a connection ends that was assigned `ips`, by whether its response was delivered.
abbrev pub Left :
    {Net4 Net6 E : Type 0} ⦃e : Eq E⦄
    → Server Net4 Net6 E
    → E × ℕ
    → Option ℕ × Option ℕ
    → Result (Unit {0})
    → Result (Unit {0})
    → Result (Unit {0}) × Server Net4 Net6 E
    → Type 0
Left {E = E} s key ips served (err problem) (result, s') =
    (result ≡ err problem)
    × (in_pool key s'.ip_pool ≡ ips.0)
    × (s'.clients ≡ s.clients)
    × (s'.active_connections ≡ s.active_connections)
Left {E = E} s key ips served (ok done) (result, s') =
    (result ≡ served)
    × (in_pool key s'.ip_pool ≡ none)
    × (Dict.get key s'.clients ≡ none)
    × ((other : E × ℕ)
        → (key == other) ≡ false
        → Dict.get other s'.clients ≡ Dict.get other s.clients)
    × (s'.active_connections ≡ s.active_connections)

module _ {Net E : Type 0} ⦃e : Eq E⦄ where
  released :
      (p : IpPool Net E) (key : E × ℕ)
      → Unique p.in_use
      → Dict.get key (V4.release p key.0 key.1).in_use ≡ none
  unfolding V4.release
  released p key unique = elim (Option-cases (Dict.get key p.in_use)) [
    | inl absent ↦ rw (absent, V4.release) absent
    | inr (ip, there) ↦ rw (there, V4.release) (get-remove_self key p.in_use unique)
  ]

  given_back :
      (p : IpPool Net E) (key : E × ℕ) (ip : Option ℕ)
      → Unique p.in_use
      → Dict.get key p.in_use ≡ ip
      → in_pool key (release_ip (is_some ip) (some p) key) ≡ none
  unfolding release_ip
  given_back p key none unique there = there
  given_back p key (some a) unique there = released p key unique

module _ {Net4 Net6 E : Type 0} ⦃e : Eq E⦄ where
  respond-some :
      (ops4 : IpNetOps Net4) (ops6 : IpNetOps Net6) (s : Server Net4 Net6 E) (ip4 ip6 : Option ℕ)
      (addrs : List IpAddr) (p : Option (IpPool Net4 E)) (q : Option (Ip6Pool Net6 E))
      → Backed ip4 ip6 p q
      → (r : VpnHandshakeResponse Net4 Net6) × (respond ops4 ops6
            (record s { ip_pool = p; ip6_pool = q })
            (ip4, ip6)
            addrs
          ≡ some r)
  unfolding Backed respond response_for
  respond-some ops4 ops6 s (some a) (some b) addrs (some p) (some q) backed = (_, refl)
  respond-some ops4 ops6 s (some a) (some b) addrs (some p) none backed = absurd backed
  respond-some ops4 ops6 s (some a) (some b) addrs none q backed = absurd backed
  respond-some ops4 ops6 s (some a) none addrs (some p) q backed = (_, refl)
  respond-some ops4 ops6 s (some a) none addrs none q backed = absurd backed
  respond-some ops4 ops6 s none (some b) addrs p (some q) backed = (_, refl)
  respond-some ops4 ops6 s none (some b) addrs p none backed = absurd backed
  respond-some ops4 ops6 s none none addrs p q backed = absurd backed

module _ {Net4 Net6 E : Type 0} ⦃e : Eq E⦄ where
  cleanup-own :
      (s : Server Net4 Net6 E) (key : E × ℕ) (ips : Option ℕ × Option ℕ)
      → cleanup (register s key ips).1 key (register s key ips).0 ips
        ≡ give_up
            (register s key ips).1
            key
            ips
            (record { session_id = s.next_session_id; assigned_ip = ips.0; assigned_ip6 = ips.1 })
  unfolding cleanup register
  cleanup-own s key ips =
      rw (registered s key ips, cleanup, (nat_eq_iff s.next_session_id s.next_session_id).1 refl)
        refl

module _ {Net4 Net6 E : Type 0} ⦃e : Eq E⦄ (ops4 : IpNetOps Net4) (ops6 : IpNetOps Net6)
    (c : Crypto E) (addrs : List IpAddr)
    (deliver : VpnHandshakeResponse Net4 Net6 → Result (Unit {0}))
    (served : Result (Unit {0})) where
  delivered-Left :
      (s s1 : Server Net4 Net6 E) (key : E × ℕ) (ips : Option ℕ × Option ℕ)
      (sent : Result (Unit {0}))
      → Unique s.clients
      → Taken s key ips.0 s1
      → Left s key ips served sent
          (delivered ops4 ops6 c addrs deliver (λ x. (served, x)) key ips sent s1)
  unfolding delivered register give_up
  delivered-Left s s1 key ips (err problem) unique taken =
      let (p, pool, once, there, same, count) = taken in
      (refl, ap (in_pool key) pool ∙ there, same, count)
  delivered-Left s s1 key ips (ok done) unique taken =
      let (p, pool, once, there, same, count) = taken in
      let own = cleanup-own s1 key ips in
      (
        refl,
        ap (λ x. in_pool key x.ip_pool) own
            ∙ ap (λ o. in_pool key (release_ip (is_some ips.0) o key)) pool
            ∙ given_back p key ips.0 once there,
        ap (λ x. Dict.get key x.clients) own
            ∙ get-remove_self key _
                (insert-Unique key _ s1.clients (subst Unique (sym same) unique)),
        λ other differ.
            ap (λ x. Dict.get other x.clients) own
            ∙ get-remove_ne key other _ differ
            ∙ get-insert_ne key other _ s1.clients differ
            ∙ ap (λ m. Dict.get other m) same,
        ap (λ x. x.active_connections) own ∙ count,
      )

  -- A connection that is assigned addresses does not panic, and has a response, after which it ends
  -- as `Left` says.
  abbrev pub Ends :
      Server Net4 Net6 E
      → E × ℕ
      → Option ℕ × Option ℕ
      → Option (Result (Unit {0}) × Server Net4 Net6 E)
      → Type 0
  Ends s key ips outcome =
      (response : VpnHandshakeResponse Net4 Net6) × (done : Result (Unit {0}) × Server Net4 Net6 E)
      × (respond ops4 ops6 (assign ops6 c s key.0 key.1).1 ips addrs ≡ some response)
      × (outcome ≡ some done)
      × Left s key ips served (deliver response) done

  assigned-Ends :
      (s : Server Net4 Net6 E) (key : E × ℕ) (ips : Option ℕ × Option ℕ)
      → let s1 = (assign ops6 c s key.0 key.1).1 in
        Unique s.clients
        → Taken s key ips.0 s1
        → Backed ips.0 ips.1 s1.ip_pool s1.ip6_pool
        → Ends s key ips (assigned ops4 ops6 c addrs deliver (λ x. (served, x)) key (ok ips, s1))
  unfolding assigned with_response
  assigned-Ends s key ips unique taken backed =
      let s1 = (assign ops6 c s key.0 key.1).1 in
      let (r, said) = respond-some ops4 ops6 s1 ips.0 ips.1 addrs s1.ip_pool s1.ip6_pool backed in
      (
        r,
        _,
        said,
        ap (with_response ops4 ops6 c addrs deliver (λ x. (served, x)) key ips s1) said,
        delivered-Left s s1 key ips (deliver r) unique taken,
      )

  -- Of a server with a sound IPv4 pool, where no client has two entries, and a connection that is
  -- assigned addresses while nothing else happens: it does not panic. If its response is not
  -- delivered, it ends with that error, and its client keeps its IPv4 address in use without an entry
  -- of its own. If it is delivered, it ends with the result of serving the client, which then has
  -- neither an IPv4 address nor an entry. The count of connections is as it was.
  pub inner-Ends :
      (s : Server Net4 Net6 E) (p : IpPool Net4 E) (remote_id : E) (handshake : VpnHandshake)
      (ips : Option ℕ × Option ℕ)
      → s.ip_pool ≡ some p
      → Inv p
      → Unique s.clients
      → (assign ops6 c s remote_id handshake.device_id).0 ≡ ok ips
      → Ends s
          (remote_id, handshake.device_id)
          ips
          (handle_connection_inner ops4 ops6 c addrs deliver
            (λ x. (served, x))
            remote_id
            handshake
            s)
  unfolding handle_connection_inner
  inner-Ends s p remote_id handshake ips pool sound unique given =
      let key : E × ℕ = (remote_id, handshake.device_id) in
      let s1 = (assign ops6 c s key.0 key.1).1 in
      let whole : (ok ips, s1) ≡ assign ops6 c s key.0 key.1 = ap (λ r. (r, s1)) (sym given) in
      subst (λ q. Ends s key ips (assigned ops4 ops6 c addrs deliver (λ x. (served, x)) key q))
        whole
        (assigned-Ends s key ips unique (assign-Taken ops6 c s p key ips sound pool given)
          (assign-Backed ops6 c s remote_id handshake.device_id ips given))
