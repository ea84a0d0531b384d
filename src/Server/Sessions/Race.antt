-- ===== src/Server/Sessions/Race.antt =====
-- src/tunnel/server.rs: a reconnect whose old session is cleaned up between the assignment of its
-- addresses and the registration of the new session.
use ezvpn.Prelude.{ℕ, ◌≡◌, refl, ap, ◌∙◌, Option, none, some, Eq, pair_eq, ℕ_eq, nat_eq_iff}
use ezvpn.IpNet.{IpNetOps}
use ezvpn.Dict
use ezvpn.Dict.{get-insert_self}
use ezvpn.Error.{Result, ok}
use ezvpn.Pool.V4
use ezvpn.Pool.V4.{IpPool}
use ezvpn.Pool.V4.Invariant.{Inv}
use ezvpn.Pool.V4.Repeat.{allocate_held, reuse_last}
use ezvpn.Pool.V6.{Crypto}
use ezvpn.Server.{
  Server, ClientState, checked, assign_ip, assign_ip6, both, then_ip6, assign, register, cleanup,
  give_up, release_ip, release_ip6, unmap,
}

-- A server for IPv4 only, with its pool.
abbrev pub with_pool :
    {Net4 Net6 E : Type 0} → Server Net4 Net6 E → IpPool Net4 E → Server Net4 Net6 E
with_pool s p = record s { ip_pool = some p; ip6_pool = none }

abbrev pub session : ℕ → ℕ → ClientState
session id a = record { session_id = id; assigned_ip = some a; assigned_ip6 = none }

-- What is left of the maps.
abbrev dropped :
    {Net4 Net6 E : Type 0} ⦃e : Eq E⦄ → Server Net4 Net6 E → E × ℕ → ℕ → Server Net4 Net6 E
dropped s key a = record s {
  clients = Dict.remove key s.clients;
  ip_to_endpoint = unmap (some a) key s.ip_to_endpoint;
}

module _ {Net4 Net6 E : Type 0} ⦃e : Eq E⦄ (ops6 : IpNetOps Net6) (c : Crypto E) where
  assign-with_pool :
      (s : Server Net4 Net6 E) (p : IpPool Net4 E) (key : E × ℕ) (a : ℕ)
      → (V4.allocate p key.0 key.1).0 ≡ some a
      → assign ops6 c (with_pool s p) key.0 key.1
        ≡ (ok (some a, none), with_pool s (V4.allocate p key.0 key.1).1)
  unfolding assign assign_ip then_ip6 both assign_ip6 checked
  assign-with_pool s p key a h = rw (h, checked) refl

  -- The steps of the race: the new connection is assigned its addresses, the old session is cleaned up,
  -- the new session is registered, and another client connects.
  abbrev pub race :
      Server Net4 Net6 E
      → E × ℕ
      → E × ℕ
      → ℕ
      → Option ℕ × Option ℕ
      → Result (Option ℕ × Option ℕ) × Server Net4 Net6 E
  race s key other old_session ips =
      let s1 = (assign ops6 c s key.0 key.1).1 in
      let s2 = cleanup s1 key old_session ips in
      let s3 = (register s2 key ips).1 in assign ops6 c s3 other.0 other.1

  cleaned :
      (s : Server Net4 Net6 E) (p : IpPool Net4 E) (key : E × ℕ) (a id : ℕ)
      → Dict.get key s.clients ≡ some (session id a)
      → cleanup (with_pool s p) key id (some a, none)
        ≡ with_pool (dropped s key a) (V4.release p key.0 key.1)
  unfolding cleanup give_up release_ip release_ip6
  cleaned s p key a id held = rw (held, cleanup, (nat_eq_iff id id).1 refl) refl

  new_session :
      (s : Server Net4 Net6 E) (key : E × ℕ) (a : ℕ)
      → Dict.get key (register (dropped s key a) key (some a, none)).1.clients
        ≡ some (session s.next_session_id a)
  unfolding register
  new_session s key a =
      get-insert_self key (session s.next_session_id a) (Dict.remove key s.clients)

  register-with_pool :
      (s : Server Net4 Net6 E) (p : IpPool Net4 E) (key : E × ℕ) (ips : Option ℕ × Option ℕ)
      → (register (with_pool s p) key ips).1 ≡ with_pool (register s key ips).1 p
  unfolding register
  register-with_pool s p key ips = refl

  again_given :
      (s : Server Net4 Net6 E) (p : IpPool Net4 E) (key other : E × ℕ) (a id : ℕ)
      → Inv p
      → Dict.get key p.in_use ≡ some a
      → Dict.get other p.in_use ≡ none
      → Dict.get key s.clients ≡ some (session id a)
      → assign ops6 c (with_pool s p) key.0 key.1 ≡ (ok (some a, none), with_pool s p)
      → race (with_pool s p) key other id (some a, none) ≡ (
        ok (some a, none),
        with_pool
            (register (dropped s key a) key (some a, none)).1
            (V4.allocate (V4.release p key.0 key.1) other.0 other.1).1,
      )
  again_given s p key other a id sound held absent old again =
      ap
        (λ r.
          assign ops6 c (register (cleanup r.1 key id (some a, none)) key (some a, none)).1 other.0
            other.1)
        again
      ∙ ap (λ x. assign ops6 c (register x key (some a, none)).1 other.0 other.1)
          (cleaned s p key a id old)
      ∙ ap (λ x. assign ops6 c x other.0 other.1)
          (register-with_pool (dropped s key a) (V4.release p key.0 key.1) key (some a, none))
      ∙ assign-with_pool (register (dropped s key a) key (some a, none)).1
          (V4.release p key.0 key.1) other a (reuse_last p key other a sound held absent)

  -- Of a server for IPv4 with a sound pool: a client that holds an address reconnects, and its old
  -- session is cleaned up after the new connection was assigned its addresses. The new connection is
  -- registered with the address all the same, and the next client that holds none is assigned it too.
  pub lent_twice :
      (s : Server Net4 Net6 E) (p : IpPool Net4 E) (key other : E × ℕ) (a id : ℕ)
      → Inv p
      → Dict.get key p.in_use ≡ some a
      → Dict.get other p.in_use ≡ none
      → Dict.get key s.clients ≡ some (session id a)
      → ((assign ops6 c (with_pool s p) key.0 key.1).0 ≡ ok (some a, none))
        × ((race (with_pool s p) key other id (some a, none)).0 ≡ ok (some a, none))
        × (Dict.get key (race (with_pool s p) key other id (some a, none)).1.clients
            ≡ some (session s.next_session_id a))
  lent_twice s p key other a id sound held absent old =
      let lent : V4.allocate p key.0 key.1 ≡ (some a, p) = allocate_held p key.0 key.1 a held in
      let again : assign ops6 c (with_pool s p) key.0 key.1 ≡ (ok (some a, none), with_pool s p) =
        assign-with_pool s p key a (ap (λ r. r.0) lent)
        ∙ ap (λ r. (ok (some a, none), with_pool s r.1)) lent in
      let given = again_given s p key other a id sound held absent old again in
      (
        ap (λ r. r.0) again,
        ap (λ r. r.0) given,
        ap (λ r. Dict.get key r.1.clients) given ∙ new_session s key a,
      )
