-- ===== src/Server/Sessions.antt =====
-- The end of a session in `handle_connection_inner`: what it takes down, and what it leaves to the
-- session that took its place.
pub mod Race
use ezvpn.Prelude.{
  ℕ, ◌≡◌, ◌≢◌, refl, ap, ◌∙◌, true, false, Option, none, some, arith, Eq, ◌==◌, pair_eq, ℕ_eq,
  nat_eq, nat_eq_iff, if◌then◌else◌,
}
use ezvpn.Dict
use ezvpn.Dict.{
  Unique, get-insert_ne, get-insert_self, get-remove_self, get-remove_ne, insert-Unique,
}
use ezvpn.Server.{Server, ClientState, register, cleanup, give_up}

module _ {Net4 Net6 E : Type 0} ⦃e : Eq E⦄ where
  pub registered :
      (s : Server Net4 Net6 E) (key : E × ℕ) (ips : Option ℕ × Option ℕ)
      → Dict.get key (register s key ips).1.clients
        ≡ some
            (record { session_id = s.next_session_id; assigned_ip = ips.0; assigned_ip6 = ips.1 })
  unfolding register
  registered s key ips = get-insert_self key _ s.clients

  cleanup_other :
      (s : Server Net4 Net6 E) (key : E × ℕ) (id : ℕ) (ips : Option ℕ × Option ℕ)
      (state : ClientState)
      → Dict.get key s.clients ≡ some state
      → nat_eq state.session_id id ≡ false
      → cleanup s key id ips ≡ s
  unfolding cleanup
  cleanup_other s key id ips state held differ = rw (held, cleanup, differ) refl

  cleanup_own :
      (s : Server Net4 Net6 E) (key : E × ℕ) (id : ℕ) (ips : Option ℕ × Option ℕ)
      (state : ClientState)
      → Dict.get key s.clients ≡ some state
      → nat_eq state.session_id id ≡ true
      → (cleanup s key id ips).clients ≡ Dict.remove key s.clients
  unfolding cleanup give_up
  cleanup_own s key id ips state held same = rw (held, cleanup, same) refl

  -- A session that is cleaned up after a newer one of its client has registered changes nothing:
  -- neither the entries of the newer session nor the pools.
  pub stale_cleanup :
      (s : Server Net4 Net6 E) (key : E × ℕ) (ips old_ips : Option ℕ × Option ℕ) (old : ℕ)
      → old ≢ (register s key ips).0
      → cleanup (register s key ips).1 key old old_ips ≡ (register s key ips).1
  unfolding register
  stale_cleanup s key ips old_ips old differ =
      cleanup_other (register s key ips).1 key old old_ips _ (registered s key ips)
        (ground (arith, differ))

  -- A session that ends while it is the newest of its client takes its client out of the
  -- map of clients, in which no client has two entries, and leaves the entry of every other client
  -- as it was before the session.
  pub session_ends :
      (s : Server Net4 Net6 E) (key : E × ℕ) (ips : Option ℕ × Option ℕ)
      → Unique s.clients
      → let after = cleanup (register s key ips).1 key (register s key ips).0 ips in
        (Dict.get key after.clients ≡ none)
        × ((other : E × ℕ)
            → (key == other) ≡ false
            → Dict.get other after.clients ≡ Dict.get other s.clients)
  unfolding register
  session_ends s key ips unique =
      let state : ClientState = record {
        session_id = s.next_session_id;
        assigned_ip = ips.0;
        assigned_ip6 = ips.1;
      } in
      let clients = Dict.insert key state s.clients in
      let gone =
        cleanup_own (register s key ips).1 key s.next_session_id ips state (registered s key ips)
          ((nat_eq_iff s.next_session_id s.next_session_id).1 refl) in
      (
        ap (λ m. Dict.get key m) gone
            ∙ get-remove_self key clients (insert-Unique key state s.clients unique),
        λ other differ.
            ap (λ m. Dict.get other m) gone
            ∙ get-remove_ne key other clients differ
            ∙ get-insert_ne key other state s.clients differ,
      )
