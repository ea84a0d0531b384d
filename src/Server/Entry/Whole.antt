-- ===== src/Server/Entry/Whole.antt =====
-- src/tunnel/server.rs: `handle_connection` from the handshake to the end of the connection.
use Prim.Native.String.{String}
use ezvpn.Prelude.{
  ℕ, ◌<◌, ◌≡◌, refl, ap, ◌∙◌, Option, some, List, Eq, pair_eq, ℕ_eq, Bytes, arith, false, leb,
}
use ezvpn.Dict.{Unique}
use ezvpn.Error.{Result, ok, err}
use ezvpn.IpNet.{IpNetOps, IpAddr}
use ezvpn.Pool.V4.{IpPool}
use ezvpn.Pool.V4.Invariant.{Inv}
use ezvpn.Pool.V6.{Crypto}
use ezvpn.Signaling.{Codec, VpnHandshake, VpnHandshakeResponse}
use ezvpn.Signaling.Framing.{read_message}
use ezvpn.Server.{Server, u64_mod, enter, leave, is_full, assign, respond}
use ezvpn.Server.Entry.{
  max_handshake_size, Credentials, entered, admit, authenticate, decoded, left, after_entry,
  handle_entry, handle_connection,
}
use ezvpn.Server.Entry.Credible.{IsCredible, verify_iff}
use ezvpn.Server.Life.{handle_connection_inner}
use ezvpn.Server.Life.Kept.{Left, inner-Ends}

below : (a b : ℕ) → b < a → leb a b ≡ false
below a b h = ground arith

module _ {E Key : Type 0} ⦃e : Eq E⦄ (credentials : Credentials E Key) {Net4 Net6 : Type 0} where
  handle_entry-entered :
      (codec : Codec VpnHandshake) (stream : Bytes) (remote_id : E) (s : Server Net4 Net6 E)
      (handshake : VpnHandshake)
      → decoded codec (read_message max_handshake_size stream) ≡ ok handshake
      → IsCredible credentials handshake.auth remote_id
      → s.active_connections < s.max_clients
      → handle_entry credentials codec stream remote_id s ≡ (entered handshake, (enter s).1)
  unfolding handle_entry authenticate admit is_full enter
  handle_entry-entered codec stream remote_id s handshake read credible room =
      rw
        (
          read,
          authenticate,
          (verify_iff credentials handshake.auth remote_id).1 credible,
          admit,
          below s.max_clients s.active_connections room,
        )
        refl

module _ {Net4 Net6 E : Type 0} ⦃e : Eq E⦄ where
  Left-leave :
      (s : Server Net4 Net6 E) (key : E × ℕ) (ips : Option ℕ × Option ℕ)
      (served sent : Result (Unit {0})) (done : Result (Unit {0}) × Server Net4 Net6 E)
      → s.active_connections < u64_mod
      → Left (enter s).1 key ips served sent done
      → Left s key ips served sent (done.0, leave done.1)
  unfolding enter leave
  Left-leave s key ips served (err problem) (result, s') small (h, a, b, count) =
      (h, a, b, omega (arith, count))
  Left-leave s key ips served (ok done) (result, s') small (h, a, b, others, count) =
      (h, a, b, others, omega (arith, count))

module _ {Net4 Net6 E Key : Type 0} ⦃e : Eq E⦄ (credentials : Credentials E Key)
    (ops4 : IpNetOps Net4) (ops6 : IpNetOps Net6) (c : Crypto E) (addrs : List IpAddr)
    (reject : String → Result (Unit {0}))
    (deliver : VpnHandshakeResponse Net4 Net6 → Result (Unit {0}))
    (served : Result (Unit {0})) where
  abbrev inner :
      E → VpnHandshake → Server Net4 Net6 E → Option (Result (Unit {0}) × Server Net4 Net6 E)
  inner = handle_connection_inner ops4 ops6 c addrs deliver (λ x. (served, x))

  -- Of a server with room, with a sound IPv4 pool and no client that has two entries, and a
  -- connection with a handshake that is read and credible, which is assigned addresses while nothing
  -- else happens on the server: it does not panic, and leaves the count of connections as it was. If
  -- its response is not delivered, it ends with that error, and the IPv4 address that it was
  -- assigned stays in use, although the map of clients is as it was. If it is delivered, the
  -- connection ends with the result of serving the client, which then has neither an IPv4 address
  -- nor a session, and the sessions of the other clients are as they were.
  pub connection-Left :
      (codec : Codec VpnHandshake) (stream : Bytes) (remote_id : E) (s : Server Net4 Net6 E)
      (p : IpPool Net4 E) (handshake : VpnHandshake) (ips : Option ℕ × Option ℕ)
      → let key : E × ℕ = (remote_id, handshake.device_id) in
        decoded codec (read_message max_handshake_size stream) ≡ ok handshake
        → IsCredible credentials handshake.auth remote_id
        → s.active_connections < s.max_clients
        → s.active_connections < u64_mod
        → s.ip_pool ≡ some p
        → Inv p
        → Unique s.clients
        → (assign ops6 c (enter s).1 remote_id handshake.device_id).0 ≡ ok ips
        → (response : VpnHandshakeResponse Net4 Net6) × (done : Result (Unit {0})
            × Server Net4 Net6 E)
          × (respond ops4 ops6 (assign ops6 c (enter s).1 remote_id handshake.device_id).1 ips addrs
              ≡ some response)
          × (handle_connection credentials reject (inner remote_id) codec stream remote_id s
              ≡ some done)
          × Left s key ips served (deliver response) done
  unfolding handle_connection after_entry left
  connection-Left codec stream remote_id s p handshake ips read credible room small pool sound
        unique given =
      let (response, done, said, ends, how) =
        inner-Ends ops4 ops6 c addrs deliver served (enter s).1 p remote_id handshake ips
          (unfold enter in pool) sound (unfold enter in unique) given in
      (
        response,
        (done.0, leave done.1),
        said,
        ap (after_entry credentials reject (inner remote_id)) (
              handle_entry-entered credentials codec stream remote_id s handshake read credible
                room)
            ∙ ap left ends,
        Left-leave s (remote_id, handshake.device_id) ips served (deliver response) done small how,
      )
