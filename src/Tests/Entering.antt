-- ===== src/Tests/Entering.antt =====
-- The entry of a connection, and a reconnect that meets a cleanup, at concrete inputs.
use Prim.Native.String.{String}
use ezvpn.Prelude.{ℕ, ◌≡◌, refl, true, some, none, [], ◌∷◌, Bytes, arith, ℕ_eq, pair_eq}
use ezvpn.Dict
use ezvpn.Error.{Result, ok, err, network}
use ezvpn.Pool.V4
use ezvpn.Signaling.{Codec, VpnHandshake, VpnHandshakeResponse, new_handshake, decode_handshake}
use ezvpn.Signaling.Framing.{read_message, read_exact}
use ezvpn.Server.{Server, assign, enter, respond, then_ip6, assign_ip, assign_ip6, both}
use ezvpn.Server.Entry.{Credentials, decoded, handle_entry, handle_connection, max_handshake_size}
use ezvpn.Server.Entry.Credible.{Admits, handle_entry-Admits}
use ezvpn.Server.Entry.Whole.{connection-Left}
use ezvpn.Server.Life.{handle_connection_inner}
use ezvpn.Server.Life.Kept.{Left}
use ezvpn.Server.Sessions.Race.{with_pool, session, race, lent_twice}
use ezvpn.Tests.{net4, net6, crypto}
use ezvpn.Tests.Pools.{empty, empty-Sound, one_client, one_client-Inv}
use ezvpn.Tests.Sessions.{server}

abbrev handshake : VpnHandshake
handshake = new_handshake 3 (record { public_key = "key"; endpoint_id = "id"; signature = "sig" })

abbrev codec : Codec VpnHandshake
codec = record { to_vec = λ h. some (9 ∷ []); from_slice = λ bytes. some handshake }

-- Every id is that of endpoint 7, and every signature is genuine.
abbrev credentials : Credentials ℕ ℕ
credentials = record {
  parse_id = λ text. some 7;
  parse_key = λ text. some 1;
  authorized = λ key. true;
  verify = λ key id signature. true;
}

abbrev stream : Bytes
stream = 0 ∷ 0 ∷ 0 ∷ 1 ∷ 9 ∷ []

handle_entry-Admits_example :
    Admits credentials
      (decoded codec (read_message max_handshake_size stream))
      7
      server
      (handle_entry credentials codec stream 7 server)
handle_entry-Admits_example = handle_entry-Admits credentials codec stream 7 server (omega arith)

-- The server while client 7 holds the only address that it lends.
abbrev lending : Server ℕ ℕ ℕ
lending = record server { clients = ((7, 0), session 3 22) ∷ [] }

lent_twice_example :
    ((assign net6 crypto (with_pool lending one_client) 7 0).0 ≡ ok (some 22, none))
    × ((race net6 crypto (with_pool lending one_client) (7, 0) (8, 0) 3 (some 22, none)).0
        ≡ ok (some 22, none))
    × (Dict.get
          (7, 0)
          (race net6 crypto
            (with_pool lending one_client)
            (7, 0)
            (8, 0)
            3
            (some 22, none)).1.clients
        ≡ some (session 4 22))
unfolding V4.run V4.step V4.new V4.allocate V4.release V4.next_unreserved_ip V4.next_loop
    V4.pop_released Dict.get Dict.insert Dict.remove
lent_twice_example =
    lent_twice net6 crypto lending one_client (7, 0) (8, 0) 22 3 one_client-Inv refl refl refl

-- The server before any client.
abbrev lone : Server ℕ ℕ ℕ
lone = record server { ip_pool = some empty }

abbrev undelivered : VpnHandshakeResponse ℕ ℕ → Result (Unit {0})
undelivered response = err (network "connection lost")

abbrev write_reason : String → Result (Unit {0})
write_reason reason = ok tt

-- The response to client 7, its only one, is not delivered.
connection-Left_example :
    (response : VpnHandshakeResponse ℕ ℕ) × (done : Result (Unit {0}) × Server ℕ ℕ ℕ) × (respond
        net4 net6
        (assign net6 crypto (enter lone).1 7 3).1
        (some 22, none)
        []
      ≡ some response)
    × (handle_connection credentials write_reason
          (λ h s. handle_connection_inner net4 net6 crypto [] undelivered (λ x. (ok tt, x)) 7 h s)
          codec
          stream
          7
          lone
        ≡ some done)
    × Left lone (7, 3) (some 22, none) (ok tt) (undelivered response) done
unfolding decoded read_message read_exact decode_handshake new_handshake assign then_ip6 assign_ip
    assign_ip6 both enter V4.new V4.allocate V4.next_unreserved_ip V4.next_loop V4.pop_released
    Dict.get Dict.insert
connection-Left_example =
    connection-Left credentials net4 net6 crypto [] write_reason undelivered (ok tt) codec stream 7
      lone empty handshake (some 22, none) refl (refl, (1, refl, refl, refl)) (omega arith)
      (omega arith) refl empty-Sound tt refl
