-- ===== src/Server/Life.antt =====
-- src/tunnel/server.rs: `handle_connection_inner` as a whole. What is done with the response (it is
-- encoded and written) and what happens while the client is served, by any connection, are
-- arguments.
pub mod Taken
pub mod Kept
use ezvpn.Prelude.{ℕ, Option, none, some, List, Eq}
use ezvpn.Error.{Result, ok, err}
use ezvpn.IpNet.{IpNetOps, IpAddr}
use ezvpn.Pool.V6.{Crypto}
use ezvpn.Signaling.{VpnHandshake, VpnHandshakeResponse}
use ezvpn.Server.{Server, assign, respond, register, cleanup}

module _ {Net4 Net6 E : Type 0} ⦃e : Eq E⦄ (ops4 : IpNetOps Net4) (ops6 : IpNetOps Net6)
    (c : Crypto E) (addrs : List IpAddr)
    (deliver : VpnHandshakeResponse Net4 Net6 → Result (Unit {0}))
    (serve : Server Net4 Net6 E → Result (Unit {0}) × Server Net4 Net6 E) where
  -- The response was delivered, or not.
  delivered :
      E × ℕ
      → Option ℕ × Option ℕ
      → Result (Unit {0})
      → Server Net4 Net6 E
      → Result (Unit {0}) × Server Net4 Net6 E
  delivered key ips (err problem) s = (err problem, s)
  delivered key ips (ok done) s =
      let (session_id, s1) = register s key ips in
      let (result, s2) = serve s1 in (result, cleanup s2 key session_id ips)

  with_response :
      E × ℕ
      → Option ℕ × Option ℕ
      → Server Net4 Net6 E
      → Option (VpnHandshakeResponse Net4 Net6)
      → Option (Result (Unit {0}) × Server Net4 Net6 E)
  unfolding delivered
  with_response key ips s none = none
  with_response key ips s (some response) = some (delivered key ips (deliver response) s)

  assigned :
      E × ℕ
      → Result (Option ℕ × Option ℕ) × Server Net4 Net6 E
      → Option (Result (Unit {0}) × Server Net4 Net6 E)
  unfolding with_response
  assigned key (err problem, s) = some (err problem, s)
  assigned key (ok ips, s) = with_response key ips s (respond ops4 ops6 s ips addrs)

  -- `none` is a panic.
  unfoldable pub handle_connection_inner :
      E → VpnHandshake → Server Net4 Net6 E → Option (Result (Unit {0}) × Server Net4 Net6 E)
  unfolding assigned
  handle_connection_inner remote_id handshake s =
      assigned (remote_id, handshake.device_id) (assign ops6 c s remote_id handshake.device_id)
