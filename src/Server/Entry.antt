-- ===== src/Server/Entry.antt =====
-- src/tunnel/server.rs: the start of `handle_connection`, up to `handle_connection_inner`, with
-- `verify_client_auth`. The parsers of ids and keys, the set of authorized keys and the check of a
-- signature are those of libraries, a parameter.
pub mod Credible
pub mod Whole
use Prim.Native.String.{String}
use ezvpn.Prelude.{
  ℕ, Bool, true, false, not, ◌&&◌, Option, none, some, Eq, ◌==◌, if◌then◌else◌, Bytes,
}
use ezvpn.Error.{VpnError, Result, ok, err, signaling, ip_assignment}
use ezvpn.Signaling.{Codec, ClientAuthPayload, VpnHandshake, decode_handshake}
use ezvpn.Signaling.Framing.{read_message}
use ezvpn.Server.{Server, enter, leave, is_full}

abbrev pub max_handshake_size : ℕ
max_handshake_size = 16384

pub record Credentials (E Key : Type 0) : Type 0 where
  pub parse_id : String → Option E
  pub parse_key : String → Option Key
  pub authorized : Key → Bool
  pub verify : Key → E → String → Bool

-- What becomes of a connection: an error, a rejection with its reason, or the handshake of a client
-- that goes on.
pub data Entry : Type 0 where
  failed : VpnError → Entry
  denied : String → VpnError → Entry
  entered : VpnHandshake → Entry

unfoldable pub decoded : Codec VpnHandshake → Result (Bytes × Bytes) → Result VpnHandshake
decoded codec (err problem) = err problem
decoded codec (ok (handshake_data, rest)) = decode_handshake codec handshake_data

-- The error of a rejection, or that of its write.
turned_down : Result (Unit {0}) → VpnError → Result (Unit {0})
turned_down (err unwritten) problem = err unwritten
turned_down (ok written) problem = err problem

module _ {Net4 Net6 E : Type 0} where
  -- The limit of connections.
  unfoldable pub admit : VpnHandshake → Server Net4 Net6 E → Entry × Server Net4 Net6 E
  admit handshake s =
      let (prev_count, s') = enter s in
      if is_full s' prev_count
      then (denied "Server full" (ip_assignment "Server full"), leave s')
      else (entered handshake, s')

  -- The count is given back when the inner handler returns; `none` is its panic.
  left :
      Option (Result (Unit {0}) × Server Net4 Net6 E)
      → Option (Result (Unit {0}) × Server Net4 Net6 E)
  left none = none
  left (some (result, s)) = some (result, leave s)

module _ {E Key : Type 0} ⦃e : Eq E⦄ (c : Credentials E Key) where
  signed : Option Key → ClientAuthPayload → E → Bool
  signed none auth remote_id = false
  signed (some public) auth remote_id =
      if not (c.authorized public) then false else c.verify public remote_id auth.signature

  claimed : Option E → ClientAuthPayload → E → Bool
  claimed none auth remote_id = false
  claimed (some id) auth remote_id =
      if not (id == remote_id) then false else signed (c.parse_key auth.public_key) auth remote_id

  unfoldable pub verify_client_auth : ClientAuthPayload → E → Bool
  unfolding claimed signed
  verify_client_auth auth remote_id = claimed (c.parse_id auth.endpoint_id) auth remote_id

  module _ {Net4 Net6 : Type 0} where
    unfoldable pub authenticate :
        Result VpnHandshake → E → Server Net4 Net6 E → Entry × Server Net4 Net6 E
    authenticate (err problem) remote_id s = (failed problem, s)
    authenticate (ok handshake) remote_id s =
        if verify_client_auth handshake.auth remote_id then admit handshake s else (
          denied "Public-key authentication failed" (signaling "Public-key authentication failed"),
          s,
        )

    -- The handshake in the bytes of a stream.
    unfoldable pub handle_entry :
        Codec VpnHandshake → Bytes → E → Server Net4 Net6 E → Entry × Server Net4 Net6 E
    handle_entry codec stream remote_id s =
        authenticate (decoded codec (read_message max_handshake_size stream)) remote_id s

    after_entry :
        (String → Result (Unit {0}))
        → (VpnHandshake → Server Net4 Net6 E → Option (Result (Unit {0}) × Server Net4 Net6 E))
        → Entry × Server Net4 Net6 E
        → Option (Result (Unit {0}) × Server Net4 Net6 E)
    unfolding left turned_down
    after_entry reject inner (failed problem, s) = some (err problem, s)
    after_entry reject inner (denied reason problem, s) =
        some (turned_down (reject reason) problem, s)
    after_entry reject inner (entered handshake, s) = left (inner handshake s)

    -- With the write of a rejection, and `handle_connection_inner`.
    unfoldable pub handle_connection :
        (String → Result (Unit {0}))
        → (VpnHandshake → Server Net4 Net6 E → Option (Result (Unit {0}) × Server Net4 Net6 E))
        → Codec VpnHandshake
        → Bytes
        → E
        → Server Net4 Net6 E
        → Option (Result (Unit {0}) × Server Net4 Net6 E)
    unfolding after_entry
    handle_connection reject inner codec stream remote_id s =
        after_entry reject inner (handle_entry codec stream remote_id s)
