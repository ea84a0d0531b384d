-- ===== src/Signaling.antt =====
-- src/tunnel/signaling.rs: the handshake messages and their validity, and the client's reading of a
-- response in src/tunnel/client.rs. The JSON text is that of the crate `serde_json`, a parameter.
pub mod Framing
pub mod Agreement
use Prim.Native.String.{String}
use ezvpn.Prelude.{
  ℕ, Bool, true, false, not, ◌&&◌, ◌||◌, Option, none, some, List, [], ◌∷◌, nat_eq, is_some,
  is_none, if◌then◌else◌, Bytes,
}
use ezvpn.Error.{
  VpnError, Result, ok, err, reject_if, ◌>>=◌, ◌>>◌, signaling, authentication_failed,
}
use ezvpn.IpNet.{IpAddr}

abbrev pub vpn_protocol_version : ℕ
vpn_protocol_version = 8

pub record ClientAuthPayload : Type 0 where
  pub public_key : String
  pub endpoint_id : String
  pub signature : String

pub record VpnHandshake : Type 0 where
  pub version : ℕ
  pub device_id : ℕ
  pub auth : ClientAuthPayload

pub record VpnHandshakeResponse (Net4 Net6 : Type 0) : Type 0 where
  pub version : ℕ
  pub accepted : Bool
  pub assigned_ip : Option ℕ
  pub network : Option Net4
  pub server_ip : Option ℕ
  pub assigned_ip6 : Option ℕ
  pub network6 : Option Net6
  pub server_ip6 : Option ℕ
  pub reject_reason : Option String
  pub server_addrs : List IpAddr

-- A JSON encoder and decoder; `none` is an error of the crate.
pub record Codec (A : Type 0) : Type 0 where
  pub to_vec : A → Option Bytes
  pub from_slice : Bytes → Option A

unfoldable pub new_handshake : ℕ → ClientAuthPayload → VpnHandshake
new_handshake device_id auth = record {
  version = vpn_protocol_version;
  device_id = device_id;
  auth = auth;
}

abbrev pub or_fail {ℓ} : {A : Type ℓ} → Option A → VpnError → Result A
or_fail none e = err e
or_fail (some a) e = ok a

pub encode_handshake : Codec VpnHandshake → VpnHandshake → Result Bytes
encode_handshake codec h = or_fail (codec.to_vec h) (signaling "Failed to encode handshake")

unfoldable pub decode_handshake : Codec VpnHandshake → Bytes → Result VpnHandshake
decode_handshake codec bytes = do
  handshake ← or_fail (codec.from_slice bytes) (signaling "Failed to decode handshake")
  reject_if (not (nat_eq handshake.version vpn_protocol_version))
      (signaling "Unsupported handshake protocol version")
  ok handshake

abbrev invalid_response : VpnError
invalid_response =
    signaling
      "Invalid handshake response: an accepted response must assign at least one address family"

module _ {Net4 Net6 : Type 0} where
  unfoldable pub is_valid : VpnHandshakeResponse Net4 Net6 → Bool
  is_valid r =
      if not r.accepted
      then true
      else if is_none r.assigned_ip && is_none r.assigned_ip6
      then false
      else if is_some r.assigned_ip && (is_none r.network || is_none r.server_ip)
      then false
      else if is_some r.assigned_ip6 && (is_none r.network6 || is_none r.server_ip6)
      then false
      else true

  unfoldable pub accepted : ℕ → Net4 → ℕ → VpnHandshakeResponse Net4 Net6
  accepted assigned_ip network server_ip = record {
    version = vpn_protocol_version;
    accepted = true;
    assigned_ip = some assigned_ip;
    network = some network;
    server_ip = some server_ip;
    assigned_ip6 = none;
    network6 = none;
    server_ip6 = none;
    reject_reason = none;
    server_addrs = [];
  }

  pub accepted_dual_stack : ℕ → Net4 → ℕ → ℕ → Net6 → ℕ → VpnHandshakeResponse Net4 Net6
  accepted_dual_stack assigned_ip network server_ip assigned_ip6 network6 server_ip6 = record {
    version = vpn_protocol_version;
    accepted = true;
    assigned_ip = some assigned_ip;
    network = some network;
    server_ip = some server_ip;
    assigned_ip6 = some assigned_ip6;
    network6 = some network6;
    server_ip6 = some server_ip6;
    reject_reason = none;
    server_addrs = [];
  }

  pub accepted_ipv6_only : ℕ → Net6 → ℕ → VpnHandshakeResponse Net4 Net6
  accepted_ipv6_only assigned_ip6 network6 server_ip6 = record {
    version = vpn_protocol_version;
    accepted = true;
    assigned_ip = none;
    network = none;
    server_ip = none;
    assigned_ip6 = some assigned_ip6;
    network6 = some network6;
    server_ip6 = some server_ip6;
    reject_reason = none;
    server_addrs = [];
  }

  unfoldable pub rejected : String → VpnHandshakeResponse Net4 Net6
  rejected reason = record {
    version = vpn_protocol_version;
    accepted = false;
    assigned_ip = none;
    network = none;
    server_ip = none;
    assigned_ip6 = none;
    network6 = none;
    server_ip6 = none;
    reject_reason = some reason;
    server_addrs = [];
  }

  unfoldable pub with_server_addrs :
      VpnHandshakeResponse Net4 Net6 → List IpAddr → VpnHandshakeResponse Net4 Net6
  with_server_addrs r addrs = if r.accepted then record r { server_addrs = addrs } else r

  pub encode_response :
      Codec (VpnHandshakeResponse Net4 Net6) → VpnHandshakeResponse Net4 Net6 → Result Bytes
  encode_response codec r = do
    reject_if (not (is_valid r)) invalid_response
    or_fail (codec.to_vec r) (signaling "Failed to encode response")

  pub decode_response :
      Codec (VpnHandshakeResponse Net4 Net6) → Bytes → Result (VpnHandshakeResponse Net4 Net6)
  decode_response codec bytes = do
    r ← or_fail (codec.from_slice bytes) (signaling "Failed to decode response")
    reject_if (not (nat_eq r.version vpn_protocol_version))
        (signaling "Unsupported handshake response protocol version")
    reject_if (not (is_valid r)) invalid_response
    ok r
