-- ===== src/Signaling/Agreement.antt =====
-- src/tunnel/client.rs, `perform_handshake`: what the client takes from a response of the server.
use Prim.Native.String.{String}
use ezvpn.Prelude.{
  ℕ, ◌≡◌, refl, Bool, true, false, not, ◌&&◌, Option, none, some, List, arith, is_none, Bytes,
}
use ezvpn.Error.{Result, ok, reject_if, ◌>>=◌, ◌>>◌, signaling, authentication_failed}
use ezvpn.IpNet.{IpAddr}
use ezvpn.Signaling.{
  Codec, VpnHandshakeResponse, is_valid, accepted, accepted_dual_stack, accepted_ipv6_only,
  with_server_addrs, encode_response, decode_response, vpn_protocol_version,
}

pub record ServerInfo (Net4 Net6 : Type 0) : Type 0 where
  pub assigned_ip : Option ℕ
  pub network : Option Net4
  pub server_ip : Option ℕ
  pub assigned_ip6 : Option ℕ
  pub network6 : Option Net6
  pub server_ip6 : Option ℕ
  pub server_addrs : List IpAddr

-- All three parts of a family must be there together, or none.
pub triplet : {Net : Type 0} → Option ℕ → Option Net → Option ℕ → Bool
triplet (some ip) (some net) (some gw) = true
triplet none none none = true
triplet _ _ _ = false

reason_or_unknown : Option String → String
reason_or_unknown none = "Unknown"
reason_or_unknown (some reason) = reason

module _ {Net4 Net6 : Type 0} where
  unfoldable pub server_info : VpnHandshakeResponse Net4 Net6 → Result (ServerInfo Net4 Net6)
  unfolding triplet reason_or_unknown
  server_info r = do
    reject_if (not r.accepted) (authentication_failed (reason_or_unknown r.reject_reason))
    reject_if (not (triplet r.assigned_ip r.network r.server_ip))
        (signaling "Server response has incomplete IPv4 configuration")
    reject_if (not (triplet r.assigned_ip6 r.network6 r.server_ip6))
        (signaling "Server response has incomplete IPv6 configuration")
    reject_if (is_none r.assigned_ip && is_none r.assigned_ip6)
        (signaling "Server response missing both IPv4 and IPv6 configuration")
    ok (record {
      assigned_ip = r.assigned_ip;
      network = r.network;
      server_ip = r.server_ip;
      assigned_ip6 = r.assigned_ip6;
      network6 = r.network6;
      server_ip6 = r.server_ip6;
      server_addrs = r.server_addrs;
    })

  -- What the client hears: the response, encoded and decoded.
  unfoldable pub hear :
      Codec (VpnHandshakeResponse Net4 Net6)
      → VpnHandshakeResponse Net4 Net6
      → Result (ServerInfo Net4 Net6)
  hear codec r = do
    bytes ← encode_response codec r
    response ← decode_response codec bytes
    server_info response

  -- An accepting response that the client takes is one that the encoder and the decoder take.
  pub server_info-is_valid :
      (r : VpnHandshakeResponse Net4 Net6) (info : ServerInfo Net4 Net6)
      → server_info r ≡ ok info
      → is_valid r ≡ true
  unfolding server_info is_valid
  server_info-is_valid r info h = ground arith

-- The JSON crate writes the value, and reads it back from what it wrote.
abbrev pub RoundTrips : {A : Type 0} → Codec A → A → Type 0
RoundTrips codec a =
    (bytes : Bytes) × (codec.to_vec a ≡ some bytes) × (codec.from_slice bytes ≡ some a)

module _ {Net4 Net6 : Type 0} (codec : Codec (VpnHandshakeResponse Net4 Net6)) where
  hear_lem :
      (r : VpnHandshakeResponse Net4 Net6)
      → RoundTrips codec r
      → r.version ≡ vpn_protocol_version
      → is_valid r ≡ true
      → hear codec r ≡ server_info r
  unfolding hear encode_response decode_response
  hear_lem r trips v valid = ground (arith, trips.1, trips.2)

  pub hear-accepted :
      (ip : ℕ) (net : Net4) (gw : ℕ) (addrs : List IpAddr)
      → RoundTrips codec (with_server_addrs (accepted ip net gw) addrs)
      → hear codec (with_server_addrs (accepted ip net gw) addrs)
        ≡ ok (record {
          assigned_ip = some ip;
          network = some net;
          server_ip = some gw;
          assigned_ip6 = none;
          network6 = none;
          server_ip6 = none;
          server_addrs = addrs;
        })
  unfolding with_server_addrs accepted is_valid server_info triplet reason_or_unknown
  hear-accepted ip net gw addrs trips =
      hear_lem (with_server_addrs (accepted ip net gw) addrs) trips refl refl

  pub hear-accepted_ipv6_only :
      (ip : ℕ) (net : Net6) (gw : ℕ) (addrs : List IpAddr)
      → RoundTrips codec (with_server_addrs (accepted_ipv6_only ip net gw) addrs)
      → hear codec (with_server_addrs (accepted_ipv6_only ip net gw) addrs)
        ≡ ok (record {
          assigned_ip = none;
          network = none;
          server_ip = none;
          assigned_ip6 = some ip;
          network6 = some net;
          server_ip6 = some gw;
          server_addrs = addrs;
        })
  unfolding with_server_addrs accepted_ipv6_only is_valid server_info triplet reason_or_unknown
  hear-accepted_ipv6_only ip net gw addrs trips =
      hear_lem (with_server_addrs (accepted_ipv6_only ip net gw) addrs) trips refl refl

  pub hear-accepted_dual_stack :
      (ip : ℕ) (net : Net4) (gw ip6 : ℕ) (net6 : Net6) (gw6 : ℕ) (addrs : List IpAddr)
      → RoundTrips codec (with_server_addrs (accepted_dual_stack ip net gw ip6 net6 gw6) addrs)
      → hear codec (with_server_addrs (accepted_dual_stack ip net gw ip6 net6 gw6) addrs)
        ≡ ok (record {
          assigned_ip = some ip;
          network = some net;
          server_ip = some gw;
          assigned_ip6 = some ip6;
          network6 = some net6;
          server_ip6 = some gw6;
          server_addrs = addrs;
        })
  unfolding with_server_addrs accepted_dual_stack is_valid server_info triplet reason_or_unknown
  hear-accepted_dual_stack ip net gw ip6 net6 gw6 addrs trips =
      hear_lem (with_server_addrs (accepted_dual_stack ip net gw ip6 net6 gw6) addrs) trips refl
        refl
