-- ===== src/Tests/Wire.antt =====
-- Packets, frames, messages and datagrams at concrete inputs.
use ezvpn.Prelude.{
  ℕ, ◌≡◌, refl, true, false, some, List, [], ◌∷◌, ◌++◌, map, arith, All, Bytes, to_be4, length,
  if◌then◌else◌, leb,
}
use ezvpn.Error.{VpnError, err, signaling, max_reconnect_attempts_exceeded, is_recoverable}
use ezvpn.IpNet.{IpAddr, ip4}
use ezvpn.Offload.{
  VirtioNetHdr, done, split_tun_frame, compose_tun_frame, is_tcp_gso, normalized_gso_type,
  has_checksum_metadata, to_bytes,
}
use ezvpn.Offload.Frames.{Carried, split-compose}
use ezvpn.Offload.Segments.{plan_tun_write_groups}
use ezvpn.Offload.Plan.{Planned, plan-Planned}
use ezvpn.Signaling.{Codec}
use ezvpn.Stream.Batch.{Connection, DatagramSendOutcome, queued, sent_one}
use ezvpn.Client.Bypass.{VpnRoutes, BypassRouteManager, has, needed, update, has-update}
use ezvpn.Tests.{net4, net6}
use ezvpn.Prelude.{Bool, ◌&&◌, ◌||◌}
use ezvpn.Client.Reconnect.{run_with_reconnect, gives_up, was_up}

abbrev pub header4 : Bytes
header4 = 69 ∷ 0 ∷ 0 ∷ 20 ∷ 0 ∷ 0 ∷ 0 ∷ 0 ∷ 64 ∷ 17 ∷ 0 ∷ 0 ∷ []

abbrev pub packet4 : Bytes
packet4 = header4 ++ (to_be4 167772161 ++ (to_be4 167772162 ++ (1 ∷ 2 ∷ [])))

abbrev header6 : Bytes
header6 = 96 ∷ 0 ∷ 0 ∷ 0 ∷ 0 ∷ 0 ∷ 6 ∷ 64 ∷ []

abbrev source6 : Bytes
source6 = 253 ∷ 0 ∷ 0 ∷ 0 ∷ 0 ∷ 0 ∷ 0 ∷ 0 ∷ 0 ∷ 0 ∷ 0 ∷ 0 ∷ 0 ∷ 0 ∷ 0 ∷ 1 ∷ []

abbrev dest6 : Bytes
dest6 = 253 ∷ 0 ∷ 0 ∷ 0 ∷ 0 ∷ 0 ∷ 0 ∷ 0 ∷ 0 ∷ 0 ∷ 0 ∷ 0 ∷ 0 ∷ 0 ∷ 0 ∷ 2 ∷ []

abbrev udp4 : Bytes
udp4 = header4 ++ (to_be4 1 ++ (to_be4 2 ++ (4 ∷ 0 ∷ 8 ∷ 0 ∷ 0 ∷ 8 ∷ 0 ∷ 0 ∷ [])))

abbrev gso : VirtioNetHdr
gso = record {
  flags = 1;
  gso_type = 1;
  hdr_len = 40;
  gso_size = 1400;
  csum_start = 20;
  csum_offset = 16;
  num_buffers = 0;
}

gso-Carried : Carried (some gso)
unfolding Carried is_tcp_gso normalized_gso_type has_checksum_metadata
gso-Carried = (
  record {
    hdr_len_lt = omega arith;
    gso_size_lt = omega arith;
    csum_start_lt = omega arith;
    csum_offset_lt = omega arith;
    no_buffers = refl;
  },
  λ _. refl,
  λ _. refl,
)

split-compose_example : split_tun_frame (to_bytes gso ++ packet4) true ≡ done (some gso, packet4)
unfolding compose_tun_frame
split-compose_example =
    split-compose true (some gso) packet4 (to_bytes gso ++ packet4) gso-Carried refl

-- A TCP segment of five bytes, from a sequence number.
abbrev segment : ℕ → Bytes
segment seq =
    69
    ∷ 0
    ∷ 0
    ∷ 45
    ∷ 0
    ∷ 0
    ∷ 0
    ∷ 0
    ∷ 64
    ∷ 6
    ∷ 0
    ∷ 0
    ∷ 10
    ∷ 0
    ∷ 0
    ∷ 1
    ∷ 10
    ∷ 0
    ∷ 0
    ∷ 2
    ∷ 4
    ∷ 0
    ∷ 8
    ∷ 0
    ∷ (to_be4 seq ++ (0 ∷ 0 ∷ 0 ∷ 7 ∷ 80 ∷ 16 ∷ 1 ∷ 0 ∷ 0 ∷ 0 ∷ 0 ∷ 0 ∷ 1 ∷ 2 ∷ 3 ∷ 4 ∷ 5 ∷ []))

abbrev segments : List Bytes
segments = segment 100 ∷ segment 105 ∷ packet4 ∷ []

plan-Planned_example : Planned 0 segments (plan_tun_write_groups segments)
plan-Planned_example = plan-Planned segments

abbrev two_addrs : List IpAddr
two_addrs = ip4 1 ∷ ip4 2 ∷ []

abbrev addrs_codec : Codec (List IpAddr)
addrs_codec = record { to_vec = λ a. some (1 ∷ 2 ∷ []); from_slice = λ b. some two_addrs }

-- A connection that queues one datagram at a time.
abbrev one_at_a_time : Connection (Unit {0})
one_at_a_time = record {
  try_send_many_datagrams = λ c ds. (queued (if leb 1 (length ds) then 1 else 0), c);
  send_datagram_wait = λ c d. (sent_one, c);
}

abbrev zero_outcome : DatagramSendOutcome
zero_outcome = record { sent = 0; dropped_too_large = 0; dropped_other = 0 }

abbrev errors : List VpnError
errors = signaling "relay" ∷ signaling "relay" ∷ []

errors-Transient : All (λ e. (is_recoverable e ≡ true) × (was_up e ≡ false)) errors
unfolding is_recoverable was_up
errors-Transient = ((refl, refl), ((refl, refl), tt))

gives_up_example :
    (run_with_reconnect (some 1) 0 (map err errors)).0
    ≡ some (err (max_reconnect_attempts_exceeded 1))
gives_up_example = gives_up 1 errors (omega arith) errors-Transient

abbrev vpn_routes : VpnRoutes ℕ ℕ
vpn_routes = record { vpn_routes4 = 5 ∷ []; vpn_routes6 = [] }

abbrev no_routes : BypassRouteManager
no_routes = record { active_routes = []; collected = [] }

-- One address that a route covers, and one that none does.
abbrev underlay : List IpAddr
underlay = ip4 22 ∷ ip4 50 ∷ []

abbrev always : IpAddr → Bool
always ip = true

has-update_example :
    (has (ip4 22) (update net4 net6 vpn_routes always underlay no_routes).active_routes ≡ (
      has (ip4 22) [] || (has (ip4 22) underlay && needed net4 net6 vpn_routes (ip4 22) && true)))
    × (has (ip4 22) (update net4 net6 vpn_routes always underlay no_routes).collected
        ≡ (has (ip4 22) [] || (has (ip4 22) underlay && needed net4 net6 vpn_routes (ip4 22))))
has-update_example = has-update net4 net6 vpn_routes always underlay no_routes (ip4 22)
