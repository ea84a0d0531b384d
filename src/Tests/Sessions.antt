-- ===== src/Tests/Sessions.antt =====
-- Connections to a server at concrete inputs.
use ezvpn.Prelude.{
  ℕ, ◌≡◌, ◌≢◌, ◌↔◌, ◌⊎◌, refl, true, false, Option, none, some, List, [], ◌∷◌, arith, ℕ_eq, pair_eq,
}
use ezvpn.Dict
use ezvpn.Error.{ok}
use ezvpn.IpNet.{ip4}
use ezvpn.Config.{sequential, validate_vpn_networks}
use ezvpn.Config.Laws.{IsWithin, FitsStrategy, valid_iff}
use ezvpn.Pool.V4
use ezvpn.Signaling.{Codec, VpnHandshakeResponse, accepted, with_server_addrs}
use ezvpn.Server.{
  Server, enter, is_full, assign, assign_ip, assign_ip6, both, then_ip6, respond, response_for,
  register,
}
use ezvpn.Server.Admission.{World, Reach, Counts, Reach-Counts, admit, turn_away, here, next}
use ezvpn.Server.Handshake.{Heard, CanSend, handshake_agrees}
use ezvpn.Server.Inbound.{ClientContext}
use ezvpn.Server.Queue.{
  ClientDatagramQueue, Charged, QueueOp, push, receive, finish, close, total_cost, run-Charged,
}
use ezvpn.Server.Queue
use ezvpn.Offload.{split_tun_frame}
use ezvpn.Server.Outbound.{IsFor, handle_frame, queued_iff}
use ezvpn.Server.Stats.{VpnServerStats}
use ezvpn.Tests.{net4, net6, crypto}
use ezvpn.Tests.Wire.{packet4}

abbrev pub server : Server ℕ ℕ ℕ
server = record {
  max_clients = 1;
  ip_pool = some (V4.new net4 5 none);
  ip6_pool = none;
  clients = [];
  ip_to_endpoint = [];
  ip6_to_endpoint = [];
  active_connections = 0;
  next_session_id = 4;
}

abbrev start : World ℕ ℕ ℕ
start = record { server = server; admitted = 0; turned_away = 0 }

-- One connection is admitted, and a second one finds the server full.
abbrev one_in : World ℕ ℕ ℕ
one_in = record { server = (enter server).1; admitted = 1; turned_away = 0 }

abbrev two_in : World ℕ ℕ ℕ
two_in = record { server = (enter (enter server).1).1; admitted = 1; turned_away = 1 }

two_in-Reach : Reach start two_in
unfolding enter is_full
two_in-Reach =
    next (next here (admit start refl (omega arith))) (turn_away one_in refl (omega arith))

start-Counts : Counts start
start-Counts = record { counted = refl; bounded = omega arith; small = omega arith }

Reach-Counts_example : Counts two_in
Reach-Counts_example = Reach-Counts start-Counts two_in-Reach

abbrev ips : Option ℕ × Option ℕ
ips = (some 22, none)

abbrev response : VpnHandshakeResponse ℕ ℕ
response = with_server_addrs (accepted 22 21 21) (ip4 3 ∷ [])

abbrev codec : Codec (VpnHandshakeResponse ℕ ℕ)
codec = record { to_vec = λ r. some (1 ∷ []); from_slice = λ bytes. some response }

server_sends : CanSend net4 net6 crypto codec (assign net6 crypto server 7 0).1 ips (ip4 3 ∷ [])
unfolding assign then_ip6 assign_ip assign_ip6 both respond response_for V4.new V4.allocate
    V4.next_unreserved_ip V4.next_loop V4.pop_released Dict.get Dict.insert
server_sends r h = (1 ∷ [], refl, h)

handshake_agrees_example :
    Heard net4 net6 crypto codec (assign net6 crypto server 7 0).1 ips (ip4 3 ∷ [])
unfolding assign then_ip6 assign_ip assign_ip6 both V4.new V4.allocate V4.next_unreserved_ip
    V4.next_loop V4.pop_released Dict.get Dict.insert
handshake_agrees_example =
    handshake_agrees net4 net6 crypto codec server 7 0 ips (ip4 3 ∷ []) server_sends refl

abbrev context : ClientContext ℕ
context = record {
  client_key = (7, 0);
  ip_to_endpoint = (167772161, (7, 0)) ∷ (5, (8, 0)) ∷ [];
  ip6_to_endpoint = [];
}

abbrev zero_stats : VpnServerStats
zero_stats = record {
  tun_packets_read = 0;
  packets_to_clients = 0;
  packets_no_route = 0;
  packets_unknown_version = 0;
  packets_dropped_full = 0;
  packets_from_clients = 0;
  packets_tun_write_failed = 0;
  packets_spoofed = 0;
  packets_inter_client_blocked = 0;
  packets_dropped_too_large = 0;
}

abbrev empty_queue : ClientDatagramQueue
empty_queue = record { channel = []; taken = []; queued_bytes = 0; is_open = true }

empty_queue-Charged : Charged empty_queue
unfolding total_cost
empty_queue-Charged = record { exact = refl; in_budget = omega arith }

abbrev queue_ops : List QueueOp
queue_ops = push packet4 ∷ push [] ∷ receive 1 ∷ finish ∷ close ∷ push [] ∷ []

run-Charged_example : Charged (Queue.run queue_ops empty_queue)
run-Charged_example = run-Charged queue_ops empty_queue empty_queue-Charged

abbrev key : ℕ × ℕ
key = (7, 0)

-- The server with a session of client 7, which holds the address that a packet is for.
abbrev connected : Server ℕ ℕ ℕ
connected = (register server key (some 167772162, none)).1

queued_iff_example :
    (handle_frame [] false connected packet4 zero_stats).0 ≡ some (key, (none, packet4))
    ↔ IsFor [] connected key packet4
unfolding split_tun_frame
queued_iff_example = queued_iff [] false connected packet4 zero_stats key (none, packet4) refl

abbrev a_network : Option ℕ
a_network = some 5

abbrev no_network : Option ℕ
no_network = none

valid_iff_example :
    (validate_vpn_networks net4 net6 a_network (some 21) no_network none sequential ≡ ok tt) ↔ (
      ((a_network ≢ none) ⊎ (no_network ≢ none))
      × IsWithin net4 (some 21) a_network
      × IsWithin net6 none no_network
      × FitsStrategy net6 sequential no_network none)
valid_iff_example = valid_iff net4 net6 a_network (some 21) no_network none sequential
