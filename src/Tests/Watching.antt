-- ===== src/Tests/Watching.antt =====
-- The status of a client, the heartbeat and the server's candidate addresses, at concrete values.
use ezvpn.Prelude.{
  ◌≡◌, refl, ℕ, ◌+◌, true, none, some, List, [], ◌∷◌, ◌++◌, arith, keep_if, Mem, ◌↔◌,
}
use ezvpn.Tests
use ezvpn.IpNet.{IpAddr, ip4, ip6}
use ezvpn.Client.Bypass.{ip_beq}
use ezvpn.Server.Candidates.{
  is_routable_underlay, sort_unstable, dedup, ip_in_overlay, server_candidate_addrs,
}
use ezvpn.Server.Candidates.Outside.{IsRoutable, IsOutside}
use ezvpn.Server.Candidates.Sorted.{IsSorted, candidates-IsSorted}
use ezvpn.Client.Status.{default_info, new, snapshot}
use ezvpn.Client.Status.History.{
  Event, came_up, went_down, attempt_failed, log_moved, run, session, failure, log_path, shown,
  snapshot-shown,
}
use ezvpn.Stream.Control.{
  ping_type, pong_type, from_byte, as_byte, encode_heartbeat_frame, classify,
}
use ezvpn.Heartbeat.{
  heartbeat_timeout, running, timed_out, run_heartbeat, Arrival, body, finished, stream_finished,
  responder_loop, run_heartbeat_responder,
}
use ezvpn.Heartbeat.Silence.{answered, unanswered, last_reply, heartbeat_ends}
use ezvpn.Heartbeat.Ignored.{counts, responder-keep_if}

-- A session that came up, went down, and one failure since.
abbrev history : List (Event ℕ)
history =
    attempt_failed (record { failed_attempts = 1; last_error = "lost"; next_attempt_at = 9000 })
    ∷ went_down
    ∷ came_up (record {
      since = 1000;
      info = default_info;
      connection = record { description = "direct"; custom_relays = [] };
      bypass = none;
    })
    ∷ log_moved (some "log")
    ∷ []

snapshot-shown_example :
    snapshot 4000 (run history (new "default" "server" "0007"))
    ≡ shown "default" "server" "0007" 4000 (session history) (failure history) (log_path history)
snapshot-shown_example = snapshot-shown "default" "server" "0007" 4000 history

next_attempt :
    (shown {Relay = ℕ} "default" "server" "0007" 4000
      (session history)
      (failure history)
      (log_path history)).next_attempt_secs
    ≡ some 5
next_attempt = refl

heartbeat_ends_example :
    (run_heartbeat (λ t. true) (answered 0 (20 ∷ 5000 ∷ [])) ≡ (running, 2))
    × ((run_heartbeat (λ t. true) (answered 0 (20 ∷ 5000 ∷ []) ++ unanswered 2 5)).0
        ≡ timed_out (last_reply 0 0 (20 ∷ 5000 ∷ []) + heartbeat_timeout))
heartbeat_ends_example = heartbeat_ends (λ t. true) (20 ∷ 5000 ∷ []) 5 (omega arith) (omega arith)

-- A ping, a pong that does not count, and the end of the stream.
abbrev arrivals : List (ℕ × Arrival)
arrivals =
    (100, body true (as_byte ping_type ∷ 0 ∷ 0 ∷ 0 ∷ 0 ∷ 0 ∷ 0 ∷ 0 ∷ 1 ∷ []))
    ∷ (30050, body true (as_byte pong_type ∷ 0 ∷ 0 ∷ 0 ∷ 0 ∷ 0 ∷ 0 ∷ 0 ∷ 9 ∷ []))
    ∷ []

responder-keep_if_example :
    run_heartbeat_responder (arrivals ++ (30100, finished) ∷ [])
    ≡ run_heartbeat_responder (keep_if counts arrivals ++ (30100, finished) ∷ [])
responder-keep_if_example = responder-keep_if arrivals (30100, finished) (omega arith)

responded :
    run_heartbeat_responder (arrivals ++ (30100, finished) ∷ [])
    ≡ (some (30100, stream_finished), encode_heartbeat_frame pong_type 1 ∷ [])
unfolding run_heartbeat_responder responder_loop classify from_byte as_byte
responded = refl

-- Of two networks' addresses, the loopback and the overlay's are left out.
abbrev endpoint_addrs : List IpAddr
endpoint_addrs = ip6 9 ∷ ip4 21 ∷ ip4 90 ∷ ip6 1 ∷ ip4 77 ∷ ip4 90 ∷ []

candidates-IsSorted_example :
    IsSorted (server_candidate_addrs Tests.net4 Tests.net6 endpoint_addrs (some 5) none)
    × ((ip : IpAddr)
        → Mem ip (server_candidate_addrs Tests.net4 Tests.net6 endpoint_addrs (some 5) none) ↔ (
            Mem ip endpoint_addrs
            × IsRoutable ip
            × IsOutside Tests.net4 Tests.net6 (some 5) none ip))
candidates-IsSorted_example = candidates-IsSorted Tests.net4 Tests.net6 endpoint_addrs (some 5) none

candidates :
    server_candidate_addrs Tests.net4 Tests.net6 endpoint_addrs (some 5) none
    ≡ ip4 77 ∷ ip4 90 ∷ ip6 9 ∷ []
unfolding server_candidate_addrs is_routable_underlay sort_unstable dedup ip_in_overlay ip_beq
candidates = refl
