-- ===== src/Tests/Queueing.antt =====
-- Packets of the TUN device on their way to a client, and packets written to it, at concrete values.
use ezvpn.Prelude.{Bytes, List, ◌∷◌, ◌≡◌, refl, some, [], length, arith, true}
use ezvpn.Offload.{is_tcp_gso, needs_checksum, normalized_gso_type}
use ezvpn.Offload.Checksum.{add_bytes, fold_checksum, finalize_checksum}
use ezvpn.Offload.Fields.{update_ipv4_lengths_and_checksum, tcp_checksum_ipv4}
use ezvpn.Offload.Materialize.{materialize_offload_into}
use ezvpn.Stream.Batch.{prepare_one_datagram}
use ezvpn.Stream.Prepare.{
  Prepared, Adds, plain_packets, prepare_ip_datagrams, prepare_ip_datagrams-Adds,
}
use ezvpn.Server.Queue.{ClientDatagramQueue, Charged, total_cost}
use ezvpn.Server.Queueing.{Due, Extends, queue_client_datagrams, queue_client_datagrams-Extends}
use ezvpn.Server.Stats.{VpnServerStats}
use ezvpn.Offload.Segmentation.{
  layout_of, checked_version, tcp_offset_of, headers_of, build_segment, with_tcp_fields,
  with_lengths, with_tcp_checksum, middle_flags, segment_loop, segment_tcp_gso_into,
}
use ezvpn.Error.{ok}
use ezvpn.Net.TunWriter.{write_batch}
use ezvpn.Net.TunWriter.Batch.{Carries, record_frame, with_offload, write_batch-Carries}
use ezvpn.Tests.Offloading.{packet, gso_of_two, first_segment, second_segment}

abbrev nothing_sent : Prepared
nothing_sent = ([], record { sent = 0; dropped_too_large = 0; dropped_other = 0 })

prepare_ip_datagrams-Adds_example :
    Adds 41
      (plain_packets (some gso_of_two) packet)
      nothing_sent
      (prepare_ip_datagrams (some 41) (some gso_of_two) packet nothing_sent)
prepare_ip_datagrams-Adds_example =
    prepare_ip_datagrams-Adds 41 (some gso_of_two) packet nothing_sent (omega arith)

-- Of the three packets one fits.
one_fits : length (prepare_ip_datagrams (some 41) (some gso_of_two) packet nothing_sent).0 ≡ 1
unfolding prepare_ip_datagrams prepare_one_datagram materialize_offload_into segment_tcp_gso_into
    segment_loop build_segment with_tcp_fields with_lengths with_tcp_checksum middle_flags
    update_ipv4_lengths_and_checksum tcp_checksum_ipv4 add_bytes fold_checksum finalize_checksum
    layout_of checked_version tcp_offset_of headers_of is_tcp_gso needs_checksum normalized_gso_type
one_fits = refl

abbrev empty_queue : ClientDatagramQueue
empty_queue = record { channel = []; taken = []; queued_bytes = 0; is_open = true }

empty_queue-Charged : Charged empty_queue
unfolding total_cost
empty_queue-Charged = record { exact = refl; in_budget = omega arith }

abbrev no_stats : VpnServerStats
no_stats = record {
  tun_packets_read = 0;
  packets_to_clients = 0;
  packets_no_route = 0;
  packets_unknown_version = 0;
  packets_dropped_full = 0;
  packets_from_clients = 0;
  packets_tun_write_failed = 0;
  packets_spoofed = 0;
  packets_inter_client_blocked = 0;
  packets_dropped_too_large = 0;
}

queue_client_datagrams-Extends_example :
    Extends
      (Due 1200 (plain_packets (some gso_of_two) packet))
      empty_queue
      (queue_client_datagrams (some 1200) empty_queue (some gso_of_two) packet no_stats).0
    × Charged (queue_client_datagrams (some 1200) empty_queue (some gso_of_two) packet no_stats).0
queue_client_datagrams-Extends_example =
    queue_client_datagrams-Extends 1200 empty_queue (some gso_of_two) packet no_stats
      empty_queue-Charged

-- Two segments that are joined, and a packet that is not.
write_batch-Carries_example :
    (frames : List Bytes) × (write_batch record_frame with_offload
        (first_segment ∷ second_segment ∷ packet ∷ [])
        []
      ≡ (frames, ok tt))
    × Carries (first_segment ∷ second_segment ∷ packet ∷ []) frames
write_batch-Carries_example =
    write_batch-Carries (first_segment ∷ second_segment ∷ packet ∷ [])
      (omega arith, (omega arith, (omega arith, tt)))
