-- ===== src/Lib.antt =====
-- ezvpn, a VPN over QUIC connections of the library iroh: the server's address pools, sessions and
-- packet filters, the client's reconnects, and the formats the two share.
--
-- The server (src/tunnel/server.rs) lends each client, a pair of an endpoint id and a device id, an
-- IPv4 and an IPv6 address, says so in the response to its handshake, and keeps maps from clients to
-- their sessions and from addresses to clients. Packets of a client arrive as datagrams and are
-- written to the TUN device, if the filters let them pass. The client (src/tunnel/client.rs)
-- connects, configures what the response assigns, and reconnects when a connection is lost. Both
-- read and write frames of their TUN devices (src/tunnel/offload.rs), messages of the handshake
-- (src/tunnel/signaling.rs), and frames of the control stream and datagrams (src/tunnel/stream.rs).
--
-- The files, and the code they are about:
--   Prelude, Dict: tests, lists, bytes and maps, that the others share.
--   IpNet: the prefixes of the crate ipnet and their documented laws, a parameter.
--   Error: src/error.rs, the kinds of errors and is_recoverable.
--   Config: src/config/mod.rs, validate_vpn_networks and validate_ip6_strategy. Config.File: the
--     server's side of src/config/file_config.rs (validate, from_config), with run_vpn_server of
--     src/main.rs up to the configuration that it makes; Config.Client: VpnClientConfigBuilder, as
--     prepare_client_start of src/main.rs uses it.
--   Pool.V4, Pool.V6: IpPool and Ip6Pool of src/tunnel/server.rs (new, allocate, release); the
--     histories of Pool.History are sequences of allocate and release.
--   Packet: extract_source_ip, extract_dest_ip and extract_udp_ports of src/tunnel/server.rs.
--   Signaling: src/tunnel/signaling.rs; Signaling.Framing: write_message and read_message;
--     Signaling.Agreement: the response in perform_handshake of src/tunnel/client.rs.
--   Server: VpnServer of src/tunnel/server.rs, with the parts of handle_connection and
--     handle_connection_inner that change its state, one definition for each step. Server.Admission
--     has the count of connections as a step relation, Server.Sessions the end of a session and its
--     race with a reconnect, Server.Handshake the assignment that the client hears of.
--   Server.Entry: verify_client_auth, and handle_connection around handle_connection_inner, which
--     Server.Life has as a whole.
--   Server.Candidates: server_candidate_addrs, with its filters.
--   Server.Queue: ClientDatagramQueue and its receiver; Server.Stats: the counters.
--   Server.Inbound: the loop of handle_client_data, and enqueue_tun_write.
--   Server.Outbound: run_tun_reader, up to the client that a packet is queued for; Server.Queueing:
--     queue_client_datagrams.
--   Offload: the virtio header, split_tun_frame and compose_tun_frame of src/tunnel/offload.rs;
--     Offload.Segments: parse_coalescible_tcp, can_chain and plan_tun_write_groups;
--     Offload.Checksum: add_bytes, fold_checksum and finalize_checksum; Offload.Fields: the lengths and
--     checksums of a packet; Offload.Superframe: assemble_tcp_gso_superframe;
--     Offload.Segmentation: segment_tcp_gso_into; Offload.Materialize: materialize_offload_into.
--   Stream.Control: the frames of the control stream; Stream.Batch: send_datagram_batch;
--     Stream.Prepare: prepare_ip_datagrams.
--   Client.Reconnect: run_with_reconnect and calculate_backoff_with_rng of src/tunnel/client.rs;
--     Client.Bypass: BypassRouteManager and overlapping_underlay_excludes; Client.Params:
--     check_params_against.
--   Client.Status: ClientStatusHandle of src/control.rs; its histories are sequences of the updates.
--   Heartbeat: run_heartbeat of src/tunnel/client.rs and run_heartbeat_responder of
--     src/tunnel/server.rs, over events with their times.
--   Daemon: drain_to_capped_log of src/main.rs.
--   Transport.PathSelector: src/transport/path_selector.rs, ExcludingPathSelector::choose.
--   Net.LocalNetworks: src/net/local_networks.rs, split_tunnel_conflict. Of src/net/device.rs,
--     Net.TunWriter: write_packet and write_batch; Net.Routes: add_routes and the guard of the routes;
--     Net.BypassRoute: parse_linux_route_get, resolve_bypass_route_info and add_bypass_route on Linux.
--   Tests: concrete parameters, and each theorem at a concrete input.
--
-- Numbers are natural numbers; where the source's integers can wrap or saturate, the definitions
-- say so (2 ^ 32 and 2 ^ 128 for addresses, 2 ^ 64 for counters). Addresses are numbers, bytes are
-- numbers that need not be below 256 where that is not used. A vector used as a stack is a list
-- whose head is its end. Messages of errors keep their constant text.
--
-- Five loops have fuel: fold_rounds gets three rounds, after which a u32 is below 2 ^ 16; next_loop
-- gets one round more than there are addresses left, plan_from a round for each packet, batch_from
-- a round for each datagram, and segment_loop a round for each byte of payload. Each round of these
-- takes one at least, so that none of them runs out.
--
-- Parameters are: the networks of ipnet, the parsers of networks and addresses, the ids and the
-- digest of an endpoint, the keys and signatures of clients, the JSON codec, the answers of the
-- TUN channel and of the connection, the delivery of a response and what happens while a client is
-- served, the writes of the device, the routing table and the file system, the paths of the
-- transport and the relays, the interfaces of the host and the callback of the segmentation. Times
-- are in milliseconds and given with the events. Not modelled are: the tasks and timers around
-- these operations, the files of keys, the set-up of devices and the routes of each platform but
-- Linux, the reading of TOML, the control socket and the entry points.
pub mod Prelude
pub mod Dict
pub mod IpNet
pub mod Pool
pub mod Error
pub mod Config
pub mod Packet
pub mod Signaling
pub mod Server
pub mod Offload
pub mod Stream
pub mod Client
pub mod Transport
pub mod Net
pub mod Daemon
pub mod Heartbeat
mod Tests
