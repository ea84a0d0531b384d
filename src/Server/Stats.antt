-- ===== src/Server/Stats.antt =====
-- src/tunnel/server.rs: the counters of `VpnServerStats`, each a `u64` that wraps.
use ezvpn.Prelude.{ℕ, ◌+◌, ◌%◌}
use ezvpn.Server.{u64_mod}

pub record VpnServerStats : Type 0 where
  pub tun_packets_read : ℕ
  pub packets_to_clients : ℕ
  pub packets_no_route : ℕ
  pub packets_unknown_version : ℕ
  pub packets_dropped_full : ℕ
  pub packets_from_clients : ℕ
  pub packets_tun_write_failed : ℕ
  pub packets_spoofed : ℕ
  pub packets_inter_client_blocked : ℕ
  pub packets_dropped_too_large : ℕ

unfoldable pub add : ℕ → ℕ → ℕ
add counter n = (counter + n) % u64_mod
