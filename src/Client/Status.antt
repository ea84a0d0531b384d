-- ===== src/Client/Status.antt =====
-- src/control.rs: `ClientStatusHandle`, the state behind the status of a client, and the status that it
-- shows. An `Instant` is a number of milliseconds; a probe is the value that it would give.
pub mod History
use Prim.Native.String.{String}
use ezvpn.Prelude.{
  ℕ, ◌-◌, ◌/◌, Bool, true, false, Option, none, some, List, [], is_some, is_none, if◌then◌else◌,
}

pub record ClientConnectedInfo : Type 0 where
  pub assigned_ip : Option String
  pub network : Option String
  pub gateway : Option String
  pub assigned_ip6 : Option String
  pub network6 : Option String
  pub gateway6 : Option String
  pub mtu : ℕ
  pub routes : List String
  pub routes6 : List String

abbrev pub default_info : ClientConnectedInfo
default_info = record {
  assigned_ip = none;
  network = none;
  gateway = none;
  assigned_ip6 = none;
  network6 = none;
  gateway6 = none;
  mtu = 0;
  routes = [];
  routes6 = [];
}

pub record ReconnectState : Type 0 where
  pub failed_attempts : ℕ
  pub last_error : Option String
  pub next_attempt_at : Option ℕ

abbrev pub default_reconnect : ReconnectState
default_reconnect = record { failed_attempts = 0; last_error = none; next_attempt_at = none }

pub record ConnectionSnapshot (Relay : Type 0) : Type 0 where
  pub description : String
  pub custom_relays : List Relay

pub record ClientStateInner (Relay : Type 0) : Type 0 where
  pub instance_name : String
  pub connected : Bool
  pub server_node_id : String
  pub device_id : String
  pub connected_at : Option ℕ
  pub info : ClientConnectedInfo
  pub connection_probe : Option (ConnectionSnapshot Relay)
  pub bypass_routes_probe : Option (List String)
  pub reconnect : ReconnectState
  pub log_file : Option String

pub record ClientStatus (Relay : Type 0) : Type 0 where
  pub instance_name : String
  pub state : String
  pub server_node_id : String
  pub device_id : String
  pub connected_since_secs : Option ℕ
  pub failed_attempts : ℕ
  pub next_attempt_secs : Option ℕ
  pub last_error : Option String
  pub mode : String
  pub assigned_ip : Option String
  pub network : Option String
  pub gateway : Option String
  pub assigned_ip6 : Option String
  pub network6 : Option String
  pub gateway6 : Option String
  pub mtu : Option ℕ
  pub routes : List String
  pub routes6 : List String
  pub connection : Option String
  pub custom_relays : List Relay
  pub bypass_addrs : List String
  pub log_file : Option String

unfoldable pub mode_of : Bool → ClientConnectedInfo → String
mode_of connected info =
    if connected
    then (if is_none info.assigned_ip
        then "ipv6"
        else if is_some info.assigned_ip6
        then "dual-stack"
        else "ipv4")
    else "none"

unfoldable pub secs_since : ℕ → Option ℕ → Option ℕ
secs_since now none = none
secs_since now (some t) = some ((now - t) / 1000)

unfoldable pub secs_until : ℕ → Option ℕ → Option ℕ
secs_until now none = none
secs_until now (some at) = some ((at - now) / 1000)

unfoldable pub list_or_default : Option (List String) → List String
list_or_default none = []
list_or_default (some addrs) = addrs

module _ {Relay : Type 0} where
  -- With the device id as it is formatted.
  unfoldable pub new : String → String → String → ClientStateInner Relay
  new instance_name server_node_id device_id = record {
    instance_name = instance_name;
    connected = false;
    server_node_id = server_node_id;
    device_id = device_id;
    connected_at = none;
    info = default_info;
    connection_probe = none;
    bypass_routes_probe = none;
    reconnect = default_reconnect;
    log_file = none;
  }

  unfoldable pub set_log_file : Option String → ClientStateInner Relay → ClientStateInner Relay
  set_log_file path s = record s { log_file = path }

  unfoldable pub set_connected :
      ℕ
      → ClientConnectedInfo
      → ConnectionSnapshot Relay
      → Option (List String)
      → ClientStateInner Relay
      → ClientStateInner Relay
  set_connected now info connection bypass s = record s {
    connected = true;
    connected_at = some now;
    info = info;
    connection_probe = some connection;
    bypass_routes_probe = bypass;
    reconnect = default_reconnect;
  }

  unfoldable pub set_disconnected : ClientStateInner Relay → ClientStateInner Relay
  set_disconnected s = record s {
    connected = false;
    connected_at = none;
    info = default_info;
    connection_probe = none;
    bypass_routes_probe = none;
  }

  unfoldable pub set_reconnecting : ℕ → String → ℕ → ClientStateInner Relay → ClientStateInner Relay
  set_reconnecting failed_attempts last_error next_attempt_at s = record s {
    reconnect = record {
      failed_attempts = failed_attempts;
      last_error = some last_error;
      next_attempt_at = some next_attempt_at;
    };
  }

  -- The status at a time, and the probe.
  unfoldable pub client_status :
      ℕ → ClientStateInner Relay → ClientStatus Relay × Option (ConnectionSnapshot Relay)
  unfolding secs_since secs_until list_or_default
  client_status now s = (
    record {
      instance_name = s.instance_name;
      state = if s.connected then "connected" else "disconnected";
      server_node_id = s.server_node_id;
      device_id = s.device_id;
      connected_since_secs = secs_since now s.connected_at;
      failed_attempts = s.reconnect.failed_attempts;
      next_attempt_secs = secs_until now s.reconnect.next_attempt_at;
      last_error = s.reconnect.last_error;
      mode = mode_of s.connected s.info;
      assigned_ip = s.info.assigned_ip;
      network = s.info.network;
      gateway = s.info.gateway;
      assigned_ip6 = s.info.assigned_ip6;
      network6 = s.info.network6;
      gateway6 = s.info.gateway6;
      mtu = if s.connected then some s.info.mtu else none;
      routes = s.info.routes;
      routes6 = s.info.routes6;
      connection = none;
      custom_relays = [];
      bypass_addrs = list_or_default s.bypass_routes_probe;
      log_file = s.log_file;
    },
    s.connection_probe,
  )

  probed : ClientStatus Relay → Option (ConnectionSnapshot Relay) → ClientStatus Relay
  probed status none = status
  probed status (some c) = record status {
    connection = some c.description;
    custom_relays = c.custom_relays;
  }

  unfoldable pub snapshot : ℕ → ClientStateInner Relay → ClientStatus Relay
  unfolding probed
  snapshot now s = let (status, probe) = client_status now s in probed status probe

  unfoldable pub snapshot_without_connection : ℕ → ClientStateInner Relay → ClientStatus Relay
  snapshot_without_connection now s = (client_status now s).0

  unfoldable pub connection_snapshot : ClientStateInner Relay → Option (ConnectionSnapshot Relay)
  connection_snapshot s = s.connection_probe
