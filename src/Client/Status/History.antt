-- ===== src/Client/Status/History.antt =====
-- src/control.rs: the status of a client by what happened to it, newest first.
use Prim.Native.String.{String}
use mathlib.Core.Option
use ezvpn.Prelude.{
  ℕ, ◌-◌, ◌/◌, ◌≡◌, refl, ap, ◌∙◌, true, false, Option, none, some, List, [], ◌∷◌, arith,
}
use ezvpn.Client.Status.{
  ClientConnectedInfo, default_info, ReconnectState, default_reconnect, ConnectionSnapshot,
  ClientStateInner, ClientStatus, new, set_log_file, set_connected, set_disconnected,
  set_reconnecting, client_status, mode_of, snapshot, list_or_default,
}

module _ (Relay : Type 0) where
  pub record Session : Type 0 where
    pub since : ℕ
    pub info : ClientConnectedInfo
    pub connection : ConnectionSnapshot Relay
    pub bypass : Option (List String)

pub record Failure : Type 0 where
  pub failed_attempts : ℕ
  pub last_error : String
  pub next_attempt_at : ℕ

pub data Event (Relay : Type 0) : Type 0 where
  came_up : Session Relay → Event Relay
  went_down : Event Relay
  attempt_failed : Failure → Event Relay
  log_moved : Option String → Event Relay

abbrev reconnect_of : Option Failure → ReconnectState
reconnect_of none = default_reconnect
reconnect_of (some f) = record {
  failed_attempts = f.failed_attempts;
  last_error = some f.last_error;
  next_attempt_at = some f.next_attempt_at;
}

abbrev attempts : Option Failure → ℕ
attempts none = 0
attempts (some f) = f.failed_attempts

abbrev mode : Option String → Option String → String
mode none ip6 = "ipv6"
mode (some ip) (some ip6) = "dual-stack"
mode (some ip) none = "ipv4"

mode_of-mode :
    (info : ClientConnectedInfo) → mode_of true info ≡ mode info.assigned_ip info.assigned_ip6
unfolding mode_of
mode_of-mode info = ground arith

module _ {Relay : Type 0} where
  apply : Event Relay → ClientStateInner Relay → ClientStateInner Relay
  apply (came_up c) s = set_connected c.since c.info c.connection c.bypass s
  apply went_down s = set_disconnected s
  apply (attempt_failed f) s = set_reconnecting f.failed_attempts f.last_error f.next_attempt_at s
  apply (log_moved path) s = set_log_file path s

  unfoldable pub run : List (Event Relay) → ClientStateInner Relay → ClientStateInner Relay
  unfolding apply
  run [] s = s
  run (event ∷ history) s = apply event (run history s)

  -- The session that came up last, if it has not gone down.
  abbrev next_session : Event Relay → Option (Session Relay) → Option (Session Relay)
  next_session (came_up c) before = some c
  next_session went_down before = none
  next_session (attempt_failed f) before = before
  next_session (log_moved path) before = before

  -- The attempt that failed last, if no session came up since.
  abbrev next_failure : Event Relay → Option Failure → Option Failure
  next_failure (came_up c) before = none
  next_failure went_down before = before
  next_failure (attempt_failed f) before = some f
  next_failure (log_moved path) before = before

  abbrev next_log : Event Relay → Option String → Option String
  next_log (came_up c) before = before
  next_log went_down before = before
  next_log (attempt_failed f) before = before
  next_log (log_moved path) before = path

  abbrev pub session : List (Event Relay) → Option (Session Relay)
  session [] = none
  session (event ∷ history) = next_session event (session history)

  abbrev pub failure : List (Event Relay) → Option Failure
  failure [] = none
  failure (event ∷ history) = next_failure event (failure history)

  abbrev pub log_path : List (Event Relay) → Option String
  log_path [] = none
  log_path (event ∷ history) = next_log event (log_path history)

  module _ (instance_name server_node_id device_id : String) where
    abbrev state_of :
        Option (Session Relay) → Option Failure → Option String → ClientStateInner Relay
    state_of none f log = record {
      instance_name = instance_name;
      connected = false;
      server_node_id = server_node_id;
      device_id = device_id;
      connected_at = none;
      info = default_info;
      connection_probe = none;
      bypass_routes_probe = none;
      reconnect = reconnect_of f;
      log_file = log;
    }
    state_of (some c) f log = record {
      instance_name = instance_name;
      connected = true;
      server_node_id = server_node_id;
      device_id = device_id;
      connected_at = some c.since;
      info = c.info;
      connection_probe = some c.connection;
      bypass_routes_probe = c.bypass;
      reconnect = reconnect_of f;
      log_file = log;
    }

    -- A client with a session shows it, with its age; one without shows none of the fields of a
    -- session. The last failure shows until a session comes up.
    abbrev pub shown :
        ℕ → Option (Session Relay) → Option Failure → Option String → ClientStatus Relay
    shown now none f log = record {
      instance_name = instance_name;
      state = "disconnected";
      server_node_id = server_node_id;
      device_id = device_id;
      connected_since_secs = none;
      failed_attempts = attempts f;
      next_attempt_secs = Option.map (λ g. (g.next_attempt_at - now) / 1000) f;
      last_error = Option.map (λ g. g.last_error) f;
      mode = "none";
      assigned_ip = none;
      network = none;
      gateway = none;
      assigned_ip6 = none;
      network6 = none;
      gateway6 = none;
      mtu = none;
      routes = [];
      routes6 = [];
      connection = none;
      custom_relays = [];
      bypass_addrs = [];
      log_file = log;
    }
    shown now (some c) f log = record {
      instance_name = instance_name;
      state = "connected";
      server_node_id = server_node_id;
      device_id = device_id;
      connected_since_secs = some ((now - c.since) / 1000);
      failed_attempts = attempts f;
      next_attempt_secs = Option.map (λ g. (g.next_attempt_at - now) / 1000) f;
      last_error = Option.map (λ g. g.last_error) f;
      mode = mode c.info.assigned_ip c.info.assigned_ip6;
      assigned_ip = c.info.assigned_ip;
      network = c.info.network;
      gateway = c.info.gateway;
      assigned_ip6 = c.info.assigned_ip6;
      network6 = c.info.network6;
      gateway6 = c.info.gateway6;
      mtu = some c.info.mtu;
      routes = c.info.routes;
      routes6 = c.info.routes6;
      connection = some c.connection.description;
      custom_relays = c.connection.custom_relays;
      bypass_addrs = list_or_default c.bypass;
      log_file = log;
    }

    apply-state_of :
        (event : Event Relay) (c : Option (Session Relay)) (f : Option Failure)
        (log : Option String)
        → apply event (state_of c f log)
          ≡ state_of (next_session event c) (next_failure event f) (next_log event log)
    unfolding apply set_connected set_disconnected set_reconnecting set_log_file
    apply-state_of (came_up d) none f log = refl
    apply-state_of (came_up d) (some c) f log = refl
    apply-state_of went_down none f log = refl
    apply-state_of went_down (some c) f log = refl
    apply-state_of (attempt_failed g) none f log = refl
    apply-state_of (attempt_failed g) (some c) f log = refl
    apply-state_of (log_moved path) none f log = refl
    apply-state_of (log_moved path) (some c) f log = refl

    -- The state has no more to it than the history.
    run-state_of :
        (history : List (Event Relay))
        → run history (new instance_name server_node_id device_id)
          ≡ state_of (session history) (failure history) (log_path history)
    unfolding run new
    run-state_of [] = refl
    run-state_of (event ∷ history) =
        ap (apply event) (run-state_of history)
        ∙ apply-state_of event (session history) (failure history) (log_path history)

    snapshot-state_of :
        (now : ℕ) (c : Option (Session Relay)) (f : Option Failure) (log : Option String)
        → snapshot now (state_of c f log) ≡ shown now c f log
    unfolding snapshot client_status mode_of
    snapshot-state_of now none none log = refl
    snapshot-state_of now none (some f) log = refl
    snapshot-state_of now (some c) none log = rw (mode_of-mode c.info) refl
    snapshot-state_of now (some c) (some f) log = rw (mode_of-mode c.info) refl

    -- Whatever happened to a client, in whatever order, its status is that of the session that came up
    -- last, if it has not gone down, with the last failure, if no session came up since.
    pub snapshot-shown :
        (now : ℕ) (history : List (Event Relay))
        → snapshot now (run history (new instance_name server_node_id device_id))
          ≡ shown now (session history) (failure history) (log_path history)
    snapshot-shown now history =
        ap (snapshot now) (run-state_of history)
        ∙ snapshot-state_of now (session history) (failure history) (log_path history)
