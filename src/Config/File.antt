-- ===== src/Config/File.antt =====
-- src/config/file_config.rs: the configuration file of a server, its validation and its resolution, and
-- in src/main.rs what `run_vpn_server` makes of it. A text is a list of character codes. Parameters are
-- the parsers of ipnet and of the standard library, and the relay configuration.
pub mod Resolved
use Prim.Native.String.{String}
use ezvpn.Prelude.{
  ℕ, Bool, true, false, Option, none, some, List, [], ◌∷◌, nat_eq, is_some, is_none, if◌then◌else◌,
}
use ezvpn.IpNet.{IpNetOps}
use ezvpn.Error.{Result, ok, err, reject_if, ◌>>=◌, ◌>>◌, config}
use ezvpn.Config.{Ip6Strategy, validate_vpn_networks}

abbrev pub Text : Type 0
Text = List ℕ

pub data Role : Type 0 where
  vpn_server vpn_client : Role

pub record ServerNetworkConfig : Type 0 where
  pub network : Option Text
  pub server_ip : Option Text
  pub network6 : Option Text
  pub server_ip6 : Option Text
  pub ip6_strategy : Ip6Strategy

pub record VpnServerIrohConfig : Type 0 where
  pub secret_file : Option Text
  pub relay_urls : Option (List Text)
  pub relay_auth_token : Option Text

-- The file's `VpnServerConfig`, with the one field of its section `auth`.
pub record ServerFile : Type 0 where
  pub role : Option Role
  pub network : ServerNetworkConfig
  pub authorized_keys_file : Option Text
  pub iroh : Option VpnServerIrohConfig

pub record ResolvedVpnServerConfig (Relay : Type 0) : Type 0 where
  pub network : Option Text
  pub server_ip : Option Text
  pub network6 : Option Text
  pub server_ip6 : Option Text
  pub ip6_strategy : Ip6Strategy
  pub secret_file : Option Text
  pub relay_config : Relay
  pub authorized_keys_file : Option Text

-- `VpnServerConfig` of src/config/mod.rs.
pub record VpnServerConfig (Net4 Net6 Keys : Type 0) : Type 0 where
  pub network : Option Net4
  pub network6 : Option Net6
  pub server_ip : Option ℕ
  pub server_ip6 : Option ℕ
  pub ip6_strategy : Ip6Strategy
  pub max_clients : ℕ
  pub authorized_keys : Keys

-- The home directory, and `Path::join`.
pub record Paths : Type 0 where
  pub home : Option Text
  pub join : Text → Text → Text

in_home : Paths → Text → Option Text → Text
in_home paths path none = path
in_home paths path (some home) = home

joined_home : Paths → Text → Text → Option Text → Text
joined_home paths path stripped none = path
joined_home paths path stripped (some home) = paths.join home stripped

-- Behind a `~`: a `/` and more, or nothing.
after_tilde : Paths → Text → Text → Text
unfolding in_home joined_home
after_tilde paths path [] = in_home paths path paths.home
after_tilde paths path (c ∷ stripped) =
    if nat_eq c b'/' then joined_home paths path stripped paths.home else path

unfoldable pub expand_tilde : Paths → Text → Text
unfolding after_tilde
expand_tilde paths [] = []
expand_tilde paths (c ∷ cs) = if nat_eq c b'~' then after_tilde paths (c ∷ cs) cs else c ∷ cs

abbrev pub expand_some : Paths → Option Text → Option Text
expand_some paths none = none
expand_some paths (some path) = some (expand_tilde paths path)

abbrev pub list_or_default : Option (List Text) → List Text
list_or_default none = []
list_or_default (some texts) = texts

pub record Parsers (Net4 Net6 : Type 0) : Type 0 where
  pub parse_net4 : Text → Option Net4
  pub parse_net6 : Text → Option Net6
  pub parse_ip4 : Text → Option ℕ
  pub parse_ip6 : Text → Option ℕ

parsed : {A : Type 0} → Option A → String → Result (Option A)
parsed none message = err (config message)
parsed (some a) message = ok (some a)

unfoldable pub parse_some :
    {A : Type 0} → (Text → Option A) → String → Option Text → Result (Option A)
unfolding parsed
parse_some parse message none = ok none
parse_some parse message (some text) = parsed (parse text) message

-- The role and the section `iroh` that a file needs.
unfoldable pub check_role : Role → Option Role → Result (Unit {0})
check_role role none = err (config "Config file missing required 'role' field")
check_role vpn_server (some vpn_server) = ok tt
check_role vpn_server (some vpn_client) = err (config "Config file has wrong role for server")
check_role vpn_client (some vpn_client) = ok tt
check_role vpn_client (some vpn_server) = err (config "Config file has wrong role for client")

unfoldable pub section_of : {A : Type 0} → Option A → Result A
section_of none = err (config "Config file missing required [iroh] section")
section_of (some section) = ok section

module _ {Net4 Net6 : Type 0} (ops4 : IpNetOps Net4) (ops6 : IpNetOps Net6)
    (p : Parsers Net4 Net6) where
  -- The file's `validate_vpn_networks`.
  unfoldable pub validate_network_texts : ServerNetworkConfig → Result (Unit {0})
  validate_network_texts net = do
    network ← parse_some p.parse_net4 "Invalid network CIDR" net.network
    server_ip ← parse_some p.parse_ip4 "Invalid server_ip" net.server_ip
    network6 ← parse_some p.parse_net6 "Invalid network6 CIDR" net.network6
    server_ip6 ← parse_some p.parse_ip6 "Invalid server_ip6" net.server_ip6
    validate_vpn_networks ops4 ops6 network server_ip network6 server_ip6 net.ip6_strategy

  -- The checks that `validate` and `from_config` share.
  unfoldable pub check_server : VpnServerIrohConfig → ServerFile → Result (Unit {0})
  check_server iroh cfg = do
    reject_if (is_none iroh.secret_file) (config "[iroh] 'secret_file' is required")
    reject_if (is_none cfg.authorized_keys_file)
        (config "[auth] 'authorized_keys_file' is required")
    validate_network_texts cfg.network

  unfoldable pub validate_server : ServerFile → Result (Unit {0})
  validate_server cfg = do
    check_role vpn_server cfg.role
    iroh ← section_of cfg.iroh
    check_server iroh cfg

  module _ {Relay : Type 0} (relay : List Text → Option Text → Result Relay) (paths : Paths) where
    unfoldable pub from_config : ServerFile → Result (ResolvedVpnServerConfig Relay)
    from_config cfg = do
      iroh ← section_of cfg.iroh
      check_server iroh cfg
      relay_config ← relay (list_or_default iroh.relay_urls) iroh.relay_auth_token
      ok record {
        network = cfg.network.network;
        server_ip = cfg.network.server_ip;
        network6 = cfg.network.network6;
        server_ip6 = cfg.network.server_ip6;
        ip6_strategy = cfg.network.ip6_strategy;
        secret_file = iroh.secret_file;
        relay_config = relay_config;
        authorized_keys_file = expand_some paths cfg.authorized_keys_file;
      }

-- `VpnServerConfig::validate`
unfoldable pub validate_config :
    {Net4 Net6 Keys : Type 0}
    → IpNetOps Net4
    → IpNetOps Net6
    → VpnServerConfig Net4 Net6 Keys
    → Result (Unit {0})
validate_config ops4 ops6 c =
    validate_vpn_networks ops4 ops6 c.network c.server_ip c.network6 c.server_ip6 c.ip6_strategy

load_keys : {Keys : Type 0} → (Text → Result Keys) → Option Text → Result Keys
load_keys load none = err (config "VPN server requires authorized client keys")
load_keys load (some path) = load path

module _ {Net4 Net6 Keys Relay : Type 0} (p : Parsers Net4 Net6) (load : Text → Result Keys)
    (is_empty : Keys → Bool) where
  -- The configuration that `run_vpn_server` creates a `VpnServer` of, once the secret key is loaded.
  unfoldable pub server_config :
      ResolvedVpnServerConfig Relay → Result (VpnServerConfig Net4 Net6 Keys)
  unfolding load_keys
  server_config resolved = do
    network ← parse_some p.parse_net4 "Invalid VPN network CIDR" resolved.network
    server_ip ← parse_some p.parse_ip4 "Invalid server IP address" resolved.server_ip
    network6 ← parse_some p.parse_net6 "Invalid IPv6 VPN network CIDR" resolved.network6
    server_ip6 ← parse_some p.parse_ip6 "Invalid server IPv6 address" resolved.server_ip6
    authorized_keys ← load_keys load resolved.authorized_keys_file
    reject_if (is_empty authorized_keys) (config "VPN server requires authorized client keys")
    reject_if (is_none resolved.secret_file) (config "VPN server requires a secret key file")
    ok record {
      network = network;
      network6 = network6;
      server_ip = server_ip;
      server_ip6 = server_ip6;
      ip6_strategy = resolved.ip6_strategy;
      max_clients = 254;
      authorized_keys = authorized_keys;
    }
