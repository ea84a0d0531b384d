-- ===== src/Config/Client.antt =====
-- src/config/file_config.rs: the configuration of a client, layered from defaults, its file and the
-- command line by `VpnClientConfigBuilder`, as `prepare_client_start` of src/main.rs does.
pub mod Built
pub mod Layers
use Prim.Native.String.{String}
use ezvpn.Prelude.{
  ℕ, Bool, true, false, ◌&&◌, ◌||◌, Option, none, some, List, [], ◌∷◌, is_some, is_none,
  if◌then◌else◌,
}
use ezvpn.Error.{Result, ok, err, reject_if, ◌>>=◌, ◌>>◌, config}
use ezvpn.Config.File.{
  Text, Role, vpn_client, Paths, expand_tilde, expand_some, list_or_default, check_role, section_of,
}

pub record VpnClientIrohConfig : Type 0 where
  pub server_node_id : Option Text
  pub relay_urls : Option (List Text)
  pub relay_auth_token : Option Text
  pub exclude_direct_paths : Option (List Text)

-- The file's `VpnClientConfig`, with the fields of its sections `network` and `auth`.
pub record ClientFile : Type 0 where
  pub role : Option Role
  pub routes : Option (List Text)
  pub routes6 : Option (List Text)
  pub auth_key_file : Option Text
  pub auto_reconnect : Option Bool
  pub max_reconnect_attempts : Option ℕ
  pub iroh : Option VpnClientIrohConfig

pub record VpnClientConfigBuilder : Type 0 where
  pub server_node_id : Option Text
  pub auth_key : Option Text
  pub auth_key_file : Option Text
  pub routes : Option (List Text)
  pub routes6 : Option (List Text)
  pub relay_urls : Option (List Text)
  pub relay_auth_token : Option Text
  pub exclude_direct_paths : Option (List Text)
  pub auto_reconnect : Option Bool
  pub max_reconnect_attempts : Option ℕ

-- The arguments of `apply_cli`.
pub record Cli : Type 0 where
  pub server_node_id : Option Text
  pub auth_key : Option Text
  pub auth_key_file : Option Text
  pub routes : List Text
  pub routes6 : List Text
  pub relay_urls : List Text
  pub relay_auth_token : Option Text
  pub exclude_direct_paths : List Text
  pub auto_reconnect : Option Bool
  pub max_reconnect_attempts : Option ℕ

pub record ResolvedVpnClientConfig (Net Relay : Type 0) : Type 0 where
  pub server_node_id : Text
  pub auth_key : Option Text
  pub auth_key_file : Option Text
  pub routes : List Text
  pub routes6 : List Text
  pub relay_config : Relay
  pub exclude_direct_paths : List Net
  pub auto_reconnect : Bool
  pub max_reconnect_attempts : Option ℕ

unfoldable pub new : VpnClientConfigBuilder
new = record {
  server_node_id = none;
  auth_key = none;
  auth_key_file = none;
  routes = none;
  routes6 = none;
  relay_urls = none;
  relay_auth_token = none;
  exclude_direct_paths = none;
  auto_reconnect = none;
  max_reconnect_attempts = none;
}

unfoldable pub apply_defaults : VpnClientConfigBuilder → VpnClientConfigBuilder
apply_defaults b = record b { routes = some []; routes6 = some []; relay_urls = some [] }

-- A value that is set replaces the one of the builder.
unfoldable pub replace : {A : Type 0} → Option A → Option A → Option A
replace given old = if is_some given then given else old

unfoldable pub replace_list : {A : Type 0} → List A → Option (List A) → Option (List A)
replace_list [] old = old
replace_list (x ∷ xs) old = some (x ∷ xs)

unfoldable pub apply_iroh :
    Option VpnClientIrohConfig → VpnClientConfigBuilder → VpnClientConfigBuilder
apply_iroh none b = b
apply_iroh (some iroh) b = record b {
  server_node_id = replace iroh.server_node_id b.server_node_id;
  relay_urls = replace iroh.relay_urls b.relay_urls;
  relay_auth_token = replace iroh.relay_auth_token b.relay_auth_token;
  exclude_direct_paths = replace iroh.exclude_direct_paths b.exclude_direct_paths;
}

unfoldable pub apply_config :
    Paths → Option ClientFile → VpnClientConfigBuilder → VpnClientConfigBuilder
unfolding apply_iroh
apply_config paths none b = b
apply_config paths (some cfg) b =
    let b' = apply_iroh cfg.iroh b in
    record b' {
      auth_key_file = replace (expand_some paths cfg.auth_key_file) b'.auth_key_file;
      routes = replace cfg.routes b'.routes;
      routes6 = replace cfg.routes6 b'.routes6;
      auto_reconnect = replace cfg.auto_reconnect b'.auto_reconnect;
      max_reconnect_attempts = replace cfg.max_reconnect_attempts b'.max_reconnect_attempts;
    }

-- The command line's keys win together.
unfoldable pub apply_cli : Cli → VpnClientConfigBuilder → VpnClientConfigBuilder
apply_cli cli b =
    let own = is_some cli.auth_key || is_some cli.auth_key_file in
    record {
      server_node_id = replace cli.server_node_id b.server_node_id;
      auth_key = if own then cli.auth_key else b.auth_key;
      auth_key_file = if own then cli.auth_key_file else b.auth_key_file;
      routes = replace_list cli.routes b.routes;
      routes6 = replace_list cli.routes6 b.routes6;
      relay_urls = replace_list cli.relay_urls b.relay_urls;
      relay_auth_token = replace cli.relay_auth_token b.relay_auth_token;
      exclude_direct_paths = replace_list cli.exclude_direct_paths b.exclude_direct_paths;
      auto_reconnect = replace cli.auto_reconnect b.auto_reconnect;
      max_reconnect_attempts = replace cli.max_reconnect_attempts b.max_reconnect_attempts;
    }

-- `--auto-reconnect` and `--no-auto-reconnect`; `none` is the panic of the assertion.
unfoldable pub reconnect_opt : Bool → Bool → Option (Option Bool)
reconnect_opt true false = some (some true)
reconnect_opt false true = some (some false)
reconnect_opt false false = some none
reconnect_opt true true = none

-- After the validation: `none` where the assertion on the flags panics.
flagged :
    {A : Type 0}
    → Result (Unit {0})
    → Option (Option Bool)
    → (Option Bool → Result A)
    → Option (Result A)
flagged (err problem) flags continue = some (err problem)
flagged (ok valid) none continue = none
flagged (ok valid) (some auto_reconnect) continue = some (continue auto_reconnect)

abbrev pub bool_or : Bool → Option Bool → Bool
bool_or d none = d
bool_or d (some b) = b

required : {A : Type 0} → Option A → String → Result A
required none message = err (config message)
required (some a) message = ok a

unfoldable pub each : (Text → Result (Unit {0})) → List Text → Result (Unit {0})
each check [] = ok tt
each check (text ∷ texts) = check text >> each check texts

unfoldable pub parse_all : {A : Type 0} → (Text → Option A) → List Text → Result (List A)
unfolding required
parse_all parse [] = ok []
parse_all parse (text ∷ texts) = do
  net ← required (parse text) "Invalid exclude_direct_paths CIDR"
  nets ← parse_all parse texts
  ok (net ∷ nets)

-- The checks of CIDRs, by the parsers of `ipnet::IpNet` and `ipnet::Ipv6Net`.
unfoldable pub validate_cidr : {Net : Type 0} → (Text → Option Net) → Text → Result (Unit {0})
validate_cidr parse_net cidr = reject_if (is_none (parse_net cidr)) (config "Invalid CIDR network")

unfoldable pub validate_ipv6_cidr :
    {Net6 : Type 0} → (Text → Option Net6) → Text → Result (Unit {0})
validate_ipv6_cidr parse_net6 cidr =
    reject_if (is_none (parse_net6 cidr)) (config "Invalid IPv6 CIDR")

module _ {Net Net6 : Type 0} (parse_net : Text → Option Net) (parse_net6 : Text → Option Net6) where
  -- `validate` of the file.
  unfoldable pub validate_client : ClientFile → Result (Unit {0})
  validate_client cfg = do
    check_role vpn_client cfg.role
    iroh ← section_of cfg.iroh
    reject_if (is_none iroh.server_node_id) (config "[iroh] 'server_node_id' is required")
    each (validate_cidr parse_net) (list_or_default cfg.routes)
    each (validate_ipv6_cidr parse_net6) (list_or_default cfg.routes6)

  module _ {Relay : Type 0} (relay : List Text → Option Text → Result Relay) where
    unfoldable pub build : VpnClientConfigBuilder → Result (ResolvedVpnClientConfig Net Relay)
    unfolding required
    build b = do
      server_node_id ← required b.server_node_id "Server node ID is required"
      each (validate_cidr parse_net) (list_or_default b.routes)
      each (validate_ipv6_cidr parse_net6) (list_or_default b.routes6)
      exclude_direct_paths ← parse_all parse_net (list_or_default b.exclude_direct_paths)
      reject_if (is_some b.auth_key && is_some b.auth_key_file)
          (config "Cannot specify both auth_key and auth_key_file")
      relay_config ← relay (list_or_default b.relay_urls) b.relay_auth_token
      ok record {
        server_node_id = server_node_id;
        auth_key = b.auth_key;
        auth_key_file = b.auth_key_file;
        routes = list_or_default b.routes;
        routes6 = list_or_default b.routes6;
        relay_config = relay_config;
        exclude_direct_paths = exclude_direct_paths;
        auto_reconnect = bool_or true b.auto_reconnect;
        max_reconnect_attempts = b.max_reconnect_attempts;
      }

    validate_some : Option ClientFile → Result (Unit {0})
    validate_some none = ok tt
    validate_some (some cfg) = validate_client cfg

    -- With the file, where one was read, the two flags, whose option replaces that of `cli`, and the
    -- answer of `ensure_tun_permission`.
    unfoldable pub prepare_client_start :
        Paths
        → Option ClientFile
        → Bool
        → Bool
        → Cli
        → Result (Unit {0})
        → Option (Result (ResolvedVpnClientConfig Net Relay))
    unfolding validate_some flagged
    prepare_client_start paths file auto_reconnect no_auto_reconnect cli permission =
        flagged (validate_some file) (reconnect_opt auto_reconnect no_auto_reconnect) (λ opt.
          permission
          >> build (
              apply_cli
                (record cli {
                  auth_key_file = expand_some paths cli.auth_key_file;
                  auto_reconnect = opt;
                })
                (apply_config paths file (apply_defaults new))))
