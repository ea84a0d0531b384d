-- ===== src/Tests/Configuring.antt =====
-- Configuration files at concrete values. A text parses to its first code.
use ezvpn.Prelude.{
  ◌≡◌, refl, ℕ, Bool, true, false, Option, none, some, List, [], ◌∷◌, some_injective,
}
use ezvpn.Error.{Result, ok}
use ezvpn.Tests
use ezvpn.Config.{sequential, validate_vpn_networks, validate_ip6_strategy}
use ezvpn.Config.File.{
  Text, vpn_server, vpn_client, ServerFile, Paths, Parsers, expand_tilde, parse_some, check_role,
  section_of, check_server, validate_network_texts, validate_server,
}
use ezvpn.Config.File.Resolved.{Starts, validated-Starts}
use ezvpn.Config.Client.{
  ClientFile, Cli, ResolvedVpnClientConfig, new, apply_defaults, replace, replace_list, apply_iroh,
  apply_config, apply_cli, each, parse_all, validate_cidr, validate_ipv6_cidr, validate_client,
  build, reconnect_opt, prepare_client_start,
}
use ezvpn.Config.Client.Layers.{IsFlag, Prepared, prepare-Prepared}

abbrev first_code : Text → Option ℕ
first_code [] = none
first_code (c ∷ cs) = some c

abbrev parsers : Parsers ℕ ℕ
parsers = record {
  parse_net4 = first_code;
  parse_net6 = first_code;
  parse_ip4 = first_code;
  parse_ip6 = first_code;
}

abbrev relay : List Text → Option Text → Result ℕ
relay urls token = ok 0

abbrev load : Text → Result Text
load path = ok path

abbrev is_empty : Text → Bool
is_empty [] = true
is_empty (c ∷ cs) = false

abbrev paths : Paths
paths = record { home = some (b'h' ∷ []); join = λ a b. b }

-- `~/k` is the file of keys.
abbrev server_file : ServerFile
server_file = record {
  role = some vpn_server;
  network = record {
    network = some (5 ∷ []);
    server_ip = some (21 ∷ []);
    network6 = none;
    server_ip6 = none;
    ip6_strategy = sequential;
  };
  authorized_keys_file = some (b'~' ∷ b'/' ∷ b'k' ∷ []);
  iroh =
      some (record { secret_file = some (b's' ∷ []); relay_urls = none; relay_auth_token = none });
}

server_file_valid : validate_server Tests.net4 Tests.net6 parsers server_file ≡ ok tt
unfolding validate_server check_role section_of check_server validate_network_texts parse_some
    validate_vpn_networks validate_ip6_strategy
server_file_valid = refl

keys_loaded :
    (path : Text)
    → server_file.authorized_keys_file ≡ some path
    → load (expand_tilde paths path) ≡ ok (b'k' ∷ [])
unfolding expand_tilde
keys_loaded path e = rw (← some_injective e) refl

validated-Starts_example :
    Starts Tests.net4 Tests.net6 parsers relay paths load is_empty server_file
validated-Starts_example =
    validated-Starts Tests.net4 Tests.net6 parsers relay paths load is_empty server_file 0
      (b'k' ∷ []) server_file_valid (λ iroh e. refl) keys_loaded refl

abbrev client_file : ClientFile
client_file = record {
  role = some vpn_client;
  routes = some ((1 ∷ []) ∷ []);
  routes6 = none;
  auth_key_file = some (b'~' ∷ b'/' ∷ b'k' ∷ []);
  auto_reconnect = some false;
  max_reconnect_attempts = some 3;
  iroh = some (record {
    server_node_id = some (7 ∷ []);
    relay_urls = none;
    relay_auth_token = none;
    exclude_direct_paths = some ((9 ∷ []) ∷ []);
  });
}

-- The command line has a key of its own, and routes.
abbrev cli : Cli
cli = record {
  server_node_id = none;
  auth_key = some (8 ∷ []);
  auth_key_file = none;
  routes = (2 ∷ []) ∷ (3 ∷ []) ∷ [];
  routes6 = [];
  relay_urls = [];
  relay_auth_token = none;
  exclude_direct_paths = [];
  auto_reconnect = none;
  max_reconnect_attempts = some 4;
}

abbrev prepared : ResolvedVpnClientConfig ℕ ℕ
prepared = record {
  server_node_id = 7 ∷ [];
  auth_key = some (8 ∷ []);
  auth_key_file = none;
  routes = (2 ∷ []) ∷ (3 ∷ []) ∷ [];
  routes6 = [];
  relay_config = 0;
  exclude_direct_paths = 9 ∷ [];
  auto_reconnect = false;
  max_reconnect_attempts = some 4;
}

prepared_eq :
    prepare_client_start first_code first_code relay paths
      (some client_file)
      false
      false
      cli
      (ok tt)
    ≡ some (ok prepared)
unfolding prepare_client_start reconnect_opt validate_client check_role section_of each
    validate_cidr validate_ipv6_cidr build parse_all apply_cli apply_config apply_iroh
    apply_defaults new replace replace_list expand_tilde
prepared_eq = refl

prepare-Prepared_example :
    (opt : Option Bool) × IsFlag false false opt
    × Prepared first_code first_code relay paths
        (record cli { auto_reconnect = opt })
        (some client_file)
        prepared
prepare-Prepared_example =
    prepare-Prepared first_code first_code relay paths (some client_file) false false cli (ok tt)
      prepared prepared_eq
