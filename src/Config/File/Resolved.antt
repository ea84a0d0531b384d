-- ===== src/Config/File/Resolved.antt =====
-- src/config/file_config.rs and src/main.rs: from the file of a server to its configuration.
use ezvpn.Prelude.{
  ◌≡◌, refl, sym, ap, subst, ℕ, Bool, false, Option, none, some, List, is_none, Option-cases, inl,
  inr, arith,
}
use ezvpn.IpNet.{IpNetOps}
use ezvpn.Error.{Result, ok, ok-injective, >>=-eq-ok, reject_if-eq-ok}
use ezvpn.Config.{validate_vpn_networks}
use ezvpn.Config.File.{
  Text, ServerNetworkConfig, VpnServerIrohConfig, ServerFile, ResolvedVpnServerConfig,
  VpnServerConfig, Paths, Parsers, expand_tilde, expand_some, list_or_default, parse_some,
  check_role, section_of, vpn_server, validate_network_texts, check_server, validate_server,
  from_config, validate_config, load_keys, server_config,
}

module _ {Net4 Net6 : Type 0} (ops4 : IpNetOps Net4) (ops6 : IpNetOps Net6)
    (p : Parsers Net4 Net6) where
  record ParsesTo (net : ServerNetworkConfig) : Type 0 where
    network : Option Net4
    server_ip : Option ℕ
    network6 : Option Net6
    server_ip6 : Option ℕ
    network_parses : (m : _) → parse_some p.parse_net4 m net.network ≡ ok network
    server_ip_parses : (m : _) → parse_some p.parse_ip4 m net.server_ip ≡ ok server_ip
    network6_parses : (m : _) → parse_some p.parse_net6 m net.network6 ≡ ok network6
    server_ip6_parses : (m : _) → parse_some p.parse_ip6 m net.server_ip6 ≡ ok server_ip6
    valid :
        validate_vpn_networks ops4 ops6 network server_ip network6 server_ip6 net.ip6_strategy
        ≡ ok tt

  any_message :
      {A : Type 0} (parse : Text → Option A) (m : _) (text : Option Text) {a : Option A}
      → parse_some parse m text ≡ ok a
      → (m' : _) → parse_some parse m' text ≡ ok a
  unfolding parse_some
  any_message parse m none h m' = h
  any_message parse m (some text) h m' = elim (Option-cases (parse text)) [
    | inl e ↦ absurd (ground (arith, e))
    | inr (x, e) ↦ ground (arith, e)
  ]

  network_texts :
      (net : ServerNetworkConfig) → validate_network_texts ops4 ops6 p net ≡ ok tt → ParsesTo net
  unfolding validate_network_texts
  network_texts net h =
      let (network, e1, h1) = >>=-eq-ok (parse_some p.parse_net4 _ net.network) _ h in
      let (server_ip, e2, h2) = >>=-eq-ok (parse_some p.parse_ip4 _ net.server_ip) _ h1 in
      let (network6, e3, h3) = >>=-eq-ok (parse_some p.parse_net6 _ net.network6) _ h2 in
      let (server_ip6, e4, h4) = >>=-eq-ok (parse_some p.parse_ip6 _ net.server_ip6) _ h3 in
      record {
        network = network;
        server_ip = server_ip;
        network6 = network6;
        server_ip6 = server_ip6;
        network_parses = any_message p.parse_net4 _ net.network e1;
        server_ip_parses = any_message p.parse_ip4 _ net.server_ip e2;
        network6_parses = any_message p.parse_net6 _ net.network6 e3;
        server_ip6_parses = any_message p.parse_ip6 _ net.server_ip6 e4;
        valid = h4;
      }

section_of-eq-ok : {A : Type 0} (o : Option A) {a : A} → section_of o ≡ ok a → o ≡ some a
unfolding section_of
section_of-eq-ok none h = cc
section_of-eq-ok (some b) h = ap some (ok-injective h)

is_none-false : {A : Type 0} (o : Option A) → is_none o ≡ false → (a : A) × (o ≡ some a)
is_none-false none h = cc
is_none-false (some a) h = (a, refl)

module _ {Net4 Net6 : Type 0} (ops4 : IpNetOps Net4) (ops6 : IpNetOps Net6)
    (p : Parsers Net4 Net6) where
  check_server-parts :
      (cfg : ServerFile) (iroh : VpnServerIrohConfig)
      → check_server ops4 ops6 p iroh cfg ≡ ok tt
      → (is_none iroh.secret_file ≡ false)
        × (is_none cfg.authorized_keys_file ≡ false)
        × ParsesTo ops4 ops6 p cfg.network
  unfolding check_server
  check_server-parts cfg iroh c =
      let (secret, c1) = reject_if-eq-ok (is_none iroh.secret_file) _ _ c in
      let (listed, c2) = reject_if-eq-ok (is_none cfg.authorized_keys_file) _ _ c1 in
      (secret, listed, network_texts ops4 ops6 p cfg.network c2)

module _ {Net4 Net6 Keys Relay : Type 0} (ops4 : IpNetOps Net4) (ops6 : IpNetOps Net6)
    (p : Parsers Net4 Net6) (relay : List Text → Option Text → Result Relay) (paths : Paths)
    (load : Text → Result Keys) (is_empty : Keys → Bool) where
  abbrev resolved : ServerFile → VpnServerIrohConfig → Relay → ResolvedVpnServerConfig Relay
  resolved cfg iroh relay_config = record {
    network = cfg.network.network;
    server_ip = cfg.network.server_ip;
    network6 = cfg.network.network6;
    server_ip6 = cfg.network.server_ip6;
    ip6_strategy = cfg.network.ip6_strategy;
    secret_file = iroh.secret_file;
    relay_config = relay_config;
    authorized_keys_file = expand_some paths cfg.authorized_keys_file;
  }

  from_config-resolved :
      (cfg : ServerFile) (iroh : VpnServerIrohConfig) (relay_config : Relay)
      → section_of cfg.iroh ≡ ok iroh
      → check_server ops4 ops6 p iroh cfg ≡ ok tt
      → relay (list_or_default iroh.relay_urls) iroh.relay_auth_token ≡ ok relay_config
      → from_config ops4 ops6 p relay paths cfg ≡ ok (resolved cfg iroh relay_config)
  unfolding from_config
  from_config-resolved cfg iroh relay_config e c r = simp (e, c, r) refl

  abbrev pub Starts : ServerFile → Type 0
  Starts cfg =
      (r : ResolvedVpnServerConfig Relay) × (c : VpnServerConfig Net4 Net6 Keys) × (from_config ops4
          ops6 p relay paths cfg
        ≡ ok r)
      × (server_config p load is_empty r ≡ ok c)
      × (validate_config ops4 ops6 c ≡ ok tt)

  server_config-valid :
      (cfg : ServerFile) (iroh : VpnServerIrohConfig) (relay_config : Relay) (keys : Keys)
      → ParsesTo ops4 ops6 p cfg.network
      → is_none iroh.secret_file ≡ false
      → load_keys load (expand_some paths cfg.authorized_keys_file) ≡ ok keys
      → is_empty keys ≡ false
      → (c : VpnServerConfig Net4 Net6 Keys) × (server_config p load is_empty
            (resolved cfg iroh relay_config)
          ≡ ok c)
        × (validate_config ops4 ops6 c ≡ ok tt)
  unfolding server_config validate_config
  server_config-valid cfg iroh relay_config keys t secret loaded filled = (
    record {
      network = t.network;
      network6 = t.network6;
      server_ip = t.server_ip;
      server_ip6 = t.server_ip6;
      ip6_strategy = cfg.network.ip6_strategy;
      max_clients = 254;
      authorized_keys = keys;
    },
    simp
        (
          t.network_parses, t.server_ip_parses, t.network6_parses, t.server_ip6_parses, loaded,
          filled, secret,
        )
        refl,
    t.valid,
  )

  -- A file that validates, whose relays are accepted and whose authorized keys are loaded and not empty,
  -- resolves; every text of the result is read again by `run_vpn_server`, and the configuration that it
  -- makes of them passes the check of `VpnServer::new`.
  pub validated-Starts :
      (cfg : ServerFile) (relay_config : Relay) (keys : Keys)
      → validate_server ops4 ops6 p cfg ≡ ok tt
      → ((iroh : VpnServerIrohConfig)
          → cfg.iroh ≡ some iroh
          → relay (list_or_default iroh.relay_urls) iroh.relay_auth_token ≡ ok relay_config)
      → ((path : Text)
          → cfg.authorized_keys_file ≡ some path
          → load (expand_tilde paths path) ≡ ok keys)
      → is_empty keys ≡ false
      → Starts cfg
  unfolding validate_server load_keys
  validated-Starts cfg relay_config keys h accepts loads filled =
      let (u, e0, h0) = >>=-eq-ok (check_role vpn_server cfg.role) _ h in
      let (iroh, e1, h1) = >>=-eq-ok (section_of cfg.iroh) _ h0 in
      let (secret, listed, t) = check_server-parts ops4 ops6 p cfg iroh h1 in
      let (path, given) = is_none-false cfg.authorized_keys_file listed in
      let (c, made, valid) =
        server_config-valid cfg iroh relay_config keys t secret
          (subst (λ o. load_keys load (expand_some paths o) ≡ ok keys) (sym given)
            (loads path given))
          filled in
      (
        resolved cfg iroh relay_config,
        c,
        from_config-resolved cfg iroh relay_config e1 h1
            (accepts iroh (section_of-eq-ok cfg.iroh e1)),
        made,
        valid,
      )
