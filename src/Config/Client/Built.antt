-- ===== src/Config/Client/Built.antt =====
-- src/config/file_config.rs: what `build` makes of the settings of a client.
use ezvpn.Prelude.{
  ◌≡◌, ◌≢◌, ap, sym, ◌∙◌, true, false, ◌&&◌, Option, none, some, List, [], ◌∷◌, is_some, is_none,
  All,
}
use ezvpn.Error.{Result, ok, reject_if, >>=-eq-ok, reject_if-eq-ok, ok-injective}
use ezvpn.Config.File.{Text, list_or_default}
use ezvpn.Config.Client.{
  VpnClientConfigBuilder, ResolvedVpnClientConfig, bool_or, required, each, parse_all,
  validate_cidr, validate_ipv6_cidr, build,
}

module _ {Net Net6 Relay : Type 0} (parse_net : Text → Option Net) (parse_net6 : Text → Option Net6)
    (relay : List Text → Option Text → Result Relay) where
  each-All :
      {A : Type 0} (parse : Text → Option A) (m : _) (texts : List Text)
      → each (λ t. reject_if (is_none (parse t)) m) texts ≡ ok tt
      → All (λ t. parse t ≢ none) texts
  unfolding each
  each-All parse m [] h = tt
  each-All parse m (text ∷ texts) h =
      let (parses, rest) = reject_if-eq-ok (is_none (parse text)) m _ h in
      (λ e. cc (parses, ap is_none e), each-All parse m texts rest)

  pub record Built (b : VpnClientConfigBuilder) (r : ResolvedVpnClientConfig Net Relay)
      : Type 0 where
    pub server_node_id_eq : b.server_node_id ≡ some r.server_node_id
    pub auth_key_eq : r.auth_key ≡ b.auth_key
    pub auth_key_file_eq : r.auth_key_file ≡ b.auth_key_file
    pub one_key : (is_some b.auth_key && is_some b.auth_key_file) ≡ false
    pub routes_eq : r.routes ≡ list_or_default b.routes
    pub routes_parse : All (λ t. parse_net t ≢ none) (list_or_default b.routes)
    pub routes6_eq : r.routes6 ≡ list_or_default b.routes6
    pub routes6_parse : All (λ t. parse_net6 t ≢ none) (list_or_default b.routes6)
    pub relay_eq : relay (list_or_default b.relay_urls) b.relay_auth_token ≡ ok r.relay_config
    pub exclude_eq :
        parse_all parse_net (list_or_default b.exclude_direct_paths) ≡ ok r.exclude_direct_paths
    pub auto_reconnect_eq : r.auto_reconnect ≡ bool_or true b.auto_reconnect
    pub max_reconnect_attempts_eq : r.max_reconnect_attempts ≡ b.max_reconnect_attempts

  required-eq-ok : {A : Type 0} (o : Option A) (m : _) {a : A} → required o m ≡ ok a → o ≡ some a
  unfolding required
  required-eq-ok none m h = cc
  required-eq-ok (some b) m h = ap some (ok-injective h)

  pub build-Built :
      (b : VpnClientConfigBuilder) (r : ResolvedVpnClientConfig Net Relay)
      → build parse_net parse_net6 relay b ≡ ok r
      → Built b r
  unfolding build validate_cidr validate_ipv6_cidr
  build-Built b r h =
      let (id, e1, h1) = >>=-eq-ok (required b.server_node_id _) _ h in
      let (u2, e2, h2) = >>=-eq-ok (each _ (list_or_default b.routes)) _ h1 in
      let (u3, e3, h3) = >>=-eq-ok (each _ (list_or_default b.routes6)) _ h2 in
      let (nets, e4, h4) =
        >>=-eq-ok (parse_all parse_net (list_or_default b.exclude_direct_paths)) _ h3 in
      let (one, h5) = reject_if-eq-ok (is_some b.auth_key && is_some b.auth_key_file) _ _ h4 in
      let (relay_config, e6, h6) =
        >>=-eq-ok (relay (list_or_default b.relay_urls) b.relay_auth_token) _ h5 in
      let e : _ = sym (ok-injective h6) in
      record {
        server_node_id_eq =
            required-eq-ok b.server_node_id _ e1 ∙ ap (λ x. some x.server_node_id) (sym e);
        auth_key_eq = ap (λ x. x.auth_key) e;
        auth_key_file_eq = ap (λ x. x.auth_key_file) e;
        one_key = one;
        routes_eq = ap (λ x. x.routes) e;
        routes_parse = each-All parse_net _ (list_or_default b.routes) e2;
        routes6_eq = ap (λ x. x.routes6) e;
        routes6_parse = each-All parse_net6 _ (list_or_default b.routes6) e3;
        relay_eq = e6 ∙ ap (λ x. ok x.relay_config) (sym e);
        exclude_eq = e4 ∙ ap (λ x. ok x.exclude_direct_paths) (sym e);
        auto_reconnect_eq = ap (λ x. x.auto_reconnect) e;
        max_reconnect_attempts_eq = ap (λ x. x.max_reconnect_attempts) e;
      }
