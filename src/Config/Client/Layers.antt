-- ===== src/Config/Client/Layers.antt =====
-- src/config/file_config.rs: which layer each setting of a client is from.
use ezvpn.Prelude.{
  Bool, refl, some_injective, ◌≡◌, ◌≢◌, ap, sym, subst, ◌∙◌, true, false, ◌&&◌, Option, none, some,
  List, [], ◌∷◌, is_some, All, arith,
}
use ezvpn.Error.{Result, ok, err, >>=-eq-ok}
use ezvpn.Config.File.{Text, Paths, expand_tilde, expand_some, list_or_default}
use ezvpn.Config.Client.{
  VpnClientIrohConfig, ClientFile, VpnClientConfigBuilder, Cli, ResolvedVpnClientConfig, new,
  apply_defaults, replace, replace_list, apply_iroh, apply_config, apply_cli, bool_or, parse_all,
  flagged, reconnect_opt, prepare_client_start,
}
use ezvpn.Config.Client.Built.{Built, build-Built}

-- The first that is set.
abbrev first : {A : Type 0} → Option A → Option A → Option A
first (some a) other = some a
first none other = other

abbrev first_list : {A : Type 0} → List A → Option (List A) → List A
first_list (x ∷ xs) other = x ∷ xs
first_list [] none = []
first_list [] (some xs) = xs

-- A setting of the section `iroh`, and one of the rest, of a file that may be missing.
abbrev in_iroh : {A : Type 0} → (VpnClientIrohConfig → Option A) → Option ClientFile → Option A
in_iroh field none = none
in_iroh field (some f) = elim f.iroh [ none ↦ none | some iroh ↦ field iroh ]

abbrev in_file : {A : Type 0} → (ClientFile → Option A) → Option ClientFile → Option A
in_file field none = none
in_file field (some f) = field f

-- The command line's keys, if it has one, and else the file's.
abbrev keys : Paths → Cli → Option ClientFile → Option Text × Option Text
keys paths cli file = elim cli.auth_key [
  | some key ↦ (some key, expand_some paths cli.auth_key_file)
  | none ↦ elim cli.auth_key_file [
    | some path ↦ (none, some (expand_tilde paths path))
    | none ↦ (none, expand_some paths (in_file (λ f. f.auth_key_file) file))
  ]
]

-- The builder that `prepare_client_start` builds from.
abbrev layers : Paths → Cli → Option ClientFile → VpnClientConfigBuilder
layers paths cli file =
    apply_cli (record cli { auth_key_file = expand_some paths cli.auth_key_file })
      (apply_config paths file (apply_defaults new))

record Layered (paths : Paths) (cli : Cli) (file : Option ClientFile) (b : VpnClientConfigBuilder)
    : Type 0 where
  server_node_id_eq :
      b.server_node_id ≡ first cli.server_node_id (in_iroh (λ i. i.server_node_id) file)
  auth_key_eq : b.auth_key ≡ (keys paths cli file).0
  auth_key_file_eq : b.auth_key_file ≡ (keys paths cli file).1
  routes_eq : list_or_default b.routes ≡ first_list cli.routes (in_file (λ f. f.routes) file)
  routes6_eq : list_or_default b.routes6 ≡ first_list cli.routes6 (in_file (λ f. f.routes6) file)
  relay_urls_eq :
      list_or_default b.relay_urls ≡ first_list cli.relay_urls (in_iroh (λ i. i.relay_urls) file)
  relay_auth_token_eq :
      b.relay_auth_token ≡ first cli.relay_auth_token (in_iroh (λ i. i.relay_auth_token) file)
  exclude_direct_paths_eq :
      list_or_default b.exclude_direct_paths
      ≡ first_list cli.exclude_direct_paths (in_iroh (λ i. i.exclude_direct_paths) file)
  auto_reconnect_eq :
      b.auto_reconnect ≡ first cli.auto_reconnect (in_file (λ f. f.auto_reconnect) file)
  max_reconnect_attempts_eq :
      b.max_reconnect_attempts
      ≡ first cli.max_reconnect_attempts (in_file (λ f. f.max_reconnect_attempts) file)

module _ (paths : Paths) (cli : Cli) where
  layers-Layered : (file : Option ClientFile) → Layered paths cli file (layers paths cli file)
  unfolding apply_cli apply_config apply_iroh apply_defaults new replace replace_list
  layers-Layered none = record {
    server_node_id_eq = ground arith;
    auth_key_eq = ground arith;
    auth_key_file_eq = ground arith;
    routes_eq = ground arith;
    routes6_eq = ground arith;
    relay_urls_eq = ground arith;
    relay_auth_token_eq = ground arith;
    exclude_direct_paths_eq = ground arith;
    auto_reconnect_eq = ground arith;
    max_reconnect_attempts_eq = ground arith;
  }
  layers-Layered (some f) = record {
    server_node_id_eq = ground arith;
    auth_key_eq = ground arith;
    auth_key_file_eq = ground arith;
    routes_eq = ground arith;
    routes6_eq = ground arith;
    relay_urls_eq = ground arith;
    relay_auth_token_eq = ground arith;
    exclude_direct_paths_eq = ground arith;
    auto_reconnect_eq = ground arith;
    max_reconnect_attempts_eq = ground arith;
  }

flagged-eq-ok :
    {A : Type 0} (valid : Result (Unit {0})) (flags : Option (Option Bool))
    (continue : Option Bool → Result A) (a : A)
    → flagged valid flags continue ≡ some (ok a)
    → (opt : Option Bool) × (flags ≡ some opt) × (continue opt ≡ ok a)
unfolding flagged
flagged-eq-ok (err problem) flags continue a h = cc
flagged-eq-ok (ok valid) none continue a h = cc
flagged-eq-ok (ok valid) (some opt) continue a h = (opt, refl, some_injective h)

-- What the two flags say: each of them, neither, but not both.
abbrev pub IsFlag : Bool → Bool → Option Bool → Type 0
IsFlag true false opt = opt ≡ some true
IsFlag false true opt = opt ≡ some false
IsFlag false false opt = opt ≡ none
IsFlag true true opt = ⊥

reconnect_opt-IsFlag :
    (auto_reconnect no_auto_reconnect : Bool) (opt : Option Bool)
    → reconnect_opt auto_reconnect no_auto_reconnect ≡ some opt
    → IsFlag auto_reconnect no_auto_reconnect opt
unfolding reconnect_opt
reconnect_opt-IsFlag true false opt h = sym (some_injective h)
reconnect_opt-IsFlag false true opt h = sym (some_injective h)
reconnect_opt-IsFlag false false opt h = sym (some_injective h)
reconnect_opt-IsFlag true true opt h = cc

module _ {Net Net6 Relay : Type 0} (parse_net : Text → Option Net) (parse_net6 : Text → Option Net6)
    (relay : List Text → Option Text → Result Relay) where
  -- What is prepared of a command line and a file.
  abbrev pub Prepared : Paths → Cli → Option ClientFile → ResolvedVpnClientConfig Net Relay → Type 0
  Prepared paths cli file r =
      (first cli.server_node_id (in_iroh (λ i. i.server_node_id) file) ≡ some r.server_node_id)
      × ((r.auth_key, r.auth_key_file) ≡ keys paths cli file)
      × ((is_some r.auth_key && is_some r.auth_key_file) ≡ false)
      × (r.routes ≡ first_list cli.routes (in_file (λ f. f.routes) file))
      × All (λ t. parse_net t ≢ none) r.routes
      × (r.routes6 ≡ first_list cli.routes6 (in_file (λ f. f.routes6) file))
      × All (λ t. parse_net6 t ≢ none) r.routes6
      × (relay (first_list cli.relay_urls (in_iroh (λ i. i.relay_urls) file))
            (first cli.relay_auth_token (in_iroh (λ i. i.relay_auth_token) file))
          ≡ ok r.relay_config)
      × (parse_all parse_net
            (first_list cli.exclude_direct_paths (in_iroh (λ i. i.exclude_direct_paths) file))
          ≡ ok r.exclude_direct_paths)
      × (r.auto_reconnect
          ≡ bool_or true (first cli.auto_reconnect (in_file (λ f. f.auto_reconnect) file)))
      × (r.max_reconnect_attempts
          ≡ first cli.max_reconnect_attempts (in_file (λ f. f.max_reconnect_attempts) file))

  built-Prepared :
      (paths : Paths) (cli : Cli) (file : Option ClientFile) (r : ResolvedVpnClientConfig Net Relay)
      → Built parse_net parse_net6 relay (layers paths cli file) r
      → Prepared paths cli file r
  built-Prepared paths cli file r b =
      let l : Layered paths cli file (layers paths cli file) = layers-Layered paths cli file in
      (
        sym l.server_node_id_eq ∙ b.server_node_id_eq,
        ap (λ k. (k, r.auth_key_file)) (b.auth_key_eq ∙ l.auth_key_eq)
            ∙ ap (λ k. ((keys paths cli file).0, k)) (b.auth_key_file_eq ∙ l.auth_key_file_eq),
        ap (λ k. is_some k && is_some r.auth_key_file) b.auth_key_eq
            ∙ ap (λ k. is_some (layers paths cli file).auth_key && is_some k) b.auth_key_file_eq
            ∙ b.one_key,
        b.routes_eq ∙ l.routes_eq,
        subst (All (λ t. parse_net t ≢ none)) (sym b.routes_eq) b.routes_parse,
        b.routes6_eq ∙ l.routes6_eq,
        subst (All (λ t. parse_net6 t ≢ none)) (sym b.routes6_eq) b.routes6_parse,
        ap (λ u. relay u (first cli.relay_auth_token (in_iroh (λ i. i.relay_auth_token) file)))
              (sym l.relay_urls_eq)
            ∙ ap (relay (list_or_default (layers paths cli file).relay_urls))
                (sym l.relay_auth_token_eq)
            ∙ b.relay_eq,
        ap (parse_all parse_net) (sym l.exclude_direct_paths_eq) ∙ b.exclude_eq,
        b.auto_reconnect_eq ∙ ap (bool_or true) l.auto_reconnect_eq,
        b.max_reconnect_attempts_eq ∙ l.max_reconnect_attempts_eq,
      )

  -- A client that is prepared has each setting from the command line, where that gives one, else from
  -- the file, else the default, and of the two flags for the reconnect at most one is set. Its keys
  -- are all from one of the two, and not both kinds at once; its routes parse; its relays are
  -- accepted.
  pub prepare-Prepared :
      (paths : Paths) (file : Option ClientFile) (auto_reconnect no_auto_reconnect : Bool)
      (cli : Cli) (permission : Result (Unit {0})) (r : ResolvedVpnClientConfig Net Relay)
      → prepare_client_start parse_net parse_net6 relay paths file auto_reconnect no_auto_reconnect
          cli permission
        ≡ some (ok r)
      → (opt : Option Bool) × IsFlag auto_reconnect no_auto_reconnect opt
        × Prepared paths (record cli { auto_reconnect = opt }) file r
  unfolding prepare_client_start
  prepare-Prepared paths file auto_reconnect no_auto_reconnect cli permission r h =
      let (opt, flags, h1) = flagged-eq-ok _ _ _ r h in
      let (u, e, h2) = >>=-eq-ok permission _ h1 in
      let with_flags : Cli = record cli { auto_reconnect = opt } in
      (
        opt,
        reconnect_opt-IsFlag auto_reconnect no_auto_reconnect opt flags,
        built-Prepared paths with_flags file r
            (build-Built parse_net parse_net6 relay (layers paths with_flags file) r h2),
      )
