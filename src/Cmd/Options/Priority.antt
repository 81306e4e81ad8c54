-- ===== src/Cmd/Options/Priority.antt =====
-- createOptions: what the options depend on.
use caddy_docker_proxy.Caddyfile.Lexer.{is_empty}
use caddy_docker_proxy.Cmd.{Flags, Environment}
use caddy_docker_proxy.Cmd.Options.{
  technitium_options, avahi_options, name_publish_options, create_options,
}
use caddy_docker_proxy.Cmd.Settings.{
  parse_int, text_setting, bool_setting, parsed_setting, list_setting, split_setting,
}
use caddy_docker_proxy.Prelude.{
  ◌≡◌, refl, ap, ◌⊎◌, inl, inr, Bool, false, Option, some, [], ◌∷◌, ℤ, Text, codes,
}

module _ (e : Environment) where
  -- A variable that is set, and one whose value a parser reads.
  abbrev IsGiven : Text → Type 0
  IsGiven name = is_empty (e.get_env name) ≡ false

  abbrev IsRead : (Text → Option ℤ) → Text → Type 0
  IsRead parse name = IsGiven name × ((z : ℤ) × (parse (e.get_env name) ≡ some z))

  -- An option is settled between two values of its flags if its variable is, or if the flags agree.
  abbrev Settles : {A : Type 0} → Type 0 → A → A → Type 0
  Settles given a b = given ⊎ (a ≡ b)

  -- The flags differ only where the environment has a value that can be read.
  pub record Agrees (f g : Flags) : Type 0 where
    pub caddyfile_path :
        Settles (IsGiven (codes "CADDY_DOCKER_CADDYFILE_PATH")) f.caddyfile_path g.caddyfile_path
    pub envfile : Settles (IsGiven (codes "CADDY_DOCKER_ENVFILE")) f.envfile g.envfile
    pub docker_sockets :
        Settles (IsGiven (codes "CADDY_DOCKER_SOCKETS")) f.docker_sockets g.docker_sockets
    pub docker_certs_path :
        Settles (IsGiven (codes "CADDY_DOCKER_CERTS_PATH")) f.docker_certs_path g.docker_certs_path
    pub docker_apis_version :
        Settles
          (IsGiven (codes "CADDY_DOCKER_APIS_VERSION"))
          f.docker_apis_version
          g.docker_apis_version
    pub label_prefix :
        Settles (IsGiven (codes "CADDY_DOCKER_LABEL_PREFIX")) f.label_prefix g.label_prefix
    pub proxy_service_tasks :
        Settles
          (IsGiven (codes "CADDY_DOCKER_PROXY_SERVICE_TASKS"))
          f.proxy_service_tasks
          g.proxy_service_tasks
    pub process_caddyfile :
        Settles
          (IsGiven (codes "CADDY_DOCKER_PROCESS_CADDYFILE"))
          f.process_caddyfile
          g.process_caddyfile
    pub merge_sites :
        Settles (IsGiven (codes "CADDY_DOCKER_MERGE_SITES")) f.merge_sites g.merge_sites
    pub pretty_log_json :
        Settles (IsGiven (codes "CADDY_DOCKER_PRETTY_LOG_JSON")) f.pretty_log_json g.pretty_log_json
    pub log_format : Settles (IsGiven (codes "CADDY_DOCKER_LOG_FORMAT")) f.log_format g.log_format
    pub default_import :
        Settles (IsGiven (codes "CADDY_DOCKER_DEFAULT_IMPORT")) f.default_import g.default_import
    pub scan_stopped_containers :
        Settles
          (IsGiven (codes "CADDY_DOCKER_SCAN_STOPPED_CONTAINERS"))
          f.scan_stopped_containers
          g.scan_stopped_containers
    pub polling_interval :
        Settles
          (IsRead e.parse_duration (codes "CADDY_DOCKER_POLLING_INTERVAL"))
          f.polling_interval
          g.polling_interval
    pub event_throttle_interval :
        Settles
          (IsRead e.parse_duration (codes "CADDY_DOCKER_EVENT_THROTTLE_INTERVAL"))
          f.event_throttle_interval
          g.event_throttle_interval
    pub mode : Settles (IsGiven (codes "CADDY_DOCKER_MODE")) f.mode g.mode
    pub controller_network :
        Settles
          (IsGiven (codes "CADDY_CONTROLLER_NETWORK"))
          f.controller_network
          g.controller_network
    pub ingress_networks :
        Settles (IsGiven (codes "CADDY_INGRESS_NETWORKS")) f.ingress_networks g.ingress_networks
    pub name_publish_enabled :
        Settles
          (IsGiven (codes "CADDY_DOCKER_NAME_PUBLISH_ENABLED"))
          f.name_publish_enabled
          g.name_publish_enabled
    pub name_publish_caddy_host :
        Settles
          (IsGiven (codes "CADDY_DOCKER_NAME_PUBLISH_CADDY_HOST"))
          f.name_publish_caddy_host
          g.name_publish_caddy_host
    pub name_publish_technitium_enabled :
        Settles
          (IsGiven (codes "CADDY_DOCKER_NAME_PUBLISH_TECHNITIUM_ENABLED"))
          f.name_publish_technitium_enabled
          g.name_publish_technitium_enabled
    pub name_publish_technitium_base_url :
        Settles
          (IsGiven (codes "CADDY_DOCKER_NAME_PUBLISH_TECHNITIUM_BASE_URL"))
          f.name_publish_technitium_base_url
          g.name_publish_technitium_base_url
    pub name_publish_technitium_token :
        Settles
          (IsGiven (codes "CADDY_DOCKER_NAME_PUBLISH_TECHNITIUM_TOKEN"))
          f.name_publish_technitium_token
          g.name_publish_technitium_token
    pub name_publish_technitium_zone :
        Settles
          (IsGiven (codes "CADDY_DOCKER_NAME_PUBLISH_TECHNITIUM_ZONE"))
          f.name_publish_technitium_zone
          g.name_publish_technitium_zone
    pub name_publish_technitium_ttl :
        Settles
          (IsRead parse_int (codes "CADDY_DOCKER_NAME_PUBLISH_TECHNITIUM_TTL"))
          f.name_publish_technitium_ttl
          g.name_publish_technitium_ttl
    pub name_publish_avahi_enabled :
        Settles
          (IsGiven (codes "CADDY_DOCKER_NAME_PUBLISH_AVAHI_ENABLED"))
          f.name_publish_avahi_enabled
          g.name_publish_avahi_enabled
    pub name_publish_avahi_refresh_interval :
        Settles
          (IsRead e.parse_duration (codes "CADDY_DOCKER_NAME_PUBLISH_AVAHI_REFRESH_INTERVAL"))
          f.name_publish_avahi_refresh_interval
          g.name_publish_avahi_refresh_interval

  text_setting-eq :
      (name a b : Text)
      → Settles (IsGiven name) a b
      → text_setting (e.get_env name) a ≡ text_setting (e.get_env name) b
  text_setting-eq name a b (inl h) = by_value (e.get_env name) h
    where
      by_value : (v : Text) → is_empty v ≡ false → text_setting v a ≡ text_setting v b
      by_value [] h = cc
      by_value (c ∷ cs) h = refl
  text_setting-eq name a b (inr q) = ap (text_setting (e.get_env name)) q

  bool_setting-eq :
      (name : Text) (a b : Bool)
      → Settles (IsGiven name) a b
      → bool_setting (e.get_env name) a ≡ bool_setting (e.get_env name) b
  unfolding bool_setting
  bool_setting-eq name a b (inl h) = rw h refl
  bool_setting-eq name a b (inr q) = ap (bool_setting (e.get_env name)) q

  parsed_setting-eq :
      (parse : Text → Option ℤ) (name : Text) (a b : ℤ)
      → Settles (IsRead parse name) a b
      → parsed_setting parse (e.get_env name) a ≡ parsed_setting parse (e.get_env name) b
  parsed_setting-eq parse name a b (inl (h, (z, q))) = rw (h, q) refl
  parsed_setting-eq parse name a b (inr q) = ap (parsed_setting parse (e.get_env name)) q

  -- createOptions takes from a flag only what the environment does not have: if the flags differ only in
  -- options whose variable is not empty, and can be parsed where it is a duration or the TTL, the
  -- options are the same.
  pub create_options-Agrees : (f g : Flags) → Agrees f g → create_options e f ≡ create_options e g
  unfolding create_options name_publish_options technitium_options avahi_options list_setting
      split_setting
  create_options-Agrees f g h =
      rw
        (
          text_setting-eq (codes "CADDY_DOCKER_CADDYFILE_PATH") f.caddyfile_path g.caddyfile_path
              h.caddyfile_path,
          text_setting-eq (codes "CADDY_DOCKER_ENVFILE") f.envfile g.envfile h.envfile,
          text_setting-eq (codes "CADDY_DOCKER_SOCKETS") f.docker_sockets g.docker_sockets
              h.docker_sockets,
          text_setting-eq (codes "CADDY_DOCKER_CERTS_PATH") f.docker_certs_path g.docker_certs_path
              h.docker_certs_path,
          text_setting-eq (codes "CADDY_DOCKER_APIS_VERSION") f.docker_apis_version
              g.docker_apis_version h.docker_apis_version,
          text_setting-eq (codes "CADDY_DOCKER_LABEL_PREFIX") f.label_prefix g.label_prefix
              h.label_prefix,
          bool_setting-eq (codes "CADDY_DOCKER_PROXY_SERVICE_TASKS") f.proxy_service_tasks
              g.proxy_service_tasks h.proxy_service_tasks,
          bool_setting-eq (codes "CADDY_DOCKER_PROCESS_CADDYFILE") f.process_caddyfile
              g.process_caddyfile h.process_caddyfile,
          bool_setting-eq (codes "CADDY_DOCKER_MERGE_SITES") f.merge_sites g.merge_sites
              h.merge_sites,
          bool_setting-eq (codes "CADDY_DOCKER_PRETTY_LOG_JSON") f.pretty_log_json g.pretty_log_json
              h.pretty_log_json,
          text_setting-eq (codes "CADDY_DOCKER_LOG_FORMAT") f.log_format g.log_format h.log_format,
          text_setting-eq (codes "CADDY_DOCKER_DEFAULT_IMPORT") f.default_import g.default_import
              h.default_import,
          bool_setting-eq (codes "CADDY_DOCKER_SCAN_STOPPED_CONTAINERS") f.scan_stopped_containers
              g.scan_stopped_containers h.scan_stopped_containers,
          parsed_setting-eq e.parse_duration (codes "CADDY_DOCKER_POLLING_INTERVAL")
              f.polling_interval g.polling_interval h.polling_interval,
          parsed_setting-eq e.parse_duration (codes "CADDY_DOCKER_EVENT_THROTTLE_INTERVAL")
              f.event_throttle_interval g.event_throttle_interval h.event_throttle_interval,
          text_setting-eq (codes "CADDY_DOCKER_MODE") f.mode g.mode h.mode,
          text_setting-eq (codes "CADDY_CONTROLLER_NETWORK") f.controller_network
              g.controller_network h.controller_network,
          text_setting-eq (codes "CADDY_INGRESS_NETWORKS") f.ingress_networks g.ingress_networks
              h.ingress_networks,
          bool_setting-eq (codes "CADDY_DOCKER_NAME_PUBLISH_ENABLED") f.name_publish_enabled
              g.name_publish_enabled h.name_publish_enabled,
          text_setting-eq (codes "CADDY_DOCKER_NAME_PUBLISH_CADDY_HOST") f.name_publish_caddy_host
              g.name_publish_caddy_host h.name_publish_caddy_host,
          bool_setting-eq (codes "CADDY_DOCKER_NAME_PUBLISH_TECHNITIUM_ENABLED")
              f.name_publish_technitium_enabled g.name_publish_technitium_enabled
              h.name_publish_technitium_enabled,
          text_setting-eq (codes "CADDY_DOCKER_NAME_PUBLISH_TECHNITIUM_BASE_URL")
              f.name_publish_technitium_base_url g.name_publish_technitium_base_url
              h.name_publish_technitium_base_url,
          text_setting-eq (codes "CADDY_DOCKER_NAME_PUBLISH_TECHNITIUM_TOKEN")
              f.name_publish_technitium_token g.name_publish_technitium_token
              h.name_publish_technitium_token,
          text_setting-eq (codes "CADDY_DOCKER_NAME_PUBLISH_TECHNITIUM_ZONE")
              f.name_publish_technitium_zone g.name_publish_technitium_zone
              h.name_publish_technitium_zone,
          parsed_setting-eq parse_int (codes "CADDY_DOCKER_NAME_PUBLISH_TECHNITIUM_TTL")
              f.name_publish_technitium_ttl g.name_publish_technitium_ttl
              h.name_publish_technitium_ttl,
          bool_setting-eq (codes "CADDY_DOCKER_NAME_PUBLISH_AVAHI_ENABLED")
              f.name_publish_avahi_enabled g.name_publish_avahi_enabled
              h.name_publish_avahi_enabled,
          parsed_setting-eq e.parse_duration
              (codes "CADDY_DOCKER_NAME_PUBLISH_AVAHI_REFRESH_INTERVAL")
              f.name_publish_avahi_refresh_interval g.name_publish_avahi_refresh_interval
              h.name_publish_avahi_refresh_interval,
        )
        refl
