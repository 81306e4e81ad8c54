-- ===== src/Cmd/Options.antt =====
-- cmd.go: createOptions.
pub mod Priority
use caddy_docker_proxy.Caddyfile.Lexer.{is_empty}
use caddy_docker_proxy.Cmd.{Flags, Environment}
use caddy_docker_proxy.Cmd.Settings.{
  parse_int, text_setting, bool_setting, parsed_setting, list_setting, split_setting, mode_of,
}
use caddy_docker_proxy.Config.{TechnitiumOptions, AvahiOptions, NamePublishOptions, Options}
use caddy_docker_proxy.Prelude.{Option, none, [], ◌++◌, if◌then◌else◌, Text, codes}

module _ (e : Environment) (flags : Flags) where
  -- A network that cannot be parsed is logged, and there is none; the flag is not looked at then.
  abbrev pub controller_network_setting : Option Text
  controller_network_setting =
      let t =
        text_setting (e.get_env (codes "CADDY_CONTROLLER_NETWORK")) flags.controller_network in
      if is_empty t then none else e.parse_cidr t

  unfoldable pub technitium_options : TechnitiumOptions
  unfolding bool_setting parse_int
  technitium_options = record {
    enabled =
        bool_setting (e.get_env (codes "CADDY_DOCKER_NAME_PUBLISH_TECHNITIUM_ENABLED"))
          flags.name_publish_technitium_enabled;
    base_url =
        text_setting (e.get_env (codes "CADDY_DOCKER_NAME_PUBLISH_TECHNITIUM_BASE_URL"))
          flags.name_publish_technitium_base_url;
    token =
        text_setting (e.get_env (codes "CADDY_DOCKER_NAME_PUBLISH_TECHNITIUM_TOKEN"))
          flags.name_publish_technitium_token;
    zone =
        text_setting (e.get_env (codes "CADDY_DOCKER_NAME_PUBLISH_TECHNITIUM_ZONE"))
          flags.name_publish_technitium_zone;
    ttl =
        parsed_setting parse_int (e.get_env (codes "CADDY_DOCKER_NAME_PUBLISH_TECHNITIUM_TTL"))
          flags.name_publish_technitium_ttl;
  }

  unfoldable pub avahi_options : AvahiOptions
  unfolding bool_setting
  avahi_options = record {
    enabled =
        bool_setting (e.get_env (codes "CADDY_DOCKER_NAME_PUBLISH_AVAHI_ENABLED"))
          flags.name_publish_avahi_enabled;
    refresh_interval =
        parsed_setting e.parse_duration
          (e.get_env (codes "CADDY_DOCKER_NAME_PUBLISH_AVAHI_REFRESH_INTERVAL"))
          flags.name_publish_avahi_refresh_interval;
  }

  unfoldable pub name_publish_options : NamePublishOptions
  unfolding bool_setting technitium_options avahi_options
  name_publish_options = record {
    enabled =
        bool_setting (e.get_env (codes "CADDY_DOCKER_NAME_PUBLISH_ENABLED"))
          flags.name_publish_enabled;
    caddy_host =
        text_setting (e.get_env (codes "CADDY_DOCKER_NAME_PUBLISH_CADDY_HOST"))
          flags.name_publish_caddy_host;
    technitium = technitium_options;
    avahi = avahi_options;
  }

  abbrev pub label_prefix_setting : Text
  label_prefix_setting =
      text_setting (e.get_env (codes "CADDY_DOCKER_LABEL_PREFIX")) flags.label_prefix

  -- createOptions
  unfoldable pub create_options : Options
  unfolding mode_of list_setting split_setting bool_setting name_publish_options
  create_options = record {
    caddyfile_path =
        text_setting (e.get_env (codes "CADDY_DOCKER_CADDYFILE_PATH")) flags.caddyfile_path;
    env_file = text_setting (e.get_env (codes "CADDY_DOCKER_ENVFILE")) flags.envfile;
    docker_sockets = list_setting (e.get_env (codes "CADDY_DOCKER_SOCKETS")) flags.docker_sockets;
    docker_certs_path =
        split_setting (e.get_env (codes "CADDY_DOCKER_CERTS_PATH")) flags.docker_certs_path;
    docker_apis_version =
        split_setting (e.get_env (codes "CADDY_DOCKER_APIS_VERSION")) flags.docker_apis_version;
    label_prefix = label_prefix_setting;
    controlled_servers_label = label_prefix_setting ++ codes "_controlled_server";
    proxy_service_tasks =
        bool_setting (e.get_env (codes "CADDY_DOCKER_PROXY_SERVICE_TASKS"))
          flags.proxy_service_tasks;
    process_caddyfile =
        bool_setting (e.get_env (codes "CADDY_DOCKER_PROCESS_CADDYFILE")) flags.process_caddyfile;
    merge_sites = bool_setting (e.get_env (codes "CADDY_DOCKER_MERGE_SITES")) flags.merge_sites;
    pretty_log_json =
        bool_setting (e.get_env (codes "CADDY_DOCKER_PRETTY_LOG_JSON")) flags.pretty_log_json;
    log_format = text_setting (e.get_env (codes "CADDY_DOCKER_LOG_FORMAT")) flags.log_format;
    default_import =
        text_setting (e.get_env (codes "CADDY_DOCKER_DEFAULT_IMPORT")) flags.default_import;
    scan_stopped_containers =
        bool_setting (e.get_env (codes "CADDY_DOCKER_SCAN_STOPPED_CONTAINERS"))
          flags.scan_stopped_containers;
    polling_interval =
        parsed_setting e.parse_duration (e.get_env (codes "CADDY_DOCKER_POLLING_INTERVAL"))
          flags.polling_interval;
    event_throttle_interval =
        parsed_setting e.parse_duration (e.get_env (codes "CADDY_DOCKER_EVENT_THROTTLE_INTERVAL"))
          flags.event_throttle_interval;
    mode = mode_of (text_setting (e.get_env (codes "CADDY_DOCKER_MODE")) flags.mode);
    secret = [];
    controller_network = controller_network_setting;
    ingress_networks =
        list_setting (e.get_env (codes "CADDY_INGRESS_NETWORKS")) flags.ingress_networks;
    name_publish = name_publish_options;
  }
