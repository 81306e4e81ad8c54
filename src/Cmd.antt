-- ===== src/Cmd.antt =====
-- cmd.go: the options from flags and environment variables, and what the command runs. The parsers of
-- net.ParseCIDR and time.ParseDuration, and what package net tells of the interfaces, are parameters.
-- Log messages are not modelled.
pub mod Settings
pub mod Options
pub mod Run
mod Tests
use caddy_docker_proxy.Prelude.{◌*◌, ◌^◌, Bool, true, false, Option, [], ℤ, pos, Text, codes}

-- The values of the flags.
pub record Flags : Type 0 where
  pub mode : Text
  pub docker_sockets : Text
  pub docker_certs_path : Text
  pub docker_apis_version : Text
  pub controller_network : Text
  pub ingress_networks : Text
  pub caddyfile_path : Text
  pub envfile : Text
  pub label_prefix : Text
  pub proxy_service_tasks : Bool
  pub process_caddyfile : Bool
  pub merge_sites : Bool
  pub pretty_log_json : Bool
  pub log_format : Text
  pub default_import : Text
  pub scan_stopped_containers : Bool
  pub polling_interval : ℤ
  pub event_throttle_interval : ℤ
  pub name_publish_enabled : Bool
  pub name_publish_caddy_host : Text
  pub name_publish_technitium_enabled : Bool
  pub name_publish_technitium_base_url : Text
  pub name_publish_technitium_token : Text
  pub name_publish_technitium_zone : Text
  pub name_publish_technitium_ttl : ℤ
  pub name_publish_avahi_enabled : Bool
  pub name_publish_avahi_refresh_interval : ℤ

-- The values that the flags have by default; a duration is in nanoseconds.
abbrev pub default_flags : Flags
default_flags = record {
  mode = codes "standalone";
  docker_sockets = [];
  docker_certs_path = [];
  docker_apis_version = [];
  controller_network = [];
  ingress_networks = [];
  caddyfile_path = [];
  envfile = [];
  label_prefix = codes "caddy";
  proxy_service_tasks = true;
  process_caddyfile = true;
  merge_sites = false;
  pretty_log_json = false;
  log_format = codes "json";
  default_import = [];
  scan_stopped_containers = false;
  polling_interval = pos (30 * 10 ^ 9);
  event_throttle_interval = pos (100 * 10 ^ 6);
  name_publish_enabled = false;
  name_publish_caddy_host = [];
  name_publish_technitium_enabled = false;
  name_publish_technitium_base_url = [];
  name_publish_technitium_token = [];
  name_publish_technitium_zone = [];
  name_publish_technitium_ttl = pos 0;
  name_publish_avahi_enabled = false;
  name_publish_avahi_refresh_interval = pos (5 * 60 * 10 ^ 9);
}

-- os.Getenv, and the parsers; `none` is an error.
pub record Environment : Type 0 where
  pub get_env : Text → Text
  pub parse_cidr : Text → Option Text
  pub parse_duration : Text → Option ℤ
