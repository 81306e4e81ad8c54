-- ===== src/Config.antt =====
-- config/options.go: the options. A time.Duration is its number of nanoseconds; a *net.IPNet is the
-- text that it was parsed from.
use caddy_docker_proxy.Prelude.{ℕ, Bool, Option, List, ℤ, ◌==◌, Text}
use Prim.Native.Nat.{bit_and}

pub record TechnitiumOptions : Type 0 where
  pub enabled : Bool
  pub base_url : Text
  pub token : Text
  pub zone : Text
  pub ttl : ℤ

pub record AvahiOptions : Type 0 where
  pub enabled : Bool
  pub refresh_interval : ℤ

pub record NamePublishOptions : Type 0 where
  pub enabled : Bool
  pub caddy_host : Text
  pub technitium : TechnitiumOptions
  pub avahi : AvahiOptions

-- A mode is a set of bits.
abbrev pub Mode : Type 0
Mode = ℕ

abbrev pub controller : Mode
controller = 1

abbrev pub server : Mode
server = 2

abbrev pub standalone : Mode
standalone = 3

-- `mode&config.Server == config.Server`, and so for Controller.
unfoldable pub runs_as : Mode → Mode → Bool
runs_as part mode = bit_and mode part == part

pub record Options : Type 0 where
  pub caddyfile_path : Text
  pub env_file : Text
  pub docker_sockets : List Text
  pub docker_certs_path : List Text
  pub docker_apis_version : List Text
  pub label_prefix : Text
  pub controlled_servers_label : Text
  pub proxy_service_tasks : Bool
  pub process_caddyfile : Bool
  pub merge_sites : Bool
  pub pretty_log_json : Bool
  pub log_format : Text
  pub default_import : Text
  pub scan_stopped_containers : Bool
  pub polling_interval : ℤ
  pub event_throttle_interval : ℤ
  pub mode : Mode
  pub secret : Text
  pub controller_network : Option Text
  pub ingress_networks : List Text
  pub name_publish : NamePublishOptions
