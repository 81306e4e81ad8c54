-- ===== src/Cmd/Tests.antt =====
-- Runs of the command, and the theorems at concrete inputs.
use caddy_docker_proxy.Cmd.{Flags, default_flags, Environment}
use caddy_docker_proxy.Cmd.Options.{create_options}
use caddy_docker_proxy.Cmd.Options.Priority.{Agrees, create_options-Agrees}
use caddy_docker_proxy.Cmd.Run.{
  Addr, ip_net, get_admin_listen, run_server, start_loader, stop_server, Outcomes, cmd_func,
}
use caddy_docker_proxy.Cmd.Run.Listen.{IsTold, get_admin_listen-IsTold}
use caddy_docker_proxy.Cmd.Run.Started.{
  is_none, mode_text, all_actions, is_well, cmd_func-create_options,
}
use caddy_docker_proxy.Cmd.Settings.{parse_int, list_setting}
use caddy_docker_proxy.Cmd.Settings.Lists.{HasNoComma, list_setting-IsSplit}
use caddy_docker_proxy.Config.{standalone, Options}
use caddy_docker_proxy.Generator.Docker.{Answer}
use caddy_docker_proxy.Prelude.{
  ◌≡◌, refl, ◌⊎◌, inl, inr, Bool, true, false, none, some, List, [], ◌∷◌, ◌++◌, negsuc, All, join,
  ok, err, if◌then◌else◌, Text, codes, text_eq,
}

-- Two variables are set.
variables : Text → Text
unfolding text_eq
variables name =
    if text_eq name (codes "CADDY_DOCKER_SOCKETS")
    then codes "a,b"
    else if text_eq name (codes "CADDY_DOCKER_MERGE_SITES")
    then codes "Yes"
    else if text_eq name (codes "CADDY_DOCKER_NAME_PUBLISH_TECHNITIUM_TTL")
    then codes "-60"
    else []

abbrev environment : Environment
environment = record { get_env = variables; parse_cidr = λ t. none; parse_duration = λ t. none }

abbrev options : Options
options = create_options environment default_flags

reads_sockets : options.docker_sockets ≡ codes "a" ∷ codes "b" ∷ []
unfolding create_options variables
reads_sockets = refl

merges : options.merge_sites ≡ true
unfolding create_options variables
merges = refl

reads_ttl : options.name_publish.technitium.ttl ≡ negsuc 59
unfolding create_options variables
reads_ttl = refl

is_standalone : options.mode ≡ standalone
unfolding create_options variables
is_standalone = refl

out_of_range : parse_int (codes "9223372036854775808") ≡ none
unfolding parse_int
out_of_range = refl

least_int : parse_int (codes "-9223372036854775808") ≡ some (negsuc 9223372036854775807)
unfolding parse_int
least_int = refl

-- The flags of the command line merge sites, or do not; the environment decides.
abbrev other_flags : Flags
other_flags = record default_flags { docker_sockets = codes "c"; merge_sites = true }

flags-Agrees : Agrees environment default_flags other_flags
unfolding variables
flags-Agrees = record {
  caddyfile_path = inr refl;
  envfile = inr refl;
  docker_sockets = inl refl;
  docker_certs_path = inr refl;
  docker_apis_version = inr refl;
  label_prefix = inr refl;
  proxy_service_tasks = inr refl;
  process_caddyfile = inr refl;
  merge_sites = inl refl;
  pretty_log_json = inr refl;
  log_format = inr refl;
  default_import = inr refl;
  scan_stopped_containers = inr refl;
  polling_interval = inr refl;
  event_throttle_interval = inr refl;
  mode = inr refl;
  controller_network = inr refl;
  ingress_networks = inr refl;
  name_publish_enabled = inr refl;
  name_publish_caddy_host = inr refl;
  name_publish_technitium_enabled = inr refl;
  name_publish_technitium_base_url = inr refl;
  name_publish_technitium_token = inr refl;
  name_publish_technitium_zone = inr refl;
  name_publish_technitium_ttl = inr refl;
  name_publish_avahi_enabled = inr refl;
  name_publish_avahi_refresh_interval = inr refl;
}

create_options-Agrees_example :
    create_options environment default_flags ≡ create_options environment other_flags
create_options-Agrees_example =
    create_options-Agrees environment default_flags other_flags flags-Agrees

list_setting-IsSplit_example :
    (join (codes ",") (list_setting (codes "a,b") []) ≡ codes "a,b")
    × All HasNoComma (list_setting (codes "a,b") [])
list_setting-IsSplit_example = list_setting-IsSplit (codes "a,b") [] refl

-- The loader does not start.
abbrev no_loader : Outcomes
no_loader = record { run = none; start = some (codes "no socket"); stop = none }

stops : cmd_func no_loader (codes "tcp/localhost:2019") standalone ≡ (
  run_server (codes "tcp/localhost:2019") ∷ start_loader ∷ stop_server ∷ [],
  some (codes "no socket"),
)
unfolding cmd_func
stops = refl

cmd_func-create_options_example :
    ((cmd_func no_loader
        (codes "tcp/localhost:2019")
        (create_options environment default_flags).mode).0
      ≡ all_actions no_loader (codes "tcp/localhost:2019") (mode_text environment default_flags))
    × (is_none
          (cmd_func no_loader
            (codes "tcp/localhost:2019")
            (create_options environment default_flags).mode).1
        ≡ is_well no_loader (mode_text environment default_flags))
cmd_func-create_options_example =
    cmd_func-create_options environment default_flags no_loader (codes "tcp/localhost:2019")

-- A network that contains one address.
contains_one : Text → Text → Bool
unfolding text_eq
contains_one network ip = text_eq ip (codes "10.0.0.2")

abbrev two_ifaces : List (Answer (List Addr))
two_ifaces =
    err (codes "no answer") ∷ ok (ip_net (codes "127.0.0.1") ∷ ip_net (codes "10.0.0.2") ∷ []) ∷ []

listens :
    get_admin_listen contains_one (ok two_ifaces) (some (codes "10.0.0.0/8"))
    ≡ codes "tcp/10.0.0.2:2019"
unfolding get_admin_listen contains_one
listens = refl

get_admin_listen-IsTold_example :
    ((ip : Text) × IsTold ip two_ifaces
      × (contains_one (codes "10.0.0.0/8") ip ≡ true)
      × (get_admin_listen contains_one (ok two_ifaces) (some (codes "10.0.0.0/8"))
          ≡ codes "tcp/" ++ (ip ++ codes ":2019")))
    ⊎ (((ip : Text) → IsTold ip two_ifaces → contains_one (codes "10.0.0.0/8") ip ≡ false)
        × (get_admin_listen contains_one (ok two_ifaces) (some (codes "10.0.0.0/8"))
            ≡ codes "tcp/localhost:2019"))
get_admin_listen-IsTold_example =
    get_admin_listen-IsTold contains_one two_ifaces (codes "10.0.0.0/8")
