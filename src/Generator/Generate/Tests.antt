-- ===== src/Generator/Generate/Tests.antt =====
-- Runs of GenerateCaddyfile, and the theorems at concrete inputs.
use caddy_docker_proxy.Caddyfile.Block.{block, nil, cons}
use caddy_docker_proxy.Caddyfile.FromLabels.{no_match}
use caddy_docker_proxy.Config.{standalone, Options}
use caddy_docker_proxy.Generator.Docker.{DockerContainer, Client}
use caddy_docker_proxy.Generator.Generate.{
  World, Generator, create_generator, Built, refresh, get_container_caddyfile, add_clients,
  generate_caddyfile,
}
use caddy_docker_proxy.Generator.Generate.Accepted.{IsLoadable, generate_caddyfile-IsLoadable}
use caddy_docker_proxy.Generator.Generate.Panicked.{HasPanic}
use caddy_docker_proxy.Generator.Generate.Panics.{generate_caddyfile-panics}
use caddy_docker_proxy.Generator.Generate.Unique.{add_clients-HasUniqueSites}
use caddy_docker_proxy.Generator.Sites.Disjoint.{HasUniqueSites}
use caddy_docker_proxy.Prelude.{
  ◌≡◌, refl, ◌⊎◌, inl, inr, true, false, none, some, List, [], ◌∷◌, pos, ok, err, Text, codes,
}

-- A swarm with one config, that is listed and read, and no containers.
abbrev client : Client
client = record {
  info = ok true;
  config_list =
      ok (record { id = codes "1"; labels = (codes "caddy", []) ∷ []; content = [] } ∷ []);
  config_inspect = λ id. ok (record {
    id = id;
    labels = (codes "caddy", []) ∷ [];
    content = codes "a.com, b.com {\n}\n";
  });
  container_list = λ all. err (codes "no containers");
  service_list = ok [];
  task_list = λ id. ok [];
  network_list = ok [];
  container_inspect = λ id. ok [];
  network_inspect = λ id. err (codes "no network");
}

abbrev options : Options
options = record {
  caddyfile_path = [];
  env_file = [];
  docker_sockets = [];
  docker_certs_path = [];
  docker_apis_version = [];
  label_prefix = codes "caddy";
  controlled_servers_label = codes "caddy_controlled_server";
  proxy_service_tasks = true;
  process_caddyfile = true;
  merge_sites = true;
  pretty_log_json = false;
  log_format = [];
  default_import = [];
  scan_stopped_containers = false;
  polling_interval = pos 30;
  event_throttle_interval = pos 100;
  mode = standalone;
  secret = [];
  controller_network = none;
  ingress_networks = [];
  name_publish = record {
    enabled = false;
    caddy_host = [];
    technitium = record { enabled = false; base_url = []; token = []; zone = []; ttl = pos 0 };
    avahi = record { enabled = false; refresh_interval = pos 0 };
  };
}

abbrev world : World
world = record {
  read_file = λ path. err (codes "no file");
  container_id = err (codes "no container");
  template = λ seen functions text. ok text;
  adapt = λ text. ok tt;
  parse_cidr_ip = λ text. text;
  network_contains = λ network ip. true;
}

abbrev generator : Generator
generator = create_generator (client ∷ [])

writes_config :
    generate_caddyfile world options (client ∷ []) 0 generator
    ≡ some (
      refresh world options (client ∷ []) 0 generator,
      codes "a.com, b.com\n",
      codes "localhost" ∷ [],
    )
unfolding generate_caddyfile refresh
writes_config = refl

-- A container with the label `caddy.`, which the filter of labels lets through.
abbrev odd_container : DockerContainer
odd_container = record { id = codes "2"; labels = (codes "caddy.", []) ∷ []; networks = [] }

abbrev odd_client : Client
odd_client = record client { container_list = λ all. ok (odd_container ∷ []) }

panics : generate_caddyfile world options (odd_client ∷ []) 0 generator ≡ none
unfolding generate_caddyfile
panics = refl

generate_caddyfile-IsLoadable_example :
    ((t : Text) × (servers : List Text) × (generate_caddyfile world options
          (odd_client ∷ [])
          0
          generator
        ≡ some (refresh world options (odd_client ∷ []) 0 generator, t, servers))
      × IsLoadable world options (odd_client ∷ []) t)
    ⊎ ((generate_caddyfile world options (odd_client ∷ []) 0 generator ≡ none)
        × HasPanic world options
            (odd_client ∷ [])
            (refresh world options (odd_client ∷ []) 0 generator))
generate_caddyfile-IsLoadable_example =
    generate_caddyfile-IsLoadable world options (odd_client ∷ []) 0 generator refl

abbrev built : Built
built = record {
  sites = cons (block nil 0 (codes "b.com" ∷ [])) nil;
  servers = [];
  panicked = false;
}

add_clients-HasUniqueSites_example :
    HasUniqueSites
      (add_clients world options
        (client ∷ [])
        (create_generator (client ∷ []))
        (client ∷ [])
        (true ∷ [])
        built).sites
add_clients-HasUniqueSites_example =
    add_clients-HasUniqueSites world options (client ∷ []) refl (create_generator (client ∷ []))
      (client ∷ []) (true ∷ []) built (tt, tt)

odd_labels :
    get_container_caddyfile world options
      (client ∷ odd_client ∷ [])
      (refresh world options (client ∷ odd_client ∷ []) 0 generator)
      odd_container
    ≡ err no_match
unfolding get_container_caddyfile refresh
odd_labels = refl

generate_caddyfile-panics_example :
    generate_caddyfile world options (client ∷ odd_client ∷ []) 0 generator ≡ none
generate_caddyfile-panics_example =
    generate_caddyfile-panics world options (client ∷ odd_client ∷ []) 0 generator odd_client
      (odd_container ∷ []) odd_container (inr (inl refl)) refl (inl refl) odd_labels
