-- ===== src/Generator/Generate.antt =====
-- generator/generator.go: GenerateCaddyfile. The clock, the file system, the template engine, the
-- adapter and the functions of package net are parameters; log messages are not modelled.
pub mod Panicked
pub mod Panics
pub mod Accepted
pub mod Unique
mod Tests
use caddy_docker_proxy.Caddyfile.Block.{
  Container, create_container, to_list, of_list, is_global_block,
}
use caddy_docker_proxy.Caddyfile.FromLabels.{
  template_error, args_eof, no_match, out_of_fuel, LabelsResult,
}
use caddy_docker_proxy.Caddyfile.Lexer.{is_empty}
use caddy_docker_proxy.Caddyfile.Marshal.{marshal}
use caddy_docker_proxy.Caddyfile.Merge.{merge}
use caddy_docker_proxy.Caddyfile.Parser.{unmarshal}
use caddy_docker_proxy.Caddyfile.Process.{process}
use caddy_docker_proxy.Config.{server, runs_as, Options}
use caddy_docker_proxy.Generator.Addresses.{
  get_container_ip_addresses, get_service_tasks_ips, get_service_proxy_targets,
}
use caddy_docker_proxy.Generator.Docker.{DockerContainer, Service, SwarmConfig, Answer, Client}
use caddy_docker_proxy.Generator.Labels.{Param, labels_to_caddyfile, filter_labels}
use caddy_docker_proxy.Generator.Networks.{get_ingress_networks, check_swarm_availability}
use caddy_docker_proxy.Generator.Sites.{merge_caddyfile}
use caddy_docker_proxy.Prelude.{
  ℕ, ◌-◌, ◌*◌, ◌^◌, Bool, true, false, not, Option, none, some, List, [], ◌∷◌, ◌++◌, map, keep,
  find_key, Result, ok, err, ltb, if◌then◌else◌, Text, codes, text_eq,
}
use mathlib.Core.Option
use mathlib.Core.List.{foldl}

-- What a template sees besides its functions.
pub data TemplateData : Type 0 where
  of_container : DockerContainer → TemplateData
  of_service : Service → TemplateData

-- What the generator uses of the world outside.
pub record World : Type 0 where
  pub read_file : Text → Answer Text
  pub container_id : Answer Text
  pub template : TemplateData → (List Param → Result Text Text) → Text → Result Text Text
  pub adapt : Text → Result Text (Unit {0})
  pub parse_cidr_ip : Text → Text
  pub network_contains : Text → Text → Bool

-- The fields of CaddyfileGenerator that change. `checked_at` is swarmIsAvailableTime, `none` for the
-- zero time.
pub record Generator : Type 0 where
  pub ingress_networks : List Text
  pub swarm_is_available : List Bool
  pub checked_at : Option ℕ

-- swarmAvailabilityCacheInterval, in nanoseconds
abbrev pub swarm_availability_cache_interval : ℕ
swarm_availability_cache_interval = 60 * 10 ^ 9

abbrev pub is_stale : ℕ → Option ℕ → Bool
is_stale now none = true
is_stale now (some t) = ltb swarm_availability_cache_interval (now - t)

-- CreateGenerator
abbrev pub create_generator : List Client → Generator
create_generator clients = record {
  ingress_networks = [];
  swarm_is_available = map (λ (c : Client). false) clients;
  checked_at = none;
}

-- The container that is built up, the controlled servers, and whether FromLabels has panicked, in which
-- case the program ends and the rest is of no account.
pub record Built : Type 0 where
  pub sites : Container
  pub servers : List Text
  pub panicked : Bool

-- An error of the template engine, as FromLabels returns it.
abbrev pub as_labels_result : Result Text Text → LabelsResult Text
as_labels_result (ok t) = ok t
as_labels_result (err e) = err (template_error e)

module _ (w : World) (o : Options) (clients : List Client) where
  -- The two blocks at the start: ingress networks, and swarm availability.
  unfoldable pub refresh : ℕ → Generator → Generator
  unfolding get_ingress_networks check_swarm_availability
  refresh now g =
      let networks : List Text =
        elim (get_ingress_networks o.ingress_networks w.container_id clients) [
          | ok found ↦ found
          | err e ↦ g.ingress_networks
        ] in
      if is_stale now g.checked_at
      then record {
        ingress_networks = networks;
        swarm_is_available = check_swarm_availability clients;
        checked_at = some now;
      }
      else record g { ingress_networks = networks }

  -- mergeCaddyfile of a container that may be missing after an error.
  abbrev pub merge_result {ℓ} : {E : Type ℓ} → Result E Container → Built → Built
  merge_result (ok c) b = record b { sites = merge_caddyfile o.merge_sites b.sites c }
  merge_result (err e) b = b

  -- mergeCaddyfile of the container of some labels, if there is one: an error is logged, but the panic
  -- of parsePath is not recovered from.
  abbrev pub merge_labels : LabelsResult Container → Built → Built
  merge_labels (ok c) b = record b { sites = merge_caddyfile o.merge_sites b.sites c }
  merge_labels (err no_match) b = record b { panicked = true }
  merge_labels (err (template_error e)) b = b
  merge_labels (err args_eof) b = b
  merge_labels (err out_of_fuel) b = b

  -- The base Caddyfile. It is merged by `Merge`, also with MergeSites.
  unfoldable pub add_base : Container → Container
  unfolding unmarshal merge text_eq
  add_base sites =
      if is_empty o.caddyfile_path then sites else elim (w.read_file o.caddyfile_path) [
        | err e ↦ sites
        | ok content ↦ elim (unmarshal content) [ err e ↦ sites | ok c ↦ merge sites c ]
      ]

  unfoldable pub add_config : Client → SwarmConfig → Built → Built
  unfolding find_key unmarshal merge_caddyfile
  add_config client config b = elim (find_key o.label_prefix config.labels) [
    | none ↦ b
    | some _ ↦ elim (client.config_inspect config.id) [
      | err e ↦ b
      | ok full ↦ merge_result (unmarshal full.content) b
    ]
  ]

  -- The addresses of controlled servers that the controller network allows.
  unfoldable pub allowed : List Text → List Text
  allowed ips = elim o.controller_network [
    | none ↦ ips
    | some network ↦ keep (w.network_contains network) ips
  ]

  abbrev pub add_servers : Option Text → Answer (List Text) → Built → Built
  add_servers none ips b = b
  add_servers (some _) (err e) b = b
  add_servers (some _) (ok ips) b = record b { servers = b.servers ++ allowed ips }

  unfoldable pub get_container_caddyfile : Generator → DockerContainer → LabelsResult Container
  unfolding labels_to_caddyfile filter_labels get_container_ip_addresses
  get_container_caddyfile g c =
      labels_to_caddyfile (λ f t. as_labels_result (w.template (of_container c) f t))
        (filter_labels o.label_prefix c.labels) o.default_import
        (ok (get_container_ip_addresses g.ingress_networks c true))

  unfoldable pub get_service_caddyfile : Generator → Service → LabelsResult Container
  unfolding labels_to_caddyfile filter_labels get_service_proxy_targets
  get_service_caddyfile g s =
      labels_to_caddyfile (λ f t. as_labels_result (w.template (of_service s) f t))
        (filter_labels o.label_prefix s.labels) o.default_import
        (get_service_proxy_targets w.parse_cidr_ip o.proxy_service_tasks clients g.ingress_networks
          s true)

  unfoldable pub add_container : Generator → DockerContainer → Built → Built
  unfolding get_container_caddyfile merge_caddyfile find_key allowed
  add_container g c b = merge_labels (get_container_caddyfile g c) (
      add_servers (find_key o.controlled_servers_label c.labels)
        (ok (get_container_ip_addresses g.ingress_networks c false)) b)

  unfoldable pub add_service : Generator → Service → Built → Built
  unfolding get_service_caddyfile merge_caddyfile find_key allowed get_service_tasks_ips
  add_service g s b = merge_labels (get_service_caddyfile g s) (
      add_servers (find_key o.controlled_servers_label s.labels)
        (get_service_tasks_ips w.parse_cidr_ip clients g.ingress_networks s false) b)

  -- A loop over the answer of a client; an error is logged.
  abbrev pub for_answer : {A : Type 0} → Answer (List A) → (A → Built → Built) → Built → Built
  for_answer (ok xs) f b = foldl (λ acc x. f x acc) b xs
  for_answer (err e) f b = b

  abbrev pub when : Bool → (Built → Built) → Built → Built
  when true f b = f b
  when false f b = b

  -- One client: configs, containers, services. The flag is `g.swarmIsAvailable[i]`.
  unfoldable pub add_client : Generator → Client → Bool → Built → Built
  unfolding add_config add_container add_service
  add_client g client swarm b = when swarm (for_answer client.service_list (add_service g)) (
      for_answer (client.container_list o.scan_stopped_containers) (add_container g)
        (when swarm (for_answer client.config_list (add_config client)) b))

  unfoldable pub add_clients : Generator → List Client → List Bool → Built → Built
  unfolding add_client
  add_clients g [] swarms b = b
  add_clients g (c ∷ cs) [] b = add_clients g cs [] (add_client g c false b)
  add_clients g (c ∷ cs) (swarm ∷ swarms) b = add_clients g cs swarms (add_client g c swarm b)

  -- `Write global blocks first`, and then the remaining blocks.
  unfoldable pub write_sites : Container → Text
  unfolding marshal is_global_block
  write_sites c =
      marshal (of_list (keep is_global_block (to_list c)))
      ++ marshal (of_list (keep (λ b. not (is_global_block b)) (to_list c)))

  -- The options ProcessCaddyfile, the empty Caddyfile; `none` does not occur.
  unfoldable pub finish : Text → Option Text
  unfolding process
  finish content =
      Option.map (λ c. if is_empty c then codes "# Empty caddyfile" else c)
        (if o.process_caddyfile
          then Option.map (λ r. r.0) (process w.adapt content)
          else some content)

  -- What is built before it is written.
  unfoldable pub build : Generator → Built
  unfolding add_base add_clients
  build g =
      add_clients g clients g.swarm_is_available
        (record { sites = add_base create_container; servers = []; panicked = false })

  -- GenerateCaddyfile: the generator, the Caddyfile and the controlled servers; `none` is a panic.
  unfoldable pub generate_caddyfile : ℕ → Generator → Option (Generator × Text × List Text)
  unfolding refresh build write_sites finish runs_as
  generate_caddyfile now g =
      let g' = refresh now g in
      let b = build g' in
      let servers =
        if runs_as server o.mode then b.servers ++ codes "localhost" ∷ [] else b.servers in
      if b.panicked
      then none
      else Option.map (λ content. (g', content, servers)) (finish (write_sites b.sites))
