-- ===== src/Generator/Generate/Unique.antt =====
-- What the clients add keeps site addresses unique with MergeSites.
use caddy_docker_proxy.Caddyfile.Block.{Container}
use caddy_docker_proxy.Caddyfile.FromLabels.{
  LabelsError, template_error, args_eof, no_match, out_of_fuel, LabelsResult,
}
use caddy_docker_proxy.Caddyfile.Parser.{unmarshal}
use caddy_docker_proxy.Config.{Options}
use caddy_docker_proxy.Generator.Addresses.{get_container_ip_addresses, get_service_tasks_ips}
use caddy_docker_proxy.Generator.Docker.{DockerContainer, Service, SwarmConfig, Answer, Client}
use caddy_docker_proxy.Generator.Generate.{
  World, Generator, Built, merge_result, merge_labels, add_config, add_servers,
  get_container_caddyfile, get_service_caddyfile, add_container, add_service, for_answer, when,
  add_client, add_clients,
}
use caddy_docker_proxy.Generator.Sites.{merge_caddyfile}
use caddy_docker_proxy.Generator.Sites.Disjoint.{HasUniqueSites}
use caddy_docker_proxy.Generator.Sites.Unique.{merge_sites-HasUniqueSites}
use caddy_docker_proxy.Prelude.{
  ◌≡◌, refl, sym, subst, Bool, true, false, Option, none, some, List, [], ◌∷◌, find_key, Result, ok,
  err, Text,
}

module _ (w : World) (o : Options) (clients : List Client) (merges : o.merge_sites ≡ true) where
  abbrev IsUniqueBuilt : Built → Type 0
  IsUniqueBuilt b = HasUniqueSites b.sites

  merge_result-IsUnique :
      {E : Type 0} (r : Result E Container) (b : Built)
      → IsUniqueBuilt b
      → IsUniqueBuilt (merge_result w o clients r b)
  merge_result-IsUnique (err e) b u = u
  merge_result-IsUnique (ok c) b u =
      subst (λ t. HasUniqueSites (merge_caddyfile t b.sites c)) (sym merges)
        (merge_sites-HasUniqueSites b.sites c u)

  merge_labels-IsUnique :
      (r : LabelsResult Container) (b : Built)
      → IsUniqueBuilt b
      → IsUniqueBuilt (merge_labels w o clients r b)
  merge_labels-IsUnique (err no_match) b u = u
  merge_labels-IsUnique (err (template_error e)) b u = u
  merge_labels-IsUnique (err args_eof) b u = u
  merge_labels-IsUnique (err out_of_fuel) b u = u
  merge_labels-IsUnique (ok c) b u = merge_result-IsUnique {E = LabelsError} (ok c) b u

  add_servers-IsUnique :
      (label : Option Text) (ips : Answer (List Text)) (b : Built)
      → IsUniqueBuilt b
      → IsUniqueBuilt (add_servers w o clients label ips b)
  add_servers-IsUnique none ips b u = u
  add_servers-IsUnique (some l) (err e) b u = u
  add_servers-IsUnique (some l) (ok ips) b u = u

  for_answer-IsUnique :
      {A : Type 0} (answer : Answer (List A)) (f : A → Built → Built) (b : Built)
      → ((a : A) (b : Built) → IsUniqueBuilt b → IsUniqueBuilt (f a b))
      → IsUniqueBuilt b
      → IsUniqueBuilt (for_answer w o clients answer f b)
  for_answer-IsUnique (err e) f b h u = u
  for_answer-IsUnique (ok []) f b h u = u
  for_answer-IsUnique (ok (x ∷ xs)) f b h u = for_answer-IsUnique (ok xs) f (f x b) h (h x b u)

  when-IsUnique :
      (t : Bool) (f : Built → Built) (b : Built)
      → ((b : Built) → IsUniqueBuilt b → IsUniqueBuilt (f b))
      → IsUniqueBuilt b
      → IsUniqueBuilt (when w o clients t f b)
  when-IsUnique true f b h u = h b u
  when-IsUnique false f b h u = u

  add_config-IsUnique :
      (client : Client) (config : SwarmConfig) (b : Built)
      → IsUniqueBuilt b
      → IsUniqueBuilt (add_config w o clients client config b)
  unfolding add_config
  add_config-IsUnique client config b u = labelled (find_key o.label_prefix config.labels) refl
    where
      inspected :
          (l : Text)
          → find_key o.label_prefix config.labels ≡ some l
          → (r : Answer SwarmConfig) → client.config_inspect config.id ≡ r
          → IsUniqueBuilt (add_config w o clients client config b)
      inspected l e (err x) q = rw (add_config, e, q) u
      inspected l e (ok full) q =
          rw (add_config, e, q) (merge_result-IsUnique (unmarshal full.content) b u)

      labelled :
          (l : Option Text)
          → find_key o.label_prefix config.labels ≡ l
          → IsUniqueBuilt (add_config w o clients client config b)
      labelled none e = rw (add_config, e) u
      labelled (some l) e = inspected l e (client.config_inspect config.id) refl

  add_container-IsUnique :
      (g : Generator) (c : DockerContainer) (b : Built)
      → IsUniqueBuilt b
      → IsUniqueBuilt (add_container w o clients g c b)
  unfolding add_container
  add_container-IsUnique g c b u =
      merge_labels-IsUnique (get_container_caddyfile w o clients g c) _ (
        add_servers-IsUnique (find_key o.controlled_servers_label c.labels)
          (ok (get_container_ip_addresses g.ingress_networks c false)) b u)

  add_service-IsUnique :
      (g : Generator) (s : Service) (b : Built)
      → IsUniqueBuilt b
      → IsUniqueBuilt (add_service w o clients g s b)
  unfolding add_service
  add_service-IsUnique g s b u = merge_labels-IsUnique (get_service_caddyfile w o clients g s) _ (
      add_servers-IsUnique (find_key o.controlled_servers_label s.labels)
        (get_service_tasks_ips w.parse_cidr_ip clients g.ingress_networks s false) b u)

  add_client-IsUnique :
      (g : Generator) (c : Client) (swarm : Bool) (b : Built)
      → IsUniqueBuilt b
      → IsUniqueBuilt (add_client w o clients g c swarm b)
  unfolding add_client
  add_client-IsUnique g c swarm b u =
      when-IsUnique swarm _ _
        (λ d.
          for_answer-IsUnique c.service_list (add_service w o clients g) d (add_service-IsUnique g))
        (for_answer-IsUnique (c.container_list o.scan_stopped_containers) _ _
          (add_container-IsUnique g)
          (when-IsUnique swarm _ b
            (λ d.
              for_answer-IsUnique c.config_list (add_config w o clients c) d
                (add_config-IsUnique c))
            u))

  -- With MergeSites, if no site address stands in two site blocks of the base Caddyfile, none does in
  -- the container that GenerateCaddyfile writes, after the configs, containers and services of all
  -- clients were merged in.
  pub add_clients-HasUniqueSites :
      (g : Generator) (cs : List Client) (swarms : List Bool) (b : Built)
      → HasUniqueSites b.sites
      → HasUniqueSites (add_clients w o clients g cs swarms b).sites
  unfolding add_clients
  add_clients-HasUniqueSites g [] swarms b u = u
  add_clients-HasUniqueSites g (c ∷ cs) [] b u =
      add_clients-HasUniqueSites g cs [] (add_client w o clients g c false b)
        (add_client-IsUnique g c false b u)
  add_clients-HasUniqueSites g (c ∷ cs) (swarm ∷ swarms) b u =
      add_clients-HasUniqueSites g cs swarms (add_client w o clients g c swarm b)
        (add_client-IsUnique g c swarm b u)
