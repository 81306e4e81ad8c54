-- ===== src/Generator/Generate/Panics.antt =====
-- A label that makes GenerateCaddyfile panic.
use caddy_docker_proxy.Caddyfile.Block.{Container, create_container}
use caddy_docker_proxy.Caddyfile.FromLabels.{
  template_error, args_eof, no_match, out_of_fuel, LabelsResult,
}
use caddy_docker_proxy.Caddyfile.Parser.{unmarshal}
use caddy_docker_proxy.Config.{Options}
use caddy_docker_proxy.Generator.Addresses.{get_container_ip_addresses, get_service_tasks_ips}
use caddy_docker_proxy.Generator.Docker.{DockerContainer, Service, SwarmConfig, Answer, Client}
use caddy_docker_proxy.Generator.Generate.{
  World, Generator, Built, refresh, merge_result, merge_labels, add_base, add_config, add_servers,
  get_container_caddyfile, get_service_caddyfile, add_container, add_service, for_answer, when,
  add_client, add_clients, build, generate_caddyfile,
}
use caddy_docker_proxy.Prelude.{
  ℕ, ◌≡◌, refl, sym, subst, ◌∙◌, inl, inr, Bool, true, false, Option, none, some, List, [], ◌∷◌, In,
  find_key, Result, ok, err, Text,
}

module _ (w : World) (o : Options) (clients : List Client) where
  -- A step after a panic does not undo it.
  abbrev Keeps : (Built → Built) → Type 0
  Keeps f = (b : Built) → b.panicked ≡ true → (f b).panicked ≡ true

  merge_labels-Keeps : (r : LabelsResult Container) → Keeps (merge_labels w o clients r)
  merge_labels-Keeps (ok c) b e = e
  merge_labels-Keeps (err no_match) b e = refl
  merge_labels-Keeps (err (template_error t)) b e = e
  merge_labels-Keeps (err args_eof) b e = e
  merge_labels-Keeps (err out_of_fuel) b e = e

  add_servers-panicked :
      (label : Option Text) (ips : Answer (List Text)) (b : Built)
      → (add_servers w o clients label ips b).panicked ≡ b.panicked
  add_servers-panicked none ips b = refl
  add_servers-panicked (some l) (err e) b = refl
  add_servers-panicked (some l) (ok ips) b = refl

  for_answer-Keeps :
      {A : Type 0} (answer : Answer (List A)) (f : A → Built → Built)
      → ((a : A) → Keeps (f a))
      → Keeps (for_answer w o clients answer f)
  for_answer-Keeps (err e) f h b p = p
  for_answer-Keeps (ok []) f h b p = p
  for_answer-Keeps (ok (x ∷ xs)) f h b p = for_answer-Keeps (ok xs) f h (f x b) (h x b p)

  -- One element panics.
  for_answer-panics :
      {A : Type 0} (xs : List A) (x : A) (f : A → Built → Built)
      → ((a : A) → Keeps (f a))
      → In x xs
      → ((b : Built) → (f x b).panicked ≡ true)
      → (b : Built) → (for_answer w o clients (ok xs) f b).panicked ≡ true
  for_answer-panics [] x f h i p b = absurd i
  for_answer-panics (y ∷ xs) x f h (inl e) p b =
      for_answer-Keeps (ok xs) f h (f y b) (subst (λ z. (f z b).panicked ≡ true) (sym e) (p b))
  for_answer-panics (y ∷ xs) x f h (inr i) p b = for_answer-panics xs x f h i p (f y b)

  when-Keeps : (t : Bool) (f : Built → Built) → Keeps f → Keeps (when w o clients t f)
  when-Keeps true f h b p = h b p
  when-Keeps false f h b p = p

  add_config-Keeps :
      (client : Client) (config : SwarmConfig) → Keeps (add_config w o clients client config)
  unfolding add_config
  add_config-Keeps client config b p =
      labelled (find_key o.label_prefix config.labels) (client.config_inspect config.id)
    where
      inspected : Answer SwarmConfig → Built
      inspected r = elim r [
        | err e ↦ b
        | ok full ↦ merge_result w o clients (unmarshal full.content) b
      ]

      merged :
          {E : Type 0} (r : Result E Container) → (merge_result w o clients r b).panicked ≡ true
      merged (ok c) = p
      merged (err e) = p

      chosen : Option Text → Answer SwarmConfig → Built
      chosen l r = elim l [ none ↦ b | some _ ↦ inspected r ]

      labelled : (l : Option Text) (r : Answer SwarmConfig) → (chosen l r).panicked ≡ true
      labelled none r = p
      labelled (some l) (err e) = p
      labelled (some l) (ok full) = merged (unmarshal full.content)

  module _ (g : Generator) where
    add_container-Keeps : (c : DockerContainer) → Keeps (add_container w o clients g c)
    unfolding add_container
    add_container-Keeps c b p = merge_labels-Keeps (get_container_caddyfile w o clients g c) _ (
        add_servers-panicked (find_key o.controlled_servers_label c.labels)
          (ok (get_container_ip_addresses g.ingress_networks c false)) b
        ∙ p)

    add_service-Keeps : (s : Service) → Keeps (add_service w o clients g s)
    unfolding add_service
    add_service-Keeps s b p = merge_labels-Keeps (get_service_caddyfile w o clients g s) _ (
        add_servers-panicked (find_key o.controlled_servers_label s.labels)
          (get_service_tasks_ips w.parse_cidr_ip clients g.ingress_networks s false) b
        ∙ p)

    add_container-panics :
        (c : DockerContainer)
        → get_container_caddyfile w o clients g c ≡ err no_match
        → (b : Built) → (add_container w o clients g c b).panicked ≡ true
    unfolding add_container
    add_container-panics c e b = rw (add_container, e) refl

    add_client-Keeps : (c : Client) (swarm : Bool) → Keeps (add_client w o clients g c swarm)
    unfolding add_client
    add_client-Keeps c swarm b p =
        when-Keeps swarm _
          (for_answer-Keeps c.service_list (add_service w o clients g) add_service-Keeps) _
          (for_answer-Keeps (c.container_list o.scan_stopped_containers)
            (add_container w o clients g) add_container-Keeps _
            (when-Keeps swarm _
              (for_answer-Keeps c.config_list (add_config w o clients c) (add_config-Keeps c)) b p))

    add_client-panics :
        (c : Client) (swarm : Bool) (containers : List DockerContainer) (x : DockerContainer)
        → c.container_list o.scan_stopped_containers ≡ ok containers
        → In x containers
        → get_container_caddyfile w o clients g x ≡ err no_match
        → (b : Built) → (add_client w o clients g c swarm b).panicked ≡ true
    unfolding add_client
    add_client-panics c swarm containers x q i e b =
        when-Keeps swarm _
          (for_answer-Keeps c.service_list (add_service w o clients g) add_service-Keeps) _
          (subst
            (λ z.
              (for_answer w o clients z (add_container w o clients g) (
                when w o clients swarm
                  (for_answer w o clients c.config_list (add_config w o clients c)) b)).panicked
              ≡ true)
            (sym q)
            (for_answer-panics containers x (add_container w o clients g) add_container-Keeps i
              (add_container-panics x e) _))

    add_clients-Keeps :
        (cs : List Client) (swarms : List Bool) → Keeps (add_clients w o clients g cs swarms)
    unfolding add_clients
    add_clients-Keeps [] swarms b p = p
    add_clients-Keeps (c ∷ cs) [] b p =
        add_clients-Keeps cs [] (add_client w o clients g c false b) (add_client-Keeps c false b p)
    add_clients-Keeps (c ∷ cs) (swarm ∷ swarms) b p =
        add_clients-Keeps cs swarms (add_client w o clients g c swarm b)
          (add_client-Keeps c swarm b p)

    add_clients-panics :
        (cs : List Client) (swarms : List Bool) (c : Client) (containers : List DockerContainer)
        (x : DockerContainer)
        → In c cs
        → c.container_list o.scan_stopped_containers ≡ ok containers
        → In x containers
        → get_container_caddyfile w o clients g x ≡ err no_match
        → (b : Built) → (add_clients w o clients g cs swarms b).panicked ≡ true
    unfolding add_clients
    add_clients-panics [] swarms c containers x j q i e b = absurd j
    add_clients-panics (d ∷ cs) [] c containers x (inl k) q i e b = add_clients-Keeps cs [] _ (
        subst (λ z. (add_client w o clients g z false b).panicked ≡ true) (sym k)
          (add_client-panics c false containers x q i e b))
    add_clients-panics (d ∷ cs) [] c containers x (inr j) q i e b =
        add_clients-panics cs [] c containers x j q i e _
    add_clients-panics (d ∷ cs) (swarm ∷ swarms) c containers x (inl k) q i e b =
        add_clients-Keeps cs swarms _ (
          subst (λ z. (add_client w o clients g z swarm b).panicked ≡ true) (sym k)
            (add_client-panics c swarm containers x q i e b))
    add_clients-panics (d ∷ cs) (swarm ∷ swarms) c containers x (inr j) q i e b =
        add_clients-panics cs swarms c containers x j q i e _

  -- One container is enough to end the program: if FromLabels panics on the labels of a container that
  -- one of the Docker clients lists, GenerateCaddyfile returns nothing, whatever the others list.
  pub generate_caddyfile-panics :
      (now : ℕ) (g : Generator) (c : Client) (containers : List DockerContainer)
      (x : DockerContainer)
      → In c clients
      → c.container_list o.scan_stopped_containers ≡ ok containers
      → In x containers
      → get_container_caddyfile w o clients (refresh w o clients now g) x ≡ err no_match
      → generate_caddyfile w o clients now g ≡ none
  unfolding generate_caddyfile build
  generate_caddyfile-panics now g c containers x j q i e =
      rw
        (
          generate_caddyfile,
          add_clients-panics (refresh w o clients now g) clients
              (refresh w o clients now g).swarm_is_available c containers x j q i e
              (record {
                sites = add_base w o clients create_container;
                servers = [];
                panicked = false;
              }),
        )
        refl
