-- ===== src/Generator/Generate/Panicked.antt =====
-- Where GenerateCaddyfile panics.
use caddy_docker_proxy.Caddyfile.Block.{Container}
use caddy_docker_proxy.Caddyfile.FromLabels.{
  template_error, args_eof, no_match, out_of_fuel, LabelsResult,
}
use caddy_docker_proxy.Caddyfile.Parser.{unmarshal}
use caddy_docker_proxy.Config.{Options}
use caddy_docker_proxy.Generator.Addresses.{get_container_ip_addresses, get_service_tasks_ips}
use caddy_docker_proxy.Generator.Docker.{DockerContainer, Service, SwarmConfig, Answer, Client}
use caddy_docker_proxy.Generator.Generate.{
  World, Generator, Built, merge_result, merge_labels, add_config, add_servers,
  get_container_caddyfile, get_service_caddyfile, add_container, add_service, for_answer, when,
  add_client, add_clients, build,
}
use caddy_docker_proxy.Prelude.{
  ◌≡◌, refl, ◌⊎◌, inl, inr, Bool, true, false, Option, none, some, List, [], ◌∷◌, In, find_key,
  Result, ok, err, Text,
}

-- What a panic so far shows.
abbrev ShowsIn : Type 0 → Built → Type 0
ShowsIn X b = b.panicked ≡ true → X

module _ (w : World) (o : Options) (clients : List Client) (g : Generator) where
  -- FromLabels panics on the labels of a container or a service that a client lists.
  abbrev pub HasPanic : Type 0
  HasPanic =
      (c : Client) × In c clients
      × (((containers : List DockerContainer) × (x : DockerContainer) × (c.container_list
                o.scan_stopped_containers
              ≡ ok containers)
            × In x containers
            × (get_container_caddyfile w o clients g x ≡ err no_match))
          ⊎ ((services : List Service) × (x : Service) × (c.service_list ≡ ok services)
              × In x services
              × (get_service_caddyfile w o clients g x ≡ err no_match)))

  merge_labels-ShowsIn :
      (X : Type 0) (r : LabelsResult Container) (b : Built)
      → (r ≡ err no_match → X)
      → ShowsIn X b
      → ShowsIn X (merge_labels w o clients r b)
  merge_labels-ShowsIn X (ok c) b h s = s
  merge_labels-ShowsIn X (err no_match) b h s = λ e. h refl
  merge_labels-ShowsIn X (err (template_error e)) b h s = s
  merge_labels-ShowsIn X (err args_eof) b h s = s
  merge_labels-ShowsIn X (err out_of_fuel) b h s = s

  merge_result-ShowsIn :
      {E : Type 0} (X : Type 0) (r : Result E Container) (b : Built)
      → ShowsIn X b
      → ShowsIn X (merge_result w o clients r b)
  merge_result-ShowsIn X (ok c) b s = s
  merge_result-ShowsIn X (err e) b s = s

  add_servers-ShowsIn :
      (X : Type 0) (label : Option Text) (ips : Answer (List Text)) (b : Built)
      → ShowsIn X b
      → ShowsIn X (add_servers w o clients label ips b)
  add_servers-ShowsIn X none ips b s = s
  add_servers-ShowsIn X (some l) (err e) b s = s
  add_servers-ShowsIn X (some l) (ok ips) b s = s

  for_answer-ShowsIn :
      {A : Type 0} (X : Type 0) (answer : Answer (List A)) (f : A → Built → Built) (b : Built)
      → ((xs : List A) (a : A)
          → answer ≡ ok xs
          → In a xs
          → (b : Built) → ShowsIn X b
          → ShowsIn X (f a b))
      → ShowsIn X b
      → ShowsIn X (for_answer w o clients answer f b)
  for_answer-ShowsIn X (err e) f b h s = s
  for_answer-ShowsIn X (ok []) f b h s = s
  for_answer-ShowsIn {A} X (ok (x ∷ xs)) f b h s =
      over_list xs (f x b) (λ a i. h (x ∷ xs) a refl (inr i)) (h (x ∷ xs) x refl (inl refl) b s)
    where
      over_list :
          (ys : List A) (b : Built)
          → ((a : A) → In a ys → (b : Built) → ShowsIn X b → ShowsIn X (f a b))
          → ShowsIn X b
          → ShowsIn X (for_answer w o clients (ok ys) f b)
      over_list [] b k s = s
      over_list (y ∷ ys) b k s = over_list ys (f y b) (λ a i. k a (inr i)) (k y (inl refl) b s)

  when-ShowsIn :
      (X : Type 0) (t : Bool) (f : Built → Built) (b : Built)
      → ((b : Built) → ShowsIn X b → ShowsIn X (f b))
      → ShowsIn X b
      → ShowsIn X (when w o clients t f b)
  when-ShowsIn X true f b h s = h b s
  when-ShowsIn X false f b h s = s

  add_config-ShowsIn :
      (X : Type 0) (client : Client) (config : SwarmConfig) (b : Built)
      → ShowsIn X b
      → ShowsIn X (add_config w o clients client config b)
  unfolding add_config
  add_config-ShowsIn X client config b s =
      labelled (find_key o.label_prefix config.labels) (client.config_inspect config.id)
    where
      inspected : Answer SwarmConfig → Built
      inspected r = elim r [
        | err e ↦ b
        | ok full ↦ merge_result w o clients (unmarshal full.content) b
      ]

      labelled :
          (l : Option Text) (r : Answer SwarmConfig)
          → ShowsIn X (elim l [ none ↦ b | some _ ↦ inspected r ])
      labelled none r = s
      labelled (some l) (err e) = s
      labelled (some l) (ok full) = merge_result-ShowsIn X (unmarshal full.content) b s

  add_container-ShowsIn :
      (X : Type 0) (c : DockerContainer) (b : Built)
      → (get_container_caddyfile w o clients g c ≡ err no_match → X)
      → ShowsIn X b
      → ShowsIn X (add_container w o clients g c b)
  unfolding add_container
  add_container-ShowsIn X c b h s =
      merge_labels-ShowsIn X (get_container_caddyfile w o clients g c) _ h (
        add_servers-ShowsIn X (find_key o.controlled_servers_label c.labels)
          (ok (get_container_ip_addresses g.ingress_networks c false)) b s)

  add_service-ShowsIn :
      (X : Type 0) (c : Service) (b : Built)
      → (get_service_caddyfile w o clients g c ≡ err no_match → X)
      → ShowsIn X b
      → ShowsIn X (add_service w o clients g c b)
  unfolding add_service
  add_service-ShowsIn X c b h s =
      merge_labels-ShowsIn X (get_service_caddyfile w o clients g c) _ h (
        add_servers-ShowsIn X (find_key o.controlled_servers_label c.labels)
          (get_service_tasks_ips w.parse_cidr_ip clients g.ingress_networks c false) b s)

  add_client-ShowsIn :
      (c : Client) (swarm : Bool) (b : Built)
      → In c clients
      → ShowsIn HasPanic b
      → ShowsIn HasPanic (add_client w o clients g c swarm b)
  unfolding add_client
  add_client-ShowsIn c swarm b i s =
      when-ShowsIn HasPanic swarm _ _
        (λ d.
          for_answer-ShowsIn HasPanic c.service_list (add_service w o clients g) d
            (λ xs a e j b'. add_service-ShowsIn HasPanic a b' (λ p. (c, i, inr (xs, a, e, j, p)))))
        (for_answer-ShowsIn HasPanic (c.container_list o.scan_stopped_containers) _ _
          (λ xs a e j b'. add_container-ShowsIn HasPanic a b' (λ p. (c, i, inl (xs, a, e, j, p))))
          (when-ShowsIn HasPanic swarm _ b
            (λ d.
              for_answer-ShowsIn HasPanic c.config_list (add_config w o clients c) d
                (λ xs a e j b'. add_config-ShowsIn HasPanic c a b'))
            s))

  add_clients-ShowsIn :
      (cs : List Client) (swarms : List Bool) (b : Built)
      → ((c : Client) → In c cs → In c clients)
      → ShowsIn HasPanic b
      → ShowsIn HasPanic (add_clients w o clients g cs swarms b)
  unfolding add_clients
  add_clients-ShowsIn [] swarms b within s = s
  add_clients-ShowsIn (c ∷ cs) [] b within s =
      add_clients-ShowsIn cs [] (add_client w o clients g c false b) (λ d i. within d (inr i))
        (add_client-ShowsIn c false b (within c (inl refl)) s)
  add_clients-ShowsIn (c ∷ cs) (swarm ∷ swarms) b within s =
      add_clients-ShowsIn cs swarms (add_client w o clients g c swarm b) (λ d i. within d (inr i))
        (add_client-ShowsIn c swarm b (within c (inl refl)) s)

  -- A panic comes from the labels of a container or a service.
  pub build-HasPanic : (build w o clients g).panicked ≡ true → HasPanic
  unfolding build
  build-HasPanic =
      add_clients-ShowsIn clients g.swarm_is_available _ (λ c i. i) (λ e. absurd (no_panic e))
    where
      no_panic : false ≡ true → ⊥
      no_panic e = cc
