-- ===== src/Generator/Addresses.antt =====
-- generator/containers.go and generator/services.go: the addresses of containers and services. The
-- map `g.ingressNetworks` is the list of its keys, all of which are true. Warnings are not modelled.
use caddy_docker_proxy.Generator.Docker.{
  NetworkEndpoint, DockerContainer, VirtualIp, Service, NetworkAttachment, Task, Answer, Client,
}
use caddy_docker_proxy.Prelude.{
  Bool, true, not, ◌||◌, Option, none, some, List, [], ◌∷◌, ◌++◌, map, keep, flat_map, find_key,
  has_member, ok, ◌>>=◌, if◌then◌else◌, Text, codes, text_eq,
}

-- IngressNetworkLabel
abbrev pub ingress_network_label : Text
ingress_network_label = codes "caddy_ingress_network"

-- The `include` of a network: any, the one that the label names, or an ingress network.
unfoldable pub includes : Bool → Option Text → List Text → Text → Text → Bool
unfolding text_eq has_member
includes only_ingress_ips override ingress_networks name id =
    if not only_ingress_ips
    then true
    else elim override [ some label ↦ text_eq name label | none ↦ has_member id ingress_networks ]

unfoldable pub get_container_ip_addresses : List Text → DockerContainer → Bool → List Text
unfolding includes find_key
get_container_ip_addresses ingress_networks c only_ingress_ips =
    map (λ (n : NetworkEndpoint). n.ip_address)
      (keep
        (λ (n : NetworkEndpoint).
          includes only_ingress_ips (find_key ingress_network_label c.labels) ingress_networks
            n.network_name n.network_id)
        c.networks)

unfoldable pub get_service_virtual_ips : List Text → Service → Bool → List Text
unfolding has_member
get_service_virtual_ips ingress_networks s only_ingress_ips =
    map (λ (v : VirtualIp). v.addr)
      (keep (λ (v : VirtualIp). not only_ingress_ips || has_member v.network_id ingress_networks)
        s.virtual_ips)

-- `ipAddress, _, _ := net.ParseCIDR(address); ipAddress.String()` is a parameter.
module _ (parse_cidr_ip : Text → Text) where
  unfoldable pub attachment_ips : Bool → Option Text → List Text → NetworkAttachment → List Text
  unfolding includes
  attachment_ips only_ingress_ips override ingress_networks a =
      if includes only_ingress_ips override ingress_networks a.network_name a.network_id
      then map parse_cidr_ip a.addresses
      else []

  unfoldable pub task_ips : Bool → Option Text → List Text → Task → List Text
  unfolding attachment_ips
  task_ips only_ingress_ips override ingress_networks t =
      if t.is_running
      then flat_map (attachment_ips only_ingress_ips override ingress_networks) t.attachments
      else []

  -- The loop over the clients; an error of one drops what was found.
  unfoldable pub tasks_of_clients :
      List Client → Bool → Option Text → List Text → Text → Answer (List Text)
  unfolding task_ips
  tasks_of_clients [] only_ingress_ips override ingress_networks id = ok []
  tasks_of_clients (c ∷ cs) only_ingress_ips override ingress_networks id = do
    tasks ← c.task_list id
    rest ← tasks_of_clients cs only_ingress_ips override ingress_networks id
    ok (flat_map (task_ips only_ingress_ips override ingress_networks) tasks ++ rest)

  unfoldable pub get_service_tasks_ips :
      List Client → List Text → Service → Bool → Answer (List Text)
  unfolding tasks_of_clients find_key
  get_service_tasks_ips clients ingress_networks s only_ingress_ips =
      tasks_of_clients clients only_ingress_ips (find_key ingress_network_label s.labels)
        ingress_networks s.id

  -- The flag is `g.options.ProxyServiceTasks`. getServiceVirtualIps has no error; its addresses are
  -- not used.
  unfoldable pub get_service_proxy_targets :
      Bool → List Client → List Text → Service → Bool → Answer (List Text)
  unfolding get_service_tasks_ips
  get_service_proxy_targets proxy_service_tasks clients ingress_networks s only_ingress_ips =
      if proxy_service_tasks
      then get_service_tasks_ips clients ingress_networks s only_ingress_ips
      else ok (s.name ∷ [])
