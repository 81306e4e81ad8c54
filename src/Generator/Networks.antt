-- ===== src/Generator/Networks.antt =====
-- generator/generator.go: getIngressNetworks and checkSwarmAvailability. The map of ingress networks
-- is the list of its keys, with repetitions.
use caddy_docker_proxy.Generator.Docker.{Network, Answer, Client}
use caddy_docker_proxy.Prelude.{
  Bool, false, List, [], ◌∷◌, ◌++◌, map, flat_map, ok, err, ◌>>=◌, if◌then◌else◌, Text, text_eq,
}

abbrev pub both_names : Network → List Text
both_names n = n.id ∷ n.name ∷ []

-- The names of options.IngressNetworks, matched with the networks of one client.
unfoldable pub named_networks : List Text → List Network → List Text
unfolding text_eq
named_networks names [] = []
named_networks names (n ∷ ns) =
    let rest = named_networks names ns in
    let found = flat_map (λ name. if text_eq n.name name then both_names n else []) names in
    if n.ingress then rest else found ++ rest

-- The networks of caddy's own container.
unfoldable pub inspected_networks : Client → List Text → Answer (List Text)
inspected_networks c [] = ok []
inspected_networks c (id ∷ ids) = do
  n ← c.network_inspect id
  rest ← inspected_networks c ids
  ok (if n.ingress then rest else both_names n ++ rest)

-- What one client contributes. `container_id` is dockerUtils.GetCurrentContainerID.
unfoldable pub client_networks : List Text → Answer Text → Client → Answer (List Text)
unfolding named_networks inspected_networks
client_networks [] container_id c = do
  id ← container_id
  ids ← c.container_inspect id
  inspected_networks c ids
client_networks (name ∷ names) container_id c = do
  networks ← c.network_list
  ok (named_networks (name ∷ names) networks)

unfoldable pub get_ingress_networks : List Text → Answer Text → List Client → Answer (List Text)
unfolding client_networks
get_ingress_networks names container_id [] = ok []
get_ingress_networks names container_id (c ∷ cs) = do
  found ← client_networks names container_id c
  rest ← get_ingress_networks names container_id cs
  ok (found ++ rest)

abbrev pub is_active : Answer Bool → Bool
is_active (ok active) = active
is_active (err e) = false

-- The new slice swarmIsAvailable.
unfoldable pub check_swarm_availability : List Client → List Bool
check_swarm_availability cs = map (λ (c : Client). is_active c.info) cs
