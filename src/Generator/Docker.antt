-- ===== src/Generator/Docker.antt =====
-- docker/client.go and the parts of the Docker API's types that the generator reads: what a Docker
-- client answers. Errors are their messages.
use caddy_docker_proxy.Prelude.{Bool, List, Entries, Result, Text}

-- A network of a container: the name is the map's key.
pub record NetworkEndpoint : Type 0 where
  pub network_name : Text
  pub network_id : Text
  pub ip_address : Text

pub record DockerContainer : Type 0 where
  pub id : Text
  pub labels : Entries Text
  pub networks : List NetworkEndpoint

pub record VirtualIp : Type 0 where
  pub network_id : Text
  pub addr : Text

pub record Service : Type 0 where
  pub id : Text
  pub name : Text
  pub labels : Entries Text
  pub virtual_ips : List VirtualIp

pub record NetworkAttachment : Type 0 where
  pub network_id : Text
  pub network_name : Text
  pub addresses : List Text

-- `is_running`: `task.Status.State == swarm.TaskStateRunning`
pub record Task : Type 0 where
  pub is_running : Bool
  pub attachments : List NetworkAttachment

pub record Network : Type 0 where
  pub id : Text
  pub name : Text
  pub ingress : Bool

pub record SwarmConfig : Type 0 where
  pub id : Text
  pub labels : Entries Text
  pub content : Text

abbrev pub Answer : Type 0 → Type 0
Answer A = Result Text A

-- docker.Client. `info` says if the local node state is active; `task_list` takes the service's id
-- and lists the tasks that should run; `container_inspect` gives the network ids of a container.
pub record Client : Type 0 where
  pub info : Answer Bool
  pub config_list : Answer (List SwarmConfig)
  pub config_inspect : Text → Answer SwarmConfig
  pub container_list : Bool → Answer (List DockerContainer)
  pub service_list : Answer (List Service)
  pub task_list : Text → Answer (List Task)
  pub network_list : Answer (List Network)
  pub container_inspect : Text → Answer (List Text)
  pub network_inspect : Text → Answer Network
