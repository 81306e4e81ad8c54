-- ===== src/DockerUtils/Tests.antt =====
-- Runs of the search for the container's id.
use caddy_docker_proxy.DockerUtils.{
  extract_container_id_from_mount_info, extract_container_id_from_c_groups,
}
use caddy_docker_proxy.DockerUtils.Found.{
  IsContainerId, mount_of, extract_container_id_from_mount_info-IsContainerId,
}
use caddy_docker_proxy.Prelude.{◌≡◌, refl, none, some, ◌++◌, Text, codes}

abbrev an_id : Text
an_id = codes "0123456789abcdef0123456789abcdef0123456789abcdef0123456789abcdef"

finds_in_mounts :
    extract_container_id_from_mount_info (
      codes "1 2 /containers/x/y "
      ++ (codes "/var/lib/docker/containers/" ++ (an_id ++ codes "/hostname")))
    ≡ some an_id
unfolding extract_container_id_from_mount_info
finds_in_mounts = refl

finds_in_c_groups :
    extract_container_id_from_c_groups
      (codes "12:cpu:/\n11:memory:/docker/" ++ (an_id ++ codes "\n0::/system\n"))
    ≡ some an_id
unfolding extract_container_id_from_c_groups
finds_in_c_groups = refl

no_id : extract_container_id_from_c_groups (codes "0::/\n") ≡ none
unfolding extract_container_id_from_c_groups
no_id = refl

extract_container_id_from_mount_info-IsContainerId_example :
    IsContainerId an_id
    × ((before : Text) × (after : Text) × (codes "1 2 /containers/x/y "
            ++ (codes "/var/lib/docker/containers/" ++ (an_id ++ codes "/hostname"))
          ≡ before ++ mount_of an_id after))
extract_container_id_from_mount_info-IsContainerId_example =
    extract_container_id_from_mount_info-IsContainerId
      (codes "1 2 /containers/x/y "
        ++ (codes "/var/lib/docker/containers/" ++ (an_id ++ codes "/hostname")))
      an_id finds_in_mounts
