-- ===== src/Generator/Labels/Targets.antt =====
-- The template function upstreams does not depend on the order in which Docker lists the addresses.
use caddy_docker_proxy.Generator.Labels.{Param, apply_params, upstreams}
use caddy_docker_proxy.Prelude.{
  ◌≡◌, ap, List, Perm, map, sort_strings, join, ok, sort_strings-Perm, Text, codes,
}

-- For the same targets in any order, upstreams writes the same text, whatever its arguments are.
pub upstreams-Perm :
    (ts us : List Text) (params : List Param)
    → Perm ts us
    → upstreams (ok ts) params ≡ upstreams (ok us) params
unfolding upstreams
upstreams-Perm ts us params p =
    ap (λ xs. ok (join (codes " ") (sort_strings (map (apply_params params) xs))))
      (sort_strings-Perm p)
