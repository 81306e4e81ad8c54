-- ===== src/Caddyfile/Marshal/Canonical.antt =====
-- Marshal depends on the blocks and not on their order.
use caddy_docker_proxy.Caddyfile.Block.{Container}
use caddy_docker_proxy.Caddyfile.Marshal.{write, marshal}
use caddy_docker_proxy.Caddyfile.Sort.{sort}
use caddy_docker_proxy.Caddyfile.Sort.Shuffle.{Shuffle, sort-Shuffle, Shuffle-sort}
use caddy_docker_proxy.Prelude.{◌≡◌, sym, ap}

-- Two containers that hold the same blocks in other orders, at every level, have the same Caddyfile.
pub marshal-Shuffle : {cs ds : Container} → Shuffle cs ds → marshal cs ≡ marshal ds
unfolding marshal
marshal-Shuffle h = ap (λ c. write c 0) (sort-Shuffle h)

-- Marshalling a container that Marshal has sorted gives the same text again.
pub marshal-sort : (c : Container) → marshal (sort c) ≡ marshal c
marshal-sort c = sym (marshal-Shuffle (Shuffle-sort c))
