-- ===== src/Caddyfile/Merge/Takes.antt =====
-- What a merge takes over from the second container, and what it keeps of both.
use caddy_docker_proxy.Caddyfile.Block.{
  Block, Container, nil, cons, children, keys, get_first_key, to_list,
}
use caddy_docker_proxy.Caddyfile.Merge.{proxy_keys}
use caddy_docker_proxy.Caddyfile.Merge.Keeps.{Grows}
use caddy_docker_proxy.Prelude.{◌≡◌, In, Text}

-- Each block of `bs` has one in `ds` with the same first key, with its further keys but a matcher in
-- front of them, and with its children taken over in the same way.
pub data Takes : Container → Container → Type 0 where
  nothing_taken : {ds : Container} → Takes nil ds
  takes :
      {bs ds : Container} {b : Block} (x : Block)
      → In x (to_list ds)
      → get_first_key x ≡ get_first_key b
      → ((k : Text) → In k (proxy_keys (keys b)) → In k (keys x))
      → Takes (children b) (children x)
      → Takes bs ds
      → Takes (cons b bs) ds

-- A block of a container that grows.
abbrev GrownOf : Block → Container → Type 0
GrownOf x es =
    (y : Block) × In y (to_list es)
    × (get_first_key y ≡ get_first_key x)
    × ((k : Text) → In k (keys x) → In k (keys y))
    × Grows (children x) (children y)

-- The block that is merged in.
abbrev TakenIn : Block → Container → Type 0
TakenIn b ds =
    (x : Block) × In x (to_list ds)
    × (get_first_key x ≡ get_first_key b)
    × ((k : Text) → In k (proxy_keys (keys b)) → In k (keys x))
    × Takes (children b) (children x)
