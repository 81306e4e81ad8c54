-- ===== src/Caddyfile/Sort.antt =====
-- caddyfile/marshal.go: Container.sort. `sort.SliceStable` is the stable insertion sort: compareBlocks
-- orders all blocks, and then every stable sort has the same result.
pub mod Stable
pub mod Shuffle
use caddy_docker_proxy.Caddyfile.Block.{Block, block, Container, nil, cons, of_list}
use caddy_docker_proxy.Caddyfile.Compare.{compare_blocks}
use caddy_docker_proxy.Prelude.{Ordering, Bool, true, false, List, [], ◌∷◌, if◌then◌else◌}

-- `compareBlocks(…) == -1`
abbrev pub is_less : Ordering → Bool
is_less Ordering.lt = true
is_less _ = false

-- `insert_by key x xs` puts x in front of the first element that is not less than x. Elements are
-- compared by the block that `key` reads from them.
unfoldable pub insert_by : {A : Type 0} → (A → Block) → A → List A → List A
insert_by key x [] = x ∷ []
insert_by key x (y ∷ ys) =
    if is_less (compare_blocks (key y) (key x)) then y ∷ insert_by key x ys else x ∷ y ∷ ys

unfoldable pub slice_stable : {A : Type 0} → (A → Block) → List A → List A
unfolding insert_by compare_blocks
slice_stable key [] = []
slice_stable key (x ∷ xs) = insert_by key x (slice_stable key xs)

abbrev pub same : Block → Block
same b = b

-- The children's containers are sorted first, and then the children.
unfoldable mutual
  unfolding slice_stable

  pub sort_block : Block → Block
  sort_block (block cs o ks) = block (of_list (slice_stable same (sort_each cs))) o ks

  pub sort_each : Container → List Block
  sort_each nil = []
  sort_each (cons b cs) = sort_block b ∷ sort_each cs

unfoldable pub sort : Container → Container
unfolding sort_each slice_stable
sort cs = of_list (slice_stable same (sort_each cs))
