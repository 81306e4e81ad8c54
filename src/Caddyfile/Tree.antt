-- ===== src/Caddyfile/Tree.antt =====
-- Pointers into a tree of blocks. A path of child indices from the root stands for the pointer to a
-- block, and for its container; the empty path is the root container. The program only appends
-- children while it holds such pointers, so a path keeps its meaning.
use caddy_docker_proxy.Caddyfile.Block.{Block, block, Container, nil, cons, add_block}
use caddy_docker_proxy.Prelude.{ℕ, zero, suc, List, [], ◌∷◌, ◌++◌}

abbrev pub Pointer : Type 0
Pointer = List ℕ

abbrev pub on_children : (Container → Container) → Block → Block
on_children f (block cs o ks) = block (f cs) o ks

-- Change the child with an index, if there is one.
unfoldable pub modify : ℕ → (Block → Block) → Container → Container
modify i f nil = nil
modify zero f (cons b cs) = cons (f b) cs
modify (suc i) f (cons b cs) = cons b (modify i f cs)

-- Change the container at a path.
unfoldable pub modify_container : Pointer → (Container → Container) → Container → Container
unfolding modify
modify_container [] f root = f root
modify_container (i ∷ p) f root = modify i (on_children (modify_container p f)) root

-- Change the block at a path.
unfoldable pub modify_block : Pointer → (Block → Block) → Container → Container
unfolding modify
modify_block [] f root = root
modify_block (i ∷ []) f root = modify i f root
modify_block (i ∷ j ∷ p) f root = modify i (on_children (modify_block (j ∷ p) f)) root

unfoldable pub child_container : ℕ → Container → Container
child_container i nil = nil
child_container zero (cons (block cs o ks) rest) = cs
child_container (suc i) (cons b rest) = child_container i rest

-- The container at a path.
unfoldable pub container_at : Pointer → Container → Container
unfolding child_container
container_at [] root = root
container_at (i ∷ p) root = container_at p (child_container i root)

-- len(container.Children)
unfoldable pub size : Container → ℕ
size nil = 0
size (cons b cs) = suc (size cs)

-- The container at path `p` gets a new last child; its path is returned with the new root.
unfoldable pub add_block_at : Pointer → Block → Container → Pointer × Container
unfolding modify_container container_at size add_block
add_block_at p b root =
    (p ++ size (container_at p root) ∷ [], modify_container p (add_block b) root)
