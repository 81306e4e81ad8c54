-- ===== src/Caddyfile/RoundTrip/Context.antt =====
-- A container at a path inside a tree: the tree around it, with a place for it.
use caddy_docker_proxy.Caddyfile.Block.{Block, block, Container, nil, cons, add_block}
use caddy_docker_proxy.Caddyfile.Tree.{
  Pointer, on_children, modify, modify_container, modify_block, child_container, container_at, size,
}
use caddy_docker_proxy.Prelude.{ℕ, ◌≡◌, refl, sym, ap, ◌∙◌, List, [], ◌∷◌, ◌++◌, Text}

pub data Context : Type 0 where
  here : Context
  inside : Container → ℕ → List Text → Context → Container → Context

abbrev pub append : Container → Container → Container
append nil ds = ds
append (cons b cs) ds = cons b (append cs ds)

abbrev pub plug : Context → Container → Container
plug here c = c
plug (inside before o ks x after) c = append before (cons (block (plug x c) o ks) after)

abbrev pub path_of : Context → Pointer
path_of here = []
path_of (inside before o ks x after) = size before ∷ path_of x

-- The place of the children of a new last block.
abbrev pub extend : Context → Container → ℕ → List Text → Context
extend here before o ks = inside before o ks here nil
extend (inside b p js x a) before o ks = inside b p js (extend x before o ks) a

child_container-append :
    (before : Container) (cs : Container) (o : ℕ) (ks : List Text) (after : Container)
    → child_container (size before) (append before (cons (block cs o ks) after)) ≡ cs
unfolding child_container size
child_container-append nil cs o ks after = refl
child_container-append (cons b before) cs o ks after = child_container-append before cs o ks after

modify-append :
    (before : Container) (f : Block → Block) (b : Block) (after : Container)
    → modify (size before) f (append before (cons b after)) ≡ append before (cons (f b) after)
unfolding modify size
modify-append nil f b after = refl
modify-append (cons c before) f b after = ap (cons c) (modify-append before f b after)

pub container_at-plug : (x : Context) (c : Container) → container_at (path_of x) (plug x c) ≡ c
unfolding container_at
container_at-plug here c = refl
container_at-plug (inside before o ks x after) c =
    ap (container_at (path_of x)) (child_container-append before (plug x c) o ks after)
    ∙ container_at-plug x c

pub modify_container-plug :
    (x : Context) (f : Container → Container) (c : Container)
    → modify_container (path_of x) f (plug x c) ≡ plug x (f c)
unfolding modify_container
modify_container-plug here f c = refl
modify_container-plug (inside before o ks x after) f c =
    modify-append before (on_children (modify_container (path_of x) f)) (block (plug x c) o ks)
      after
    ∙ ap (λ (d : Container). append before (cons (block d o ks) after))
        (modify_container-plug x f c)

append-add_block :
    (before : Container) (b : Block) → add_block b before ≡ append before (cons b nil)
unfolding add_block
append-add_block nil b = refl
append-add_block (cons c before) b = ap (cons c) (append-add_block before b)

pub plug-extend :
    (x : Context) (before : Container) (o : ℕ) (ks : List Text) (c : Container)
    → plug (extend x before o ks) c ≡ plug x (add_block (block c o ks) before)
plug-extend here before o ks c = sym (append-add_block before (block c o ks))
plug-extend (inside b p js x a) before o ks c =
    ap (λ (d : Container). append b (cons (block d p js) a)) (plug-extend x before o ks c)

pub path_of-extend :
    (x : Context) (before : Container) (o : ℕ) (ks : List Text)
    → path_of (extend x before o ks) ≡ path_of x ++ size before ∷ []
path_of-extend here before o ks = refl
path_of-extend (inside b p js x a) before o ks = ap (◌∷◌ (size b)) (path_of-extend x before o ks)

modify_block-below :
    (i : ℕ) (p : Pointer) (j : ℕ) (f : Block → Block) (root : Container)
    → modify_block (i ∷ (p ++ j ∷ [])) f root
      ≡ modify i (on_children (modify_block (p ++ j ∷ []) f)) root
unfolding modify_block
modify_block-below i [] j f root = refl
modify_block-below i (k ∷ p) j f root = refl

-- The new last block itself is changed through the path of its children.
pub modify_block-plug :
    (x : Context) (before : Container) (f : Block → Block) (b : Block)
    → modify_block (path_of x ++ size before ∷ []) f (plug x (add_block b before))
      ≡ plug x (add_block (f b) before)
unfolding modify_block
modify_block-plug here before f b =
    rw (append-add_block before b, append-add_block before (f b)) (modify-append before f b nil)
modify_block-plug (inside c o ks x after) before f b =
    modify_block-below (size c) (path_of x) (size before) f
      (plug (inside c o ks x after) (add_block b before))
    ∙ modify-append c (on_children (modify_block (path_of x ++ size before ∷ []) f))
        (block (plug x (add_block b before)) o ks) after
    ∙ ap (λ (d : Container). append c (cons (block d o ks) after)) (modify_block-plug x before f b)
