-- ===== src/Caddyfile/Block.antt =====
-- caddyfile/caddyfile.go: blocks, containers and their accessors. A container is the list of its
-- children. Pointers are positions here; where the program compares or shares them, the model that
-- needs it says how.
use caddy_docker_proxy.Prelude.{
  ℕ, ◌-◌, ◌^◌, ◌≡◌, refl, ap, Bool, true, false, ◌&&◌, List, [], ◌∷◌, ◌++◌, Text, codes, has_prefix,
  has_suffix,
}

-- `block children order keys` is a Block; a Container is `nil` or `cons first rest`.
mutual
  pub data Block : Type 0 where
    block : Container → ℕ → List Text → Block

  pub data Container : Type 0 where
    nil : Container
    cons : Block → Container → Container

abbrev pub children : Block → Container
children (block cs o ks) = cs

abbrev pub order : Block → ℕ
order (block cs o ks) = o

abbrev pub keys : Block → List Text
keys (block cs o ks) = ks

-- math.MaxInt32
abbrev pub max_int32 : ℕ
max_int32 = 2 ^ 31 - 1

abbrev pub create_container : Container
create_container = nil

unfoldable pub create_block : Block
create_block = block create_container max_int32 []

unfoldable pub add_keys : List Text → Block → Block
add_keys new (block cs o ks) = block cs o (ks ++ new)

-- Container.AddBlock
unfoldable pub add_block : Block → Container → Container
add_block b nil = cons b nil
add_block b (cons c cs) = cons c (add_block b cs)

unfoldable pub get_first_key : Block → Text
get_first_key (block cs o []) = []
get_first_key (block cs o (k ∷ ks)) = k

-- The children as a list, and back.
abbrev pub to_list : Container → List Block
to_list nil = []
to_list (cons b cs) = b ∷ to_list cs

abbrev pub of_list : List Block → Container
of_list [] = nil
of_list (b ∷ bs) = cons b (of_list bs)

pub to_list-of_list : (bs : List Block) → to_list (of_list bs) ≡ bs
to_list-of_list [] = refl
to_list-of_list (b ∷ bs) = ap (◌∷◌ b) (to_list-of_list bs)

pub of_list-to_list : (cs : Container) → of_list (to_list cs) ≡ cs
of_list-to_list nil = refl
of_list-to_list (cons b cs) = ap (cons b) (of_list-to_list cs)

pub to_list-add_block :
    (b : Block) (cs : Container) → to_list (add_block b cs) ≡ to_list cs ++ b ∷ []
unfolding add_block
to_list-add_block b nil = refl
to_list-add_block b (cons c cs) = ap (◌∷◌ c) (to_list-add_block b cs)

unfoldable pub is_global_block : Block → Bool
is_global_block (block cs o []) = true
is_global_block (block cs o (k ∷ ks)) = false

unfoldable pub is_snippet : Block → Bool
unfolding has_prefix has_suffix
is_snippet (block cs o (k ∷ [])) = has_prefix (codes "(") k && has_suffix (codes ")") k
is_snippet (block cs o ks) = false

unfoldable pub is_matcher : Block → Bool
unfolding has_prefix
is_matcher (block cs o []) = false
is_matcher (block cs o (k ∷ ks)) = has_prefix (codes "@") k
