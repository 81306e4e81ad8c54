-- ===== src/Caddyfile/Merge.antt =====
-- caddyfile/merge.go. A block of the second container moves into the first one, which then owns it;
-- the second container is not used afterwards.
pub mod Keeps
pub mod Takes
use caddy_docker_proxy.Caddyfile.Block.{
  Block, block, Container, nil, cons, children, order, keys, get_first_key,
}
use caddy_docker_proxy.Prelude.{
  Bool, true, false, ◌&&◌, ◌||◌, List, [], ◌∷◌, ◌++◌, if◌then◌else◌, Text, codes, text_eq,
  has_prefix,
}

-- A matcher token is "*", or starts with "/" or "@". (caddyfile.go has a test of the same name on
-- blocks.)
unfoldable pub is_matcher_token : Text → Bool
unfolding text_eq has_prefix
is_matcher_token value =
    text_eq value (codes "*") || has_prefix (codes "/") value || has_prefix (codes "@") value

unfoldable pub get_matcher : Block → Text
unfolding is_matcher_token
get_matcher (block cs o (k ∷ m ∷ ks)) = if is_matcher_token m then m else codes "*"
get_matcher (block cs o ks) = codes "*"

unfoldable pub keys_are_equal : List Text → List Text → Bool
unfolding text_eq
keys_are_equal [] [] = true
keys_are_equal (j ∷ js) (k ∷ ks) = text_eq j k && keys_are_equal js ks
keys_are_equal _ _ = false

-- blocksAreEqual: only the keys are compared.
unfoldable pub blocks_are_equal : Block → Block → Bool
unfolding keys_are_equal
blocks_are_equal a b = keys_are_equal (keys a) (keys b)

-- `firstKey == "reverse_proxy" || firstKey == "php_fastcgi"`
unfoldable pub is_reverse_proxy_like : Text → Bool
unfolding text_eq
is_reverse_proxy_like k = text_eq k (codes "reverse_proxy") || text_eq k (codes "php_fastcgi")

-- The first condition in the loop: `b` is appended to the keys of `a`.
unfoldable pub joins_proxy : Block → Block → Bool
unfolding is_reverse_proxy_like get_matcher text_eq
joins_proxy b a = is_reverse_proxy_like (get_first_key b) && text_eq (get_matcher a) (get_matcher b)

-- `a` is one of GetAllByFirstKey(b.GetFirstKey()) and takes `b` in.
unfoldable pub absorbs : Block → Block → Bool
unfolding joins_proxy blocks_are_equal text_eq get_first_key
absorbs b a =
    text_eq (get_first_key a) (get_first_key b) && (joins_proxy b a || blocks_are_equal a b)

-- The keys that mergeReverseProxyLike adds: `blockB.Keys[1:]` less a matcher in front.
unfoldable pub proxy_keys : List Text → List Text
unfolding is_matcher_token
proxy_keys [] = []
proxy_keys (k ∷ []) = []
proxy_keys (k ∷ m ∷ ks) = if is_matcher_token m then ks else m ∷ ks

-- The first child that passes the test is changed; if there is none, `b` goes to the end.
unfoldable pub change_first : (Block → Bool) → (Block → Block) → Block → Container → Container
change_first test f b nil = cons b nil
change_first test f b (cons a cs) =
    if test a then cons (f a) cs else cons a (change_first test f b cs)

unfoldable mutual
  unfolding absorbs proxy_keys change_first

  -- `merge_into b a` is `a` when `b` is merged into it.
  pub merge_into : Block → Block → Block
  merge_into (block ds p js) a =
      block (merge_children ds (children a)) (order a)
        (if joins_proxy (block ds p js) a then keys a ++ proxy_keys js else keys a)

  -- `merge_children b a` is containerA after `containerA.Merge(containerB)`.
  pub merge_children : Container → Container → Container
  merge_children nil cs = cs
  merge_children (cons b ds) cs = merge_children ds (change_first (absorbs b) (merge_into b) b cs)

-- `containerA.Merge(containerB)`
unfoldable pub merge : Container → Container → Container
unfolding merge_children
merge a b = merge_children b a
