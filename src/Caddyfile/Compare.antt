-- ===== src/Caddyfile/Compare.antt =====
-- caddyfile/marshal.go: compareBlocks. Its results -1, 0 and 1 are `lt`, `eq` and `gt`.
pub mod Order
use caddy_docker_proxy.Caddyfile.Block.{
  Block, block, Container, nil, cons, order, keys, is_global_block, is_snippet, is_matcher,
}
use caddy_docker_proxy.Prelude.{
  ℕ, Ordering, Bool, true, false, List, [], ◌∷◌, ltb, ◌==◌, if◌then◌else◌, Text, text_eq, text_lt,
}

-- One step `if difference { return … }` with what follows it: a result that is not 0 is returned.
abbrev pub or_else : Ordering → Ordering → Ordering
or_else Ordering.eq rest = rest
or_else Ordering.lt rest = Ordering.lt
or_else Ordering.gt rest = Ordering.gt

-- The block for which the test holds goes first.
abbrev pub prefer : Bool → Bool → Ordering
prefer true false = Ordering.lt
prefer false true = Ordering.gt
prefer _ _ = Ordering.eq

unfoldable pub compare_order : ℕ → ℕ → Ordering
compare_order a b = if a == b then Ordering.eq else if ltb a b then Ordering.lt else Ordering.gt

unfoldable pub compare_key : Text → Text → Ordering
unfolding text_eq text_lt
compare_key a b =
    if text_eq a b then Ordering.eq else if text_lt a b then Ordering.lt else Ordering.gt

-- The common keys, and then the numbers of keys.
unfoldable pub compare_keys : List Text → List Text → Ordering
unfolding compare_key
compare_keys [] [] = Ordering.eq
compare_keys [] (k ∷ ks) = Ordering.lt
compare_keys (j ∷ js) [] = Ordering.gt
compare_keys (j ∷ js) (k ∷ ks) = or_else (compare_key j k) (compare_keys js ks)

-- What is compared before the children.
unfoldable pub compare_heads : Block → Block → Ordering
unfolding is_global_block is_snippet is_matcher compare_order compare_keys
compare_heads a b = or_else (prefer (is_global_block a) (is_global_block b)) (
    or_else (prefer (is_snippet a) (is_snippet b)) (
      or_else (prefer (is_matcher a) (is_matcher b))
        (or_else (compare_order (order a) (order b)) (compare_keys (keys a) (keys b)))))

-- The common children, and then the numbers of children.
unfoldable mutual
  unfolding compare_heads

  pub compare_blocks : Block → Block → Ordering
  compare_blocks (block cs o ks) (block ds p js) =
      or_else (compare_heads (block cs o ks) (block ds p js)) (compare_children cs ds)

  pub compare_children : Container → Container → Ordering
  compare_children nil nil = Ordering.eq
  compare_children nil (cons b ds) = Ordering.lt
  compare_children (cons a cs) nil = Ordering.gt
  compare_children (cons a cs) (cons b ds) = or_else (compare_blocks a b) (compare_children cs ds)
