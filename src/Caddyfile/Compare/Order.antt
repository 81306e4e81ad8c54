-- ===== src/Caddyfile/Compare/Order.antt =====
-- compareBlocks is a total order on blocks.
use caddy_docker_proxy.Caddyfile.Block.{
  Block, block, Container, nil, cons, order, keys, is_global_block, is_snippet, is_matcher,
}
use caddy_docker_proxy.Caddyfile.Compare.{
  or_else, prefer, compare_order, compare_key, compare_keys, compare_heads, compare_blocks,
  compare_children,
}
use caddy_docker_proxy.Prelude.{
  ℕ, Ordering, ◌≡◌, refl, ap₂, ◌≢◌, ◌↔◌, inl, inr, Bool, List, [], ◌∷◌, arith, Bool-cases, Text,
  text_eq, text_eq_iff,
}

abbrev pub flip : Ordering → Ordering
flip Ordering.lt = Ordering.gt
flip Ordering.eq = Ordering.eq
flip Ordering.gt = Ordering.lt

-- What the results for (a, b) and (b, c) say of the result for (a, c).
abbrev pub Chain : Ordering → Ordering → Ordering → Type 0
Chain Ordering.eq y z = z ≡ y
Chain Ordering.lt Ordering.gt z = Unit
Chain Ordering.lt _ z = z ≡ Ordering.lt
Chain Ordering.gt Ordering.lt z = Unit
Chain Ordering.gt _ z = z ≡ Ordering.gt

or_else-Chain :
    (x y z x' y' z' : Ordering)
    → Chain x y z
    → Chain x' y' z'
    → Chain (or_else x x') (or_else y y') (or_else z z')
or_else-Chain x y z x' y' z' h h' = ground arith

flip-or_else : (x x' : Ordering) → flip (or_else x x') ≡ or_else (flip x) (flip x')
flip-or_else x x' = ground arith

prefer-Chain : (a b c : Bool) → Chain (prefer a b) (prefer b c) (prefer a c)
prefer-Chain a b c = ground arith

flip-prefer : (a b : Bool) → prefer b a ≡ flip (prefer a b)
flip-prefer a b = ground arith

compare_order-Chain :
    (a b c : ℕ) → Chain (compare_order a b) (compare_order b c) (compare_order a c)
unfolding compare_order
compare_order-Chain a b c = ground arith

-- The comparison of two strings, a code point at a time.
compare_key-cons :
    (x y : ℕ) (a b : Text)
    → compare_key (x ∷ a) (y ∷ b) ≡ or_else (compare_order x y) (compare_key a b)
unfolding compare_key compare_order
compare_key-cons x y a b = ground arith

compare_key-Chain : (a b c : Text) → Chain (compare_key a b) (compare_key b c) (compare_key a c)
compare_key-Chain (x ∷ a) (y ∷ b) (z ∷ c) =
    rw (compare_key-cons x y a b, compare_key-cons y z b c, compare_key-cons x z a c)
      (or_else-Chain (compare_order x y) _ _ _ _ _ (compare_order-Chain x y z)
        (compare_key-Chain a b c))
compare_key-Chain [] [] [] = unfold compare_key in refl
compare_key-Chain _ _ _ = unfold compare_key in ground arith

flip-compare_order : (a b : ℕ) → compare_order b a ≡ flip (compare_order a b)
unfolding compare_order
flip-compare_order a b = ground arith

flip-compare_key : (a b : Text) → compare_key b a ≡ flip (compare_key a b)
flip-compare_key (x ∷ a) (y ∷ b) = rw (
  compare_key-cons x y a b,
  compare_key-cons y x b a,
  flip-or_else,
  flip-compare_order x y,
  flip-compare_key a b,
)
flip-compare_key [] [] = unfold compare_key in refl
flip-compare_key _ _ = unfold compare_key in refl

compare_keys-Chain :
    (a b c : List Text) → Chain (compare_keys a b) (compare_keys b c) (compare_keys a c)
unfolding compare_keys
compare_keys-Chain (x ∷ a) (y ∷ b) (z ∷ c) =
    or_else-Chain (compare_key x y) _ _ _ _ _ (compare_key-Chain x y z) (compare_keys-Chain a b c)
compare_keys-Chain [] [] [] = refl
compare_keys-Chain _ _ _ = ground arith

flip-compare_keys : (a b : List Text) → compare_keys b a ≡ flip (compare_keys a b)
unfolding compare_keys
flip-compare_keys (x ∷ a) (y ∷ b) = rw (flip-or_else, flip-compare_key x y, flip-compare_keys a b)
flip-compare_keys [] [] = refl
flip-compare_keys _ _ = refl

compare_heads-Chain :
    (a b c : Block) → Chain (compare_heads a b) (compare_heads b c) (compare_heads a c)
unfolding compare_heads
compare_heads-Chain a b c =
    or_else-Chain (prefer (is_global_block a) (is_global_block b)) _ _ _ _ _ (prefer-Chain _ _ _) (
      or_else-Chain (prefer (is_snippet a) (is_snippet b)) _ _ _ _ _ (prefer-Chain _ _ _) (
        or_else-Chain (prefer (is_matcher a) (is_matcher b)) _ _ _ _ _ (prefer-Chain _ _ _) (
          or_else-Chain (compare_order (order a) (order b)) _ _ _ _ _
            (compare_order-Chain (order a) (order b) (order c))
            (compare_keys-Chain (keys a) (keys b) (keys c)))))

flip-compare_heads : (a b : Block) → compare_heads b a ≡ flip (compare_heads a b)
unfolding compare_heads
flip-compare_heads a b = simp (
  flip-or_else,
  flip-prefer (is_global_block a) (is_global_block b),
  flip-prefer (is_snippet a) (is_snippet b),
  flip-prefer (is_matcher a) (is_matcher b),
  flip-compare_order (order a) (order b),
  flip-compare_keys (keys a) (keys b),
)

mutual
  unfolding compare_blocks

  pub compare_blocks-Chain :
      (a b c : Block) → Chain (compare_blocks a b) (compare_blocks b c) (compare_blocks a c)
  compare_blocks-Chain (block cs o ks) (block ds p js) (block es q is) =
      or_else-Chain (compare_heads (block cs o ks) (block ds p js)) _ _ _ _ _
        (compare_heads-Chain (block cs o ks) (block ds p js) (block es q is))
        (compare_children-Chain cs ds es)

  compare_children-Chain :
      (cs ds es : Container)
      → Chain (compare_children cs ds) (compare_children ds es) (compare_children cs es)
  compare_children-Chain (cons a cs) (cons b ds) (cons c es) =
      or_else-Chain (compare_blocks a b) _ _ _ _ _ (compare_blocks-Chain a b c)
        (compare_children-Chain cs ds es)
  compare_children-Chain nil nil nil = refl
  compare_children-Chain _ _ _ = ground arith

mutual
  unfolding compare_blocks

  flip-blocks : (a b : Block) → compare_blocks b a ≡ flip (compare_blocks a b)
  flip-blocks (block cs o ks) (block ds p js) =
      rw (flip-or_else, flip-compare_heads (block cs o ks) (block ds p js), flip-children cs ds)

  flip-children : (cs ds : Container) → compare_children ds cs ≡ flip (compare_children cs ds)
  flip-children (cons a cs) (cons b ds) = rw (flip-or_else, flip-blocks a b, flip-children cs ds)
  flip-children nil nil = refl
  flip-children _ _ = refl

or_else-eq : (x y : Ordering) → or_else x y ≡ Ordering.eq → (x ≡ Ordering.eq) × (y ≡ Ordering.eq)
or_else-eq x y h = ground arith

compare_order-eq : (a b : ℕ) → compare_order a b ≡ Ordering.eq → a ≡ b
unfolding compare_order
compare_order-eq a b h = ground arith

compare_key-eq : (a b : Text) → compare_key a b ≡ Ordering.eq → a ≡ b
unfolding compare_key
compare_key-eq a b h = elim (Bool-cases (text_eq a b)) [
  | inl e ↦ (text_eq_iff a b).0 e
  | inr e ↦ ground arith
]

compare_keys-eq : (a b : List Text) → compare_keys a b ≡ Ordering.eq → a ≡ b
unfolding compare_keys
compare_keys-eq (x ∷ a) (y ∷ b) h =
    let (p, q) = or_else-eq (compare_key x y) _ h in
    ap₂ ◌∷◌ (compare_key-eq x y p) (compare_keys-eq a b q)
compare_keys-eq [] [] h = refl
compare_keys-eq _ _ h = cc

compare_heads-eq :
    (a b : Block) → compare_heads a b ≡ Ordering.eq → (order a ≡ order b) × (keys a ≡ keys b)
unfolding compare_heads
compare_heads-eq a b h =
    let (_, h₁) = or_else-eq (prefer (is_global_block a) (is_global_block b)) _ h in
    let (_, h₂) = or_else-eq (prefer (is_snippet a) (is_snippet b)) _ h₁ in
    let (_, h₃) = or_else-eq (prefer (is_matcher a) (is_matcher b)) _ h₂ in
    let (p, q) = or_else-eq (compare_order (order a) (order b)) _ h₃ in
    (compare_order-eq _ _ p, compare_keys-eq _ _ q)

mutual
  unfolding compare_blocks

  blocks-eq : (a b : Block) → compare_blocks a b ≡ Ordering.eq → a ≡ b
  blocks-eq (block cs o ks) (block ds p js) h =
      let (u, v) = or_else-eq (compare_heads (block cs o ks) (block ds p js)) _ h in
      let (e, f) = compare_heads-eq (block cs o ks) (block ds p js) u in cc (children-eq cs ds v)

  children-eq : (cs ds : Container) → compare_children cs ds ≡ Ordering.eq → cs ≡ ds
  children-eq (cons a cs) (cons b ds) h =
      let (u, v) = or_else-eq (compare_blocks a b) _ h in
      ap₂ cons (blocks-eq a b u) (children-eq cs ds v)
  children-eq nil nil h = refl
  children-eq _ _ h = cc

eq_of_flip : (o : Ordering) → o ≡ flip o → o ≡ Ordering.eq
eq_of_flip o h = ground arith

-- compareBlocks returns 0 exactly for two blocks that are equal in their order, their keys and,
-- recursively, their children.
pub compare_blocks-eq_iff : (a b : Block) → (compare_blocks a b ≡ Ordering.eq) ↔ (a ≡ b)
compare_blocks-eq_iff a b =
    (blocks-eq a b, λ e. rw (← e) (eq_of_flip (compare_blocks a a) (flip-blocks a a)))

-- Swapping the arguments of compareBlocks swaps -1 and 1 and keeps 0.
pub compare_blocks-flip : (a b : Block) → compare_blocks b a ≡ flip (compare_blocks a b)
compare_blocks-flip = flip-blocks

-- If compareBlocks does not return 1 for (a, b), nor for (b, c), it does not for (a, c).
pub compare_blocks_trans :
    (a b c : Block)
    → compare_blocks a b ≢ Ordering.gt
    → compare_blocks b c ≢ Ordering.gt
    → compare_blocks a c ≢ Ordering.gt
compare_blocks_trans a b c h k = not_gt _ _ _ (compare_blocks-Chain a b c) h k
  where
    not_gt : (x y z : Ordering) → Chain x y z → x ≢ Ordering.gt → y ≢ Ordering.gt → z ≢ Ordering.gt
    not_gt x y z c p q = ground arith
