-- ===== src/Caddyfile/Sort/Shuffle.antt =====
-- Containers that hold the same blocks in other orders, at every level, are sorted alike.
use caddy_docker_proxy.Caddyfile.Block.{Block, block, Container, nil, cons, of_list}
use caddy_docker_proxy.Caddyfile.Compare.{compare_blocks}
use caddy_docker_proxy.Caddyfile.Compare.Order.{
  flip, Chain, compare_blocks-Chain, compare_blocks-eq_iff, compare_blocks-flip,
}
use caddy_docker_proxy.Caddyfile.Sort.{
  is_less, insert_by, slice_stable, same, sort_block, sort_each, sort,
}
use caddy_docker_proxy.Prelude.{
  ℕ, Ordering, ◌≡◌, refl, sym, ap, ap₂, ◌∙◌, ◌⊎◌, inl, inr, Bool, true, false, List, [], ◌∷◌, arith,
  if◌then◌else◌, Bool-cases, Text,
}

-- `ds` holds the blocks of `cs` in some order, and so do their children, recursively.
pub data Shuffle : Container → Container → Type 0 where
  empty : Shuffle nil nil
  both :
      {cs ds rs ss : Container} {o : ℕ} {ks : List Text}
      → Shuffle cs ds
      → Shuffle rs ss
      → Shuffle (cons (block cs o ks) rs) (cons (block ds o ks) ss)
  swapped : (a b : Block) (cs : Container) → Shuffle (cons a (cons b cs)) (cons b (cons a cs))
  chained : {cs ds es : Container} → Shuffle cs ds → Shuffle ds es → Shuffle cs es

-- a ≤ y and y < b give a < b.
less_of_chain :
    (a y b : Block)
    → is_less (compare_blocks y a) ≡ false
    → is_less (compare_blocks y b) ≡ true
    → is_less (compare_blocks a b) ≡ true
less_of_chain a y b h k =
    go (compare_blocks a y) (compare_blocks y b) (compare_blocks a b) (compare_blocks-Chain a y b)
      (rw (compare_blocks-flip a y) at h) k
  where
    go :
        (x y z : Ordering)
        → Chain x y z
        → is_less (flip x) ≡ false
        → is_less y ≡ true
        → is_less z ≡ true
    go x y z c h k = ground arith

-- The three ways in which two blocks compare.
compare_cases :
    (a b : Block)
    → (a ≡ b)
      ⊎ ((is_less (compare_blocks a b) ≡ true) × (is_less (compare_blocks b a) ≡ false))
      ⊎ ((is_less (compare_blocks a b) ≡ false) × (is_less (compare_blocks b a) ≡ true))
compare_cases a b =
    go (compare_blocks a b) (compare_blocks b a) (compare_blocks-flip a b)
      (λ e. (compare_blocks-eq_iff a b).0 e)
  where
    go :
        (x y : Ordering)
        → y ≡ flip x
        → (x ≡ Ordering.eq → a ≡ b)
        → (a ≡ b)
          ⊎ ((is_less x ≡ true) × (is_less y ≡ false))
          ⊎ ((is_less x ≡ false) × (is_less y ≡ true))
    go Ordering.eq y e k = inl (k refl)
    go Ordering.lt y e k = rw e (inr (inl (refl, refl)))
    go Ordering.gt y e k = rw e (inr (inr (refl, refl)))

insert_two :
    (a b : Block) (ys : List Block)
    → (if is_less (compare_blocks b a) then b ∷ a ∷ ys else a ∷ b ∷ ys)
      ≡ (if is_less (compare_blocks a b) then a ∷ b ∷ ys else b ∷ a ∷ ys)
insert_two a b ys = elim (compare_cases a b) [
  | inl e ↦ rw e
  | inr (inl (p, q)) ↦ rw (p, q)
  | inr (inr (p, q)) ↦ rw (p, q)
]

insert_by_comm :
    (a b : Block) (ys : List Block)
    → insert_by same a (insert_by same b ys) ≡ insert_by same b (insert_by same a ys)
unfolding insert_by
insert_by_comm a b [] = insert_two a b []
insert_by_comm a b (y ∷ ys) = elim (Bool-cases (is_less (compare_blocks y a))) [
  | inl p ↦ elim (Bool-cases (is_less (compare_blocks y b))) [
    | inl q ↦ rw (p, q, p, insert_by_comm a b ys)
    | inr q ↦ rw (p, q, p, less_of_chain b y a q p)
  ]
  | inr p ↦ elim (Bool-cases (is_less (compare_blocks y b))) [
    | inl q ↦ rw (p, q, p, less_of_chain a y b p q)
    | inr q ↦ rw (p, q, p) (insert_two a b (y ∷ ys))
  ]
]

slice_stable-Shuffle :
    {cs ds : Container}
    → Shuffle cs ds
    → slice_stable same (sort_each cs) ≡ slice_stable same (sort_each ds)
unfolding sort_each slice_stable
slice_stable-Shuffle empty = refl
slice_stable-Shuffle (both {o = o} {ks = ks} h t) =
    ap₂ (λ xs ys. insert_by same (block (of_list xs) o ks) ys) (slice_stable-Shuffle h)
      (slice_stable-Shuffle t)
slice_stable-Shuffle (swapped a b cs) =
    insert_by_comm (sort_block a) (sort_block b) (slice_stable same (sort_each cs))
slice_stable-Shuffle (chained h k) = slice_stable-Shuffle h ∙ slice_stable-Shuffle k

-- Two containers that hold the same blocks in other orders, at every level, are equal once they are
-- sorted.
pub sort-Shuffle : {cs ds : Container} → Shuffle cs ds → sort cs ≡ sort ds
unfolding sort
sort-Shuffle h = ap of_list (slice_stable-Shuffle h)

pub Shuffle-refl : (cs : Container) → Shuffle cs cs
Shuffle-refl nil = empty
Shuffle-refl (cons (block cs o ks) rs) = both (Shuffle-refl cs) (Shuffle-refl rs)

-- Sorting changes only orders.
Shuffle-insert_by :
    (b : Block) (bs : List Block) → Shuffle (cons b (of_list bs)) (of_list (insert_by same b bs))
unfolding insert_by
Shuffle-insert_by b [] = Shuffle-refl (cons b nil)
Shuffle-insert_by b (c ∷ ys) = go (is_less (compare_blocks c b)) c (Shuffle-insert_by b ys)
  where
    go :
        (t : Bool) (c : Block)
        → Shuffle (cons b (of_list ys)) (of_list (insert_by same b ys))
        → Shuffle
            (cons b (cons c (of_list ys)))
            (of_list (if t then c ∷ insert_by same b ys else b ∷ c ∷ ys))
    go true (block ds p js) h = chained (swapped _ _ _) (both (Shuffle-refl ds) h)
    go false c h = Shuffle-refl (cons b (cons c (of_list ys)))

Shuffle-slice_stable : (cs : Container) → Shuffle cs (of_list (slice_stable same (sort_each cs)))
unfolding sort_each slice_stable
Shuffle-slice_stable nil = empty
Shuffle-slice_stable (cons (block cs o ks) rs) =
    chained (both (Shuffle-slice_stable cs) (Shuffle-slice_stable rs))
      (Shuffle-insert_by _ (slice_stable same (sort_each rs)))

-- Sorting a container keeps its blocks, with their orders and keys, at every level.
pub Shuffle-sort : (cs : Container) → Shuffle cs (sort cs)
unfolding sort
Shuffle-sort = Shuffle-slice_stable

-- Sorting a sorted container changes nothing.
pub sort-sort : (cs : Container) → sort (sort cs) ≡ sort cs
sort-sort cs = sym (sort-Shuffle (Shuffle-sort cs))
