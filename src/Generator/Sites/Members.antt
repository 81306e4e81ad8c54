-- ===== src/Generator/Sites/Members.antt =====
-- Which blocks and keys are in the results of the helpers of mergeCaddyfile.
use caddy_docker_proxy.Caddyfile.Block.{
  Block, block, Container, nil, cons, keys, to_list, to_list-of_list,
}
use caddy_docker_proxy.Caddyfile.Merge.{change_first}
use caddy_docker_proxy.Generator.Sites.{
  is_site_block, overlaps, new_keys, merge_site_blocks, replace_matches,
}
use caddy_docker_proxy.Prelude.{
  ℕ, ◌≡◌, refl, sym, ap, subst, ◌∙◌, ◌⊎◌, inl, inr, Bool, true, false, not, ◌&&◌, List, [], ◌∷◌,
  ◌++◌, arith, All, In, keep-In, has_member, has_member→In, Bool-cases, Text, codes, has_prefix,
  has_suffix,
}
use mathlib.Core.List.{foldl}

pub not_true_and_false : {t : Bool} → t ≡ true → t ≡ false → ⊥
not_true_and_false {t} p q = cc

pub In-new_keys :
    (existing ks : List Text) (k : Text) → In k ks → In k existing ⊎ In k (new_keys existing ks)
unfolding new_keys
In-new_keys existing [] k i = absurd i
In-new_keys existing (x ∷ ks) k (inl e) = elim (Bool-cases (has_member x existing)) [
  | inl t ↦ inl (subst (λ z. In z existing) e (has_member→In x existing t))
  | inr t ↦ rw t (inr (inl e))
]
In-new_keys existing (x ∷ ks) k (inr i) = elim (Bool-cases (has_member x existing)) [
  | inl t ↦ rw t (In-new_keys existing ks k i)
  | inr t ↦ rw t (elim (In-new_keys (x ∷ existing) ks k i) [
    | inl j ↦ elim j [ inl e ↦ inr (inl e) | inr l ↦ inl l ]
    | inr j ↦ inr (inr j)
  ])
]

pub In-left : (k : Text) (xs ys : List Text) → In k xs → In k (xs ++ ys)
In-left k [] ys i = absurd i
In-left k (x ∷ xs) ys (inl e) = inl e
In-left k (x ∷ xs) ys (inr i) = inr (In-left k xs ys i)

pub In-right : (k : Text) (xs ys : List Text) → In k ys → In k (xs ++ ys)
In-right k [] ys i = i
In-right k (x ∷ xs) ys i = inr (In-right k xs ys i)

pub In-merge_site_blocks :
    (a b : Block) (k : Text) → In k (keys a) ⊎ In k (keys b) → In k (keys (merge_site_blocks a b))
unfolding merge_site_blocks
In-merge_site_blocks (block cs o ks) (block ds p js) k (inl i) = In-left k ks (new_keys ks js) i
In-merge_site_blocks (block cs o ks) (block ds p js) k (inr i) = elim (In-new_keys ks js k i) [
  | inl j ↦ In-left k ks (new_keys ks js) j
  | inr j ↦ In-right k ks (new_keys ks js) j
]

-- The merged block has the keys of all blocks that go into it.
pub In-acc :
    (k : Text) (ms : List Block) (a : Block)
    → In k (keys a)
    → In k (keys (foldl merge_site_blocks a ms))
In-acc k [] a i = i
In-acc k (m ∷ ms) a i = In-acc k ms (merge_site_blocks a m) (In-merge_site_blocks a m k (inl i))

pub In-merged :
    (k : Text) (ms : List Block) (a m : Block)
    → In m ms
    → In k (keys m)
    → In k (keys (foldl merge_site_blocks a ms))
In-merged k [] a m i j = absurd i
In-merged k (n ∷ ms) a m (inl e) j =
    In-acc k ms (merge_site_blocks a n)
      (In-merge_site_blocks a n k (inr (subst (λ z. In k (keys z)) (sym e) j)))
In-merged k (n ∷ ms) a m (inr i) j = In-merged k ms (merge_site_blocks a n) m i j

-- More keys leave a site block a site block.
pub append-is_site_block :
    (cs ds : Container) (o p : ℕ) (ks more : List Text)
    → is_site_block (block cs o ks) ≡ true
    → is_site_block (block ds p (ks ++ more)) ≡ true
unfolding is_site_block
append-is_site_block cs ds o p [] more h = cc
append-is_site_block cs ds o p (k ∷ []) [] h = h
append-is_site_block cs ds o p (k ∷ []) (x ∷ xs) h =
    not_matcher (has_prefix (codes "(") k && has_suffix (codes ")") k) (has_prefix (codes "@") k) h
  where
    not_matcher :
        (s m : Bool)
        → (not false && not s && not m) ≡ true
        → (not false && not false && not m) ≡ true
    not_matcher s m h = ground arith
append-is_site_block cs ds o p (k ∷ l ∷ ks) more h = h

pub merge_site_blocks-is_site_block :
    (a m : Block) → is_site_block a ≡ true → is_site_block (merge_site_blocks a m) ≡ true
unfolding merge_site_blocks
merge_site_blocks-is_site_block (block cs o ks) (block ds p js) h =
    append-is_site_block cs _ o o ks (new_keys ks js) h

pub foldl-is_site_block :
    (ms : List Block) (a : Block)
    → is_site_block a ≡ true
    → is_site_block (foldl merge_site_blocks a ms) ≡ true
foldl-is_site_block [] a h = h
foldl-is_site_block (m ∷ ms) a h =
    foldl-is_site_block ms (merge_site_blocks a m) (merge_site_blocks-is_site_block a m h)

-- The blocks without a match stay, and the target is there if there is a match.
pub In-unmatched :
    (incoming target b : Block) (c : Container)
    → In b (to_list c)
    → overlaps incoming b ≡ false
    → In b (to_list (replace_matches incoming target c))
unfolding replace_matches
In-unmatched incoming target b nil i e = absurd i
In-unmatched incoming target b (cons a cs) i e =
    split (Bool-cases (overlaps incoming a)) i (λ j. In-unmatched incoming target b cs j e)
  where
    split :
        (overlaps incoming a ≡ true) ⊎ (overlaps incoming a ≡ false)
        → In b (to_list (cons a cs))
        → (In b (to_list cs) → In b (to_list (replace_matches incoming target cs)))
        → In b (to_list (replace_matches incoming target (cons a cs)))
    split (inl t) (inl q) h = absurd (not_true_and_false t (ap (overlaps incoming) q ∙ e))
    split (inl t) (inr j) h =
        rw (replace_matches, t, to_list-of_list)
          (inr (keep-In (λ c. not (overlaps incoming c)) (to_list cs) b j (rw e refl)))
    split (inr t) (inl q) h = rw (replace_matches, t) (inl q)
    split (inr t) (inr j) h = rw (replace_matches, t) (inr (h j))

pub In-target :
    (incoming target b : Block) (c : Container)
    → In b (to_list c)
    → overlaps incoming b ≡ true
    → In target (to_list (replace_matches incoming target c))
unfolding replace_matches
In-target incoming target b nil i e = absurd i
In-target incoming target b (cons a cs) i e =
    split (Bool-cases (overlaps incoming a)) i (λ j. In-target incoming target b cs j e)
  where
    split :
        (overlaps incoming a ≡ true) ⊎ (overlaps incoming a ≡ false)
        → In b (to_list (cons a cs))
        → (In b (to_list cs) → In target (to_list (replace_matches incoming target cs)))
        → In target (to_list (replace_matches incoming target (cons a cs)))
    split (inl t) i h = rw (replace_matches, t) (inl refl)
    split (inr t) (inl q) h = absurd (not_true_and_false (ap (overlaps incoming) q ∙ e) t)
    split (inr t) (inr j) h = rw (replace_matches, t) (inr (h j))

-- change_first keeps the blocks that fail the test, and appends the new one if all fail.
pub In-change_first :
    (test : Block → Bool) (f : Block → Block) (b a : Block) (c : Container)
    → In a (to_list c)
    → test a ≡ false
    → In a (to_list (change_first test f b c))
unfolding change_first
In-change_first test f b a nil i e = absurd i
In-change_first test f b a (cons d cs) i e =
    split (Bool-cases (test d)) i (λ j. In-change_first test f b a cs j e)
  where
    split :
        (test d ≡ true) ⊎ (test d ≡ false)
        → In a (to_list (cons d cs))
        → (In a (to_list cs) → In a (to_list (change_first test f b cs)))
        → In a (to_list (change_first test f b (cons d cs)))
    split (inl t) (inl q) h = absurd (not_true_and_false t (ap test q ∙ e))
    split (inl t) (inr j) h = rw (change_first, t) (inr j)
    split (inr t) (inl q) h = rw (change_first, t) (inl q)
    split (inr t) (inr j) h = rw (change_first, t) (inr (h j))

pub In-change_first_new :
    (test : Block → Bool) (f : Block → Block) (b : Block) (c : Container)
    → All (λ a. test a ≡ false) (to_list c)
    → In b (to_list (change_first test f b c))
unfolding change_first
In-change_first_new test f b nil h = inl refl
In-change_first_new test f b (cons d cs) h = rw h.0 (inr (In-change_first_new test f b cs h.1))
