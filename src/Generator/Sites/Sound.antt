-- ===== src/Generator/Sites/Sound.antt =====
-- mergeCaddyfile with MergeSites makes no site address up.
use caddy_docker_proxy.Caddyfile.Block.{
  Block, block, Container, nil, cons, keys, to_list, to_list-of_list,
}
use caddy_docker_proxy.Caddyfile.Merge.{absorbs, change_first, merge_into, merge}
use caddy_docker_proxy.Generator.Sites.{
  is_site_block, overlaps, new_keys, merge_site_blocks, replace_matches, merge_site, merge_sites,
  merge_caddyfile,
}
use caddy_docker_proxy.Generator.Sites.Absorbs.{
  is_site_block-keys, absorbs-is_site_block, keys-merge_into_no_site,
}
use caddy_docker_proxy.Generator.Sites.Kept.{IsAddress, IsAddressOfBoth, not_absorbed}
use caddy_docker_proxy.Generator.Sites.Members.{not_true_and_false}
use caddy_docker_proxy.Prelude.{
  ◌≡◌, refl, sym, ap, subst, ◌∙◌, ◌⊎◌, inl, inr, Bool, true, false, not, List, [], ◌∷◌, ◌++◌, keep,
  In, In-keep, has_member, Bool-cases, &&-true, Text,
}
use mathlib.Core.List.{foldl}

new_keys-In : (existing ks : List Text) (k : Text) → In k (new_keys existing ks) → In k ks
unfolding new_keys
new_keys-In existing [] k i = i
new_keys-In existing (x ∷ ks) k i =
    split (Bool-cases (has_member x existing)) i (new_keys-In existing ks k)
      (new_keys-In (x ∷ existing) ks k)
  where
    split :
        (has_member x existing ≡ true) ⊎ (has_member x existing ≡ false)
        → In k (new_keys existing (x ∷ ks))
        → (In k (new_keys existing ks) → In k ks)
        → (In k (new_keys (x ∷ existing) ks) → In k ks)
        → In k (x ∷ ks)
    split (inl t) j f g = inr (f (rw (new_keys, t) at j))
    split (inr t) j f g = elim (rw (new_keys, t) at j) [ inl e ↦ inl e | inr l ↦ inr (g l) ]

append-In : (k : Text) (xs ys : List Text) → In k (xs ++ ys) → In k xs ⊎ In k ys
append-In k [] ys i = inr i
append-In k (x ∷ xs) ys (inl e) = inl (inl e)
append-In k (x ∷ xs) ys (inr i) = elim (append-In k xs ys i) [ inl j ↦ inl (inr j) | inr j ↦ inr j ]

merge_site_blocks-In :
    (a b : Block) (k : Text) → In k (keys (merge_site_blocks a b)) → In k (keys a) ⊎ In k (keys b)
unfolding merge_site_blocks
merge_site_blocks-In (block cs o ks) (block ds p js) k i =
    elim (append-In k ks (new_keys ks js) i) [ inl j ↦ inl j | inr j ↦ inr (new_keys-In ks js k j) ]

-- A key of the merged block is a key of one of those that went into it.
merged-In :
    (k : Text) (ms : List Block) (a : Block)
    → In k (keys (foldl merge_site_blocks a ms))
    → In k (keys a) ⊎ ((m : Block) × In m ms × In k (keys m))
merged-In k [] a i = inl i
merged-In k (n ∷ ms) a i = elim (merged-In k ms (merge_site_blocks a n) i) [
  | inl j ↦ elim (merge_site_blocks-In a n k j) [ inl l ↦ inl l | inr l ↦ inr (n, inl refl, l) ]
  | inr (m, l, j) ↦ inr (m, inr l, j)
]

replace_matches-In :
    (incoming target b : Block) (c : Container)
    → In b (to_list (replace_matches incoming target c))
    → (target ≡ b) ⊎ In b (to_list c)
unfolding replace_matches
replace_matches-In incoming target b nil i = inr i
replace_matches-In incoming target b (cons a cs) i =
    split (Bool-cases (overlaps incoming a)) i (replace_matches-In incoming target b cs)
  where
    split :
        (overlaps incoming a ≡ true) ⊎ (overlaps incoming a ≡ false)
        → In b (to_list (replace_matches incoming target (cons a cs)))
        → (In b (to_list (replace_matches incoming target cs)) → (target ≡ b) ⊎ In b (to_list cs))
        → (target ≡ b) ⊎ In b (to_list (cons a cs))
    split (inl t) j f = elim (rw (replace_matches, t, to_list-of_list) at j) [
      | inl e ↦ inl e
      | inr l ↦ inr (inr (In-keep (λ c. not (overlaps incoming c)) (to_list cs) b l).0)
    ]
    split (inr t) j f = elim (rw (replace_matches, t) at j) [
      | inl e ↦ inr (inl e)
      | inr l ↦ elim (f l) [ inl e ↦ inl e | inr m ↦ inr (inr m) ]
    ]

change_first-In :
    (test : Block → Bool) (f : Block → Block) (b d : Block) (c : Container)
    → In d (to_list (change_first test f b c))
    → (b ≡ d) ⊎ In d (to_list c) ⊎ ((a : Block) × In a (to_list c) × (test a ≡ true) × (f a ≡ d))
unfolding change_first
change_first-In test f b d nil (inl e) = inl e
change_first-In test f b d nil (inr i) = absurd i
change_first-In test f b d (cons a cs) i =
    split (Bool-cases (test a)) i (change_first-In test f b d cs)
  where
    split :
        (test a ≡ true) ⊎ (test a ≡ false)
        → In d (to_list (change_first test f b (cons a cs)))
        → (In d (to_list (change_first test f b cs))
            → (b ≡ d)
              ⊎ In d (to_list cs)
              ⊎ ((x : Block) × In x (to_list cs) × (test x ≡ true) × (f x ≡ d)))
        → (b ≡ d)
          ⊎ In d (to_list (cons a cs))
          ⊎ ((x : Block) × In x (to_list (cons a cs)) × (test x ≡ true) × (f x ≡ d))
    split (inl t) j g = elim (rw (change_first, t) at j) [
      | inl e ↦ inr (inr (a, inl refl, t, e))
      | inr l ↦ inr (inl (inr l))
    ]
    split (inr t) j g = elim (rw (change_first, t) at j) [
      | inl e ↦ inr (inl (inl e))
      | inr l ↦ elim (g l) [
        | inl e ↦ inl e
        | inr (inl m) ↦ inr (inl (inr m))
        | inr (inr (x, m, q, e)) ↦ inr (inr (x, inr m, q, e))
      ]
    ]

-- Where no block that absorbs the incoming one becomes a site, Merge makes no address up.
IsAddress-merge :
    (base : Container) (incoming : Block) (k : Text)
    → ((a : Block)
        → In a (to_list base)
        → absorbs incoming a ≡ true
        → is_site_block (merge_into incoming a) ≡ true
        → ⊥)
    → IsAddress (merge base (cons incoming nil)) k
    → IsAddressOfBoth base incoming k
unfolding merge
IsAddress-merge base incoming k free (d, i, t, j) =
    elim (change_first-In (absorbs incoming) (merge_into incoming) incoming d base i) [
      | inl e ↦ inr (ap is_site_block e ∙ t, subst (λ z. In k (keys z)) (sym e) j)
      | inr (inl l) ↦ inl (d, l, t, j)
      | inr (inr (a, l, q, e)) ↦ absurd (free a l q (ap is_site_block e ∙ t))
    ]

not_a_site :
    (incoming a : Block)
    → is_site_block incoming ≡ false
    → absorbs incoming a ≡ true
    → is_site_block (merge_into incoming a) ≡ false
not_a_site incoming a n q =
    is_site_block-keys (merge_into incoming a) a (keys-merge_into_no_site incoming a n)
    ∙ (absorbs-is_site_block incoming a q ∙ n)

IsAddress-merged :
    (base : Container) (incoming first : Block) (extras : List Block) (k : Text)
    → is_site_block incoming ≡ true
    → keep (overlaps incoming) (to_list base) ≡ first ∷ extras
    → IsAddress
        (replace_matches incoming
          (foldl merge_site_blocks (merge_site_blocks first incoming) extras)
          base)
        k
    → IsAddressOfBoth base incoming k
IsAddress-merged base incoming first extras k s e (d, i, t, j) =
    elim (replace_matches-In incoming _ d base i) [
      | inr l ↦ inl (d, l, t, j)
      | inl q ↦ elim (merged-In k extras _ (subst (λ z. In k (keys z)) (sym q) j)) [
        | inl l ↦ elim (merge_site_blocks-In first incoming k l) [
          | inl m ↦ inl (of_match first (inl refl) m)
          | inr m ↦ inr (s, m)
        ]
        | inr (m, l, n) ↦ inl (of_match m (inr l) n)
      ]
    ]
  where
    of_match : (m : Block) → In m (first ∷ extras) → In k (keys m) → IsAddress base k
    of_match m l n =
        let found = In-keep (overlaps incoming) (to_list base) m (subst (In m) (sym e) l) in
        (m, found.0, (&&-true found.1).0, n)

IsAddress-merge_site :
    (base : Container) (incoming : Block) (k : Text)
    → IsAddress (merge_site base incoming) k
    → IsAddressOfBoth base incoming k
unfolding merge_site
IsAddress-merge_site base incoming k h = elim (Bool-cases (is_site_block incoming)) [
  | inl s ↦ found (keep (overlaps incoming) (to_list base)) refl s
  | inr n ↦
      IsAddress-merge base incoming k (λ a i q t. not_true_and_false t (not_a_site incoming a n q))
        (rw (merge_site, n) at h)
]
  where
    found :
        (ms : List Block)
        → keep (overlaps incoming) (to_list base) ≡ ms
        → is_site_block incoming ≡ true
        → IsAddressOfBoth base incoming k
    found [] e s =
        IsAddress-merge base incoming k
          (λ a i q t. not_true_and_false q (not_absorbed base incoming s e a i))
          (rw (merge_site, s, e) at h)
    found (first ∷ extras) e s =
        IsAddress-merged base incoming first extras k s e (rw (merge_site, s, e) at h)

-- mergeCaddyfile with MergeSites makes no site address up: each key of a site block of the result is a
-- key of a site block of the base or of one that comes in.
pub IsAddress-merge_sites :
    (base incoming : Container) (k : Text)
    → IsAddress (merge_caddyfile true base incoming) k
    → IsAddress base k ⊎ IsAddress incoming k
unfolding merge_caddyfile merge_sites
IsAddress-merge_sites base nil k h = inl h
IsAddress-merge_sites base (cons b bs) k h =
    elim (IsAddress-merge_sites (merge_site base b) bs k h) [
      | inr (d, i, t, j) ↦ inr (d, inr i, t, j)
      | inl a ↦ elim (IsAddress-merge_site base b k a) [
        | inl l ↦ inl l
        | inr (s, j) ↦ inr (b, inl refl, s, j)
      ]
    ]
