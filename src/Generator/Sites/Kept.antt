-- ===== src/Generator/Sites/Kept.antt =====
-- mergeCaddyfile with MergeSites loses no site address.
use caddy_docker_proxy.Caddyfile.Block.{Block, Container, nil, cons, keys, to_list}
use caddy_docker_proxy.Caddyfile.Merge.{absorbs, merge_into, merge}
use caddy_docker_proxy.Generator.Sites.{
  is_site_block, overlaps, merge_site_blocks, replace_matches, merge_site, merge_sites,
  merge_caddyfile,
}
use caddy_docker_proxy.Generator.Sites.Absorbs.{absorbs-is_site_block, absorbs-overlaps}
use caddy_docker_proxy.Generator.Sites.Members.{
  not_true_and_false, In-merge_site_blocks, In-acc, In-merged, merge_site_blocks-is_site_block,
  foldl-is_site_block, In-unmatched, In-target, In-change_first, In-change_first_new,
}
use caddy_docker_proxy.Prelude.{
  ◌≡◌, refl, sym, ap, subst, ◌∙◌, ◌⊎◌, inl, inr, true, false, List, [], ◌∷◌, keep, All, In,
  All-tabulate, In-keep, keep-In, Bool-cases, &&-true, Text,
}
use mathlib.Core.List.{foldl}

-- The address stands in a site block of the container.
abbrev pub IsAddress : Container → Text → Type 0
IsAddress c k = (b : Block) × In b (to_list c) × (is_site_block b ≡ true) × In k (keys b)

-- An address of the base or of the incoming block.
abbrev pub IsAddressOfBoth : Container → Block → Text → Type 0
IsAddressOfBoth base incoming k =
    IsAddress base k ⊎ ((is_site_block incoming ≡ true) × In k (keys incoming))

-- Where a block is absorbed by no site, Merge loses no address of the base.
merge-IsAddress_base :
    (base : Container) (incoming : Block) (k : Text)
    → ((a : Block) → In a (to_list base) → is_site_block a ≡ true → absorbs incoming a ≡ false)
    → IsAddress base k
    → IsAddress (merge base (cons incoming nil)) k
unfolding merge
merge-IsAddress_base base incoming k free (a, i, t, j) = (
  a,
  In-change_first (absorbs incoming) (merge_into incoming) incoming a base i (free a i t),
  t,
  j,
)

merge-IsAddress_new :
    (base : Container) (incoming : Block) (k : Text)
    → All (λ a. absorbs incoming a ≡ false) (to_list base)
    → is_site_block incoming ≡ true
    → In k (keys incoming)
    → IsAddress (merge base (cons incoming nil)) k
unfolding merge
merge-IsAddress_new base incoming k free s j = (
  incoming,
  In-change_first_new (absorbs incoming) (merge_into incoming) incoming base free,
  s,
  j,
)

-- A site that overlaps no site is absorbed by no block.
pub not_absorbed :
    (base : Container) (incoming : Block)
    → is_site_block incoming ≡ true
    → keep (overlaps incoming) (to_list base) ≡ []
    → (a : Block) → In a (to_list base)
    → absorbs incoming a ≡ false
not_absorbed base incoming s e a i = elim (Bool-cases (absorbs incoming a)) [
  | inr f ↦ f
  | inl h ↦ absurd (
      subst (In a) e
        (keep-In (overlaps incoming) (to_list base) a i (absorbs-overlaps incoming a s h)))
]

-- The address stands in the block that the matches are merged into, or its block has no match.
merged-IsAddress :
    (base : Container) (incoming first : Block) (extras : List Block) (k : Text)
    → keep (overlaps incoming) (to_list base) ≡ first ∷ extras
    → IsAddressOfBoth base incoming k
    → IsAddress
        (replace_matches incoming
          (foldl merge_site_blocks (merge_site_blocks first incoming) extras)
          base)
        k
merged-IsAddress base incoming first extras k e h = elim h [
  | inl (a, i, t, j) ↦ elim (Bool-cases (overlaps incoming a)) [
    | inl o ↦
        in_target (of_match a (subst (In a) e (keep-In (overlaps incoming) (to_list base) a i o)) j)
    | inr o ↦ (a, In-unmatched incoming target a base i o, t, j)
  ]
  | inr (s, j) ↦ in_target (In-acc k extras _ (In-merge_site_blocks first incoming k (inr j)))
]
  where
    target : Block
    target = foldl merge_site_blocks (merge_site_blocks first incoming) extras

    first_match : In first (to_list base) × (overlaps incoming first ≡ true)
    first_match =
        In-keep (overlaps incoming) (to_list base) first (subst (In first) (sym e) (inl refl))

    in_target : In k (keys target) → IsAddress (replace_matches incoming target base) k
    in_target j = (
      target,
      In-target incoming target first base first_match.0 first_match.1,
      foldl-is_site_block extras (merge_site_blocks first incoming)
          (merge_site_blocks-is_site_block first incoming (&&-true first_match.1).0),
      j,
    )

    of_match : (a : Block) → In a (first ∷ extras) → In k (keys a) → In k (keys target)
    of_match a (inl q) j =
        In-acc k extras _
          (In-merge_site_blocks first incoming k (inl (subst (λ z. In k (keys z)) (sym q) j)))
    of_match a (inr i) j = In-merged k extras (merge_site_blocks first incoming) a i j

merge_site-IsAddress :
    (base : Container) (incoming : Block) (k : Text)
    → IsAddressOfBoth base incoming k
    → IsAddress (merge_site base incoming) k
unfolding merge_site
merge_site-IsAddress base incoming k h = elim (Bool-cases (is_site_block incoming)) [
  | inl s ↦ found (keep (overlaps incoming) (to_list base)) refl s
  | inr n ↦
      rw (n, merge_site)
        (elim h [
          | inl a ↦ merge-IsAddress_base base incoming k (λ b i t. unabsorbed n b t) a
          | inr b ↦ absurd (not_true_and_false b.0 n)
        ])
]
  where
    unabsorbed :
        is_site_block incoming ≡ false
        → (b : Block) → is_site_block b ≡ true
        → absorbs incoming b ≡ false
    unabsorbed n b t = elim (Bool-cases (absorbs incoming b)) [
      | inr f ↦ f
      | inl q ↦ absurd (not_true_and_false t (absorbs-is_site_block incoming b q ∙ n))
    ]

    found :
        (ms : List Block)
        → keep (overlaps incoming) (to_list base) ≡ ms
        → is_site_block incoming ≡ true
        → IsAddress (merge_site base incoming) k
    found [] e s =
        rw (s, merge_site, e)
          (elim h [
            | inl a ↦
                merge-IsAddress_base base incoming k (λ b i t. not_absorbed base incoming s e b i) a
            | inr b ↦
                merge-IsAddress_new base incoming k
                  (All-tabulate (λ a. absorbs incoming a ≡ false) (to_list base)
                    (not_absorbed base incoming s e))
                  s b.1
          ])
    found (first ∷ extras) e s =
        rw (s, merge_site, e) (merged-IsAddress base incoming first extras k e h)

-- mergeCaddyfile with MergeSites loses no site address: each key of a site block of the base, and of
-- a site block that comes in, is a key of a site block of the result.
pub merge_sites-IsAddress :
    (base incoming : Container) (k : Text)
    → IsAddress base k ⊎ IsAddress incoming k
    → IsAddress (merge_caddyfile true base incoming) k
unfolding merge_caddyfile merge_sites
merge_sites-IsAddress base nil k (inl a) = a
merge_sites-IsAddress base nil k (inr a) = absurd a.1
merge_sites-IsAddress base (cons b bs) k (inl a) =
    merge_sites-IsAddress (merge_site base b) bs k (inl (merge_site-IsAddress base b k (inl a)))
merge_sites-IsAddress base (cons b bs) k (inr (d, inl e, t, j)) =
    merge_sites-IsAddress (merge_site base b) bs k (
      inl (
        merge_site-IsAddress base b k
          (inr (ap is_site_block e ∙ t, subst (λ z. In k (keys z)) (sym e) j))))
merge_sites-IsAddress base (cons b bs) k (inr (d, inr i, t, j)) =
    merge_sites-IsAddress (merge_site base b) bs k (inr (d, i, t, j))
