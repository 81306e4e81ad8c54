-- ===== src/Generator/Sites/Unique.antt =====
-- mergeCaddyfile with MergeSites keeps site addresses unique.
use caddy_docker_proxy.Caddyfile.Block.{Block, Container, nil, cons, keys, to_list}
use caddy_docker_proxy.Caddyfile.Merge.{absorbs, change_first, merge_into, merge}
use caddy_docker_proxy.Generator.Sites.{
  is_site_block, overlaps, merge_site_blocks, replace_matches, merge_site, merge_sites,
  merge_caddyfile,
}
use caddy_docker_proxy.Generator.Sites.Absorbs.{
  is_site_block-keys, absorbs-is_site_block, keys-merge_into_no_site, absorbs-overlaps,
}
use caddy_docker_proxy.Generator.Sites.Disjoint.{
  Free, HasUniqueSites, Free-sym, Free-of_incoming, Free-of_matches, All-merge_site_blocks,
  All-merged, replace_matches-IsUnique,
}
use caddy_docker_proxy.Prelude.{
  ◌≡◌, refl, sym, subst, ◌∙◌, inl, inr, Bool, true, false, List, [], ◌∷◌, keep, All, In, All-lookup,
  All-tabulate, In-keep, keep-In, Bool-cases, &&-true, Text,
}
use mathlib.Core.List.{foldl}

-- A block that is free of all blocks that are merged is free of the merged one.
target-Free :
    (incoming first : Block) (extras : List Block) (b : Block)
    → is_site_block first ≡ true
    → All (λ m. is_site_block m ≡ true) extras
    → (is_site_block b ≡ true → (k : Text) → In k (keys b) → In k (keys incoming) → ⊥)
    → Free b first
    → All (Free b) extras
    → Free (foldl merge_site_blocks (merge_site_blocks first incoming) extras) b
target-Free incoming first extras b s ss apart f fs t u k i j =
    All-lookup (λ x. In x (keys b) → ⊥)
      (keys (foldl merge_site_blocks (merge_site_blocks first incoming) extras)) k
      (All-merged (λ x. In x (keys b) → ⊥) (merge_site_blocks first incoming) extras
        (All-merge_site_blocks (λ x. In x (keys b) → ⊥) first incoming
          (All-tabulate (λ x. In x (keys b) → ⊥) (keys first) (λ x a c. f u s x c a))
          (All-tabulate (λ x. In x (keys b) → ⊥) (keys incoming) (λ x a c. apart u x c a)))
        (not_in extras ss fs))
      i j
  where
    not_in :
        (ms : List Block)
        → All (λ m. is_site_block m ≡ true) ms
        → All (Free b) ms
        → All (λ m. All (λ x. In x (keys b) → ⊥) (keys m)) ms
    not_in [] ss fs = tt
    not_in (m ∷ ms) ss fs = (
      All-tabulate (λ x. In x (keys b) → ⊥) (keys m) (λ x a c. fs.0 u ss.0 x c a),
      not_in ms ss.1 fs.1,
    )

matches_are_sites :
    (incoming : Block) (bs : List Block)
    → All (λ m. is_site_block m ≡ true) (keep (overlaps incoming) bs)
matches_are_sites incoming bs =
    All-tabulate (λ m. is_site_block m ≡ true) (keep (overlaps incoming) bs)
      (λ m i. (&&-true (In-keep (overlaps incoming) bs m i).1).0)

-- Where there are matches.
merged-IsUnique :
    (incoming : Block) (base : Container) (first : Block) (extras : List Block)
    → HasUniqueSites base
    → keep (overlaps incoming) (to_list base) ≡ first ∷ extras
    → HasUniqueSites (
        replace_matches incoming
          (foldl merge_site_blocks (merge_site_blocks first incoming) extras)
          base)
merged-IsUnique incoming base first extras u e =
    replace_matches-IsUnique incoming
      (foldl merge_site_blocks (merge_site_blocks first incoming) extras) base u
      (λ b i q.
        let frees = rw e at (Free-of_matches (overlaps incoming) (to_list base) b u i q) in
        let sites = rw e at (matches_are_sites incoming (to_list base)) in
        target-Free incoming first extras b sites.0 sites.1 (Free-of_incoming incoming b q) frees.0
          frees.1)

-- A block that no other absorbs goes to the end; else its taker keeps its keys, or is no site.
module _ (incoming : Block) where
  -- What a block that absorbs the incoming one must be.
  abbrev Harmless : Block → Type 0
  Harmless a =
      absorbs incoming a ≡ true
      → (is_site_block a ≡ false) × (keys (merge_into incoming a) ≡ keys a)

  Free-keys :
      (a b c : Block) → keys b ≡ keys a → is_site_block b ≡ is_site_block a → Free a c → Free b c
  Free-keys a b c e f h s t k i j = h (sym f ∙ s) t k (subst (In k) e i) j

  change_first-IsUnique :
      (cs : Container)
      → HasUniqueSites cs
      → All Harmless (to_list cs)
      → All (λ a. Free a incoming) (to_list cs)
      → HasUniqueSites (change_first (absorbs incoming) (merge_into incoming) incoming cs)
  unfolding change_first
  change_first-IsUnique nil u h f = (tt, tt)
  change_first-IsUnique (cons a cs) u h f = elim (Bool-cases (absorbs incoming a)) [
    | inl e ↦ rw e (
      All-tabulate (Free (merge_into incoming a)) (to_list cs) (λ c i.
          Free-keys a (merge_into incoming a) c (h.0 e).1
            (is_site_block-keys (merge_into incoming a) a (h.0 e).1)
            (All-lookup (Free a) (to_list cs) c u.0 i)),
      u.1,
    )
    | inr e ↦ rw e (All-changed a cs u.0 h.1 f.0, change_first-IsUnique cs u.1 h.1 f.1)
  ]
    where
      All-changed :
          (a : Block) (ds : Container)
          → All (Free a) (to_list ds)
          → All Harmless (to_list ds)
          → Free a incoming
          → All
              (Free a)
              (to_list (change_first (absorbs incoming) (merge_into incoming) incoming ds))
      All-changed a nil h k g = (g, tt)
      All-changed a (cons d ds) h k g = elim (Bool-cases (absorbs incoming d)) [
        | inl q ↦ rw q (
          Free-sym (merge_into incoming d) a (
              Free-keys d (merge_into incoming d) a (k.0 q).1
                (is_site_block-keys (merge_into incoming d) d (k.0 q).1) (Free-sym a d h.0)),
          h.1,
        )
        | inr q ↦ rw q (h.0, All-changed a ds h.1 k.1 g)
      ]

not_both : {t : Bool} → t ≡ false → t ≡ true → ⊥
not_both {t} e f = cc

-- A block of the incoming container that is no site.
merge-IsUnique_no_site :
    (incoming : Block) (base : Container)
    → HasUniqueSites base
    → is_site_block incoming ≡ false
    → HasUniqueSites (merge base (cons incoming nil))
unfolding merge
merge-IsUnique_no_site incoming base u n =
    change_first-IsUnique incoming base u
      (All-tabulate (Harmless incoming) (to_list base)
        (λ a i h. (absorbs-is_site_block incoming a h ∙ n, keys-merge_into_no_site incoming a n)))
      (All-tabulate (λ a. Free a incoming) (to_list base) (λ a i s t k x y. not_both n t))

-- A site block that overlaps no site.
merge-IsUnique :
    (incoming : Block) (base : Container)
    → HasUniqueSites base
    → is_site_block incoming ≡ true
    → keep (overlaps incoming) (to_list base) ≡ []
    → HasUniqueSites (merge base (cons incoming nil))
unfolding merge
merge-IsUnique incoming base u s none_overlap =
    change_first-IsUnique incoming base u
      (All-tabulate (Harmless incoming) (to_list base)
        (λ a i h. absurd (no_overlap a i (absorbs-overlaps incoming a s h))))
      (All-tabulate (λ a. Free a incoming) (to_list base)
        (λ a i. elim (Bool-cases (overlaps incoming a)) [
          | inl o ↦ absurd (no_overlap a i o)
          | inr o ↦ λ t v k x y. Free-of_incoming incoming a o t k x y
        ]))
  where
    no_overlap : (a : Block) → In a (to_list base) → overlaps incoming a ≡ true → ⊥
    no_overlap a i o = subst (In a) none_overlap (keep-In (overlaps incoming) (to_list base) a i o)

merge_site-IsUnique :
    (base : Container) (incoming : Block)
    → HasUniqueSites base
    → HasUniqueSites (merge_site base incoming)
unfolding merge_site
merge_site-IsUnique base incoming u = elim (Bool-cases (is_site_block incoming)) [
  | inl s ↦ found (keep (overlaps incoming) (to_list base)) refl s
  | inr n ↦ rw (n, merge_site) (merge-IsUnique_no_site incoming base u n)
]
  where
    found :
        (ms : List Block)
        → keep (overlaps incoming) (to_list base) ≡ ms
        → is_site_block incoming ≡ true
        → HasUniqueSites (merge_site base incoming)
    found [] e s = rw (s, merge_site, e) (merge-IsUnique incoming base u s e)
    found (first ∷ extras) e s =
        rw (s, merge_site, e) (merged-IsUnique incoming base first extras u e)

-- If no site address stands in two site blocks of the base, none does after mergeCaddyfile with
-- MergeSites, whatever container comes in.
pub merge_sites-HasUniqueSites :
    (base incoming : Container)
    → HasUniqueSites base
    → HasUniqueSites (merge_caddyfile true base incoming)
unfolding merge_caddyfile merge_sites
merge_sites-HasUniqueSites base nil u = u
merge_sites-HasUniqueSites base (cons b bs) u =
    merge_sites-HasUniqueSites (merge_site base b) bs (merge_site-IsUnique base b u)
