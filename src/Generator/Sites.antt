-- ===== src/Generator/Sites.antt =====
-- generator/generator.go: mergeCaddyfile and its helpers. Warnings are not modelled. A pointer to a
-- block of the base is its position among the children.
pub mod Disjoint
pub mod Absorbs
pub mod Unique
pub mod Members
pub mod Kept
pub mod Sound
use caddy_docker_proxy.Caddyfile.Block.{
  Block, block, Container, nil, cons, keys, to_list, of_list, is_global_block, is_snippet,
  is_matcher,
}
use caddy_docker_proxy.Caddyfile.Marshal.{is_nil}
use caddy_docker_proxy.Caddyfile.Merge.{merge}
use caddy_docker_proxy.Prelude.{
  Bool, not, ◌&&◌, List, [], ◌∷◌, ◌++◌, keep, has_member, if◌then◌else◌, Text,
}
use mathlib.Core.List.{foldl}

unfoldable pub is_site_block : Block → Bool
unfolding is_global_block is_snippet is_matcher
is_site_block b = not (is_global_block b) && not (is_snippet b) && not (is_matcher b)

-- The keys of `b` that `a` has too.
unfoldable pub shared_keys : Block → Block → List Text
unfolding has_member
shared_keys a b = keep (λ k. has_member k (keys a)) (keys b)

abbrev pub overlaps : Block → Block → Bool
overlaps incoming existing = is_site_block existing && not (is_nil (shared_keys existing incoming))

-- The loop over the incoming keys; the first list is the map `existing`.
unfoldable pub new_keys : List Text → List Text → List Text
unfolding has_member
new_keys existing [] = []
new_keys existing (k ∷ ks) =
    let rest = new_keys (k ∷ existing) ks in
    let skipped = new_keys existing ks in if has_member k existing then skipped else k ∷ rest

unfoldable pub merge_site_blocks : Block → Block → Block
unfolding new_keys merge
merge_site_blocks (block cs o ks) (block ds p js) = block (merge cs ds) o (ks ++ new_keys ks js)

-- findOverlappingSiteBlocks, with the other children: the matches of a container, in order.
unfoldable pub find_overlapping_site_blocks : Block → Container → List Block
unfolding is_site_block shared_keys
find_overlapping_site_blocks incoming c = keep (overlaps incoming) (to_list c)

-- `matches[0]` is changed in its place, and the extra matches are removed.
unfoldable pub replace_matches : Block → Block → Container → Container
unfolding is_site_block shared_keys
replace_matches incoming target nil = nil
replace_matches incoming target (cons b cs) =
    if overlaps incoming b
    then cons target (of_list (keep (λ c. not (overlaps incoming c)) (to_list cs)))
    else cons b (replace_matches incoming target cs)

-- One round of the loop of mergeCaddyfile with MergeSites.
unfoldable pub merge_site : Container → Block → Container
unfolding find_overlapping_site_blocks merge_site_blocks replace_matches merge
merge_site base incoming =
    elim (if is_site_block incoming then find_overlapping_site_blocks incoming base else []) [
      | [] ↦ merge base (cons incoming nil)
      | first ∷ extras ↦
          replace_matches incoming
            (foldl merge_site_blocks (merge_site_blocks first incoming) extras) base
    ]

unfoldable pub merge_sites : Container → Container → Container
unfolding merge_site
merge_sites base nil = base
merge_sites base (cons b bs) = merge_sites (merge_site base b) bs

-- mergeCaddyfile; the flag is `g.options.MergeSites`.
unfoldable pub merge_caddyfile : Bool → Container → Container → Container
unfolding merge merge_sites
merge_caddyfile merges_sites base incoming =
    if merges_sites then merge_sites base incoming else merge base incoming
