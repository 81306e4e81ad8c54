-- ===== src/Generator/Tests.antt =====
-- Runs of package generator, and the theorems at concrete inputs.
use caddy_docker_proxy.Caddyfile.Block.{Block, block, Container, nil, cons, max_int32}
use caddy_docker_proxy.Generator.Labels.{
  protocol, port, upstreams, apply_default_import, filter_labels,
}
use caddy_docker_proxy.Generator.Labels.Targets.{upstreams-Perm}
use caddy_docker_proxy.Generator.Sites.{is_site_block, merge_caddyfile}
use caddy_docker_proxy.Generator.Sites.Disjoint.{HasUniqueSites}
use caddy_docker_proxy.Generator.Sites.Kept.{IsAddress, merge_sites-IsAddress}
use caddy_docker_proxy.Generator.Sites.Sound.{IsAddress-merge_sites}
use caddy_docker_proxy.Generator.Sites.Unique.{merge_sites-HasUniqueSites}
use caddy_docker_proxy.Prelude.{
  ◌≡◌, refl, sym, ◌∙◌, ◌⊎◌, inl, inr, true, false, Perm, [], ◌∷◌, pos, In, ok, Text, codes, text_eq,
  text_eq_iff,
}
use mathlib.Core.List.Perm
use Prim.Native.String.{String}

abbrev address : String → Container → Block
address s cs = block cs 0 (codes s ∷ [])

abbrev base : Container
base = cons (address "a.com" nil) (cons (address "(s)" nil) (cons (address "b.com" nil) nil))

abbrev incoming : Container
incoming = cons (block nil 0 (codes "b.com" ∷ codes "a.com" ∷ codes "c.com" ∷ [])) nil

-- Both sites of the base go into one.
merges_sites :
    merge_caddyfile true base incoming
    ≡ cons
        (block nil 0 (codes "a.com" ∷ codes "b.com" ∷ codes "c.com" ∷ []))
        (cons (address "(s)" nil) nil)
unfolding merge_caddyfile
merges_sites = refl

two_addresses : text_eq (codes "a.com") (codes "b.com") ≡ false
unfolding text_eq
two_addresses = refl

base-HasUniqueSites : HasUniqueSites base
unfolding is_site_block
base-HasUniqueSites =
    ((λ s t k i j. cc, (λ s t k i j. differ k i j, tt)), ((λ s t k i j. cc, tt), (tt, tt)))
  where
    true_not_false : true ≡ false → ⊥
    true_not_false e = cc

    apart : codes "a.com" ≡ codes "b.com" → ⊥
    apart e =
        true_not_false (sym ((text_eq_iff (codes "a.com") (codes "b.com")).1 e) ∙ two_addresses)

    differ : (k : Text) → In k (codes "a.com" ∷ []) → In k (codes "b.com" ∷ []) → ⊥
    differ k (inl e) (inl f) = apart (e ∙ sym f)
    differ k (inl e) (inr f) = f
    differ k (inr e) f = e

merge_sites-HasUniqueSites_example : HasUniqueSites (merge_caddyfile true base incoming)
merge_sites-HasUniqueSites_example = merge_sites-HasUniqueSites base incoming base-HasUniqueSites

merge_sites-IsAddress_example : IsAddress (merge_caddyfile true base incoming) (codes "a.com")
unfolding is_site_block
merge_sites-IsAddress_example =
    merge_sites-IsAddress base incoming (codes "a.com")
      (inl (address "a.com" nil, inl refl, refl, inl refl))

IsAddress-merge_sites_example : IsAddress base (codes "a.com") ⊎ IsAddress incoming (codes "a.com")
unfolding is_site_block
IsAddress-merge_sites_example = IsAddress-merge_sites base incoming (codes "a.com") (
    merge_sites-IsAddress base incoming (codes "a.com")
      (inl (address "a.com" nil, inl refl, refl, inl refl)))

swapped_targets :
    Perm (codes "10.0.0.2" ∷ codes "10.0.0.1" ∷ []) (codes "10.0.0.1" ∷ codes "10.0.0.2" ∷ [])
swapped_targets = Perm.swap (codes "10.0.0.1") (codes "10.0.0.2") []

upstreams-Perm_example :
    upstreams (ok (codes "10.0.0.2" ∷ codes "10.0.0.1" ∷ [])) (port (pos 80) ∷ [])
    ≡ upstreams (ok (codes "10.0.0.1" ∷ codes "10.0.0.2" ∷ [])) (port (pos 80) ∷ [])
upstreams-Perm_example =
    upstreams-Perm (codes "10.0.0.2" ∷ codes "10.0.0.1" ∷ [])
      (codes "10.0.0.1" ∷ codes "10.0.0.2" ∷ []) (port (pos 80) ∷ []) swapped_targets

lists_upstreams :
    upstreams
      (ok (codes "10.0.0.2" ∷ codes "10.0.0.1" ∷ []))
      (protocol (codes "http") ∷ port (pos 8080) ∷ [])
    ≡ ok (codes "http://10.0.0.1:8080 http://10.0.0.2:8080")
unfolding upstreams
lists_upstreams = refl

filters :
    filter_labels (codes "caddy") (
      (codes "caddy_1.tls", codes "x")
      ∷ (codes "caddyfile", codes "y")
      ∷ (codes "caddy", codes "z")
      ∷ [])
    ≡ (codes "caddy_1.tls", codes "x") ∷ (codes "caddy", codes "z") ∷ []
unfolding filter_labels
filters = refl

imports_default :
    apply_default_import (codes "s") (cons (address "a.com" nil) nil)
    ≡ cons (address "a.com" (cons (block nil max_int32 (codes "import" ∷ codes "s" ∷ [])) nil)) nil
unfolding apply_default_import
imports_default = refl
