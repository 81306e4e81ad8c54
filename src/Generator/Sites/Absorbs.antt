-- ===== src/Generator/Sites/Absorbs.antt =====
-- What absorbs a site block in Merge overlaps it.
use caddy_docker_proxy.Caddyfile.Block.{Block, block, keys, get_first_key}
use caddy_docker_proxy.Caddyfile.Marshal.{is_nil}
use caddy_docker_proxy.Caddyfile.Merge.{
  get_matcher, keys_are_equal, blocks_are_equal, is_reverse_proxy_like, joins_proxy, absorbs,
  proxy_keys, merge_into,
}
use caddy_docker_proxy.Caddyfile.Merge.Keeps.{keys_are_equal→eq, keys-merge_into}
use caddy_docker_proxy.Generator.Sites.{is_site_block, shared_keys, overlaps}
use caddy_docker_proxy.Prelude.{
  ◌≡◌, refl, sym, ◌∙◌, ◌⊎◌, inl, inr, Bool, true, false, ◌&&◌, ◌||◌, List, [], ◌∷◌, ◌++◌,
  append-nil, In→has_member, if◌then◌else◌, Bool-cases, &&-true, Text, codes, text_eq, text_eq_iff,
}

-- Whether a block is a site depends on its keys.
pub is_site_block-keys : (a b : Block) → keys a ≡ keys b → is_site_block a ≡ is_site_block b
unfolding is_site_block
is_site_block-keys (block cs o ks) (block ds p js) e = rw e (same_keys js)
  where
    same_keys : (js : List Text) → is_site_block (block cs o js) ≡ is_site_block (block ds p js)
    same_keys [] = refl
    same_keys (j ∷ []) = refl
    same_keys (j ∷ k ∷ js) = refl

-- A block whose first key names a reverse proxy is a site block, as mergeCaddyfile reads it.
proxy-is_site_block :
    (b : Block) → is_reverse_proxy_like (get_first_key b) ≡ true → is_site_block b ≡ true
unfolding is_reverse_proxy_like get_first_key
proxy-is_site_block (block cs o []) h = unfold text_eq in cc
proxy-is_site_block (block cs o (k ∷ ks)) h =
    elim (Bool-cases (text_eq k (codes "reverse_proxy"))) [
      | inl e ↦ rw ((text_eq_iff k (codes "reverse_proxy")).0 e) (is_site_name ks)
      | inr e ↦ rw ((text_eq_iff k (codes "php_fastcgi")).0 (rw e at h)) (is_site_name' ks)
    ]
  where
    is_site_name : (ks : List Text) → is_site_block (block cs o (codes "reverse_proxy" ∷ ks)) ≡ true
    is_site_name [] = unfold is_site_block in refl
    is_site_name (j ∷ ks) = unfold is_site_block in refl

    is_site_name' : (ks : List Text) → is_site_block (block cs o (codes "php_fastcgi" ∷ ks)) ≡ true
    is_site_name' [] = unfold is_site_block in refl
    is_site_name' (j ∷ ks) = unfold is_site_block in refl

-- The two ways in which `a` absorbs `b`.
absorbs-cases :
    (b a : Block)
    → absorbs b a ≡ true
    → (get_first_key a ≡ get_first_key b)
      × ((is_reverse_proxy_like (get_first_key b) ≡ true) ⊎ (keys a ≡ keys b))
unfolding absorbs joins_proxy blocks_are_equal
absorbs-cases b a h = (
  (text_eq_iff (get_first_key a) (get_first_key b)).0 (&&-true h).0,
  cases (is_reverse_proxy_like (get_first_key b)) (text_eq (get_matcher a) (get_matcher b))
      (keys_are_equal (keys a) (keys b)) (&&-true h).1 (keys_are_equal→eq (keys a) (keys b)),
)
  where
    cases :
        (x y z : Bool)
        → ((x && y) || z) ≡ true
        → (z ≡ true → keys a ≡ keys b)
        → (x ≡ true) ⊎ (keys a ≡ keys b)
    cases true y z e f = inl refl
    cases false y z e f = inr (f e)

pub absorbs-is_site_block : (b a : Block) → absorbs b a ≡ true → is_site_block a ≡ is_site_block b
absorbs-is_site_block b a h = elim (absorbs-cases b a h).1 [
  | inl p ↦ proxy-is_site_block a (rw (absorbs-cases b a h).0 p) ∙ sym (proxy-is_site_block b p)
  | inr e ↦ is_site_block-keys a b e
]

-- A block that is no site adds no keys to the block that absorbs it.
pub keys-merge_into_no_site :
    (b a : Block) → is_site_block b ≡ false → keys (merge_into b a) ≡ keys a
keys-merge_into_no_site b a n = rw (keys-merge_into b a) (no_more (joins_proxy b a) refl)
  where
    no_more :
        (t : Bool)
        → joins_proxy b a ≡ t
        → keys a ++ (if t then proxy_keys (keys b) else []) ≡ keys a
    no_more true e =
        absurd (clash (sym n ∙ proxy-is_site_block b (unfold joins_proxy in (&&-true e).0)))
      where
        clash : false ≡ true → ⊥
        clash c = cc
    no_more false e = append-nil (keys a)

first_key_shared :
    (b a : Block)
    → get_first_key a ≡ get_first_key b
    → is_site_block a ≡ true
    → is_site_block b ≡ true
    → is_nil (shared_keys a b) ≡ false
unfolding get_first_key shared_keys is_site_block
first_key_shared (block ds p []) (block cs o ks) e s t = cc
first_key_shared (block ds p (j ∷ js)) (block cs o []) e s t = cc
first_key_shared (block ds p (j ∷ js)) (block cs o (k ∷ ks)) e s t =
    rw (In→has_member j (k ∷ ks) (inl e))

-- What absorbs a site block is one of its overlapping sites.
pub absorbs-overlaps :
    (b a : Block) → is_site_block b ≡ true → absorbs b a ≡ true → overlaps b a ≡ true
absorbs-overlaps b a s h =
    let t = absorbs-is_site_block b a h ∙ s in
    rw (t, first_key_shared b a (absorbs-cases b a h).0 t s)
