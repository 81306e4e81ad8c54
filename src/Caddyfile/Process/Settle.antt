-- ===== src/Caddyfile/Process/Settle.antt =====
-- Sorting the new container keeps the other blocks in place, and the number of the keys that the
-- current block has.
use caddy_docker_proxy.Caddyfile.Block.{Block, block, Container, keys}
use caddy_docker_proxy.Caddyfile.Compare.{compare_blocks}
use caddy_docker_proxy.Caddyfile.Process.{
  Marked, block_of, sort_marked, remove_key, remove_block_key, remove_current_key, is_other,
  remove_current, unmark,
}
use caddy_docker_proxy.Caddyfile.Sort.{is_less, insert_by, slice_stable, sort_block, sort}
use caddy_docker_proxy.Caddyfile.Sort.Shuffle.{sort-sort}
use caddy_docker_proxy.Caddyfile.Sort.Stable.{
  slice_stable-IsSorted, slice_stable_self, keep-slice_stable,
}
use caddy_docker_proxy.Prelude.{
  ℕ, ◌+◌, ◌≡◌, refl, ap, ap₂, ◌∙◌, inl, inr, true, false, List, [], ◌∷◌, map, arith, length, keep,
  All, if◌then◌else◌, Bool-cases, &&-true, Text,
}

All-insert_by :
    (P : Marked → Type 0) (e : Marked) (es : List Marked)
    → P e
    → All P es
    → All P (insert_by block_of e es)
unfolding insert_by
All-insert_by P e [] h k = (h, tt)
All-insert_by P e (f ∷ es) h k =
    elim (Bool-cases (is_less (compare_blocks (block_of f) (block_of e)))) [
      | inl p ↦ rw p (k.0, All-insert_by P e es h k.1)
      | inr p ↦ rw p (h, k)
    ]

All-slice_stable :
    (P : Marked → Type 0) (es : List Marked) → All P es → All P (slice_stable block_of es)
unfolding slice_stable
All-slice_stable P [] k = tt
All-slice_stable P (e ∷ es) k =
    All-insert_by P e (slice_stable block_of es) k.0 (All-slice_stable P es k.1)

abbrev deep : Marked → Marked
deep e = (e.0, sort_block e.1)

-- The children of a sorted block are sorted.
pub sort_block-sort_block : (b : Block) → sort_block (sort_block b) ≡ sort_block b
unfolding sort_block sort
sort_block-sort_block (block cs o ks) = ap (λ (ds : Container). block ds o ks) (sort-sort cs)

abbrev IsDeep : Marked → Type 0
IsDeep e = sort_block e.1 ≡ e.1

deep-IsDeep : (es : List Marked) → All IsDeep (map deep es)
deep-IsDeep [] = tt
deep-IsDeep (e ∷ es) = (sort_block-sort_block e.1, deep-IsDeep es)

map-deep_self : (es : List Marked) → All IsDeep es → map deep es ≡ es
map-deep_self [] h = refl
map-deep_self (e ∷ es) h = ap₂ ◌∷◌ (λ i. (e.0, h.0 i)) (map-deep_self es h.1)

pub sort_marked-sort_marked : (es : List Marked) → sort_marked (sort_marked es) ≡ sort_marked es
unfolding sort_marked
sort_marked-sort_marked es =
    ap (slice_stable block_of) (
      map-deep_self (slice_stable block_of (map deep es))
        (All-slice_stable IsDeep (map deep es) (deep-IsDeep es)))
    ∙ slice_stable_self block_of (slice_stable block_of (map deep es))
        (slice_stable-IsSorted block_of (map deep es))

map-unmark-insert_by :
    (e : Marked) (es : List Marked)
    → map unmark (insert_by block_of e es) ≡ insert_by block_of (unmark e) (map unmark es)
unfolding insert_by
map-unmark-insert_by e [] = refl
map-unmark-insert_by e (f ∷ es) =
    elim (Bool-cases (is_less (compare_blocks (block_of f) (block_of e)))) [
      | inl p ↦ rw (p, map-unmark-insert_by e es)
      | inr p ↦ rw p
    ]

map-unmark-slice_stable :
    (es : List Marked)
    → map unmark (slice_stable block_of (map deep es))
      ≡ slice_stable block_of (map deep (map unmark es))
unfolding slice_stable
map-unmark-slice_stable [] = refl
map-unmark-slice_stable (e ∷ es) =
    map-unmark-insert_by (deep e) (slice_stable block_of (map deep es))
    ∙ ap (insert_by block_of (unmark (deep e))) (map-unmark-slice_stable es)

pub map-unmark-sort_marked :
    (es : List Marked) → map unmark (sort_marked es) ≡ sort_marked (map unmark es)
unfolding sort_marked
map-unmark-sort_marked es = map-unmark-slice_stable es

keep-map-deep : (es : List Marked) → keep is_other (map deep es) ≡ map deep (keep is_other es)
keep-map-deep [] = refl
keep-map-deep ((true, b) ∷ es) = keep-map-deep es
keep-map-deep ((false, b) ∷ es) = ap (◌∷◌ (false, sort_block b)) (keep-map-deep es)

-- Without the current block the sorted container is the other blocks, sorted.
pub remove_current-sort_marked :
    (es : List Marked) → remove_current (sort_marked es) ≡ sort_marked (remove_current es)
unfolding sort_marked
remove_current-sort_marked es =
    keep-slice_stable block_of is_other (map deep es)
    ∙ ap (slice_stable block_of) (keep-map-deep es)

pub remove_current-remove_current_key :
    (key : Text) (es : List Marked)
    → remove_current (remove_current_key key es).1 ≡ remove_current es
unfolding remove_current_key
remove_current-remove_current_key key [] = refl
remove_current-remove_current_key key ((false, b) ∷ es) =
    ap (◌∷◌ (false, b)) (remove_current-remove_current_key key es)
remove_current-remove_current_key key ((true, b) ∷ es) = refl

-- The number of keys of the marked blocks.
abbrev pub key_count : Marked → ℕ
key_count e = if e.0 then length (keys e.1) else 0

abbrev pub current_keys : List Marked → ℕ
current_keys [] = 0
current_keys (e ∷ es) = key_count e + current_keys es

current_keys-insert_by :
    (e : Marked) (es : List Marked)
    → current_keys (insert_by block_of e es) ≡ key_count e + current_keys es
unfolding insert_by
current_keys-insert_by e [] = refl
current_keys-insert_by e (f ∷ es) =
    elim (Bool-cases (is_less (compare_blocks (block_of f) (block_of e)))) [
      | inl p ↦ rw p (omega (arith, current_keys-insert_by e es))
      | inr p ↦ rw p
    ]

keys-sort_block : (b : Block) → keys (sort_block b) ≡ keys b
unfolding sort_block
keys-sort_block (block cs o ks) = refl

key_count-deep : (e : Marked) → key_count (deep e) ≡ key_count e
key_count-deep (true, b) = ap length (keys-sort_block b)
key_count-deep (false, b) = refl

current_keys-slice_stable :
    (es : List Marked) → current_keys (slice_stable block_of (map deep es)) ≡ current_keys es
unfolding slice_stable
current_keys-slice_stable [] = refl
current_keys-slice_stable (e ∷ es) =
    current_keys-insert_by (deep e) (slice_stable block_of (map deep es))
    ∙ ap₂ ◌+◌ (key_count-deep e) (current_keys-slice_stable es)

pub current_keys-sort_marked : (es : List Marked) → current_keys (sort_marked es) ≡ current_keys es
unfolding sort_marked
current_keys-sort_marked = current_keys-slice_stable

length-remove_key :
    (key : Text) (ks : List Text)
    → (remove_key key ks).0 ≡ true
    → length (remove_key key ks).1 + 1 ≡ length ks
unfolding remove_key
length-remove_key key [] h = cc
length-remove_key key (k ∷ ks) h = ground (arith, length-remove_key key ks)

length-remove_block_key :
    (key : Text) (b : Block)
    → (remove_block_key key b).0 ≡ true
    → length (keys (remove_block_key key b).1) + 1 ≡ length (keys b)
unfolding remove_block_key
length-remove_block_key [] b h = cc
length-remove_block_key (c ∷ cs) (block ds o ks) h = length-remove_key (c ∷ cs) ks h

-- Where the inner loop goes on, the current block has lost one key.
pub current_keys-remove_current_key :
    (key : Text) (es : List Marked)
    → (remove_current_key key es).0 ≡ true
    → current_keys (remove_current_key key es).1 + 1 ≡ current_keys es
unfolding remove_current_key
current_keys-remove_current_key key [] h = cc
current_keys-remove_current_key key ((false, b) ∷ es) h =
    omega (arith, current_keys-remove_current_key key es h)
current_keys-remove_current_key key ((true, b) ∷ es) h =
    omega (arith, length-remove_block_key key b (&&-true h).0)
